-- ===== src/Smb/Collector/Laws.antt =====
-- Reassembly: what comes out is what came in, in whatever order it came.
use cifs_client_stream.Common.{
  ℕ, ◌+◌, ◌≡◌, ◌≢◌, refl, sym, ap, ◌∙◌, List, [], ◌∷◌, ◌++◌, Option, none, some, Bool, true, false,
  ltb, not, ◌==◌, if◌then◌else◌, Result, ok, err, arith, length, take, All, length-append,
  take-append_self, drop-append_self, append_assoc, append-nil, ==_iff,
}
use cifs_client_stream.Stream.Buffer.{Bytes}
use cifs_client_stream.Stream.State.Content.{slice_at}
use cifs_client_stream.Smb.Codes.{SmbError}
use cifs_client_stream.Smb.Collector.{
  Fragment, Collector, sum_lengths, place, sorted, assemble, get,
}

-- No two fragments have the same offset.
abbrev pub Distinct : List Fragment → Type 0
Distinct [] = Unit {0}
Distinct (f ∷ fs) = All (λ g. f.offset ≢ g.offset) fs × Distinct fs

-- The same fragments in another order.
pub data Reordered : List Fragment → List Fragment → Type 0 where
  none_left : Reordered [] []
  keep : (f : Fragment) {fs gs : List Fragment} → Reordered fs gs → Reordered (f ∷ fs) (f ∷ gs)
  swap : (f g : Fragment) (fs : List Fragment) → Reordered (f ∷ g ∷ fs) (g ∷ f ∷ fs)
  chain : {fs gs hs : List Fragment} → Reordered fs gs → Reordered gs hs → Reordered fs hs

All-Reordered :
    (P : Fragment → Type 0) {fs gs : List Fragment} → Reordered fs gs → All P fs → All P gs
All-Reordered P none_left h = tt
All-Reordered P (keep f r) h = (h.0, All-Reordered P r h.1)
All-Reordered P (swap f g fs) h = (h.1.0, (h.0, h.1.1))
All-Reordered P (chain r₁ r₂) h = All-Reordered P r₂ (All-Reordered P r₁ h)

Distinct-Reordered : {fs gs : List Fragment} → Reordered fs gs → Distinct fs → Distinct gs
Distinct-Reordered none_left h = tt
Distinct-Reordered (keep f r) h =
    (All-Reordered (λ g. f.offset ≢ g.offset) r h.0, Distinct-Reordered r h.1)
Distinct-Reordered (swap f g fs) ((ne, hf), (hg, h)) = ((λ e. ne (sym e), hg), (hf, h))
Distinct-Reordered (chain r₁ r₂) h = Distinct-Reordered r₂ (Distinct-Reordered r₁ h)

sum_lengths-Reordered : {fs gs : List Fragment} → Reordered fs gs → sum_lengths fs ≡ sum_lengths gs
sum_lengths-Reordered none_left = refl
sum_lengths-Reordered (keep f r) = ap (λ n. length f.bytes + n) (sum_lengths-Reordered r)
sum_lengths-Reordered (swap f g fs) = omega arith
sum_lengths-Reordered (chain r₁ r₂) = sum_lengths-Reordered r₁ ∙ sum_lengths-Reordered r₂

place_swap :
    (f g : Fragment) (fs : List Fragment)
    → f.offset ≢ g.offset
    → place f (place g fs) ≡ place g (place f fs)
place_swap f g [] ne = ground arith
place_swap f g (h ∷ hs) ne = ground (arith, place_swap f g hs)

-- Sorting forgets the order of arrival.
sorted-Reordered : {fs gs : List Fragment} → Reordered fs gs → Distinct fs → sorted fs ≡ sorted gs
sorted-Reordered none_left h = refl
sorted-Reordered (keep f r) h = ap (place f) (sorted-Reordered r h.1)
sorted-Reordered (swap f g fs) h = place_swap f g (sorted fs) h.0.0
sorted-Reordered (chain r₁ r₂) h =
    sorted-Reordered r₁ h ∙ sorted-Reordered r₂ (Distinct-Reordered r₁ h)

-- Two collectors with the same total give the same answer, bytes or error, if their fragments
-- differ in the order of arrival only; no two fragments of one collector have the same offset.
pub get-Reordered :
    (fs gs : List Fragment) (total : Option ℕ)
    → Reordered fs gs
    → Distinct fs
    → get (record { fragments = fs; total = total })
      ≡ get (record { fragments = gs; total = total })
unfolding get
get-Reordered fs gs none r distinct = refl
get-Reordered fs gs (some n) r distinct =
    rw (sum_lengths-Reordered r, sorted-Reordered r distinct) refl

sum_lengths-place :
    (f : Fragment) (fs : List Fragment) → sum_lengths (place f fs) ≡ length f.bytes + sum_lengths fs
sum_lengths-place f [] = refl
sum_lengths-place f (g ∷ gs) = ground (arith, sum_lengths-place f gs)

All-place :
    (P : Fragment → Type 0) (f : Fragment) (fs : List Fragment)
    → All P (place f fs)
    → P f × All P fs
All-place P f [] h = h
All-place P f (g ∷ gs) h = go (ltb f.offset g.offset) (All-place P f gs) h
  where
    go :
        (b : Bool)
        → (All P (place f gs) → P f × All P gs)
        → All P (if b then f ∷ g ∷ gs else g ∷ place f gs)
        → P f × All P (g ∷ gs)
    go true inner (hf, hs) = (hf, hs)
    go false inner (hg, hs) = let (hf, rest) = inner hs in (hf, (hg, rest))

All-sorted : (P : Fragment → Type 0) (fs : List Fragment) → All P (sorted fs) → All P fs
All-sorted P [] h = tt
All-sorted P (f ∷ fs) h = let (hf, hs) = All-place P f (sorted fs) h in (hf, All-sorted P fs hs)

sum_lengths-sorted : (fs : List Fragment) → sum_lengths (sorted fs) ≡ sum_lengths fs
sum_lengths-sorted [] = refl
sum_lengths-sorted (f ∷ fs) =
    sum_lengths-place f (sorted fs) ∙ ap (λ n. length f.bytes + n) (sum_lengths-sorted fs)

-- A guard that was passed.
passed :
    (b : Bool) (e : SmbError) (r : Result SmbError Bytes) (out : Bytes)
    → (if not b then err e else r) ≡ ok out
    → (b ≡ true) × (r ≡ ok out)
passed true e r out h = (refl, h)
passed false e r out h = cc

-- A buffer that the loop returns holds each fragment at its offset, behind what it began with.
assemble_lem :
    (buffer : Bytes) (fs : List Fragment) (out : Bytes)
    → assemble buffer fs ≡ ok out
    → (rest : Bytes) × (out ≡ buffer ++ rest)
      × (length rest ≡ sum_lengths fs)
      × All (λ f. slice_at out f.offset (length f.bytes) ≡ f.bytes) fs
unfolding assemble
assemble_lem buffer [] out h =
    let same : buffer ≡ out = cc in ([], sym same ∙ sym (append-nil buffer), refl, tt)
assemble_lem buffer (f ∷ fs) out h =
    let (here, next) = passed (length buffer == f.offset) _ _ out h in
    let (rest, whole, size, others) = assemble_lem (buffer ++ f.bytes) fs out next in
    let at : length buffer ≡ f.offset = (==_iff (length buffer) f.offset).0 here in
    let joined : out ≡ buffer ++ (f.bytes ++ rest) = whole ∙ append_assoc buffer f.bytes rest in
    (
      f.bytes ++ rest,
      joined,
      length-append f.bytes rest ∙ ap (λ n. length f.bytes + n) size,
      (
        ap (λ n. slice_at out n (length f.bytes)) (sym at)
            ∙ ap (λ l. slice_at l (length buffer) (length f.bytes)) joined
            ∙ ap (take (length f.bytes)) (drop-append_self buffer (f.bytes ++ rest))
            ∙ take-append_self f.bytes rest,
        others,
      ),
    )

-- What `get` returns has the announced length and holds every collected fragment at its offset.
pub get_lem :
    (c : Collector) (out : Bytes)
    → get c ≡ ok out
    → (c.total ≡ some (length out))
      × All (λ f. slice_at out f.offset (length f.bytes) ≡ f.bytes) c.fragments
unfolding get
get_lem c out h = of_total c.fragments c.total out h
  where
    of_total :
        (fs : List Fragment) (total : Option ℕ) (out : Bytes)
        → get (record { fragments = fs; total = total }) ≡ ok out
        → (total ≡ some (length out))
          × All (λ f. slice_at out f.offset (length f.bytes) ≡ f.bytes) fs
    of_total fs none out h = cc
    of_total fs (some n) out h =
        let (full, next) = passed (sum_lengths fs == n) _ _ out h in
        let (rest, whole, size, held) = assemble_lem [] (sorted fs) out next in
        (
          ap some (
              sym ((==_iff (sum_lengths fs) n).0 full)
              ∙ sym (sum_lengths-sorted fs)
              ∙ sym size
              ∙ sym (ap length whole)),
          All-sorted _ fs held,
        )
