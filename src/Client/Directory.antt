-- ===== src/Client/Directory.antt =====
-- `DirectoryReader` of src/lib.rs: the pages of a directory search, over the call that asks for the
-- next page.
use cifs_client_stream.Common.{
  ℕ, ◌≡◌, ◌≢◌, ◌⊎◌, inl, inr, refl, ap, List, [], ◌∷◌, Option, none, some, Bool, true, false, ◌&&◌,
  ◌++◌, ◌∙◌, Run, done, fails, panics,
}
use cifs_client_stream.Errors.{Error, internal_error}
use cifs_client_stream.Media.Names.{Name}
use cifs_client_stream.Media.{DirInfo}

-- `FindFirst2` and `FindNext2`, which has no `sid` of its own.
pub record FindFirst2 : Type 0 where
  pub sid : ℕ
  pub end : Bool
  pub info : List DirInfo

pub record FindNext2 : Type 0 where
  pub end : Bool
  pub info : List DirInfo

pub record DirectoryReader : Type 0 where
  pub tid : ℕ
  pub sid : ℕ
  pub pending : Option (List DirInfo)
  pub last_file : Option Name
  pub end : Bool

-- `last_filename`.
abbrev pub last_filename : List DirInfo → Option Name
last_filename [] = none
last_filename (e ∷ []) = some e.filename
last_filename (e ∷ f ∷ es) = last_filename (f ∷ es)

-- `DirectoryReader::new`.
unfoldable pub new_reader : ℕ → FindFirst2 → DirectoryReader
new_reader tid reply = record {
  tid = tid;
  sid = reply.sid;
  pending = some reply.info;
  last_file = last_filename reply.info;
  end = reply.end;
}

abbrev pub is_taken : Option (List DirInfo) → Bool
is_taken none = true
is_taken (some info) = false

-- `DirectoryReader::is_done`.
abbrev pub is_done : DirectoryReader → Bool
is_done r = r.end && is_taken r.pending

-- `transact2` with `FindNext2::new(sid, last_file)`; `none` says that its fuel ran out.
abbrev pub Search : Type 0 → Type 0
Search W = ℕ → ℕ → Name → W → Option (Run Error FindNext2) × W

-- What `next` returns, with the reader and the connection behind it.
abbrev pub Step : Type 0 → Type 0
Step W = Option (Run Error (Option (List DirInfo))) × DirectoryReader × W

-- `next` behind the reply.
abbrev pub take_page : {W : Type 0} → DirectoryReader → Option (Run Error FindNext2) × W → Step W
take_page r (none, w) = (none, r, w)
take_page r (some (fails e), w) = (some (fails e), r, w)
take_page r (some panics, w) = (some panics, r, w)
take_page r (some (done page), w) = (
  some (done (some page.info)),
  record r { end = page.end; last_file = last_filename page.info },
  w,
)

-- `next` behind the test of `pending`, by `end` and `last_file`.
abbrev pub ask : {W : Type 0} → Search W → Bool → Option Name → DirectoryReader → W → Step W
ask search true last r w = (some (done none), r, w)
ask search false none r w =
    (some (fails (internal_error "directory reader lost resume point")), r, w)
ask search false (some last) r w = take_page r (search r.tid r.sid last w)

-- `DirectoryReader::next`.
abbrev pub answer : {W : Type 0} → Search W → Option (List DirInfo) → DirectoryReader → W → Step W
answer search (some info) r w = (some (done (some info)), record r { pending = none }, w)
answer search none r w = ask search r.end r.last_file r w

unfoldable pub next : {W : Type 0} → Search W → DirectoryReader → W → Step W
next search r w = answer search r.pending r w

-- What the parsers of the replies see to: a page that is not the last one has an entry.
pub record HasPages {W : Type 0} (search : Search W) : Type 0 where
  pub filled :
      (tid sid : ℕ) (last : Name) (w : W) (page : FindNext2)
      → (search tid sid last w).0 ≡ some (done page)
      → page.end ≡ false
      → page.info ≢ []

-- The search is at its end, or there is a name to go on from.
abbrev pub CanResume : DirectoryReader → Type 0
CanResume r = (r.end ≡ true) ⊎ ((last : Name) × (r.last_file ≡ some last))

pub last_filename-some :
    (es : List DirInfo) → es ≢ [] → (last : Name) × (last_filename es ≡ some last)
last_filename-some [] filled = absurd (filled refl)
last_filename-some (e ∷ []) filled = (e.filename, refl)
last_filename-some (e ∷ f ∷ es) filled = last_filename-some (f ∷ es) (λ h. absurd (cc))

-- The reader goes on from the name of the last entry.
abbrev pub GoesOnFrom : List DirInfo → DirectoryReader → Type 0
GoesOnFrom info r =
    (before : List DirInfo) (e : DirInfo) → info ≡ before ++ e ∷ [] → r.last_file ≡ some e.filename

last_filename_append :
    (before : List DirInfo) (e : DirInfo) → last_filename (before ++ e ∷ []) ≡ some e.filename
last_filename_append [] e = refl
last_filename_append (x ∷ []) e = refl
last_filename_append (x ∷ y ∷ before) e = last_filename_append (y ∷ before) e

pub last_filename-GoesOnFrom :
    (info : List DirInfo) (r : DirectoryReader)
    → r.last_file ≡ last_filename info
    → GoesOnFrom info r
last_filename-GoesOnFrom info r same before e h =
    same ∙ ap last_filename h ∙ last_filename_append before e

-- What the reply to a search makes of the reader: a page is returned and leaves the name to go on from,
-- and whether it was the last; and an error, a panic or an endless run is that of the search.
pub record Asked {W : Type 0} (r : DirectoryReader) (reply : Option (Run Error FindNext2) × W)
    (s : Step W) : Type 0 where
  pub page :
      (p : FindNext2)
      → reply.0 ≡ some (done p)
      → (s.0 ≡ some (done (some p.info)))
        × (s.1.end ≡ p.end)
        × GoesOnFrom p.info s.1
        × (s.1.pending ≡ none)
        × (s.1.tid ≡ r.tid)
        × (s.1.sid ≡ r.sid)
  pub failed : (e : Error) → reply.0 ≡ some (fails e) → (s.0 ≡ some (fails e)) × (s.1 ≡ r)
  pub panicked : reply.0 ≡ some panics → (s.0 ≡ some panics) × (s.1 ≡ r)
  pub stopped : reply.0 ≡ none → (s.0 ≡ none) × (s.1 ≡ r)
  pub world : s.2 ≡ reply.1

-- What a call of `next` does, by what the reader holds: it hands out a page that waits, once; at the end
-- it says `None` and asks nothing; and else it asks for the page behind the name to go on from.
pub record Continues {W : Type 0} (search : Search W) (r : DirectoryReader) (w : W) (s : Step W)
    : Type 0 where
  pub handed :
      (info : List DirInfo)
      → r.pending ≡ some info
      → s ≡ (some (done (some info)), record r { pending = none }, w)
  pub ended : r.pending ≡ none → r.end ≡ true → s ≡ (some (done none), r, w)
  pub asked :
      r.pending ≡ none
      → r.end ≡ false
      → (last : Name) × (r.last_file ≡ some last) × Asked r (search r.tid r.sid last w) s
  pub resumes : CanResume s.1

take_page-Asked :
    {W : Type 0} (r : DirectoryReader) (reply : Option (Run Error FindNext2) × W)
    → r.pending ≡ none
    → Asked r reply (take_page r reply)
take_page-Asked r (none, w) taken = record {
  page = λ p h. absurd (cc);
  failed = λ e h. absurd (cc);
  panicked = λ h. absurd (cc);
  stopped = λ h. (refl, refl);
  world = refl;
}
take_page-Asked r (some (fails x), w) taken = record {
  page = λ p h. absurd (cc);
  failed = λ e h. (let same : x ≡ e = cc in ap (λ y. some (fails y)) same, refl);
  panicked = λ h. absurd (cc);
  stopped = λ h. absurd (cc);
  world = refl;
}
take_page-Asked r (some panics, w) taken = record {
  page = λ p h. absurd (cc);
  failed = λ e h. absurd (cc);
  panicked = λ h. (refl, refl);
  stopped = λ h. absurd (cc);
  world = refl;
}
take_page-Asked r (some (done x), w) taken = record {
  page = λ p h.
      let same : x ≡ p = cc in
      let behind = record r { end = x.end; last_file = last_filename x.info } in
      (
        ap (λ y. some (done (some y.info))) same,
        ap (λ y. y.end) same,
        last_filename-GoesOnFrom p.info behind (ap (λ y. last_filename y.info) same),
        taken,
        refl,
        refl,
      );
  failed = λ e h. absurd (cc);
  panicked = λ h. absurd (cc);
  stopped = λ h. absurd (cc);
  world = refl;
}

module _ {W : Type 0} (search : Search W) (r : DirectoryReader) (w : W)
    (pages : HasPages search) where
  take_page-CanResume :
      (last : Name) (reply : Option (Run Error FindNext2) × W)
      → search r.tid r.sid last w ≡ reply
      → CanResume r
      → CanResume (take_page r reply).1
  take_page-CanResume last (none, w') h can = can
  take_page-CanResume last (some (fails e), w') h can = can
  take_page-CanResume last (some panics, w') h can = can
  take_page-CanResume last (some (done page), w') h can = resumed page.end refl
    where
      resumed :
          (b : Bool)
          → page.end ≡ b
          → CanResume (record r { end = page.end; last_file = last_filename page.info })
      resumed true ended = inl ended
      resumed false more = inr (
          last_filename-some page.info
            (pages.filled r.tid r.sid last w page (ap (λ x. x.0) h) more))

  ask-Continues :
      (b : Bool) (l : Option Name)
      → r.pending ≡ none
      → r.end ≡ b
      → r.last_file ≡ l
      → CanResume r
      → Continues search r w (ask search b l r w)
  ask-Continues true l taken at_end last can = record {
    handed = λ info h. absurd (cc);
    ended = λ h e. refl;
    asked = λ h e. absurd (cc);
    resumes = can;
  }
  ask-Continues false none taken more lost (inl at_end) = absurd (cc)
  ask-Continues false none taken more lost (inr (last, kept)) = absurd (cc)
  ask-Continues false (some last) taken more kept can = record {
    handed = λ info h. absurd (cc);
    ended = λ h e. absurd (cc);
    asked = λ h e. (last, kept, take_page-Asked r (search r.tid r.sid last w) taken);
    resumes = take_page-CanResume last (search r.tid r.sid last w) refl can;
  }

  -- Where every page but the last has an entry, and there is a point to go on from or the search is at
  -- its end, `next` hands out the page that waits, says `None` at the end, and else asks for the next
  -- page; and again there is such a point, or the end.
  pub next-Continues : CanResume r → Continues search r w (next search r w)
  unfolding next
  next-Continues can = go r.pending refl
    where
      go : (p : Option (List DirInfo)) → r.pending ≡ p → Continues search r w (answer search p r w)
      go (some info) h = record {
        handed = λ other e.
            let same : info ≡ other = cc in
            ap (λ y. (some (done (some y)), record r { pending = none }, w)) same;
        ended = λ e. absurd (cc);
        asked = λ e. absurd (cc);
        resumes = can;
      }
      go none h = ask-Continues r.end r.last_file h refl refl can
