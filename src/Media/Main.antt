-- ===== src/Media/Main.antt =====
-- The main video of a folder.
use cifs_client_stream.Common.{
  ℕ, ◌+◌, ◌≤◌, ◌<◌, ◌≡◌, refl, ap, ◌↔◌, inl, inr, List, [], ◌∷◌, Option, none, some, Bool, true,
  false, ltb, ltb→lt, ltb_false→le, if◌then◌else◌, arith, subst,
}
use cifs_client_stream.Media.{
  MediaEntry, is_primary_video, primary_video_indices, size_at, largest_from, largest_video_index,
  indices_from, MediaFolderSummary, from_entries, is_likely_extra_video, is_audio,
}
use cifs_client_stream.Media.Indices.{
  Listed, Passes, Ascending, indices_from-Passes, Passes-Listed, indices_from-Ascending,
}

-- The entry at `r` is no smaller than the one at `j`, and of equal ones it is the last.
abbrev pub Beats : List MediaEntry → ℕ → ℕ → Type 0
Beats entries r j =
    (size_at entries j ≤ size_at entries r) × (size_at entries j ≡ size_at entries r → j ≤ r)

-- The best of the listed indices.
abbrev IsBest : List MediaEntry → List ℕ → ℕ → Type 0
IsBest entries is r = Listed r is × ((j : ℕ) → Listed j is → Beats entries r j)

largest_from_lem :
    (entries : List MediaEntry) (best : ℕ) (is : List ℕ)
    → Ascending (best ∷ is)
    → IsBest entries (best ∷ is) (largest_from entries best is)
largest_from_lem entries best [] up = (inl refl, only)
  where
    only : (j : ℕ) → Listed j (best ∷ []) → Beats entries best j
    only j (inl here) = (omega (arith, ap (size_at entries) here), λ e. omega (arith, here))
    only j (inr gone) = absurd gone
largest_from_lem entries best (i ∷ is) ((lt, above), (above_i, up)) =
    go (ltb (size_at entries i) (size_at entries best)) refl
      (largest_from_lem entries best is (above, up)) (largest_from_lem entries i is (above_i, up))
  where
    kept : {r : ℕ} → Listed r (best ∷ is) → Listed r (best ∷ i ∷ is)
    kept (inl here) = inl here
    kept (inr later) = inr (inr later)

    first :
        {r : ℕ} (j : ℕ)
        → size_at entries i < size_at entries best
        → ((l : ℕ) → Listed l (best ∷ is) → Beats entries r l)
        → Listed j (best ∷ i ∷ is)
        → Beats entries r j
    first j less beats (inl here) = beats j (inl here)
    first j less beats (inr (inl here)) =
        let top = (beats best (inl refl)).0 in
        let size : size_at entries j ≡ size_at entries i = ap (size_at entries) here in
        (omega arith, λ e. absurd (omega arith))
    first j less beats (inr (inr later)) = beats j (inr later)

    second :
        {r : ℕ} (j : ℕ)
        → size_at entries best ≤ size_at entries i
        → ((l : ℕ) → Listed l (i ∷ is) → Beats entries r l)
        → Listed j (best ∷ i ∷ is)
        → Beats entries r j
    second j le beats (inl here) =
        let (top, last) = beats i (inl refl) in
        let size : size_at entries j ≡ size_at entries best = ap (size_at entries) here in
        (omega arith, λ e. let at : i ≤ _ = last (omega arith) in omega (arith, here))
    second j le beats (inr later) = beats j later

    go :
        (b : Bool)
        → ltb (size_at entries i) (size_at entries best) ≡ b
        → IsBest entries (best ∷ is) (largest_from entries best is)
        → IsBest entries (i ∷ is) (largest_from entries i is)
        → IsBest entries (best ∷ i ∷ is) (largest_from entries (if b then best else i) is)
    go true smaller (in_best, beats) other =
        (kept in_best, λ j h. first j (ltb→lt _ _ smaller) beats h)
    go false larger other (in_i, beats) =
        (inr in_i, λ j h. second j (ltb_false→le _ _ larger) beats h)

-- What a main video is: a primary video that no primary video exceeds in size, the last one of
-- those with its size; and `None` says that there is no primary video.
abbrev pub IsMain : List MediaEntry → Option ℕ → Type 0
IsMain entries none = (j : ℕ) → ¬ (Passes is_primary_video entries j)
IsMain entries (some i) =
    Passes is_primary_video entries i
    × ((j : ℕ) → Passes is_primary_video entries j → Beats entries i j)

pub Listed-iff :
    (test : MediaEntry → Bool) (entries : List MediaEntry) (i : ℕ)
    → Listed i (indices_from test 0 entries) ↔ Passes test entries i
Listed-iff test entries i = (
  λ h.
      let (j, at, passes) = indices_from-Passes test 0 i entries h in
      let same : j ≡ i = omega (arith, at) in subst (Passes test entries) same passes,
  λ passes.
      let same : 0 + i ≡ i = omega arith in
      subst (λ n. Listed n (indices_from test 0 entries)) same
        (Passes-Listed test 0 i entries passes),
)

-- What `largest_video_index` makes of the primary videos.
pub largest_video_index-IsMain :
    (entries : List MediaEntry)
    → IsMain entries (largest_video_index entries (primary_video_indices entries))
largest_video_index-IsMain entries =
    go (primary_video_indices entries) (λ i. Listed-iff is_primary_video entries i)
      (indices_from-Ascending is_primary_video 0 entries)
  where
    go :
        (is : List ℕ)
        → ((i : ℕ) → Listed i is ↔ Passes is_primary_video entries i)
        → Ascending is
        → IsMain entries (largest_video_index entries is)
    go [] exact up = λ j passes. (exact j).1 passes
    go (i ∷ is) exact up =
        let (listed, beats) = largest_from_lem entries i is up in
        ((exact _).0 listed, λ j passes. beats j ((exact j).1 passes))

-- What a summary says of a folder's entries.
pub record IsSummary (entries : List MediaEntry) (s : MediaFolderSummary) : Type 0 where
  pub main : IsMain entries s.main_video
  pub primary : (i : ℕ) → Listed i s.primary_videos ↔ Passes is_primary_video entries i
  pub extra : (i : ℕ) → Listed i s.extras ↔ Passes is_likely_extra_video entries i
  pub audio : (i : ℕ) → Listed i s.audio_tracks ↔ Passes is_audio entries i

-- `MediaFolderSummary::from_entries` lists exactly the primary videos, the extras and the audio
-- tracks of the folder by their indices, and names its main video.
pub from_entries-IsSummary : (entries : List MediaEntry) → IsSummary entries (from_entries entries)
unfolding from_entries
from_entries-IsSummary entries = record {
  main = largest_video_index-IsMain entries;
  primary = λ i. Listed-iff is_primary_video entries i;
  extra = λ i. Listed-iff is_likely_extra_video entries i;
  audio = λ i. Listed-iff is_audio entries i;
}
