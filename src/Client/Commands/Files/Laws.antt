-- ===== src/Client/Commands/Files/Laws.antt =====
-- Complete listings: `list` asks page after page, and its `unwrap` always has an entry.
use cifs_client_stream.Common.{
  ℕ, zero, suc, ◌≡◌, ◌≢◌, ◌⊎◌, inl, inr, refl, List, [], ◌∷◌, ◌++◌, Option, none, some, true, false,
  Bool-cases, Run, done, fails, panics, if◌then◌else◌,
}
use cifs_client_stream.Errors.{Error}
use cifs_client_stream.Media.Names.{Name}
use cifs_client_stream.Smb.Reply.{Share}
use cifs_client_stream.Smb.Trans2.Search.{DirEntry, FirstPage, NextPage}
use cifs_client_stream.Smb.Trans2.Search.Filled.{Filled}
use cifs_client_stream.Smb.Wire.{Wire}
use cifs_client_stream.Utils.{Chrono}
use cifs_client_stream.Client.Commands.{Cifs, Network, Call, then_call, pure, find_first, find_next}
use cifs_client_stream.Client.Directory.{last_filename}
use cifs_client_stream.Client.Commands.Files.{infos, list_from, list}
use cifs_client_stream.Client.Commands.Files.Pages.{Returns, find_first-Filled}

module _ {N : Type 0} (wire : Wire) (network : Network N) (fuel : ℕ) where
  module _ (chrono : Chrono) where
    -- What the loop of `list` does behind a page that was not the last one.
    pub data Follows (share : Share) (sid : ℕ)
        : List (DirEntry chrono)
          → Cifs N
          → Option (Run Error (List (DirEntry chrono))) × Cifs N
          → Type 0 where
      ended :
          {so_far : List (DirEntry chrono)} {name : Name} {page : NextPage chrono} {c c' : Cifs N}
          → last_filename (infos so_far) ≡ some name
          → find_next wire network fuel chrono share sid name c ≡ (some (done page), c')
          → page.end ≡ true
          → Follows share sid so_far c (some (done (so_far ++ page.info)), c')
      went_on :
          {so_far : List (DirEntry chrono)} {name : Name} {page : NextPage chrono} {c c' : Cifs N}
          {o : Option (Run Error (List (DirEntry chrono))) × Cifs N}
          → last_filename (infos so_far) ≡ some name
          → find_next wire network fuel chrono share sid name c ≡ (some (done page), c')
          → page.end ≡ false
          → Follows share sid (so_far ++ page.info) c' o
          → Follows share sid so_far c o
      failed :
          {so_far : List (DirEntry chrono)} {name : Name} {e : Error} {c c' : Cifs N}
          → last_filename (infos so_far) ≡ some name
          → find_next wire network fuel chrono share sid name c ≡ (some (fails e), c')
          → Follows share sid so_far c (some (fails e), c')
      panicked :
          {so_far : List (DirEntry chrono)} {name : Name} {c c' : Cifs N}
          → last_filename (infos so_far) ≡ some name
          → find_next wire network fuel chrono share sid name c ≡ (some panics, c')
          → Follows share sid so_far c (some panics, c')

    last_some :
        (es : List (DirEntry chrono))
        → es ≢ []
        → (name : Name) × (last_filename (infos es) ≡ some name)
    last_some [] filled = absurd (filled refl)
    last_some (e ∷ []) filled = (e.info.filename, refl)
    last_some (e ∷ f ∷ es) filled = last_some (f ∷ es) (λ h. absurd (cc))

    longer_filled : {A : Type 0} (xs ys : List A) → xs ≢ [] → (xs ++ ys) ≢ []
    longer_filled [] ys filled h = filled refl
    longer_filled (x ∷ xs) ys filled h = absurd (cc)

    abbrev Turned :
        Share
        → ℕ
        → List (DirEntry chrono)
        → Cifs N
        → Option (Run Error (List (DirEntry chrono))) × Cifs N
        → Type 0
    Turned share sid so_far c o = (o.0 ≡ none) ⊎ Follows share sid so_far c o

    abbrev page_turn :
        ℕ → Share → ℕ → List (DirEntry chrono) → NextPage chrono → Call N (List (DirEntry chrono))
    page_turn left share sid so_far page =
        if page.end
        then pure (so_far ++ page.info)
        else list_from wire network fuel chrono left share sid (so_far ++ page.info)

    page_turn-Follows :
        (left : ℕ) (share : Share) (sid : ℕ) (so_far : List (DirEntry chrono)) (name : Name)
        (c : Cifs N) (o : Option (Run Error (NextPage chrono)) × Cifs N)
        → last_filename (infos so_far) ≡ some name
        → find_next wire network fuel chrono share sid name c ≡ o
        → ((page : NextPage chrono) (c' : Cifs N)
            → Turned share sid
                (so_far ++ page.info)
                c'
                (list_from wire network fuel chrono left share sid (so_far ++ page.info) c'))
        → Turned share sid so_far c (then_call o (page_turn left share sid so_far))
    page_turn-Follows left share sid so_far name c (none, c') last e later = inl refl
    page_turn-Follows left share sid so_far name c (some (fails x), c') last e later =
        inr (failed last e)
    page_turn-Follows left share sid so_far name c (some panics, c') last e later =
        inr (panicked last e)
    page_turn-Follows left share sid so_far name c (some (done page), c') last e later =
        elim (Bool-cases page.end) [
          | inl h ↦ rw (h) (inr (ended last e h))
          | inr h ↦ rw (h) (elim (later page c') [
            | inl starved ↦ inl starved
            | inr follows ↦ inr (went_on last e h follows)
          ])
        ]

    list_from-Follows :
        (left : ℕ) (share : Share) (sid : ℕ) (so_far : List (DirEntry chrono)) (c : Cifs N)
        → so_far ≢ []
        → Turned share sid so_far c (list_from wire network fuel chrono left share sid so_far c)
    unfolding list_from
    list_from-Follows zero share sid so_far c filled = inl refl
    list_from-Follows (suc left) share sid so_far c filled =
        let (name, last) = last_some so_far filled in
        let o = find_next wire network fuel chrono share sid name c in
        rw (last) (
          page_turn-Follows left share sid so_far name c o last refl λ page c'.
            list_from-Follows left share sid (so_far ++ page.info) c'
              (longer_filled so_far page.info filled))

    -- What `list` does: one page that is the last, or the pages behind it, or the end of a call.
    pub data Listed (share : Share) (pattern : Name) (c : Cifs N)
        : Option (Run Error (List (DirEntry chrono))) × Cifs N → Type 0 where
      one_page :
          {page : FirstPage chrono} {c' : Cifs N}
          → find_first wire network fuel chrono share pattern c ≡ (some (done page), c')
          → page.end ≡ true
          → Listed share pattern c (some (done page.info), c')
      more_pages :
          {page : FirstPage chrono} {c' : Cifs N}
          {o : Option (Run Error (List (DirEntry chrono))) × Cifs N}
          → find_first wire network fuel chrono share pattern c ≡ (some (done page), c')
          → page.end ≡ false
          → Follows share page.sid page.info c' o
          → Listed share pattern c o
      first_failed :
          {e : Error} {c' : Cifs N}
          → find_first wire network fuel chrono share pattern c ≡ (some (fails e), c')
          → Listed share pattern c (some (fails e), c')
      first_panicked :
          {c' : Cifs N}
          → find_first wire network fuel chrono share pattern c ≡ (some panics, c')
          → Listed share pattern c (some panics, c')

    -- Unless the fuel runs out, `list` gives the entries of the first page and of each page behind it, in
    -- their order, up to the one that the server marks as the last, asking for each with the name of the
    -- last entry so far; or the error, or the panic, of one of these calls. Its `unwrap` of that last
    -- entry never panics, since the parsers refuse an empty page that is not the last.
    pub list-Listed :
        (share : Share) (pattern : Name) (c : Cifs N)
        → ((list wire network fuel chrono share pattern c).0 ≡ none)
          ⊎ Listed share pattern c (list wire network fuel chrono share pattern c)
    unfolding list
    list-Listed share pattern c =
        go (find_first wire network fuel chrono share pattern c) refl
          (find_first-Filled wire network fuel chrono share pattern c)
      where
        behind_page : FirstPage chrono → Call N (List (DirEntry chrono))
        behind_page page =
            if page.end
            then pure page.info
            else list_from wire network fuel chrono fuel share page.sid page.info

        go :
            (o : Option (Run Error (FirstPage chrono)) × Cifs N)
            → find_first wire network fuel chrono share pattern c ≡ o
            → Returns (λ page. Filled page.end page.info) o
            → ((then_call o behind_page).0 ≡ none)
              ⊎ Listed share pattern c (then_call o behind_page)
        go (none, c') e filled = inl refl
        go (some (fails x), c') e filled = inr (first_failed e)
        go (some panics, c') e filled = inr (first_panicked e)
        go (some (done page), c') e filled = elim (Bool-cases page.end) [
          | inl h ↦ rw (h) (inr (one_page e h))
          | inr h ↦ rw (h) (elim (list_from-Follows fuel share page.sid page.info c' (filled h)) [
            | inl starved ↦ inl starved
            | inr follows ↦ inr (more_pages e h follows)
          ])
        ]
