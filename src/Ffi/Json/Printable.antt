-- ===== src/Ffi/Json/Printable.antt =====
-- The JSON that the C interface writes has no control character, so it goes to the caller.
use cifs_client_stream.Common.{
  ℕ, zero, suc, ◌+◌, ◌/◌, ◌%◌, ◌≤◌, ◌≡◌, refl, List, [], ◌∷◌, ◌++◌, Option, none, some, Bool, true,
  false, ◌||◌, ltb, leb, ◌==◌, if◌then◌else◌, All, arith, Bool-cases, inl, inr, done, take,
}
use cifs_client_stream.Media.{MediaEntry}
use cifs_client_stream.Media.Names.{Name}
use cifs_client_stream.Utils.Unicode.Laws.{All-append}
use cifs_client_stream.Ffi.Text.{codes, decimal, digits, has_nul, string_into_raw}
use cifs_client_stream.Ffi.Json.{
  hex_digit, escape, push_escaped, push_json_string, entry_kind, push_text, push_number, push_entry,
  push_entries, normalize_display_path, push_some_number, push_some_text, format_list_json,
  json_error,
}

-- RFC 8259 allows no control character in a JSON text but the line breaks and tabs between tokens.
abbrev pub Printable : Name → Type 0
Printable = All (λ c. 0x20 ≤ c)

has_control : Name → Bool
has_control [] = false
has_control (c ∷ cs) = ltb c 0x20 || has_control cs

literal : (text : Name) → has_control text ≡ false → Printable text
unfolding has_control
literal [] e = tt
literal (c ∷ cs) e = (ground arith, literal cs (ground arith))

digits-Printable :
    (fuel n : ℕ) (behind : Name) → Printable behind → Printable (digits fuel n behind)
unfolding digits
digits-Printable zero n behind h = h
digits-Printable (suc fuel) n behind h = elim (Bool-cases (ltb n 10)) [
  | inl e ↦ rw (e) (omega arith, h)
  | inr e ↦ rw (e) (digits-Printable fuel (n / 10) ((48 + n % 10) ∷ behind) (omega arith, h))
]

either-Printable :
    (b : Bool) (xs ys : Name)
    → (b ≡ true → Printable xs)
    → (b ≡ false → Printable ys)
    → Printable (if b then xs else ys)
either-Printable true xs ys h k = h refl
either-Printable false xs ys h k = k refl

fixed : (cs : Name) → has_control cs ≡ false → {A : Type 0} → A → Printable cs
fixed cs e a = literal cs e

control-Printable :
    (c : ℕ) → Printable (0x5c ∷ 0x75 ∷ 0x30 ∷ 0x30 ∷ hex_digit (c / 16) ∷ hex_digit (c % 16) ∷ [])
control-Printable c =
    (omega arith, (omega arith, (omega arith, (omega arith, (high (c / 16), (high (c % 16), tt))))))
  where
    high : (d : ℕ) → 0x20 ≤ hex_digit d
    high d = ground arith

escape-Printable : (c : ℕ) → Printable (escape c)
unfolding escape has_control
escape-Printable c = either-Printable (c == 0x22) _ _ (fixed (0x5c ∷ 0x22 ∷ []) refl) (λ n.
    either-Printable (c == 0x5c) _ _ (fixed (0x5c ∷ 0x5c ∷ []) refl) (λ n.
      either-Printable (c == 0x0a) _ _ (fixed (0x5c ∷ 0x6e ∷ []) refl) (λ n.
        either-Printable (c == 0x0d) _ _ (fixed (0x5c ∷ 0x72 ∷ []) refl) (λ n.
          either-Printable (c == 0x09) _ _ (fixed (0x5c ∷ 0x74 ∷ []) refl) (λ n.
            either-Printable (leb c 0x1f) _ _ (λ low. control-Printable c)
              (λ no. (ground arith, tt)))))))

push_escaped-Printable : (out cs : Name) → Printable out → Printable (push_escaped out cs)
unfolding push_escaped
push_escaped-Printable out [] h = h
push_escaped-Printable out (c ∷ cs) h =
    push_escaped-Printable (out ++ escape c) cs
      (All-append (λ k. 0x20 ≤ k) out (escape c) h (escape-Printable c))

push_literal :
    (out text : Name) → Printable out → has_control text ≡ false → Printable (out ++ text)
push_literal out text h e = All-append (λ k. 0x20 ≤ k) out text h (literal text e)

push_json_string-Printable :
    (out value : Name) → Printable out → Printable (push_json_string out value)
unfolding push_json_string has_control
push_json_string-Printable out value h =
    push_literal _ (0x22 ∷ [])
      (push_escaped-Printable _ value (push_literal out (0x22 ∷ []) h refl)) refl

push_text-Printable :
    (out key value : Name)
    → Printable out
    → has_control key ≡ false
    → Printable (push_text out key value)
unfolding push_text
push_text-Printable out key value h e =
    push_json_string-Printable (out ++ key) value (push_literal out key h e)

push_number-Printable :
    (out key : Name) (n : ℕ)
    → Printable out
    → has_control key ≡ false
    → Printable (push_number out key n)
unfolding push_number decimal
push_number-Printable out key n h e =
    All-append (λ k. 0x20 ≤ k) (out ++ key) (decimal n) (push_literal out key h e)
      (digits-Printable 20 n [] tt)

push_entry-Printable : (out : Name) (e : MediaEntry) → Printable out → Printable (push_entry out e)
unfolding push_entry has_control codes
push_entry-Printable out e h =
    push_literal _ (codes "}")
      (push_number-Printable _ (codes ",\"size\":") e.size
        (push_text-Printable _ (codes ",\"kind\":") (entry_kind e)
          (push_text-Printable _ (codes "\"name\":") e.name (push_literal out (codes "{") h refl)
            refl)
          refl)
        refl)
      refl

push_entries-Printable :
    (first : Bool) (out : Name) (es : List MediaEntry)
    → Printable out
    → Printable (push_entries first out es)
unfolding push_entries has_control codes
push_entries-Printable first out [] h = h
push_entries-Printable first out (e ∷ es) h = push_entries-Printable false _ es (
    push_entry-Printable _ e
      (either-Printable first _ _ (λ yes. h) (λ no. push_literal out (codes ",") h refl)))

-- The text that `format_list_json` has before the entries.
some_number-Printable :
    (out key : Name) (n : Option ℕ)
    → Printable out
    → has_control key ≡ false
    → Printable (push_some_number out key n)
some_number-Printable out key none h e = h
some_number-Printable out key (some n) h e = push_number-Printable out key n h e

some_text-Printable :
    (out key : Name) (text : Option Name)
    → Printable out
    → has_control key ≡ false
    → Printable (push_some_text out key text)
some_text-Printable out key none h e = h
some_text-Printable out key (some text) h e = push_text-Printable out key text h e

pub format_list_json-Printable :
    (host share path : Name) (es : List MediaEntry) (max : ℕ) (warning : Option Name)
    (ms : Option ℕ)
    → Printable (format_list_json host share path es max warning ms)
unfolding format_list_json has_control codes
format_list_json-Printable host share path es max warning ms =
    push_literal _ (codes "]}")
      (push_entries-Printable true _ (take max es) (
        push_literal _ (codes ",\"entries\":[")
          (some_text-Printable _ (codes ",\"umount_warning\":") warning
            (some_number-Printable _ (codes ",\"elapsed_ms\":") ms
              (push_number-Printable _ (codes ",\"entries_returned\":") _
                (push_number-Printable _ (codes ",\"entries_total\":") _
                  (push_text-Printable _ (codes ",\"path\":") (normalize_display_path path)
                    (push_text-Printable _ (codes ",\"share\":") share
                      (push_text-Printable (codes "{\"status\":\"ok\"") (codes ",\"host\":") host
                        (literal (codes "{\"status\":\"ok\"") refl) refl)
                      refl)
                    refl)
                  refl)
                refl)
              refl)
            refl)
          refl))
      refl

pub json_error-Printable : (operation message : Name) → Printable (json_error operation message)
unfolding json_error has_control codes
json_error-Printable operation message =
    push_literal _ (codes "}")
      (push_text-Printable _ (codes ",\"message\":") message
        (push_text-Printable (codes "{\"status\":\"error\"") (codes ",\"operation\":") operation
          (literal (codes "{\"status\":\"error\"") refl) refl)
        refl)
      refl

no_nul : (cs : Name) → Printable cs → has_nul cs ≡ false
unfolding has_nul
no_nul [] h = refl
no_nul (c ∷ cs) h = let small : c == 0 ≡ false = ground arith in rw (small, no_nul cs h.1) refl

pub to_caller :
    {E : Type 0} (text : Name) → Printable text → string_into_raw {E = E} text ≡ done text
unfolding string_into_raw
to_caller text h = rw (no_nul text h) refl
