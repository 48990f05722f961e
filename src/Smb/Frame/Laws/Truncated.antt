-- ===== src/Smb/Frame/Laws/Truncated.antt =====
-- The body of a reply that is cut off.
use cifs_client_stream.Common.{
  ℕ, ◌+◌, ◌-◌, ◌*◌, ◌/◌, ◌%◌, ◌≤◌, ◌⊎◌, ◌<◌, ◌≡◌, refl, ◌∙◌, subst, ◌++◌, append_assoc, ltb,
  Bool-cases, inl, inr, arith, length, length-append, length-take, take, take-append_right, panics,
  ltb_false→le, ltb→lt,
}
use cifs_client_stream.Stream.Buffer.{Bytes}
use cifs_client_stream.Smb.Info.{Info}
use cifs_client_stream.Smb.Wire.{Wire}
use cifs_client_stream.Smb.Wire.Plain.{plain, IsWire, IsWire-plain, le_bytes}
use cifs_client_stream.Smb.Wire.Laws.{
  read_le-le_bytes, split-append, length-le_bytes, split_short, read_le_short,
}
use cifs_client_stream.Smb.Frame.Laws.{frame}
use cifs_client_stream.Smb.Frame.{Reply, parse_parts, parse_body}

-- A cut in a list of two parts is in the first or in the second one.
cut_cases :
    (n : ℕ) (xs ys : Bytes)
    → ((n < length xs) × (length (take n (xs ++ ys)) ≡ n))
      ⊎ ((length xs ≤ n) × (take n (xs ++ ys) ≡ xs ++ take (n - length xs) ys))
cut_cases n xs ys = elim (Bool-cases (ltb n (length xs))) [
  | inl e ↦ inl (
    ground arith,
    length-take n (xs ++ ys) ∙ omega (arith, length-append xs ys, ltb→lt n (length xs) e),
  )
  | inr e ↦
      inr (ltb_false→le n (length xs) e, take-append_right n xs ys (ltb_false→le n (length xs) e))
]

module _ (info : Info) (parameter content : Bytes) (even : length parameter % 2 ≡ 0)
    (short : length parameter < 512) (small : length content < 65536) where
  k₁ : Bytes
  k₁ = le_bytes 1 (length parameter / 2)

  k₂ : Bytes
  k₂ = le_bytes 2 (length content)

  no_count : (xs : Bytes) → length xs < 1 → parse_parts plain info xs ≡ panics
  unfolding parse_parts
  no_count xs h = rw (read_le_short 1 xs h) refl

  cut_parameter :
      (xs : Bytes) → length xs < length parameter → parse_parts plain info (k₁ ++ xs) ≡ panics
  unfolding parse_parts k₁
  cut_parameter xs h =
      let k = length parameter / 2 in
      let twice : 2 * k ≡ length parameter = omega arith in
      rw (read_le-le_bytes 1 k xs (omega arith), twice, split_short (length parameter) xs h) refl

  cut_count :
      (xs : Bytes) → length xs < 2 → parse_parts plain info (k₁ ++ (parameter ++ xs)) ≡ panics
  unfolding parse_parts k₁
  cut_count xs h =
      let k = length parameter / 2 in
      let twice : 2 * k ≡ length parameter = omega arith in
      rw
        (
          read_le-le_bytes 1 k (parameter ++ xs) (omega arith),
          twice,
          split-append parameter xs,
          read_le_short 2 xs h,
        )
        refl

  cut_content :
      (xs : Bytes)
      → length xs < length content
      → parse_parts plain info (k₁ ++ (parameter ++ (k₂ ++ xs))) ≡ panics
  unfolding parse_parts k₁ k₂
  cut_content xs h =
      let k = length parameter / 2 in
      let twice : 2 * k ≡ length parameter = omega arith in
      rw
        (
          read_le-le_bytes 1 k (parameter ++ (le_bytes 2 (length content) ++ xs)) (omega arith),
          twice,
          split-append parameter (le_bytes 2 (length content) ++ xs),
          read_le-le_bytes 2 (length content) xs (omega arith),
          split_short (length content) xs h,
        )
        refl

  -- A cut behind `front` that leaves too little of `xs`, or keeps it and cuts behind it.
  cut_behind :
      (front : Bytes → Bytes) (n : ℕ) (xs ys : Bytes)
      → ((zs : Bytes) → length zs < length xs → parse_parts plain info (front zs) ≡ panics)
      → ((m : ℕ)
          → m < length ys
          → length xs + m ≡ n
          → parse_parts plain info (front (xs ++ take m ys)) ≡ panics)
      → n < length (xs ++ ys)
      → parse_parts plain info (front (take n (xs ++ ys))) ≡ panics
  cut_behind front n xs ys here later less = elim (cut_cases n xs ys) [
    | inl cut ↦ here (take n (xs ++ ys)) (omega (arith, cut))
    | inr cut ↦ rw (cut.1) (
        later (n - length xs) (omega (arith, cut.0, less, length-append xs ys))
          (omega (arith, cut.0)))
  ]

  cut_frame :
      (n : ℕ)
      → n < length (k₁ ++ (parameter ++ (k₂ ++ content)))
      → parse_parts plain info (take n (k₁ ++ (parameter ++ (k₂ ++ content)))) ≡ panics
  unfolding k₁ k₂
  cut_frame n less =
      cut_behind (λ l. l) n k₁ _
        (λ zs h. no_count zs (omega (arith, h, length-le_bytes 1 (length parameter / 2))))
        (λ m h e.
          cut_behind (λ l. k₁ ++ l) m parameter _ cut_parameter
            (λ m h e.
              cut_behind (λ l. k₁ ++ (parameter ++ l)) m k₂ content
                (λ zs h. cut_count zs (omega (arith, h, length-le_bytes 2 (length content))))
                (λ m h e. cut_content (take m content) (omega (arith, length-take m content, h))) h)
            h)
        less

truncated :
    {A : Type 0} (reply : Reply A) (info : Info) (parameter content : Bytes) (n : ℕ)
    → length parameter % 2 ≡ 0
    → length parameter < 512
    → length content < 65536
    → n < length (frame parameter content)
    → parse_body plain reply info (take n (frame parameter content)) ≡ panics
unfolding parse_body k₁ k₂
truncated reply info parameter content n even short small less =
    let a = le_bytes 1 (length parameter / 2) in
    let b = le_bytes 2 (length content) in
    let e : frame parameter content ≡ a ++ (parameter ++ (b ++ content)) =
      append_assoc (a ++ parameter) b content ∙ append_assoc a parameter (b ++ content) in
    rw (e, cut_frame info parameter content even short small n (rw (e) at less)) refl

-- However the body of a reply is cut off, the client panics; it does not return an error.
pub parse_body_truncated :
    {A : Type 0} (wire : Wire)
    → IsWire wire
    → (reply : Reply A) (info : Info) (parameter content : Bytes) (n : ℕ) → length parameter % 2 ≡ 0
    → length parameter < 512
    → length content < 65536
    → n < length (frame parameter content)
    → parse_body wire reply info (take n (frame parameter content)) ≡ panics
parse_body_truncated wire w reply info parameter content n even short small less =
    subst (λ v. parse_body v reply info (take n (frame parameter content)) ≡ panics)
      (IsWire-plain wire w) (truncated reply info parameter content n even short small less)
