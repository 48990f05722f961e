-- ===== src/Utils/Laws.antt =====
-- Alignment and times of src/utils.rs.
use cifs_client_stream.Common.{ℕ, ◌+◌, ◌-◌, ◌*◌, ◌/◌, ◌%◌, ◌≤◌, ◌^◌, ◌<◌, ◌≡◌, arith, some, ap, ◌∙◌}
use cifs_client_stream.Utils.{
  round_up_4n, fill_up_4n, tenths, Chrono, decode_windows_time, encode_windows_time,
}

-- `round_up_4n` is the least multiple of 4 that is not below its argument, and `fill_up_4n` is the
-- padding up to it.
pub round_up_4n_least :
    (n : ℕ)
    → (round_up_4n n % 4 ≡ 0)
      × (n ≤ round_up_4n n)
      × ((m : ℕ) → n ≤ m → m % 4 ≡ 0 → round_up_4n n ≤ m)
      × (n + fill_up_4n n ≡ round_up_4n n)
unfolding round_up_4n fill_up_4n
round_up_4n_least n = (omega arith, omega arith, λ m le e. omega arith, omega arith)

-- What the dates of `chrono` are asked for: times up to the largest are told apart, so the
-- microseconds to the start of 1601 are those that were added to it.
abbrev pub IsChrono : Chrono → Type 0
IsChrono chrono =
    (us : ℕ)
    → us < 2 ^ 63
    → chrono.microseconds_since (chrono.plus_microseconds chrono.windows_epoch us)
        chrono.windows_epoch
      ≡ some us

-- A Windows time that is decoded and encoded again is cut to whole microseconds.
pub encode_windows_time-decode_windows_time :
    (chrono : Chrono) (time : ℕ)
    → IsChrono chrono
    → time < 2 ^ 64
    → encode_windows_time chrono (decode_windows_time chrono time) ≡ some (time - time % 10)
unfolding encode_windows_time decode_windows_time
encode_windows_time-decode_windows_time chrono time h small =
    let e : 10 * (time / 10) ≡ time - time % 10 = omega arith in
    ap tenths (h (time / 10) (omega arith)) ∙ ap some e
