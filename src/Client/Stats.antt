-- ===== src/Client/Stats.antt =====
-- `CifsIoStats` of src/lib.rs. A duration is its nanoseconds, whose sum is not bounded here; the
-- throughput, a floating-point number, is left out.
use cifs_client_stream.Common.{
  ℕ, suc, ◌+◌, ◌/◌, ◌^◌, ◌<◌, ◌≡◌, refl, ap₂, false, ◌∙◌, List, [], ◌∷◌, leb, ◌==◌, if◌then◌else◌,
  ◌||◌, length, arith,
}
use cifs_client_stream.Stream.Buffer.{add64}

pub record CifsIoStats : Type 0 where
  pub read_at_calls : ℕ
  pub read_at_bytes : ℕ
  pub read_at_elapsed : ℕ

abbrev pub no_stats : CifsIoStats
no_stats = record { read_at_calls = 0; read_at_bytes = 0; read_at_elapsed = 0 }

-- `CifsIoStats::average_read_size`.
unfoldable pub average_read_size : CifsIoStats → ℕ
average_read_size s = if s.read_at_calls == 0 then 0 else s.read_at_bytes / s.read_at_calls

-- `CifsIoStats::average_read_latency`.
unfoldable pub average_read_latency : CifsIoStats → ℕ
average_read_latency s =
    if leb (2 ^ 32) s.read_at_calls || s.read_at_calls == 0
    then 0
    else s.read_at_elapsed / s.read_at_calls

-- `CifsIoStats::record_read`.
unfoldable pub record_read : ℕ → ℕ → CifsIoStats → CifsIoStats
record_read bytes elapsed s = record {
  read_at_calls = add64 s.read_at_calls 1;
  read_at_bytes = add64 s.read_at_bytes bytes;
  read_at_elapsed = s.read_at_elapsed + elapsed;
}

-- A read as `read_at` and `read_at_pipelined` record it.
pub record Timed : Type 0 where
  pub bytes : ℕ
  pub elapsed : ℕ

abbrev pub record_all : List Timed → CifsIoStats → CifsIoStats
record_all [] s = s
record_all (t ∷ ts) s = record_all ts (record_read t.bytes t.elapsed s)

abbrev pub total_bytes : List Timed → ℕ
total_bytes [] = 0
total_bytes (t ∷ ts) = t.bytes + total_bytes ts

record_all_from :
    (ts : List Timed) (s : CifsIoStats)
    → s.read_at_calls + length ts < 2 ^ 64
    → s.read_at_bytes + total_bytes ts < 2 ^ 64
    → ((record_all ts s).read_at_calls ≡ s.read_at_calls + length ts)
      × ((record_all ts s).read_at_bytes ≡ s.read_at_bytes + total_bytes ts)
unfolding record_read
record_all_from [] s few small = (omega arith, omega arith)
record_all_from (t ∷ ts) s few small =
    let (calls, bytes) =
      record_all_from ts (record_read t.bytes t.elapsed s) (omega arith) (omega arith) in
    (omega (arith, calls), omega (arith, bytes))

-- After one or more reads whose number and bytes a `u64` holds, the average size is the whole part of the
-- bytes by the number of reads.
pub average_read_size-record_all :
    (t : Timed) (ts : List Timed)
    → length (t ∷ ts) < 2 ^ 64
    → total_bytes (t ∷ ts) < 2 ^ 64
    → average_read_size (record_all (t ∷ ts) no_stats) ≡ total_bytes (t ∷ ts) / length (t ∷ ts)
unfolding average_read_size
average_read_size-record_all t ts few small =
    let (calls, bytes) =
      record_all_from (t ∷ ts) no_stats (omega (arith, few)) (omega (arith, small)) in
    let calls' : (record_all (t ∷ ts) no_stats).read_at_calls ≡ suc (length ts) =
      omega (arith, calls) in
    let bytes' : (record_all (t ∷ ts) no_stats).read_at_bytes ≡ total_bytes (t ∷ ts) =
      omega (arith, bytes) in
    let some_calls : (suc (length ts) == 0) ≡ false = ground arith in
    ap₂ (λ c b. if c == 0 then 0 else b / c) calls' bytes' ∙ rw some_calls refl
