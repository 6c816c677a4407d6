-- ===== src/Range/Halves.antt =====
-- dht/bits/range.go, IntervalP(1, 2) and IntervalP(2, 2): the two halves in which a bucket splits.
use lbry_go.Prelude.{◌+◌, ◌-◌, ◌*◌, ◌<◌, ◌≤◌, ◌≡◌, ok, arith}
use lbry_go.Bitmap.Value.{value}
use lbry_go.Bitmap.Sum.{value-lt_modulus}
use lbry_go.Range.{Range, IsRange, interval_p}
use lbry_go.Range.Interval.{interval_p-Spans}

-- `l` and `u` are adjacent ranges that make up `r`, neither longer than half of it.
pub record Halved (r l u : Range) : Type 0 where
  pub left_good : IsRange l
  pub right_good : IsRange u
  pub left_start : value l.start ≡ value r.start
  pub adjacent : value l.end + 1 ≡ value u.start
  pub right_end : value u.end ≡ value r.end
  pub left_short : 2 * (value l.end - value l.start) ≤ value r.end - value r.start
  pub right_short : 2 * (value u.end - value u.start) ≤ value r.end - value r.start

-- IntervalP splits a proper range of two identifiers or more into two adjacent halves.
pub interval_p-Halved :
    (r : Range)
    → IsRange r
    → value r.start < value r.end
    → (l : Range) × (u : Range) × (interval_p r 1 2 ≡ ok l)
      × (interval_p r 2 2 ≡ ok u)
      × Halved r l u
interval_p-Halved r h lt =
    let top = value-lt_modulus r.end h.end_good in
    let (l, p, sl) =
      interval_p-Spans r 1 2 h (omega arith) (omega arith) (ground arith) (ground arith)
        (λ _. omega arith) in
    let (u, q, su) =
      interval_p-Spans r 2 2 h (omega arith) (omega arith) (ground arith) (ground arith)
        (λ x. absurd (omega arith)) in
    (
      l,
      u,
      p,
      q,
      record {
        left_good = sl.good;
        right_good = su.good;
        left_start = ground (arith, sl.starts);
        adjacent = ground (arith, sl.ends, su.starts);
        right_end = ground (arith, su.ends);
        left_short = ground (arith, sl.starts, sl.ends);
        right_short = ground (arith, su.starts, su.ends);
      },
    )
