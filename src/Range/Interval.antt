-- ===== src/Range/Interval.antt =====
-- dht/bits/range.go, IntervalP: the intervals as numbers.
use native.Mathlib.Nat.{mod-lt, le-div_iff_mul-le, div-mul-le_self, mul-zero, zero-mod}
use lbry_go.Prelude.{
  ℕ, zero, suc, ◌+◌, ◌-◌, ◌*◌, ◌/◌, ◌%◌, ◌<◌, ◌≤◌, ◌≡◌, ◌↔◌, ap, true, false, ◌||◌, ltb,
  if◌then◌else◌, ok, arith, Bool-cases, inl, inr,
}
use lbry_go.Prelude.Int.{pos, ◌-ℤ◌, div_ℤ, mod_ℤ, pos+pos, pos-pos, pos*nat}
use lbry_go.Bitmap.{Bitmap, IsBitmap}
use lbry_go.Bitmap.Value.{value}
use lbry_go.Bitmap.Order.{is_less-cmp}
use lbry_go.Bitmap.Sum.{modulus, value-lt_modulus}
use lbry_go.Bitmap.Select.{is_more-cmp}
use lbry_go.Bitmap.Big.{big, big-value, from_big_p-value}
use lbry_go.Range.{Range, IsRange, Within, interval_start, interval_p, range_from, contains}

-- Contains, of a proper range and a bitmap, is the order of the numbers.
pub contains-Within :
    (r : Range) (b : Bitmap) → IsRange r → IsBitmap b → (contains r b ≡ true) ↔ Within r b
unfolding contains
contains-Within r b h k =
    let low = is_more-cmp r.start b h.start_good k in
    let high = is_less-cmp r.end b h.end_good k in
    (
      λ e. record { above = ground (arith, low, high); below = ground (arith, low, high) },
      λ w. ground (arith, low, high, w.above, w.below),
    )

-- Where the n-th of `num` intervals of the numbers s … e starts.
abbrev pub start_at : ℕ → ℕ → ℕ → ℕ → ℕ
start_at s e n num = s + (e - s) / num * (n - 1) + ((e - s) % num * (n - 1)) % num

pub interval_start-start_at :
    (r : Range) (n num : ℕ)
    → IsRange r
    → interval_start r n num ≡ pos (start_at (value r.start) (value r.end) n num)
unfolding interval_start div_ℤ mod_ℤ
interval_start-start_at r n num h =
    rw
      (
        big-value r.start h.start_good,
        big-value r.end h.end_good,
        pos-pos (value r.end) (value r.start) h.ordered,
        pos*nat ((value r.end - value r.start) / num) (n - 1),
        pos*nat ((value r.end - value r.start) % num) (n - 1),
        pos+pos (value r.start) ((value r.end - value r.start) / num * (n - 1)),
      )
      (pos+pos _ _)

-- The range has the ends `s` and `e`, as numbers.
pub record Spans (r : Range) (s e : ℕ) : Type 0 where
  pub good : IsRange r
  pub starts : value r.start ≡ s
  pub ends : value r.end ≡ e

range_from-Spans :
    (s e : ℕ)
    → s ≤ e
    → e < modulus
    → (q : Range) × (range_from (pos s) (pos e) ≡ ok q) × Spans q s e
unfolding range_from
range_from-Spans s e le lt =
    let (a, p, ha, va) = from_big_p-value s (omega arith) in
    let (b, q, hb, vb) = from_big_p-value e lt in
    (
      record { start = a; end = b },
      rw (p, q),
      record {
        good = record { start_good = ha; end_good = hb; ordered = omega arith };
        starts = va;
        ends = vb;
      },
    )

abbrev pub end_at : ℕ → ℕ → ℕ → ℕ → ℕ
end_at s e n num = if ltb n num then start_at s e (n + 1) num - 1 else e

end-end_at :
    (r : Range) (n num : ℕ)
    → IsRange r
    → (n < num → 1 ≤ start_at (value r.start) (value r.end) (n + 1) num)
    → (if ltb n num then interval_start r (n + 1) num -ℤ pos 1 else big r.end)
      ≡ pos (end_at (value r.start) (value r.end) n num)
end-end_at r n num h pos_end = elim (Bool-cases (ltb n num)) [
  | inl inner ↦
      rw (inner, interval_start-start_at r (n + 1) num h) (pos-pos _ 1 (pos_end (ground arith)))
  | inr final ↦ rw final (big-value r.end h.end_good)
]

-- IntervalP returns the numbered interval, where its ends are in order.
pub interval_p-Spans :
    (r : Range) (n num : ℕ)
    → IsRange r
    → 1 ≤ n
    → n ≤ num
    → start_at (value r.start) (value r.end) n num ≤ end_at (value r.start) (value r.end) n num
    → end_at (value r.start) (value r.end) n num < modulus
    → (n < num → 1 ≤ start_at (value r.start) (value r.end) (n + 1) num)
    → (q : Range) × (interval_p r n num ≡ ok q)
      × Spans q
          (start_at (value r.start) (value r.end) n num)
          (end_at (value r.start) (value r.end) n num)
unfolding interval_p
interval_p-Spans r n num h pos_n le ordered lt pos_end =
    let guard : (ltb num 1 || ltb n 1 || ltb num n) ≡ false = ground arith in
    let (q, p, spans) = range_from-Spans _ _ ordered lt in
    (q, rw (guard, interval_start-start_at r n num h, end-end_at r n num h pos_end) p, spans)

-- The n-th of the parts starts between n - 1 and n times the quotient, which is at least `num`.
record InPart (s e n num : ℕ) : Type 0 where
  from_part : s + (e - s) / num * (n - 1) ≤ start_at s e n num
  to_part : start_at s e n num < s + (e - s) / num * (n - 1) + num
  long : num ≤ (e - s) / num
  fits : s + (e - s) / num * num ≤ e

start_at-InPart : (s e n num : ℕ) → 1 ≤ n → n ≤ num → num * num ≤ e - s → InPart s e n num
start_at-InPart s e n num h k square =
    let pos_num : 0 < num = omega arith in
    let pos_square : 0 < num * num = grind arith in
    let offset = mod-lt ((e - s) % num * (n - 1)) pos_num in
    record {
      from_part = omega arith;
      to_part = omega (arith, offset);
      long = (le-div_iff_mul-le pos_num).1 square;
      fits = omega (arith, div-mul-le_self (e - s) num);
    }

part_le : (q m num : ℕ) → m + 1 ≤ num → q * m + q ≤ q * num
part_le q m num h = grind arith

-- Two neighbours among the intervals of a range: both are returned, the first starts no later than
-- it ends, and the second starts right behind it.
pub record Adjacent (r : Range) (n num : ℕ) (a b : Range) : Type 0 where
  pub first : interval_p r n num ≡ ok a
  pub second : interval_p r (n + 1) num ≡ ok b
  pub first_good : IsRange a
  pub second_good : IsRange b
  pub adjacent : value a.end + 1 ≡ value b.start
  pub first_start : n ≡ 1 → value a.start ≡ value r.start
  pub last_end : n + 1 ≡ num → value b.end ≡ value r.end

next_start :
    (s e n num : ℕ)
    → 1 ≤ n
    → n < num
    → num * num ≤ e - s
    → (start_at s e n num < start_at s e (n + 1) num) × (start_at s e (n + 1) num ≤ e)
next_start s e n num h k square =
    let a = start_at-InPart s e n num h (omega arith) square in
    let b = start_at-InPart s e (n + 1) num (omega arith) (omega arith) square in
    let q = (e - s) / num in
    let step : q * (n + 1 - 1) ≡ q * (n - 1) + q = step_lem q n h in
    (
      omega (arith, a.to_part, b.from_part, a.long, step),
      omega (arith, b.to_part, b.fits, b.long, step, part_le q (n + 1 - 1) num (omega arith)),
    )
  where
    step_lem : (q n : ℕ) → 1 ≤ n → q * (n + 1 - 1) ≡ q * (n - 1) + q
    step_lem q zero h = absurd (omega arith)
    step_lem q (suc m) h =
        let e : suc m + 1 - 1 ≡ m + 1 = omega arith in
        let f : suc m - 1 ≡ m = omega arith in rw (e, f) (omega arith)

start_at-one : (s e num : ℕ) → start_at s e 1 num ≡ s
start_at-one s e num =
    let none_before : (e - s) / num * (1 - 1) ≡ 0 = mul-zero ((e - s) / num) in
    let no_rest : (e - s) % num * (1 - 1) ≡ 0 = mul-zero ((e - s) % num) in
    rw (none_before, no_rest, zero-mod num) (omega arith)

end_at_last : (s e n num : ℕ) → n ≡ num → end_at s e n num ≡ e
end_at_last s e n num h = ground arith

-- The interval behind the n-th ends behind its start, inside the range.
end_at_bounds :
    (s e n num : ℕ)
    → 1 ≤ n
    → n < num
    → num * num ≤ e - s
    → (start_at s e (n + 1) num ≤ end_at s e (n + 1) num) × (end_at s e (n + 1) num ≤ e)
end_at_bounds s e n num h k square = elim (Bool-cases (ltb (n + 1) num)) [
  | inl inner ↦
      let after = next_start s e (n + 1) num (omega arith) (ground arith) square in
      rw inner (omega arith, omega arith)
  | inr final ↦ rw final ((next_start s e n num h k square).1, omega arith)
]

-- IntervalP on a proper range of at least num * num steps: neighbouring intervals meet without
-- a gap or an overlap, the first starts with the range and the last ends with it.
pub interval_p-Adjacent :
    (r : Range) (n num : ℕ)
    → IsRange r
    → 1 ≤ n
    → n < num
    → num * num ≤ value r.end - value r.start
    → (a : Range) × (b : Range) × Adjacent r n num a b
interval_p-Adjacent r n num h pos_n lt square =
    let s = value r.start in
    let e = value r.end in
    let top = value-lt_modulus r.end h.end_good in
    let (here, there) = next_start s e n num pos_n lt square in
    let (ordered, below) = end_at_bounds s e n num pos_n lt square in
    let end_here : end_at s e n num ≡ start_at s e (n + 1) num - 1 = ground arith in
    let (a, p, sa) =
      interval_p-Spans r n num h pos_n (omega arith) (rw end_here (omega arith))
        (rw end_here (omega arith)) (λ _. omega arith) in
    let (b, q, sb) =
      interval_p-Spans r (n + 1) num h (omega arith) (omega arith) ordered (omega (arith, below))
        (λ inner.
          let after = next_start s e (n + 1) num (omega arith) inner square in omega arith) in
    (
      a,
      b,
      record {
        first = p;
        second = q;
        first_good = sa.good;
        second_good = sb.good;
        adjacent = omega (arith, sa.ends, end_here, sb.starts);
        first_start =
            λ one. omega (arith, sa.starts, ap (λ m. start_at s e m num) one, start_at-one s e num);
        last_end = λ final. omega (arith, sb.ends, end_at_last s e (n + 1) num final);
      },
    )
