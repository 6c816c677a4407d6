-- ===== src/Table/Cover.antt =====
-- dht/routing_table.go, bucketFor and the bucket search of Update: buckets that cover a distance.
use mathlib.Core.Path.{subst}
use lbry_go.Prelude.{
  ℕ, suc, ◌+◌, ◌≤◌, ◌≡◌, ◌≢◌, refl, ap, sym, ◌∙◌, Bool, true, false, List, [], ◌∷◌, ◌++◌, length,
  All, All-split, some, leb, arith, Bool-cases, inl, inr, ok, panic, ◌⊎◌,
}
use lbry_go.Bitmap.{Bitmap, IsBitmap, equals, xor}
use lbry_go.Bitmap.Value.{value}
use lbry_go.Bitmap.Order.{equals_iff}
use lbry_go.Bitmap.Sum.{value-lt_modulus}
use lbry_go.Bitmap.Distance.{xor-IsBitmap}
use lbry_go.Range.{Range, Within, contains}
use lbry_go.Range.Interval.{contains-Within}
use lbry_go.Bucket.{Bucket, IsBucket}
use lbry_go.Table.{RoutingTable, IsTable, Chain, bucket_loop, bucket_for, start_loop}

-- The bucket in the place `i` of the list, and that it covers the distance.
pub record Covering (distance : Bitmap) (buckets before : List Bucket) (b : Bucket)
    (after : List Bucket) : Type 0 where
  pub splits : buckets ≡ before ++ b ∷ after
  pub covers : contains b.range distance ≡ true

abbrev LoopFinds : ℕ → Bitmap → List Bucket → Type 0
LoopFinds k distance buckets =
    (before : List Bucket) × (b : Bucket) × (after : List Bucket) × Covering distance buckets before
      b after
    × (bucket_loop k distance buckets ≡ some (k + length before))

bucket_loop-LoopFinds :
    (k s : ℕ) (self distance : Bitmap) (buckets : List Bucket)
    → IsBitmap distance
    → All (IsBucket self) buckets
    → Chain s buckets
    → s ≤ value distance
    → LoopFinds k distance buckets
unfolding bucket_loop
bucket_loop-LoopFinds k s self distance [] hd hs c le =
    absurd (omega (arith, value-lt_modulus distance hd))
bucket_loop-LoopFinds k s self distance (b ∷ buckets) hd hs c le =
    elim (Bool-cases (contains b.range distance)) [
      | inl here ↦
          ([], b, buckets, record { splits = refl; covers = here }, rw here (ap some (omega arith)))
      | inr past ↦
          let w = contains-Within b.range distance hs.0.range_good hd in
          let beyond : value b.range.end + 1 ≤ value distance =
            elim (Bool-cases (leb (value distance) (value b.range.end))) [
              | inl low ↦
                  let inside : Within b.range distance = record {
                    above = omega (arith, c.0);
                    below = ground arith;
                  } in
                  absurd (clash (contains b.range distance) (w.1 inside) past)
              | inr high ↦ ground arith
            ] in
          let (before, b', after, f, e) =
            bucket_loop-LoopFinds (suc k) (value b.range.end + 1) self distance buckets hd hs.1 c.1
              beyond in
          (
            b ∷ before,
            b',
            after,
            record { splits = ap (◌∷◌ b) f.splits; covers = f.covers },
            rw past (e ∙ ap some (omega arith)),
          )
    ]
  where
    clash : (c : Bool) → c ≡ true → c ≡ false → ⊥
    clash true e f = cc
    clash false e f = cc

-- bucketFor finds the bucket that covers the distance of any identifier but the table's own, for
-- which it panics.
pub bucket_for-Covering :
    (rt : RoutingTable) (target : Bitmap)
    → IsTable rt
    → IsBitmap target
    → (rt.id ≢ target
        → (before : List Bucket) × (b : Bucket) × (after : List Bucket) × Covering
            (xor target rt.id)
            rt.buckets
            before
            b
            after
          × (bucket_for rt target ≡ ok (length before)))
      × (rt.id ≡ target
          → bucket_for rt target ≡ panic "routing table does not have a bucket for its own id")
unfolding bucket_for
bucket_for-Covering rt target h good = (
  λ other.
      let (before, b, after, f, e) =
        bucket_loop-LoopFinds 0 0 rt.id (xor target rt.id) rt.buckets
          (xor-IsBitmap target rt.id good h.id_good) h.buckets_good h.covers (omega arith) in
      let test : equals rt.id target ≡ false =
        not_equal (equals rt.id target) other (equals_iff rt.id target h.id_good good).0 in
      (before, b, after, f, rw (test, e) (ap ok (omega arith))),
  λ own. rw ((equals_iff rt.id target h.id_good good).1 own),
)
  where
    not_equal : (c : Bool) → rt.id ≢ target → (c ≡ true → rt.id ≡ target) → c ≡ false
    not_equal true ne f = absurd (ne (f refl))
    not_equal false ne f = refl

-- The buckets in front of one end before it starts.
Chain-le :
    (s : ℕ) (self : Bitmap) (before : List Bucket) (b : Bucket) (after : List Bucket)
    → All (IsBucket self) (before ++ b ∷ after)
    → Chain s (before ++ b ∷ after)
    → s ≤ value b.range.start
Chain-le s self [] b after hs c = omega (arith, c.0)
Chain-le s self (d ∷ before) b after hs c = omega (
  arith,
  c.0,
  hs.0.range_good.ordered,
  Chain-le (value d.range.end + 1) self before b after hs.1 c.1,
)

-- The search of Update finds the bucket that was split, by where it starts.
pub start_loop_finds :
    (k s : ℕ) (self start : Bitmap) (before : List Bucket) (b : Bucket) (after : List Bucket)
    → All (IsBucket self) (before ++ b ∷ after)
    → Chain s (before ++ b ∷ after)
    → start ≡ b.range.start
    → start_loop k start (before ++ b ∷ after) ≡ some (k + length before)
unfolding start_loop
start_loop_finds k s self start [] b after hs c e =
    let good = hs.0.range_good.start_good in
    let test : equals b.range.start start ≡ true =
      ap (equals b.range.start) e ∙ (equals_iff b.range.start b.range.start good good).1 refl in
    rw test (ap some (omega arith))
start_loop_finds k s self start (d ∷ before) b after hs c e =
    let later = Chain-le (value d.range.end + 1) self before b after hs.1 c.1 in
    let (_, rest) = All-split (IsBucket self) before (b ∷ after) hs.1 in
    let test : equals d.range.start start ≡ false =
      ap (equals d.range.start) e
      ∙ not_same (equals d.range.start b.range.start)
          (equals_iff d.range.start b.range.start hs.0.range_good.start_good
            rest.0.range_good.start_good).0
          (λ same. omega (arith, ap value same, later, hs.0.range_good.ordered)) in
    rw test (
      start_loop_finds (suc k) (value d.range.end + 1) self start before b after hs.1 c.1 e
      ∙ ap some (omega arith))
  where
    not_same : {P : Type 0} → (t : Bool) → (t ≡ true → P) → (P → ⊥) → t ≡ false
    not_same true f no_way = absurd (no_way (f refl))
    not_same false f no_way = refl

pub Chain-replace :
    (s : ℕ) (before : List Bucket) (b b' : Bucket) (after : List Bucket)
    → b'.range ≡ b.range
    → Chain s (before ++ b ∷ after)
    → Chain s (before ++ b' ∷ after)
Chain-replace s [] b b' after e c = (
  ap (λ (r : Range). value r.start) e ∙ c.0,
  subst (λ (r : Range). Chain (value r.end + 1) after) (sym e) c.1,
)
Chain-replace s (d ∷ before) b b' after e c =
    (c.0, Chain-replace (value d.range.end + 1) before b b' after e c.1)

pub Chain-split :
    (s : ℕ) (before : List Bucket) (b l r : Bucket) (after : List Bucket)
    → l.range.start ≡ b.range.start
    → value l.range.end + 1 ≡ value r.range.start
    → r.range.end ≡ b.range.end
    → Chain s (before ++ b ∷ after)
    → Chain s (before ++ l ∷ r ∷ after)
Chain-split s [] b l r after e a f c =
    (ap value e ∙ c.0, (sym a, subst (λ (t : Bitmap). Chain (value t + 1) after) (sym f) c.1))
Chain-split s (d ∷ before) b l r after e a f c =
    (c.0, Chain-split (value d.range.end + 1) before b l r after e a f c.1)

-- In a valid table, bucketFor finds the bucket that covers the distance of any identifier but the
-- table's own, for which it panics.
pub bucket_for_cases :
    (rt : RoutingTable) (target : Bitmap)
    → IsTable rt
    → IsBitmap target
    → ((rt.id ≢ target)
        × ((before : List Bucket) × (b : Bucket) × (after : List Bucket) × Covering
              (xor target rt.id)
              rt.buckets
              before
              b
              after
            × (bucket_for rt target ≡ ok (length before))))
      ⊎ ((rt.id ≡ target)
          × (bucket_for rt target ≡ panic "routing table does not have a bucket for its own id"))
bucket_for_cases rt target h good =
    let (found, own) = bucket_for-Covering rt target h good in
    let test = equals_iff rt.id target h.id_good good in
    elim (Bool-cases (equals rt.id target)) [
      | inl same ↦ inr (test.0 same, own (test.0 same))
      | inr differs ↦
          let other : rt.id ≢ target = λ e. true_not_false (sym (test.1 e) ∙ differs) in
          inl (other, found other)
    ]
  where
    true_not_false : true ≢ false
    true_not_false e = cc
