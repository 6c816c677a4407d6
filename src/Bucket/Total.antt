-- ===== src/Bucket/Total.antt =====
-- dht/routing_table.go, Split: the recursion, and the two buckets with which it ends.
use mathlib.Core.Path.{subst}
use mathlib.Core.List.Perm
use mathlib.Core.List.{Perm, append-nil}
use native.Mathlib.Nat.{pow-suc}
use lbry_go.Prelude.{
  ℕ, zero, suc, ◌+◌, ◌-◌, ◌^◌, ◌<◌, ◌≤◌, ◌≡◌, refl, ap, sym, ◌∙◌, not, List, [], ◌∷◌, ◌++◌, length,
  All, ltb, ◌==◌, arith, Bool-cases, inl, inr, ok,
}
use lbry_go.Bitmap.{Bitmap, IsBitmap}
use lbry_go.Bitmap.Value.{value}
use lbry_go.Bitmap.Sum.{value-lt_modulus}
use lbry_go.Bitmap.Order.{value-injective}
use lbry_go.Range.{Range, contains}
use lbry_go.Range.Halves.{Halved, interval_p-Halved}
use lbry_go.Bucket.{Peer, Bucket, IsPeer, IsBucket, side, split}
use lbry_go.Bucket.Splitting.{left_side, right_side, two_apart, keep-perm, length-keep}

-- `l` and `r` are valid buckets with adjacent ranges that make up the range of `b`. They hold the
-- peers of `b`, and each holds some, if there are two or more.
pub record Parted (self : Bitmap) (b l r : Bucket) : Type 0 where
  pub left_good : IsBucket self l
  pub right_good : IsBucket self r
  pub left_start : l.range.start ≡ b.range.start
  pub adjacent : value l.range.end + 1 ≡ value r.range.start
  pub right_end : r.range.end ≡ b.range.end
  pub dealt : Perm (l.peers ++ r.peers) b.peers
  pub counted : length l.peers + length r.peers ≡ length b.peers
  pub shared : 1 < length b.peers → (0 < length l.peers) × (0 < length r.peers)
  pub left_time : l.last_update ≡ b.last_update
  pub right_time : r.last_update ≡ b.last_update

same_end : (a b : Bitmap) → IsBitmap a → IsBitmap b → value a ≡ value b → a ≡ b
same_end a b h k e = value-injective a b (h.0 ∙ sym k.0) h.1 k.1 e

-- The peers of a range are peers of a wider one.
All-wider :
    (self : Bitmap) (r r' : Range) (ps : List Peer)
    → value r'.start ≤ value r.start
    → value r.end ≤ value r'.end
    → All (IsPeer self r) ps
    → All (IsPeer self r') ps
All-wider self r r' [] low high g = tt
All-wider self r r' (p ∷ ps) low high g = (
  record {
    id_good = g.0.id_good;
    measured = g.0.measured;
    inside = record {
      above = omega (arith, g.0.inside.above);
      below = omega (arith, g.0.inside.below);
    };
  },
  All-wider self r r' ps low high g.1,
)

all_right :
    (some_left some_right ps : List Peer)
    → Perm (some_left ++ some_right) ps
    → length some_left ≡ 0
    → Perm some_right ps
all_right [] some_right ps p e = p
all_right (q ∷ qs) some_right ps p e = absurd (omega arith)

all_left :
    (some_left some_right ps : List Peer)
    → Perm (some_left ++ some_right) ps
    → length some_right ≡ 0
    → Perm some_left ps
all_left some_left [] ps p e = subst (λ l. Perm l ps) (append-nil some_left) p
all_left some_left (q ∷ qs) ps p e = absurd (omega arith)

module _ (self : Bitmap) (hs : IsBitmap self) (b : Bucket) (h : IsBucket self b) (lr rr : Range)
    (halved : Halved b.range lr rr) where
  abbrev left : Bucket
  left = side b lr (λ p. contains lr p.distance)

  abbrev right : Bucket
  right = side b rr (λ p. not (contains lr p.distance))

  count : length left.peers + length right.peers ≡ length b.peers
  count = length-keep (λ p. contains lr p.distance) b.peers

  -- The first halves will do, unless one is empty and there are peers to share.
  at_once :
      (1 < length b.peers → (0 < length left.peers) × (0 < length right.peers))
      → Parted self b left right
  at_once shared = record {
    left_good = left_side self hs b h lr rr halved;
    right_good = right_side self hs b h lr rr halved;
    left_start = same_end _ _ halved.left_good.start_good h.range_good.start_good halved.left_start;
    adjacent = halved.adjacent;
    right_end = same_end _ _ halved.right_good.end_good h.range_good.end_good halved.right_end;
    dealt = keep-perm (λ p. contains lr p.distance) b.peers;
    counted = count;
    shared = shared;
    left_time = refl;
    right_time = refl;
  }

  -- All the peers are on the right: the left of the two parts of the right half takes in the left
  -- half.
  widen_left :
      (l r : Bucket)
      → length left.peers ≡ 0
      → 1 < length b.peers
      → Parted self right l r
      → Parted self b (record l { range = record { start = b.range.start; end = l.range.end } }) r
  widen_left l r none many t = record {
    left_good = record {
      range_good = record {
        start_good = h.range_good.start_good;
        end_good = t.left_good.range_good.end_good;
        ordered = omega (
          arith,
          t.left_good.range_good.ordered,
          ap value t.left_start,
          halved.adjacent,
          halved.left_start,
          halved.left_good.ordered,
        );
      };
      peers_good =
          All-wider self _ _ l.peers
            (omega (
              arith,
              ap value t.left_start,
              halved.adjacent,
              halved.left_start,
              halved.left_good.ordered,
            ))
            (omega arith) t.left_good.peers_good;
      distinct = t.left_good.distinct;
      bounded = t.left_good.bounded;
    };
    right_good = t.right_good;
    left_start = refl;
    adjacent = t.adjacent;
    right_end =
        t.right_end
        ∙ same_end _ _ halved.right_good.end_good h.range_good.end_good halved.right_end;
    dealt = Perm.trans t.dealt (
        all_right left.peers right.peers b.peers (keep-perm (λ p. contains lr p.distance) b.peers)
          none);
    counted = omega (arith, t.counted, count);
    shared = λ _. t.shared (omega (arith, count));
    left_time = t.left_time;
    right_time = t.right_time;
  }

  widen_right :
      (l r : Bucket)
      → length right.peers ≡ 0
      → 1 < length b.peers
      → Parted self left l r
      → Parted self b l (record r { range = record { start = r.range.start; end = b.range.end } })
  widen_right l r none many t = record {
    left_good = t.left_good;
    right_good = record {
      range_good = record {
        start_good = t.right_good.range_good.start_good;
        end_good = h.range_good.end_good;
        ordered = omega (
          arith,
          t.right_good.range_good.ordered,
          ap value t.right_end,
          halved.adjacent,
          halved.right_end,
          halved.right_good.ordered,
        );
      };
      peers_good =
          All-wider self _ _ r.peers (omega arith)
            (omega (
              arith,
              ap value t.right_end,
              halved.adjacent,
              halved.right_end,
              halved.right_good.ordered,
            ))
            t.right_good.peers_good;
      distinct = t.right_good.distinct;
      bounded = t.right_good.bounded;
    };
    left_start =
        t.left_start
        ∙ same_end _ _ halved.left_good.start_good h.range_good.start_good halved.left_start;
    adjacent = t.adjacent;
    right_end = refl;
    dealt = Perm.trans t.dealt (
        all_left left.peers right.peers b.peers (keep-perm (λ p. contains lr p.distance) b.peers)
          none);
    counted = omega (arith, t.counted, count);
    shared = λ _. t.shared (omega (arith, count));
    left_time = t.left_time;
    right_time = t.right_time;
  }

-- Enough fuel for every range of identifiers.
abbrev pub split_fuel : ℕ
split_fuel = 385

split_below :
    (fuel : ℕ) (self : Bitmap) (b : Bucket)
    → IsBitmap self
    → IsBucket self b
    → value b.range.start < value b.range.end
    → value b.range.end - value b.range.start < 2 ^ fuel
    → (l : Bucket) × (r : Bucket) × (split fuel b ≡ ok (l, r)) × Parted self b l r
unfolding split
split_below zero self b hs h wide f = absurd (omega arith)
split_below (suc fuel) self b hs h wide f =
    let (lr, rr, el, er, halved) = interval_p-Halved b.range h.range_good wide in
    let half = pow-suc 2 fuel in
    let hl = left_side self hs b h lr rr halved in
    let hr = right_side self hs b h lr rr halved in
    elim (Bool-cases (ltb 1 (length b.peers))) [
      | inr few ↦
          (_, _, rw (el, er, few), at_once self hs b h lr rr halved (λ lt. absurd (ground arith)))
      | inl many ↦ elim (Bool-cases (length (left self hs b h lr rr halved).peers == 0)) [
        | inl none ↦
            let lt : 1 < length (right self hs b h lr rr halved).peers =
              ground (arith, count self hs b h lr rr halved) in
            let (l, r, e, t) =
              split_below fuel self (right self hs b h lr rr halved) hs hr
                (two_apart self _ hs hr lt) (omega (arith, half, halved.right_short)) in
            (
              _,
              _,
              rw (el, er, many, none, e),
              widen_left self hs b h lr rr halved l r (ground arith) (ground arith) t,
            )
        | inr some_left ↦ elim (Bool-cases (length (right self hs b h lr rr halved).peers == 0)) [
          | inl none ↦
              let lt : 1 < length (left self hs b h lr rr halved).peers =
                ground (arith, count self hs b h lr rr halved) in
              let (l, r, e, t) =
                split_below fuel self (left self hs b h lr rr halved) hs hl
                  (two_apart self _ hs hl lt) (omega (arith, half, halved.left_short)) in
              (
                _,
                _,
                rw (el, er, many, some_left, none, e),
                widen_right self hs b h lr rr halved l r (ground arith) (ground arith) t,
              )
          | inr some_right ↦ (
            _,
            _,
            rw (el, er, many, some_left, some_right),
            at_once self hs b h lr rr halved (λ _. (ground arith, ground arith)),
          )
        ]
      ]
    ]

-- Split of a valid bucket over two identifiers or more ends, without a panic, in two valid buckets
-- over the two parts of its range, to which its peers are dealt out.
pub split-Parted :
    (self : Bitmap) (b : Bucket)
    → IsBitmap self
    → IsBucket self b
    → value b.range.start < value b.range.end
    → (l : Bucket) × (r : Bucket) × (split split_fuel b ≡ ok (l, r)) × Parted self b l r
split-Parted self b hs h wide =
    split_below split_fuel self b hs h wide
      (omega (arith, value-lt_modulus b.range.end h.range_good.end_good))
