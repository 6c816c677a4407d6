-- ===== src/Bucket/Splitting.antt =====
-- dht/routing_table.go, Split: how the peers of a bucket are dealt out to two sides.
use mathlib.Core.Path.{subst}
use mathlib.Core.List.Perm
use mathlib.Core.List.{Perm, perm_middle}
use lbry_go.Prelude.{
  ◌+◌, ◌<◌, ◌≡◌, ◌≢◌, refl, ap, sym, ◌∙◌, Bool, true, false, not, List, [], ◌∷◌, ◌++◌, length, All,
  All-imp, ltb, leb, arith, Bool-cases, inl, inr,
}
use lbry_go.Bitmap.{Bitmap, IsBitmap, xor}
use lbry_go.Bitmap.Value.{value}
use lbry_go.Bitmap.Order.{value-injective}
use lbry_go.Bitmap.Distance.{xor-IsBitmap, xor_comm, xor_cancel}
use lbry_go.Range.{Range, Within, contains}
use lbry_go.Range.Interval.{contains-Within}
use lbry_go.Range.Halves.{Halved}
use lbry_go.Bucket.{Peer, Bucket, IsPeer, IsBucket, Distinct, keep_if, side}

keep-All :
    (P : Peer → Type 0) (test : Peer → Bool) (l : List Peer)
    → All P l
    → All (λ p. P p × (test p ≡ true)) (keep_if test l)
unfolding keep_if
keep-All P test [] h = tt
keep-All P test (p ∷ l) h = elim (Bool-cases (test p)) [
  | inl kept ↦ rw kept ((h.0, kept), keep-All P test l h.1)
  | inr gone ↦ rw gone (keep-All P test l h.1)
]

keep-Distinct : (test : Peer → Bool) (l : List Peer) → Distinct l → Distinct (keep_if test l)
unfolding keep_if
keep-Distinct test [] d = tt
keep-Distinct test (p ∷ l) d = elim (Bool-cases (test p)) [
  | inl kept ↦
      let others = keep-All (λ q. q.contact.id ≢ p.contact.id) test l d.0 in
      rw kept (
        All-imp _ (λ q. q.contact.id ≢ p.contact.id) _ (λ q f. f.0) others,
        keep-Distinct test l d.1,
      )
  | inr gone ↦ rw gone (keep-Distinct test l d.1)
]

pub keep-perm :
    (test : Peer → Bool) (l : List Peer) → Perm (keep_if test l ++ keep_if (λ p. not (test p)) l) l
unfolding keep_if
keep-perm test [] = Perm.nil
keep-perm test (p ∷ l) = elim (Bool-cases (test p)) [
  | inl kept ↦ rw kept (Perm.cons p (keep-perm test l))
  | inr gone ↦ rw gone (
      Perm.trans (perm_middle (keep_if test l) (keep_if (λ p. not (test p)) l))
        (Perm.cons p (keep-perm test l)))
]

pub length-keep :
    (test : Peer → Bool) (l : List Peer)
    → length (keep_if test l) + length (keep_if (λ p. not (test p)) l) ≡ length l
unfolding keep_if
length-keep test [] = refl
length-keep test (p ∷ l) = ground (arith, length-keep test l)

distance_good :
    {self : Bitmap} {r : Range} {p : Peer} → IsBitmap self → IsPeer self r p → IsBitmap p.distance
distance_good {self} {p = p} hs h =
    subst IsBitmap (sym h.measured) (xor-IsBitmap self p.contact.id hs h.id_good)

-- Only one identifier stands at a given distance.
same_id :
    (self a b : Bitmap) → IsBitmap self → IsBitmap a → IsBitmap b → xor self a ≡ xor self b → a ≡ b
same_id self a b hs ha hb e =
    sym (xor_cancel a self ha hs)
    ∙ ap (λ c. xor c self) (xor_comm a self ha hs ∙ e ∙ xor_comm self b hs hb)
    ∙ xor_cancel b self hb hs

-- Two peers of one bucket stand at different distances, so its range is not a single identifier.
pub two_apart :
    (self : Bitmap) (b : Bucket)
    → IsBitmap self
    → IsBucket self b
    → 1 < length b.peers
    → value b.range.start < value b.range.end
two_apart self b hs h lt = apart b.peers h.peers_good h.distinct lt
  where
    apart :
        (l : List Peer)
        → All (IsPeer self b.range) l
        → Distinct l
        → 1 < length l
        → value b.range.start < value b.range.end
    apart [] g d lt = absurd (omega arith)
    apart (p ∷ []) g d lt = absurd (omega arith)
    apart (p ∷ q ∷ l) g d lt = elim (Bool-cases (ltb (value b.range.start) (value b.range.end))) [
      | inl wide ↦ ground arith
      | inr single ↦
          let hp = g.0 in
          let hq = g.1.0 in
          let vp = distance_good hs hp in
          let vq = distance_good hs hq in
          let same : value q.distance ≡ value p.distance =
            ground (arith, hp.inside.above, hp.inside.below, hq.inside.above, hq.inside.below) in
          let same_distance =
            value-injective q.distance p.distance (vq.0 ∙ sym vp.0) vq.1 vp.1 same in
          absurd (
            d.0.0 (
              same_id self q.contact.id p.contact.id hs hq.id_good hp.id_good
                (sym hq.measured ∙ same_distance ∙ hp.measured)))
    ]

module _ (self : Bitmap) (hs : IsBitmap self) (b : Bucket) (h : IsBucket self b) (l r : Range)
    (halved : Halved b.range l r) where
  pub left_side : IsBucket self (side b l (λ p. contains l p.distance))
  left_side = record {
    range_good = halved.left_good;
    peers_good =
        All-imp _ (IsPeer self l) _
          (λ p f. record {
            id_good = f.0.id_good;
            measured = f.0.measured;
            inside = (contains-Within l p.distance halved.left_good (distance_good hs f.0)).0 f.1;
          })
          (keep-All (IsPeer self b.range) (λ p. contains l p.distance) b.peers h.peers_good);
    distinct = keep-Distinct (λ p. contains l p.distance) b.peers h.distinct;
    bounded = omega (arith, length-keep (λ p. contains l p.distance) b.peers, h.bounded);
  }

  -- A peer of the bucket that is not in the left half is in the right one.
  in_right :
      (p : Peer) → IsPeer self b.range p → not (contains l p.distance) ≡ true → Within r p.distance
  in_right p k out =
      let left = contains-Within l p.distance halved.left_good (distance_good hs k) in
      elim (Bool-cases (leb (value p.distance) (value l.end))) [
        | inl low ↦
            let w : Within l p.distance = record {
              above = omega (arith, halved.left_start, k.inside.above);
              below = ground arith;
            } in
            absurd (both (contains l p.distance) (left.1 w) out)
        | inr high ↦ record {
          above = ground (arith, halved.adjacent);
          below = omega (arith, halved.right_end, k.inside.below);
        }
      ]
    where
      both : (c : Bool) → c ≡ true → not c ≡ true → ⊥
      both true e f = cc
      both false e f = cc

  pub right_side : IsBucket self (side b r (λ p. not (contains l p.distance)))
  right_side = record {
    range_good = halved.right_good;
    peers_good =
        All-imp _ (IsPeer self r) _
          (λ p f. record {
            id_good = f.0.id_good;
            measured = f.0.measured;
            inside = in_right p f.0 f.1;
          })
          (keep-All (IsPeer self b.range) (λ p. not (contains l p.distance)) b.peers h.peers_good);
    distinct = keep-Distinct (λ p. not (contains l p.distance)) b.peers h.distinct;
    bounded = omega (arith, length-keep (λ p. contains l p.distance) b.peers, h.bounded);
  }
