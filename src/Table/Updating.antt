-- ===== src/Table/Updating.antt =====
-- dht/routing_table.go, Update, Fresh and Fail: what a call does to the buckets, and the invariant.
use lbry_go.Prelude.{
  ℕ, ◌≤◌, ◌≡◌, ◌≢◌, refl, ap, sym, ◌∙◌, Bool, true, false, not, List, ◌∷◌, ◌++◌, length, All,
  All-append, All-split, get-middle, set-middle, leb, arith, Bool-cases, inl, inr, ok,
}
use lbry_go.Bitmap.{Bitmap, IsBitmap, xor}
use lbry_go.Bitmap.Value.{value}
use lbry_go.Bitmap.Distance.{xor-IsBitmap}
use lbry_go.Range.{contains}
use lbry_go.Range.Interval.{contains-Within}
use lbry_go.Contact.{Contact}
use lbry_go.Bucket.{Peer, Bucket, IsBucket, IsPeer}
use lbry_go.Bucket.Changes.{Updated, update_peer-Updated}
use lbry_go.Bucket.Invariant.{Updated-IsBucket}
use lbry_go.Bucket.Total.{Parted}
use lbry_go.Table.{RoutingTable, IsTable, Chain, should_split, update_at}
use lbry_go.Table.Cover.{Covering, Chain-replace}

-- The peer that a call makes of a contact.
abbrev pub newcomer : RoutingTable → Contact → Peer
newcomer rt c = record {
  contact = c;
  distance = xor rt.id c.id;
  last_activity = 0;
  num_failures = 0;
}

abbrev pub with_buckets : RoutingTable → List Bucket → RoutingTable
with_buckets rt l = record rt { buckets = l }

replace-All :
    (self : Bitmap) (before : List Bucket) (b b' : Bucket) (after : List Bucket)
    → All (IsBucket self) (before ++ b ∷ after)
    → IsBucket self b'
    → All (IsBucket self) (before ++ b' ∷ after)
replace-All self before b b' after hs h =
    let (l, r) = All-split (IsBucket self) before (b ∷ after) hs in
    All-append (IsBucket self) before (b' ∷ after) l (h, r.1)

-- A valid table whose buckets are `l`.
pub record Holds (rt : RoutingTable) (l : List Bucket) : Type 0 where
  pub id_good : IsBitmap rt.id
  pub good : All (IsBucket rt.id) l
  pub covers : Chain 0 l

pub Holds-IsTable : {rt : RoutingTable} {l : List Bucket} → Holds rt l → IsTable (with_buckets rt l)
Holds-IsTable h = record { id_good = h.id_good; buckets_good = h.good; covers = h.covers }

pub replace-Holds :
    {rt : RoutingTable} (before : List Bucket) (b b' : Bucket) (after : List Bucket)
    → Holds rt (before ++ b ∷ after)
    → IsBucket rt.id b'
    → b'.range ≡ b.range
    → Holds rt (before ++ b' ∷ after)
replace-Holds {rt} before b b' after h k e = record {
  id_good = h.id_good;
  good = replace-All rt.id before b b' after h.good k;
  covers = Chain-replace 0 before b b' after e h.covers;
}

module _ (now : ℕ) (rt : RoutingTable) (c : Contact) (good : IsBitmap c.id)
    (insert_if_new : Bool) where
  abbrev pub Ends : List Bucket → Bucket → List Bucket → RoutingTable → Type 0
  Ends before b after rt' =
      (b' : Bucket) × (rt' ≡ with_buckets rt (before ++ b' ∷ after))
      × Updated now b (newcomer rt c) insert_if_new b'
      × Holds rt (before ++ b' ∷ after)

  -- The call reaches the bucket that covers the contact's distance.
  pub update_at-Updated :
      (l before : List Bucket) (b : Bucket) (after : List Bucket) (i : ℕ)
      → l ≡ before ++ b ∷ after
      → i ≡ length before
      → Holds rt (before ++ b ∷ after)
      → contains b.range (xor rt.id c.id) ≡ true
      → Ends before b after (update_at now (with_buckets rt l) c insert_if_new i)
  unfolding update_at
  update_at-Updated l before b after i e n h inside =
      let (_, hb) = All-split (IsBucket rt.id) before (b ∷ after) h.good in
      let (b', run, u) =
        (update_peer-Updated now rt.id b (newcomer rt c) insert_if_new hb.0 good).0 inside in
      let d = xor-IsBitmap rt.id c.id h.id_good good in
      let k : IsPeer rt.id b.range (newcomer rt c) = record {
        id_good = good;
        measured = refl;
        inside = (contains-Within b.range (xor rt.id c.id) hb.0.range_good d).0 inside;
      } in
      let (hb', same) = Updated-IsBucket u hb.0 k in
      (
        b',
        ap (λ m. update_at now (with_buckets rt m) c insert_if_new i) e
            ∙ rw (get-middle before b after i n, update_at, run)
                (ap (with_buckets rt) (set-middle before b b' after i n)),
        u,
        replace-Holds before b b' after h hb' same,
      )

  -- A call that reaches another bucket changes nothing.
  pub update_at_elsewhere :
      (l before : List Bucket) (b : Bucket) (after : List Bucket) (i : ℕ)
      → l ≡ before ++ b ∷ after
      → i ≡ length before
      → Holds rt (before ++ b ∷ after)
      → contains b.range (xor rt.id c.id) ≡ false
      → update_at now (with_buckets rt l) c insert_if_new i ≡ with_buckets rt (before ++ b ∷ after)
  unfolding update_at
  update_at_elsewhere l before b after i e n h outside =
      let (_, hb) = All-split (IsBucket rt.id) before (b ∷ after) h.good in
      let run =
        (update_peer-Updated now rt.id b (newcomer rt c) insert_if_new hb.0 good).1 outside in
      ap (λ m. update_at now (with_buckets rt m) c insert_if_new i) e
      ∙ rw (get-middle before b after i n, update_at, run) refl

-- How Update of a contact ends in the table `rt'`: the bucket that covers the contact is updated, which
-- need not store it; or it is split and the part that covers the contact is updated; or it is split, and the contact goes
-- to the part that does not cover it, which refuses it.
pub data Stored (now : ℕ) (rt : RoutingTable) (c : Contact) (rt' : RoutingTable) : Type 0 where
  direct :
      {before after : List Bucket} {b b' : Bucket}
      → Covering (xor rt.id c.id) rt.buckets before b after
      → should_split rt b c ≡ ok false
      → Updated now b (newcomer rt c) true b'
      → rt' ≡ with_buckets rt (before ++ b' ∷ after)
      → Stored now rt c rt'
  in_left :
      {before after : List Bucket} {b l r l' : Bucket}
      → Covering (xor rt.id c.id) rt.buckets before b after
      → should_split rt b c ≡ ok true
      → Parted rt.id b l r
      → contains l.range c.id ≡ true
      → contains l.range (xor rt.id c.id) ≡ true
      → Updated now l (newcomer rt c) true l'
      → rt' ≡ with_buckets rt (before ++ l' ∷ r ∷ after)
      → Stored now rt c rt'
  in_right :
      {before after : List Bucket} {b l r r' : Bucket}
      → Covering (xor rt.id c.id) rt.buckets before b after
      → should_split rt b c ≡ ok true
      → Parted rt.id b l r
      → contains l.range c.id ≡ false
      → contains r.range (xor rt.id c.id) ≡ true
      → Updated now r (newcomer rt c) true r'
      → rt' ≡ with_buckets rt (before ++ l ∷ r' ∷ after)
      → Stored now rt c rt'
  misplaced :
      {before after : List Bucket} {b l r : Bucket}
      → Covering (xor rt.id c.id) rt.buckets before b after
      → should_split rt b c ≡ ok true
      → Parted rt.id b l r
      → contains l.range c.id ≢ contains l.range (xor rt.id c.id)
      → rt' ≡ with_buckets rt (before ++ l ∷ r ∷ after)
      → Stored now rt c rt'

-- A distance in a bucket that is split is in exactly one of the parts.
pub one_part :
    (self : Bitmap) (b l r : Bucket) (d : Bitmap)
    → IsBucket self b
    → Parted self b l r
    → IsBitmap d
    → contains b.range d ≡ true
    → contains r.range d ≡ not (contains l.range d)
one_part self b l r d h t hd inside =
    let w = (contains-Within b.range d h.range_good hd).0 inside in
    let wl = contains-Within l.range d t.left_good.range_good hd in
    let wr = contains-Within r.range d t.right_good.range_good hd in
    elim (Bool-cases (leb (value d) (value l.range.end))) [
      | inl low ↦
          let yes_left = wl.1 (record {
            above = omega (arith, ap value t.left_start, w.above);
            below = ground arith;
          }) in
          rw yes_left (
            is_false (contains r.range d)
              (λ e. omega (arith, (wr.0 e).above, t.adjacent, leb→le low)))
      | inr high ↦
          let yes_right = wr.1 (record {
            above = ground (arith, t.adjacent);
            below = omega (arith, ap value t.right_end, w.below);
          }) in
          rw yes_right
            (sym (ap not (is_false (contains l.range d) (λ e. gt→not-le high ((wl.0 e).below)))))
    ]
  where
    is_false : (t : Bool) → (t ≡ true → ⊥) → t ≡ false
    is_false true f = absurd (f refl)
    is_false false f = refl

    leb→le : {m n : ℕ} → leb m n ≡ true → m ≤ n
    leb→le e = ground arith

    gt→not-le : {m n : ℕ} → leb m n ≡ false → m ≤ n → ⊥
    gt→not-le e h = ground arith
