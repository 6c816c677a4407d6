-- ===== src/Table/Storing.antt =====
-- dht/routing_table.go, shouldSplit and Update: the steps of a call that splits a bucket.
use mathlib.Core.Path.{subst}
use mathlib.Core.List.{append_assoc}
use lbry_go.Prelude.{
  ℕ, suc, ◌+◌, ◌<◌, ◌≤◌, ◌≡◌, ◌≢◌, refl, ap, sym, ◌∙◌, Bool, true, false, not, List, [], ◌∷◌, ◌++◌,
  length, length-append, length-take, map, leb, arith, Bool-cases, inl, inr, ok,
}
use lbry_go.Bitmap.{Bitmap, IsBitmap, xor, equals, closer, zeros}
use lbry_go.Range.{contains}
use lbry_go.Contact.{Contact, sort_by_distance}
use lbry_go.Contact.Sorting.{length-sort_by_distance}
use lbry_go.Bucket.{Peer, Bucket, len, has, contacts, bucket_size}
use lbry_go.Bucket.Total.{Parted}
use lbry_go.Table.{
  RoutingTable, IsTable, all_contacts, get_closest, last_contact, should_split, update_at,
}
use lbry_go.Table.Cover.{Covering}
use lbry_go.Table.Updating.{
  Stored, in_left, in_right, misplaced, Holds, Holds-IsTable, with_buckets, update_at-Updated,
  update_at_elsewhere,
}

last_contact-ok : (l : List Contact) → 0 < length l → (c : Contact) × (last_contact l ≡ ok c)
unfolding last_contact
last_contact-ok [] h = absurd (omega arith)
last_contact-ok (c ∷ []) h = (c, refl)
last_contact-ok (c ∷ d ∷ l) h = last_contact-ok (d ∷ l) (omega arith)

all_contacts-length :
    (before : List Bucket) (b : Bucket) (after : List Bucket)
    → length b.peers ≤ length (all_contacts (before ++ b ∷ after))
unfolding all_contacts contacts
all_contacts-length [] b after =
    omega
      (arith, length-append (map (λ p. p.contact) b.peers) (all_contacts after), length-map b.peers)
  where
    length-map : (ps : List Peer) → length (map (λ (p : Peer). p.contact) ps) ≡ length ps
    length-map [] = refl
    length-map (p ∷ ps) = ap suc (length-map ps)
all_contacts-length (d ∷ before) b after = omega (
  arith,
  length-append (map (λ p. p.contact) d.peers) (all_contacts (before ++ b ∷ after)),
  all_contacts-length before b after,
)

get_closest-nonempty :
    (rt : RoutingTable) (target : Bitmap)
    → 0 < length (all_contacts rt.buckets)
    → 0 < length (get_closest rt target bucket_size)
unfolding get_closest
get_closest-nonempty rt target h = ground (
  arith,
  length-sort_by_distance (all_contacts rt.buckets) target,
  length-take bucket_size (sort_by_distance (all_contacts rt.buckets) target),
)

-- shouldSplit always answers, and asks for a split of a full bucket only.
pub should_split-ok :
    (rt : RoutingTable) (c : Contact) (before : List Bucket) (b : Bucket) (after : List Bucket)
    → rt.buckets ≡ before ++ b ∷ after
    → (t : Bool) × (should_split rt b c ≡ ok t) × (t ≡ true → bucket_size ≤ length b.peers)
unfolding should_split len
should_split-ok rt c before b after e = elim (Bool-cases (has b c)) [
  | inl known ↦ (false, rw known, λ f. absurd (ground arith))
  | inr new ↦ elim (Bool-cases (leb bucket_size (length b.peers))) [
    | inr room ↦ (false, rw (new, room), λ f. absurd (ground arith))
    | inl full ↦ elim (Bool-cases (equals b.range.start zeros)) [
      | inl own ↦ (true, rw (new, full, own), λ _. ground arith)
      | inr other ↦
          let some_there = all_contacts-length before b after in
          let some_here : 0 < length (all_contacts rt.buckets) =
            rw e (ground (arith, some_there)) in
          let (k, found) = last_contact-ok _ (get_closest-nonempty rt rt.id some_here) in
          (closer rt.id c.id k.id, rw (new, full, other, found), λ _. ground arith)
    ]
  ]
]

module _ (now : ℕ) (rt : RoutingTable) (c : Contact) (good : IsBitmap c.id) where
  abbrev pub Result : RoutingTable → Type 0
  Result rt' = Stored now rt c rt' × IsTable rt'

  module _ (before : List Bucket) (b : Bucket) (after : List Bucket)
      (here : Covering (xor rt.id c.id) rt.buckets before b after)
      (splits : should_split rt b c ≡ ok true) (l r : Bucket) (t : Parted rt.id b l r)
      (h : Holds rt (before ++ l ∷ r ∷ after))
      (one : contains r.range (xor rt.id c.id) ≡ not (contains l.range (xor rt.id c.id))) where
    misses :
        (rt' : RoutingTable)
        → contains l.range c.id ≢ contains l.range (xor rt.id c.id)
        → rt' ≡ with_buckets rt (before ++ l ∷ r ∷ after)
        → Result rt'
    misses rt' ne e = (misplaced here splits t ne e, subst IsTable (sym e) (Holds-IsTable h))

    pub goes_left :
        contains l.range c.id ≡ true
        → Result (update_at now (with_buckets rt (before ++ l ∷ r ∷ after)) c true (length before))
    goes_left chosen = elim (Bool-cases (contains l.range (xor rt.id c.id))) [
      | inl inside ↦
          let (l', e, u, h') =
            update_at-Updated now rt c good true _ before l (r ∷ after) (length before) refl refl h
              inside in
          (in_left here splits t chosen inside u e, subst IsTable (sym e) (Holds-IsTable h'))
      | inr outside ↦
          misses _ (λ e. true≢false (sym chosen ∙ e ∙ outside))
            (update_at_elsewhere now rt c good true _ before l (r ∷ after) (length before) refl refl
              h outside)
    ]
      where
        true≢false : true ≡ false → ⊥
        true≢false e = cc

    pub goes_right :
        contains l.range c.id ≡ false
        → Result
            (update_at now (with_buckets rt (before ++ l ∷ r ∷ after)) c true (length before + 1))
    goes_right chosen = elim (Bool-cases (contains l.range (xor rt.id c.id))) [
      | inr outside ↦
          let (r', e, u, h') =
            update_at-Updated now rt c good true _ (before ++ l ∷ []) r after (length before + 1)
              (sym shape) place (subst (Holds rt) (sym shape) h) (one ∙ ap not outside) in
          let shape' = append_assoc before (l ∷ []) (r' ∷ after) in
          let e' = e ∙ ap (with_buckets rt) shape' in
          (
            in_right here splits t chosen (one ∙ ap not outside) u e',
            subst IsTable (sym e) (Holds-IsTable h'),
          )
      | inl inside ↦
          misses _ (λ e. true≢false (sym inside ∙ sym e ∙ chosen))
            (update_at_elsewhere now rt c good true _ (before ++ l ∷ []) r after (length before + 1)
                (sym shape) place (subst (Holds rt) (sym shape) h) (one ∙ ap not inside)
              ∙ ap (with_buckets rt) shape)
    ]
      where
        true≢false : true ≡ false → ⊥
        true≢false e = cc

        shape : (before ++ l ∷ []) ++ r ∷ after ≡ before ++ l ∷ r ∷ after
        shape = append_assoc before (l ∷ []) (r ∷ after)

        place : length before + 1 ≡ length (before ++ l ∷ [])
        place = omega (arith, length-append before (l ∷ []))
