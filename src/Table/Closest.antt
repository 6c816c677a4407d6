-- ===== src/Table/Closest.antt =====
-- dht/routing_table.go, GetClosest and newRoutingTable.
use mathlib.Core.List.{Perm}
use mathlib.Core.Path.{subst}
use lbry_go.Prelude.{
  ℕ, zero, suc, ◌+◌, ◌≤◌, ◌≡◌, refl, ap, sym, ◌∙◌, min, List, [], ◌∷◌, ◌++◌, length, take, drop,
  map, All, All-append, All-split, take-append-drop, length-take, ltb, arith, Bool-cases, inl, inr,
  ok, replicate,
}
use lbry_go.Bitmap.{Bitmap, IsBitmap, zeros, num_bytes}
use lbry_go.Bitmap.Value.{value}
use lbry_go.Bitmap.Sum.{modulus}
use lbry_go.Bitmap.Hex.{max_p, from_hex_p, from_hex, decode, from_hex_char, from_bytes}
use lbry_go.Range.{Range, max_range}
use lbry_go.Contact.{Contact, sort_by_distance}
use lbry_go.Contact.Sorting.{
  Ascending, HasId, away, sort_by_distance-perm, sort_by_distance-Ascending, sort_by_distance-All,
  length-sort_by_distance,
}
use lbry_go.Bucket.{Peer, Bucket, IsBucket, IsPeer, contacts, new_bucket}
use lbry_go.Table.{RoutingTable, IsTable, all_contacts, get_closest, reset, new_routing_table}

Ascending-append :
    (target : Bitmap) (l m : List Contact)
    → Ascending target (l ++ m)
    → Ascending target l × All (λ c. All (λ d. away target c ≤ away target d) m) l
Ascending-append target [] m s = (tt, tt)
Ascending-append target (c ∷ l) m s =
    let (near, far) = All-split (λ d. away target c ≤ away target d) l m s.0 in
    let (rest, others) = Ascending-append target l m s.1 in ((near, rest), (far, others))

take-all {ℓ} : {A : Type ℓ} (n : ℕ) (l : List A) → length l ≤ n → (take n l ≡ l) × (drop n l ≡ [])
take-all zero [] h = (refl, refl)
take-all zero (x ∷ l) h = absurd (omega arith)
take-all (suc n) [] h = (refl, refl)
take-all (suc n) (x ∷ l) h = let (p, q) = take-all n l (omega arith) in (ap (◌∷◌ x) p, q)

get_closest-take :
    (rt : RoutingTable) (target : Bitmap) (limit : ℕ)
    → get_closest rt target limit ≡ take limit (sort_by_distance (all_contacts rt.buckets) target)
unfolding get_closest
get_closest-take rt target limit =
    let sorted = sort_by_distance (all_contacts rt.buckets) target in
    elim (Bool-cases (ltb limit (length sorted))) [
      | inl longer ↦ rw longer
      | inr fits ↦ rw fits (sym (take-all limit sorted (ground arith)).0)
    ]

all_contacts-HasId :
    (self : Bitmap) (buckets : List Bucket)
    → All (IsBucket self) buckets
    → All HasId (all_contacts buckets)
unfolding all_contacts contacts
all_contacts-HasId self [] h = tt
all_contacts-HasId self (b ∷ buckets) h =
    All-append HasId (map (λ p. p.contact) b.peers) _ (peers_ids b.peers h.0.peers_good)
      (all_contacts-HasId self buckets h.1)
  where
    peers_ids :
        (l : List Peer) → All (IsPeer self b.range) l → All HasId (map (λ (p : Peer). p.contact) l)
    peers_ids [] g = tt
    peers_ids (p ∷ l) g = (g.0.id_good, peers_ids l g.1)

take-All : (n : ℕ) (l : List Contact) → All HasId l → All HasId (take n l)
take-All zero l ps = tt
take-All (suc n) [] ps = tt
take-All (suc n) (x ∷ l) ps = (ps.0, take-All n l ps.1)

pub get_closest-HasId :
    (rt : RoutingTable) (target : Bitmap) (limit : ℕ)
    → IsTable rt
    → All HasId (get_closest rt target limit)
get_closest-HasId rt target limit h = rw (get_closest-take rt target limit) (
    take-All limit (sort_by_distance (all_contacts rt.buckets) target) (
      sort_by_distance-All HasId (all_contacts rt.buckets) target
        (all_contacts-HasId rt.id rt.buckets h.buckets_good)))

-- The contacts returned, with those left out, are all the contacts of the table; they are in the
-- order of their distance; none that is left out is nearer than any of them; and there are `limit` of
-- them, or all if there are fewer.
pub record Nearest (rt : RoutingTable) (target : Bitmap) (limit : ℕ) (l others : List Contact)
    : Type 0 where
  pub complete : Perm (l ++ others) (all_contacts rt.buckets)
  pub ascending : Ascending target l
  pub nearest : All (λ c. All (λ d. away target c ≤ away target d) others) l
  pub size : length l ≡ min limit (length (all_contacts rt.buckets))

-- GetClosest, for a bitmap, returns the `limit` contacts of a valid table that are nearest to the
-- target, nearest first.
pub get_closest-Nearest :
    (rt : RoutingTable) (target : Bitmap) (limit : ℕ)
    → IsTable rt
    → IsBitmap target
    → (others : List Contact) × Nearest rt target limit (get_closest rt target limit) others
get_closest-Nearest rt target limit h good =
    let contacts_in = all_contacts rt.buckets in
    let sorted = sort_by_distance contacts_in target in
    let whole = take-append-drop limit sorted in
    let ascending =
      sort_by_distance-Ascending contacts_in target good
        (all_contacts-HasId rt.id rt.buckets h.buckets_good) in
    let (near, far) =
      Ascending-append target (take limit sorted) (drop limit sorted)
        (subst (Ascending target) (sym whole) ascending) in
    (
      drop limit sorted,
      rw (get_closest-take rt target limit) (record {
        complete =
            subst (λ l. Perm l contacts_in) (sym whole) (sort_by_distance-perm contacts_in target);
        ascending = near;
        nearest = far;
        size =
            length-take limit sorted ∙ ap (min limit) (length-sort_by_distance contacts_in target);
      }),
    )

abbrev largest : Bitmap
largest = replicate num_bytes 255

max_p-largest : max_p ≡ ok largest
unfolding max_p from_hex_p from_hex decode from_hex_char from_bytes
max_p-largest = refl

largest_lem : IsBitmap largest × (value largest + 1 ≡ modulus)
unfolding value
largest_lem = ((refl, omega arith), refl)

zeros_lem : IsBitmap zeros × (value zeros ≡ 0)
unfolding value
zeros_lem = ((refl, omega arith), refl)

-- A new table of a bitmap is valid and has no contacts.
pub new_routing_table-IsTable :
    (id : Bitmap)
    → IsBitmap id
    → (rt : RoutingTable) × (new_routing_table id ≡ ok rt)
      × IsTable rt
      × (rt.id ≡ id)
      × (all_contacts rt.buckets ≡ [])
unfolding new_routing_table reset max_range new_bucket all_contacts contacts
new_routing_table-IsTable id h =
    let whole : Range = record { start = zeros; end = largest } in
    (
      record { id = id; buckets = record { peers = []; last_update = 0; range = whole } ∷ [] },
      rw max_p-largest,
      record {
        id_good = h;
        buckets_good = (
          record {
            range_good = record {
              start_good = zeros_lem.0;
              end_good = largest_lem.0;
              ordered = omega (arith, zeros_lem.1);
            };
            peers_good = tt;
            distinct = tt;
            bounded = omega arith;
          },
          tt,
        );
        covers = (zeros_lem.1, largest_lem.1);
      },
      refl,
      refl,
    )
