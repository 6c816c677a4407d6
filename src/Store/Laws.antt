-- ===== src/Store/Laws.antt =====
-- dht/store.go: the identifiers of the store and their contacts.
use lbry_go.Prelude.{
  ◌≡◌, ◌≢◌, ◌⊎◌, refl, ap, sym, ◌∙◌, Bool, true, false, ◌&&◌, ◌||◌, List, [], ◌∷◌, map, Option,
  some, Bool-cases, inl, inr, arith, ok,
}
use mathlib.Core.List.{append-nil}
use lbry_go.Bitmap.{Bitmap}
use lbry_go.Contact.{Contact}
use lbry_go.OrderedMap.{key_eq, assign}
use lbry_go.OrderedMap.Places.{elem, elem-middle, key_eq_iff}
use lbry_go.Store.{
  new_store, Entry, ContactStore, mark, mark_hash, upsert, ids_of, collect, announced,
}

-- The contact of an identifier, where it is known, has that identifier.
abbrev pub Named : (Bitmap → Option Contact) → Bitmap → Type 0
Named contacts id = (c : Contact) × (contacts id ≡ some c) × (c.id ≡ id)

-- Every identifier under a hash has its contact.
pub record IsStore (s : ContactStore) : Type 0 where
  pub complete :
      (blob_hash id : Bitmap) → elem id (ids_of blob_hash s.hashes) ≡ true → Named s.contacts id

collect_all :
    (contacts : Bitmap → Option Contact) (ids : List Bitmap)
    → ((id : Bitmap) → elem id ids ≡ true → Named contacts id)
    → (l : List Contact) × (collect contacts ids ≡ ok l) × (map (λ (c : Contact). c.id) l ≡ ids)
unfolding collect elem
collect_all contacts [] h = ([], refl, refl)
collect_all contacts (id ∷ ids) h =
    let (c, e, same) = h id (ap (λ t. t || elem id ids) ((key_eq_iff id id).1 refl)) in
    let (l, f, named) = collect_all contacts ids (λ j there. h j (ground (arith, there))) in
    (
      c ∷ l,
      rw (collect, e, f),
      ap (λ z. z ∷ map (λ (d : Contact). d.id) l) same ∙ ap (◌∷◌ id) named,
    )

elem-mark : (j id : Bitmap) (ids : List Bitmap) → elem j (mark id ids) ≡ (elem j ids || key_eq j id)
unfolding mark
elem-mark j id ids = elim (Bool-cases (elem id ids)) [
  | inr fresh ↦ rw fresh (elem-middle j id ids [] ∙ ground (arith, append-nil ids))
  | inl known ↦ rw known (elim (Bool-cases (key_eq j id)) [
    | inl same ↦
        let there : elem j ids ≡ true = ap (λ z. elem z ids) ((key_eq_iff j id).0 same) ∙ known in
        ground (arith, there, same)
    | inr other ↦ ground (arith, other)
  ])
]

-- Upsert adds the contact's identifier under the hash, and no other identifier under any hash.
elem-mark_hash :
    (blob_hash id : Bitmap) (hashes : List Entry) (k j : Bitmap)
    → elem j (ids_of k (mark_hash blob_hash id hashes))
      ≡ (elem j (ids_of k hashes) || (key_eq blob_hash k && key_eq j id))
unfolding mark_hash ids_of elem
elem-mark_hash blob_hash id [] k j = elim (Bool-cases (key_eq blob_hash k)) [
  | inl same ↦ rw same (elem-mark j id [])
  | inr other ↦ rw other refl
]
elem-mark_hash blob_hash id ((h, ids) ∷ hashes) k j = elim (Bool-cases (key_eq h blob_hash)) [
  | inl same ↦
      let alike : key_eq blob_hash k ≡ key_eq h k =
        ap (λ z. key_eq z k) (sym ((key_eq_iff h blob_hash).0 same)) in
      elim (Bool-cases (key_eq h k)) [
        | inl here ↦ rw (same, here, alike ∙ here) (elem-mark j id ids)
        | inr away ↦ rw (same, away, alike ∙ away) (or_false (elem j (ids_of k hashes)))
      ]
  | inr other ↦ elim (Bool-cases (key_eq h k)) [
    | inl here ↦
        rw (other, here, apart here other (Bool-cases (key_eq blob_hash k))) (or_false (elem j ids))
    | inr away ↦ rw (other, away) (elem-mark_hash blob_hash id hashes k j)
  ]
]
  where
    or_false : (t : Bool) → t ≡ (t || false)
    or_false true = refl
    or_false false = refl

    clash : true ≢ false
    clash e = cc

    apart :
        key_eq h k ≡ true
        → key_eq h blob_hash ≡ false
        → ((key_eq blob_hash k ≡ true) ⊎ (key_eq blob_hash k ≡ false))
        → key_eq blob_hash k ≡ false
    apart here other (inl same) =
        absurd (clash (sym here ∙ ap (key_eq h) (sym ((key_eq_iff blob_hash k).0 same)) ∙ other))
    apart here other (inr differs) = differs

-- The store that Upsert leaves is complete again, and under every hash stand the identifiers that
-- stood there, with that of the contact added under the given hash.
pub upsert-IsStore :
    (s : ContactStore) (blob_hash : Bitmap) (contact : Contact)
    → IsStore s
    → IsStore (upsert s blob_hash contact)
      × ((k j : Bitmap)
          → elem j (ids_of k (upsert s blob_hash contact).hashes)
            ≡ (elem j (ids_of k s.hashes) || (key_eq blob_hash k && key_eq j contact.id)))
unfolding upsert assign
upsert-IsStore s blob_hash contact h = (
  record {
    complete =
        λ k j there. named k j (sym (elem-mark_hash blob_hash contact.id s.hashes k j) ∙ there);
  },
  elem-mark_hash blob_hash contact.id s.hashes,
)
  where
    named :
        (k j : Bitmap)
        → (elem j (ids_of k s.hashes) || (key_eq blob_hash k && key_eq j contact.id)) ≡ true
        → Named (assign s.contacts contact.id contact) j
    named k j there = elim (Bool-cases (key_eq j contact.id)) [
      | inl same ↦ (contact, rw same, sym ((key_eq_iff j contact.id).0 same))
      | inr other ↦
          let old : elem j (ids_of k s.hashes) ≡ true = ground (arith, there, other) in
          let (c, e, id) = h.complete k j old in (c, rw other e, id)
    ]

-- Get, of a complete store, does not panic, and returns one contact for each identifier under the
-- hash.
pub announced-map :
    (s : ContactStore) (blob_hash : Bitmap)
    → IsStore s
    → (l : List Contact) × (announced s blob_hash ≡ ok l)
      × (map (λ (c : Contact). c.id) l ≡ ids_of blob_hash s.hashes)
unfolding announced
announced-map s blob_hash h =
    collect_all s.contacts (ids_of blob_hash s.hashes) (h.complete blob_hash)

pub new_store-IsStore : IsStore new_store
unfolding new_store ids_of elem
new_store-IsStore = record { complete = λ k j there. cc }
