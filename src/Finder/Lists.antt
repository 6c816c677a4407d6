-- ===== src/Finder/Lists.antt =====
-- dht/node_finder.go: the shortlist, the list of active contacts and the closest contact.
use lbry_go.Prelude.{
  ℕ, ◌+◌, ◌≤◌, ◌<◌, ◌≡◌, refl, ap, sym, ◌∙◌, Bool, true, false, ◌||◌, List, [], ◌∷◌, ◌++◌, All,
  All-imp, All-append, ltb, if◌then◌else◌, Bool-cases, inl, inr, arith,
}
use mathlib.Core.Path.{subst}
use lbry_go.Bitmap.{Bitmap, IsBitmap, closer}
use lbry_go.Bitmap.Value.{b2n}
use lbry_go.Bitmap.Distance.{closer-distance}
use lbry_go.Contact.{Contact, insert, nearer, sort_by_distance}
use lbry_go.Contact.Sorting.{away, HasId, Ascending}
use lbry_go.OrderedMap.{key_eq}
use lbry_go.OrderedMap.Places.{elem, key_eq_iff}
use lbry_go.Finder.{append_loop, insert_loop, closest_loop}

-- How often an identifier stands in a list of contacts.
unfoldable pub occurs : Bitmap → List Contact → ℕ
occurs k [] = 0
occurs k (c ∷ l) = b2n (key_eq k c.id) + occurs k l

pub occurs-append : (k : Bitmap) (a b : List Contact) → occurs k (a ++ b) ≡ occurs k a + occurs k b
unfolding occurs
occurs-append k [] b = omega arith
occurs-append k (c ∷ a) b = omega (arith, occurs-append k a b)

occurs-insert :
    (k target : Bitmap) (c : Contact) (l : List Contact)
    → occurs k (insert target c l) ≡ b2n (key_eq k c.id) + occurs k l
unfolding occurs insert
occurs-insert k target c [] = refl
occurs-insert k target c (d ∷ l) = elim (Bool-cases (nearer target d c)) [
  | inl before ↦ rw before (omega (arith, occurs-insert k target c l))
  | inr after ↦ rw after refl
]

pub occurs-sort_by_distance :
    (k target : Bitmap) (l : List Contact) → occurs k (sort_by_distance l target) ≡ occurs k l
unfolding occurs sort_by_distance
occurs-sort_by_distance k target [] = refl
occurs-sort_by_distance k target (c ∷ l) =
    occurs-insert k target c (sort_by_distance l target)
    ∙ ap (λ m. b2n (key_eq k c.id) + m) (occurs-sort_by_distance k target l)

pub occurs-insert_loop :
    (k target : Bitmap) (c : Contact) (l : List Contact)
    → occurs k (insert_loop target c l) ≡ b2n (key_eq k c.id) + occurs k l
unfolding occurs insert_loop
occurs-insert_loop k target c [] = refl
occurs-insert_loop k target c (d ∷ l) = elim (Bool-cases (closer target c.id d.id)) [
  | inl before ↦ rw before refl
  | inr after ↦ rw after (omega (arith, occurs-insert_loop k target c l))
]

elem-cons : (k c : Bitmap) (l : List Bitmap) → elem k (c ∷ l) ≡ (key_eq k c || elem k l)
unfolding elem
elem-cons k c l = refl

-- A new contact, and its key.
append_one_lem :
    (k : Bitmap) (spent : ℕ) (c : Contact) (shortlist : List Contact) (added : List Bitmap)
    → spent + occurs k shortlist ≤ b2n (elem k added)
    → elem c.id added ≡ false
    → spent + occurs k (shortlist ++ c ∷ []) ≤ b2n (elem k (c.id ∷ added))
unfolding occurs
append_one_lem k spent c shortlist added h new = elim (Bool-cases (key_eq k c.id)) [
  | inl same ↦
      let fresh : elem k added ≡ false =
        ap (λ z. elem z added) ((key_eq_iff k c.id).0 same) ∙ new in
      ground (arith, occurs-append k shortlist (c ∷ []), elem-cons k c.id added)
  | inr other ↦ ground (arith, occurs-append k shortlist (c ∷ []), elem-cons k c.id added)
]

-- The keys bound how often an identifier stands in the shortlist, together with `spent`.
pub append_loop_lem :
    (k : Bitmap) (spent : ℕ) (contacts shortlist : List Contact) (added : List Bitmap)
    → spent + occurs k shortlist ≤ b2n (elem k added)
    → spent + occurs k (append_loop contacts shortlist added).0
      ≤ b2n (elem k (append_loop contacts shortlist added).1)
unfolding append_loop
append_loop_lem k spent [] shortlist added h = h
append_loop_lem k spent (c ∷ contacts) shortlist added h = elim (Bool-cases (elem c.id added)) [
  | inl known ↦ rw known (append_loop_lem k spent contacts shortlist added h)
  | inr new ↦ rw new (
      append_loop_lem k spent contacts (shortlist ++ c ∷ []) (c.id ∷ added)
        (append_one_lem k spent c shortlist added h new))
]

-- The keys of the contacts are added, and a contact whose key is new stands in the shortlist once more.
pub append_loop-occurs :
    (k : Bitmap) (contacts shortlist : List Contact) (added : List Bitmap)
    → (elem k (append_loop contacts shortlist added).1
        ≡ (elem k added || ltb 0 (occurs k contacts)))
      × (occurs k (append_loop contacts shortlist added).0
          ≡ occurs k shortlist + (if elem k added then 0 else b2n (ltb 0 (occurs k contacts))))
unfolding append_loop occurs
append_loop-occurs k [] shortlist added = (ground arith, ground arith)
append_loop-occurs k (c ∷ contacts) shortlist added = elim (Bool-cases (elem c.id added)) [
  | inl known ↦
      let (keys, places) = append_loop-occurs k contacts shortlist added in
      elim (Bool-cases (key_eq k c.id)) [
        | inl same ↦
            let old : elem k added ≡ true =
              ap (λ z. elem z added) ((key_eq_iff k c.id).0 same) ∙ known in
            rw known (ground (arith, keys, places, old), ground (arith, keys, places, old))
        | inr other ↦
            rw known (ground (arith, keys, places, other), ground (arith, keys, places, other))
      ]
  | inr new ↦
      let (keys, places) = append_loop-occurs k contacts (shortlist ++ c ∷ []) (c.id ∷ added) in
      let one = occurs-append k shortlist (c ∷ []) in
      let cons = elem-cons k c.id added in
      elim (Bool-cases (key_eq k c.id)) [
        | inl same ↦
            let fresh : elem k added ≡ false =
              ap (λ z. elem z added) ((key_eq_iff k c.id).0 same) ∙ new in
            rw new (
              ground (arith, keys, cons, fresh, same),
              ground (arith, places, one, cons, fresh, same),
            )
        | inr other ↦
            rw new (ground (arith, keys, cons, other), ground (arith, places, one, cons, other))
      ]
]

pub append_loop-All :
    (P : Contact → Type 0) (contacts shortlist : List Contact) (added : List Bitmap)
    → All P contacts
    → All P shortlist
    → All P (append_loop contacts shortlist added).0
unfolding append_loop
append_loop-All P [] shortlist added ps qs = qs
append_loop-All P (c ∷ contacts) shortlist added ps qs = elim (Bool-cases (elem c.id added)) [
  | inl known ↦ rw known (append_loop-All P contacts shortlist added ps.1 qs)
  | inr new ↦ rw new (
      append_loop-All P contacts (shortlist ++ c ∷ []) (c.id ∷ added) ps.1
        (All-append P shortlist (c ∷ []) qs (ps.0, tt)))
]

module _ (target : Bitmap) (h : IsBitmap target) where
  pub insert_loop-All :
      (P : Contact → Type 0) (c : Contact) (l : List Contact)
      → P c
      → All P l
      → All P (insert_loop target c l)
  unfolding insert_loop
  insert_loop-All P c [] p ps = (p, tt)
  insert_loop-All P c (d ∷ l) p ps = elim (Bool-cases (closer target c.id d.id)) [
    | inl before ↦ rw before (p, ps)
    | inr after ↦ rw after (ps.0, insert_loop-All P c l p ps.1)
  ]

  pub insert_loop-Ascending :
      (c : Contact) (l : List Contact)
      → HasId c
      → All HasId l
      → Ascending target l
      → Ascending target (insert_loop target c l)
  unfolding insert_loop
  insert_loop-Ascending c [] hc hl s = (tt, tt)
  insert_loop-Ascending c (d ∷ l) hc hl s =
      let test = closer-distance target c.id d.id h hc hl.0 in
      elim (Bool-cases (closer target c.id d.id)) [
        | inl before ↦
            let le : ltb (away target c) (away target d) ≡ true = sym test ∙ before in
            rw before (
              (
                ground arith,
                All-imp (λ e. away target d ≤ away target e) (λ e. away target c ≤ away target e) l
                    (λ e q. ground arith) s.0,
              ),
              s,
            )
        | inr after ↦
            let le : ltb (away target c) (away target d) ≡ false = sym test ∙ after in
            rw after (
              insert_loop-All (λ e. away target d ≤ away target e) c l (ground arith) s.0,
              insert_loop-Ascending c l hc hl.1 s.1,
            )
      ]

  chosen :
      (best c : Contact) (l : List Contact) (b : Bool)
      → closer target c.id best.id ≡ b
      → closest_loop target best (c ∷ l) ≡ closest_loop target (if b then c else best) l
  unfolding closest_loop
  chosen best c l b e = ap (λ t. closest_loop target (if t then c else best) l) e

  -- It has an identifier, and is as near as `best` and as every contact of the list.
  abbrev pub Nearest : Contact → Contact → List Contact → Type 0
  Nearest r best l =
      HasId r × (away target r ≤ away target best) × All (λ d. away target r ≤ away target d) l

  pub closest_loop_lem :
      (best : Contact) (l : List Contact)
      → HasId best
      → All HasId l
      → Nearest (closest_loop target best l) best l
  unfolding closest_loop
  closest_loop_lem best [] hb hl = (hb, omega arith, tt)
  closest_loop_lem best (c ∷ l) hb hl =
      let test = closer-distance target c.id best.id h hl.0 hb in
      elim (Bool-cases (closer target c.id best.id)) [
        | inl yes_nearer ↦
            let lt : ltb (away target c) (away target best) ≡ true = sym test ∙ yes_nearer in
            let (id, le, all) = closest_loop_lem c l hl.0 hl.1 in
            subst (λ r. Nearest r best (c ∷ l)) (sym (chosen best c l true yes_nearer))
              (id, ground arith, (le, all))
        | inr farther ↦
            let ge : ltb (away target c) (away target best) ≡ false = sym test ∙ farther in
            let (id, le, all) = closest_loop_lem best l hb hl.1 in
            subst (λ r. Nearest r best (c ∷ l)) (sym (chosen best c l false farther))
              (id, le, (ground arith, all))
      ]

pub occurs-head : (c : Contact) (l : List Contact) → 0 < occurs c.id (c ∷ l)
unfolding occurs
occurs-head c l = ground (arith, (key_eq_iff c.id c.id).1 refl)

-- The loop gives `best` or a contact of the list.
pub closest_loop-occurs :
    (target : Bitmap) (best : Contact) (l all : List Contact)
    → 0 < occurs best.id all
    → ((k : Bitmap) → 0 < occurs k l → 0 < occurs k all)
    → 0 < occurs (closest_loop target best l).id all
unfolding closest_loop occurs
closest_loop-occurs target best [] all h sub = h
closest_loop-occurs target best (c ∷ l) all h sub =
    closest_loop-occurs target (if closer target c.id best.id then c else best) l all
      (chosen_in (closer target c.id best.id)) (λ k n. sub k (later k n))
  where
    later : (k : Bitmap) → 0 < occurs k l → 0 < occurs k (c ∷ l)
    later k n = omega (arith, n)

    chosen_in : (b : Bool) → 0 < occurs (if b then c else best).id all
    chosen_in true = sub c.id (occurs-head c l)
    chosen_in false = h
