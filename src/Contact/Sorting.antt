-- ===== src/Contact/Sorting.antt =====
-- dht/contact.go, sortByDistance: the contacts and the order of the result.
use mathlib.Core.List.Perm
use mathlib.Core.List.{Perm}
use lbry_go.Prelude.{
  ℕ, suc, ◌≤◌, ◌≡◌, refl, ap, sym, ◌∙◌, true, false, List, [], ◌∷◌, length, All, All-imp, ltb,
  arith, Bool-cases, inl, inr,
}
use lbry_go.Bitmap.{Bitmap, IsBitmap, xor}
use lbry_go.Bitmap.Order.{is_less-cmp}
use lbry_go.Bitmap.Distance.{distance, xor-IsBitmap}
use lbry_go.Contact.{Contact, nearer, insert, sort_by_distance}

abbrev pub away : Bitmap → Contact → ℕ
away target c = distance c.id target

abbrev pub HasId : Contact → Type 0
HasId c = IsBitmap c.id

-- In ascending order of the distance to `target`.
abbrev pub Ascending : Bitmap → List Contact → Type 0
Ascending target [] = Unit
Ascending target (c ∷ l) = All (λ d. away target c ≤ away target d) l × Ascending target l

pub nearer-away :
    (target : Bitmap) (c d : Contact)
    → IsBitmap target
    → HasId c
    → HasId d
    → nearer target c d ≡ ltb (away target c) (away target d)
unfolding nearer
nearer-away target c d h hc hd =
    is_less-cmp (xor c.id target) (xor d.id target) (xor-IsBitmap c.id target hc h)
      (xor-IsBitmap d.id target hd h)

insert-All :
    (P : Contact → Type 0) (target : Bitmap) (c : Contact) (l : List Contact)
    → P c
    → All P l
    → All P (insert target c l)
unfolding insert
insert-All P target c [] p ps = (p, tt)
insert-All P target c (d ∷ l) p ps = elim (Bool-cases (nearer target d c)) [
  | inl before ↦ rw before (ps.0, insert-All P target c l p ps.1)
  | inr after ↦ rw after (p, ps)
]

insert-Ascending :
    (target : Bitmap) (c : Contact) (l : List Contact)
    → IsBitmap target
    → HasId c
    → All HasId l
    → Ascending target l
    → Ascending target (insert target c l)
unfolding insert
insert-Ascending target c [] h hc hl s = (tt, tt)
insert-Ascending target c (d ∷ l) h hc hl s = elim (Bool-cases (nearer target d c)) [
  | inl before ↦
      let le : ltb (away target d) (away target c) ≡ true =
        sym (nearer-away target d c h hl.0 hc) ∙ before in
      rw before (
        insert-All (λ e. away target d ≤ away target e) target c l (ground arith) s.0,
        insert-Ascending target c l h hc hl.1 s.1,
      )
  | inr after ↦
      let le : ltb (away target d) (away target c) ≡ false =
        sym (nearer-away target d c h hl.0 hc) ∙ after in
      rw after (
        (
          ground arith,
          All-imp (λ e. away target d ≤ away target e) (λ e. away target c ≤ away target e) l
              (λ e q. ground arith) s.0,
        ),
        s,
      )
]

insert-perm : (target : Bitmap) (c : Contact) (l : List Contact) → Perm (insert target c l) (c ∷ l)
unfolding insert
insert-perm target c [] = Perm.refl _
insert-perm target c (d ∷ l) = elim (Bool-cases (nearer target d c)) [
  | inl before ↦ rw before (Perm.trans (Perm.cons d (insert-perm target c l)) (Perm.swap c d l))
  | inr after ↦ rw after (Perm.refl _)
]

pub sort_by_distance-perm :
    (contacts : List Contact) (target : Bitmap) → Perm (sort_by_distance contacts target) contacts
unfolding sort_by_distance
sort_by_distance-perm [] target = Perm.nil
sort_by_distance-perm (c ∷ contacts) target =
    Perm.trans (insert-perm target c _) (Perm.cons c (sort_by_distance-perm contacts target))

pub sort_by_distance-All :
    (P : Contact → Type 0) (contacts : List Contact) (target : Bitmap)
    → All P contacts
    → All P (sort_by_distance contacts target)
unfolding sort_by_distance
sort_by_distance-All P [] target ps = tt
sort_by_distance-All P (c ∷ contacts) target ps =
    insert-All P target c _ ps.0 (sort_by_distance-All P contacts target ps.1)

pub sort_by_distance-Ascending :
    (contacts : List Contact) (target : Bitmap)
    → IsBitmap target
    → All HasId contacts
    → Ascending target (sort_by_distance contacts target)
unfolding sort_by_distance
sort_by_distance-Ascending [] target h ps = tt
sort_by_distance-Ascending (c ∷ contacts) target h ps =
    insert-Ascending target c _ h ps.0 (sort_by_distance-All HasId contacts target ps.1)
      (sort_by_distance-Ascending contacts target h ps.1)

length-insert :
    (target : Bitmap) (c : Contact) (l : List Contact) → length (insert target c l) ≡ suc (length l)
unfolding insert
length-insert target c [] = refl
length-insert target c (d ∷ l) = ground (arith, length-insert target c l)

pub length-sort_by_distance :
    (contacts : List Contact) (target : Bitmap)
    → length (sort_by_distance contacts target) ≡ length contacts
unfolding sort_by_distance
length-sort_by_distance [] target = refl
length-sort_by_distance (c ∷ contacts) target =
    length-insert target c _ ∙ ap suc (length-sort_by_distance contacts target)
