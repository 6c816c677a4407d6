-- ===== src/OrderedMap/Places.antt =====
-- extras/orderedmap/ordered_map.go: lists of distinct keys, and how one is put in or cut out.
use mathlib.Core.Path.{subst}
use lbry_go.Prelude.{
  ◌≡◌, ◌↔◌, refl, ap, sym, ◌∙◌, Bool, true, false, not, ◌&&◌, ◌||◌, List, [], ◌∷◌, ◌++◌, arith,
  Bool-cases, inl, inr,
}
use lbry_go.OrderedMap.{Key, key_eq, cut_key}

pub key_eq_iff : (a b : Key) → (key_eq a b ≡ true) ↔ (a ≡ b)
unfolding key_eq
key_eq_iff a b = (sound a b, λ e. subst (λ c. key_eq a c ≡ true) e (same a))
  where
    same : (a : Key) → key_eq a a ≡ true
    same [] = refl
    same (x ∷ a) = rw (same a) (ground arith)

    sound : (a b : Key) → key_eq a b ≡ true → a ≡ b
    sound [] [] e = refl
    sound [] (y ∷ b) e = cc
    sound (x ∷ a) [] e = cc
    sound (x ∷ a) (y ∷ b) e = ground (arith, sound a b)

pub key_eq_self : (a : Key) → key_eq a a ≡ true
key_eq_self a = (key_eq_iff a a).1 refl

pub key_eq_comm : (a b : Key) → key_eq a b ≡ key_eq b a
unfolding key_eq
key_eq_comm [] [] = refl
key_eq_comm [] (y ∷ b) = refl
key_eq_comm (x ∷ a) [] = refl
key_eq_comm (x ∷ a) (y ∷ b) = ground (arith, key_eq_comm a b)

unfoldable pub elem : Key → List Key → Bool
elem k [] = false
elem k (x ∷ l) = key_eq k x || elem k l

abbrev pub NoDup : List Key → Type 0
NoDup [] = Unit
NoDup (x ∷ l) = (elem x l ≡ false) × NoDup l

pub elem-middle :
    (k x : Key) (before after : List Key)
    → elem k (before ++ x ∷ after) ≡ (key_eq k x || elem k (before ++ after))
unfolding elem
elem-middle k x [] after = refl
elem-middle k x (y ∷ before) after = ground (arith, elem-middle k x before after)

pub NoDup-middle :
    (x : Key) (before after : List Key)
    → elem x (before ++ after) ≡ false
    → NoDup (before ++ after)
    → NoDup (before ++ x ∷ after)
unfolding elem
NoDup-middle x [] after out d = (out, d)
NoDup-middle x (y ∷ before) after out (fresh, d) = (
  elem-middle y x before after ∙ ground (arith, key_eq_comm x y),
  NoDup-middle x before after (ground arith) d,
)

pub elem-cut_key :
    (k x : Key) (l : List Key) → NoDup l → elem k (cut_key x l) ≡ (not (key_eq k x) && elem k l)
unfolding elem cut_key
elem-cut_key k x [] d = ground arith
elem-cut_key k x (y ∷ l) (fresh, d) = elim (Bool-cases (key_eq y x)) [
  | inl same ↦
      let e = (key_eq_iff y x).0 same in
      let gone : elem x l ≡ false = ap (λ z. elem z l) (sym e) ∙ fresh in
      let alike : key_eq k y ≡ key_eq k x = ap (key_eq k) e in rw same (hit gone alike)
  | inr other ↦ rw other (pass (elem-cut_key k x l d) other)
]
  where
    hit :
        elem x l ≡ false
        → key_eq k y ≡ key_eq k x
        → elem k l ≡ (not (key_eq k x) && (key_eq k y || elem k l))
    hit gone alike = elim (Bool-cases (key_eq k x)) [
      | inl there ↦
          let out : elem k l ≡ false = ap (λ z. elem z l) ((key_eq_iff k x).0 there) ∙ gone in
          ground (arith, out, there)
      | inr away ↦ ground (arith, alike, away)
    ]

    pass :
        elem k (cut_key x l) ≡ (not (key_eq k x) && elem k l)
        → key_eq y x ≡ false
        → (key_eq k y || elem k (cut_key x l)) ≡ (not (key_eq k x) && (key_eq k y || elem k l))
    pass rest other = elim (Bool-cases (key_eq k x)) [
      | inl there ↦
          let out : key_eq k y ≡ false =
            ap (λ z. key_eq z y) ((key_eq_iff k x).0 there) ∙ key_eq_comm x y ∙ other in
          ground (arith, out, there, rest)
      | inr away ↦ ground (arith, away, rest)
    ]

pub cut_key-NoDup : (x : Key) (l : List Key) → NoDup l → NoDup (cut_key x l)
unfolding elem cut_key
cut_key-NoDup x [] d = tt
cut_key-NoDup x (y ∷ l) (fresh, d) = elim (Bool-cases (key_eq y x)) [
  | inl same ↦ rw same d
  | inr other ↦ rw other (elem-cut_key y x l d ∙ ground (arith, fresh), cut_key-NoDup x l d)
]

-- A key of the list is cut out of its place.
pub cut_key-middle :
    (x : Key) (l : List Key)
    → elem x l ≡ true
    → (before : List Key) × (after : List Key) × (l ≡ before ++ x ∷ after)
      × (cut_key x l ≡ before ++ after)
unfolding elem cut_key
cut_key-middle x [] e = cc
cut_key-middle x (y ∷ l) e = elim (Bool-cases (key_eq y x)) [
  | inl same ↦ ([], l, ap (λ z. z ∷ l) ((key_eq_iff y x).0 same), rw same)
  | inr other ↦
      let there : elem x l ≡ true = ground (arith, key_eq_comm x y, other) in
      let (before, after, f, g) = cut_key-middle x l there in
      (y ∷ before, after, ap (◌∷◌ y) f, rw other (ap (◌∷◌ y) g))
]
