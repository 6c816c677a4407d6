-- ===== src/Prelude/Lists.antt =====
-- Lists measured and indexed by native numbers, under the library's names.
use Prim.Native.Nat.{ℕ, zero, suc, ◌+◌, ◌<◌, ◌≤◌, min}
use mathlib.Core.Path.{◌≡◌, refl, ap, ◌∙◌}
use mathlib.Core.Logic.{◌≢◌}
use mathlib.Core.List.{List, [], ◌∷◌, ◌++◌}
use mathlib.Core.Option.{Option, none, some}
use native.Mathlib.Omega.{arith}

module _ {ℓ} {A : Type ℓ} where
  abbrev pub length : List A → ℕ
  length [] = 0
  length (x ∷ xs) = suc (length xs)

  -- A read past the end gives the default.
  abbrev pub get_or : List A → ℕ → A → A
  get_or [] i d = d
  get_or (x ∷ xs) zero d = x
  get_or (x ∷ xs) (suc i) d = get_or xs i d

  abbrev pub get_elem? : List A → ℕ → Option A
  get_elem? [] i = none
  get_elem? (x ∷ xs) zero = some x
  get_elem? (x ∷ xs) (suc i) = get_elem? xs i

  -- A write out of bounds changes nothing.
  abbrev pub set : List A → ℕ → A → List A
  set [] i v = []
  set (x ∷ xs) zero v = v ∷ xs
  set (x ∷ xs) (suc i) v = x ∷ set xs i v

  abbrev pub take : ℕ → List A → List A
  take zero xs = []
  take (suc n) [] = []
  take (suc n) (x ∷ xs) = x ∷ take n xs

  abbrev pub drop : ℕ → List A → List A
  drop zero xs = xs
  drop (suc n) [] = []
  drop (suc n) (x ∷ xs) = drop n xs

  abbrev pub replicate : ℕ → A → List A
  replicate zero a = []
  replicate (suc n) a = a ∷ replicate n a

  abbrev pub All {κ} : (A → Type κ) → List A → Type κ
  All P [] = Unit
  All P (x ∷ xs) = P x × All P xs

module _ {ℓ} {A : Type ℓ} where
  pub length-append : (xs ys : List A) → length (xs ++ ys) ≡ length xs + length ys
  length-append [] ys = omega arith
  length-append (x ∷ xs) ys = omega (arith, length-append xs ys)

  pub length-set : (xs : List A) (i : ℕ) (v : A) → length (set xs i v) ≡ length xs
  length-set [] i v = refl
  length-set (x ∷ xs) zero v = refl
  length-set (x ∷ xs) (suc i) v = ap suc (length-set xs i v)

  pub length-take : (n : ℕ) (xs : List A) → length (take n xs) ≡ min n (length xs)
  length-take zero xs = omega arith
  length-take (suc n) [] = omega arith
  length-take (suc n) (x ∷ xs) = omega (arith, length-take n xs)

  pub length-replicate : (n : ℕ) (a : A) → length (replicate n a) ≡ n
  length-replicate zero a = refl
  length-replicate (suc n) a = ap suc (length-replicate n a)

  pub take-append-drop : (n : ℕ) (xs : List A) → take n xs ++ drop n xs ≡ xs
  take-append-drop zero xs = refl
  take-append-drop (suc n) [] = refl
  take-append-drop (suc n) (x ∷ xs) = ap (◌∷◌ x) (take-append-drop n xs)

  pub get_or-set_self :
      (xs : List A) (i : ℕ) (v d : A) → i < length xs → get_or (set xs i v) i d ≡ v
  get_or-set_self [] i v d h = absurd (omega arith)
  get_or-set_self (x ∷ xs) zero v d h = refl
  get_or-set_self (x ∷ xs) (suc i) v d h = get_or-set_self xs i v d (omega arith)

  pub get_or-set_ne :
      (xs : List A) (i j : ℕ) (v d : A) → i ≢ j → get_or (set xs i v) j d ≡ get_or xs j d
  get_or-set_ne [] i j v d h = refl
  get_or-set_ne (x ∷ xs) zero zero v d h = absurd (h refl)
  get_or-set_ne (x ∷ xs) zero (suc j) v d h = refl
  get_or-set_ne (x ∷ xs) (suc i) zero v d h = refl
  get_or-set_ne (x ∷ xs) (suc i) (suc j) v d h = get_or-set_ne xs i j v d (λ e. h (ap suc e))

  pub drop-set : (xs : List A) (i : ℕ) (v : A) → drop (suc i) (set xs i v) ≡ drop (suc i) xs
  drop-set [] i v = refl
  drop-set (x ∷ xs) zero v = refl
  drop-set (x ∷ []) (suc i) v = refl
  drop-set (x ∷ y ∷ xs) (suc i) v = drop-set (y ∷ xs) i v

  pub drop-get_or :
      (xs : List A) (i : ℕ) (d : A) → i < length xs → drop i xs ≡ get_or xs i d ∷ drop (suc i) xs
  drop-get_or [] i d h = absurd (omega arith)
  drop-get_or (x ∷ xs) zero d h = refl
  drop-get_or (x ∷ xs) (suc i) d h = drop-get_or xs i d (omega arith)

  -- Lists of one length that agree at every index are equal.
  pub ext_get_or :
      (xs ys : List A) (d : A)
      → length xs ≡ length ys
      → ((i : ℕ) → i < length xs → get_or xs i d ≡ get_or ys i d)
      → xs ≡ ys
  ext_get_or [] [] d e h = refl
  ext_get_or [] (y ∷ ys) d e h = absurd (omega arith)
  ext_get_or (x ∷ xs) [] d e h = absurd (omega arith)
  ext_get_or (x ∷ xs) (y ∷ ys) d e h =
      ap (λ z. z ∷ xs) (h 0 (omega arith))
      ∙ ap (◌∷◌ y) (ext_get_or xs ys d (omega arith) (λ i l. h (suc i) (omega arith)))

  pub All-append {κ} : (P : A → Type κ) (xs ys : List A) → All P xs → All P ys → All P (xs ++ ys)
  All-append P [] ys p q = q
  All-append P (x ∷ xs) ys p q = (p.0, All-append P xs ys p.1 q)

-- A list around one of its places.
module _ {ℓ} {A : Type ℓ} where
  pub get-middle :
      (before : List A) (x : A) (after : List A) (i : ℕ)
      → i ≡ length before
      → get_elem? (before ++ x ∷ after) i ≡ some x
  get-middle [] x after zero e = refl
  get-middle [] x after (suc i) e = absurd (omega arith)
  get-middle (y ∷ before) x after zero e = absurd (omega arith)
  get-middle (y ∷ before) x after (suc i) e = get-middle before x after i (omega arith)

  pub set-middle :
      (before : List A) (x y : A) (after : List A) (i : ℕ)
      → i ≡ length before
      → set (before ++ x ∷ after) i y ≡ before ++ y ∷ after
  set-middle [] x y after zero e = refl
  set-middle [] x y after (suc i) e = absurd (omega arith)
  set-middle (z ∷ before) x y after zero e = absurd (omega arith)
  set-middle (z ∷ before) x y after (suc i) e =
      ap (◌∷◌ z) (set-middle before x y after i (omega arith))

  pub take-middle :
      (before after : List A) (i : ℕ) → i ≡ length before → take i (before ++ after) ≡ before
  take-middle [] after zero e = refl
  take-middle [] after (suc i) e = absurd (omega arith)
  take-middle (z ∷ before) after zero e = absurd (omega arith)
  take-middle (z ∷ before) after (suc i) e = ap (◌∷◌ z) (take-middle before after i (omega arith))

  pub drop-append :
      (before after : List A) (i : ℕ) → i ≡ length before → drop i (before ++ after) ≡ after
  drop-append [] after zero e = refl
  drop-append [] after (suc i) e = absurd (omega arith)
  drop-append (z ∷ before) after zero e = absurd (omega arith)
  drop-append (z ∷ before) after (suc i) e = drop-append before after i (omega arith)

  pub drop-middle :
      (before : List A) (x : A) (after : List A) (i : ℕ)
      → i ≡ length before
      → drop (suc i) (before ++ x ∷ after) ≡ after
  drop-middle [] x after zero e = refl
  drop-middle [] x after (suc i) e = absurd (omega arith)
  drop-middle (z ∷ before) x after zero e = absurd (omega arith)
  drop-middle (z ∷ before) x after (suc i) e = drop-middle before x after i (omega arith)

  pub All-split {κ} :
      (P : A → Type κ) (before after : List A)
      → All P (before ++ after)
      → All P before × All P after
  All-split P [] after h = (tt, h)
  All-split P (x ∷ before) after h = let (b, a) = All-split P before after h.1 in ((h.0, b), a)

  pub All-imp {κ μ} :
      (P : A → Type κ) (Q : A → Type μ) (l : List A) → ((x : A) → P x → Q x) → All P l → All Q l
  All-imp P Q [] f h = tt
  All-imp P Q (x ∷ l) f h = (f x h.0, All-imp P Q l f h.1)

module _ {ℓ} {A : Type ℓ} where
  pub get_elem?-some : (l : List A) (i : ℕ) → i < length l → (x : A) × (get_elem? l i ≡ some x)
  get_elem?-some [] i h = absurd (omega arith)
  get_elem?-some (x ∷ l) zero h = (x, refl)
  get_elem?-some (x ∷ l) (suc i) h = get_elem?-some l i (omega arith)

  pub get_elem?-none : (l : List A) (i : ℕ) → length l ≤ i → get_elem? l i ≡ none
  get_elem?-none [] i h = refl
  get_elem?-none (x ∷ l) zero h = absurd (omega arith)
  get_elem?-none (x ∷ l) (suc i) h = get_elem?-none l i (omega arith)
