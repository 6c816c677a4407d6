-- ===== src/Bitmap/Difference.antt =====
-- dht/bits/bitmap.go, Not and Sub: subtraction through the complement, against numbers.
use lbry_go.Prelude.{
  ℕ, suc, ◌+◌, ◌*◌, ◌^◌, ◌<◌, ◌≤◌, ◌≡◌, refl, ap, sym, ◌∙◌, bit_xor, Bool, true, false, [], ◌∷◌,
  ◌++◌, length, All, arith, ◌==◌, ==_iff, ok, panic, all_below, all_below_sound, replicate,
  lt-cases, inl, inr, ◌⊎◌,
}
use lbry_go.Bitmap.{Bitmap, IsByte, IsBitmap, cmp, is_less, complement, add_with_carry}
use lbry_go.Bitmap.Value.{value, b2n}
use lbry_go.Bitmap.Order.{is_less-cmp}
use lbry_go.Bitmap.Sum.{add_with_carry-value, modulus, value-lt_modulus}
use lbry_go.Bitmap.Hex.{
  sub, from_short_hex_p, from_short_hex, from_hex, decode, from_hex_char, from_bytes,
}
use native.Mathlib.Nat.{pow-suc}

complement_table : all_below 256 (λ x. bit_xor x 255 + x == 255) ≡ true
unfolding all_below
complement_table = refl

complement_byte : (x : ℕ) → IsByte x → bit_xor x 255 + x ≡ 255
complement_byte x h = (==_iff _ 255).0 (all_below_sound 256 _ x complement_table h)

length-complement : (b : Bitmap) → length (complement b) ≡ length b
unfolding complement
length-complement [] = refl
length-complement (x ∷ b) = ap suc (length-complement b)

complement-All : (b : Bitmap) → All IsByte b → All IsByte (complement b)
unfolding complement
complement-All [] h = tt
complement-All (x ∷ b) h = (omega (arith, complement_byte x h.0), complement-All b h.1)

complement_sum : (b : Bitmap) → All IsByte b → value (complement b) + value b + 1 ≡ 256 ^ length b
unfolding complement value
complement_sum [] h = omega arith
complement_sum (x ∷ b) h = omega (
  arith,
  complement_sum b h.1,
  ap (λ t. t * 256 ^ length b) (complement_byte x h.0),
  ap (λ n. bit_xor x 255 * 256 ^ n) (length-complement b),
  pow-suc 256 (length b),
)

complement_twice : (b : Bitmap) → All IsByte b → complement (complement b) ≡ b
unfolding complement
complement_twice [] h = refl
complement_twice (x ∷ b) h =
    let y = bit_xor x 255 in
    let back : bit_xor y 255 ≡ x =
      omega
        (arith, complement_byte x h.0, complement_byte y (omega (arith, complement_byte x h.0))) in
    ap (λ z. z ∷ complement (complement b)) back ∙ ap (◌∷◌ x) (complement_twice b h.1)

-- Not is the complement to 2^384 - 1, and undoes itself.
pub complement-value :
    (b : Bitmap)
    → IsBitmap b
    → IsBitmap (complement b)
      × (value (complement b) + value b + 1 ≡ modulus)
      × (complement (complement b) ≡ b)
complement-value b h = (
  (length-complement b ∙ h.0, complement-All b h.1),
  complement_sum b h.1 ∙ ap (λ n. 256 ^ n) h.0,
  complement_twice b h.1,
)

one : Bitmap
one = replicate 47 0 ++ 1 ∷ []

from_short_hex_p-one : from_short_hex_p (b'1' ∷ []) ≡ ok one
unfolding from_short_hex_p from_short_hex from_hex decode from_hex_char from_bytes one
from_short_hex_p-one = refl

one_lem : IsBitmap one × (value one ≡ 1)
unfolding one value
one_lem = ((refl, omega arith), refl)

borrow :
    (c d : Bool) (b o n k r : ℕ)
    → k + o + 1 ≡ modulus
    → k + 1 ≡ n + b2n c * modulus
    → b + n ≡ r + b2n d * modulus
    → o ≤ b
    → b < modulus
    → r < modulus
    → r + o ≡ b
borrow true true b o n k r = omega arith
borrow true false b o n k r = omega arith
borrow false true b o n k r = omega arith
borrow false false b o n k r = omega arith

-- Sub: the difference is returned where it is not negative, and any other call panics.
pub sub-value :
    (b other : Bitmap)
    → IsBitmap b
    → IsBitmap other
    → (value other ≤ value b
        → (r : Bitmap) × (sub b other ≡ ok r) × IsBitmap r × (value r + value other ≡ value b))
      × (value b < value other → sub b other ≡ panic "negative bitmaps not supported")
unfolding sub
sub-value b other h k = (
  λ le.
      let test : is_less (cmp b other) ≡ false = is_less-cmp b other h k ∙ ground arith in
      let (nk, sum, _) = complement-value other k in
      let negated = add_with_carry (complement other) one in
      let n = add_with_carry-value (complement other) one nk one_lem.0 in
      let r = add_with_carry b negated.0 in
      let s = add_with_carry-value b negated.0 h n.0 in
      (
        r.0,
        rw (test, from_short_hex_p-one),
        s.0,
        borrow negated.1 r.1 (value b) (value other) _ _ _ sum
            (ap (λ t. value (complement other) + t) (sym one_lem.1) ∙ n.1) s.1 le
            (value-lt_modulus b h) (value-lt_modulus r.0 s.0),
      ),
  λ lt. let test : is_less (cmp b other) ≡ true = is_less-cmp b other h k ∙ ground arith in rw test,
)

-- Sub of two bitmaps: the difference is returned exactly where it is not negative, and any other
-- call panics.
pub sub_cases :
    (b other : Bitmap)
    → IsBitmap b
    → IsBitmap other
    → ((value b < value other) × (sub b other ≡ panic "negative bitmaps not supported"))
      ⊎ ((value other ≤ value b)
          × ((r : Bitmap) × (sub b other ≡ ok r) × IsBitmap r × (value r + value other ≡ value b)))
sub_cases b other h k = elim (lt-cases (value b) (value other)) [
  | inl under ↦ inl (under, (sub-value b other h k).1 under)
  | inr fits ↦ inr (fits, (sub-value b other h k).0 fits)
]
