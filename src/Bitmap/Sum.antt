-- ===== src/Bitmap/Sum.antt =====
-- dht/bits/bitmap.go, add and Add: the ripple-carry loop against the sum of numbers.
use mathlib.Core.Path.{ap₂}
use lbry_go.Prelude.{
  ℕ, zero, suc, ◌+◌, ◌*◌, ◌^◌, ◌<◌, ◌≤◌, ◌≡◌, refl, ap, sym, ◌∙◌, Bool, true, false, ◌&&◌, ◌||◌,
  List, [], ◌∷◌, length, get_or, set, drop, All, arith, differ, ok, panic, length-set, drop-set,
  drop-get_or, get_or-set_self, lt-cases, inl, inr, ◌⊎◌,
}
use lbry_go.Bitmap.{
  Bitmap, IsByte, IsBitmap, add_loop, add_with_carry, add, get_bit, set_bit, zeros, num_bits,
}
use lbry_go.Bitmap.Bytes.{
  bits, length-bits, get_bit-bits, bits-set_bit, set_bit-All, length-set_bit,
}
use lbry_go.Bitmap.Value.{value, value-lt, b2n, weight, bits_value, bits_value-bits, weight-bits}

abbrev pub majority : Bool → Bool → Bool → Bool
majority a b c = (a && b) || (a && c) || (b && c)

full_adder :
    (a b c : Bool) (w va vb vr : ℕ)
    → va + vb ≡ vr + b2n c * w
    → (b2n a * w + va) + (b2n b * w + vb)
      ≡ (b2n (differ (differ a b) c) * w + vr) + b2n (majority a b c) * (2 * w)
full_adder true true true w va vb vr h = omega arith
full_adder true true false w va vb vr h = omega arith
full_adder true false true w va vb vr h = omega arith
full_adder true false false w va vb vr h = omega arith
full_adder false true true w va vb vr h = omega arith
full_adder false true false w va vb vr h = omega arith
full_adder false false true w va vb vr h = omega arith
full_adder false false false w va vb vr h = omega arith

pub same_weight : (l m : List Bool) → length l ≡ length m → weight l ≡ weight m
unfolding weight
same_weight [] [] e = refl
same_weight [] (y ∷ m) e = absurd (omega arith)
same_weight (x ∷ l) [] e = absurd (omega arith)
same_weight (x ∷ l) (y ∷ m) e = omega (arith, same_weight l m (omega arith))

weight-drop :
    (l m : List Bool) (i : ℕ) → length l ≡ length m → weight (drop i l) ≡ weight (drop i m)
weight-drop l m zero e = same_weight l m e
weight-drop [] [] (suc i) e = refl
weight-drop [] (y ∷ m) (suc i) e = absurd (omega arith)
weight-drop (x ∷ l) [] (suc i) e = absurd (omega arith)
weight-drop (x ∷ l) (y ∷ m) (suc i) e = weight-drop l m i (omega arith)

-- The bits from `i` on are done: the sum so far is right, with the carry above it.
abbrev Done : ℕ → List Bool → List Bool → List Bool → Bool → Type 0
Done i b other ret carry =
    bits_value (drop i b) + bits_value (drop i other)
    ≡ bits_value (drop i ret) + b2n carry * weight (drop i ret)

drop_value :
    (l : List Bool) (i : ℕ)
    → i < length l
    → bits_value (drop i l)
      ≡ b2n (get_or l i false) * weight (drop (suc i) l) + bits_value (drop (suc i) l)
unfolding bits_value
drop_value l i h = rw (drop-get_or l i false h)

step_Done :
    (i : ℕ) (b other ret : List Bool) (carry : Bool)
    → length b ≡ length ret
    → length other ≡ length ret
    → i < length ret
    → Done (suc i) b other ret carry
    → let x = get_or b i false in
      let y = get_or other i false in
      Done i b other (set ret i (differ (differ x y) carry)) (majority x y carry)
unfolding weight bits_value
step_Done i b other ret carry e f h d =
    let x = get_or b i false in
    let y = get_or other i false in
    let v = differ (differ x y) carry in
    let tail : drop i (set ret i v) ≡ v ∷ drop (suc i) ret =
      drop-get_or (set ret i v) i false (omega (arith, length-set ret i v))
      ∙ ap (λ z. z ∷ drop (suc i) (set ret i v)) (get_or-set_self ret i v false h)
      ∙ ap (◌∷◌ v) (drop-set ret i v) in
    let w = weight (drop (suc i) ret) in
    let p : bits_value (drop i b) ≡ b2n x * w + bits_value (drop (suc i) b) =
      drop_value b i (omega arith)
      ∙ ap (λ t. b2n x * t + bits_value (drop (suc i) b)) (weight-drop b ret (suc i) e) in
    let q : bits_value (drop i other) ≡ b2n y * w + bits_value (drop (suc i) other) =
      drop_value other i (omega arith)
      ∙ ap (λ t. b2n y * t + bits_value (drop (suc i) other)) (weight-drop other ret (suc i) f) in
    rw (p, q, tail) (full_adder x y carry w _ _ _ d)

-- What the loop returns: a bitmap of the same length, and the sum with the last carry.
pub record Summed (b other ret : Bitmap) (r : Bitmap × Bool) : Type 0 where
  pub size : length r.0 ≡ length ret
  pub bytes : All IsByte r.0
  pub total :
      bits_value (bits b) + bits_value (bits other)
      ≡ bits_value (bits r.0) + b2n r.1 * weight (bits r.0)

add_loop_lem :
    (i : ℕ) (b other ret : Bitmap) (carry : Bool)
    → length b ≡ length ret
    → length other ≡ length ret
    → i ≤ 8 * length ret
    → All IsByte ret
    → Done i (bits b) (bits other) (bits ret) carry
    → Summed b other ret (add_loop i b other ret carry)
unfolding add_loop
add_loop_lem zero b other ret carry e f h bytes d = record { size = refl; bytes = bytes; total = d }
add_loop_lem (suc i) b other ret carry e f h bytes d =
    let v = differ (differ (get_bit b i) (get_bit other i)) carry in
    let ret' = set_bit ret i v in
    let same = length-set_bit ret i v in
    let next : Done i (bits b) (bits other) (bits ret')
        (majority (get_bit b i) (get_bit other i) carry) =
      rw (bits-set_bit ret i v bytes, get_bit-bits b i, get_bit-bits other i)
        (step_Done i (bits b) (bits other) (bits ret) carry
          (omega (arith, length-bits b, length-bits ret))
          (omega (arith, length-bits other, length-bits ret)) (omega (arith, length-bits ret)) d) in
    let s =
      add_loop_lem i b other ret' _ (e ∙ sym same) (f ∙ sym same) (omega (arith, same))
        (set_bit-All ret i v bytes) next in
    record { size = s.size ∙ same; bytes = s.bytes; total = s.total }

drop_end : (l : List Bool) (n : ℕ) → length l ≤ n → drop n l ≡ []
drop_end [] zero h = refl
drop_end [] (suc n) h = refl
drop_end (x ∷ l) zero h = absurd (omega arith)
drop_end (x ∷ l) (suc n) h = drop_end l n (omega arith)

zeros_lem : IsBitmap zeros
zeros_lem = (refl, omega arith)

abbrev pub modulus : ℕ
modulus = 2 ^ 384

pub value-lt_modulus : (b : Bitmap) → IsBitmap b → value b < modulus
value-lt_modulus b h =
    let e : 256 ^ length b ≡ 2 ^ 384 = ap (λ n. 256 ^ n) h.0 in omega (arith, value-lt b h.1, e)

-- The loop of add on two bitmaps: the sum is the returned number, with the carry above its 384 bits.
pub add_with_carry-value :
    (b other : Bitmap)
    → IsBitmap b
    → IsBitmap other
    → IsBitmap (add_with_carry b other).0
      × (value b + value other
          ≡ value (add_with_carry b other).0 + b2n (add_with_carry b other).1 * modulus)
unfolding add_with_carry weight bits_value
add_with_carry-value b other h k =
    let none_done : Done num_bits (bits b) (bits other) (bits zeros) false =
      rw
        (
          drop_end (bits b) num_bits (omega (arith, length-bits b)),
          drop_end (bits other) num_bits (omega (arith, length-bits other)),
          drop_end (bits zeros) num_bits (omega (arith, length-bits zeros)),
        )
        refl in
    let s = add_loop_lem num_bits b other zeros false h.0 k.0 (omega arith) zeros_lem.1 none_done in
    let r = add_loop num_bits b other zeros false in
    (
      (s.size, s.bytes),
      sym (ap₂ ◌+◌ (bits_value-bits b h.1) (bits_value-bits other k.1))
          ∙ s.total
          ∙ ap₂ ◌+◌ (bits_value-bits r.0 s.bytes)
              (ap (λ t. b2n r.1 * t) (weight-bits r.0 ∙ ap (λ n. 256 ^ n) s.size)),
    )

-- Add: a sum below 2^384 is returned exactly; any other panics.
pub add-value :
    (b other : Bitmap)
    → IsBitmap b
    → IsBitmap other
    → (value b + value other < modulus
        → (r : Bitmap) × (add b other ≡ ok r) × IsBitmap r × (value r ≡ value b + value other))
      × (modulus ≤ value b + value other
          → add b other ≡ panic "overflow in bitmap addition. limited to 384 bits.")
unfolding add
add-value b other h k =
    let s = add_with_carry-value b other h k in
    let r = add_with_carry b other in
    (
      λ fits.
          let no_carry : r.1 ≡ false = carry_false r.1 _ _ s.1 fits in
          (r.0, rw no_carry, s.0, ground arith),
      λ over.
          let carried : r.1 ≡ true = carry_true r.1 _ _ s.1 over (value-lt_modulus r.0 s.0) in
          rw carried,
    )
  where
    carry_false : (c : Bool) (v m : ℕ) → v ≡ m + b2n c * modulus → v < modulus → c ≡ false
    carry_false true v m e l = absurd (omega arith)
    carry_false false v m e l = refl

    carry_true :
        (c : Bool) (v m : ℕ) → v ≡ m + b2n c * modulus → modulus ≤ v → m < modulus → c ≡ true
    carry_true true v m e l b = refl
    carry_true false v m e l b = absurd (omega arith)

-- Add of two bitmaps: a sum below 2^384 is returned exactly, and any other panics.
pub add_cases :
    (b other : Bitmap)
    → IsBitmap b
    → IsBitmap other
    → ((value b + value other < modulus)
        × ((r : Bitmap) × (add b other ≡ ok r) × IsBitmap r × (value r ≡ value b + value other)))
      ⊎ ((modulus ≤ value b + value other)
          × (add b other ≡ panic "overflow in bitmap addition. limited to 384 bits."))
add_cases b other h k = elim (lt-cases (value b + value other) modulus) [
  | inl fits ↦ inl (fits, (add-value b other h k).0 fits)
  | inr over ↦ inr (over, (add-value b other h k).1 over)
]
