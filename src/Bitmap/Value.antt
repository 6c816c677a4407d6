-- ===== src/Bitmap/Value.antt =====
-- dht/bits/bitmap.go: the number that a bitmap stands for, big-endian, and its two readings, by
-- bytes and by bits. Cmp against the order of numbers.
use native.Mathlib.Nat.{pow-suc}
use lbry_go.Prelude.{
  ℕ, ◌+◌, ◌*◌, ◌^◌, ◌<◌, ◌≡◌, refl, ap, Bool, true, false, List, [], ◌∷◌, length, All, arith, ltb,
  ◌==◌, ==_iff, if◌then◌else◌, all_below, all_below_sound,
}
use lbry_go.Bitmap.{Bitmap, IsByte, Sign, less, same, more, cmp}
use lbry_go.Bitmap.Bytes.{bit, bits}

unfoldable pub value : Bitmap → ℕ
value [] = 0
value (x ∷ b) = x * 256 ^ length b + value b

abbrev pub b2n : Bool → ℕ
b2n true = 1
b2n false = 0

unfoldable pub weight : List Bool → ℕ
weight [] = 1
weight (x ∷ l) = 2 * weight l

unfoldable pub bits_value : List Bool → ℕ
bits_value [] = 0
bits_value (x ∷ l) = b2n x * weight l + bits_value l

pub lex_lt : (x y w v v' : ℕ) → x < y → v < w → x * w + v < y * w + v'
lex_lt x y w v v' h k = grind arith

pub value-lt : (b : Bitmap) → All IsByte b → value b < 256 ^ length b
unfolding value
value-lt [] h = omega arith
value-lt (x ∷ b) h = omega (
  arith,
  pow-suc 256 (length b),
  value-lt b h.1,
  lex_lt x 256 (256 ^ length b) (value b) 0 h.0 (value-lt b h.1),
)

pub bits_value-lt : (l : List Bool) → bits_value l < weight l
unfolding bits_value weight
bits_value-lt [] = omega arith
bits_value-lt (true ∷ l) = omega (arith, bits_value-lt l)
bits_value-lt (false ∷ l) = omega (arith, bits_value-lt l)

pub weight-pos : (l : List Bool) → 0 < weight l
weight-pos l = omega (arith, bits_value-lt l)

pub weight-bits : (b : Bitmap) → weight (bits b) ≡ 256 ^ length b
unfolding weight bits
weight-bits [] = refl
weight-bits (x ∷ b) = omega (arith, pow-suc 256 (length b), weight-bits b)

abbrev byte_sum : ℕ → ℕ
byte_sum x =
    128 * b2n (bit x 7)
    + 64 * b2n (bit x 6)
    + 32 * b2n (bit x 5)
    + 16 * b2n (bit x 4)
    + 8 * b2n (bit x 3)
    + 4 * b2n (bit x 2)
    + 2 * b2n (bit x 1)
    + b2n (bit x 0)

byte_sum_table : all_below 256 (λ x. byte_sum x == x) ≡ true
unfolding all_below
byte_sum_table = refl

byte_sum_lem : (x : ℕ) → IsByte x → byte_sum x ≡ x
byte_sum_lem x h = (==_iff _ x).0 (all_below_sound 256 _ x byte_sum_table h)

spread :
    (a b c d e f g h w : ℕ)
    → (128 * a + 64 * b + 32 * c + 16 * d + 8 * e + 4 * f + 2 * g + h) * w
      ≡ 128 * (a * w)
        + 64 * (b * w)
        + 32 * (c * w)
        + 16 * (d * w)
        + 8 * (e * w)
        + 4 * (f * w)
        + 2 * (g * w)
        + h * w
spread a b c d e f g h w = omega arith

-- Both readings give one number.
pub bits_value-bits : (b : Bitmap) → All IsByte b → bits_value (bits b) ≡ value b
unfolding bits_value bits value weight
bits_value-bits [] h = refl
bits_value-bits (x ∷ b) h = omega (
  arith,
  weight-bits b,
  bits_value-bits b h.1,
  ap (λ t. t * weight (bits b)) (byte_sum_lem x h.0),
  ap (λ t. x * t) (weight-bits b),
  spread (b2n (bit x 7)) (b2n (bit x 6)) (b2n (bit x 5)) (b2n (bit x 4)) (b2n (bit x 3))
      (b2n (bit x 2)) (b2n (bit x 1)) (b2n (bit x 0)) (weight (bits b)),
)

-- The order of two numbers, as Cmp reports it.
abbrev pub order : ℕ → ℕ → Sign
order m n = if ltb m n then less else if ltb n m then more else same

-- Cmp, of two lists of bytes of one length, is the order of the numbers that they stand for.
pub cmp-value :
    (b other : Bitmap)
    → length b ≡ length other
    → All IsByte b
    → All IsByte other
    → cmp b other ≡ order (value b) (value other)
unfolding cmp value
cmp-value [] [] e h k = refl
cmp-value [] (y ∷ other) e h k = absurd (omega arith)
cmp-value (x ∷ b) [] e h k = absurd (omega arith)
cmp-value (x ∷ b) (y ∷ other) e h k =
    let e' : length b ≡ length other = omega arith in
    let ih = cmp-value b other e' h.1 k.1 in
    let w = 256 ^ length other in
    ground (
      arith,
      ap (λ n. 256 ^ n) e',
      ih,
      value-lt b h.1,
      value-lt other k.1,
      lex_lt x y w (value b) (value other),
      lex_lt y x w (value other) (value b),
      ap (λ n. x * 256 ^ n) e',
    )
