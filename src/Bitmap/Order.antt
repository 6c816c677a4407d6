-- ===== src/Bitmap/Order.antt =====
-- dht/bits/bitmap.go, Cmp, Equals and Closer: tests on bitmaps against the numbers they stand for.
use lbry_go.Prelude.{◌*◌, ◌^◌, ◌≡◌, refl, ap, sym, ◌∙◌, true, [], ◌∷◌, length, All, arith, ◌↔◌, ltb}
use lbry_go.Bitmap.{Bitmap, IsByte, IsBitmap, is_less, is_same, cmp, equals}
use lbry_go.Bitmap.Bytes.{bits}
use lbry_go.Bitmap.Value.{value, value-lt, cmp-value, lex_lt, order, bits_value, bits_value-bits}

-- Bitmaps of one length that stand for one number are equal.
pub value-injective :
    (b c : Bitmap) → length b ≡ length c → All IsByte b → All IsByte c → value b ≡ value c → b ≡ c
unfolding value
value-injective [] [] e h k q = refl
value-injective [] (y ∷ c) e h k q = absurd (omega arith)
value-injective (x ∷ b) [] e h k q = absurd (omega arith)
value-injective (x ∷ b) (y ∷ c) e h k q =
    let e' : length b ≡ length c = omega arith in
    let w = 256 ^ length c in
    let facts : (x ≡ y) × (value b ≡ value c) = ground (
      arith,
      ap (λ n. 256 ^ n) e',
      ap (λ n. x * 256 ^ n) e',
      value-lt b h.1,
      value-lt c k.1,
      lex_lt x y w (value b) (value c),
      lex_lt y x w (value c) (value b),
    ) in
    ap (λ z. z ∷ b) facts.0 ∙ ap (◌∷◌ y) (value-injective b c e' h.1 k.1 facts.1)

pub bits-injective :
    (b c : Bitmap) → length b ≡ length c → All IsByte b → All IsByte c → bits b ≡ bits c → b ≡ c
bits-injective b c e h k q =
    value-injective b c e h k (sym (bits_value-bits b h) ∙ ap bits_value q ∙ bits_value-bits c k)

pub cmp-order : (b c : Bitmap) → IsBitmap b → IsBitmap c → cmp b c ≡ order (value b) (value c)
cmp-order b c h k = cmp-value b c (h.0 ∙ sym k.0) h.1 k.1

pub is_less-cmp :
    (b c : Bitmap) → IsBitmap b → IsBitmap c → is_less (cmp b c) ≡ ltb (value b) (value c)
is_less-cmp b c h k = ap is_less (cmp-order b c h k) ∙ ground arith

-- Equals holds of two bitmaps exactly if they are equal.
pub equals_iff : (b c : Bitmap) → IsBitmap b → IsBitmap c → (equals b c ≡ true) ↔ (b ≡ c)
unfolding equals
equals_iff b c h k = (
  λ q. value-injective b c (h.0 ∙ sym k.0) h.1 k.1 (same_value q),
  λ q. rw q (ap is_same (cmp-order c c k k) ∙ ground arith),
)
  where
    same_value : is_same (cmp b c) ≡ true → value b ≡ value c
    same_value q = ground (arith, cmp-order b c h k)
