-- ===== src/Bitmap/Distance.antt =====
-- dht/bits/bitmap.go, Xor and Closer: the XOR distance of two identifiers.
use lbry_go.Prelude.{
  ℕ, ◌+◌, ◌≤◌, ◌≡◌, ◌↔◌, refl, ap, sym, ◌∙◌, bit_xor, Bool, true, false, ◌&&◌, List, [], ◌∷◌, ◌++◌,
  length, All, arith, ltb, differ, all_below, all_below_sound,
}
use lbry_go.Bitmap.{Bitmap, IsByte, IsBitmap, xor, closer}
use lbry_go.Bitmap.Bytes.{
  bit, byte_bits, bits, length-bits, bools_eq, bools_eq_sound, and_left, and_right, ltb_sound,
}
use lbry_go.Bitmap.Order.{bits-injective, is_less-cmp}
use lbry_go.Bitmap.Value.{value, weight, weight-pos, bits_value, bits_value-bits}

zip_differ : List Bool → List Bool → List Bool
zip_differ [] m = []
zip_differ (x ∷ l) [] = []
zip_differ (x ∷ l) (y ∷ m) = differ x y ∷ zip_differ l m

abbrev byte_differ : ℕ → ℕ → List Bool → List Bool
byte_differ x y rest =
    differ (bit x 7) (bit y 7)
    ∷ differ (bit x 6) (bit y 6)
    ∷ differ (bit x 5) (bit y 5)
    ∷ differ (bit x 4) (bit y 4)
    ∷ differ (bit x 3) (bit y 3)
    ∷ differ (bit x 2) (bit y 2)
    ∷ differ (bit x 1) (bit y 1)
    ∷ differ (bit x 0) (bit y 0)
    ∷ rest

abbrev xor_ok : ℕ → ℕ → Bool
xor_ok x y = bools_eq (byte_bits (bit_xor x y) []) (byte_differ x y []) && ltb (bit_xor x y) 256

xor_table : all_below 256 (λ x. all_below 256 (xor_ok x)) ≡ true
unfolding all_below
xor_table = refl

xor_entry : (x y : ℕ) → IsByte x → IsByte y → xor_ok x y ≡ true
xor_entry x y hx hy =
    all_below_sound 256 (xor_ok x) y
      (all_below_sound 256 (λ x. all_below 256 (xor_ok x)) x xor_table hx) hy

byte_bits-xor : (x y : ℕ) → IsByte x → IsByte y → byte_bits (bit_xor x y) [] ≡ byte_differ x y []
byte_bits-xor x y h k = bools_eq_sound _ _ (and_left _ (ltb (bit_xor x y) 256) (xor_entry x y h k))

bits-xor :
    (b c : Bitmap) → All IsByte b → All IsByte c → bits (xor b c) ≡ zip_differ (bits b) (bits c)
unfolding xor bits zip_differ
bits-xor [] c h k = refl
bits-xor (x ∷ b) [] h k = refl
bits-xor (x ∷ b) (y ∷ c) h k =
    ap (λ l. l ++ bits (xor b c)) (byte_bits-xor x y h.0 k.0)
    ∙ ap (byte_differ x y) (bits-xor b c h.1 k.1)

pub xor-All : (b c : Bitmap) → All IsByte b → All IsByte c → All IsByte (xor b c)
unfolding xor
xor-All [] c h k = tt
xor-All (x ∷ b) [] h k = tt
xor-All (x ∷ b) (y ∷ c) h k =
    (ltb_sound (bit_xor x y) 256 (and_right _ _ (xor_entry x y h.0 k.0)), xor-All b c h.1 k.1)

pub length-xor : (b c : Bitmap) → length b ≡ length c → length (xor b c) ≡ length b
unfolding xor
length-xor [] c e = refl
length-xor (x ∷ b) [] e = absurd (omega arith)
length-xor (x ∷ b) (y ∷ c) e = omega (arith, length-xor b c (omega arith))

pub xor-IsBitmap : (b c : Bitmap) → IsBitmap b → IsBitmap c → IsBitmap (xor b c)
xor-IsBitmap b c h k = (length-xor b c (h.0 ∙ sym k.0) ∙ h.0, xor-All b c h.1 k.1)

differ_comm : (x y : Bool) → differ x y ≡ differ y x
differ_comm x y = ground arith

zip_differ_comm : (l m : List Bool) → zip_differ l m ≡ zip_differ m l
unfolding zip_differ
zip_differ_comm [] [] = refl
zip_differ_comm [] (y ∷ m) = refl
zip_differ_comm (x ∷ l) [] = refl
zip_differ_comm (x ∷ l) (y ∷ m) =
    ap (λ z. z ∷ zip_differ l m) (differ_comm x y) ∙ ap (◌∷◌ (differ y x)) (zip_differ_comm l m)

zip_differ_cancel : (l m : List Bool) → length l ≡ length m → zip_differ (zip_differ l m) m ≡ l
unfolding zip_differ
zip_differ_cancel [] m e = refl
zip_differ_cancel (x ∷ l) [] e = absurd (omega arith)
zip_differ_cancel (x ∷ l) (y ∷ m) e =
    ap (λ z. z ∷ zip_differ (zip_differ l m) m) (differ_cancel x y)
    ∙ ap (◌∷◌ x) (zip_differ_cancel l m (omega arith))
  where
    differ_cancel : (x y : Bool) → differ (differ x y) y ≡ x
    differ_cancel x y = ground arith

weight-zip : (l m : List Bool) → length l ≡ length m → weight (zip_differ l m) ≡ weight l
unfolding zip_differ weight
weight-zip [] m e = refl
weight-zip (x ∷ l) [] e = absurd (omega arith)
weight-zip (x ∷ l) (y ∷ m) e = omega (arith, weight-zip l m (omega arith))

triangle_bits :
    (l m n : List Bool)
    → length l ≡ length m
    → length m ≡ length n
    → bits_value (zip_differ l n) ≤ bits_value (zip_differ l m) + bits_value (zip_differ m n)
unfolding zip_differ bits_value
triangle_bits [] m n e f = omega arith
triangle_bits (x ∷ l) [] n e f = absurd (omega arith)
triangle_bits (x ∷ l) (y ∷ m) [] e f = absurd (omega arith)
triangle_bits (x ∷ l) (y ∷ m) (z ∷ n) e f = ground (
  arith,
  triangle_bits l m n (omega arith) (omega arith),
  weight-zip l n (omega arith),
  weight-zip l m (omega arith),
  weight-zip m n (omega arith),
  same_weight l m (omega arith),
)
  where
    same_weight : (l m : List Bool) → length l ≡ length m → weight l ≡ weight m
    same_weight l m e =
        sym (weight-zip l m e) ∙ ap weight (zip_differ_comm l m) ∙ weight-zip m l (sym e)

-- The distance of two identifiers, as a number.
abbrev pub distance : Bitmap → Bitmap → ℕ
distance b c = value (xor b c)

distance-bits :
    (b c : Bitmap)
    → IsBitmap b
    → IsBitmap c
    → distance b c ≡ bits_value (zip_differ (bits b) (bits c))
distance-bits b c h k =
    sym (bits_value-bits (xor b c) (xor-All b c h.1 k.1)) ∙ ap bits_value (bits-xor b c h.1 k.1)

same_bits : (b c : Bitmap) → IsBitmap b → IsBitmap c → length (bits b) ≡ length (bits c)
same_bits b c h k = omega (arith, length-bits b, length-bits c)

pub xor_comm : (b c : Bitmap) → IsBitmap b → IsBitmap c → xor b c ≡ xor c b
xor_comm b c h k =
    let p = xor-IsBitmap b c h k in
    let q = xor-IsBitmap c b k h in
    bits-injective _ _ (p.0 ∙ sym q.0) p.1 q.1
      (bits-xor b c h.1 k.1 ∙ zip_differ_comm (bits b) (bits c) ∙ sym (bits-xor c b k.1 h.1))

-- Xor undoes itself, so only one identifier stands at a given distance from another.
pub xor_cancel : (b c : Bitmap) → IsBitmap b → IsBitmap c → xor (xor b c) c ≡ b
xor_cancel b c h k =
    let p = xor-IsBitmap b c h k in
    let q = xor-IsBitmap _ c p k in
    bits-injective _ _ (q.0 ∙ sym h.0) q.1 h.1 (
      bits-xor _ c p.1 k.1
      ∙ ap (λ l. zip_differ l (bits c)) (bits-xor b c h.1 k.1)
      ∙ zip_differ_cancel (bits b) (bits c) (same_bits b c h k))

zip_differ_self : (l : List Bool) → bits_value (zip_differ l l) ≡ 0
unfolding bits_value zip_differ
zip_differ_self [] = refl
zip_differ_self (true ∷ l) = omega (arith, zip_differ_self l)
zip_differ_self (false ∷ l) = omega (arith, zip_differ_self l)

bits_zero-eq : (l m : List Bool) → length l ≡ length m → bits_value (zip_differ l m) ≡ 0 → l ≡ m
unfolding bits_value zip_differ
bits_zero-eq [] [] e h = refl
bits_zero-eq [] (y ∷ m) e h = absurd (omega arith)
bits_zero-eq (x ∷ l) [] e h = absurd (omega arith)
bits_zero-eq (true ∷ l) (true ∷ m) e h =
    ap (◌∷◌ true) (bits_zero-eq l m (omega arith) (omega arith))
bits_zero-eq (false ∷ l) (false ∷ m) e h =
    ap (◌∷◌ false) (bits_zero-eq l m (omega arith) (omega arith))
bits_zero-eq (true ∷ l) (false ∷ m) e h = absurd (omega (arith, weight-pos (zip_differ l m)))
bits_zero-eq (false ∷ l) (true ∷ m) e h = absurd (omega (arith, weight-pos (zip_differ l m)))

pub distance-eq-zero_iff : (b c : Bitmap) → IsBitmap b → IsBitmap c → (distance b c ≡ 0) ↔ (b ≡ c)
distance-eq-zero_iff b c h k = (
  λ z.
      bits-injective b c (h.0 ∙ sym k.0) h.1 k.1
        (bits_zero-eq _ _ (same_bits b c h k) (sym (distance-bits b c h k) ∙ z)),
  λ e. rw e (distance-bits c c k k ∙ zip_differ_self (bits c)),
)

-- XOR distance is a metric on identifiers: it is zero exactly between equal ones, it is symmetric,
-- and it satisfies the triangle inequality.
pub distance-metric :
    (a b c : Bitmap)
    → IsBitmap a
    → IsBitmap b
    → IsBitmap c
    → ((distance a b ≡ 0) ↔ (a ≡ b))
      × (distance a b ≡ distance b a)
      × (distance a c ≤ distance a b + distance b c)
distance-metric a b c ha hb hc = (
  distance-eq-zero_iff a b ha hb,
  ap value (xor_comm a b ha hb),
  rw (distance-bits a c ha hc, distance-bits a b ha hb, distance-bits b c hb hc)
      (triangle_bits (bits a) (bits b) (bits c) (same_bits a b ha hb) (same_bits b c hb hc)),
)

-- Closer, of bitmaps, compares the two distances to `b`.
pub closer-distance :
    (b x y : Bitmap)
    → IsBitmap b
    → IsBitmap x
    → IsBitmap y
    → closer b x y ≡ ltb (distance x b) (distance y b)
unfolding closer
closer-distance b x y hb hx hy =
    is_less-cmp (xor x b) (xor y b) (xor-IsBitmap x b hx hb) (xor-IsBitmap y b hy hb)
