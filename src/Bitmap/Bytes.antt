-- ===== src/Bitmap/Bytes.antt =====
-- dht/bits/bitmap.go, getBit and setBit: the masks on one byte as bits. A bitmap is also the list
-- of its bits, most significant first.
use Prim.Native.Nat.{bit_and-bitwise}
use lbry_go.Prelude.{
  ℕ, zero, suc, ◌+◌, ◌-◌, ◌*◌, ◌/◌, ◌%◌, ◌^◌, ◌<◌, ◌≡◌, refl, ap, sym, ◌∙◌, bit_and, bit_or,
  bit_xor, Bool, true, false, ◌&&◌, List, [], ◌∷◌, ◌++◌, length, get_or, set, All, arith, ltb,
  if◌then◌else◌, all_below, all_below_sound, length-set,
}
use lbry_go.Bitmap.{Bitmap, IsByte, get_bit, set_bit}

bit_and_zero : (m : ℕ) → bit_and 0 m ≡ 0
bit_and_zero m = bit_and-bitwise 0 m

ltb-bit_and-zero : (m : ℕ) → ltb 0 (bit_and 0 m) ≡ false
ltb-bit_and-zero m = rw (bit_and_zero m)

eight : (n : ℕ) → suc (suc (suc (suc (suc (suc (suc (suc n))))))) ≡ 8 + n
eight n = omega arith

-- Bit k of a byte, counted from the least significant.
abbrev pub bit : ℕ → ℕ → Bool
bit x k = ltb 0 (bit_and x (2 ^ k))

abbrev pub byte_bits : ℕ → List Bool → List Bool
byte_bits x rest =
    bit x 7 ∷ bit x 6 ∷ bit x 5 ∷ bit x 4 ∷ bit x 3 ∷ bit x 2 ∷ bit x 1 ∷ bit x 0 ∷ rest

unfoldable pub bits : Bitmap → List Bool
bits [] = []
bits (x ∷ b) = byte_bits x (bits b)

pub length-bits : (b : Bitmap) → length (bits b) ≡ 8 * length b
unfolding bits
length-bits [] = refl
length-bits (x ∷ b) = omega (arith, length-bits b)

get_byte :
    (b : Bitmap) (n : ℕ)
    → n < 8
    → (x : ℕ) → get_bit (x ∷ b) n ≡ get_or (byte_bits x (bits b)) n false
unfolding get_bit
get_byte b zero h x = refl
get_byte b (suc zero) h x = refl
get_byte b (suc (suc zero)) h x = refl
get_byte b (suc (suc (suc zero))) h x = refl
get_byte b (suc (suc (suc (suc zero)))) h x = refl
get_byte b (suc (suc (suc (suc (suc zero))))) h x = refl
get_byte b (suc (suc (suc (suc (suc (suc zero)))))) h x = refl
get_byte b (suc (suc (suc (suc (suc (suc (suc zero))))))) h x = refl
get_byte b (suc (suc (suc (suc (suc (suc (suc (suc n)))))))) h x = absurd (omega arith)

get_nil : (n : ℕ) → get_bit [] n ≡ false
unfolding get_bit
get_nil n = ltb-bit_and-zero (2 ^ (7 - n % 8))

get_next : (x : ℕ) (b : Bitmap) (n : ℕ) → get_bit (x ∷ b) (8 + n) ≡ get_bit b n
unfolding get_bit
get_next x b n =
    let e : (8 + n) / 8 ≡ suc (n / 8) = omega arith in
    let f : (8 + n) % 8 ≡ n % 8 = omega arith in rw (e, f)

-- getBit reads the list of bits.
pub get_bit-bits : (b : Bitmap) (n : ℕ) → get_bit b n ≡ get_or (bits b) n false
unfolding bits
get_bit-bits [] n = get_nil n
get_bit-bits (x ∷ b) zero = get_byte b 0 (omega arith) x
get_bit-bits (x ∷ b) (suc (suc (suc (suc (suc (suc (suc (suc n)))))))) =
    ap (get_bit (x ∷ b)) (eight n) ∙ get_next x b n ∙ get_bit-bits b n
get_bit-bits (x ∷ b) n = get_byte b n (omega arith) x

pub and_left : (a b : Bool) → (a && b) ≡ true → a ≡ true
and_left a b h = ground arith

pub and_right : (a b : Bool) → (a && b) ≡ true → b ≡ true
and_right a b h = ground arith

abbrev pub bools_eq : List Bool → List Bool → Bool
bools_eq [] [] = true
bools_eq (true ∷ a) (true ∷ b) = bools_eq a b
bools_eq (false ∷ a) (false ∷ b) = bools_eq a b
bools_eq _ _ = false

pub bools_eq_sound : (a b : List Bool) → bools_eq a b ≡ true → a ≡ b
bools_eq_sound [] [] h = refl
bools_eq_sound (true ∷ a) (true ∷ b) h = ap (◌∷◌ true) (bools_eq_sound a b h)
bools_eq_sound (false ∷ a) (false ∷ b) h = ap (◌∷◌ false) (bools_eq_sound a b h)
bools_eq_sound (true ∷ a) (false ∷ b) h = cc
bools_eq_sound (false ∷ a) (true ∷ b) h = cc
bools_eq_sound [] (x ∷ b) h = cc
bools_eq_sound (true ∷ a) [] h = cc
bools_eq_sound (false ∷ a) [] h = cc

pub ltb_sound : (a b : ℕ) → ltb a b ≡ true → a < b
ltb_sound a b h = ground arith

-- What setBit stores into the byte.
abbrev put : ℕ → ℕ → Bool → ℕ
put x j one = if one then bit_or x (2 ^ (7 - j)) else bit_and x (bit_xor (2 ^ (7 - j)) 255)

abbrev put_ok : Bool → ℕ → ℕ → Bool
put_ok one j x =
    bools_eq (byte_bits (put x j one) []) (set (byte_bits x []) j one) && ltb (put x j one) 256

put_table : (one : Bool) → all_below 8 (λ j. all_below 256 (put_ok one j)) ≡ true
unfolding all_below
put_table true = refl
put_table false = refl

put_lem :
    (x j : ℕ) (one : Bool)
    → IsByte x
    → j < 8
    → (byte_bits (put x j one) [] ≡ set (byte_bits x []) j one) × IsByte (put x j one)
put_lem x j one hx hj =
    let row = all_below_sound 8 (λ j. all_below 256 (put_ok one j)) j (put_table one) hj in
    let entry = all_below_sound 256 (put_ok one j) x row hx in
    (bools_eq_sound _ _ (and_left _ _ entry), ltb_sound (put x j one) 256 (and_right _ _ entry))

set-append :
    (xs ys : List Bool) (j : ℕ) (v : Bool) → j < length xs → set (xs ++ ys) j v ≡ set xs j v ++ ys
set-append [] ys j v h = absurd (omega arith)
set-append (x ∷ xs) ys zero v h = refl
set-append (x ∷ xs) ys (suc j) v h = ap (◌∷◌ x) (set-append xs ys j v (omega arith))

set_byte :
    (x : ℕ) (b : Bitmap) (n : ℕ) (one : Bool)
    → IsByte x
    → n < 8
    → bits (set_bit (x ∷ b) n one) ≡ set (bits (x ∷ b)) n one
unfolding set_bit bits
set_byte x b n one hx h =
    let e : n / 8 ≡ 0 = omega arith in
    let f : n % 8 ≡ n = omega arith in
    rw (e, f)
      (ap (λ l. l ++ bits b) (put_lem x n one hx h).0
        ∙ sym (set-append (byte_bits x []) (bits b) n one h))

set_next :
    (x : ℕ) (b : Bitmap) (n : ℕ) (one : Bool) → set_bit (x ∷ b) (8 + n) one ≡ x ∷ set_bit b n one
unfolding set_bit
set_next x b n one =
    let e : (8 + n) / 8 ≡ suc (n / 8) = omega arith in
    let f : (8 + n) % 8 ≡ n % 8 = omega arith in rw (e, f)

set_nil : (n : ℕ) (one : Bool) → set_bit [] n one ≡ []
unfolding set_bit
set_nil n one = refl

-- setBit writes the list of bits.
pub bits-set_bit :
    (b : Bitmap) (n : ℕ) (one : Bool) → All IsByte b → bits (set_bit b n one) ≡ set (bits b) n one
unfolding bits
bits-set_bit [] n one h = ap bits (set_nil n one)
bits-set_bit (x ∷ b) zero one h = set_byte x b 0 one h.0 (omega arith)
bits-set_bit (x ∷ b) (suc (suc (suc (suc (suc (suc (suc (suc n)))))))) one h =
    ap (λ m. bits (set_bit (x ∷ b) m one)) (eight n)
    ∙ ap bits (set_next x b n one)
    ∙ ap (byte_bits x) (bits-set_bit b n one h.1)
bits-set_bit (x ∷ b) n one h = set_byte x b n one h.0 (omega arith)

pub set_bit-All : (b : Bitmap) (n : ℕ) (one : Bool) → All IsByte b → All IsByte (set_bit b n one)
unfolding set_bit
set_bit-All b n one h = write-All b (n / 8) one h
  where
    write-All :
        (b : Bitmap) (i : ℕ) (one : Bool)
        → All IsByte b
        → All IsByte (set b i (put (get_or b i 0) (n % 8) one))
    write-All [] i one h = tt
    write-All (x ∷ b) zero one h = ((put_lem x (n % 8) one h.0 (omega arith)).1, h.1)
    write-All (x ∷ b) (suc i) one h = (h.0, write-All b i one h.1)

pub length-set_bit : (b : Bitmap) (n : ℕ) (one : Bool) → length (set_bit b n one) ≡ length b
unfolding set_bit
length-set_bit b n one = length-set b (n / 8) _
