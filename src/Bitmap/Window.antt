-- ===== src/Bitmap/Window.antt =====
-- dht/bits/bitmap.go, Prefix, Suffix and PrefixLen. The nested loops over byte i and bit j are one
-- loop over k = i * 8 + j, and `break Outer` leaves it.
use lbry_go.Prelude.{
  ℕ, zero, suc, ◌+◌, ◌-◌, ◌*◌, ◌/◌, ◌%◌, ◌^◌, ◌<◌, ◌≤◌, ◌≡◌, refl, ap, sym, ◌∙◌, bit_and, Bool,
  true, false, not, ◌&&◌, [], ◌∷◌, length, get_or, All, arith, ltb, leb, ◌==◌, ==_iff,
  if◌then◌else◌, Bool-cases, inl, inr, get_or-set_self, get_or-set_ne, all_below, all_below_sound,
}
use lbry_go.Bitmap.{Bitmap, IsByte, IsBitmap, num_bits, get_bit, set_bit}
use lbry_go.Bitmap.Bytes.{
  bit, bits, length-bits, get_bit-bits, bits-set_bit, set_bit-All, length-set_bit,
}

unfoldable pub prefix_loop : ℕ → ℕ → ℕ → Bool → Bitmap → Bitmap
prefix_loop zero k n one ret = ret
prefix_loop (suc left) k n one ret =
    let rest = prefix_loop left (suc k) n one (set_bit ret k one) in if ltb k n then rest else ret

unfoldable pub prefix : Bitmap → ℕ → Bool → Bitmap
unfolding prefix_loop
prefix b n one = prefix_loop num_bits 0 n one b

-- The bits below `k` are left to visit, the last one first. A negative bound NumBits - n, which
-- every index meets, is 0 here.
unfoldable pub suffix_loop : ℕ → ℕ → Bool → Bitmap → Bitmap
suffix_loop zero n one ret = ret
suffix_loop (suc k) n one ret =
    let rest = suffix_loop k n one (set_bit ret k one) in if leb (num_bits - n) k then rest else ret

unfoldable pub suffix : Bitmap → ℕ → Bool → Bitmap
unfolding suffix_loop
suffix b n one = suffix_loop num_bits n one b

-- `(b[i]>>uint8(7-j))&0x1 != 0`
abbrev pub is_set : Bitmap → ℕ → Bool
is_set b k = not (bit_and (get_or b (k / 8) 0 / 2 ^ (7 - k % 8)) 1 == 0)

unfoldable pub prefix_len_loop : ℕ → ℕ → Bitmap → ℕ
prefix_len_loop zero k b = num_bits
prefix_len_loop (suc left) k b =
    let rest = prefix_len_loop left (suc k) b in if is_set b k then k else rest

unfoldable pub prefix_len : Bitmap → ℕ
unfolding prefix_len_loop
prefix_len b = prefix_len_loop num_bits 0 b

pub get_bit-set_bit :
    (b : Bitmap) (k i : ℕ) (one : Bool)
    → All IsByte b
    → k < 8 * length b
    → get_bit (set_bit b k one) i ≡ (if k == i then one else get_bit b i)
get_bit-set_bit b k i one h lt =
    get_bit-bits (set_bit b k one) i
    ∙ ap (λ l. get_or l i false) (bits-set_bit b k one h)
    ∙ ground (
      arith,
      get_bit-bits b i,
      get_or-set_self (bits b) k one false (omega (arith, length-bits b)),
      get_or-set_ne (bits b) k i one false,
    )

prefix_loop_lem :
    (left k n : ℕ) (one : Bool) (b : Bitmap)
    → k + left ≡ num_bits
    → IsBitmap b
    → IsBitmap (prefix_loop left k n one b)
      × ((i : ℕ)
          → i < num_bits
          → get_bit (prefix_loop left k n one b) i
            ≡ (if leb k i && ltb i n then one else get_bit b i))
unfolding prefix_loop
prefix_loop_lem zero k n one b e h = (h, λ i lt. ground arith)
prefix_loop_lem (suc left) k n one b e h = elim (Bool-cases (ltb k n)) [
  | inr stop ↦ rw stop (h, λ i lt. ground arith)
  | inl go ↦
      let h' : IsBitmap (set_bit b k one) =
        (length-set_bit b k one ∙ h.0, set_bit-All b k one h.1) in
      let (good, bits_of) = prefix_loop_lem left (suc k) n one (set_bit b k one) (omega arith) h' in
      rw go
        (good, λ i lt. bits_of i lt ∙ ground (arith, get_bit-set_bit b k i one h.1 (omega arith)))
]

from_start : (i n : ℕ) → (leb 0 i && ltb i n) ≡ ltb i n
from_start i n = ground arith

to_end : (i n : ℕ) → i < num_bits → (ltb i num_bits && leb (num_bits - n) i) ≡ leb num_bits (i + n)
to_end i n h = ground arith

-- Prefix sets exactly the first n bits, and leaves the others: each of the 384 bits of the result is
-- the given one there, and that of the bitmap elsewhere.
pub get_bit-prefix :
    (b : Bitmap) (n i : ℕ) (one : Bool)
    → IsBitmap b
    → i < num_bits
    → IsBitmap (prefix b n one)
      × (get_bit (prefix b n one) i ≡ (if ltb i n then one else get_bit b i))
unfolding prefix
get_bit-prefix b n i one h lt =
    let (good, bits_of) = prefix_loop_lem num_bits 0 n one b refl h in
    (good, bits_of i lt ∙ ap (λ t. if t then one else get_bit b i) (from_start i n))

suffix_loop_lem :
    (k n : ℕ) (one : Bool) (b : Bitmap)
    → k ≤ num_bits
    → IsBitmap b
    → IsBitmap (suffix_loop k n one b)
      × ((i : ℕ)
          → i < num_bits
          → get_bit (suffix_loop k n one b) i
            ≡ (if ltb i k && leb (num_bits - n) i then one else get_bit b i))
unfolding suffix_loop
suffix_loop_lem zero n one b e h = (h, λ i lt. ground arith)
suffix_loop_lem (suc k) n one b e h = elim (Bool-cases (leb (num_bits - n) k)) [
  | inr stop ↦ rw stop (h, λ i lt. ground arith)
  | inl go ↦
      let h' : IsBitmap (set_bit b k one) =
        (length-set_bit b k one ∙ h.0, set_bit-All b k one h.1) in
      let (good, bits_of) = suffix_loop_lem k n one (set_bit b k one) (omega arith) h' in
      rw go
        (good, λ i lt. bits_of i lt ∙ ground (arith, get_bit-set_bit b k i one h.1 (omega arith)))
]

-- Suffix sets exactly the last n bits, and leaves the others: each of the 384 bits of the result is
-- the given one there, and that of the bitmap elsewhere.
pub get_bit-suffix :
    (b : Bitmap) (n i : ℕ) (one : Bool)
    → IsBitmap b
    → i < num_bits
    → IsBitmap (suffix b n one)
      × (get_bit (suffix b n one) i ≡ (if leb num_bits (i + n) then one else get_bit b i))
unfolding suffix
get_bit-suffix b n i one h lt =
    let (good, bits_of) = suffix_loop_lem num_bits n one b (omega arith) h in
    (good, bits_of i lt ∙ ap (λ t. if t then one else get_bit b i) (to_end i n lt))

abbrev shift_ok : ℕ → ℕ → Bool
shift_ok j x =
    if bit x (7 - j)
    then not (bit_and (x / 2 ^ (7 - j)) 1 == 0)
    else bit_and (x / 2 ^ (7 - j)) 1 == 0

shift_table : all_below 8 (λ j. all_below 256 (shift_ok j)) ≡ true
unfolding all_below
shift_table = refl

shift_lem : (x j : ℕ) → IsByte x → j < 8 → not (bit_and (x / 2 ^ (7 - j)) 1 == 0) ≡ bit x (7 - j)
shift_lem x j h lt =
    let entry =
      all_below_sound 256 (shift_ok j) x
        (all_below_sound 8 (λ j. all_below 256 (shift_ok j)) j shift_table lt) h in
    same_test (bit x (7 - j)) (bit_and (x / 2 ^ (7 - j)) 1 == 0) entry
  where
    same_test : (a b : Bool) → (if a then not b else b) ≡ true → not b ≡ a
    same_test true true e = e
    same_test true false e = refl
    same_test false true e = refl
    same_test false false e = cc

get_or-IsByte : (b : Bitmap) (i : ℕ) → All IsByte b → IsByte (get_or b i 0)
get_or-IsByte [] i h = omega arith
get_or-IsByte (x ∷ b) zero h = h.0
get_or-IsByte (x ∷ b) (suc i) h = get_or-IsByte b i h.1

is_set-get_bit : (b : Bitmap) (k : ℕ) → All IsByte b → is_set b k ≡ get_bit b k
unfolding get_bit
is_set-get_bit b k h =
    shift_lem (get_or b (k / 8) 0) (k % 8) (get_or-IsByte b (k / 8) h) (omega arith)

-- `p` is the place of the first bit that is set, counted from `k`, or the number of bits.
pub record Leading (b : Bitmap) (k p : ℕ) : Type 0 where
  pub bounded : p ≤ num_bits
  pub clear : (i : ℕ) → k ≤ i → i < p → get_bit b i ≡ false
  pub first : p < num_bits → get_bit b p ≡ true

prefix_len_loop_lem :
    (left k : ℕ) (b : Bitmap)
    → k + left ≡ num_bits
    → All IsByte b
    → Leading b k (prefix_len_loop left k b)
unfolding prefix_len_loop
prefix_len_loop_lem zero k b e h = record {
  bounded = omega arith;
  clear = λ i p q. absurd (omega arith);
  first = λ p. absurd (omega arith);
}
prefix_len_loop_lem (suc left) k b e h = elim (Bool-cases (is_set b k)) [
  | inl one ↦ rw one (record {
    bounded = omega arith;
    clear = λ i p q. absurd (omega arith);
    first = λ _. sym (is_set-get_bit b k h) ∙ one;
  })
  | inr none_here ↦
      let ih = prefix_len_loop_lem left (suc k) b (omega arith) h in
      rw none_here (record {
        bounded = ih.bounded;
        clear = λ i p q. here_or_later ih.clear i p q none_here;
        first = ih.first;
      })
]
  where
    here_or_later :
        {p : ℕ}
        → ((i : ℕ) → suc k ≤ i → i < p → get_bit b i ≡ false)
        → (i : ℕ) → k ≤ i
        → i < p
        → is_set b k ≡ false
        → get_bit b i ≡ false
    here_or_later later i p q clear = elim (Bool-cases (i == k)) [
      | inl here ↦ rw ((==_iff i k).0 here) (sym (is_set-get_bit b k h) ∙ clear)
      | inr past ↦ later i (ground arith) q
    ]

-- PrefixLen counts the leading zero bits: all bits before it are 0, and the bit at it, if there is
-- one, is 1.
pub prefix_len-Leading : (b : Bitmap) → IsBitmap b → Leading b 0 (prefix_len b)
unfolding prefix_len
prefix_len-Leading b h = prefix_len_loop_lem num_bits 0 b refl h.1
