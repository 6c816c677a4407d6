-- ===== src/Bitmap/Big.antt =====
-- dht/bits/bitmap.go, Big, FromBigP and the short hexadecimal texts: conversion of numbers. Text(16)
-- of Go's big.Int is `text16`.
use native.Mathlib.Nat.{pow-suc, zero-add}
use lbry_go.Prelude.{
  ℕ, zero, suc, ◌+◌, ◌-◌, ◌*◌, ◌/◌, ◌%◌, ◌^◌, ◌<◌, ◌≤◌, ◌≡◌, refl, ap, ◌∙◌, true, List, [], ◌∷◌,
  ◌++◌, length, replicate, All, arith, ltb, leb, if◌then◌else◌, Run, ok, ◌>>=◌, none, some,
  length-append, length-replicate, Option-cases, inl, inr, Bool-cases,
}
use lbry_go.Prelude.Int.{ℤ, pos, negsuc}
use lbry_go.Bitmap.{Bitmap, IsByte, IsBitmap, num_bytes}
use lbry_go.Bitmap.Value.{value}
use lbry_go.Bitmap.Sum.{modulus}
use lbry_go.Bitmap.Hex.{
  hex_digit, from_hex_char, encode, decode, hex, from_bytes, from_hex, from_short_hex,
  from_short_hex_p,
}
use lbry_go.Bitmap.Text.{hex_value, char_back, digit_back, decode_step}

-- i.SetString(b.Hex(), 16); a text that is not a number leaves the new integer at 0.
unfoldable pub big : Bitmap → ℤ
big b = elim (hex_value 0 (hex b)) [ none ↦ pos 0 | some v ↦ pos v ]

-- The digits of `n`, put before the digits `acc`.
unfoldable pub text16_loop : ℕ → ℕ → List ℕ → List ℕ
text16_loop zero n acc = acc
text16_loop (suc fuel) n acc =
    let more = text16_loop fuel (n / 16) (hex_digit (n % 16) ∷ acc) in
    if ltb n 16 then hex_digit n ∷ acc else more

unfoldable pub text16 : ℤ → List ℕ
text16 (pos n) = text16_loop (suc n) n []
text16 (negsuc n) = b'-' ∷ text16_loop (suc (suc n)) (suc n) []

unfoldable pub from_big_p : ℤ → Run Bitmap
from_big_p b = from_short_hex_p (text16 b)

hex_value_digit :
    (acc d : ℕ) (s : List ℕ) → d < 16 → hex_value acc (hex_digit d ∷ s) ≡ hex_value (acc * 16 + d) s
unfolding hex_value
hex_value_digit acc d s h = rw (digit_back d h, hex_value)

hex_value-text16_loop :
    (fuel n : ℕ) (acc : List ℕ) → n < fuel → hex_value 0 (text16_loop fuel n acc) ≡ hex_value n acc
unfolding text16_loop
hex_value-text16_loop zero n acc h = absurd (omega arith)
hex_value-text16_loop (suc fuel) n acc h = elim (Bool-cases (ltb n 16)) [
  | inl small ↦
      rw small (hex_value_digit 0 n acc (ground arith) ∙ ap (λ m. hex_value m acc) (zero-add n))
  | inr large ↦
      let e : n / 16 * 16 + n % 16 ≡ n = omega arith in
      rw large (
        hex_value-text16_loop fuel (n / 16) (hex_digit (n % 16) ∷ acc) (ground arith)
        ∙ hex_value_digit (n / 16) (n % 16) acc (omega arith)
        ∙ ap (λ m. hex_value m acc) e)
]

length-text16_loop :
    (fuel n k : ℕ) (acc : List ℕ)
    → n < 16 ^ suc k
    → length (text16_loop fuel n acc) ≤ suc k + length acc
unfolding text16_loop
length-text16_loop zero n k acc h = omega arith
length-text16_loop (suc fuel) n zero acc h = rw (small_test n (omega arith)) (omega arith)
  where
    small_test : (n : ℕ) → n < 16 → ltb n 16 ≡ true
    small_test n h = ground arith
length-text16_loop (suc fuel) n (suc k) acc h = elim (Bool-cases (ltb n 16)) [
  | inl small ↦ rw small (omega arith)
  | inr large ↦ rw large (
      omega (
        arith,
        length-text16_loop fuel (n / 16) k (hex_digit (n % 16) ∷ acc)
            (omega (arith, pow-suc 16 (suc k))),
      ))
]

hex_value-zeros : (n : ℕ) (s : List ℕ) → hex_value 0 (replicate n b'0' ++ s) ≡ hex_value 0 s
unfolding hex_value from_hex_char
hex_value-zeros zero s = refl
hex_value-zeros (suc n) s = hex_value-zeros n s

-- Big is the number that the bitmap stands for.
hex_value-encode :
    (acc : ℕ) (b : List ℕ)
    → All IsByte b
    → hex_value acc (encode b) ≡ some (acc * 256 ^ length b + value b)
unfolding encode value
hex_value-encode acc [] h = unfold hex_value in ap some (omega arith)
hex_value-encode acc (x ∷ b) h =
    hex_value_digit acc (x / 16) _ (omega arith)
    ∙ hex_value_digit (acc * 16 + x / 16) (x % 16) _ (omega arith)
    ∙ hex_value-encode ((acc * 16 + x / 16) * 16 + x % 16) b h.1
    ∙ ap some
        (regroup acc x (256 ^ length b) (256 ^ suc (length b)) (pow-suc 256 (length b)) (value b))
  where
    regroup :
        (acc x w w' : ℕ)
        → w' ≡ w * 256
        → (v : ℕ) → ((acc * 16 + x / 16) * 16 + x % 16) * w + v ≡ acc * w' + (x * w + v)
    regroup acc x w w' e v =
        let split : (acc * 16 + x / 16) * 16 + x % 16 ≡ acc * 256 + x = omega arith in
        rw (split, e) (omega arith)

-- Big of a bitmap is the number that it stands for.
pub big-value : (b : Bitmap) → IsBitmap b → big b ≡ pos (value b)
unfolding big hex
big-value b h = rw (hex_value-encode 0 b h.1, big) (ap pos (omega arith))

-- Digits of a text of even length decode to the bytes of the number that it shows.
pub record Decoded (k acc v : ℕ) (s b : List ℕ) : Type 0 where
  pub decodes : decode s ≡ ok b
  pub size : length b ≡ k
  pub bytes : All IsByte b
  pub number : v ≡ acc * 256 ^ k + value b

decode_next :
    (k acc v c d x y : ℕ) (s b : List ℕ)
    → from_hex_char c ≡ some x
    → from_hex_char d ≡ some y
    → x < 16
    → y < 16
    → Decoded k ((acc * 16 + x) * 16 + y) v s b
    → Decoded (suc k) acc v (c ∷ d ∷ s) ((x * 16 + y) ∷ b)
unfolding value
decode_next k acc v c d x y s b hi lo hx hy r = record {
  decodes =
      decode_step c d x y s hi lo ∙ ap (λ m. m >>= λ rest. ok ((x * 16 + y) ∷ rest)) r.decodes;
  size = ap suc r.size;
  bytes = (omega arith, r.bytes);
  number = omega (
    arith,
    r.number,
    pow-suc 256 k,
    ap (λ n. (x * 16 + y) * 256 ^ n) r.size,
    ap (λ t. acc * t) (pow-suc 256 k),
  );
}

decode_of_hex_value :
    (k acc v : ℕ) (s : List ℕ)
    → length s ≡ k + k
    → hex_value acc s ≡ some v
    → (b : List ℕ) × Decoded k acc v s b
unfolding hex_value decode value
decode_of_hex_value zero acc v [] e h =
    ([], record { decodes = refl; size = refl; bytes = tt; number = ground arith })
decode_of_hex_value zero acc v (c ∷ s) e h = absurd (omega arith)
decode_of_hex_value (suc k) acc v [] e h = absurd (omega arith)
decode_of_hex_value (suc k) acc v (c ∷ []) e h = absurd (omega arith)
decode_of_hex_value (suc k) acc v (c ∷ d ∷ s) e h = elim (Option-cases (from_hex_char c)) [
  | inl bad ↦ absurd (ground arith)
  | inr (x, hi) ↦ elim (Option-cases (from_hex_char d)) [
    | inl bad ↦ absurd (ground arith)
    | inr (y, lo) ↦
        let (b, r) =
          decode_of_hex_value k ((acc * 16 + x) * 16 + y) v s (omega arith) (ground arith) in
        (
          (x * 16 + y) ∷ b,
          decode_next k acc v c d x y s b hi lo (char_back c x hi).1 (char_back d y lo).1 r,
        )
  ]
]

-- FromShortHex reads a text of at most 96 hexadecimal digits as the number that it shows.
pub from_short_hex-value :
    (s : List ℕ) (v : ℕ)
    → hex_value 0 s ≡ some v
    → length s ≤ num_bytes * 2
    → (b : Bitmap) × (from_short_hex s ≡ ok b) × IsBitmap b × (value b ≡ v)
unfolding from_short_hex from_hex
from_short_hex-value s v h fits =
    let pad : List ℕ = replicate (num_bytes * 2 - length s) b'0' in
    let whole : length (pad ++ s) ≡ num_bytes + num_bytes =
      omega
        (arith, length-append pad s, length-replicate {A = ℕ} (num_bytes * 2 - length s) b'0') in
    let (b, r) =
      decode_of_hex_value num_bytes 0 v (pad ++ s) whole
        (hex_value-zeros (num_bytes * 2 - length s) s ∙ h) in
    let test : leb (length s) (num_bytes * 2) ≡ true = ground arith in
    (b, rw (test, r.decodes) (from_bytes-ok b r.size), (r.size, r.bytes), omega (arith, r.number))
  where
    from_bytes-ok : (b : Bitmap) → length b ≡ num_bytes → from_bytes b ≡ ok b
    from_bytes-ok b e = unfold from_bytes in rw e

-- FromBigP gives the bitmap of every number below 2^384.
pub from_big_p-value :
    (v : ℕ) → v < modulus → (b : Bitmap) × (from_big_p (pos v) ≡ ok b) × IsBitmap b × (value b ≡ v)
unfolding from_big_p text16 from_short_hex_p
from_big_p-value v h =
    let shows : hex_value 0 (text16_loop (suc v) v []) ≡ some v =
      hex_value-text16_loop (suc v) v [] (omega arith) ∙ hex_value-nil v in
    let (b, e, good, n) =
      from_short_hex-value _ v shows (length-text16_loop (suc v) v 95 [] (omega arith)) in
    (b, rw e, good, n)
  where
    hex_value-nil : (v : ℕ) → hex_value v [] ≡ some v
    hex_value-nil v = unfold hex_value in refl
