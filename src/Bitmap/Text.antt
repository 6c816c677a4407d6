-- ===== src/Bitmap/Text.antt =====
-- dht/bits/bitmap.go: reading back what Hex prints, and the number that a hexadecimal text shows.
use mathlib.Core.Path.{subst}
use lbry_go.Prelude.{
  ℕ, ◌+◌, ◌*◌, ◌/◌, ◌%◌, ◌<◌, ◌≡◌, refl, sym, ◌∙◌, ◌&&◌, List, [], ◌∷◌, map, length, All, arith,
  leb, if◌then◌else◌, ok, ◌>>=◌, >>=-eq-ok, Option, none, some, Option-cases, inl, inr,
}
use lbry_go.Bitmap.{Bitmap, IsByte, IsBitmap, num_bytes}
use lbry_go.Bitmap.Hex.{hex_digit, from_hex_char, encode, decode, hex, from_bytes, from_hex}

-- Text with letters in lower case.
abbrev pub to_lower : ℕ → ℕ
to_lower c = if leb b'A' c && leb c b'Z' then c + 32 else c

pub digit_back : (d : ℕ) → d < 16 → from_hex_char (hex_digit d) ≡ some d
unfolding from_hex_char hex_digit
digit_back d h = ground arith

pub char_back : (c d : ℕ) → from_hex_char c ≡ some d → (hex_digit d ≡ to_lower c) × (d < 16)
unfolding from_hex_char hex_digit
char_back c d h = ground arith

pub decode-encode : (b : List ℕ) → All IsByte b → decode (encode b) ≡ ok b
unfolding decode encode
decode-encode [] h = refl
decode-encode (x ∷ b) h =
    let e : x / 16 * 16 + x % 16 ≡ x = omega arith in
    ground (
      arith,
      e,
      digit_back (x / 16) (omega arith),
      digit_back (x % 16) (omega arith),
      decode-encode b h.1,
    )

-- FromHex reads back what Hex prints of a bitmap.
pub from_hex-hex : (b : Bitmap) → IsBitmap b → from_hex (hex b) ≡ ok b
unfolding from_hex hex from_bytes
from_hex-hex b h = rw (decode-encode b h.1, h.0)

pub decode_step :
    (c d x y : ℕ) (s : List ℕ)
    → from_hex_char c ≡ some x
    → from_hex_char d ≡ some y
    → decode (c ∷ d ∷ s) ≡ (decode s >>= λ rest. ok ((x * 16 + y) ∷ rest))
unfolding decode
decode_step c d x y s hi lo = ground arith

decode_pair :
    (c d x y : ℕ) (s b : List ℕ)
    → from_hex_char c ≡ some x
    → from_hex_char d ≡ some y
    → decode (c ∷ d ∷ s) ≡ ok b
    → (rest : List ℕ) × (decode s ≡ ok rest) × ((x * 16 + y) ∷ rest ≡ b)
decode_pair c d x y s b hi lo e =
    let (rest, er, eb) = >>=-eq-ok (decode s) _ (sym (decode_step c d x y s hi lo) ∙ e) in
    (rest, er, ground arith)

-- The text that is decoded shows the bytes, and holds only bytes.
abbrev Shows : List ℕ → List ℕ → Type 0
Shows s b = (encode b ≡ map to_lower s) × All IsByte b

Shows-pair :
    (c d x y : ℕ) (s rest : List ℕ)
    → (hex_digit x ≡ to_lower c) × (x < 16)
    → (hex_digit y ≡ to_lower d) × (y < 16)
    → Shows s rest
    → Shows (c ∷ d ∷ s) ((x * 16 + y) ∷ rest)
unfolding encode
Shows-pair c d x y s rest hx hy h =
    let e : (x * 16 + y) / 16 ≡ x = omega arith in
    let f : (x * 16 + y) % 16 ≡ y = omega arith in (rw (e, f, hx.0, hy.0, h.0), (omega arith, h.1))

decode-Shows : (s b : List ℕ) → decode s ≡ ok b → Shows s b
unfolding decode encode
decode-Shows [] b e = ground arith
decode-Shows (c ∷ []) b e = ground arith
decode-Shows (c ∷ d ∷ s) b e = elim (Option-cases (from_hex_char c)) [
  | inl bad ↦ ground arith
  | inr (x, hi) ↦ elim (Option-cases (from_hex_char d)) [
    | inl bad ↦ ground arith
    | inr (y, lo) ↦
        let (rest, er, eb) = decode_pair c d x y s b hi lo e in
        subst (Shows (c ∷ d ∷ s)) eb
          (Shows-pair c d x y s rest (char_back c x hi) (char_back d y lo) (decode-Shows s rest er))
  ]
]

-- What FromHex accepts is a bitmap, whose Hex is the text in lower case.
pub from_hex-Shows :
    (s : List ℕ) (b : Bitmap) → from_hex s ≡ ok b → IsBitmap b × (hex b ≡ map to_lower s)
unfolding from_hex from_bytes hex
from_hex-Shows s b e =
    let (b', ed, ef) = >>=-eq-ok (decode s) from_bytes e in
    let shown = decode-Shows s b' ed in
    let size : (length b' ≡ num_bytes) × (b' ≡ b) = ground arith in
    subst (λ z. IsBitmap z × (hex z ≡ map to_lower s)) size.1 ((size.0, shown.1), shown.0)

-- The number that a text of hexadecimal digits shows, after the digits read so far.
unfoldable pub hex_value : ℕ → List ℕ → Option ℕ
hex_value acc [] = some acc
hex_value acc (c ∷ s) = elim (from_hex_char c) [ none ↦ none | some d ↦ hex_value (acc * 16 + d) s ]
