-- ===== src/Bitmap/Hex.antt =====
-- dht/bits/bitmap.go: hexadecimal text. A string is the list of its bytes; `encode` and `decode` are
-- hex.EncodeToString and hex.DecodeString of Go's encoding/hex.
use lbry_go.Prelude.{
  ℕ, ◌+◌, ◌-◌, ◌*◌, ◌/◌, ◌%◌, ◌&&◌, List, [], ◌∷◌, ◌++◌, length, take, replicate, ltb, leb, ◌==◌,
  if◌then◌else◌, Run, ok, err, panic, ◌>>=◌, must, Option, none, some,
}
use lbry_go.Bitmap.{Bitmap, num_bytes, cmp, is_less, complement, add_with_carry}

-- One digit of EncodeToString, "0123456789abcdef"[d].
unfoldable pub hex_digit : ℕ → ℕ
hex_digit d = if ltb d 10 then b'0' + d else b'a' + (d - 10)

-- fromHexChar.
unfoldable pub from_hex_char : ℕ → Option ℕ
from_hex_char c =
    if leb b'0' c && leb c b'9'
    then some (c - b'0')
    else if leb b'a' c && leb c b'f'
    then some (c - b'a' + 10)
    else if leb b'A' c && leb c b'F'
    then some (c - b'A' + 10)
    else none

unfoldable pub encode : List ℕ → List ℕ
encode [] = []
encode (x ∷ b) = hex_digit (x / 16) ∷ hex_digit (x % 16) ∷ encode b

unfoldable pub decode : List ℕ → Run (List ℕ)
decode [] = ok []
decode (c ∷ []) = elim (from_hex_char c) [
  | none ↦ err "encoding/hex: invalid byte"
  | some _ ↦ err "encoding/hex: odd length hex string"
]
decode (c ∷ d ∷ s) = elim (from_hex_char c) [
  | none ↦ err "encoding/hex: invalid byte"
  | some hi ↦ elim (from_hex_char d) [
    | none ↦ err "encoding/hex: invalid byte"
    | some lo ↦ decode s >>= λ rest. ok ((hi * 16 + lo) ∷ rest)
  ]
]

unfoldable pub hex : Bitmap → List ℕ
hex b = encode b

-- HexShort: the first 4 bytes.
unfoldable pub hex_short : Bitmap → List ℕ
hex_short b = encode (take 4 b)

-- strings.TrimLeft(s, "0").
unfoldable pub trim_zeros : List ℕ → List ℕ
trim_zeros [] = []
trim_zeros (c ∷ s) = if c == b'0' then trim_zeros s else c ∷ s

unfoldable pub hex_simplified : Bitmap → List ℕ
hex_simplified b = elim (trim_zeros (hex b)) [ [] ↦ b'0' ∷ [] | c ∷ s ↦ c ∷ s ]

-- FromBytes copies the bytes of a slice of the right length.
unfoldable pub from_bytes : List ℕ → Run Bitmap
from_bytes b = if length b == num_bytes then ok b else err "invalid bitmap length"

unfoldable pub from_bytes_p : List ℕ → Run Bitmap
from_bytes_p b = must (from_bytes b)

-- FromString: the bytes of a Go string are its model.
unfoldable pub from_string : List ℕ → Run Bitmap
from_string s = from_bytes s

unfoldable pub from_string_p : List ℕ → Run Bitmap
from_string_p s = must (from_string s)

unfoldable pub from_hex : List ℕ → Run Bitmap
from_hex s = decode s >>= from_bytes

unfoldable pub from_hex_p : List ℕ → Run Bitmap
from_hex_p s = must (from_hex s)

-- strings.Repeat panics on a negative count.
unfoldable pub from_short_hex : List ℕ → Run Bitmap
from_short_hex s =
    if leb (length s) (num_bytes * 2)
    then from_hex (replicate (num_bytes * 2 - length s) b'0' ++ s)
    else panic "strings: negative Repeat count"

unfoldable pub from_short_hex_p : List ℕ → Run Bitmap
from_short_hex_p s = must (from_short_hex s)

unfoldable pub max_p : Run Bitmap
max_p = from_hex_p (replicate (num_bytes * 2) b'f')

unfoldable pub sub : Bitmap → Bitmap → Run Bitmap
sub b other = if is_less (cmp b other) then panic "negative bitmaps not supported" else do
  one ← from_short_hex_p (b'1' ∷ [])
  let (negated, _) = add_with_carry (complement other) one
  let (ret, _) = add_with_carry b negated
  ok ret
