-- ===== src/Bitmap.antt =====
-- dht/bits/bitmap.go: the 384-bit identifiers of the DHT. A Bitmap is its list of bytes, most
-- significant first; `IsBitmap` states the array's length and the range of a byte. A loop over the
-- bits runs over the index n = i * 8 + j of byte i and bit j. A negative bit index is left out.
pub mod Bytes
pub mod Value
pub mod Order
pub mod Distance
pub mod Window
pub mod Hex
pub mod Difference
pub mod Select
pub mod Text
pub mod Big
pub mod Sum
use Prim.Native.String.{String}
use lbry_go.Prelude.{
  ℕ, zero, suc, ◌+◌, ◌-◌, ◌*◌, ◌/◌, ◌%◌, ◌^◌, ◌<◌, ◌≡◌, bit_and, bit_or, bit_xor, Bool, true, false,
  not, ◌&&◌, ◌||◌, List, [], ◌∷◌, ◌++◌, length, get_or, set, replicate, All, Run, ok, err, panic,
  out_of_fuel, ◌>>=◌, must, ltb, leb, ◌==◌, differ, if◌then◌else◌,
}

abbrev pub num_bytes : ℕ
num_bytes = 48

abbrev pub num_bits : ℕ
num_bits = num_bytes * 8

abbrev pub Bitmap : Type 0
Bitmap = List ℕ

abbrev pub IsByte : ℕ → Type 0
IsByte x = x < 256

-- What the Go type guarantees of a value.
abbrev pub IsBitmap : Bitmap → Type 0
IsBitmap b = (length b ≡ num_bytes) × All IsByte b

-- The result of Cmp: -1, 0 and 1.
pub data Sign : Type 0 where
  less same more : Sign

abbrev pub is_less : Sign → Bool
is_less less = true
is_less _ = false

abbrev pub is_same : Sign → Bool
is_same same = true
is_same _ = false

unfoldable pub cmp : Bitmap → Bitmap → Sign
cmp [] other = same
cmp (x ∷ b) [] = same
cmp (x ∷ b) (y ∷ other) = if ltb x y then less else if ltb y x then more else cmp b other

unfoldable pub equals : Bitmap → Bitmap → Bool
unfolding cmp
equals b other = is_same (cmp b other)

unfoldable pub xor : Bitmap → Bitmap → Bitmap
xor [] other = []
xor (x ∷ b) [] = []
xor (x ∷ b) (y ∷ other) = bit_xor x y ∷ xor b other

unfoldable pub closer : Bitmap → Bitmap → Bitmap → Bool
unfolding cmp xor
closer b x y = is_less (cmp (xor x b) (xor y b))

unfoldable pub and : Bitmap → Bitmap → Bitmap
and [] other = []
and (x ∷ b) [] = []
and (x ∷ b) (y ∷ other) = bit_and x y ∷ and b other

unfoldable pub or : Bitmap → Bitmap → Bitmap
or [] other = []
or (x ∷ b) [] = []
or (x ∷ b) (y ∷ other) = bit_or x y ∷ or b other

-- `^x` on a byte.
unfoldable pub complement : Bitmap → Bitmap
complement [] = []
complement (x ∷ b) = bit_xor x 255 ∷ complement b

unfoldable pub get_bit : Bitmap → ℕ → Bool
get_bit b n = let i = n / 8 in let j = n % 8 in ltb 0 (bit_and (get_or b i 0) (2 ^ (7 - j)))

unfoldable pub set_bit : Bitmap → ℕ → Bool → Bitmap
set_bit b n one =
    let i = n / 8 in
    let j = n % 8 in
    let x = get_or b i 0 in
    set b i (if one then bit_or x (2 ^ (7 - j)) else bit_and x (bit_xor (2 ^ (7 - j)) 255))

-- The exported accessors: an index past the array panics.
unfoldable pub get : Bitmap → ℕ → Run Bool
unfolding get_bit
get b n = if ltb n num_bits then ok (get_bit b n) else panic "index out of range"

unfoldable pub set_at : Bitmap → ℕ → Bool → Run Bitmap
unfolding set_bit
set_at b n one = if ltb n num_bits then ok (set_bit b n one) else panic "index out of range"

-- The loop of add, with the bits below `i` left to do.
unfoldable pub add_loop : ℕ → Bitmap → Bitmap → Bitmap → Bool → Bitmap × Bool
unfolding get_bit set_bit
add_loop zero b other ret carry = (ret, carry)
add_loop (suc i) b other ret carry =
    let b_bit = get_bit b i in
    let o_bit = get_bit other i in
    add_loop i b other (set_bit ret i (differ (differ b_bit o_bit) carry))
      ((b_bit && o_bit) || (b_bit && carry) || (o_bit && carry))

abbrev pub zeros : Bitmap
zeros = replicate num_bytes 0

unfoldable pub add_with_carry : Bitmap → Bitmap → Bitmap × Bool
unfolding add_loop
add_with_carry b other = add_loop num_bits b other zeros false

unfoldable pub add : Bitmap → Bitmap → Run Bitmap
unfolding add_with_carry
add b other =
    let (ret, carry) = add_with_carry b other in
    if carry then panic "overflow in bitmap addition. limited to 384 bits." else ok ret
