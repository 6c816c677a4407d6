-- ===== src/Tests/Bitmaps.antt =====
-- dht/bits/bitmap.go: runs on small numbers, and the theorems on them.
use lbry_go.Prelude.{
  ℕ, ◌+◌, ◌<◌, ◌≤◌, ◌≡◌, refl, ◌⊎◌, List, [], ◌∷◌, ◌++◌, replicate, some, arith, ok, panic,
  out_of_fuel,
}
use lbry_go.Bitmap.{Bitmap, IsBitmap, get_bit, set_bit, add, add_with_carry, add_loop}
use lbry_go.Bitmap.Value.{value}
use lbry_go.Bitmap.Sum.{modulus, add_cases}
use lbry_go.Bitmap.Difference.{sub_cases}
use lbry_go.Bitmap.Hex.{
  sub, hex, hex_simplified, encode, hex_digit, from_hex_char, trim_zeros, decode, from_bytes,
  from_hex,
}
use lbry_go.Bitmap.Text.{hex_value}
use lbry_go.Bitmap.Window.{prefix_len, prefix_len_loop}
use lbry_go.Bitmap.Select.{closest, rand_in_range_p, closest-last, rand_in_range_p-out_of_fuel}
use lbry_go.Tests.{small, small_lem}

good : (k : ℕ) → k < 256 → IsBitmap (small k)
good k h = (small_lem k h).0

number : (k : ℕ) → k < 256 → value (small k) ≡ k
number k h = (small_lem k h).1

five_and_nine : add (small 5) (small 9) ≡ ok (small 14)
unfolding add add_with_carry add_loop get_bit set_bit
five_and_nine = refl

prefix_len_five : prefix_len (small 5) ≡ 381
unfolding prefix_len prefix_len_loop
prefix_len_five = refl

simplified_ten : hex_simplified (small 10) ≡ b'a' ∷ []
unfolding hex_simplified hex encode hex_digit trim_zeros
simplified_ten = refl

add_cases_example :
    ((value (small 5) + value (small 9) < modulus)
      × ((r : Bitmap) × (add (small 5) (small 9) ≡ ok r)
          × IsBitmap r
          × (value r ≡ value (small 5) + value (small 9))))
    ⊎ ((modulus ≤ value (small 5) + value (small 9))
        × (add (small 5) (small 9) ≡ panic "overflow in bitmap addition. limited to 384 bits."))
add_cases_example = add_cases (small 5) (small 9) (good 5 (omega arith)) (good 9 (omega arith))

sub_cases_example :
    ((value (small 9) < value (small 5))
      × (sub (small 9) (small 5) ≡ panic "negative bitmaps not supported"))
    ⊎ ((value (small 5) ≤ value (small 9))
        × ((r : Bitmap) × (sub (small 9) (small 5) ≡ ok r)
            × IsBitmap r
            × (value r + value (small 5) ≡ value (small 9))))
sub_cases_example = sub_cases (small 9) (small 5) (good 9 (omega arith)) (good 5 (omega arith))

-- "AB", in the last two of 96 digits.
abbrev upper : List ℕ
upper = replicate 94 b'0' ++ b'A' ∷ b'B' ∷ []

read_upper : from_hex upper ≡ ok (small 171)
unfolding from_hex decode from_hex_char from_bytes
read_upper = refl

ff : hex_value 0 (b'f' ∷ b'F' ∷ []) ≡ some 255
unfolding hex_value from_hex_char
ff = refl

closest-last_example : closest (small 1) ((small 1 ∷ []) ++ small 200 ∷ []) ≡ ok (small 200)
closest-last_example = closest-last (small 1) (small 1 ∷ []) (small 200)

rand_in_range_p-out_of_fuel_example :
    rand_in_range_p 1000 (small 10) (small 10) (small 3) ≡ out_of_fuel
rand_in_range_p-out_of_fuel_example =
    rand_in_range_p-out_of_fuel 1000 (small 10) (small 3) (good 10 (omega arith))
      (good 3 (omega arith)) (omega (arith, number 3 (omega arith)))
