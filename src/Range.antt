-- ===== src/Range.antt =====
-- dht/bits/range.go: ranges of identifiers. A negative interval number or count is refused by the
-- same guard as 0, and is left out.
pub mod Interval
pub mod Halves
use lbry_go.Prelude.{
  ℕ, ◌+◌, ◌-◌, ◌*◌, ◌<◌, ◌≤◌, ◌≡◌, Bool, not, ◌&&◌, ◌||◌, ltb, leb, if◌then◌else◌, Run, ok, err,
  panic, out_of_fuel, ◌>>=◌,
}
use lbry_go.Prelude.Int.{ℤ, pos, ◌+ℤ◌, ◌-ℤ◌, ◌*ℤ◌, div_ℤ, mod_ℤ}
use lbry_go.Bitmap.{Bitmap, IsBitmap, cmp, is_less, zeros}
use lbry_go.Bitmap.Value.{value}
use lbry_go.Bitmap.Select.{is_more}
use lbry_go.Bitmap.Hex.{max_p}
use lbry_go.Bitmap.Big.{big, from_big_p}

pub record Range : Type 0 where
  pub start : Bitmap
  pub end : Bitmap

unfoldable pub max_range : Run Range
max_range = do end ← max_p; ok (record { start = zeros; end = end })

unfoldable pub interval_start : Range → ℕ → ℕ → ℤ
interval_start r n num =
    let delta = big r.end -ℤ big r.start in
    let size = div_ℤ delta num in
    let rem = mod_ℤ delta num in big r.start +ℤ (size *ℤ (n - 1)) +ℤ mod_ℤ (rem *ℤ (n - 1)) num

-- `Range{FromBigP(start), FromBigP(end)}`
unfoldable pub range_from : ℤ → ℤ → Run Range
range_from start end = do
  s ← from_big_p start
  e ← from_big_p end
  ok (record { start = s; end = e })

unfoldable pub interval_p : Range → ℕ → ℕ → Run Range
interval_p r n num = if ltb num 1 || ltb n 1 || ltb num n then panic "invalid interval" else do
  let start = interval_start r n num
  let end = if ltb n num then interval_start r (n + 1) num -ℤ pos 1 else big r.end
  range_from start end

unfoldable pub interval_size : Range → ℤ
interval_size r = big r.end -ℤ big r.start

unfoldable pub contains : Range → Bitmap → Bool
contains r b = not (is_more (cmp r.start b)) && not (is_less (cmp r.end b))

-- The two ends are bitmaps, in order.
pub record IsRange (r : Range) : Type 0 where
  pub start_good : IsBitmap r.start
  pub end_good : IsBitmap r.end
  pub ordered : value r.start ≤ value r.end

-- `b` lies between the ends, as a number.
pub record Within (r : Range) (b : Bitmap) : Type 0 where
  pub above : value r.start ≤ value b
  pub below : value b ≤ value r.end
