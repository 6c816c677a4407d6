-- ===== src/Tests/Ranges.antt =====
-- dht/bits/range.go: the theorems on sample ranges.
use lbry_go.Prelude.{◌≡◌, ◌<◌, ◌≤◌, ◌-◌, ◌*◌, ok, arith}
use lbry_go.Bitmap.Value.{value}
use lbry_go.Range.{Range, interval_p}
use lbry_go.Range.Interval.{Adjacent, interval_p-Adjacent}
use lbry_go.Range.Halves.{Halved, interval_p-Halved}
use lbry_go.Tests.{whole, whole-IsRange}

wide : value whole.start < value whole.end
unfolding value
wide = omega arith

interval_p-Halved_example :
    (l : Range) × (u : Range) × (interval_p whole 1 2 ≡ ok l)
    × (interval_p whole 2 2 ≡ ok u)
    × Halved whole l u
interval_p-Halved_example = interval_p-Halved whole whole-IsRange wide

steps : 7 * 7 ≤ value whole.end - value whole.start
unfolding value
steps = omega arith

interval_p-Adjacent_example : (a : Range) × (b : Range) × Adjacent whole 3 7 a b
interval_p-Adjacent_example =
    interval_p-Adjacent whole 3 7 whole-IsRange (omega arith) (omega arith) steps
