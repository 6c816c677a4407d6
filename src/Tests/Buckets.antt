-- ===== src/Tests/Buckets.antt =====
-- dht/routing_table.go, buckets: runs and the theorems on a bucket of two peers.
use lbry_go.Prelude.{◌≡◌, ◌<◌, refl, true, false, [], ◌∷◌, ok, err, ◌⊎◌, arith}
use lbry_go.Bitmap.{xor, cmp, equals}
use lbry_go.Bitmap.Value.{value}
use lbry_go.Range.{contains}
use lbry_go.Bucket.{
  Bucket, IsBucket, touch, find_from, find, modify, shift_loop, move_to_back, update_peer, split,
}
use lbry_go.Bucket.Changes.{Updated, update_peer_cases}
use lbry_go.Bucket.Invariant.{update_peer-IsBucket}
use lbry_go.Bucket.Total.{Parted, split_fuel, split-Parted}
use lbry_go.Tests.{small, small_lem, self, peer, pair, pair-IsBucket}

refresh_first :
    update_peer 9 pair (peer 2 3 0) false
    ≡ ok (record pair { last_update = 9; peers = peer 6 7 1 ∷ touch 9 (peer 2 3 0) ∷ [] })
unfolding update_peer contains cmp find find_from equals modify move_to_back shift_loop touch
refresh_first = refl

-- An identifier at a true distance that the range covers.
covered : contains pair.range (small 5) ≡ true
unfolding contains cmp
covered = refl

measured : small 5 ≡ xor self (small 4)
unfolding xor
measured = refl

update_peer-IsBucket_example :
    (b' : Bucket) × (update_peer 9 pair (peer 4 5 0) true ≡ ok b')
    × IsBucket self b'
    × (b'.range ≡ pair.range)
update_peer-IsBucket_example =
    update_peer-IsBucket 9 self pair (peer 4 5 0) true (small_lem 1 (omega arith)).0 pair-IsBucket
      (small_lem 4 (omega arith)).0 measured covered

update_peer_cases_example :
    ((contains pair.range (small 5) ≡ true)
      × ((b' : Bucket) × (update_peer 9 pair (peer 4 5 0) true ≡ ok b')
          × Updated 9 pair (peer 4 5 0) true b'))
    ⊎ ((contains pair.range (small 5) ≡ false)
        × (update_peer 9 pair (peer 4 5 0) true ≡ err "this bucket range does not cover this peer"))
update_peer_cases_example =
    update_peer_cases 9 self pair (peer 4 5 0) true pair-IsBucket (small_lem 4 (omega arith)).0

wide : value pair.range.start < value pair.range.end
unfolding value
wide = omega arith

split-Parted_example :
    (l : Bucket) × (r : Bucket) × (split split_fuel pair ≡ ok (l, r)) × Parted self pair l r
split-Parted_example = split-Parted self pair (small_lem 1 (omega arith)).0 pair-IsBucket wide
