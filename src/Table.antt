-- ===== src/Table.antt =====
-- dht/routing_table.go, lines 200-378: the routing table. A pointer to a bucket is its place in the
-- list. Update holds the table's write lock throughout, so it is one step. crypto/rand and the clock
-- are arguments.
pub mod Cover
pub mod Updating
pub mod Storing
pub mod Ends
pub mod Closest
use Prim.Native.String.{String}
use lbry_go.Prelude.{
  ℕ, zero, suc, ◌+◌, ◌<◌, ◌≤◌, ◌≡◌, ◌≢◌, Bool, true, false, not, List, [], ◌∷◌, ◌++◌, length,
  get_elem?, set, take, drop, All, Option, none, some, ltb, leb, ◌==◌, if◌then◌else◌, Run, ok, err,
  panic, out_of_fuel, ◌>>=◌,
}
use lbry_go.Bitmap.{Bitmap, IsBitmap, equals, xor, closer, zeros}
use lbry_go.Bitmap.Value.{value}
use lbry_go.Bitmap.Sum.{modulus}
use lbry_go.Bitmap.Window.{prefix}
use lbry_go.Range.{Range, contains, max_range}
use lbry_go.Contact.{Contact, sort_by_distance}
use lbry_go.Bucket.{
  Peer, Bucket, IsBucket, new_bucket, len, has, contacts, update_peer, fail_contact, needs_refresh,
  split, bucket_size,
}
use lbry_go.Bucket.Total.{split_fuel}

pub record RoutingTable : Type 0 where
  pub id : Bitmap
  pub buckets : List Bucket

unfoldable pub reset : RoutingTable → Run RoutingTable
reset rt = do r ← max_range; ok (record rt { buckets = new_bucket r ∷ [] })

unfoldable pub new_routing_table : Bitmap → Run RoutingTable
new_routing_table id = reset (record { id = id; buckets = [] })

unfoldable pub bucket_loop : ℕ → Bitmap → List Bucket → Option ℕ
bucket_loop i distance [] = none
bucket_loop i distance (b ∷ buckets) =
    if contains b.range distance then some i else bucket_loop (suc i) distance buckets

unfoldable pub bucket_for : RoutingTable → Bitmap → Run ℕ
bucket_for rt target =
    if equals rt.id target
    then panic "routing table does not have a bucket for its own id"
    else elim (bucket_loop 0 (xor target rt.id) rt.buckets) [
      | none ↦ panic "target is not contained in any buckets"
      | some i ↦ ok i
    ]

unfoldable pub all_contacts : List Bucket → List Contact
all_contacts [] = []
all_contacts (b ∷ buckets) = contacts b ++ all_contacts buckets

-- A list is cut at `limit` only if it is longer, which `take` does.
unfoldable pub get_closest : RoutingTable → Bitmap → ℕ → List Contact
get_closest rt target limit =
    let sorted = sort_by_distance (all_contacts rt.buckets) target in
    if ltb limit (length sorted) then take limit sorted else sorted

unfoldable pub count_loop : ℕ → List Bucket → ℕ
count_loop count [] = count
count_loop count (b ∷ buckets) = count_loop (count + len b) buckets

unfoldable pub count : RoutingTable → ℕ
count rt = count_loop 0 rt.buckets

unfoldable pub table_len : RoutingTable → ℕ
table_len rt = length rt.buckets

-- `kClosest[len(kClosest)-1]`
unfoldable pub last_contact : List Contact → Run Contact
last_contact [] = panic "index out of range"
last_contact (c ∷ []) = ok c
last_contact (c ∷ d ∷ l) = last_contact (d ∷ l)

unfoldable pub should_split : RoutingTable → Bucket → Contact → Run Bool
should_split rt b c =
    if has b c
    then ok false
    else if not (leb bucket_size (len b))
    then ok false
    else if equals b.range.start zeros
    then ok true
    else do
      kth_closest ← last_contact (get_closest rt rt.id bucket_size)
      ok (closer rt.id c.id kth_closest.id)

-- What a call does to the bucket at place `i`. An error is logged, and nothing is changed.
unfoldable pub update_at : ℕ → RoutingTable → Contact → Bool → ℕ → RoutingTable
update_at now rt c insert_if_new i = elim (get_elem? rt.buckets i) [
  | none ↦ rt
  | some b ↦
      let p : Peer = record {
        contact = c;
        distance = xor rt.id c.id;
        last_activity = 0;
        num_failures = 0;
      } in
      elim (update_peer now b p insert_if_new) [
        | ok b' ↦ record rt { buckets = set rt.buckets i b' }
        | _ ↦ rt
      ]
]

-- The loop that looks for the bucket to replace, from place `i` on.
unfoldable pub start_loop : ℕ → Bitmap → List Bucket → Option ℕ
start_loop i start [] = none
start_loop i start (b ∷ buckets) =
    if equals b.range.start start then some i else start_loop (suc i) start buckets

-- Update once the bucket at a place is split: the two parts take its place, and the contact goes to
-- the one that `left.Range.Contains(c.ID)` names. Without a place to replace, the parts are not in
-- the table.
unfoldable pub update_split : ℕ → RoutingTable → Contact → Bucket → Bucket → RoutingTable
update_split now rt c left right = elim (start_loop 0 left.range.start rt.buckets) [
  | none ↦ rt
  | some i ↦
      let parted = record rt {
        buckets = take i rt.buckets ++ left ∷ right ∷ drop (suc i) rt.buckets;
      } in
      update_at now parted c true (if contains left.range c.id then i else i + 1)
]

-- Update from the bucket at place `i` on. bucketFor returns a place in the list.
unfoldable pub update_from : ℕ → RoutingTable → Contact → ℕ → Option Bucket → Run RoutingTable
update_from now rt c i none = panic "index out of range"
update_from now rt c i (some b) = do
  splits ← should_split rt b c
  if not splits
      then ok (update_at now rt c true i)
      else do (left, right) ← split split_fuel b; ok (update_split now rt c left right)

unfoldable pub update : ℕ → RoutingTable → Contact → Run RoutingTable
update now rt c = do i ← bucket_for rt c.id; update_from now rt c i (get_elem? rt.buckets i)

unfoldable pub fresh : ℕ → RoutingTable → Contact → Run RoutingTable
fresh now rt c = do i ← bucket_for rt c.id; ok (update_at now rt c false i)

unfoldable pub fail_contact_at : RoutingTable → Bitmap → ℕ → RoutingTable
fail_contact_at rt id i = elim (get_elem? rt.buckets i) [
  | none ↦ rt
  | some b ↦ record rt { buckets = set rt.buckets i (fail_contact b id) }
]

unfoldable pub table_fail : RoutingTable → Contact → Run RoutingTable
table_fail rt c = do i ← bucket_for rt c.id; ok (fail_contact_at rt c.id i)

-- GetIDsForRefresh: `rand i` is what bits.Rand returns in the round of bucket i.
unfoldable pub refresh_loop : ℕ → (ℕ → Bitmap) → ℕ → ℕ → List Bucket → List Bitmap
refresh_loop now rand refresh_interval i [] = []
refresh_loop now rand refresh_interval i (b ∷ buckets) =
    let rest = refresh_loop now rand refresh_interval (suc i) buckets in
    if needs_refresh now b refresh_interval then prefix (rand i) i false ∷ rest else rest

unfoldable pub get_ids_for_refresh : ℕ → (ℕ → Bitmap) → RoutingTable → ℕ → List Bitmap
get_ids_for_refresh now rand rt refresh_interval =
    refresh_loop now rand refresh_interval 0 rt.buckets

-- The buckets cover the numbers from `s` up, in order, without a gap or an overlap.
abbrev pub Chain : ℕ → List Bucket → Type 0
Chain s [] = s ≡ modulus
Chain s (b ∷ buckets) = (value b.range.start ≡ s) × Chain (value b.range.end + 1) buckets

-- What holds of a table between calls.
pub record IsTable (rt : RoutingTable) : Type 0 where
  pub id_good : IsBitmap rt.id
  pub buckets_good : All (IsBucket rt.id) rt.buckets
  pub covers : Chain 0 rt.buckets
