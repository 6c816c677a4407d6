-- ===== src/Tests/Tables.antt =====
-- dht/routing_table.go, the table: runs and the theorems on a table of two contacts.
use lbry_go.Prelude.{◌≡◌, ◌≢◌, refl, false, List, [], ◌∷◌, ◌++◌, length, ok, panic, ◌⊎◌, arith}
use lbry_go.Bitmap.{xor, cmp}
use lbry_go.Contact.{Contact, nearer, insert, sort_by_distance}
use lbry_go.Bucket.{Bucket, contacts, fail_contact}
use lbry_go.Bucket.Changes.{Updated}
use lbry_go.Bucket.Invariant.{Failed}
use lbry_go.Table.{
  RoutingTable, IsTable, new_routing_table, all_contacts, get_closest, bucket_for, update, fresh,
  table_fail,
}
use lbry_go.Table.Closest.{Nearest, get_closest-Nearest, new_routing_table-IsTable}
use lbry_go.Table.Cover.{Covering, bucket_for_cases}
use lbry_go.Table.Updating.{Stored, newcomer, with_buckets}
use lbry_go.Table.Ends.{update-Stored, fresh-Updated, table_fail-Failed}
use lbry_go.Tests.{small, small_lem, small-ne, contact, table, table-IsTable}

nearest_one : get_closest table (small 7) 1 ≡ contact 6 ∷ []
unfolding get_closest sort_by_distance insert nearer all_contacts contacts xor cmp
nearest_one = refl

get_closest-Nearest_example :
    (others : List Contact) × Nearest table (small 7) 1 (get_closest table (small 7) 1) others
get_closest-Nearest_example =
    get_closest-Nearest table (small 7) 1 table-IsTable (small_lem 7 (omega arith)).0

new_routing_table-IsTable_example :
    (rt : RoutingTable) × (new_routing_table (small 1) ≡ ok rt)
    × IsTable rt
    × (rt.id ≡ small 1)
    × (all_contacts rt.buckets ≡ [])
new_routing_table-IsTable_example =
    new_routing_table-IsTable (small 1) (small_lem 1 (omega arith)).0

bucket_for_cases_example :
    ((table.id ≢ small 4)
      × ((before : List Bucket) × (b : Bucket) × (after : List Bucket) × Covering
            (xor (small 4) table.id)
            table.buckets
            before
            b
            after
          × (bucket_for table (small 4) ≡ ok (length before))))
    ⊎ ((table.id ≡ small 4)
        × (bucket_for table (small 4)
            ≡ panic "routing table does not have a bucket for its own id"))
bucket_for_cases_example =
    bucket_for_cases table (small 4) table-IsTable (small_lem 4 (omega arith)).0

update-Stored_example :
    (rt' : RoutingTable) × (update 9 table (contact 4) ≡ ok rt')
    × Stored 9 table (contact 4) rt'
    × IsTable rt'
update-Stored_example =
    update-Stored 9 table (contact 4) table-IsTable (small_lem 4 (omega arith)).0
      (small-ne 1 4 (omega arith))

fresh-Updated_example :
    (before : List Bucket) × (b : Bucket) × (after : List Bucket) × (b' : Bucket) × Covering
      (xor table.id (small 6))
      table.buckets
      before
      b
      after
    × Updated 9 b (newcomer table (contact 6)) false b'
    × (fresh 9 table (contact 6) ≡ ok (with_buckets table (before ++ b' ∷ after)))
    × IsTable (with_buckets table (before ++ b' ∷ after))
fresh-Updated_example =
    fresh-Updated table (contact 6) table-IsTable (small_lem 6 (omega arith)).0
      (small-ne 1 6 (omega arith)) 9

table_fail-Failed_example :
    (before : List Bucket) × (b : Bucket) × (after : List Bucket) × Covering
      (xor table.id (small 6))
      table.buckets
      before
      b
      after
    × Failed b (small 6) (fail_contact b (small 6))
    × (table_fail table (contact 6)
        ≡ ok (with_buckets table (before ++ fail_contact b (small 6) ∷ after)))
    × IsTable (with_buckets table (before ++ fail_contact b (small 6) ∷ after))
table_fail-Failed_example =
    table_fail-Failed table (contact 6) table-IsTable (small_lem 6 (omega arith)).0
      (small-ne 1 6 (omega arith))
