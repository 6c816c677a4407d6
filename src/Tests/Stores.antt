-- ===== src/Tests/Stores.antt =====
-- dht/store.go: runs and the theorems on a store of one announcement.
use lbry_go.Prelude.{◌≡◌, ◌&&◌, ◌||◌, refl, [], ◌∷◌, ok}
use lbry_go.Bitmap.{Bitmap}
use lbry_go.OrderedMap.{key_eq, assign}
use lbry_go.OrderedMap.Places.{elem}
use lbry_go.Store.{ContactStore, new_store, upsert, mark_hash, mark, ids_of, collect, announced}
use lbry_go.Store.Laws.{IsStore, upsert-IsStore, new_store-IsStore}
use lbry_go.Tests.{small, contact}

abbrev one : ContactStore
one = upsert new_store (small 7) (contact 2)

one-IsStore : IsStore one
one-IsStore = (upsert-IsStore new_store (small 7) (contact 2) new_store-IsStore).0

found : announced one (small 7) ≡ ok (contact 2 ∷ [])
unfolding new_store announced upsert mark_hash mark elem assign ids_of collect key_eq
found = refl

upsert-IsStore_example :
    IsStore (upsert one (small 7) (contact 6))
    × ((k j : Bitmap)
        → elem j (ids_of k (upsert one (small 7) (contact 6)).hashes)
          ≡ (elem j (ids_of k one.hashes) || (key_eq (small 7) k && key_eq j (contact 6).id)))
upsert-IsStore_example = upsert-IsStore one (small 7) (contact 6) one-IsStore
