-- ===== src/Store.antt =====
-- dht/store.go: which nodes announced a blob. `hashes` lists the entries of the Go map of maps, each
-- with its node identifiers; a Go map has no order, and here an entry stands where it was first put.
-- Every method holds the store's lock throughout, so it is one step.
pub mod Laws
use lbry_go.Prelude.{
  ℕ, ◌≡◌, Bool, true, false, List, [], ◌∷◌, ◌++◌, length, Option, none, some, if◌then◌else◌, Run,
  ok, panic, ◌>>=◌,
}
use lbry_go.Bitmap.{Bitmap}
use lbry_go.Contact.{Contact}
use lbry_go.OrderedMap.{key_eq, assign}
use lbry_go.OrderedMap.Places.{elem}

abbrev pub Entry : Type 0
Entry = Bitmap × List Bitmap

pub record ContactStore : Type 0 where
  pub hashes : List Entry
  pub contacts : Bitmap → Option Contact

unfoldable pub new_store : ContactStore
new_store = record { hashes = []; contacts = λ id. none }

-- `ids[id] = true`
unfoldable pub mark : Bitmap → List Bitmap → List Bitmap
mark id ids = if elem id ids then ids else ids ++ id ∷ []

-- `hashes[blobHash][id] = true`, with a new entry for a new hash.
unfoldable pub mark_hash : Bitmap → Bitmap → List Entry → List Entry
mark_hash blob_hash id [] = (blob_hash, mark id []) ∷ []
mark_hash blob_hash id ((h, ids) ∷ hashes) =
    if key_eq h blob_hash
    then (h, mark id ids) ∷ hashes
    else (h, ids) ∷ mark_hash blob_hash id hashes

unfoldable pub upsert : ContactStore → Bitmap → Contact → ContactStore
upsert s blob_hash contact = record {
  hashes = mark_hash blob_hash contact.id s.hashes;
  contacts = assign s.contacts contact.id contact;
}

-- The identifiers of a hash; a missing entry has none.
unfoldable pub ids_of : Bitmap → List Entry → List Bitmap
ids_of blob_hash [] = []
ids_of blob_hash ((h, ids) ∷ hashes) = if key_eq h blob_hash then ids else ids_of blob_hash hashes

-- The loop of Get.
unfoldable pub collect : (Bitmap → Option Contact) → List Bitmap → Run (List Contact)
collect contacts [] = ok []
collect contacts (id ∷ ids) = elim (contacts id) [
  | none ↦ panic "node id in IDs list, but not in nodeInfo"
  | some contact ↦ collect contacts ids >>= λ rest. ok (contact ∷ rest)
]

unfoldable pub announced : ContactStore → Bitmap → Run (List Contact)
announced s blob_hash = collect s.contacts (ids_of blob_hash s.hashes)

unfoldable pub count_stored_hashes : ContactStore → ℕ
count_stored_hashes s = length s.hashes
