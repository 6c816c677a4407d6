-- ===== src/Bucket.antt =====
-- dht/routing_table.go, lines 22-198 and 454-463: peers and buckets. The clock is the argument `now`
-- (time.Now) and a time is a count of nanoseconds; the zero time of a new bucket is 0. Every method
-- holds the bucket's lock throughout, so it is one step.
pub mod Peers
pub mod Update
pub mod Changes
pub mod Invariant
pub mod Splitting
pub mod Total
use lbry_go.Prelude.{
  ℕ, zero, suc, ◌+◌, ◌-◌, ◌<◌, ◌≤◌, ◌≡◌, ◌≢◌, Bool, true, false, not, List, [], ◌∷◌, ◌++◌, map,
  length, get_elem?, set, take, drop, All, Option, none, some, ltb, leb, ◌==◌, if◌then◌else◌, Run,
  ok, err, panic, out_of_fuel, ◌>>=◌,
}
use lbry_go.Bitmap.{Bitmap, IsBitmap, equals, xor}
use lbry_go.Range.{Range, IsRange, Within, contains, interval_p}
use lbry_go.Contact.{Contact, contact_equals}

-- dht/config.go: bucketSize and maxPeerFails.
abbrev pub bucket_size : ℕ
bucket_size = 8

abbrev pub max_peer_fails : ℕ
max_peer_fails = 3

pub record Peer : Type 0 where
  pub contact : Contact
  pub distance : Bitmap
  pub last_activity : ℕ
  pub num_failures : ℕ

unfoldable pub touch : ℕ → Peer → Peer
touch now p = record p { last_activity = now; num_failures = 0 }

unfoldable pub active_in_last : ℕ → Peer → ℕ → Bool
active_in_last now p d = ltb (now - p.last_activity) d

unfoldable pub is_bad : Peer → ℕ → Bool
is_bad p max_failures = leb max_failures p.num_failures

unfoldable pub fail : Peer → Peer
fail p = record p { num_failures = p.num_failures + 1 }

pub record Bucket : Type 0 where
  pub peers : List Peer
  pub last_update : ℕ
  pub range : Range

unfoldable pub new_bucket : Range → Bucket
new_bucket r = record { peers = []; last_update = 0; range = r }

unfoldable pub len : Bucket → ℕ
len b = length b.peers

unfoldable pub has_loop : List Peer → Contact → Bool
has_loop [] c = false
has_loop (p ∷ peers) c = if contact_equals p.contact c true then true else has_loop peers c

unfoldable pub has : Bucket → Contact → Bool
unfolding has_loop
has b c = has_loop b.peers c

unfoldable pub contacts : Bucket → List Contact
contacts b = map (λ p. p.contact) b.peers

-- find, from index `i` on, with `none` for -1.
unfoldable pub find_from : ℕ → Bitmap → List Peer → Option ℕ
find_from i id [] = none
find_from i id (p ∷ peers) = if equals p.contact.id id then some i else find_from (suc i) id peers

unfoldable pub find : Bitmap → List Peer → Option ℕ
find id peers = find_from 0 id peers

-- `peers[i] = f(peers[i])`
unfoldable pub modify : (Peer → Peer) → ℕ → List Peer → List Peer
modify f i [] = []
modify f zero (p ∷ peers) = f p ∷ peers
modify f (suc i) (p ∷ peers) = p ∷ modify f i peers

-- The loop of moveToBack, with `left` rounds to go from index `i`.
unfoldable pub shift_loop : ℕ → ℕ → List Peer → List Peer
shift_loop zero i peers = peers
shift_loop (suc left) i peers = elim (get_elem? peers (i + 1)) [
  | none ↦ peers
  | some q ↦ shift_loop left (i + 1) (set peers i q)
]

unfoldable pub move_to_back : List Peer → ℕ → List Peer
move_to_back peers index = elim (get_elem? peers index) [
  | none ↦ peers
  | some p ↦
      if leb (length peers) (index + 1)
      then peers
      else set (shift_loop (length peers - 1 - index) index peers) (length peers - 1) p
]

-- `append(peers[:i], peers[i+1:]...)`
abbrev pub remove_at : ℕ → List Peer → List Peer
remove_at i peers = take i peers ++ drop (suc i) peers

-- The loop that looks for a bad peer to drop: the peers without it.
unfoldable pub drop_bad : ℕ → List Peer → List Peer → Option (List Peer)
drop_bad i [] peers = none
drop_bad i (p ∷ rest) peers =
    if is_bad p max_peer_fails then some (remove_at i peers) else drop_bad (suc i) rest peers

-- The peers to which a new one can be added, if there is room.
unfoldable pub make_room : List Peer → Option (List Peer)
make_room peers = if leb bucket_size (length peers) then drop_bad 0 peers peers else some peers

unfoldable pub update_peer : ℕ → Bucket → Peer → Bool → Run Bucket
update_peer now b p insert_if_new =
    if not (contains b.range p.distance)
    then err "this bucket range does not cover this peer"
    else elim (find p.contact.id b.peers) [
      | some i ↦
          ok (record b { last_update = now; peers = move_to_back (modify (touch now) i b.peers) i })
      | none ↦ if not insert_if_new then ok b else elim (make_room b.peers) [
        | none ↦ ok b
        | some peers ↦ ok (record b { last_update = now; peers = peers ++ touch now p ∷ [] })
      ]
    ]

unfoldable pub fail_contact : Bucket → Bitmap → Bucket
fail_contact b id = elim (find id b.peers) [
  | none ↦ b
  | some i ↦ record b { peers = modify fail i b.peers }
]

unfoldable pub needs_refresh : ℕ → Bucket → ℕ → Bool
needs_refresh now b refresh_interval = ltb refresh_interval (now - b.last_update)

unfoldable pub keep_if : (Peer → Bool) → List Peer → List Peer
keep_if test [] = []
keep_if test (p ∷ peers) = let rest = keep_if test peers in if test p then p ∷ rest else rest

-- The loop that deals the peers out to one side.
abbrev pub side : Bucket → Range → (Peer → Bool) → Bucket
side b r test = record { peers = keep_if test b.peers; last_update = b.last_update; range = r }

unfoldable pub split : ℕ → Bucket → Run (Bucket × Bucket)
split zero b = out_of_fuel
split (suc fuel) b = do
  l ← interval_p b.range 1 2
  r ← interval_p b.range 2 2
  let left = side b l (λ p. contains l p.distance)
  let right = side b r (λ p. not (contains l p.distance))
  let in_right : Run (Bucket × Bucket) = do
    (left', right') ← split fuel right
    ok (record left' { range = record { start = b.range.start; end = left'.range.end } }, right')
  let in_left : Run (Bucket × Bucket) = do
    (left', right') ← split fuel left
    ok (left', record right' { range = record { start = right'.range.start; end = b.range.end } })
  if not (ltb 1 (length b.peers))
      then ok (left, right)
      else if length left.peers == 0
      then in_right
      else if length right.peers == 0
      then in_left
      else ok (left, right)

-- A peer of the table of node `self`, in a bucket of range `r`.
pub record IsPeer (self : Bitmap) (r : Range) (p : Peer) : Type 0 where
  pub id_good : IsBitmap p.contact.id
  pub measured : p.distance ≡ xor self p.contact.id
  pub inside : Within r p.distance

abbrev pub Distinct : List Peer → Type 0
Distinct [] = Unit
Distinct (p ∷ l) = All (λ q. q.contact.id ≢ p.contact.id) l × Distinct l

-- What holds of a bucket between calls.
pub record IsBucket (self : Bitmap) (b : Bucket) : Type 0 where
  pub range_good : IsRange b.range
  pub peers_good : All (IsPeer self b.range) b.peers
  pub distinct : Distinct b.peers
  pub bounded : length b.peers ≤ bucket_size
