-- ===== src/Bucket/Changes.antt =====
-- dht/routing_table.go, UpdatePeer: the five ways in which a call can end without an error, and the
-- invariant.
use mathlib.Core.Path.{subst}
use mathlib.Core.List.{append-nil, append_assoc}
use lbry_go.Prelude.{
  ℕ, suc, ◌<◌, ◌≤◌, ◌≡◌, refl, sym, ◌∙◌, Bool, true, false, not, List, [], ◌∷◌, ◌++◌, length, All,
  All-append, Option, none, some, leb, if◌then◌else◌, arith, Bool-cases, inl, inr, length-append,
  Run, ok, err, ◌⊎◌,
}
use lbry_go.Bitmap.{Bitmap, IsBitmap}
use lbry_go.Range.{Range, contains}
use lbry_go.Bucket.{
  Peer, Bucket, IsPeer, IsBucket, touch, find, modify, move_to_back, drop_bad, make_room,
  update_peer, is_bad, bucket_size, max_peer_fails,
}
use lbry_go.Bucket.Peers.{HasId, At, Found, find-Found, modify-At, remove_at-At, move_to_back-At}
use lbry_go.Bucket.Update.{NotId}

abbrev pub NotBad : Peer → Type 0
NotBad p = is_bad p max_peer_fails ≡ false

-- What the search for a bad peer returns: the peers without the first bad one, or none.
abbrev Dropped : List Peer → Option (List Peer) → Type 0
Dropped peers none = All NotBad peers
Dropped peers (some l) =
    (i : ℕ) × (before : List Peer) × (q : Peer) × (after : List Peer) × At i peers before q after
    × (is_bad q max_peer_fails ≡ true)
    × All NotBad before
    × (l ≡ before ++ after)

drop_bad-Dropped :
    (i : ℕ) (before rest peers : List Peer)
    → peers ≡ before ++ rest
    → length before ≡ i
    → All NotBad before
    → Dropped peers (drop_bad i rest peers)
unfolding drop_bad
drop_bad-Dropped i before [] peers e n good = subst (All NotBad) (sym (e ∙ append-nil before)) good
drop_bad-Dropped i before (q ∷ rest) peers e n good = elim (Bool-cases (is_bad q max_peer_fails)) [
  | inl bad ↦
      let a : At i peers before q rest = record { splits = e; place = n } in
      rw bad (i, before, q, rest, a, bad, good, remove_at-At a)
  | inr fine ↦ rw fine (
      drop_bad-Dropped (suc i) (before ++ q ∷ []) rest peers
        (e ∙ sym (append_assoc before (q ∷ []) rest)) (omega (arith, length-append before (q ∷ [])))
        (All-append NotBad before (q ∷ []) good (fine, tt)))
]

-- How UpdatePeer of `p` at the time `now` leaves the bucket `b`, as `b'`.
pub data Updated (now : ℕ) (b : Bucket) (p : Peer) (insert_if_new : Bool) (b' : Bucket)
    : Type 0 where
  refreshed :
      {i : ℕ} {before after : List Peer} {q : Peer}
      → At i b.peers before q after
      → q.contact.id ≡ p.contact.id
      → b' ≡ record b { last_update = now; peers = before ++ (after ++ touch now q ∷ []) }
      → Updated now b p insert_if_new b'
  ignored :
      All (NotId p.contact.id) b.peers
      → insert_if_new ≡ false
      → b' ≡ b
      → Updated now b p insert_if_new b'
  added :
      All (NotId p.contact.id) b.peers
      → insert_if_new ≡ true
      → length b.peers < bucket_size
      → b' ≡ record b { last_update = now; peers = b.peers ++ touch now p ∷ [] }
      → Updated now b p insert_if_new b'
  replaced :
      {i : ℕ} {before after : List Peer} {q : Peer}
      → All (NotId p.contact.id) b.peers
      → insert_if_new ≡ true
      → bucket_size ≤ length b.peers
      → At i b.peers before q after
      → is_bad q max_peer_fails ≡ true
      → All NotBad before
      → b' ≡ record b { last_update = now; peers = (before ++ after) ++ touch now p ∷ [] }
      → Updated now b p insert_if_new b'
  refused :
      All (NotId p.contact.id) b.peers
      → insert_if_new ≡ true
      → bucket_size ≤ length b.peers
      → All NotBad b.peers
      → b' ≡ b
      → Updated now b p insert_if_new b'

pub ids_good : (self : Bitmap) (r : Range) (l : List Peer) → All (IsPeer self r) l → All HasId l
ids_good self r [] h = tt
ids_good self r (p ∷ l) h = (h.0.id_good, ids_good self r l h.1)

-- The call ends without an error, in one of the five ways.
abbrev Ends : ℕ → Bucket → Peer → Bool → Run Bucket → Type 0
Ends now b p insert_if_new run = (b' : Bucket) × (run ≡ ok b') × Updated now b p insert_if_new b'

module _ (now : ℕ) (b : Bucket) (p : Peer) (others : All (NotId p.contact.id) b.peers) where
  abbrev store : Option (List Peer) → Run Bucket
  store o = elim o [
    | none ↦ ok b
    | some peers ↦ ok (record b { last_update = now; peers = peers ++ touch now p ∷ [] })
  ]

  store-Dropped :
      (o : Option (List Peer))
      → Dropped b.peers o
      → bucket_size ≤ length b.peers
      → Ends now b p true (store o)
  store-Dropped none d full = (b, refl, refused others refl full d refl)
  store-Dropped (some l) (i, before, q, after, a, bad, good, e) full = (
    record b { last_update = now; peers = (before ++ after) ++ touch now p ∷ [] },
    rw e,
    replaced others refl full a bad good refl,
  )

  store_new : Ends now b p true (store (make_room b.peers))
  unfolding make_room
  store_new = elim (Bool-cases (leb bucket_size (length b.peers))) [
    | inr room ↦ rw room (_, refl, added others refl (ground arith) refl)
    | inl full ↦ rw full (
        store-Dropped (drop_bad 0 b.peers b.peers)
          (drop_bad-Dropped 0 [] b.peers b.peers refl refl tt) (ground arith))
  ]

  store_if :
      (insert_if_new : Bool)
      → Ends now b p insert_if_new (if not insert_if_new then ok b else store (make_room b.peers))
  store_if true = store_new
  store_if false = (b, refl, ignored others refl refl)

update-Found :
    (now : ℕ) (b : Bucket) (p : Peer) (insert_if_new : Bool) (o : Option ℕ)
    → Found p.contact.id b.peers o
    → Ends now b p insert_if_new (elim o [
      | some i ↦
          ok (record b { last_update = now; peers = move_to_back (modify (touch now) i b.peers) i })
      | none ↦ if not insert_if_new then ok b else elim (make_room b.peers) [
        | none ↦ ok b
        | some peers ↦ ok (record b { last_update = now; peers = peers ++ touch now p ∷ [] })
      ]
    ])
update-Found now b p insert_if_new none others = store_if now b p others insert_if_new
update-Found now b p insert_if_new (some i) (before, q, after, a, same) = (
  record b { last_update = now; peers = before ++ (after ++ touch now q ∷ []) },
  rw (move_to_back-At (modify-At (touch now) a)),
  refreshed a same refl,
)

-- UpdatePeer, on every branch: a peer outside the range is an error; otherwise the call refreshes a
-- known peer and moves it to the back, ignores or adds a new one, adds it in place of the first bad
-- peer of a full bucket, or leaves a full bucket as it is.
pub update_peer-Updated :
    (now : ℕ) (self : Bitmap) (b : Bucket) (p : Peer) (insert_if_new : Bool)
    → IsBucket self b
    → IsBitmap p.contact.id
    → (contains b.range p.distance ≡ true
        → (b' : Bucket) × (update_peer now b p insert_if_new ≡ ok b')
          × Updated now b p insert_if_new b')
      × (contains b.range p.distance ≡ false
          → update_peer now b p insert_if_new ≡ err "this bucket range does not cover this peer")
unfolding update_peer
update_peer-Updated now self b p insert_if_new h good = (
  λ inside. rw inside (
      update-Found now b p insert_if_new (find p.contact.id b.peers)
        (find-Found p.contact.id b.peers good (ids_good self b.range b.peers h.peers_good))),
  λ outside. rw outside,
)

-- UpdatePeer of a peer with a well-formed identifier in a valid bucket, on every branch: a peer
-- outside the range is an error; otherwise the call refreshes a known peer and moves it to the back,
-- ignores or adds a new one, adds it in place of the first bad peer of a full bucket, or leaves a
-- full bucket as it is.
pub update_peer_cases :
    (now : ℕ) (self : Bitmap) (b : Bucket) (p : Peer) (insert_if_new : Bool)
    → IsBucket self b
    → IsBitmap p.contact.id
    → ((contains b.range p.distance ≡ true)
        × ((b' : Bucket) × (update_peer now b p insert_if_new ≡ ok b')
            × Updated now b p insert_if_new b'))
      ⊎ ((contains b.range p.distance ≡ false)
          × (update_peer now b p insert_if_new ≡ err "this bucket range does not cover this peer"))
update_peer_cases now self b p insert_if_new h good =
    let (covered, outside) = update_peer-Updated now self b p insert_if_new h good in
    elim (Bool-cases (contains b.range p.distance)) [
      | inl covers ↦ inl (covers, covered covers)
      | inr misses ↦ inr (misses, outside misses)
    ]
