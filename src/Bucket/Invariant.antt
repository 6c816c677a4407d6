-- ===== src/Bucket/Invariant.antt =====
-- dht/routing_table.go, UpdatePeer and FailContact: the bucket's invariant.
use mathlib.Core.Path.{subst}
use mathlib.Core.List.{append_assoc}
use lbry_go.Prelude.{
  ℕ, ◌+◌, ◌<◌, ◌≡◌, ◌≢◌, ◌⊎◌, inl, inr, refl, ap, sym, Bool, true, List, [], ◌∷◌, ◌++◌, length, All,
  All-append, All-split, arith, length-append, ok, Option, none, some,
}
use lbry_go.Bitmap.{Bitmap, IsBitmap, xor}
use lbry_go.Range.{Range, contains}
use lbry_go.Range.Interval.{contains-Within}
use lbry_go.Bitmap.Distance.{xor-IsBitmap}
use lbry_go.Bucket.{
  Peer, Bucket, IsPeer, IsBucket, touch, fail, modify, find, update_peer, fail_contact, bucket_size,
}
use lbry_go.Bucket.Peers.{At, Found, find-Found, modify-At}
use lbry_go.Bucket.Update.{NotId, Good, Good-replace, Good-remove, Good-snoc}
use lbry_go.Bucket.Changes.{
  Updated, refreshed, ignored, added, replaced, refused, update_peer-Updated, ids_good,
}

length-At :
    {i : ℕ} {l before after : List Peer} {q : Peer}
    → At i l before q after
    → length l ≡ length (before ++ after) + 1
length-At {before = before} {after = after} {q = q} a =
    omega (arith, ap length a.splits, length-append before (q ∷ after), length-append before after)

touched :
    {self : Bitmap} {r : Range} {p : Peer} (now : ℕ) → IsPeer self r p → IsPeer self r (touch now p)
unfolding touch
touched now h = record { id_good = h.id_good; measured = h.measured; inside = h.inside }

-- The bucket with new peers behind `l`, as the calls that change it leave it.
renewed :
    (now : ℕ) (self : Bitmap) (b : Bucket) (l : List Peer) (q : Peer)
    → IsBucket self b
    → Good self b.range l
    → All (NotId q.contact.id) l
    → IsPeer self b.range q
    → length l < bucket_size
    → IsBucket self (record b { last_update = now; peers = l ++ touch now q ∷ [] })
unfolding touch
renewed now self b l q h g others k lt =
    let g' = Good-snoc self b.range l (touch now q) g others (touched now k) in
    record {
      range_good = h.range_good;
      peers_good = g'.0;
      distinct = g'.1;
      bounded = omega (arith, length-append l (touch now q ∷ []));
    }

pub Updated-IsBucket :
    {now : ℕ} {self : Bitmap} {b b' : Bucket} {p : Peer} {insert_if_new : Bool}
    → Updated now b p insert_if_new b'
    → IsBucket self b
    → IsPeer self b.range p
    → IsBucket self b' × (b'.range ≡ b.range)
Updated-IsBucket {now} {self} {b} (refreshed {before = before} {after = after} {q = q} a same e) h
      k =
    let (g, others, hq) = Good-remove self b.range a (h.peers_good, h.distinct) in
    let size = length-At a in
    let r = renewed now self b (before ++ after) q h g others hq (omega (arith, h.bounded)) in
    let r' : IsBucket self
        (record b { last_update = now; peers = before ++ (after ++ touch now q ∷ []) }) =
      subst (λ (l : List Peer). IsBucket self (record b { last_update = now; peers = l }))
        (append_assoc before after (touch now q ∷ [])) r in
    (subst (IsBucket self) (sym e) r', ap (λ (c : Bucket). c.range) e)
Updated-IsBucket {self = self} (ignored others off e) h k =
    (subst (IsBucket self) (sym e) h, ap (λ (c : Bucket). c.range) e)
Updated-IsBucket {now} {self} {b} {p = p} (added others on room e) h k = (
  subst (IsBucket self) (sym e)
      (renewed now self b b.peers p h (h.peers_good, h.distinct) others k room),
  ap (λ (c : Bucket). c.range) e,
)
Updated-IsBucket {now} {self} {b} {p = p}
      (replaced {before = before} {after = after} {q = q} others on full a bad good e) h k =
    let (g, _, _) = Good-remove self b.range a (h.peers_good, h.distinct) in
    let (l, r) =
      All-split (NotId p.contact.id) before (q ∷ after)
        (subst (All (NotId p.contact.id)) a.splits others) in
    (
      subst (IsBucket self) (sym e) (
          renewed now self b (before ++ after) p h g
            (All-append (NotId p.contact.id) before after l r.1) k
            (omega (arith, length-At a, h.bounded))),
      ap (λ (c : Bucket). c.range) e,
    )
Updated-IsBucket {self = self} (refused others on full good e) h k =
    (subst (IsBucket self) (sym e) h, ap (λ (c : Bucket). c.range) e)

-- UpdatePeer of a peer at its true distance never fails in a valid bucket that covers it: the bucket
-- stays valid, over the same range.
pub update_peer-IsBucket :
    (now : ℕ) (self : Bitmap) (b : Bucket) (p : Peer) (insert_if_new : Bool)
    → IsBitmap self
    → IsBucket self b
    → IsBitmap p.contact.id
    → p.distance ≡ xor self p.contact.id
    → contains b.range p.distance ≡ true
    → (b' : Bucket) × (update_peer now b p insert_if_new ≡ ok b')
      × IsBucket self b'
      × (b'.range ≡ b.range)
update_peer-IsBucket now self b p insert_if_new hs h good measured inside =
    let (b', e, u) = (update_peer-Updated now self b p insert_if_new h good).0 inside in
    let distance_good : IsBitmap p.distance =
      subst IsBitmap (sym measured) (xor-IsBitmap self p.contact.id hs good) in
    let k : IsPeer self b.range p = record {
      id_good = good;
      measured = measured;
      inside = (contains-Within b.range p.distance h.range_good distance_good).0 inside;
    } in
    let (h', same) = Updated-IsBucket u h k in (b', e, h', same)

failed : {self : Bitmap} {r : Range} {p : Peer} → IsPeer self r p → IsPeer self r (fail p)
unfolding fail
failed h = record { id_good = h.id_good; measured = h.measured; inside = h.inside }

-- `b'` is `b` with one failure more for the peer with the identifier, or no peer has it and `b'` is `b`.
abbrev pub Failed : Bucket → Bitmap → Bucket → Type 0
Failed b id b' =
    ((before : List Peer) × (q : Peer) × (after : List Peer) × (b.peers ≡ before ++ q ∷ after)
      × (q.contact.id ≡ id)
      × (b'
          ≡ record b { peers = before ++ record q { num_failures = q.num_failures + 1 } ∷ after }))
    ⊎ (All (λ (q : Peer). q.contact.id ≢ id) b.peers × (b' ≡ b))

fail-Found :
    (self : Bitmap) (b : Bucket) (id : Bitmap) (o : Option ℕ)
    → IsBucket self b
    → Found id b.peers o
    → let b' : Bucket = elim o [ none ↦ b | some i ↦ record b { peers = modify fail i b.peers } ] in
      IsBucket self b' × Failed b id b'
unfolding fail
fail-Found self b id none h f = (h, inr (f, refl))
fail-Found self b id (some i) h (before, q, after, a, same) =
    let a' = modify-At fail a in
    let (_, _, hq) = Good-remove self b.range a (h.peers_good, h.distinct) in
    let g = Good-replace self b.range a refl (failed hq) (h.peers_good, h.distinct) in
    let g' = subst (Good self b.range) (sym a'.splits) g in
    (
      record {
        range_good = h.range_good;
        peers_good = g'.0;
        distinct = g'.1;
        bounded = omega (arith, length-At a, length-At a', h.bounded);
      },
      inl (
        before,
        q,
        after,
        a.splits,
        same,
        ap (λ (l : List Peer). record b { peers = l }) a'.splits,
      ),
    )

-- In a valid bucket, FailContact counts one failure for the peer with the identifier, if there is
-- one, and changes nothing else; the bucket stays valid.
pub fail_contact-Failed :
    (self : Bitmap) (b : Bucket) (id : Bitmap)
    → IsBucket self b
    → IsBitmap id
    → IsBucket self (fail_contact b id) × Failed b id (fail_contact b id)
unfolding fail_contact
fail_contact-Failed self b id h good =
    fail-Found self b id (find id b.peers) h
      (find-Found id b.peers good (ids_good self b.range b.peers h.peers_good))
