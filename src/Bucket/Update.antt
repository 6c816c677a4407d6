-- ===== src/Bucket/Update.antt =====
-- dht/routing_table.go, UpdatePeer and FailContact: lists of valid peers.
use mathlib.Core.Path.{subst}
use lbry_go.Prelude.{ℕ, ◌≡◌, ◌≢◌, sym, List, [], ◌∷◌, ◌++◌, All, All-append, All-split}
use lbry_go.Bitmap.{Bitmap}
use lbry_go.Range.{Range}
use lbry_go.Bucket.{Peer, IsPeer, Distinct}
use lbry_go.Bucket.Peers.{At}

abbrev pub NotId : Bitmap → Peer → Type 0
NotId id q = q.contact.id ≢ id

Distinct-remove :
    (before : List Peer) (p : Peer) (after : List Peer)
    → Distinct (before ++ p ∷ after)
    → Distinct (before ++ after) × All (NotId p.contact.id) (before ++ after)
Distinct-remove [] p after d = (d.1, d.0)
Distinct-remove (q ∷ before) p after d =
    let (rest, others) = Distinct-remove before p after d.1 in
    let (b, a) = All-split (NotId q.contact.id) before (p ∷ after) d.0 in
    ((All-append (NotId q.contact.id) before after b a.1, rest), (λ e. a.0 (sym e), others))

Distinct-snoc :
    (l : List Peer) (p : Peer) → Distinct l → All (NotId p.contact.id) l → Distinct (l ++ p ∷ [])
Distinct-snoc [] p d h = (tt, tt)
Distinct-snoc (q ∷ l) p d h = (
  All-append (NotId q.contact.id) l (p ∷ []) d.0 ((λ e. h.0 (sym e)), tt),
  Distinct-snoc l p d.1 h.1,
)

Distinct-replace :
    (before : List Peer) (p q : Peer) (after : List Peer)
    → q.contact ≡ p.contact
    → Distinct (before ++ p ∷ after)
    → Distinct (before ++ q ∷ after)
Distinct-replace [] p q after e d = (subst (λ c. All (NotId c.id) after) (sym e) d.0, d.1)
Distinct-replace (r ∷ before) p q after e d =
    let (b, a) = All-split (NotId r.contact.id) before (p ∷ after) d.0 in
    (
      All-append (NotId r.contact.id) before (q ∷ after) b
          (subst (λ c. c.id ≢ r.contact.id) (sym e) a.0, a.1),
      Distinct-replace before p q after e d.1,
    )

module _ (self : Bitmap) (r : Range) where
  -- The two parts of the invariant that speak of the peers alone.
  abbrev pub Good : List Peer → Type 0
  Good l = All (IsPeer self r) l × Distinct l

  pub Good-replace :
      {i : ℕ} {l before after : List Peer} {p q : Peer}
      → At i l before p after
      → q.contact ≡ p.contact
      → IsPeer self r q
      → Good l
      → Good (before ++ q ∷ after)
  Good-replace {before = before} {after = after} {p = p} {q = q} a e h g =
      let g' : Good (before ++ p ∷ after) = subst Good a.splits g in
      let (b, c) = All-split (IsPeer self r) before (p ∷ after) g'.0 in
      (
        All-append (IsPeer self r) before (q ∷ after) b (h, c.1),
        Distinct-replace before p q after e g'.1,
      )

  pub Good-remove :
      {i : ℕ} {l before after : List Peer} {p : Peer}
      → At i l before p after
      → Good l
      → Good (before ++ after) × All (NotId p.contact.id) (before ++ after) × IsPeer self r p
  Good-remove {before = before} {after = after} {p = p} a g =
      let g' : Good (before ++ p ∷ after) = subst Good a.splits g in
      let (b, c) = All-split (IsPeer self r) before (p ∷ after) g'.0 in
      let (d, others) = Distinct-remove before p after g'.1 in
      ((All-append (IsPeer self r) before after b c.1, d), others, c.0)

  pub Good-snoc :
      (l : List Peer) (p : Peer)
      → Good l
      → All (NotId p.contact.id) l
      → IsPeer self r p
      → Good (l ++ p ∷ [])
  Good-snoc l p g others h =
      (All-append (IsPeer self r) l (p ∷ []) g.0 (h, tt), Distinct-snoc l p g.1 others)
