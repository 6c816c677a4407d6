-- ===== src/Node/Announcing.antt =====
-- dht/node.go, handleRequest: findValue and store together, the two requests of an announcement.
use lbry_go.Prelude.{
  ℕ, ◌≡◌, ◌≢◌, ◌⊎◌, true_ne_false, refl, ap, sym, ◌∙◌, Bool, true, false, ◌||◌, List, [], ◌∷◌, some,
  ok, Returns, Returns-if, length, inl, inr, if◌then◌else◌, ltb,
}
use mathlib.Core.Path.{subst}
use lbry_go.Bitmap.{Bitmap, IsBitmap, equals}
use lbry_go.Bitmap.Order.{equals_iff}
use lbry_go.Contact.{Contact}
use lbry_go.Table.Ends.{fresh-Updated}
use lbry_go.OrderedMap.{key_eq}
use lbry_go.OrderedMap.Places.{elem, key_eq_self}
use lbry_go.Store.{ids_of}
use lbry_go.Store.Laws.{upsert-IsStore}
use lbry_go.Tokens.{Addr, TokenManager, get_token, verify, rotate_secret}
use lbry_go.Tokens.Rotation.{IsManager, verify-get_token}
use lbry_go.Messages.{
  Bytes, Request, Response, Message, a_response, StoreArgs, store_method, store_success_response,
}
use lbry_go.Node.{
  Node, reply_to, value_response, answer, answer_store, refresh_sender, handle_request,
  store_contact, contact_at,
}
use lbry_go.Node.Requests.{IsNode}

-- The token manager is the same, or its secret has been rotated once.
abbrev pub AtMostOnce : TokenManager → TokenManager → Type 0
AtMostOnce tm tm' =
    (tm' ≡ tm) ⊎ ((r : Bytes) × (length r ≡ 64) × (rotate_secret tm (some r) ≡ ok tm'))

-- The answer to a store request is success, and the announced node stands under the hash.
abbrev pub Accepted : Node → Request → StoreArgs → Node × List Message → Type 0
Accepted m s args (m', out) =
    (out ≡ a_response (record (reply_to m s) { data_text = store_success_response }) ∷ [])
    × (elem args.node_id (ids_of args.blob_hash m'.store.hashes) ≡ true)

module _ (sha256 : Bytes → Bytes) where
  -- Every response to findValue has the token of its sender.
  value_token :
      (n : Node) (addr : Addr) (q : Request) (arg : Bitmap) (found : List Contact)
      → (value_response sha256 n addr q arg found).token ≡ get_token sha256 n.tokens q.node_id addr
  unfolding value_response
  value_token n addr q arg found = either (ltb 0 (length found)) _ _ refl refl
    where
      either :
          (b : Bool) (x y : Response) {t : Bytes}
          → x.token ≡ t
          → y.token ≡ t
          → (if b then x else y).token ≡ t
      either true x y e f = e
      either false x y e f = f

  still_good :
      (tm tm' : TokenManager) (id : Bitmap) (addr : Addr)
      → IsManager tm
      → AtMostOnce tm tm'
      → verify sha256 tm' (get_token sha256 tm id addr) id addr ≡ true
  still_good tm tm' id addr m (inl same) =
      let (_, _, _, good, _, _) = verify-get_token sha256 tm tm.secret id addr m m.current in
      subst (λ t. verify sha256 t (get_token sha256 tm id addr) id addr ≡ true) (sym same) good
  still_good tm tm' id addr m (inr (r, e, f)) =
      let (_, f', _, _, good, _) = verify-get_token sha256 tm r id addr m e in
      subst (λ t. verify sha256 t (get_token sha256 tm id addr) id addr ≡ true)
        (ok_injective (sym f' ∙ f)) good
    where
      ok_injective : {a b : TokenManager} → ok a ≡ ok b → a ≡ b
      ok_injective e = cc

  -- Where the token is good, a store request is answered with success.
  answer_stored :
      (m : Node) (addr : Addr) (s : Request) (args : StoreArgs)
      → s.method ≡ store_method
      → s.store_args ≡ some args
      → verify sha256 m.tokens args.value.token s.node_id addr ≡ true
      → answer sha256 m addr s
        ≡ ok (
            some (
              store_contact m args.blob_hash (record {
                id = args.node_id;
                ip = addr.ip;
                port = addr.port;
                peer_port = args.value.port;
              }),
              a_response (record (reply_to m s) { data_text = store_success_response }) ∷ [],
            ))
  unfolding answer answer_store key_eq
  answer_stored m addr s args stores given good = rw (stores, given, good) refl

  -- The token of a response to findValue is good for a later store request of the same sender, if the
  -- secret is rotated at most once in between: another node's request to store is then answered with
  -- success, and the announced node stands under the hash in the store.
  pub handle_request-value_response :
      (now : ℕ) (n m : Node) (addr : Addr) (q s : Request) (args : StoreArgs) (arg : Bitmap)
      (found : List Contact)
      → IsNode n
      → IsNode m
      → AtMostOnce n.tokens m.tokens
      → m.overridden ≡ false
      → IsBitmap s.node_id
      → equals s.node_id m.id ≡ false
      → s.node_id ≡ q.node_id
      → s.method ≡ store_method
      → s.store_args ≡ some args
      → args.value.token ≡ (value_response sha256 n addr q arg found).token
      → Returns (Accepted m s args) (handle_request sha256 now m addr s)
  unfolding handle_request refresh_sender store_contact
  handle_request-value_response now n m addr q s args arg found hn hm once own good foreign same
        stores given token =
      let accepted : verify sha256 m.tokens args.value.token s.node_id addr ≡ true =
        ap (λ t. verify sha256 m.tokens t s.node_id addr) (token ∙ value_token n addr q arg found)
        ∙ ap (λ i. verify sha256 m.tokens (get_token sha256 n.tokens q.node_id addr) i addr) same
        ∙ still_good n.tokens m.tokens q.node_id addr hn.secrets once in
      let answered = answer_stored m addr s args stores given accepted in
      let other : m.rt.id ≢ s.node_id = λ e.
        true_ne_false
          (sym ((equals_iff s.node_id m.id good hm.id_good).1 (sym e ∙ hm.same)) ∙ foreign) in
      let (_, _, _, _, _, _, e, _) =
        fresh-Updated m.rt (contact_at s.node_id addr) hm.table good other now in
      let P = Accepted m s args in
      Returns-if P (equals s.node_id m.id) _ _ (λ t. absurd (true_ne_false (sym t ∙ foreign)))
        (λ _.
          Returns-if P m.overridden _ _ (λ t. absurd (true_ne_false (sym t ∙ own)))
            (λ _.
              rw (answered, e)
                (
                  refl,
                  (upsert-IsStore m.store args.blob_hash _ hm.complete).1 args.blob_hash
                        args.node_id
                      ∙ rw (key_eq_self args.blob_hash, key_eq_self args.node_id) (or_true _),
                )))
    where
      or_true : (b : Bool) → (b || true) ≡ true
      or_true true = refl
      or_true false = refl
