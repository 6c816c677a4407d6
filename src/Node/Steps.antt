-- ===== src/Node/Steps.antt =====
-- dht/node.go: the node as a state machine. A step is a message that is handled, a query that begins
-- or ends, a contact that is added or a rotation of the secret.
use lbry_go.Prelude.{
  ℕ, ◌≡◌, ◌≢◌, true_ne_false, refl, sym, ◌∙◌, Bool, List, length, Option, none, some, Run, ok, err,
  panic, out_of_fuel, Returns, Returns-value, Bool-cases, inl, inr,
}
use mathlib.Core.Path.{subst}
use lbry_go.Bitmap.{Bitmap, IsBitmap, equals}
use lbry_go.Bitmap.Order.{equals_iff}
use lbry_go.Contact.{Contact}
use lbry_go.Table.Closest.{new_routing_table-IsTable}
use lbry_go.Table.Ends.{update-Stored, table_fail-Failed}
use lbry_go.Store.Laws.{new_store-IsStore}
use lbry_go.Tokens.{Addr, TokenManager, rotate_secret, start}
use lbry_go.Tokens.Rotation.{IsManager, rotate_secret-IsManager, start-IsManager}
use lbry_go.Messages.{Bytes, MessageId, Request, Response, ErrorMessage, Message}
use lbry_go.Node.{
  Node, Transaction, new_node, add_known_node, handle_request, handle_response, handle_error,
  tx_insert, tx_delete,
}
use lbry_go.Node.Queries.{delivered, send_start, send_end, Ending, given_up, unanswered}
use lbry_go.Node.Requests.{IsNode, HasArgs, handle_request-IsNode}
use lbry_go.Node.Responses.{
  Handled, handle_response_cases, handle_error_cases, with_table, Stored-id, update-own,
  table_fail-own,
}

-- A step of the node that does not panic. Identifiers come from decoders or from the caller, as
-- arrays of 48 bytes.
pub data NodeStep (sha256 : Bytes → Bytes) (n n' : Node) : Type 0 where
  request :
      (now : ℕ) (addr : Addr) (q : Request) (out : List Message)
      → IsBitmap q.node_id
      → HasArgs q
      → handle_request sha256 now n addr q ≡ ok (n', out)
      → NodeStep sha256 n n'
  response :
      (now : ℕ) (addr : Addr) (r : Response) (tx : Option Transaction)
      → IsBitmap r.node_id
      → handle_response now n addr r ≡ ok (n', tx)
      → NodeStep sha256 n n'
  error :
      (now : ℕ) (addr : Addr) (e : ErrorMessage)
      → IsBitmap e.node_id
      → handle_error now n addr e ≡ ok n'
      → NodeStep sha256 n n'
  begin :
      (c : Contact) (q : Request) (skip_id_check : Bool) (id : MessageId) (tx : Transaction)
      → send_start n c q skip_id_check id ≡ some (n', tx)
      → NodeStep sha256 n n'
  finish :
      (tx : Transaction) (e : Ending) (r : Option Response)
      → IsBitmap tx.contact.id
      → send_end n tx e ≡ ok (n', r)
      → NodeStep sha256 n n'
  learn :
      (now : ℕ) (c : Contact)
      → IsBitmap c.id
      → add_known_node now n c ≡ ok n'
      → NodeStep sha256 n n'
  rotate :
      (tm : TokenManager) (secret : Bytes)
      → length secret ≡ 64
      → rotate_secret n.tokens (some secret) ≡ ok tm
      → n' ≡ record n { tokens = tm }
      → NodeStep sha256 n n'

pub data Reach (sha256 : Bytes → Bytes) (n : Node) : Node → Type 0 where
  here : Reach sha256 n n
  next : {m m' : Node} → Reach sha256 n m → NodeStep sha256 m m' → Reach sha256 n m'

-- A property of the value that a call returns, if it returns one.
abbrev IfOk : {A : Type 0} → (A → Type 0) → Run A → Type 0
IfOk P (ok a) = P a
IfOk P _ = Unit

returned : {A : Type 0} (P : A → Type 0) (run : Run A) (a : A) → IfOk P run → run ≡ ok a → P a
returned P run a p e = subst (IfOk P) e p

Returns-IfOk : {A : Type 0} (P : A → Type 0) (run : Run A) → Returns P run → IfOk P run
Returns-IfOk P (ok a) p = p
Returns-IfOk P (err message) p = tt
Returns-IfOk P (panic message) p = tt
Returns-IfOk P out_of_fuel p = tt

with_transactions :
    (n : Node) (l : List (MessageId × Transaction))
    → IsNode n
    → IsNode (record n { transactions = l })
with_transactions n l h = record {
  id_good = h.id_good;
  table = h.table;
  same = h.same;
  complete = h.complete;
  secrets = h.secrets;
}

abbrev IfSome : {A : Type 0} → (A → Type 0) → Option A → Type 0
IfSome P none = Unit
IfSome P (some a) = P a

send_start-IsNode :
    (n : Node) (c : Contact) (q : Request) (skip_id_check : Bool) (id : MessageId)
    → IsNode n
    → IfSome (λ p. IsNode p.0) (send_start n c q skip_id_check id)
unfolding send_start tx_insert
send_start-IsNode n c q skip_id_check id h = elim (Bool-cases (equals c.id n.id)) [
  | inl own ↦ rw own tt
  | inr other ↦ rw other (with_transactions n _ h)
]

module _ (n : Node) (h : IsNode n) where
  send_end-IsNode :
      (tx : Transaction) (e : Ending)
      → IsBitmap tx.contact.id
      → IfOk (λ r. IsNode r.0) (send_end n tx e)
  unfolding send_end tx_delete
  send_end-IsNode tx (delivered res) good = with_transactions n _ h
  send_end-IsNode tx given_up good = with_transactions n _ h
  send_end-IsNode tx unanswered good =
      let test = equals_iff n.rt.id tx.contact.id h.table.id_good good in
      elim (Bool-cases (equals n.rt.id tx.contact.id)) [
        | inl own ↦ rw (table_fail-own n.rt tx.contact h.table good (test.0 own)) tt
        | inr differs ↦
            let other : n.rt.id ≢ tx.contact.id = λ f. true_ne_false (sym (test.1 f) ∙ differs) in
            let (_, _, _, _, _, e, valid) = table_fail-Failed n.rt tx.contact h.table good other in
            rw e (with_transactions (record n { rt = _ }) _ (with_table n _ h valid refl))
      ]

  add_known_node-IsNode :
      (now : ℕ) (c : Contact) → IsBitmap c.id → IfOk IsNode (add_known_node now n c)
  unfolding add_known_node
  add_known_node-IsNode now c good =
      let test = equals_iff n.rt.id c.id h.table.id_good good in
      elim (Bool-cases (equals n.rt.id c.id)) [
        | inl own ↦ rw (update-own now n.rt c h.table good (test.0 own)) tt
        | inr differs ↦
            let other : n.rt.id ≢ c.id = λ f. true_ne_false (sym (test.1 f) ∙ differs) in
            let (rt, e, s, valid) = update-Stored now n.rt c h.table good other in
            rw e (with_table n rt h valid (Stored-id s))
      ]

  rotated :
      (tm : TokenManager) (secret : Bytes)
      → length secret ≡ 64
      → IfOk (λ t. IsNode (record n { tokens = t })) (rotate_secret n.tokens (some secret))
  rotated tm secret e =
      let (tm', f, m, _, _) = rotate_secret-IsManager n.tokens secret h.secrets e in
      rw f (record {
        id_good = h.id_good;
        table = h.table;
        same = h.same;
        complete = h.complete;
        secrets = m;
      })

  handle_response-IsNode :
      (now : ℕ) (addr : Addr) (r : Response)
      → IsBitmap r.node_id
      → IfOk (λ p. IsNode p.0) (handle_response now n addr r)
  handle_response-IsNode now addr r good = elim (handle_response_cases now n addr h r good) [
    | inl (other, p) ↦
        let (a, e, v) =
          Returns-value (λ p. Handled now n addr r p.0 p.1) (handle_response now n addr r) p in
        rw e v.valid
    | inr (own, f) ↦ rw f tt
  ]

  handle_error-IsNode :
      (now : ℕ) (addr : Addr) (m : ErrorMessage)
      → IsBitmap m.node_id
      → IfOk IsNode (handle_error now n addr m)
  handle_error-IsNode now addr m good = elim (handle_error_cases now n addr h m good) [
    | inl (other, p) ↦ Returns-IfOk IsNode _ p
    | inr (own, f) ↦ rw f tt
  ]

started-IsNode :
    (id : Bitmap) (secret : Bytes) (n : Node) (tm : TokenManager)
    → IsBitmap id
    → length secret ≡ 64
    → new_node id ≡ ok n
    → start (some secret) ≡ ok tm
    → IsNode (record n { tokens = tm })
unfolding new_node
started-IsNode id secret n tm good e made started =
    let (rt, new_rt, valid, same, _) = new_routing_table-IsTable id good in
    let (tm', f, m, _) = start-IsManager secret e in
    let managed : IsManager tm = returned IsManager (start (some secret)) tm (rw f m) started in
    let P : Node → Type 0 = λ a. IsNode (record a { tokens = tm }) in
    returned P (new_node id) n
      (rw new_rt (record {
        id_good = good;
        table = valid;
        same = same;
        complete = new_store-IsStore;
        secrets = managed;
      }))
      made

module _ (sha256 : Bytes → Bytes) where
  NodeStep-IsNode : (n n' : Node) → NodeStep sha256 n n' → IsNode n → IsNode n'
  NodeStep-IsNode n n' (request now addr q out good args e) h =
      returned (λ r. IsNode r.0) _ (n', out)
        (Returns-IfOk (λ r. IsNode r.0) (handle_request sha256 now n addr q)
          (handle_request-IsNode sha256 n addr q h now good args))
        e
  NodeStep-IsNode n n' (response now addr r tx good e) h =
      returned (λ p. IsNode p.0) _ (n', tx) (handle_response-IsNode n h now addr r good) e
  NodeStep-IsNode n n' (error now addr m good e) h =
      returned IsNode _ n' (handle_error-IsNode n h now addr m good) e
  NodeStep-IsNode n n' (begin c q skip_id_check id tx e) h =
      subst (IfSome (λ p. IsNode p.0)) e (send_start-IsNode n c q skip_id_check id h)
  NodeStep-IsNode n n' (finish tx e r good f) h =
      returned (λ p. IsNode p.0) _ (n', r) (send_end-IsNode n h tx e good) f
  NodeStep-IsNode n n' (learn now c good e) h =
      returned IsNode _ n' (add_known_node-IsNode n h now c good) e
  NodeStep-IsNode n n' (rotate tm secret e f same) h =
      subst IsNode (sym same)
        (returned (λ t. IsNode (record n { tokens = t })) _ tm (rotated n h tm secret e) f)

  Reach-IsNode : (n n' : Node) → Reach sha256 n n' → IsNode n → IsNode n'
  Reach-IsNode n n' here h = h
  Reach-IsNode n n' (next {m} r s) h = NodeStep-IsNode m n' s (Reach-IsNode n m r h)

  -- A node with a well-formed id whose tokens are started, after any steps: handleRequest does not
  -- panic on a request with a well-formed sender, where a store request has its arguments, and leaves
  -- a valid node.
  pub Reach-handle_request :
      (id : Bitmap) (secret : Bytes) (n : Node) (tm : TokenManager) (m : Node) (now : ℕ)
      (addr : Addr) (q : Request)
      → IsBitmap id
      → length secret ≡ 64
      → new_node id ≡ ok n
      → start (some secret) ≡ ok tm
      → Reach sha256 (record n { tokens = tm }) m
      → IsBitmap q.node_id
      → HasArgs q
      → Returns (λ r. IsNode r.0) (handle_request sha256 now m addr q)
  Reach-handle_request id secret n tm m now addr q good e made started r sender args =
      let valid = started-IsNode id secret n tm good e made started in
      handle_request-IsNode sha256 m addr q (Reach-IsNode (record n { tokens = tm }) m r valid) now
        sender args
