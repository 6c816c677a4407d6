-- ===== src/Node/Requests.antt =====
-- dht/node.go, handleRequest: the state of a node between messages, and the answers to requests.
use lbry_go.Prelude.{
  ℕ, ◌≡◌, ◌≢◌, ◌⊎◌, true_ne_false, refl, sym, ◌∙◌, true, false, List, Option, none, some, Returns,
  Returns-if, Returns-bind, inl, inr,
}
use lbry_go.Bitmap.{Bitmap, IsBitmap, equals}
use lbry_go.Bitmap.Order.{equals_iff}
use lbry_go.Contact.{Contact}
use lbry_go.Table.{IsTable}
use lbry_go.Table.Ends.{fresh-Updated}
use lbry_go.OrderedMap.{key_eq}
use lbry_go.Store.Laws.{IsStore, upsert-IsStore, announced-map}
use lbry_go.Tokens.{Addr, verify}
use lbry_go.Tokens.Rotation.{IsManager}
use lbry_go.Messages.{
  Bytes, Request, Message, StoreArgs, ping_method, store_method, find_node_method,
  find_value_method,
}
use lbry_go.Node.{
  Node, answer, answer_store, answer_find_node, answer_find_value, refresh_sender, handle_request,
  contact_at, store_contact,
}

-- What holds of a node between messages.
pub record IsNode (n : Node) : Type 0 where
  pub id_good : IsBitmap n.id
  pub table : IsTable n.rt
  pub same : n.rt.id ≡ n.id
  pub complete : IsStore n.store
  pub secrets : IsManager n.tokens

-- A store request comes with its arguments, which its decoder sees to.
abbrev pub HasArgs : Request → Type 0
HasArgs request = (request.store_args ≢ none) ⊎ (key_eq request.method store_method ≡ false)

store_contact-IsNode :
    (n : Node) (hash : Bitmap) (c : Contact) → IsNode n → IsNode (store_contact n hash c)
unfolding store_contact
store_contact-IsNode n hash c h = record {
  id_good = h.id_good;
  table = h.table;
  same = h.same;
  complete = (upsert-IsStore n.store hash c h.complete).0;
  secrets = h.secrets;
}

-- What the switch of handleRequest leaves: nothing, or a valid node with the same id and table.
abbrev Kept : Node → Option (Node × List Message) → Type 0
Kept n none = Unit
Kept n (some (n', out)) = IsNode n' × (n'.id ≡ n.id) × (n'.rt ≡ n.rt)

module _ (sha256 : Bytes → Bytes) (n : Node) (addr : Addr) (request : Request) (h : IsNode n) where
  answer_store-Kept :
      (o : Option StoreArgs) → o ≢ none → Returns (Kept n) (answer_store sha256 n addr request o)
  unfolding answer_store store_contact
  answer_store-Kept none there = absurd (there refl)
  answer_store-Kept (some args) there =
      Returns-if (Kept n) (verify sha256 n.tokens args.value.token request.node_id addr) _ _
        (λ good. (store_contact-IsNode n args.blob_hash _ h, refl, refl)) (λ bad. (h, refl, refl))

  answer_find_node-Kept : (o : Option Bitmap) → Returns (Kept n) (answer_find_node n request o)
  unfolding answer_find_node
  answer_find_node-Kept none = tt
  answer_find_node-Kept (some arg) = (h, refl, refl)

  answer_find_value-Kept :
      (o : Option Bitmap) → Returns (Kept n) (answer_find_value sha256 n addr request o)
  unfolding answer_find_value
  answer_find_value-Kept none = tt
  answer_find_value-Kept (some arg) =
      let (l, found, _) = announced-map n.store arg h.complete in rw found (h, refl, refl)

  given : HasArgs request → key_eq request.method store_method ≡ true → request.store_args ≢ none
  given (inl there) stores = there
  given (inr other) stores = absurd (true_ne_false (sym stores ∙ other))

  answer-Kept : HasArgs request → Returns (Kept n) (answer sha256 n addr request)
  unfolding answer
  answer-Kept args =
      Returns-if (Kept n) (key_eq request.method ping_method) _ _ (λ _. (h, refl, refl))
        (λ _.
          Returns-if (Kept n) (key_eq request.method store_method) _ _
            (λ stores. answer_store-Kept request.store_args (given args stores))
            (λ _.
              Returns-if (Kept n) (key_eq request.method find_node_method) _ _
                (λ _. answer_find_node-Kept request.arg)
                (λ _.
                  Returns-if (Kept n) (key_eq request.method find_value_method) _ _
                    (λ _. answer_find_value-Kept request.arg) (λ _. tt))))

  refresh-Kept :
      (now : ℕ) (o : Option (Node × List Message))
      → IsBitmap request.node_id
      → n.id ≢ request.node_id
      → Kept n o
      → Returns (λ r. IsNode r.0) (refresh_sender now addr request o n)
  unfolding refresh_sender
  refresh-Kept now none good other k = h
  refresh-Kept now (some (n', out)) good other (h', same_id, same_rt) =
      let ne : n'.rt.id ≢ request.node_id = λ e. other (sym (h'.same ∙ same_id) ∙ e) in
      let (_, _, _, _, _, _, e, valid) =
        fresh-Updated n'.rt (contact_at request.node_id addr) h'.table good ne now in
      rw e (record {
        id_good = h'.id_good;
        table = valid;
        same = h'.same;
        complete = h'.complete;
        secrets = h'.secrets;
      })

  -- A request with a well-formed sender does not make a valid node panic: handleRequest returns, with
  -- a valid node, provided that a store request comes with its arguments.
  pub handle_request-IsNode :
      (now : ℕ)
      → IsBitmap request.node_id
      → HasArgs request
      → Returns (λ r. IsNode r.0) (handle_request sha256 now n addr request)
  unfolding handle_request
  handle_request-IsNode now good args =
      let P : (Node × List Message) → Type 0 = λ r. IsNode r.0 in
      let test = equals_iff request.node_id n.id good h.id_good in
      Returns-if P (equals request.node_id n.id) _ _ (λ _. h)
        (λ foreign.
          Returns-if P n.overridden _ _ (λ _. h)
            (λ _.
              let other : n.id ≢ request.node_id =
                λ e. true_ne_false (sym (test.1 (sym e)) ∙ foreign) in
              Returns-bind (Kept n) P (answer sha256 n addr request) _ (answer-Kept args)
                (λ o k. refresh-Kept now o good other k)))
