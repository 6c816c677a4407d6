-- ===== src/Node/Responses.antt =====
-- dht/node.go, handleResponse, handleError and handlePacket.
use lbry_go.Prelude.{
  ℕ, ◌≡◌, ◌≢◌, ◌⊎◌, true_ne_false, refl, ap, sym, ◌∙◌, true, not, if◌then◌else◌, Option, none, some,
  panic, Returns, Bool-cases, inl, inr,
}
use lbry_go.Bitmap.{IsBitmap, equals}
use lbry_go.Bitmap.Order.{equals_iff}
use lbry_go.Contact.{Contact, contact_equals}
use lbry_go.Table.{RoutingTable, IsTable, update, fresh, table_fail}
use lbry_go.Table.Cover.{bucket_for-Covering}
use lbry_go.Table.Updating.{Stored}
use lbry_go.Table.Ends.{update-Stored, fresh-Updated}
use lbry_go.Tokens.{Addr}
use lbry_go.Messages.{MessageId, Response, ErrorMessage}
use lbry_go.Node.{Node, Transaction, lookup_tx, tx_find, contact_at, handle_response, handle_error}
use lbry_go.Node.Requests.{IsNode}

pub Stored-id :
    {now : ℕ} {rt : RoutingTable} {c : Contact} {rt' : RoutingTable}
    → Stored now rt c rt'
    → rt'.id ≡ rt.id
Stored-id (Stored.direct _ _ _ e) = ap (λ (t : RoutingTable). t.id) e
Stored-id (Stored.in_left _ _ _ _ _ _ e) = ap (λ (t : RoutingTable). t.id) e
Stored-id (Stored.in_right _ _ _ _ _ _ e) = ap (λ (t : RoutingTable). t.id) e
Stored-id (Stored.misplaced _ _ _ _ e) = ap (λ (t : RoutingTable). t.id) e

pub with_table :
    (n : Node) (rt : RoutingTable)
    → IsNode n
    → IsTable rt
    → rt.id ≡ n.rt.id
    → IsNode (record n { rt = rt })
with_table n rt h t e = record {
  id_good = h.id_good;
  table = t;
  same = e ∙ h.same;
  complete = h.complete;
  secrets = h.secrets;
}

-- A transaction that is found was sent under the id, to the address that the response comes from,
-- and to its node, unless the check of the node is skipped.
pub record Matches (n : Node) (id : MessageId) (c : Contact) (t : Transaction) : Type 0 where
  pub pending : lookup_tx id n.transactions ≡ some t
  pub from : contact_equals t.contact c (not t.skip_id_check) ≡ true

-- The transaction that is found, if one matches.
abbrev pub Handed : Node → MessageId → Contact → Option Transaction → Type 0
Handed n id c none = (t : Transaction) → ¬ Matches n id c t
Handed n id c (some t) = Matches n id c t

pub tx_find-Handed : (n : Node) (id : MessageId) (c : Contact) → Handed n id c (tx_find n id c)
unfolding tx_find
tx_find-Handed n id c = looked (lookup_tx id n.transactions) refl
  where
    some_ne_none : {t : Transaction} → some t ≢ none
    some_ne_none e = cc

    some_injective : {t u : Transaction} → some t ≡ some u → t ≡ u
    some_injective e = cc

    looked :
        (o : Option Transaction)
        → lookup_tx id n.transactions ≡ o
        → Handed n id c (elim o [
          | none ↦ none
          | some t ↦ if not (contact_equals t.contact c (not t.skip_id_check)) then none else some t
        ])
    looked none e = λ t m. some_ne_none (sym m.pending ∙ e)
    looked (some t) e = elim (Bool-cases (contact_equals t.contact c (not t.skip_id_check))) [
      | inl from ↦ rw from (record { pending = e; from = from })
      | inr differs ↦ rw differs (λ t' m.
          let same = some_injective (sym m.pending ∙ e) in
          true_ne_false (
            sym m.from ∙ ap (λ z. contact_equals z.contact c (not z.skip_id_check)) same ∙ differs))
    ]

-- What handleResponse returns.
pub record Handled (now : ℕ) (n : Node) (addr : Addr) (response : Response) (n' : Node)
    (tx : Option Transaction) : Type 0 where
  pub valid : IsNode n'
  pub stored : Stored now n.rt (contact_at response.node_id addr) n'.rt
  pub kept : n' ≡ record n { rt = n'.rt }
  pub handed : Handed n response.id (contact_at response.node_id addr) tx

pub update-own :
    (now : ℕ) (rt : RoutingTable) (c : Contact)
    → IsTable rt
    → IsBitmap c.id
    → rt.id ≡ c.id
    → update now rt c ≡ panic "routing table does not have a bucket for its own id"
unfolding update
update-own now rt c h good own = rw ((bucket_for-Covering rt c.id h good).1 own) refl

fresh-own :
    (now : ℕ) (rt : RoutingTable) (c : Contact)
    → IsTable rt
    → IsBitmap c.id
    → rt.id ≡ c.id
    → fresh now rt c ≡ panic "routing table does not have a bucket for its own id"
unfolding fresh
fresh-own now rt c h good own = rw ((bucket_for-Covering rt c.id h good).1 own) refl

pub table_fail-own :
    (rt : RoutingTable) (c : Contact)
    → IsTable rt
    → IsBitmap c.id
    → rt.id ≡ c.id
    → table_fail rt c ≡ panic "routing table does not have a bucket for its own id"
unfolding table_fail
table_fail-own rt c h good own = rw ((bucket_for-Covering rt c.id h good).1 own) refl

module _ (now : ℕ) (n : Node) (addr : Addr) (h : IsNode n) where
  pub handle_response-other :
      (response : Response)
      → IsBitmap response.node_id
      → n.id ≢ response.node_id
      → Returns
          (λ (n', tx). Handled now n addr response n' tx)
          (handle_response now n addr response)
  unfolding handle_response
  handle_response-other response good other =
      let (rt, e, s, t) =
        update-Stored now n.rt (contact_at response.node_id addr) h.table good
          (λ f. other (sym h.same ∙ f)) in
      rw e (record {
        valid = with_table n rt h t (Stored-id s);
        stored = s;
        kept = refl;
        handed = tx_find-Handed n response.id (contact_at response.node_id addr);
      })

  -- handleResponse on a valid node: a response with the node's own id makes it panic; any other with
  -- a well-formed id is handed to the matching transaction, if there is one, and its sender is given
  -- to Update, which ends in one of its ways (not all of which store it), in a valid node that is
  -- otherwise unchanged.
  pub handle_response_cases :
      (response : Response)
      → IsBitmap response.node_id
      → ((n.id ≢ response.node_id)
          × Returns
              (λ (n', tx). Handled now n addr response n' tx)
              (handle_response now n addr response))
        ⊎ ((n.id ≡ response.node_id)
            × (handle_response now n addr response
                ≡ panic "routing table does not have a bucket for its own id"))
  unfolding handle_response
  handle_response_cases response good =
      let test = equals_iff n.id response.node_id h.id_good good in
      elim (Bool-cases (equals n.id response.node_id)) [
        | inl same ↦ inr (
          test.0 same,
          rw
              (update-own now n.rt (contact_at response.node_id addr) h.table good
                (h.same ∙ test.0 same))
              refl,
        )
        | inr differs ↦
            let other : n.id ≢ response.node_id = λ e. true_ne_false (sym (test.1 e) ∙ differs) in
            inl (other, handle_response-other response good other)
      ]

  pub handle_error-other :
      (e : ErrorMessage)
      → IsBitmap e.node_id
      → n.id ≢ e.node_id
      → Returns IsNode (handle_error now n addr e)
  unfolding handle_error
  handle_error-other e good other =
      let (_, _, _, _, _, _, f, t) =
        fresh-Updated n.rt (contact_at e.node_id addr) h.table good (λ g. other (sym h.same ∙ g))
          now in
      rw f (with_table n _ h t refl)

  -- handleError on a valid node: a message with the node's own id makes it panic, and any other with
  -- a well-formed id leaves a valid node.
  pub handle_error_cases :
      (e : ErrorMessage)
      → IsBitmap e.node_id
      → ((n.id ≢ e.node_id) × Returns IsNode (handle_error now n addr e))
        ⊎ ((n.id ≡ e.node_id)
            × (handle_error now n addr e
                ≡ panic "routing table does not have a bucket for its own id"))
  unfolding handle_error
  handle_error_cases e good =
      let test = equals_iff n.id e.node_id h.id_good good in
      elim (Bool-cases (equals n.id e.node_id)) [
        | inl same ↦ inr (
          test.0 same,
          rw (fresh-own now n.rt (contact_at e.node_id addr) h.table good (h.same ∙ test.0 same))
              refl,
        )
        | inr differs ↦
            let other : n.id ≢ e.node_id = λ f. true_ne_false (sym (test.1 f) ∙ differs) in
            inl (other, handle_error-other e good other)
      ]
