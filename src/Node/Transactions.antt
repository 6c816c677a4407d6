-- ===== src/Node/Transactions.antt =====
-- dht/node.go, SendAsync: the life of a transaction.
use lbry_go.Prelude.{
  ◌≡◌, ◌⊎◌, refl, ap, sym, ◌∙◌, Bool, true, false, not, List, [], ◌∷◌, none, some, if◌then◌else◌,
  Bool-cases, inl, inr,
}
use lbry_go.Bitmap.{equals}
use lbry_go.Contact.{Contact, contact_equals}
use lbry_go.OrderedMap.{key_eq}
use lbry_go.OrderedMap.Places.{key_eq_iff, key_eq_self, key_eq_comm}
use lbry_go.Messages.{MessageId, Request}
use lbry_go.Node.{Node, Transaction, put_tx, cut_tx, lookup_tx, tx_insert, tx_delete, tx_find}
use lbry_go.Node.Queries.{send_start}

abbrev Pending : Type 0
Pending = List (MessageId × Transaction)

-- No message id stands for two transactions.
abbrev pub NoRepeats : Pending → Type 0
NoRepeats [] = Unit
NoRepeats ((k, t) ∷ l) = (lookup_tx k l ≡ none) × NoRepeats l

lookup_tx-put_tx :
    (j id : MessageId) (tx : Transaction) (l : Pending)
    → lookup_tx j (put_tx id tx l) ≡ (if key_eq id j then some tx else lookup_tx j l)
unfolding lookup_tx put_tx
lookup_tx-put_tx j id tx [] = refl
lookup_tx-put_tx j id tx ((k, t) ∷ l) = elim (Bool-cases (key_eq k id)) [
  | inl same ↦
      let e : key_eq k j ≡ key_eq id j = ap (λ z. key_eq z j) ((key_eq_iff k id).0 same) in
      rw (same, e) (elim (Bool-cases (key_eq id j)) [ inl here ↦ rw here | inr away ↦ rw away ])
  | inr other ↦ elim (Bool-cases (key_eq k j)) [
    | inl here ↦
        let e : key_eq id j ≡ false =
          ap (key_eq id) (sym ((key_eq_iff k j).0 here)) ∙ key_eq_comm id k ∙ other in
        rw (other, here, e)
    | inr away ↦ rw (other, away) (lookup_tx-put_tx j id tx l)
  ]
]

lookup_tx-cut_tx :
    (j id : MessageId) (l : Pending)
    → NoRepeats l
    → lookup_tx j (cut_tx id l) ≡ (if key_eq id j then none else lookup_tx j l)
unfolding lookup_tx cut_tx
lookup_tx-cut_tx j id [] d = elim (Bool-cases (key_eq id j)) [
  | inl here ↦ rw here
  | inr away ↦ rw away
]
lookup_tx-cut_tx j id ((k, t) ∷ l) (fresh, d) = elim (Bool-cases (key_eq k id)) [
  | inl same ↦
      let e : key_eq k j ≡ key_eq id j = ap (λ z. key_eq z j) ((key_eq_iff k id).0 same) in
      rw same (elim (Bool-cases (key_eq id j)) [
        | inl here ↦ rw here (ap (λ z. lookup_tx z l) (sym ((key_eq_iff k j).0 (e ∙ here))) ∙ fresh)
        | inr away ↦ rw (away, e ∙ away)
      ])
  | inr other ↦ rw other (elim (Bool-cases (key_eq k j)) [
    | inl here ↦
        let apart : key_eq id j ≡ false =
          ap (key_eq id) (sym ((key_eq_iff k j).0 here)) ∙ key_eq_comm id k ∙ other in
        rw (here, apart)
    | inr away ↦ rw away (lookup_tx-cut_tx j id l d)
  ])
]

put_tx-NoRepeats :
    (id : MessageId) (tx : Transaction) (l : Pending) → NoRepeats l → NoRepeats (put_tx id tx l)
unfolding lookup_tx put_tx
put_tx-NoRepeats id tx [] d = (refl, tt)
put_tx-NoRepeats id tx ((k, t) ∷ l) (fresh, d) = elim (Bool-cases (key_eq k id)) [
  | inl same ↦ rw same (fresh, d)
  | inr other ↦
      let apart : key_eq id k ≡ false = key_eq_comm id k ∙ other in
      rw other (lookup_tx-put_tx k id tx l ∙ rw apart fresh, put_tx-NoRepeats id tx l d)
]

-- The transaction is the one under its message id, and is found for the contact that was asked; every
-- other id stands for what it stood for.
pub record Lifetime (n : Node) (tx : Transaction) (n' : Node) : Type 0 where
  pub waits :
      (j : MessageId)
      → lookup_tx j n'.transactions
        ≡ (if key_eq tx.req.id j then some tx else lookup_tx j n.transactions)
  pub matched :
      (c : Contact)
      → contact_equals tx.contact c (not tx.skip_id_check) ≡ true
      → tx_find n' tx.req.id c ≡ some tx
  pub distinct : NoRepeats n'.transactions

-- SendAsync, where no message id stands for two transactions: a query to the node itself is not sent,
-- and any other is found under its message id for the contact that was asked, while every other id
-- stands for what it stood for.
pub send_start-Lifetime :
    (n : Node) (c : Contact) (q : Request) (skip_id_check : Bool) (id : MessageId)
    → NoRepeats n.transactions
    → ((equals c.id n.id ≡ true) × (send_start n c q skip_id_check id ≡ none))
      ⊎ ((equals c.id n.id ≡ false)
          × ((n' : Node) × (tx : Transaction) × (send_start n c q skip_id_check id ≡ some (n', tx))
              × Lifetime n tx n'))
unfolding send_start tx_insert tx_find
send_start-Lifetime n c q skip_id_check id d = elim (Bool-cases (equals c.id n.id)) [
  | inl own ↦ inl (own, rw own)
  | inr other ↦
      let tx : Transaction = record {
        contact = c;
        req = record q { id = id; node_id = n.id };
        skip_id_check = skip_id_check;
      } in
      let waits : (j : MessageId)
          → lookup_tx j (put_tx id tx n.transactions)
            ≡ (if key_eq id j then some tx else lookup_tx j n.transactions) =
        λ j. lookup_tx-put_tx j id tx n.transactions in
      let there : lookup_tx id (put_tx id tx n.transactions) ≡ some tx =
        waits id ∙ rw (key_eq_self id) in
      inr (
        other,
        (
          record n { transactions = put_tx id tx n.transactions },
          tx,
          rw other,
          record {
            waits = waits;
            matched = λ c' same. rw (tx_find, there, same);
            distinct = put_tx-NoRepeats id tx n.transactions d;
          },
        ),
      )
]

-- A query that ends with a response or because the node stops: its message id stands for nothing any
-- more, and every other one for what it stood for.
pub tx_delete-lookup_tx :
    (n : Node) (id j : MessageId)
    → NoRepeats n.transactions
    → lookup_tx j (tx_delete n id).transactions
      ≡ (if key_eq id j then none else lookup_tx j n.transactions)
unfolding tx_delete
tx_delete-lookup_tx n id j d = lookup_tx-cut_tx j id n.transactions d
