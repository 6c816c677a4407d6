-- ===== src/Node/Queries.antt =====
-- dht/node.go, SendAsync: a query before it waits, what it meets and how it ends.
use lbry_go.Prelude.{ℕ, zero, suc, Bool, Option, none, some, if◌then◌else◌, Run, ok, ◌>>=◌}
use lbry_go.Bitmap.{equals}
use lbry_go.Contact.{Contact}
use lbry_go.Table.{table_fail}
use lbry_go.Messages.{MessageId, Request, Response}
use lbry_go.Node.{Transaction, Node, tx_insert, tx_delete}

-- How one attempt of SendAsync ends.
pub data Wait : Type 0 where
  send_failed : Wait
  answered_by : Response → Wait
  stopped : Wait
  timed_out : Wait

-- How the loop of attempts ends.
pub data Ending : Type 0 where
  delivered : Response → Ending
  given_up : Ending
  unanswered : Ending

-- dht/config.go, udpRetry.
abbrev pub udp_retry : ℕ
udp_retry = 1

unfoldable pub attempts : ℕ → ℕ → (ℕ → Wait) → Ending
attempts zero i waits = unanswered
attempts (suc left) i waits =
    let rest = attempts left (suc i) waits in
    elim (waits i) [
      | send_failed ↦ rest
      | answered_by res ↦ delivered res
      | stopped ↦ given_up
      | timed_out ↦ rest
    ]

-- SendAsync up to the first attempt, with the new message id; `none` for a query to the node itself.
unfoldable pub send_start :
    Node → Contact → Request → Bool → MessageId → Option (Node × Transaction)
send_start n contact req skip_id_check message_id =
    let tx : Transaction = record {
      contact = contact;
      req = record req { id = message_id; node_id = n.id };
      skip_id_check = skip_id_check;
    } in
    if equals contact.id n.id then none else some (tx_insert n tx, tx)

-- SendAsync from the end of its attempts on, on the node as it then is.
unfoldable pub send_end : Node → Transaction → Ending → Run (Node × Option Response)
send_end n tx (delivered res) = ok (tx_delete n tx.req.id, some res)
send_end n tx given_up = ok (tx_delete n tx.req.id, none)
send_end n tx unanswered = do
  rt ← table_fail n.rt tx.contact
  ok (tx_delete (record n { rt = rt }) tx.req.id, none)
