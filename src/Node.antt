-- ===== src/Node.antt =====
-- dht/node.go: a node of the DHT, and what it does with each message that it receives. A handler
-- returns the node and the messages that it hands to sendMessage, whose errors are only logged. The
-- handlers run one after the other on one goroutine; what the network does is an argument.
pub mod Transactions
pub mod Queries
pub mod Requests
pub mod Responses
pub mod Packets
pub mod Steps
pub mod Announcing
use lbry_go.Prelude.{
  ℕ, zero, suc, ◌+◌, ◌≡◌, Bool, true, false, not, ◌&&◌, ◌||◌, List, [], ◌∷◌, ◌++◌, length, take,
  get_elem?, Option, none, some, ltb, leb, ◌==◌, if◌then◌else◌, Run, ok, err, panic, out_of_fuel,
  ◌>>=◌, map,
}
use lbry_go.Prelude.Int.{ℤ, pos}
use lbry_go.Bitmap.{Bitmap, equals}
use lbry_go.Contact.{Contact, contact_equals}
use lbry_go.Bucket.{bucket_size}
use lbry_go.Table.{RoutingTable, new_routing_table, update, fresh, table_fail, get_closest}
use lbry_go.OrderedMap.{key_eq}
use lbry_go.Store.{ContactStore, new_store, upsert, announced}
use lbry_go.Tokens.{Addr, TokenManager, get_token, verify}
use lbry_go.Messages.{
  Bytes, MessageId, Request, Response, ErrorMessage, Message, a_request, a_response, an_error,
  StoreArgs, ping_method, store_method, find_node_method, find_value_method, ping_success_response,
  store_success_response, request_type, response_type, error_type, args_debug,
}

-- The response channel is left out: a response goes to whoever waits for the transaction.
pub record Transaction : Type 0 where
  pub contact : Contact
  pub req : Request
  pub skip_id_check : Bool

-- `overridden` is whether a request handler is set.
pub record Node : Type 0 where
  pub id : Bitmap
  pub tokens : TokenManager
  pub transactions : List (MessageId × Transaction)
  pub rt : RoutingTable
  pub store : ContactStore
  pub overridden : Bool

-- The secrets are empty until Connect starts the token manager.
unfoldable pub new_node : Bitmap → Run Node
new_node id = do
  rt ← new_routing_table id
  ok (record {
    id = id;
    tokens = record { secret = []; prev_secret = [] };
    transactions = [];
    rt = rt;
    store = new_store;
    overridden = false;
  })

-- `transactions[id] = tx` and `delete(transactions, id)`.
unfoldable pub put_tx :
    MessageId → Transaction → List (MessageId × Transaction) → List (MessageId × Transaction)
put_tx id tx [] = (id, tx) ∷ []
put_tx id tx ((k, t) ∷ l) = if key_eq k id then (k, tx) ∷ l else (k, t) ∷ put_tx id tx l

unfoldable pub cut_tx : MessageId → List (MessageId × Transaction) → List (MessageId × Transaction)
cut_tx id [] = []
cut_tx id ((k, t) ∷ l) = if key_eq k id then l else (k, t) ∷ cut_tx id l

unfoldable pub lookup_tx : MessageId → List (MessageId × Transaction) → Option Transaction
lookup_tx id [] = none
lookup_tx id ((k, t) ∷ l) = if key_eq k id then some t else lookup_tx id l

unfoldable pub tx_insert : Node → Transaction → Node
tx_insert n tx = record n { transactions = put_tx tx.req.id tx n.transactions }

unfoldable pub tx_delete : Node → MessageId → Node
tx_delete n id = record n { transactions = cut_tx id n.transactions }

unfoldable pub tx_find : Node → MessageId → Contact → Option Transaction
tx_find n id c = elim (lookup_tx id n.transactions) [
  | none ↦ none
  | some t ↦ if not (contact_equals t.contact c (not t.skip_id_check)) then none else some t
]

unfoldable pub count_active_transactions : Node → ℕ
count_active_transactions n = length n.transactions

unfoldable pub store_contact : Node → Bitmap → Contact → Node
store_contact n hash c = record n { store = upsert n.store hash c }

unfoldable pub add_known_node : ℕ → Node → Contact → Run Node
add_known_node now n c = do rt ← update now n.rt c; ok (record n { rt = rt })

-- `Contact{ID: id, IP: addr.IP, Port: addr.Port}`
abbrev pub contact_at : Bitmap → Addr → Contact
contact_at id addr = record { id = id; ip = addr.ip; port = addr.port; peer_port = pos 0 }

-- `Response{ID: request.ID, NodeID: n.id}`
abbrev pub reply_to : Node → Request → Response
reply_to n request = record {
  id = request.id;
  node_id = n.id;
  data_text = [];
  contacts = [];
  find_value_key = [];
  token = [];
  protocol_version = pos 0;
}

abbrev pub invalid_token : Bytes
invalid_token =
    b'i' ∷ b'n' ∷ b'v' ∷ b'a' ∷ b'l' ∷ b'i' ∷ b'd' ∷ b'-' ∷ b't' ∷ b'o' ∷ b'k' ∷ b'e' ∷ b'n' ∷ []

-- What follows the switch: the sender is refreshed.
unfoldable pub refresh_sender :
    ℕ → Addr → Request → Option (Node × List Message) → Node → Run (Node × List Message)
refresh_sender now addr request none n = ok (n, [])
refresh_sender now addr request (some (n', out)) n = do
  rt ← fresh now n'.rt (contact_at request.node_id addr)
  ok (record n' { rt = rt }, out)

unfoldable pub answer_find_node :
    Node → Request → Option Bitmap → Run (Option (Node × List Message))
answer_find_node n request none = ok none
answer_find_node n request (some arg) = ok (
    some (
      n,
      a_response (record (reply_to n request) { contacts = get_closest n.rt arg bucket_size }) ∷ [],
    ))

module _ (sha256 : Bytes → Bytes) where
  -- The cases of the switch over the method, for the argument; `none` is a return from the whole
  -- handler.
  unfoldable pub answer_store :
      Node → Addr → Request → Option StoreArgs → Run (Option (Node × List Message))
  answer_store n addr request none = panic "nil pointer dereference"
  answer_store n addr request (some args) =
      if verify sha256 n.tokens args.value.token request.node_id addr
      then ok (
          some (
            store_contact n args.blob_hash (record {
              id = args.node_id;
              ip = addr.ip;
              port = addr.port;
              peer_port = args.value.port;
            }),
            a_response (record (reply_to n request) { data_text = store_success_response }) ∷ [],
          ))
      else ok (
          some (
            n,
            an_error (record {
              id = request.id;
              node_id = n.id;
              exception_type = invalid_token;
              response = [];
            })
                ∷ [],
          ))

  -- The response to findValue, with the contacts that the store has.
  unfoldable pub value_response : Node → Addr → Request → Bitmap → List Contact → Response
  value_response n addr request arg contacts =
      let res = record (reply_to n request) {
        token = get_token sha256 n.tokens request.node_id addr;
      } in
      if ltb 0 (length contacts)
      then record res { find_value_key = arg; contacts = contacts }
      else record res { contacts = get_closest n.rt arg bucket_size }

  unfoldable pub answer_find_value :
      Node → Addr → Request → Option Bitmap → Run (Option (Node × List Message))
  answer_find_value n addr request none = ok none
  answer_find_value n addr request (some arg) = do
    contacts ← announced n.store arg
    ok (some (n, a_response (value_response n addr request arg contacts) ∷ []))

  -- The switch over the method.
  unfoldable pub answer : Node → Addr → Request → Run (Option (Node × List Message))
  answer n addr request =
      if key_eq request.method ping_method
      then ok (
          some (
            n,
            a_response (record (reply_to n request) { data_text = ping_success_response }) ∷ [],
          ))
      else if key_eq request.method store_method
      then answer_store n addr request request.store_args
      else if key_eq request.method find_node_method
      then answer_find_node n request request.arg
      else if key_eq request.method find_value_method
      then answer_find_value n addr request request.arg
      else ok none

  unfoldable pub handle_request : ℕ → Node → Addr → Request → Run (Node × List Message)
  handle_request now n addr request =
      if equals request.node_id n.id
      then ok (n, [])
      else if n.overridden
      then ok (n, [])
      else do answered ← answer n addr request; refresh_sender now addr request answered n

-- The node, and the transaction to which the response is handed, if one waits.
unfoldable pub handle_response : ℕ → Node → Addr → Response → Run (Node × Option Transaction)
handle_response now n addr response = do
  let tx = tx_find n response.id (contact_at response.node_id addr)
  rt ← update now n.rt (contact_at response.node_id addr)
  ok (record n { rt = rt }, tx)

unfoldable pub handle_error : ℕ → Node → Addr → ErrorMessage → Run Node
handle_error now n addr e = do
  rt ← fresh now n.rt (contact_at e.node_id addr)
  ok (record n { rt = rt })

abbrev pub head_of_dict : List Bytes
head_of_dict =
    (b'd' ∷ b'1' ∷ b':' ∷ b'0' ∷ b'i' ∷ []) ∷ (b'd' ∷ b'i' ∷ b'0' ∷ b'e' ∷ b'i' ∷ []) ∷ []

-- extras/util/slice.go, InSlice.
unfoldable pub in_slice : Bytes → List Bytes → Bool
in_slice str [] = false
in_slice str (v ∷ values) = if key_eq str v then true else in_slice str values

-- An error of a decoder is logged, and the message is dropped.
unfoldable pub or_drop : {A B : Type 0} → Run A → B → (A → Run B) → Run B
or_drop (ok a) b f = f a
or_drop (err e) b f = ok b
or_drop (panic e) b f = panic e
or_drop out_of_fuel b f = out_of_fuel

-- `decode_request`, `decode_response` and `decode_error` are bencode.DecodeBytes.
module _ (sha256 : Bytes → Bytes) (decode_request : Bytes → Run Request)
    (decode_response : Bytes → Run Response) (decode_error : Bytes → Run ErrorMessage) where
  unfoldable pub dispatch : ℕ → Node → Addr → Bytes → ℕ → Run (Node × List Message)
  dispatch now n addr bytes kind =
      if kind == b'0' + request_type
      then or_drop (decode_request bytes) (n, []) (handle_request sha256 now n addr)
      else if kind == b'0' + response_type
      then or_drop (decode_response bytes) (n, [])
          (λ res.
            args_debug res >>= λ _. handle_response now n addr res >>= λ (n', tx). ok (n', []))
      else if kind == b'0' + error_type
      then or_drop (decode_error bytes) (n, [])
          (λ e. handle_error now n addr e >>= λ n'. ok (n', []))
      else ok (n, [])

  unfoldable pub handle_packet : ℕ → Node → Addr → Bytes → Run (Node × List Message)
  handle_packet now n addr bytes =
      if ltb (length bytes) 5
      then panic "slice bounds out of range"
      else if not (in_slice (take 5 bytes) head_of_dict)
      then ok (n, [])
      else elim (get_elem? bytes 5) [
        | none ↦ panic "index out of range"
        | some kind ↦ dispatch now n addr bytes kind
      ]
