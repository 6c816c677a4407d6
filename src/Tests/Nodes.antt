-- ===== src/Tests/Nodes.antt =====
-- dht/node.go: the theorems on a node with two contacts, with decoders that refuse every packet and the
-- message itself for its hash.
use lbry_go.Prelude.{
  ◌<◌, ◌≤◌, ◌≡◌, ◌≢◌, ◌⊎◌, refl, false, [], ◌∷◌, length, take, replicate, none, some, if◌then◌else◌,
  ok, err, panic, Returns, inl, inr, arith,
}
use lbry_go.Prelude.Int.{pos}
use lbry_go.Bitmap.{IsBitmap, equals}
use lbry_go.OrderedMap.{key_eq}
use lbry_go.Store.{new_store}
use lbry_go.Store.Laws.{new_store-IsStore}
use lbry_go.Tokens.{Addr, TokenManager, start, rotate_secret, copy_bytes}
use lbry_go.Messages.{
  Bytes, Request, Response, StoreArgs, ErrorMessage, ping_method, store_method, find_value_method,
}
use lbry_go.Node.{
  Node, Transaction, new_node, tx_insert, put_tx, handle_request, handle_response, handle_error,
  handle_packet, value_response, lookup_tx, in_slice, head_of_dict,
}
use lbry_go.Node.Queries.{send_start}
use lbry_go.Node.Transactions.{NoRepeats}
use lbry_go.Node.Requests.{IsNode, HasArgs, handle_request-IsNode}
use lbry_go.Node.Responses.{Handled, handle_response_cases, handle_error_cases}
use lbry_go.Node.Steps.{Reach, begin, next, here, Reach-handle_request}
use lbry_go.Table.Closest.{new_routing_table-IsTable}
use lbry_go.Node.Packets.{Breaks, handle_packet_cases}
use lbry_go.Node.Announcing.{Accepted, handle_request-value_response}
use lbry_go.Tests.{small, small_lem, small-ne, contact, self, table, table-IsTable}

abbrev hash : Bytes → Bytes
hash message = message

abbrev addr : Addr
addr = record { ip = 10 ∷ 0 ∷ 0 ∷ 9 ∷ []; port = pos 4444 }

abbrev node : Node
node = record {
  id = self;
  tokens = record { secret = replicate 64 1; prev_secret = replicate 64 2 };
  transactions = [];
  rt = table;
  store = new_store;
  overridden = false;
}

node-IsNode : IsNode node
node-IsNode = record {
  id_good = (small_lem 1 (omega arith)).0;
  table = table-IsTable;
  same = refl;
  complete = new_store-IsStore;
  secrets = record { current = refl; previous = refl };
}

id9 : IsBitmap (small 9)
id9 = (small_lem 9 (omega arith)).0

abbrev ping : Request
ping = record {
  id = 7 ∷ [];
  node_id = small 9;
  method = ping_method;
  arg = none;
  store_args = none;
  protocol_version = pos 1;
}

ping-HasArgs : HasArgs ping
unfolding key_eq
ping-HasArgs = inr refl

handle_request-IsNode_example : Returns (λ r. IsNode r.0) (handle_request hash 5 node addr ping)
handle_request-IsNode_example =
    handle_request-IsNode hash node addr ping node-IsNode 5 id9 ping-HasArgs

abbrev pong : Response
pong = record {
  id = 7 ∷ [];
  node_id = self;
  data_text = [];
  contacts = [];
  find_value_key = [];
  token = [];
  protocol_version = pos 1;
}

handle_response_cases_example :
    ((self ≢ self)
      × Returns (λ (n', tx). Handled 5 node addr pong n' tx) (handle_response 5 node addr pong))
    ⊎ ((self ≡ self)
        × (handle_response 5 node addr pong
            ≡ panic "routing table does not have a bucket for its own id"))
handle_response_cases_example =
    handle_response_cases 5 node addr node-IsNode pong (small_lem 1 (omega arith)).0

abbrev failure : ErrorMessage
failure = record { id = 7 ∷ []; node_id = small 9; exception_type = []; response = [] }

handle_error_cases_example :
    ((self ≢ small 9) × Returns IsNode (handle_error 5 node addr failure))
    ⊎ ((self ≡ small 9)
        × (handle_error 5 node addr failure
            ≡ panic "routing table does not have a bucket for its own id"))
handle_error_cases_example = handle_error_cases 5 node addr node-IsNode failure id9

-- "d1:0i1e", which the decoder of this test takes for a response with a token of one byte.
abbrev bytes : Bytes
bytes = b'd' ∷ b'1' ∷ b':' ∷ b'0' ∷ b'i' ∷ b'1' ∷ b'e' ∷ []

abbrev clipped : Response
clipped = record pong { node_id = small 9; token = 5 ∷ [] }

handle_packet_cases_example :
    ((6 ≤ length bytes)
      × ((Breaks (λ b. ok clipped) bytes
            × (handle_packet hash (λ b. err "x") (λ b. ok clipped) (λ b. err "x") 5 node addr bytes
                ≡ panic "slice bounds out of range"))
          ⊎ (¬ Breaks (λ b. ok clipped) bytes
              × Returns
                  (λ r. IsNode r.0)
                  (handle_packet hash
                    (λ b. err "x")
                    (λ b. ok clipped)
                    (λ b. err "x")
                    5
                    node
                    addr
                    bytes))))
    ⊎ (((length bytes < 5)
          × (handle_packet hash (λ b. err "x") (λ b. ok clipped) (λ b. err "x") 5 node addr bytes
              ≡ panic "slice bounds out of range"))
        ⊎ ((length bytes ≡ 5)
            × (handle_packet hash (λ b. err "x") (λ b. ok clipped) (λ b. err "x") 5 node addr bytes
                ≡ (if in_slice (take 5 bytes) head_of_dict
                    then panic "index out of range"
                    else ok (node, [])))))
handle_packet_cases_example =
    handle_packet_cases hash (λ b. err "x") (λ b. ok clipped) (λ b. err "x") 5 node addr bytes
      node-IsNode tt (id9, small-ne 1 9 (omega arith)) tt

abbrev waiting : Node
waiting = record node {
  transactions = (7 ∷ [], record { contact = contact 9; req = ping; skip_id_check = false }) ∷ [];
}

waiting-NoRepeats : NoRepeats waiting.transactions
unfolding lookup_tx
waiting-NoRepeats = (refl, tt)

abbrev ask : Request
ask = record ping { method = find_value_method; arg = some (small 40) }

abbrev announcement : StoreArgs
announcement = record {
  blob_hash = small 40;
  value = record {
    token = (value_response hash node addr ask (small 40) []).token;
    lbry_id = small 9;
    port = pos 3333;
  };
  node_id = small 9;
  self_store = false;
}

abbrev announce : Request
announce = record ping { method = store_method; store_args = some announcement }

other : equals (small 9) self ≡ false
unfolding equals
other = refl

handle_request-value_response_example :
    Returns (Accepted node announce announcement) (handle_request hash 5 node addr announce)
handle_request-value_response_example =
    handle_request-value_response hash 5 node node addr ask announce announcement (small 40) []
      node-IsNode node-IsNode (inl refl) refl id9 other refl refl refl refl

abbrev begun : Node
begun = record {
  id = self;
  tokens = record { secret = []; prev_secret = [] };
  transactions = [];
  rt = (new_routing_table-IsTable self (small_lem 1 (omega arith)).0).0;
  store = new_store;
  overridden = false;
}

begun_lem : new_node self ≡ ok begun
unfolding new_node
begun_lem = rw (new_routing_table-IsTable self (small_lem 1 (omega arith)).0).1 refl

abbrev started : TokenManager
started = record { secret = replicate 64 3; prev_secret = replicate 64 0 }

started_lem : start (some (replicate 64 3)) ≡ ok started
unfolding start rotate_secret copy_bytes
started_lem = refl

abbrev asked : Transaction
asked = record {
  contact = contact 9;
  req = record ping { id = 7 ∷ []; node_id = self };
  skip_id_check = false;
}

abbrev asking : Node
asking = record begun { tokens = started; transactions = (7 ∷ [], asked) ∷ [] }

asking-Reach : Reach hash (record begun { tokens = started }) asking
unfolding send_start tx_insert put_tx equals
asking-Reach = next here (begin (contact 9) ping false (7 ∷ []) asked refl)

Reach-handle_request_example : Returns (λ r. IsNode r.0) (handle_request hash 5 asking addr ping)
Reach-handle_request_example =
    Reach-handle_request hash self (replicate 64 3) begun started asking 5 addr ping
      (small_lem 1 (omega arith)).0 refl begun_lem started_lem asking-Reach id9 ping-HasArgs
