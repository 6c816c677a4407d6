-- ===== src/Messages.antt =====
-- dht/message.go: the messages of the DHT, and the names of the methods. A string is the list of its
-- bytes. The bencode forms are left out, and of argsDebug there is what makes it panic.
use lbry_go.Prelude.{
  ℕ, ◌*◌, List, [], ◌∷◌, length, Bool, Option, ltb, if◌then◌else◌, Run, ok, panic, ◌>>=◌,
}
use lbry_go.Prelude.Int.{ℤ}
use lbry_go.Bitmap.{Bitmap}
use lbry_go.Contact.{Contact}

abbrev pub Bytes : Type 0
Bytes = List ℕ

abbrev pub ping_method : Bytes
ping_method = b'p' ∷ b'i' ∷ b'n' ∷ b'g' ∷ []

abbrev pub store_method : Bytes
store_method = b's' ∷ b't' ∷ b'o' ∷ b'r' ∷ b'e' ∷ []

abbrev pub find_node_method : Bytes
find_node_method = b'f' ∷ b'i' ∷ b'n' ∷ b'd' ∷ b'N' ∷ b'o' ∷ b'd' ∷ b'e' ∷ []

abbrev pub find_value_method : Bytes
find_value_method = b'f' ∷ b'i' ∷ b'n' ∷ b'd' ∷ b'V' ∷ b'a' ∷ b'l' ∷ b'u' ∷ b'e' ∷ []

abbrev pub ping_success_response : Bytes
ping_success_response = b'p' ∷ b'o' ∷ b'n' ∷ b'g' ∷ []

abbrev pub store_success_response : Bytes
store_success_response = b'O' ∷ b'K' ∷ []

abbrev pub request_type : ℕ
request_type = 0

abbrev pub response_type : ℕ
response_type = 1

abbrev pub error_type : ℕ
error_type = 2

abbrev pub MessageId : Type 0
MessageId = Bytes

pub record StoreArgsValue : Type 0 where
  pub token : Bytes
  pub lbry_id : Bitmap
  pub port : ℤ

pub record StoreArgs : Type 0 where
  pub blob_hash : Bitmap
  pub value : StoreArgsValue
  pub node_id : Bitmap
  pub self_store : Bool

-- A nil pointer is `none`.
pub record Request : Type 0 where
  pub id : MessageId
  pub node_id : Bitmap
  pub method : Bytes
  pub arg : Option Bitmap
  pub store_args : Option StoreArgs
  pub protocol_version : ℤ

pub record Response : Type 0 where
  pub id : MessageId
  pub node_id : Bitmap
  pub data_text : Bytes
  pub contacts : List Contact
  pub find_value_key : Bytes
  pub token : Bytes
  pub protocol_version : ℤ

-- `hex.EncodeToString([]byte(str))[:8]`: the encoding has two digits for each byte.
unfoldable pub hex_prefix : Bytes → Run {0} Unit
hex_prefix str = if ltb (2 * length str) 8 then panic "slice bounds out of range" else ok tt

-- Response.argsDebug, whose text is only logged.
unfoldable pub args_debug : Response → Run {0} Unit
args_debug r = if ltb 0 (length r.data_text) then ok tt else do
  _ ← (if ltb 0 (length r.find_value_key) then hex_prefix r.find_value_key else ok tt)
  if ltb 0 (length r.token) then hex_prefix r.token else ok tt

pub record ErrorMessage : Type 0 where
  pub id : MessageId
  pub node_id : Bitmap
  pub exception_type : Bytes
  pub response : List Bytes

pub data Message : Type 0 where
  a_request : Request → Message
  a_response : Response → Message
  an_error : ErrorMessage → Message
