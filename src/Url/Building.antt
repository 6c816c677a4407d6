-- ===== src/Url/Building.antt =====
-- url/url.go, Build: the text of a uri.
use lbry_go.Prelude.{Bool, true, false, not, ◌&&◌, [], ◌∷◌, ◌++◌, if◌then◌else◌}
use lbry_go.Prelude.Int.{ℤ}
use lbry_go.Messages.{Bytes}
use lbry_go.SdBlob.{is_positive}
use lbry_go.Tokens.{itoa}
use lbry_go.Url.{LbryUri, is_empty, has_at, codes, proto_default}

-- The first, unless it is empty.
unfoldable pub or_else : Bytes → Bytes → Bytes
or_else a b = if is_empty a then b else a

unfoldable pub formatted_channel_name : LbryUri → Bytes
formatted_channel_name uri =
    if not (is_empty uri.channel_name)
    then if not (has_at uri.channel_name) then b'@' ∷ uri.channel_name else uri.channel_name
    else []

unfoldable pub primary_claim_name : LbryUri → Bytes
primary_claim_name uri =
    or_else (or_else (or_else uri.claim_name uri.content_name) (formatted_channel_name uri))
      uri.stream_name

unfoldable pub primary_claim_id : LbryUri → Bytes
primary_claim_id uri =
    if is_empty uri.claim_id
    then if not (is_empty (formatted_channel_name uri))
      then uri.channel_claim_id
      else uri.stream_claim_id
    else uri.claim_id

unfoldable pub secondary_claim_name : LbryUri → Bytes
secondary_claim_name uri =
    let name =
      if is_empty uri.claim_name && not (is_empty uri.content_name) then uri.content_name else [] in
    if is_empty name
    then if not (is_empty (formatted_channel_name uri)) then uri.stream_name else name
    else name

unfoldable pub secondary_claim_id : LbryUri → Bytes
secondary_claim_id uri =
    if not (is_empty (secondary_claim_name uri)) then uri.stream_claim_id else []

-- A claim id, or a sequence, or a position, after its separator.
unfoldable pub modifier_text : Bytes → ℤ → ℤ → Bytes
modifier_text claim_id sequence position =
    if not (is_empty claim_id)
    then b'#' ∷ claim_id
    else if is_positive sequence
    then b':' ∷ itoa sequence
    else if is_positive position
    then b'$' ∷ itoa position
    else []

unfoldable pub build : LbryUri → Bool → Bytes → Bool → Bytes
build uri include_proto protocol vanity =
    let start = (if include_proto then protocol else []) ++ primary_claim_name uri in
    let second = secondary_claim_name uri in
    if vanity
    then start
    else start
      ++ (modifier_text (primary_claim_id uri) uri.primary_claim_sequence uri.primary_bid_position
          ++ ((if not (is_empty second) then b'/' ∷ second else [])
              ++ modifier_text (secondary_claim_id uri) uri.secondary_claim_sequence
                  uri.secondary_bid_position))

unfoldable pub uri_string : LbryUri → Bytes
uri_string uri = build uri true proto_default false

unfoldable pub vanity_string : LbryUri → Bytes
vanity_string uri = build uri true proto_default true

unfoldable pub tv_string : LbryUri → Bytes
tv_string uri = build uri true (codes "https://lbry.tv/") false
