-- ===== src/Url/Parsing.antt =====
-- url/url.go, Parse: the checks of the components of a url, in the order of the source.
use lbry_go.Prelude.{
  Bool, true, false, ◌&&◌, ◌||◌, [], ◌++◌, length, Option, none, some, ltb, if◌then◌else◌, Run, ok,
  err, ◌>>=◌,
}
use lbry_go.Prelude.Int.{ℤ, negsuc}
use lbry_go.Messages.{Bytes}
use lbry_go.Url.{
  LbryUri, UriModifier, Components, components, split_query, is_empty, has_at, has_space, convert,
  tail, channel_name_min_length,
}
use lbry_go.Url.Modifiers.{modifier}

-- The fields of a modifier, with the defaults of Parse.
unfoldable pub id_of : Option UriModifier → Bytes
id_of none = []
id_of (some m) = m.modifier_claim_id

unfoldable pub sequence_of : Option UriModifier → ℤ
sequence_of none = negsuc 0
sequence_of (some m) = m.claim_sequence

unfoldable pub position_of : Option UriModifier → ℤ
position_of none = negsuc 0
position_of (some m) = m.bid_position

-- `if includesChannel && secondaryMod != nil … else if primaryMod != nil …`
unfoldable pub stream_claim_id_of : Bool → Option UriModifier → Option UriModifier → Bytes
stream_claim_id_of true primary (some m) = m.modifier_claim_id
stream_claim_id_of true primary none = id_of primary
stream_claim_id_of false primary secondary = id_of primary

unfoldable pub path_of : Components → Bytes
path_of c =
    c.name
    ++ (c.separator
        ++ (c.value ++ (c.slash ++ (c.second_name ++ (c.second_separator ++ c.second_value)))))

unfoldable pub includes_space : Components → Bool
includes_space c =
    has_space c.name
    || has_space c.separator
    || has_space c.value
    || has_space c.slash
    || has_space c.second_name
    || has_space c.second_separator
    || has_space c.second_value

-- The uri, from the components and the two modifiers.
unfoldable pub uri_of : Components → Bytes → Option UriModifier → Option UriModifier → LbryUri
uri_of c query primary secondary =
    let includes_channel = has_at c.name in
    let stream_name = if includes_channel then c.second_name else c.name in
    record {
      path = path_of c;
      is_channel = includes_channel && is_empty c.second_name;
      stream_name = stream_name;
      stream_claim_id = stream_claim_id_of includes_channel primary secondary;
      channel_name = if includes_channel then tail c.name else [];
      channel_claim_id = if includes_channel then id_of primary else [];
      primary_claim_sequence = sequence_of primary;
      secondary_claim_sequence = sequence_of secondary;
      primary_bid_position = position_of primary;
      secondary_bid_position = position_of secondary;
      claim_name = c.name;
      claim_id = id_of primary;
      content_name = stream_name;
      query_string = query;
    }

module _ (parse_int : Bytes → Option ℤ) where
  -- The modifiers of the components, and the uri.
  unfoldable pub parse_modifiers : Components → Bytes → Run LbryUri
  parse_modifiers c query = do
    primary ← modifier parse_int (convert c.host c.separator) c.value
    secondary ← modifier parse_int (convert c.host c.second_separator) c.second_value
    ok (uri_of c query primary secondary)

  unfoldable pub parse_components : Components → Bytes → Bool → Run LbryUri
  parse_components c query require_proto =
      if require_proto && is_empty c.proto
      then err "url must include a protocol prefix (lbry://)"
      else if is_empty c.name
      then err "url does not include a name"
      else if includes_space c
      then err "url cannot include a space"
      else if has_at c.name && is_empty (tail c.name)
      then err "no channel name after @"
      else if has_at c.name && ltb (length (tail c.name)) channel_name_min_length
      then err "Channel names must be at least %d character long."
      else parse_modifiers c query

  unfoldable pub parse : Bytes → Bool → Run LbryUri
  parse url require_proto =
      if is_empty url
      then err "invalid url parameter"
      else let (clean_url, query) = split_query url in
        parse_components (components clean_url) query require_proto
