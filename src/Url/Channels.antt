-- ===== src/Url/Channels.antt =====
-- url/url.go: a url of a stream in a channel, where only the channel has a claim id.
use lbry_go.Prelude.{
  ℕ, ◌≡◌, true_ne_false, refl, Bool, true, false, not, [], ◌∷◌, ◌++◌, length, All, Option, none,
  some, ltb, if◌then◌else◌, Returns, ok, Bool-cases, inl, inr, arith,
}
use mathlib.Core.List.{append_assoc}
use lbry_go.Prelude.Int.{ℤ, pos}
use lbry_go.Messages.{Bytes}
use lbry_go.OrderedMap.{key_eq}
use lbry_go.Url.{
  LbryUri, UriModifier, Components, components, span, one, alternative, literal, fits, lower,
  is_separator, is_slash, is_name, is_value, split_query, is_empty, is_trimmed, has_at, all_hex,
  convert, tail, claim_id_max_length, channel_name_min_length, proto_default,
}
use lbry_go.Url.Modifiers.{modifier, parse_modifier, check_modifier, is_minus_one}
use lbry_go.Url.Parsing.{
  parse, parse_components, parse_modifiers, uri_of, includes_space, id_of, stream_claim_id_of,
}
use lbry_go.Url.Building.{
  build, uri_string, or_else, formatted_channel_name, primary_claim_name, primary_claim_id,
  secondary_claim_name, secondary_claim_id, modifier_text,
}

-- lbry://@channel#claim/stream
abbrev pub in_channel : Bytes → Bytes → Bytes → Components
in_channel channel claim stream = record {
  proto = proto_default;
  host = [];
  name = b'@' ∷ channel;
  separator = b'#' ∷ [];
  value = claim;
  slash = b'/' ∷ [];
  second_name = stream;
  second_separator = [];
  second_value = [];
  rest = [];
}

-- The text of such a url.
abbrev pub channel_text : Bytes → Bytes → Bytes → Bytes
channel_text channel claim stream =
    proto_default ++ ((b'@' ∷ channel) ++ (b'#' ∷ (claim ++ (b'/' ∷ stream))))

abbrev of_claim : Bytes → UriModifier
of_claim claim = record { modifier_claim_id = claim; claim_sequence = pos 0; bid_position = pos 0 }

modifiers_lem :
    (parse_int : Bytes → Option ℤ) (channel claim stream query : Bytes)
    → is_empty claim ≡ false
    → ltb claim_id_max_length (length claim) ≡ false
    → all_hex claim ≡ true
    → parse_modifiers parse_int (in_channel channel claim stream) query
      ≡ ok (uri_of (in_channel channel claim stream) query (some (of_claim claim)) none)
unfolding parse_modifiers modifier parse_modifier check_modifier convert key_eq is_empty is_trimmed
    is_minus_one
modifiers_lem parse_int channel claim stream query some_claim short hex =
    rw some_claim (rw short (rw hex refl))

-- What Parse makes of these components, for names and a claim id that are not empty.
parse_components_lem :
    (parse_int : Bytes → Option ℤ) (channel claim stream query : Bytes) (require_proto : Bool)
    → is_empty channel ≡ false
    → is_empty claim ≡ false
    → ltb claim_id_max_length (length claim) ≡ false
    → all_hex claim ≡ true
    → includes_space (in_channel channel claim stream) ≡ false
    → parse_components parse_int (in_channel channel claim stream) query require_proto
      ≡ ok (uri_of (in_channel channel claim stream) query (some (of_claim claim)) none)
unfolding parse_components is_empty is_trimmed has_at tail
parse_components_lem parse_int [] claim stream query require_proto some_channel some_claim short hex
      no_space =
    absurd (true_ne_false some_channel)
parse_components_lem parse_int (x ∷ channel) claim stream query require_proto some_channel
      some_claim short hex no_space =
    let long : ltb (length (x ∷ channel)) channel_name_min_length ≡ false = ground arith in
    elim (Bool-cases require_proto) [
      | inl yes_proto ↦ rw yes_proto (
          rw no_space (
            rw some_channel (
              rw long
                (modifiers_lem parse_int (x ∷ channel) claim stream query some_claim short hex))))
      | inr no_proto ↦ rw no_proto (
          rw no_space (
            rw some_channel (
              rw long
                (modifiers_lem parse_int (x ∷ channel) claim stream query some_claim short hex))))
    ]

module _ (channel claim stream query : Bytes) (some_channel : is_empty channel ≡ false)
    (some_claim : is_empty claim ≡ false) (some_stream : is_empty stream ≡ false) where
  abbrev parsed : LbryUri
  unfolding uri_of
  parsed = uri_of (in_channel channel claim stream) query (some (of_claim claim)) none

  formatted_lem : is_empty (formatted_channel_name parsed) ≡ false
  unfolding parsed formatted_channel_name has_at tail is_empty is_trimmed
  formatted_lem = rw some_channel (with_at (has_at channel))
    where
      with_at : (b : Bool) → is_empty (if not b then b'@' ∷ channel else channel) ≡ false
      with_at true = some_channel
      with_at false = refl

  secondary_name_lem : secondary_claim_name parsed ≡ stream
  unfolding parsed secondary_claim_name has_at is_empty is_trimmed
  secondary_name_lem = rw formatted_lem refl

  secondary_id_lem : secondary_claim_id parsed ≡ claim
  unfolding parsed secondary_claim_id stream_claim_id_of id_of has_at
  secondary_id_lem = rw secondary_name_lem (rw some_stream refl)

  primary_id_lem : primary_claim_id parsed ≡ claim
  unfolding parsed primary_claim_id id_of
  primary_id_lem = rw some_claim refl

  claim_text : (a b : ℤ) → modifier_text claim a b ≡ b'#' ∷ claim
  unfolding modifier_text
  claim_text a b = rw some_claim refl

  uri_string_lem : uri_string parsed ≡ channel_text channel claim stream ++ (b'#' ∷ claim)
  unfolding parsed uri_string build primary_claim_name or_else has_at is_empty is_trimmed
  uri_string_lem = rw primary_id_lem (
      rw secondary_name_lem
        (rw secondary_id_lem (rw some_stream (simp (claim_text, append_assoc)))))

span_stop :
    (test : ℕ → Bool) (a : Bytes) (c : ℕ) (b : Bytes)
    → All (λ x. test x ≡ true) a
    → test c ≡ false
    → span test (a ++ c ∷ b) ≡ (a, c ∷ b)
unfolding span
span_stop test [] c b p q = rw q refl
span_stop test (x ∷ a) c b p q = rw (span_stop test a c b p.1 q) (rw p.0 refl)

span_end : (test : ℕ → Bool) (a : Bytes) → All (λ x. test x ≡ true) a → span test a ≡ (a, [])
unfolding span
span_end test [] p = refl
span_end test (x ∷ a) p = rw (span_end test a p.1) (rw p.0 refl)

at_lem : is_name b'@' ≡ true
unfolding is_name is_separator
at_lem = refl

hash_lem : is_name b'#' ≡ false
unfolding is_name is_separator
hash_lem = refl

slash_lem : is_value b'/' ≡ false
unfolding is_value
slash_lem = refl

components-channel_text :
    (channel claim stream : Bytes)
    → All (λ c. is_name c ≡ true) channel
    → All (λ c. is_value c ≡ true) claim
    → All (λ c. is_name c ≡ true) stream
    → components (channel_text channel claim stream) ≡ in_channel channel claim stream
unfolding components alternative literal fits lower one is_separator is_slash
components-channel_text channel claim stream p q r =
    let name =
      span_stop is_name (b'@' ∷ channel) b'#' (claim ++ (b'/' ∷ stream)) (at_lem, p) hash_lem in
    let value = span_stop is_value claim b'/' stream q slash_lem in
    let second = span_end is_name stream r in
    rw name (rw value (rw second (rw (span_end is_value [] tt) refl)))

-- A url lbry://@channel#claim/stream, with or without a query string, where the names have no separator,
-- slash or space and are not empty, and the claim id has at most 40 hex digits: Parse accepts it, and
-- String prints the uri with the claim id of the channel once more, behind the stream, where the url
-- has none.
pub uri_string-parse :
    (parse_int : Bytes → Option ℤ) (url channel claim stream query : Bytes) (require_proto : Bool)
    → is_empty url ≡ false
    → split_query url ≡ (channel_text channel claim stream, query)
    → All (λ c. is_name c ≡ true) channel
    → All (λ c. is_value c ≡ true) claim
    → All (λ c. is_name c ≡ true) stream
    → is_empty channel ≡ false
    → is_empty claim ≡ false
    → is_empty stream ≡ false
    → ltb claim_id_max_length (length claim) ≡ false
    → all_hex claim ≡ true
    → includes_space (in_channel channel claim stream) ≡ false
    → Returns
        (λ uri. uri_string uri ≡ channel_text channel claim stream ++ (b'#' ∷ claim))
        (parse parse_int url require_proto)
unfolding parse parsed
uri_string-parse parse_int url channel claim stream query require_proto some_url split p q r
      some_channel some_claim some_stream short hex no_space =
    let accepted : parse parse_int url require_proto
        ≡ ok (uri_of (in_channel channel claim stream) query (some (of_claim claim)) none) =
      rw some_url (
        rw split (
          rw (components-channel_text channel claim stream p q r) (
            parse_components_lem parse_int channel claim stream query require_proto some_channel
              some_claim short hex no_space))) in
    rw accepted (uri_string_lem channel claim stream query some_channel some_claim some_stream)
