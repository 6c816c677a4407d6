-- ===== src/Url.antt =====
-- url/url.go: the parser and the printer of lbry urls, on the bytes of ASCII texts. Each part of the
-- regular expression may be empty, so it matches greedily from the left and never goes back, and is a
-- scanner for each part. `parse_int` is strconv.ParseInt with base 10 and 32 bits, and `none` an error.
pub mod Patterns
pub mod Scanning
pub mod Modifiers
pub mod Parsing
pub mod Building
pub mod Channels
use Prim.Native.String.{String}
use Prim.Native.Char.{code}
use lbry_go.Prelude.{
  ℕ, zero, suc, ◌+◌, ◌≡◌, Bool, true, false, not, ◌&&◌, ◌||◌, List, [], ◌∷◌, ◌++◌, length, Option,
  none, some, ltb, leb, ◌==◌, if◌then◌else◌, Run, ok, err, ◌>>=◌,
}
use lbry_go.Prelude.Int.{ℤ, pos, negsuc}
use lbry_go.Messages.{Bytes}
use lbry_go.OrderedMap.{key_eq}
use lbry_go.Tokens.{itoa}

abbrev pub codes : String → Bytes
codes String.[] = []
codes (String.◌∷◌ c s) = code c ∷ codes s

abbrev pub channel_name_min_length : ℕ
channel_name_min_length = 1

abbrev pub claim_id_max_length : ℕ
claim_id_max_length = 40

abbrev pub proto_default : Bytes
proto_default = codes "lbry://"

pub record LbryUri : Type 0 where
  pub path : Bytes
  pub is_channel : Bool
  pub stream_name : Bytes
  pub stream_claim_id : Bytes
  pub channel_name : Bytes
  pub channel_claim_id : Bytes
  pub primary_claim_sequence : ℤ
  pub secondary_claim_sequence : ℤ
  pub primary_bid_position : ℤ
  pub secondary_bid_position : ℤ
  pub claim_name : Bytes
  pub claim_id : Bytes
  pub content_name : Bytes
  pub query_string : Bytes

pub record UriModifier : Type 0 where
  pub modifier_claim_id : Bytes
  pub claim_sequence : ℤ
  pub bid_position : ℤ

-- What strings.TrimSpace cuts off.
unfoldable pub is_trimmed : ℕ → Bool
is_trimmed c = c == b' ' || (leb 9 c && leb c 13)

unfoldable pub is_empty : Bytes → Bool
is_empty [] = true
is_empty (c ∷ s) = is_trimmed c && is_empty s

unfoldable pub has_at : Bytes → Bool
has_at [] = false
has_at (c ∷ s) = c == b'@'

unfoldable pub is_channel_url : LbryUri → Bool
is_channel_url uri =
    (not (is_empty uri.channel_name) && is_empty uri.stream_name)
    || (not (is_empty uri.claim_name) && has_at uri.claim_name)

-- The longest beginning of bytes that pass a test, and what follows it.
unfoldable pub span : (ℕ → Bool) → Bytes → Bytes × Bytes
span test [] = ([], [])
span test (c ∷ s) =
    let (first, rest) = span test s in if test c then (c ∷ first, rest) else ([], c ∷ s)

-- One byte that passes a test, if it comes first.
unfoldable pub one : (ℕ → Bool) → Bytes → Bytes × Bytes
one test [] = ([], [])
one test (c ∷ s) = if test c then (c ∷ [], s) else ([], c ∷ s)

unfoldable pub lower : ℕ → ℕ
lower c = if leb b'A' c && leb c b'Z' then c + 32 else c

-- A byte of a pattern: a dot stands for every byte but a newline, and case is ignored.
unfoldable pub fits : ℕ → ℕ → Bool
fits p c = if p == b'.' then not (c == 10) else p == lower c

unfoldable pub literal : Bytes → Bytes → Option (Bytes × Bytes)
literal [] s = some ([], s)
literal (p ∷ ps) [] = none
literal (p ∷ ps) (c ∷ s) =
    if fits p c
    then (elim (literal ps s) [ none ↦ none | some (first, rest) ↦ some (c ∷ first, rest) ])
    else none

-- The first of the patterns that fits, or nothing.
unfoldable pub alternative : List Bytes → Bytes → Bytes × Bytes
alternative [] s = ([], s)
alternative (p ∷ ps) s = elim (literal p s) [ none ↦ alternative ps s | some found ↦ found ]

abbrev pub protocols : List Bytes
protocols = codes "lbry://" ∷ codes "https://" ∷ []

abbrev pub hosts : List Bytes
hosts =
    codes "open.lbry.com/"
    ∷ codes "lbry.tv/"
    ∷ codes "lbry.lat/"
    ∷ codes "lbry.fr/"
    ∷ codes "lbry.in/"
    ∷ []

unfoldable pub is_separator : ℕ → Bool
is_separator c = c == b':' || c == b'$' || c == b'#'

unfoldable pub is_name : ℕ → Bool
is_name c = not (is_separator c) && not (c == b'/')

unfoldable pub is_slash : ℕ → Bool
is_slash c = c == b'/'

unfoldable pub is_value : ℕ → Bool
is_value c = not (c == b'/')

-- The nine groups of the regular expression, and what follows its match.
pub record Components : Type 0 where
  pub proto : Bytes
  pub host : Bytes
  pub name : Bytes
  pub separator : Bytes
  pub value : Bytes
  pub slash : Bytes
  pub second_name : Bytes
  pub second_separator : Bytes
  pub second_value : Bytes
  pub rest : Bytes

unfoldable pub components : Bytes → Components
components s =
    let (proto, s₁) = alternative protocols s in
    let (host, s₂) = alternative hosts s₁ in
    let (name, s₃) = span is_name s₂ in
    let (separator, s₄) = one is_separator s₃ in
    let (value, s₅) = span is_value s₄ in
    let (slash, s₆) = one is_slash s₅ in
    let (second_name, s₇) = span is_name s₆ in
    let (second_separator, s₈) = one is_separator s₇ in
    let (second_value, rest) = span is_value s₈ in
    record {
      proto = proto;
      host = host;
      name = name;
      separator = separator;
      value = value;
      slash = slash;
      second_name = second_name;
      second_separator = second_separator;
      second_value = second_value;
      rest = rest;
    }

-- `\S`.
unfoldable pub is_visible : ℕ → Bool
is_visible c = not (c == b' ' || c == 9 || c == 10 || c == 12 || c == 13)

-- The text before the last question mark, and the text after it.
unfoldable pub last_question : Bytes → Option (Bytes × Bytes)
last_question [] = none
last_question (c ∷ s) = elim (last_question s) [
  | some (before, after) ↦ some (c ∷ before, after)
  | none ↦ if c == b'?' then some ([], s) else none
]

-- The clean url and the query string. At least one byte stands before the question mark.
unfoldable pub split_query : Bytes → Bytes × Bytes
split_query [] = ([], [])
split_query (c ∷ s) =
    if is_visible c
    then (elim (last_question (span is_visible s).0) [
      | none ↦ (c ∷ s, [])
      | some (before, after) ↦ (c ∷ before, after)
    ])
    else (c ∷ s, [])

unfoldable pub is_hex_digit : ℕ → Bool
is_hex_digit c = (leb b'0' c && leb c b'9') || (leb b'a' (lower c) && leb (lower c) b'f')

-- The expression of a claim id, on a text that is not empty.
unfoldable pub all_hex : Bytes → Bool
all_hex [] = true
all_hex (c ∷ s) = is_hex_digit c && all_hex s

unfoldable pub has_space : Bytes → Bool
has_space [] = false
has_space (c ∷ s) = c == b' ' || has_space s

-- [https://] uses ':', [lbry://] expects '#'.
unfoldable pub convert : Bytes → Bytes → Bytes
convert host separator =
    if not (is_empty host)
    then if key_eq separator (b':' ∷ []) then b'#' ∷ [] else separator
    else separator

unfoldable pub tail : Bytes → Bytes
tail [] = []
tail (c ∷ s) = s
