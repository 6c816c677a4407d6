-- ===== src/Tests/Urls.antt =====
-- url/url.go: runs and the theorem on a url of a stream in a channel.
use lbry_go.Prelude.{◌≡◌, ◌++◌, ◌∷◌, refl, true, false, none, Option, Returns, err}
use lbry_go.Prelude.Int.{ℤ}
use lbry_go.Messages.{Bytes}
use lbry_go.Url.{
  is_empty, is_trimmed, split_query, last_question, span, is_visible, is_name, is_separator,
  is_value, codes, has_space, components, alternative, literal, fits, lower, one, is_slash, all_hex,
  is_hex_digit,
}
use lbry_go.Url.Parsing.{parse, includes_space, parse_components}
use lbry_go.Url.Building.{uri_string}
use lbry_go.Url.Scanning.{IsSplit, components-IsSplit}
use lbry_go.Url.Channels.{channel_text, in_channel, uri_string-parse}

-- No text is a number.
abbrev no_numbers : Bytes → Option ℤ
no_numbers value = none

abbrev with_query : Bytes
with_query = codes "lbry://@ab#c1/x?t=3"

not_empty : is_empty with_query ≡ false
unfolding is_empty is_trimmed
not_empty = refl

split : split_query with_query ≡ (channel_text (codes "ab") (codes "c1") (codes "x"), codes "t=3")
unfolding split_query last_question span is_visible
split = refl

no_space : includes_space (in_channel (codes "ab") (codes "c1") (codes "x")) ≡ false
unfolding includes_space has_space
no_space = refl

no_name : parse no_numbers (codes "lbry://#c1") true ≡ err "url does not include a name"
unfolding parse parse_components is_empty is_trimmed split_query last_question span is_visible
    components alternative literal fits lower one is_separator is_slash is_name
no_name = refl

uri_string-parse_example :
    Returns
      (λ uri.
        uri_string uri ≡ channel_text (codes "ab") (codes "c1") (codes "x") ++ (b'#' ∷ codes "c1"))
      (parse no_numbers with_query true)
unfolding is_name is_separator is_value is_empty is_trimmed all_hex is_hex_digit lower
uri_string-parse_example =
    uri_string-parse no_numbers with_query (codes "ab") (codes "c1") (codes "x") (codes "t=3") true
      not_empty split (refl, (refl, tt)) (refl, (refl, tt)) (refl, tt) refl refl refl refl refl
      no_space

components-IsSplit_example :
    IsSplit (codes "lbry://@ab#c1/x/y") (components (codes "lbry://@ab#c1/x/y"))
components-IsSplit_example = components-IsSplit (codes "lbry://@ab#c1/x/y")
