-- ===== src/Url/Modifiers.antt =====
-- url/url.go, parseModifier: claim ids, sequences and positions.
use lbry_go.Prelude.{
  Bool, false, not, ◌&&◌, ◌||◌, [], ◌∷◌, length, Option, none, some, ltb, ◌==◌, if◌then◌else◌, Run,
  ok, err, ◌>>=◌,
}
use lbry_go.Prelude.Int.{ℤ, pos, negsuc}
use lbry_go.Messages.{Bytes}
use lbry_go.OrderedMap.{key_eq}
use lbry_go.Url.{claim_id_max_length, UriModifier, is_empty, all_hex}

module _ (parse_int : Bytes → Option ℤ) where
  -- parseInt, with the default -1.
  unfoldable pub int_or_minus_one : Bytes → ℤ
  int_or_minus_one value = elim (parse_int value) [ none ↦ negsuc 0 | some v ↦ v ]

  unfoldable pub is_minus_one : ℤ → Bool
  is_minus_one (pos n) = false
  is_minus_one (negsuc n) = n == 0

  -- The three values of parseModifier, and its checks.
  unfoldable pub check_modifier : Bytes → ℤ → ℤ → Run UriModifier
  check_modifier claim_id claim_sequence bid_position =
      if not (is_empty claim_id)
        && (ltb claim_id_max_length (length claim_id) || not (all_hex claim_id))
      then err "Invalid claim ID %s"
      else if is_minus_one claim_sequence
      then err "claim sequence must be a number"
      else if is_minus_one bid_position
      then err "bid position must be a number"
      else ok (record {
        modifier_claim_id = claim_id;
        claim_sequence = claim_sequence;
        bid_position = bid_position;
      })

  unfoldable pub parse_modifier : Bytes → Bytes → Run UriModifier
  parse_modifier separator value =
      if is_empty separator
      then check_modifier [] (pos 0) (pos 0)
      else if is_empty value
      then err "No modifier provided after separator %s"
      else if key_eq separator (b'#' ∷ [])
      then check_modifier value (pos 0) (pos 0)
      else if key_eq separator (b':' ∷ [])
      then check_modifier [] (int_or_minus_one value) (pos 0)
      else if key_eq separator (b'$' ∷ [])
      then check_modifier [] (pos 0) (int_or_minus_one value)
      else check_modifier [] (pos 0) (pos 0)

  -- A modifier of Parse, if both its parts are there.
  unfoldable pub modifier : Bytes → Bytes → Run (Option UriModifier)
  modifier separator value =
      if not (is_empty separator) && not (is_empty value)
      then (do m ← parse_modifier separator value; ok (some m))
      else ok none
