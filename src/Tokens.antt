-- ===== src/Tokens.antt =====
-- dht/token_manager.go: the tokens that a node hands out. `sha256` is crypto/sha256, and what
-- crypto/rand returns is an argument, with `none` for an error. A string is the list of its bytes.
-- The ticker of Start is a call of rotateSecret.
pub mod Rotation
use lbry_go.Prelude.{
  ℕ, zero, suc, ◌+◌, ◌/◌, ◌%◌, ◌≡◌, Bool, ◌||◌, List, [], ◌∷◌, ◌++◌, length, take, drop, replicate,
  Option, none, some, ltb, if◌then◌else◌, Run, ok, panic, ◌>>=◌,
}
use lbry_go.Prelude.Int.{ℤ, pos, negsuc}
use lbry_go.Bitmap.{Bitmap}
use lbry_go.OrderedMap.{key_eq}

-- net.UDPAddr.
pub record Addr : Type 0 where
  pub ip : List ℕ
  pub port : ℤ

pub record TokenManager : Type 0 where
  pub secret : List ℕ
  pub prev_secret : List ℕ

-- strconv.Itoa, with the digits of `n` put before `acc`.
unfoldable pub digits_loop : ℕ → ℕ → List ℕ → List ℕ
digits_loop zero n acc = acc
digits_loop (suc fuel) n acc =
    let more = digits_loop fuel (n / 10) ((b'0' + n % 10) ∷ acc) in
    if ltb n 10 then (b'0' + n) ∷ acc else more

unfoldable pub itoa : ℤ → List ℕ
itoa (pos n) = digits_loop (suc n) n []
itoa (negsuc n) = b'-' ∷ digits_loop (suc (suc n)) (suc n) []

-- `copy(dst, src)`
unfoldable pub copy_bytes : List ℕ → List ℕ → List ℕ
copy_bytes dst src = take (length dst) src ++ drop (length src) dst

-- `r` are the 64 bytes that rand.Read writes to the secret.
unfoldable pub rotate_secret : TokenManager → Option (List ℕ) → Run TokenManager
rotate_secret tm none = panic "rand.Read"
rotate_secret tm (some r) =
    ok (record { secret = r; prev_secret = copy_bytes tm.prev_secret tm.secret })

unfoldable pub start : Option (List ℕ) → Run TokenManager
start r = rotate_secret (record { secret = replicate 64 0; prev_secret = replicate 64 0 }) r

module _ (sha256 : List ℕ → List ℕ) where
  unfoldable pub gen_token : List ℕ → Bitmap → Addr → List ℕ
  gen_token secret node_id addr = sha256 (node_id ++ addr.ip ++ itoa addr.port ++ secret)

  unfoldable pub get_token : TokenManager → Bitmap → Addr → List ℕ
  get_token tm node_id addr = gen_token tm.secret node_id addr

  unfoldable pub verify : TokenManager → List ℕ → Bitmap → Addr → Bool
  verify tm token node_id addr =
      key_eq token (gen_token tm.secret node_id addr)
      || key_eq token (gen_token tm.prev_secret node_id addr)
