-- ===== src/Tests/Managers.antt =====
-- dht/token_manager.go: the theorem on a sample manager, with the message itself for its hash.
use lbry_go.Prelude.{ℕ, ◌≡◌, refl, true, List, [], ◌∷◌, replicate, some, ok}
use lbry_go.Prelude.Int.{pos, negsuc}
use lbry_go.Tokens.{
  Addr, TokenManager, digits_loop, itoa, rotate_secret, gen_token, get_token, verify,
}
use lbry_go.Tokens.Rotation.{IsManager, verify-get_token}
use lbry_go.Tests.{small}

abbrev hash : List ℕ → List ℕ
hash message = message

abbrev addr : Addr
addr = record { ip = 10 ∷ 0 ∷ 0 ∷ 2 ∷ []; port = pos 4444 }

abbrev manager : TokenManager
manager = record { secret = replicate 64 1; prev_secret = replicate 64 2 }

minus_forty : itoa (negsuc 39) ≡ b'-' ∷ b'4' ∷ b'0' ∷ []
unfolding itoa digits_loop
minus_forty = refl

verify-get_token_example :
    (tm' : TokenManager) × (rotate_secret manager (some (replicate 64 3)) ≡ ok tm')
    × IsManager tm'
    × (verify hash manager (get_token hash manager (small 2) addr) (small 2) addr ≡ true)
    × (verify hash tm' (get_token hash manager (small 2) addr) (small 2) addr ≡ true)
    × (get_token hash tm' (small 2) addr ≡ gen_token hash (replicate 64 3) (small 2) addr)
verify-get_token_example =
    verify-get_token hash manager (replicate 64 3) (small 2) addr
      (record { current = refl; previous = refl }) refl
