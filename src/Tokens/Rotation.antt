-- ===== src/Tokens/Rotation.antt =====
-- dht/token_manager.go: tokens and the rotation of the secret.
use lbry_go.Prelude.{
  ℕ, zero, suc, ◌≡◌, refl, ap, sym, ◌∙◌, Bool, true, false, ◌||◌, List, [], ◌∷◌, ◌++◌, length, take,
  drop, some, ok, arith,
}
use mathlib.Core.List.{append-nil}
use lbry_go.Bitmap.{Bitmap}
use lbry_go.OrderedMap.{key_eq}
use lbry_go.OrderedMap.Places.{key_eq_self}
use lbry_go.Tokens.{
  Addr, TokenManager, copy_bytes, rotate_secret, start, gen_token, get_token, verify,
}

-- The two secrets are arrays of 64 bytes.
pub record IsManager (tm : TokenManager) : Type 0 where
  pub current : length tm.secret ≡ 64
  pub previous : length tm.prev_secret ≡ 64

take_all : (n : ℕ) (l : List ℕ) → length l ≡ n → take n l ≡ l
take_all zero [] e = refl
take_all zero (x ∷ l) e = absurd (omega arith)
take_all (suc n) [] e = absurd (omega arith)
take_all (suc n) (x ∷ l) e = ap (◌∷◌ x) (take_all n l (omega arith))

drop_all : (n : ℕ) (l : List ℕ) → length l ≡ n → drop n l ≡ []
drop_all zero [] e = refl
drop_all zero (x ∷ l) e = absurd (omega arith)
drop_all (suc n) [] e = absurd (omega arith)
drop_all (suc n) (x ∷ l) e = drop_all n l (omega arith)

copy_bytes-all : (dst src : List ℕ) → length dst ≡ length src → copy_bytes dst src ≡ src
unfolding copy_bytes
copy_bytes-all dst src e =
    ap (λ l. l ++ drop (length src) dst) (take_all (length dst) src (sym e))
    ∙ ap (λ l. src ++ l) (drop_all (length src) dst e)
    ∙ append-nil src

pub rotate_secret-IsManager :
    (tm : TokenManager) (r : List ℕ)
    → IsManager tm
    → length r ≡ 64
    → (tm' : TokenManager) × (rotate_secret tm (some r) ≡ ok tm')
      × IsManager tm'
      × (tm'.secret ≡ r)
      × (tm'.prev_secret ≡ tm.secret)
unfolding rotate_secret
rotate_secret-IsManager tm r h e =
    let kept = copy_bytes-all tm.prev_secret tm.secret (h.previous ∙ sym h.current) in
    (_, refl, record { current = e; previous = ap length kept ∙ h.current }, refl, kept)

-- A token that the manager hands out is good for the same node and address, before and after the
-- secret is rotated once, which keeps the manager's secrets at 64 bytes.
pub verify-get_token :
    (sha256 : List ℕ → List ℕ) (tm : TokenManager) (r : List ℕ) (node_id : Bitmap) (addr : Addr)
    → IsManager tm
    → length r ≡ 64
    → (tm' : TokenManager) × (rotate_secret tm (some r) ≡ ok tm')
      × IsManager tm'
      × (verify sha256 tm (get_token sha256 tm node_id addr) node_id addr ≡ true)
      × (verify sha256 tm' (get_token sha256 tm node_id addr) node_id addr ≡ true)
      × (get_token sha256 tm' node_id addr ≡ gen_token sha256 r node_id addr)
unfolding rotate_secret verify get_token
verify-get_token sha256 tm r node_id addr h e =
    let kept = copy_bytes-all tm.prev_secret tm.secret (h.previous ∙ sym h.current) in
    let token = gen_token sha256 tm.secret node_id addr in
    let good : key_eq token token ≡ true = key_eq_self token in
    (
      _,
      refl,
      record { current = e; previous = ap length kept ∙ h.current },
      rw good refl,
      ap
            (λ s.
              key_eq token (gen_token sha256 r node_id addr)
              || key_eq token (gen_token sha256 s node_id addr))
            kept
          ∙ or_true (key_eq token (gen_token sha256 r node_id addr)) good,
      refl,
    )
  where
    or_true : (a : Bool) {b : Bool} → b ≡ true → (a || b) ≡ true
    or_true true e = refl
    or_true false e = e

-- Start leaves two secrets of 64 bytes, of which the first is the random one.
pub start-IsManager :
    (r : List ℕ)
    → length r ≡ 64
    → (tm : TokenManager) × (start (some r) ≡ ok tm) × IsManager tm × (tm.secret ≡ r)
unfolding start rotate_secret copy_bytes
start-IsManager r e = (_, refl, record { current = e; previous = refl }, refl)
