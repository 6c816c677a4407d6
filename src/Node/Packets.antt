-- ===== src/Node/Packets.antt =====
-- dht/node.go, handlePacket: bytes from the network.
use lbry_go.Prelude.{
  ℕ, ◌<◌, ◌≤◌, ◌≡◌, ◌≢◌, ◌⊎◌, ◌+◌, ◌*◌, ◌∙◌, ap, sym, true_ne_false, refl, some, ◌>>=◌, Bool-cases,
  get_elem?, Bool, true, false, not, List, [], Run, ok, err, panic, out_of_fuel, Returns,
  Returns-if, Returns-bind, length, take, get_elem?-some, get_elem?-none, ltb, ◌==◌, if◌then◌else◌,
  lt-cases, inl, inr, arith,
}
use mathlib.Core.Path.{subst}
use lbry_go.Bitmap.{Bitmap, IsBitmap}
use lbry_go.Tokens.{Addr}
use lbry_go.Messages.{
  Bytes, Request, Response, ErrorMessage, Message, request_type, response_type, error_type,
  hex_prefix, args_debug,
}
use lbry_go.Node.{Node, or_drop, in_slice, head_of_dict, dispatch, handle_packet, handle_response}
use lbry_go.Node.Requests.{IsNode, HasArgs, handle_request-IsNode}
use lbry_go.Node.Responses.{Handled, handle_response-other, handle_error-other}

-- What a decoder gives, if it does not fail with an error, has the property.
abbrev pub Decodes {ℓ} : {A : Type ℓ} → (A → Type 0) → Run A → Type 0
Decodes P (ok a) = P a
Decodes P (err e) = Unit
Decodes P (panic e) = ⊥
Decodes P out_of_fuel = ⊥

or_drop-Returns :
    {A B : Type 0} (P : A → Type 0) (Q : B → Type 0) (run : Run A) (b : B) (f : A → Run B)
    → Decodes P run
    → Q b
    → ((a : A) → P a → Returns Q (f a))
    → Returns Q (or_drop run b f)
unfolding or_drop
or_drop-Returns P Q (ok a) b f d q next = next a d
or_drop-Returns P Q (err e) b f d q next = q
or_drop-Returns P Q (panic e) b f d q next = absurd d
or_drop-Returns P Q out_of_fuel b f d q next = absurd d

-- Of one, two or three bytes.
abbrev pub IsShort : Bytes → Type 0
IsShort str = (0 < length str) × (length str < 4)

-- A response without data, whose key or token is of one, two or three bytes.
abbrev pub IsCut : Response → Type 0
IsCut r = (length r.data_text ≡ 0) × (IsShort r.find_value_key ⊎ IsShort r.token)

hex_prefix_cases :
    (str : Bytes)
    → (IsShort str
        × ((if ltb 0 (length str) then hex_prefix str else ok tt)
            ≡ panic "slice bounds out of range"))
      ⊎ (¬ IsShort str × ((if ltb 0 (length str) then hex_prefix str else ok tt) ≡ ok tt))
unfolding hex_prefix
hex_prefix_cases str = elim (lt-cases 0 (length str)) [
  | inr empty ↦
      let t : ltb 0 (length str) ≡ false = ground arith in inr (λ p. omega (arith, p.0), rw t refl)
  | inl some_text ↦
      let t : ltb 0 (length str) ≡ true = ground arith in
      elim (lt-cases (length str) 4) [
        | inl short ↦
            let u : ltb (2 * length str) 8 ≡ true = ground arith in
            inl ((some_text, short), rw (t, u) refl)
        | inr long ↦
            let u : ltb (2 * length str) 8 ≡ false = ground arith in
            inr (λ p. omega (arith, p.1), rw (t, u) refl)
      ]
]

args_debug_cases :
    (r : Response)
    → (IsCut r × (args_debug r ≡ panic "slice bounds out of range"))
      ⊎ (¬ IsCut r × (args_debug r ≡ ok tt))
unfolding args_debug
args_debug_cases r = elim (lt-cases 0 (length r.data_text)) [
  | inl text ↦
      let t : ltb 0 (length r.data_text) ≡ true = ground arith in
      inr (λ p. omega (arith, p.0), rw t refl)
  | inr no_text ↦
      let t : ltb 0 (length r.data_text) ≡ false = ground arith in
      elim (hex_prefix_cases r.find_value_key) [
        | inl (short, e) ↦ inl ((omega arith, inl short), rw (t, e) refl)
        | inr (key_long, e) ↦ elim (hex_prefix_cases r.token) [
          | inl (short, f) ↦ inl ((omega arith, inr short), rw (t, e, f) refl)
          | inr (token_long, f) ↦ inr (λ p. neither key_long token_long p.1, rw (t, e, f) refl)
        ]
      ]
]
  where
    neither :
        ¬ IsShort r.find_value_key
        → ¬ IsShort r.token
        → IsShort r.find_value_key ⊎ IsShort r.token
        → ⊥
    neither p q (inl a) = p a
    neither p q (inr b) = q b

-- The sender of a message is well-formed, and is not the node itself.
abbrev pub IsForeign : Node → Bitmap → Type 0
IsForeign n id = IsBitmap id × (n.id ≢ id)

swap_branches : {A : Type 0} (b : Bool) (x y : A) → (if not b then x else y) ≡ (if b then y else x)
swap_branches true x y = refl
swap_branches false x y = refl

-- The packet begins like a message, is a response by its sixth byte, and decodes to one that
-- argsDebug cannot print.
abbrev pub Breaks : (Bytes → Run Response) → Bytes → Type 0
Breaks decode_response bytes =
    (in_slice (take 5 bytes) head_of_dict ≡ true)
    × (get_elem? bytes 5 ≡ some (b'0' + response_type))
    × ((r : Response) × (decode_response bytes ≡ ok r) × IsCut r)

module _ (sha256 : Bytes → Bytes) (decode_request : Bytes → Run Request)
    (decode_response : Bytes → Run Response) (decode_error : Bytes → Run ErrorMessage) (now : ℕ)
    (n : Node) (addr : Addr) (bytes : Bytes) (h : IsNode n)
    (requests : Decodes (λ (r : Request). IsBitmap r.node_id × HasArgs r) (decode_request bytes))
    (responses : Decodes (λ (r : Response). IsForeign n r.node_id) (decode_response bytes))
    (errors : Decodes (λ (e : ErrorMessage). IsForeign n e.node_id) (decode_error bytes)) where
  abbrev Valid : Node × List Message → Type 0
  Valid r = IsNode r.0

  -- What the code does with a response, once it is decoded.
  abbrev receive : Response → Run (Node × List Message)
  receive res = args_debug res >>= λ _. handle_response now n addr res >>= λ (n', tx). ok (n', [])

  response_cases :
      (run : Run Response)
      → Decodes (λ (r : Response). IsForeign n r.node_id) run
      → (((r : Response) × (run ≡ ok r) × IsCut r)
          × (or_drop run (n, []) receive ≡ panic "slice bounds out of range"))
        ⊎ (¬ ((r : Response) × (run ≡ ok r) × IsCut r)
            × Returns Valid (or_drop run (n, []) receive))
  unfolding or_drop
  response_cases (err e) k = inr (λ (r, e, _). absurd (differ e), h)
    where
      differ : {r : Response} → err e ≡ ok r → ⊥
      differ q = cc
  response_cases (panic e) k = absurd k
  response_cases out_of_fuel k = absurd k
  response_cases (ok r) k = elim (args_debug_cases r) [
    | inl (short, e) ↦ inl ((r, refl, short), rw e refl)
    | inr (long, e) ↦ inr (
      λ (r', e', short). long (subst IsCut (sym (same e')) short),
      rw e (
          Returns-bind (λ a. Handled now n addr r a.0 a.1) Valid _ _
            (handle_response-other now n addr h r k.0 k.1) (λ a v. v.valid)),
    )
  ]
    where
      same : {a b : Response} → (◌≡◌ {A = Run Response} (ok a) (ok b)) → a ≡ b
      same q = cc

  abbrev Outcome : Run (Node × List Message) → Type 0
  Outcome run =
      (Breaks decode_response bytes × (run ≡ panic "slice bounds out of range"))
      ⊎ (¬ Breaks decode_response bytes × Returns Valid run)

  dispatch-Outcome :
      (kind : ℕ)
      → in_slice (take 5 bytes) head_of_dict ≡ true
      → get_elem? bytes 5 ≡ some kind
      → Outcome (dispatch sha256 decode_request decode_response decode_error now n addr bytes kind)
  unfolding dispatch
  dispatch-Outcome kind begins at_five = elim (Bool-cases (kind == b'0' + response_type)) [
    | inl is_one ↦
        let e : kind ≡ b'0' + response_type = ground (arith, is_one) in
        let not_request : (kind == b'0' + request_type) ≡ false = ground arith in
        elim (response_cases (decode_response bytes) responses) [
          | inl (broken, p) ↦
              inl ((begins, at_five ∙ ap some e, broken), rw (not_request, is_one) p)
          | inr (fine, p) ↦ inr (λ (_, _, broken). fine broken, rw (not_request, is_one) p)
        ]
    | inr differs ↦ inr (
      λ (_, six, _). other (sym at_five ∙ six) differs,
      rw differs (
          Returns-if Valid (kind == b'0' + request_type) _ _
            (λ _.
              or_drop-Returns _ Valid (decode_request bytes) (n, []) _ requests h
                (λ r k. handle_request-IsNode sha256 n addr r h now k.0 k.1))
            (λ _.
              Returns-if Valid (kind == b'0' + error_type) _ _
                (λ _.
                  or_drop-Returns _ Valid (decode_error bytes) (n, []) _ errors h
                    (λ e k.
                      Returns-bind IsNode Valid _ _ (handle_error-other now n addr h e k.0 k.1)
                        (λ a v. v)))
                (λ _. h))),
    )
  ]
    where
      other : some kind ≡ some (b'0' + response_type) → (kind == b'0' + response_type) ≡ false → ⊥
      other e differs = let same : kind ≡ b'0' + response_type = cc in ground (arith, same, differs)

  long_packet :
      (kind : ℕ)
      → 6 ≤ length bytes
      → get_elem? bytes 5 ≡ some kind
      → (b : Bool) → in_slice (take 5 bytes) head_of_dict ≡ b
      → Outcome (handle_packet sha256 decode_request decode_response decode_error now n addr bytes)
  unfolding handle_packet
  long_packet kind six e true begins =
      let test : ltb (length bytes) 5 ≡ false = ground arith in
      subst Outcome (sym (rw (test, begins, e) refl)) (dispatch-Outcome kind begins e)
  long_packet kind six e false begins =
      let test : ltb (length bytes) 5 ≡ false = ground arith in
      inr (λ (is_one, _, _). true_ne_false (sym is_one ∙ begins), rw (test, begins) h)

  -- handlePacket on a valid node, where no decoder panics, a decoded request has a well-formed sender
  -- and its arguments, and the sender of a decoded response or error is well-formed and is not the
  -- node itself: a packet of six bytes or more makes the node panic if it begins like a message, is
  -- a response by its sixth byte, and decodes to one without data whose key or token is of one to
  -- three bytes, and leaves a valid node otherwise; one of fewer than five bytes makes the node panic,
  -- and one of five does so if it begins like a message, and else leaves the node as it is.
  pub handle_packet_cases :
      ((6 ≤ length bytes)
        × ((Breaks decode_response bytes
              × (handle_packet sha256 decode_request decode_response decode_error now n addr bytes
                  ≡ panic "slice bounds out of range"))
            ⊎ (¬ Breaks decode_response bytes
                × Returns Valid (
                    handle_packet sha256 decode_request decode_response decode_error now n addr
                      bytes))))
      ⊎ (((length bytes < 5)
            × (handle_packet sha256 decode_request decode_response decode_error now n addr bytes
                ≡ panic "slice bounds out of range"))
          ⊎ ((length bytes ≡ 5)
              × (handle_packet sha256 decode_request decode_response decode_error now n addr bytes
                  ≡ (if in_slice (take 5 bytes) head_of_dict
                      then panic "index out of range"
                      else ok (n, [])))))
  unfolding handle_packet
  handle_packet_cases = elim (lt-cases (length bytes) 5) [
    | inl short ↦
        let test : ltb (length bytes) 5 ≡ true = ground arith in inr (inl (short, rw test))
    | inr long ↦
        let test : ltb (length bytes) 5 ≡ false = ground arith in
        elim (lt-cases 5 (length bytes)) [
          | inl six ↦
              let (kind, e) = get_elem?-some bytes 5 six in
              inl (six, long_packet kind six e (in_slice (take 5 bytes) head_of_dict) refl)
          | inr five ↦ inr (
              inr (
                omega arith,
                rw (test, get_elem?-none bytes 5 five)
                    (swap_branches (in_slice (take 5 bytes) head_of_dict) _ _),
              ))
        ]
  ]
