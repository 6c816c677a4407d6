-- ===== src/Bucket/Peers.antt =====
-- dht/routing_table.go, find and moveToBack: positions in a bucket's list of peers.
use mathlib.Core.List.{append_assoc}
use lbry_go.Prelude.{
  ℕ, zero, suc, ◌+◌, ◌-◌, ◌≡◌, ◌≢◌, refl, ap, sym, ◌∙◌, true, false, List, [], ◌∷◌, ◌++◌, length,
  get_elem?, get-middle, set-middle, set, All, Option, none, some, leb, arith, Bool-cases, inl, inr,
  length-append,
}
use lbry_go.Bitmap.{Bitmap, IsBitmap, equals}
use lbry_go.Bitmap.Order.{equals_iff}
use lbry_go.Bucket.{Peer, find_from, find, modify, shift_loop, move_to_back, remove_at}

abbrev pub HasId : Peer → Type 0
HasId p = IsBitmap p.contact.id

-- The list around the place `i`.
pub record At (i : ℕ) (peers before : List Peer) (p : Peer) (after : List Peer) : Type 0 where
  pub splits : peers ≡ before ++ p ∷ after
  pub place : length before ≡ i

-- What find returns: a place that holds the identifier, or none, if no peer has it.
abbrev pub Found : Bitmap → List Peer → Option ℕ → Type 0
Found id peers none = All (λ q. q.contact.id ≢ id) peers
Found id peers (some i) =
    (before : List Peer) × (p : Peer) × (after : List Peer) × At i peers before p after
    × (p.contact.id ≡ id)

-- The same for a search that begins at `k`.
abbrev FoundFrom : ℕ → Bitmap → List Peer → Option ℕ → Type 0
FoundFrom k id peers none = All (λ q. q.contact.id ≢ id) peers
FoundFrom k id peers (some i) =
    (before : List Peer) × (p : Peer) × (after : List Peer) × (peers ≡ before ++ p ∷ after)
    × (k + length before ≡ i)
    × (p.contact.id ≡ id)

find_from-FoundFrom :
    (k : ℕ) (id : Bitmap) (peers : List Peer)
    → IsBitmap id
    → All HasId peers
    → FoundFrom k id peers (find_from k id peers)
unfolding find_from
find_from-FoundFrom k id [] h hs = tt
find_from-FoundFrom k id (p ∷ peers) h hs = elim (Bool-cases (equals p.contact.id id)) [
  | inl here ↦ rw here ([], p, peers, refl, omega arith, (equals_iff p.contact.id id hs.0 h).0 here)
  | inr past ↦
      let differs : p.contact.id ≢ id =
        λ e. true≢false (sym ((equals_iff p.contact.id id hs.0 h).1 e) ∙ past) in
      rw past (
        later k p id peers (find_from (suc k) id peers) differs
          (find_from-FoundFrom (suc k) id peers h hs.1))
]
  where
    true≢false : true ≡ false → ⊥
    true≢false e = cc

    later :
        (k : ℕ) (p : Peer) (id : Bitmap) (peers : List Peer) (o : Option ℕ)
        → p.contact.id ≢ id
        → FoundFrom (suc k) id peers o
        → FoundFrom k id (p ∷ peers) o
    later k p id peers none d f = (d, f)
    later k p id peers (some i) d (before, q, after, e, n, same) =
        (p ∷ before, q, after, ap (◌∷◌ p) e, omega arith, same)

-- find returns the place of the peer with the identifier, or none, if there is none.
pub find-Found :
    (id : Bitmap) (peers : List Peer)
    → IsBitmap id
    → All HasId peers
    → Found id peers (find id peers)
unfolding find
find-Found id peers h hs = from_zero (find_from 0 id peers) (find_from-FoundFrom 0 id peers h hs)
  where
    from_zero : (o : Option ℕ) → FoundFrom 0 id peers o → Found id peers o
    from_zero none f = f
    from_zero (some i) (before, p, after, e, n, same) =
        (before, p, after, record { splits = e; place = omega arith }, same)

modify-middle :
    (f : Peer → Peer) (before : List Peer) (p : Peer) (after : List Peer)
    → modify f (length before) (before ++ p ∷ after) ≡ before ++ f p ∷ after
unfolding modify
modify-middle f [] p after = refl
modify-middle f (q ∷ before) p after = ap (◌∷◌ q) (modify-middle f before p after)

pub modify-At :
    (f : Peer → Peer) {i : ℕ} {peers before : List Peer} {p : Peer} {after : List Peer}
    → At i peers before p after
    → At i (modify f i peers) before (f p) after
modify-At f {i} {peers} {before} {p} {after} a = record {
  splits = rw (a.splits, ← a.place) (modify-middle f before p after);
  place = a.place;
}

pub remove_at-At :
    {i : ℕ} {peers before : List Peer} {p : Peer} {after : List Peer}
    → At i peers before p after
    → remove_at i peers ≡ before ++ after
remove_at-At {i} {peers} {before} {p} {after} a = rw (a.splits, ← a.place) (middle before p after)
  where
    middle :
        (before : List Peer) (p : Peer) (after : List Peer)
        → remove_at (length before) (before ++ p ∷ after) ≡ before ++ after
    middle [] p after = refl
    middle (q ∷ before) p after = ap (◌∷◌ q) (middle before p after)

-- The loop moves the peers behind `x` one place forward; the last place is left as it was.
shift_loop_lem :
    (before : List Peer) (x : Peer) (after : List Peer) (i left : ℕ)
    → i ≡ length before
    → left ≡ length after
    → (z : Peer) × (shift_loop left i (before ++ x ∷ after) ≡ before ++ (after ++ z ∷ []))
unfolding shift_loop
shift_loop_lem before x [] i zero e f = (x, refl)
shift_loop_lem before x [] i (suc left) e f = absurd (omega arith)
shift_loop_lem before x (y ∷ after) i zero e f = absurd (omega arith)
shift_loop_lem before x (y ∷ after) i (suc left) e f =
    let shape = append_assoc before (x ∷ []) (y ∷ after) in
    let size = length-append before (x ∷ []) in
    let size' = length-append before (y ∷ []) in
    let there : get_elem? (before ++ x ∷ y ∷ after) (i + 1) ≡ some y =
      ap (λ l. get_elem? l (i + 1)) (sym shape)
      ∙ get-middle (before ++ x ∷ []) y after (i + 1) (omega (arith, size)) in
    let written = set-middle before x y (y ∷ after) i e in
    let shape' = append_assoc before (y ∷ []) (y ∷ after) in
    let (z, ih) =
      shift_loop_lem (before ++ y ∷ []) y after (i + 1) left (omega (arith, size')) (omega arith) in
    (
      z,
      rw (there, shift_loop, written)
          (ap (shift_loop left (i + 1)) (sym shape')
            ∙ ih
            ∙ append_assoc before (y ∷ []) (after ++ z ∷ [])),
    )

last_place :
    (before after : List Peer) (z p : Peer) (n : ℕ)
    → n ≡ length before + length after
    → set (before ++ (after ++ z ∷ [])) n p ≡ before ++ (after ++ p ∷ [])
last_place before after z p n e =
    ap (λ l. set l n p) (sym (append_assoc before after (z ∷ [])))
    ∙ set-middle (before ++ after) z p [] n (omega (arith, length-append before after))
    ∙ append_assoc before after (p ∷ [])

-- moveToBack puts the peer at the index behind the others, which keep their order.
pub move_to_back-At :
    {i : ℕ} {peers before : List Peer} {p : Peer} {after : List Peer}
    → At i peers before p after
    → move_to_back peers i ≡ before ++ (after ++ p ∷ [])
unfolding move_to_back
move_to_back-At {i} {peers} {before} {p} {after} a =
    rw (a.splits, ← a.place) (middle before p after)
  where
    middle :
        (before : List Peer) (p : Peer) (after : List Peer)
        → move_to_back (before ++ p ∷ after) (length before) ≡ before ++ (after ++ p ∷ [])
    middle before p [] =
        let size = length-append before (p ∷ []) in
        let last : leb (length (before ++ p ∷ [])) (length before + 1) ≡ true =
          ground (arith, size) in
        rw (get-middle before p [] (length before) refl, move_to_back, last) refl
    middle before p (q ∷ after) =
        let size = length-append before (p ∷ q ∷ after) in
        let inner : leb (length (before ++ p ∷ q ∷ after)) (length before + 1) ≡ false =
          ground (arith, size) in
        let (z, shifted) =
          shift_loop_lem before p (q ∷ after) (length before)
            (length (before ++ p ∷ q ∷ after) - 1 - length before) refl (omega (arith, size)) in
        rw (get-middle before p (q ∷ after) (length before) refl, move_to_back, inner, shifted)
          (last_place before (q ∷ after) z p _ (omega (arith, size)))
