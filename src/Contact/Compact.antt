-- ===== src/Contact/Compact.antt =====
-- dht/contact.go, MarshalCompact and UnmarshalCompact.
use lbry_go.Prelude.{
  ℕ, zero, suc, ◌+◌, ◌-◌, ◌*◌, ◌/◌, ◌%◌, ◌≤◌, ◌≡◌, ◌≢◌, refl, bit_or, true, false, List, [], ◌∷◌,
  ◌++◌, length, drop, All, some, ltb, ◌==◌, ==_iff, ok, err, arith, all_below, all_below_sound,
  length-append, Bool-cases, inl, inr, ◌⊎◌,
}
use lbry_go.Prelude.Int.{pos}
use lbry_go.Bitmap.{Bitmap, IsByte, IsBitmap, num_bytes}
use lbry_go.Bitmap.Hex.{from_bytes, from_bytes_p}
use lbry_go.Contact.{Contact, to4, marshal_compact, unmarshal_compact, compact_length}

or_table :
    all_below 256 (λ x. all_below 256 (λ y. bit_or x (y * 256 % 65536) == y * 256 + x)) ≡ true
unfolding all_below
or_table = refl

or_lem : (x y : ℕ) → IsByte x → IsByte y → bit_or x (y * 256 % 65536) ≡ y * 256 + x
or_lem x y hx hy = (==_iff _ _).0 (
    all_below_sound 256 (λ y. bit_or x (y * 256 % 65536) == y * 256 + x) y
      (all_below_sound 256 (λ x. all_below 256 (λ y. bit_or x (y * 256 % 65536) == y * 256 + x)) x
        or_table hx)
      hy)

length-drop : (n : ℕ) (xs : List ℕ) → length (drop n xs) ≡ length xs - n
length-drop zero xs = omega arith
length-drop (suc n) [] = omega arith
length-drop (suc n) (x ∷ xs) = omega (arith, length-drop n xs)

to4-length : (ip a : List ℕ) → to4 ip ≡ some a → length a ≡ 4
unfolding to4
to4-length ip a e = ground (arith, length-drop 12 ip)

from_bytes_p-ok : (b : Bitmap) → length b ≡ num_bytes → from_bytes_p b ≡ ok b
unfolding from_bytes_p from_bytes
from_bytes_p-ok b e = rw e

-- What is in a compact form, and how it is read.
read_back :
    (d : Contact) (a : List ℕ) (p : ℕ) (id : Bitmap)
    → length a ≡ 4
    → p ≤ 65535
    → length id ≡ num_bytes
    → unmarshal_compact d (a ++ (p / 256 % 256) ∷ (p % 256) ∷ id)
      ≡ ok (record d { id = id; ip = a; peer_port = pos p })
unfolding unmarshal_compact
read_back d [] p id e h k = absurd (omega arith)
read_back d (w ∷ []) p id e h k = absurd (omega arith)
read_back d (w ∷ x ∷ []) p id e h k = absurd (omega arith)
read_back d (w ∷ x ∷ y ∷ []) p id e h k = absurd (omega arith)
read_back d (w ∷ x ∷ y ∷ z ∷ []) p id e h k =
    let whole : p / 256 % 256 * 256 + p % 256 ≡ p = omega arith in
    rw
      (k, from_bytes_p-ok id k, or_lem (p % 256) (p / 256 % 256) (omega arith) (omega arith), whole)
read_back d (w ∷ x ∷ y ∷ z ∷ v ∷ a) p id e h k = absurd (omega arith)

-- A contact with an IPv4 address and a port in range has a compact form of 54 bytes, from which
-- UnmarshalCompact restores its identifier, address and peer port; the udp port is the reader's.
pub unmarshal_compact-marshal_compact :
    (c d : Contact) (a : List ℕ) (p : ℕ)
    → IsBitmap c.id
    → to4 c.ip ≡ some a
    → c.peer_port ≡ pos p
    → p ≤ 65535
    → (b : List ℕ) × (marshal_compact c ≡ ok b)
      × (length b ≡ compact_length)
      × (unmarshal_compact d b ≡ ok (record d { id = c.id; ip = a; peer_port = pos p }))
unfolding marshal_compact
unmarshal_compact-marshal_compact c d a p h e f le =
    let four = to4-length c.ip a e in
    let buf : List ℕ = a ++ (p / 256 % 256) ∷ (p % 256) ∷ c.id in
    let size : length buf ≡ compact_length =
      omega (arith, length-append a ((p / 256 % 256) ∷ (p % 256) ∷ c.id), four, h.0) in
    let fits : ltb 65535 p ≡ false = ground arith in
    let same : (length buf == compact_length) ≡ true = (==_iff _ _).1 size in
    (buf, rw (e, f, fits, same, marshal_compact), size, read_back d a p c.id four le h.0)

reread :
    (d : Contact) (w x y z h l : ℕ) (id : List ℕ)
    → length id ≡ num_bytes
    → IsByte h
    → IsByte l
    → (c : Contact) × (unmarshal_compact d (w ∷ x ∷ y ∷ z ∷ h ∷ l ∷ id) ≡ ok c)
      × (marshal_compact c ≡ ok (w ∷ x ∷ y ∷ z ∷ h ∷ l ∷ id))
      × (c.port ≡ d.port)
unfolding unmarshal_compact marshal_compact to4
reread d w x y z h l id e hh hl =
    let p = h * 256 + l in
    let top : p / 256 % 256 ≡ h = omega arith in
    let low : p % 256 ≡ l = omega arith in
    let fits : ltb 65535 p ≡ false = ground arith in
    (
      record d { id = id; ip = w ∷ x ∷ y ∷ z ∷ []; peer_port = pos p },
      rw (e, from_bytes_p-ok id e, or_lem l h hl hh),
      rw (e, fits, top, low),
      refl,
    )

-- Every 54 bytes are read as a contact, whose compact form they are; any other number of bytes is
-- refused.
pub marshal_compact-unmarshal_compact :
    (d : Contact) (b : List ℕ)
    → All IsByte b
    → ((length b ≡ compact_length)
        × ((c : Contact) × (unmarshal_compact d b ≡ ok c)
            × (marshal_compact c ≡ ok b)
            × (c.port ≡ d.port)))
      ⊎ ((length b ≢ compact_length) × (unmarshal_compact d b ≡ err "invalid compact length"))
marshal_compact-unmarshal_compact d b h = elim (Bool-cases (length b == compact_length)) [
  | inl fits ↦ let e = (==_iff (length b) compact_length).0 fits in inl (e, read d b h e)
  | inr differs ↦ let ne : length b ≢ compact_length = ground arith in inr (ne, refuse d b ne)
]
  where
    read :
        (d : Contact) (b : List ℕ)
        → All IsByte b
        → length b ≡ compact_length
        → (c : Contact) × (unmarshal_compact d b ≡ ok c)
          × (marshal_compact c ≡ ok b)
          × (c.port ≡ d.port)
    read d [] h e = absurd (omega arith)
    read d (w ∷ []) h e = absurd (omega arith)
    read d (w ∷ x ∷ []) h e = absurd (omega arith)
    read d (w ∷ x ∷ y ∷ []) h e = absurd (omega arith)
    read d (w ∷ x ∷ y ∷ z ∷ []) h e = absurd (omega arith)
    read d (w ∷ x ∷ y ∷ z ∷ v ∷ []) h e = absurd (omega arith)
    read d (w ∷ x ∷ y ∷ z ∷ u ∷ v ∷ id) h e =
        reread d w x y z u v id (omega arith) h.1.1.1.1.0 h.1.1.1.1.1.0

    refuse :
        (d : Contact) (b : List ℕ)
        → length b ≢ compact_length
        → unmarshal_compact d b ≡ err "invalid compact length"
    refuse d b ne =
        let differs : (length b == compact_length) ≡ false = ground arith in
        unfold unmarshal_compact in rw differs
