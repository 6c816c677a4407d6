-- ===== src/Contact.antt =====
-- dht/contact.go: contacts and their compact form. `to4` and `ip_equal` are IP.To4 and IP.Equal of
-- Go's net package; a nil IP is the empty list. Ports are Go ints.
pub mod Compact
pub mod Sorting
use lbry_go.Prelude.{
  ℕ, zero, suc, ◌+◌, ◌*◌, ◌/◌, ◌%◌, bit_or, Bool, true, false, not, ◌&&◌, ◌||◌, List, [], ◌∷◌, ◌++◌,
  length, get_or, take, drop, replicate, Option, none, some, ltb, ◌==◌, if◌then◌else◌, Run, ok, err,
  panic, out_of_fuel, ◌>>=◌,
}
use lbry_go.Prelude.Int.{ℤ, pos, negsuc, pos_part}
use lbry_go.Bitmap.{Bitmap, num_bytes, xor, cmp, is_less}
use lbry_go.Bitmap.Hex.{from_bytes_p}

pub record Contact : Type 0 where
  pub id : Bitmap
  pub ip : List ℕ
  pub port : ℤ
  pub peer_port : ℤ

abbrev pub bytes_eq : List ℕ → List ℕ → Bool
bytes_eq [] [] = true
bytes_eq (x ∷ a) (y ∷ b) = x == y && bytes_eq a b
bytes_eq _ _ = false

abbrev pub int_eq : ℤ → ℤ → Bool
int_eq (pos a) (pos b) = a == b
int_eq (negsuc a) (negsuc b) = a == b
int_eq _ _ = false

-- The first 12 bytes of an IPv4 address in 16 bytes.
abbrev pub v4_prefix : List ℕ
v4_prefix = replicate 10 0 ++ 255 ∷ 255 ∷ []

unfoldable pub to4 : List ℕ → Option (List ℕ)
to4 ip =
    if length ip == 4
    then some ip
    else if length ip == 16 && bytes_eq (take 12 ip) v4_prefix
    then some (drop 12 ip)
    else none

unfoldable pub ip_equal : List ℕ → List ℕ → Bool
ip_equal ip x =
    if length ip == length x
    then bytes_eq ip x
    else if length ip == 4 && length x == 16
    then bytes_eq (take 12 x) v4_prefix && bytes_eq ip (drop 12 x)
    else if length ip == 16 && length x == 4
    then bytes_eq (take 12 ip) v4_prefix && bytes_eq (drop 12 ip) x
    else false

unfoldable pub contact_equals : Contact → Contact → Bool → Bool
unfolding ip_equal
contact_equals c other check_id =
    ip_equal c.ip other.ip && int_eq c.port other.port && (not check_id || bytes_eq c.id other.id)

-- dht/config.go, compactNodeInfoLength.
abbrev pub compact_length : ℕ
compact_length = num_bytes + 6

abbrev pub is_negative : ℤ → Bool
is_negative (pos n) = false
is_negative (negsuc n) = true

unfoldable pub marshal_compact : Contact → Run (List ℕ)
marshal_compact c = elim (to4 c.ip) [
  | none ↦ err "ip not set"
  | some ip ↦
      let port = pos_part c.peer_port in
      let buf = ip ++ (port / 256 % 256) ∷ (port % 256) ∷ c.id in
      if is_negative c.peer_port || ltb 65535 port
      then err "invalid port"
      else if not (length buf == compact_length)
      then err "i dont know how this happened"
      else ok buf
]

-- The fields that are read replace those of `c`; its Port stays.
unfoldable pub unmarshal_compact : Contact → List ℕ → Run Contact
unmarshal_compact c b =
    if not (length b == compact_length) then err "invalid compact length" else do
      id ← from_bytes_p (drop 6 b)
      ok (record c {
        id = id;
        ip = take 4 b;
        peer_port = pos (bit_or (get_or b 5 0) (get_or b 4 0 * 256 % 65536));
      })

-- The comparison that sortByDistance hands to sort.Slice.
unfoldable pub nearer : Bitmap → Contact → Contact → Bool
nearer target c d = is_less (cmp (xor c.id target) (xor d.id target))

-- sort.Slice leaves the order of equal elements open; here they keep it.
unfoldable pub insert : Bitmap → Contact → List Contact → List Contact
insert target c [] = c ∷ []
insert target c (d ∷ l) = if nearer target d c then d ∷ insert target c l else c ∷ d ∷ l

unfoldable pub sort_by_distance : List Contact → Bitmap → List Contact
sort_by_distance [] target = []
sort_by_distance (c ∷ contacts) target = insert target c (sort_by_distance contacts target)
