-- ===== src/OrderedMap.antt =====
-- extras/orderedmap/ordered_map.go: a map that remembers the order of its keys. A key is the bytes of
-- a string. The arguments of the error message are left out. The Go map is a function, with `none`
-- for a missing key; the values are of any type.
-- Every method but Copy holds the lock throughout, so it is one step.
pub mod Places
pub mod Laws
pub mod Copies
use lbry_go.Prelude.{
  ℕ, zero, suc, ◌+◌, ◌-◌, ◌≡◌, Bool, true, false, not, ◌&&◌, ◌||◌, List, [], ◌∷◌, ◌++◌, length,
  take, drop, Option, none, some, ltb, leb, ◌==◌, if◌then◌else◌, Run, ok, err, panic, out_of_fuel,
  ◌>>=◌,
}
use lbry_go.Prelude.Int.{ℤ, pos, negsuc}

abbrev pub Key : Type 0
Key = List ℕ

unfoldable pub key_eq : Key → Key → Bool
key_eq [] [] = true
key_eq [] (y ∷ b) = false
key_eq (x ∷ a) [] = false
key_eq (x ∷ a) (y ∷ b) = x == y && key_eq a b

abbrev pub is_some {ℓ} : {A : Type ℓ} → Option A → Bool
is_some none = false
is_some (some a) = true

pub record OrderedMap (V : Type 0) : Type 0 where
  pub keys : List Key
  pub values : Key → Option V

-- The index that a position stands for, if it is in range. A negative position -(n + 1) is counted
-- from the back.
unfoldable pub index_of : ℤ → ℕ → Option ℕ
index_of (pos n) size = if leb n size then some n else none
index_of (negsuc n) size = if leb n size then some (size - n) else none

-- The loop of Delete: the first occurrence is cut out.
unfoldable pub cut_key : Key → List Key → List Key
cut_key key [] = []
cut_key key (k ∷ keys) = if key_eq k key then keys else k ∷ cut_key key keys

-- The value that Get returns for a key, with the zero value, nil, for a missing one.
abbrev pub or_zero {ℓ} : {A : Type ℓ} → A → Option A → A
or_zero zero_value none = zero_value
or_zero zero_value (some a) = a

module _ {V : Type 0} where
  unfoldable pub new : OrderedMap V
  new = record { keys = []; values = λ k. none }

  unfoldable pub get : OrderedMap V → Key → Option V
  get o key = o.values key

  -- `o.values[key] = value`
  unfoldable pub assign : (Key → Option V) → Key → V → Key → Option V
  assign values key value k = if key_eq k key then some value else values k

  -- `delete(o.values, key)`
  unfoldable pub erase : (Key → Option V) → Key → Key → Option V
  erase values key k = if key_eq k key then none else values k

  unfoldable pub set : OrderedMap V → Key → V → OrderedMap V
  set o key value = record {
    keys = if is_some (o.values key) then o.keys else o.keys ++ key ∷ [];
    values = assign o.values key value;
  }

  unfoldable pub insert_at : OrderedMap V → Key → V → ℤ → Run (OrderedMap V)
  insert_at o key value position = elim (index_of position (length o.keys)) [
    | none ↦ err "position value %d is outside of the range %d - %d"
    | some index ↦ ok (record {
      keys =
          if is_some (o.values key) then o.keys else take index o.keys ++ key ∷ drop index o.keys;
      values = assign o.values key value;
    })
  ]

  unfoldable pub prepend : OrderedMap V → Key → V → OrderedMap V
  prepend o key value = record {
    keys = if is_some (o.values key) then o.keys else key ∷ o.keys;
    values = assign o.values key value;
  }

  unfoldable pub delete : OrderedMap V → Key → OrderedMap V
  delete o key =
      if not (is_some (o.values key))
      then o
      else record { keys = cut_key key o.keys; values = erase o.values key }

  -- The loop of Copy.
  unfoldable pub copy_loop : V → OrderedMap V → List Key → OrderedMap V → OrderedMap V
  copy_loop zero_value o [] copied = copied
  copy_loop zero_value o (k ∷ keys) copied =
      copy_loop zero_value o keys (set copied k (or_zero zero_value (get o k)))

  unfoldable pub copy : V → OrderedMap V → OrderedMap V
  copy zero_value o = copy_loop zero_value o o.keys new
