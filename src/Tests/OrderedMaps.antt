-- ===== src/Tests/OrderedMaps.antt =====
-- extras/orderedmap/ordered_map.go: runs and the theorems on a map of two keys.
use lbry_go.Prelude.{ℕ, ◌≡◌, ◌⊎◌, refl, [], ◌∷◌, length, take, drop, ok, err}
use lbry_go.Prelude.Int.{negsuc}
use lbry_go.OrderedMap.{Key, OrderedMap, key_eq, new, assign, set, insert_at, delete}
use lbry_go.OrderedMap.Places.{elem}
use lbry_go.OrderedMap.Laws.{
  IsOrdered, Placed, Removed, Stands, Outside, set-Placed, insert_at_cases, delete-Removed,
}

abbrev a : Key
a = b'a' ∷ []

abbrev b : Key
b = b'b' ∷ []

abbrev c : Key
c = b'c' ∷ []

abbrev two : OrderedMap ℕ
two = set (set new a 1) b 2

new-IsOrdered : IsOrdered (new {V = ℕ})
unfolding new elem
new-IsOrdered = record { distinct = tt; agrees = λ k. refl }

two-IsOrdered : IsOrdered two
two-IsOrdered = (set-Placed (set new a 1) b 2 (set-Placed new a 1 new-IsOrdered).ordered).ordered

order : (set two a 3).keys ≡ a ∷ b ∷ []
unfolding set new assign key_eq
order = refl

-- Position -2 is the place before the last key.
insert_at_cases_example :
    ((i : ℕ) × Stands (negsuc 1) (length two.keys) i
      × ((o' : OrderedMap ℕ) × (insert_at two c 3 (negsuc 1) ≡ ok o')
          × Placed two c 3 (take i two.keys) (drop i two.keys) o'))
    ⊎ (Outside (negsuc 1) (length two.keys)
        × (insert_at two c 3 (negsuc 1) ≡ err "position value %d is outside of the range %d - %d"))
insert_at_cases_example = insert_at_cases two c 3 (negsuc 1) two-IsOrdered

delete-Removed_example : Removed two a (delete two a)
delete-Removed_example = delete-Removed two a two-IsOrdered
