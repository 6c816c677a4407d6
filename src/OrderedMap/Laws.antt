-- ===== src/OrderedMap/Laws.antt =====
-- extras/orderedmap/ordered_map.go: the agreement of the list of keys with the Go map, and what each
-- operation does to both.
use mathlib.Core.List.{append-nil}
use mathlib.Core.Path.{subst}
use lbry_go.Prelude.{
  ℕ, ◌+◌, ◌≤◌, ◌<◌, ◌≡◌, ◌≢◌, ◌⊎◌, refl, ap, sym, ◌∙◌, true, false, not, ◌&&◌, ◌||◌, List, [], ◌∷◌,
  ◌++◌, length, take, drop, take-append-drop, Option, none, some, Option-cases, if◌then◌else◌,
  Bool-cases, inl, inr, arith, ok, err,
}
use lbry_go.Prelude.Int.{ℤ, pos, negsuc}
use lbry_go.OrderedMap.{
  Key, key_eq, is_some, OrderedMap, get, assign, erase, set, index_of, insert_at, prepend, cut_key,
  delete,
}
use lbry_go.OrderedMap.Places.{
  key_eq_iff, key_eq_self, elem, NoDup, elem-middle, NoDup-middle, elem-cut_key, cut_key-NoDup,
  cut_key-middle,
}

-- The keys are distinct, and are the keys of the Go map.
pub record IsOrdered {V : Type 0} (o : OrderedMap V) : Type 0 where
  pub distinct : NoDup o.keys
  pub agrees : (k : Key) → elem k o.keys ≡ is_some (o.values k)

-- `o'` is `o` with the value at the key: a known key keeps its place, and a new one stands between
-- `before` and `after`.
pub record Placed {V : Type 0} (o : OrderedMap V) (key : Key) (v : V) (before after : List Key)
    (o' : OrderedMap V) : Type 0 where
  pub ordered : IsOrdered o'
  pub place :
      ((is_some (get o key) ≡ true) × (o'.keys ≡ o.keys))
      ⊎ ((is_some (get o key) ≡ false) × (o'.keys ≡ before ++ key ∷ after))
  pub stored : get o' key ≡ some v
  pub others : (k : Key) → k ≢ key → get o' k ≡ get o k

-- The index that a position stands for: counted from the front, or from the back, where -(n + 1) is
-- the place behind all keys but n.
abbrev pub Stands : ℤ → ℕ → ℕ → Type 0
Stands (pos n) size i = (i ≡ n) × (i ≤ size)
Stands (negsuc n) size i = i + n ≡ size

abbrev pub Outside : ℤ → ℕ → Type 0
Outside (pos n) size = size < n
Outside (negsuc n) size = size < n

index_of-Stands :
    (position : ℤ) (size i : ℕ) → index_of position size ≡ some i → Stands position size i
unfolding index_of
index_of-Stands (pos n) size i e = (ground arith, ground arith)
index_of-Stands (negsuc n) size i e = ground arith

index_of-Outside : (position : ℤ) (size : ℕ) → index_of position size ≡ none → Outside position size
unfolding index_of
index_of-Outside (pos n) size e = ground arith
index_of-Outside (negsuc n) size e = ground arith

module _ {V : Type 0} where
  assign_other : (m : Key → Option V) (key k : Key) (v : V) → k ≢ key → assign m key v k ≡ m k
  unfolding assign
  assign_other m key k v ne = elim (Bool-cases (key_eq k key)) [
    | inl same ↦ absurd (ne ((key_eq_iff k key).0 same))
    | inr other ↦ rw other
  ]

  is_some-assign :
      (m : Key → Option V) (key k : Key) (v : V)
      → is_some (assign m key v k) ≡ (key_eq k key || is_some (m k))
  unfolding assign
  is_some-assign m key k v = elim (Bool-cases (key_eq k key)) [
    | inl same ↦ rw same
    | inr other ↦ rw other
  ]

  agrees-known :
      (o : OrderedMap V) (key k : Key) (v : V)
      → IsOrdered o
      → is_some (o.values key) ≡ true
      → elem k o.keys ≡ is_some (assign o.values key v k)
  agrees-known o key k v h known =
      h.agrees k
      ∙ sym (
          is_some-assign o.values key k v ∙ elim (Bool-cases (key_eq k key)) [
            | inl same ↦
                let there : is_some (o.values k) ≡ true =
                  ap (λ z. is_some (o.values z)) ((key_eq_iff k key).0 same) ∙ known in
                ground (arith, there, same)
            | inr other ↦ rw other
          ])

  -- The step that Set, InsertAt and Prepend share.
  put-Placed :
      (o : OrderedMap V) (key : Key) (v : V) (before after : List Key)
      → IsOrdered o
      → o.keys ≡ before ++ after
      → Placed o key v before after (record {
        keys = if is_some (o.values key) then o.keys else before ++ key ∷ after;
        values = assign o.values key v;
      })
  unfolding get assign
  put-Placed o key v before after h e =
      let whole : NoDup (before ++ after) = subst NoDup e h.distinct in
      let out : (k : Key) → elem k (before ++ after) ≡ is_some (o.values k) =
        λ k. ap (elem k) (sym e) ∙ h.agrees k in
      let added : (k : Key) → elem k (before ++ key ∷ after) ≡ is_some (assign o.values key v k) =
        λ k.
          elem-middle k key before after
          ∙ ap (λ t. key_eq k key || t) (out k)
          ∙ sym (is_some-assign o.values key k v) in
      elim (Bool-cases (is_some (o.values key))) [
        | inl known ↦ rw known (record {
          ordered = record { distinct = h.distinct; agrees = λ k. agrees-known o key k v h known };
          place = inl (known, refl);
          stored = rw (key_eq_self key);
          others = λ k ne. assign_other o.values key k v ne;
        })
        | inr fresh ↦ rw fresh (record {
          ordered = record {
            distinct = NoDup-middle key before after (out key ∙ fresh) whole;
            agrees = λ k. added k;
          };
          place = inr (fresh, refl);
          stored = rw (key_eq_self key);
          others = λ k ne. assign_other o.values key k v ne;
        })
      ]

  -- Set, in a map whose keys and values agree: they agree afterwards, the key has the value and no
  -- other value changes; a new key stands behind the others, and a known one keeps its place.
  pub set-Placed :
      (o : OrderedMap V) (key : Key) (v : V) → IsOrdered o → Placed o key v o.keys [] (set o key v)
  unfolding set
  set-Placed o key v h = put-Placed o key v o.keys [] h (sym (append-nil o.keys))

  -- Prepend, in a map whose keys and values agree: they agree afterwards, the key has the value and
  -- no other value changes; a new key stands before the others, and a known one keeps its place.
  pub prepend-Placed :
      (o : OrderedMap V) (key : Key) (v : V)
      → IsOrdered o
      → Placed o key v [] o.keys (prepend o key v)
  unfolding prepend
  prepend-Placed o key v h = put-Placed o key v [] o.keys h refl

  -- InsertAt, in a map whose keys and values agree, stores the value and puts a new key at the index
  -- that the position stands for, where a known one keeps its place and keys and values agree
  -- afterwards; it fails for a position outside of the range.
  pub insert_at_cases :
      (o : OrderedMap V) (key : Key) (v : V) (position : ℤ)
      → IsOrdered o
      → ((i : ℕ) × Stands position (length o.keys) i
          × ((o' : OrderedMap V) × (insert_at o key v position ≡ ok o')
              × Placed o key v (take i o.keys) (drop i o.keys) o'))
        ⊎ (Outside position (length o.keys)
            × (insert_at o key v position
                ≡ err "position value %d is outside of the range %d - %d"))
  unfolding insert_at
  insert_at_cases o key v position h = elim (Option-cases (index_of position (length o.keys))) [
    | inl outside ↦ inr (index_of-Outside position (length o.keys) outside, rw (outside, insert_at))
    | inr (i, inside) ↦ inl (
      i,
      index_of-Stands position (length o.keys) i inside,
      (
        _,
        rw (inside, insert_at) refl,
        put-Placed o key v (take i o.keys) (drop i o.keys) h (sym (take-append-drop i o.keys)),
      ),
    )
  ]

  -- `o'` is `o` without the key.
  pub record Removed (o : OrderedMap V) (key : Key) (o' : OrderedMap V) : Type 0 where
    pub ordered : IsOrdered o'
    pub place :
        ((is_some (get o key) ≡ false) × (o'.keys ≡ o.keys))
        ⊎ ((before : List Key) × (after : List Key) × (o.keys ≡ before ++ key ∷ after)
            × (o'.keys ≡ before ++ after))
    pub gone : get o' key ≡ none
    pub others : (k : Key) → k ≢ key → get o' k ≡ get o k

  erase_other : (m : Key → Option V) (key k : Key) → k ≢ key → erase m key k ≡ m k
  unfolding erase
  erase_other m key k ne = elim (Bool-cases (key_eq k key)) [
    | inl same ↦ absurd (ne ((key_eq_iff k key).0 same))
    | inr other ↦ rw other
  ]

  is_some-erase :
      (m : Key → Option V) (key k : Key)
      → is_some (erase m key k) ≡ (not (key_eq k key) && is_some (m k))
  unfolding erase
  is_some-erase m key k = elim (Bool-cases (key_eq k key)) [
    | inl same ↦ rw same
    | inr other ↦ rw other
  ]

  pub none_of : (m : Option V) → is_some m ≡ false → m ≡ none
  none_of none e = refl
  none_of (some v) e = cc

  -- Delete, in a map whose keys and values agree: the key is gone from the map and from its place
  -- among the keys, nothing else changes, and they agree afterwards.
  pub delete-Removed : (o : OrderedMap V) (key : Key) → IsOrdered o → Removed o key (delete o key)
  unfolding delete get erase
  delete-Removed o key h = elim (Bool-cases (is_some (o.values key))) [
    | inr missing ↦ rw missing (record {
      ordered = h;
      place = inl (missing, refl);
      gone = none_of (o.values key) missing;
      others = λ k ne. refl;
    })
    | inl known ↦
        let (before, after, e, f) = cut_key-middle key o.keys (h.agrees key ∙ known) in
        let agrees : (k : Key) → elem k (cut_key key o.keys) ≡ is_some (erase o.values key k) = λ k.
          elem-cut_key k key o.keys h.distinct
          ∙ ap (λ t. not (key_eq k key) && t) (h.agrees k)
          ∙ sym (is_some-erase o.values key k) in
        rw known (record {
          ordered = record { distinct = cut_key-NoDup key o.keys h.distinct; agrees = agrees };
          place = inr (before, after, e, f);
          gone = rw (key_eq_self key);
          others = λ k ne. erase_other o.values key k ne;
        })
  ]
