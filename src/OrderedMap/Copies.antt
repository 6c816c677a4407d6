-- ===== src/OrderedMap/Copies.antt =====
-- extras/orderedmap/ordered_map.go, Copy: the copy against the map.
use mathlib.Core.Path.{subst}
use mathlib.Core.List.{append-nil, append_assoc}
use lbry_go.Prelude.{
  ◌≡◌, refl, ap, sym, ◌∙◌, true, false, ◌||◌, List, [], ◌∷◌, ◌++◌, Option, none, some,
  if◌then◌else◌, Bool-cases, inl, inr, arith,
}
use lbry_go.OrderedMap.{
  Key, key_eq, is_some, OrderedMap, new, get, assign, set, or_zero, copy_loop, copy,
}
use lbry_go.OrderedMap.Places.{key_eq_iff, key_eq_comm, elem, NoDup, elem-middle}
use lbry_go.OrderedMap.Laws.{IsOrdered, none_of}

NoDup-fresh :
    (x : Key) (before after : List Key) → NoDup (before ++ x ∷ after) → elem x before ≡ false
unfolding elem
NoDup-fresh x [] after d = refl
NoDup-fresh x (y ∷ before) after (fresh, d) =
    ground (arith, NoDup-fresh x before after d, key_eq_comm x y, elem-middle y x before after)

module _ {V : Type 0} (zero_value : V) (o : OrderedMap V) (h : IsOrdered o) where
  -- What is copied when the keys `done` are.
  record Partial (done : List Key) (c : OrderedMap V) : Type 0 where
    keys_done : c.keys ≡ done
    values_done : (k : Key) → c.values k ≡ (if elem k done then o.values k else none)

  found : (m : Option V) → is_some m ≡ true → some (or_zero zero_value m) ≡ m
  found none e = cc
  found (some v) e = refl

  value_step :
      (done : List Key) (k : Key) (c : OrderedMap V)
      → Partial done c
      → is_some (o.values k) ≡ true
      → (j : Key)
      → assign c.values k (or_zero zero_value (o.values k)) j
        ≡ (if key_eq j k || elem j done then o.values j else none)
  unfolding assign
  value_step done k c p there j = elim (Bool-cases (key_eq j k)) [
    | inl same ↦
        rw same (found (o.values k) there ∙ ap (λ z. o.values z) (sym ((key_eq_iff j k).0 same)))
    | inr other ↦ rw other (p.values_done j)
  ]

  copy_step :
      (done rest : List Key) (k : Key) (c : OrderedMap V)
      → o.keys ≡ done ++ k ∷ rest
      → Partial done c
      → Partial (done ++ k ∷ []) (set c k (or_zero zero_value (get o k)))
  unfolding set get assign
  copy_step done rest k c e p =
      let fresh : elem k done ≡ false = NoDup-fresh k done rest (subst NoDup e h.distinct) in
      let there : is_some (o.values k) ≡ true =
        sym (h.agrees k)
        ∙ ap (elem k) e
        ∙ elem-middle k k done rest
        ∙ ap (λ t. t || elem k (done ++ rest)) ((key_eq_iff k k).1 refl) in
      let missing : is_some (c.values k) ≡ false = ap is_some (p.values_done k) ∙ rw fresh in
      let grown : (j : Key) → elem j (done ++ k ∷ []) ≡ (key_eq j k || elem j done) =
        λ j. elem-middle j k done [] ∙ ap (λ l. key_eq j k || elem j l) (append-nil done) in
      rw missing (record {
        keys_done = ap (λ l. l ++ k ∷ []) p.keys_done;
        values_done = λ j.
            value_step done k c p there j
            ∙ ap (λ t. if t then o.values j else none) (sym (grown j));
      })

  copy_loop_lem :
      (done rest : List Key) (c : OrderedMap V)
      → o.keys ≡ done ++ rest
      → Partial done c
      → Partial o.keys (copy_loop zero_value o rest c)
  unfolding copy_loop
  copy_loop_lem done [] c e p = subst (λ l. Partial l c) (sym (append-nil done) ∙ sym e) p
  copy_loop_lem done (k ∷ rest) c e p =
      copy_loop_lem (done ++ k ∷ []) rest (set c k (or_zero zero_value (get o k)))
        (e ∙ sym (append_assoc done (k ∷ []) rest)) (copy_step done rest k c e p)

  -- The copy of a map whose keys and values agree has the same keys, in the same order, and the same
  -- value for every key, whatever the zero value is.
  pub copy-get :
      ((copy zero_value o).keys ≡ o.keys) × ((k : Key) → get (copy zero_value o) k ≡ get o k)
  unfolding copy new get elem
  copy-get =
      let p =
        copy_loop_lem [] o.keys new refl (record { keys_done = refl; values_done = λ k. refl }) in
      (p.keys_done, λ k. p.values_done k ∙ known k)
    where
      known : (k : Key) → (if elem k o.keys then o.values k else none) ≡ o.values k
      known k = elim (Bool-cases (elem k o.keys)) [
        | inl there ↦ rw there
        | inr missing ↦ rw missing (sym (none_of (o.values k) (sym (h.agrees k) ∙ missing)))
      ]
