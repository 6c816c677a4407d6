-- ===== src/Finder/Cycles.antt =====
-- dht/node_finder.go: how a cycle judges the results of its probes, and when the search stops.
use lbry_go.Prelude.{
  ◌≤◌, ◌<◌, ◌≡◌, true_ne_false, refl, ap, sym, ◌∙◌, Bool, true, false, List, [], ◌∷◌, All, Option,
  none, some, if◌then◌else◌, ◌||◌, Bool-cases, inl, inr, arith,
}
use mathlib.Core.Path.{subst}
use lbry_go.Bitmap.{Bitmap, IsBitmap}
use lbry_go.Bitmap.Distance.{closer-distance}
use lbry_go.Contact.{Contact}
use lbry_go.Contact.Sorting.{HasId, away}
use lbry_go.Finder.{
  Finder, collect_loop, is_closer, cycle_end, is_search_finished, append_new_to_shortlist,
  insert_into_active_list, pop_from_shortlist,
}
use lbry_go.Finder.Trace.{
  Search, FinderStep, Found, here, next, pop, lost, answered, extend, value, cycle,
}
use lbry_go.Finder.Invariant.{pop_cases}

abbrev pub GoodId : Option Contact → Type 0
GoodId none = Unit
GoodId (some c) = HasId c

-- No contact of the second argument is nearer than the first, which is one if the second is.
abbrev pub AsNear : Bitmap → Option Contact → Option Contact → Type 0
AsNear target r none = Unit
AsNear target none (some c) = ⊥
AsNear target (some r) (some c) = away target r ≤ away target c

-- The first is a contact, and nearer than the second, if that is one.
abbrev pub Nearer : Bitmap → Option Contact → Option Contact → Type 0
Nearer target none o = ⊥
Nearer target (some r) none = Unit
Nearer target (some r) (some c) = away target r < away target c

module _ (target : Bitmap) (h : IsBitmap target) where
  is_closer-Nearer :
      (c : Contact) (best : Option Contact)
      → HasId c
      → GoodId best
      → is_closer target c best ≡ true
      → Nearer target (some c) best
  unfolding is_closer
  is_closer-Nearer c none hc hb e = tt
  is_closer-Nearer c (some best) hc hb e =
      ground (arith, closer-distance target c.id best.id h hc hb)

  is_closer-AsNear :
      (c : Contact) (best : Option Contact)
      → HasId c
      → GoodId best
      → is_closer target c best ≡ false
      → AsNear target best (some c)
  unfolding is_closer
  is_closer-AsNear c none hc hb e = absurd (ground (arith, e))
  is_closer-AsNear c (some best) hc hb e =
      ground (arith, closer-distance target c.id best.id h hc hb)

  as_near : (a b c : Option Contact) → AsNear target a b → Nearer target b c → Nearer target a c
  as_near none none c p q = absurd q
  as_near none (some b) c p q = absurd p
  as_near (some a) none c p q = absurd q
  as_near (some a) (some b) none p q = tt
  as_near (some a) (some b) (some c) p q = omega arith

  as_near_trans :
      (a b c : Option Contact) → AsNear target a b → AsNear target b c → AsNear target a c
  as_near_trans a b none p q = tt
  as_near_trans none none (some c) p q = q
  as_near_trans none (some b) (some c) p q = absurd p
  as_near_trans (some a) none (some c) p q = absurd q
  as_near_trans (some a) (some b) (some c) p q = omega arith

  weaken : (a b : Option Contact) → Nearer target a b → AsNear target a b
  weaken none b p = absurd p
  weaken (some a) none p = tt
  weaken (some a) (some b) p = omega arith

  self : (a : Option Contact) → AsNear target a a
  self none = tt
  self (some a) = omega arith

  collect_step :
      (x : Contact) (results : List (Option Contact)) (best : Option Contact)
      (found_closer b : Bool)
      → is_closer target x best ≡ b
      → collect_loop target (some x ∷ results) best found_closer ≡ (
          if b
          then collect_loop target results (some x) true
          else collect_loop target results best found_closer)
  unfolding collect_loop
  collect_step x results best found_closer b e =
      ap
        (λ t.
          if t
          then collect_loop target results (some x) true
          else collect_loop target results best found_closer)
        e

  -- The result of the loop, from the best contact that the cycle began with.
  abbrev pub IsBest : List (Option Contact) → Option Contact → Bool → Option Contact → Bool → Type 0
  IsBest results best found_closer r f =
      AsNear target r best
      × All (AsNear target r) results
      × (f ≡ false → (r ≡ best) × (found_closer ≡ false))
      × (f ≡ true → found_closer ≡ false → Nearer target r best)

  -- The loop of cycle, from identifiers of the right length: the contact it ends with is as near to the
  -- target as the one it began with and every result; if it found no closer one it ends with the one
  -- it began with, and if it did, with one that is strictly nearer.
  pub collect_loop_lem :
      (results : List (Option Contact)) (best : Option Contact) (found_closer : Bool)
      → All GoodId results
      → GoodId best
      → IsBest results best found_closer
          (collect_loop target results best found_closer).0
          (collect_loop target results best found_closer).1
  unfolding collect_loop
  collect_loop_lem [] best found_closer hs hb = (self best, tt, λ e. (refl, e), λ e e'. absurd (cc))
  collect_loop_lem (none ∷ results) best found_closer hs hb =
      let (a, b, c, d) = collect_loop_lem results best found_closer hs.1 hb in (a, (tt, b), c, d)
  collect_loop_lem (some x ∷ results) best found_closer hs hb =
      elim (Bool-cases (is_closer target x best)) [
        | inl better ↦
            let (a, b, c, d) = collect_loop_lem results (some x) true hs.1 hs.0 in
            let r = (collect_loop target results (some x) true).0 in
            let near = as_near r (some x) best a (is_closer-Nearer x best hs.0 hb better) in
            subst (λ p. IsBest (some x ∷ results) best found_closer p.0 p.1)
              (sym (collect_step x results best found_closer true better))
              (weaken r best near, (a, b), λ e. absurd (true_ne_false (c e).1), λ e e'. near)
        | inr worse ↦
            let (a, b, c, d) = collect_loop_lem results best found_closer hs.1 hb in
            let r = (collect_loop target results best found_closer).0 in
            subst (λ p. IsBest (some x ∷ results) best found_closer p.0 p.1)
              (sym (collect_step x results best found_closer false worse))
              (
                a,
                (as_near_trans r best (some x) a (is_closer-AsNear x best hs.0 hb worse), b),
                c,
                d,
              )
      ]

  -- Where no result is nearer than the best contact, the loop finds no closer one.
  collect_loop-AsNear :
      (results : List (Option Contact)) (best : Option Contact)
      → All GoodId results
      → GoodId best
      → All (AsNear target best) results
      → (collect_loop target results best false).1 ≡ false
  unfolding collect_loop
  collect_loop-AsNear [] best hs hb near = refl
  collect_loop-AsNear (none ∷ results) best hs hb near =
      collect_loop-AsNear results best hs.1 hb near.1
  collect_loop-AsNear (some x ∷ results) best hs hb near =
      elim (Bool-cases (is_closer target x best)) [
        | inl better ↦ absurd (not_both best x near.0 (is_closer-Nearer x best hs.0 hb better))
        | inr worse ↦
            ap (λ (p : Option Contact × Bool). p.1) (collect_step x results best false false worse)
            ∙ collect_loop-AsNear results best hs.1 hb near.1
      ]
    where
      not_both :
          (best : Option Contact) (x : Contact)
          → AsNear target best (some x)
          → Nearer target (some x) best
          → ⊥
      not_both none x p q = p
      not_both (some b) x p q = omega arith

-- The search is stopped, or is about to be.
Ending : Finder → Type 0
Ending cf = (cf.stopped || cf.not_getting_closer) ≡ true

is_search_finished-Ending : (cf : Finder) → Ending cf → is_search_finished cf ≡ true
unfolding is_search_finished Ending
is_search_finished-Ending cf e = ground (arith, e)

cycle_end-Ending :
    (cf : Finder) (best : Option Contact) (results : List (Option Contact)) (big : Bool)
    → Ending cf
    → cycle_end cf best results big ≡ (record cf { stopped = true }, none)
unfolding cycle_end
cycle_end-Ending cf best results big e = rw (is_search_finished-Ending cf e) refl

big_cycle_end :
    (cf : Finder) (best : Option Contact) (results : List (Option Contact))
    → (collect_loop cf.target results best false).1 ≡ false
    → ((cycle_end cf best results true).1 ≡ none) × Ending (cycle_end cf best results true).0
unfolding cycle_end Ending
big_cycle_end cf best results none_closer = elim (Bool-cases (is_search_finished cf)) [
  | inl finished ↦ rw finished (refl, refl)
  | inr more ↦ rw more (rw none_closer (refl, ground arith))
]

step-Ending : {s s' : Search} → FinderStep s s' → Ending s.cf → Ending s'.cf
unfolding Ending append_new_to_shortlist insert_into_active_list pop_from_shortlist
step-Ending {s} (pop c cf popped e) h =
    let (_, _, same) = pop_cases s.cf cf c s.cf.shortlist popped in rw e (rw same h)
step-Ending (lost c before after w e) h = rw e h
step-Ending (answered c before after w e) h = rw e h
step-Ending (extend contacts good e) h = rw e h
step-Ending (value c before after contacts w e) h = rw e refl
step-Ending {s} (cycle best results big e) h =
    rw e (rw (cycle_end-Ending s.cf best results big h) refl)

found-Ending : {s s' : Search} → Found s s' → Ending s.cf → Ending s'.cf
found-Ending here h = h
found-Ending (next run step) h = step-Ending step (found-Ending run h)

-- A big cycle, of identifiers of the right length, whose probes return nothing nearer to the target
-- than the best contact it began with starts no cycle; and after any steps of the search that follow,
-- whatever cycle ends then starts none either, and leaves the search stopped.
pub cycle_end-cycle_end :
    (s s' : Search) (best best' : Option Contact) (results results' : List (Option Contact))
    (big : Bool)
    → IsBitmap s.cf.target
    → GoodId best
    → All GoodId results
    → All (AsNear s.cf.target best) results
    → Found (record s { cf = (cycle_end s.cf best results true).0 }) s'
    → ((cycle_end s.cf best results true).1 ≡ none)
      × ((cycle_end s'.cf best' results' big).1 ≡ none)
      × ((cycle_end s'.cf best' results' big).0.stopped ≡ true)
cycle_end-cycle_end s s' best best' results results' big h hb hs near run =
    let (no_cycle, ending) =
      big_cycle_end s.cf best results (collect_loop-AsNear s.cf.target h results best hs hb near) in
    let last = cycle_end-Ending s'.cf best' results' big (found-Ending run ending) in
    (
      no_cycle,
      ap (λ (p : Finder × Option Bool). p.1) last,
      ap (λ (p : Finder × Option Bool). p.0.stopped) last,
    )
