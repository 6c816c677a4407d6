-- ===== src/Finder/Steps.antt =====
-- dht/node_finder.go: every step of the search keeps its invariant and its target.
use lbry_go.Prelude.{
  ◌≡◌, refl, ap, sym, ◌∙◌, Bool, true, false, List, ◌∷◌, Option, none, some, Bool-cases, inl, inr,
  arith,
}
use mathlib.Core.Path.{subst}
use lbry_go.Contact.{Contact}
use lbry_go.Finder.{
  Finder, append_new_to_shortlist, insert_into_active_list, pop_from, pop_from_shortlist, cycle_end,
  improve, collect_loop, is_search_finished, is_closer,
}
use lbry_go.Finder.Trace.{
  Search, FinderStep, Found, pop, lost, answered, extend, value, cycle, here, next,
}
use lbry_go.Finder.Invariant.{
  IsSearch, pop_cases, pop_lem, lost_lem, value_lem, answered_lem, extend_lem,
}

-- The end of a cycle leaves the lists alone.
improve_lem :
    (cf : Finder) (best : Option Contact) (waiting gone : List Contact)
    → IsSearch (record { cf = cf; waiting = waiting; gone = gone })
    → IsSearch (record { cf = improve cf best; waiting = waiting; gone = gone })
unfolding improve
improve_lem cf none waiting gone h = h
improve_lem cf (some c) waiting gone h =
    elim (Bool-cases (is_closer cf.target c cf.closest_contact)) [
      | inl better ↦ rw better (same_lists h)
      | inr worse ↦ rw worse h
    ]
  where
    same_lists :
        IsSearch (record { cf = cf; waiting = waiting; gone = gone })
        → IsSearch
            (record { cf = record cf { closest_contact = some c }; waiting = waiting; gone = gone })
    same_lists g = record {
      once = g.once;
      target_good = g.target_good;
      shortlist_good = g.shortlist_good;
      waiting_good = g.waiting_good;
      active_good = g.active_good;
      sorted = g.sorted;
    }

with_flags :
    (s : Search) (stopped not_getting_closer : Bool)
    → IsSearch s
    → IsSearch (record {
      cf = record s.cf { stopped = stopped; not_getting_closer = not_getting_closer };
      waiting = s.waiting;
      gone = s.gone;
    })
with_flags s stopped not_getting_closer h = record {
  once = h.once;
  target_good = h.target_good;
  shortlist_good = h.shortlist_good;
  waiting_good = h.waiting_good;
  active_good = h.active_good;
  sorted = h.sorted;
}

cycle_lem :
    (s : Search) (best : Option Contact) (results : List (Option Contact)) (big_cycle : Bool)
    → IsSearch s
    → IsSearch (record {
      cf = (cycle_end s.cf best results big_cycle).0;
      waiting = s.waiting;
      gone = s.gone;
    })
unfolding cycle_end
cycle_lem s best results big_cycle h =
    let (best', found_closer) = collect_loop s.cf.target results best false in
    elim (Bool-cases (is_search_finished s.cf)) [
      | inl finished ↦ rw finished (with_flags s true s.cf.not_getting_closer h)
      | inr more ↦ rw more (elim (Bool-cases found_closer) [
        | inl closer ↦ rw closer (improve_lem s.cf best' s.waiting s.gone h)
        | inr none_closer ↦ rw none_closer (elim (Bool-cases big_cycle) [
          | inl big ↦ rw big (with_flags s s.cf.stopped true h)
          | inr small ↦ rw small h
        ])
      ])
    ]

FinderStep-IsSearch : {s s' : Search} → FinderStep s s' → IsSearch s → IsSearch s'
FinderStep-IsSearch {s} (pop c cf e same) h =
    let (rest, l, f) = pop_cases s.cf cf c s.cf.shortlist (popped s cf c e) in
    subst IsSearch
      (sym (same ∙ ap (λ x. record { cf = x; waiting = c ∷ s.waiting; gone = s.gone }) f))
      (pop_lem s h c rest l)
  where
    popped :
        (s : Search) (cf : Finder) (c : Contact)
        → pop_from_shortlist s.cf ≡ some (c, cf)
        → pop_from s.cf s.cf.shortlist ≡ some (c, cf)
    popped s cf c e = unfold pop_from_shortlist in e
FinderStep-IsSearch {s} (lost c before after e same) h =
    subst IsSearch (sym same) (lost_lem s h c before after e)
FinderStep-IsSearch {s} (answered c before after e same) h =
    subst IsSearch (sym same) (answered_lem s h c before after e)
FinderStep-IsSearch {s} (extend contacts good same) h =
    subst IsSearch (sym same) (extend_lem s h contacts good)
FinderStep-IsSearch {s} (value c before after contacts e same) h =
    subst IsSearch (sym same) (value_lem s h c before after e contacts)
FinderStep-IsSearch {s} (cycle best results big_cycle same) h =
    subst IsSearch (sym same) (cycle_lem s best results big_cycle h)

improve-target : (cf : Finder) (best : Option Contact) → (improve cf best).target ≡ cf.target
unfolding improve
improve-target cf none = refl
improve-target cf (some c) = ground arith

FinderStep-target : {s s' : Search} → FinderStep s s' → s'.cf.target ≡ s.cf.target
unfolding pop_from_shortlist insert_into_active_list append_new_to_shortlist cycle_end
FinderStep-target {s} (pop c cf e same) =
    let (rest, l, f) = pop_cases s.cf cf c s.cf.shortlist e in
    ap (λ (x : Search). x.cf.target) same ∙ ap (λ (x : Finder). x.target) f
FinderStep-target (lost c before after e same) = ap (λ (x : Search). x.cf.target) same
FinderStep-target (answered c before after e same) = ap (λ (x : Search). x.cf.target) same
FinderStep-target (extend contacts good same) = ap (λ (x : Search). x.cf.target) same
FinderStep-target (value c before after contacts e same) = ap (λ (x : Search). x.cf.target) same
FinderStep-target {s} (cycle best results big_cycle same) =
    ap (λ (x : Search). x.cf.target) same
    ∙ ground (arith, improve-target s.cf (collect_loop s.cf.target results best false).0)

pub Found-target : {s s' : Search} → Found s s' → s'.cf.target ≡ s.cf.target
Found-target here = refl
Found-target (next r st) = FinderStep-target st ∙ Found-target r

pub Found-IsSearch : {s s' : Search} → Found s s' → IsSearch s → IsSearch s'
Found-IsSearch here h = h
Found-IsSearch (next r st) h = FinderStep-IsSearch st (Found-IsSearch r h)
