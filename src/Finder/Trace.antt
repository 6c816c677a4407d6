-- ===== src/Finder/Trace.antt =====
-- dht/node_finder.go: the search as a state machine, and what it has found when it ends.
use lbry_go.Prelude.{◌≡◌, Bool, true, List, ◌∷◌, ◌++◌, All, Option, some}
use lbry_go.Contact.{Contact}
use lbry_go.Contact.Sorting.{HasId}
use lbry_go.Finder.{
  Finder, append_new_to_shortlist, insert_into_active_list, pop_from_shortlist, cycle_end,
}

-- The search, with the contacts whose probes wait for a response, and those whose probes ended with
-- none or with a value.
pub record Search : Type 0 where
  pub cf : Finder
  pub waiting : List Contact
  pub gone : List Contact

-- The steps of the probes and cycles. Any probe may take its next step at any time. `extend` stands
-- for the contacts of a response, of which a probe adds those that are new.
pub data FinderStep (s s' : Search) : Type 0 where
  pop :
      (c : Contact) (cf : Finder)
      → pop_from_shortlist s.cf ≡ some (c, cf)
      → s' ≡ record { cf = cf; waiting = c ∷ s.waiting; gone = s.gone }
      → FinderStep s s'
  lost :
      (c : Contact) (before after : List Contact)
      → s.waiting ≡ before ++ c ∷ after
      → s' ≡ record { cf = s.cf; waiting = before ++ after; gone = c ∷ s.gone }
      → FinderStep s s'
  answered :
      (c : Contact) (before after : List Contact)
      → s.waiting ≡ before ++ c ∷ after
      → s'
        ≡ record { cf = insert_into_active_list s.cf c; waiting = before ++ after; gone = s.gone }
      → FinderStep s s'
  extend :
      (contacts : List Contact)
      → All HasId contacts
      → s'
        ≡ record { cf = append_new_to_shortlist s.cf contacts; waiting = s.waiting; gone = s.gone }
      → FinderStep s s'
  value :
      (c : Contact) (before after contacts : List Contact)
      → s.waiting ≡ before ++ c ∷ after
      → s' ≡ record {
        cf = record s.cf { find_value_result = contacts; stopped = true };
        waiting = before ++ after;
        gone = c ∷ s.gone;
      }
      → FinderStep s s'
  cycle :
      (best : Option Contact) (results : List (Option Contact)) (big_cycle : Bool)
      → s' ≡ record {
        cf = (cycle_end s.cf best results big_cycle).0;
        waiting = s.waiting;
        gone = s.gone;
      }
      → FinderStep s s'

pub data Found (s : Search) : Search → Type 0 where
  here : Found s s
  next : {t u : Search} → Found s t → FinderStep t u → Found s u
