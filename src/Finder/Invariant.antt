-- ===== src/Finder/Invariant.antt =====
-- dht/node_finder.go: what every step of the search keeps.
use lbry_go.Prelude.{
  ◌+◌, ◌≤◌, ◌≡◌, ap, Bool, true, List, [], ◌∷◌, ◌++◌, All, All-split, All-append, some, arith,
}
use mathlib.Core.Path.{subst}
use lbry_go.Bitmap.{Bitmap, IsBitmap}
use lbry_go.Bitmap.Value.{b2n}
use lbry_go.Contact.{Contact}
use lbry_go.Contact.Sorting.{HasId, Ascending, sort_by_distance-All}
use lbry_go.OrderedMap.Places.{elem}
use lbry_go.Finder.{
  Finder, append_new_to_shortlist, insert_into_active_list, pop_from, new_finder, append_loop,
}
use lbry_go.Finder.Lists.{
  occurs, occurs-append, occurs-sort_by_distance, occurs-insert_loop, append_loop_lem,
  append_loop-All, insert_loop-All, insert_loop-Ascending,
}
use lbry_go.Finder.Trace.{Search}

-- Every identifier is in one list at most, at most once, and only if its key was added. The active
-- contacts are in order.
pub record IsSearch (s : Search) : Type 0 where
  pub once :
      (k : Bitmap)
      → occurs k s.gone + occurs k s.waiting + occurs k s.cf.active + occurs k s.cf.shortlist
        ≤ b2n (elem k s.cf.added)
  pub target_good : IsBitmap s.cf.target
  pub shortlist_good : All HasId s.cf.shortlist
  pub waiting_good : All HasId s.waiting
  pub active_good : All HasId s.cf.active
  pub sorted : Ascending s.cf.target s.cf.active

pub start_IsSearch :
    (node_id target : Bitmap) (find_value : Bool)
    → IsBitmap target
    → IsSearch (record { cf = new_finder node_id target find_value; waiting = []; gone = [] })
unfolding new_finder occurs
start_IsSearch node_id target find_value h = record {
  once = λ k. omega arith;
  target_good = h;
  shortlist_good = tt;
  waiting_good = tt;
  active_good = tt;
  sorted = tt;
}

pub pop_cases :
    (cf cf' : Finder) (c : Contact) (l : List Contact)
    → pop_from cf l ≡ some (c, cf')
    → (rest : List Contact) × (l ≡ c ∷ rest) × (cf' ≡ record cf { shortlist = rest })
unfolding pop_from
pop_cases cf cf' c [] e = absurd (cc)
pop_cases cf cf' c (d ∷ l) e = (l, cc, cc)

remove_lem :
    (k : Bitmap) (c : Contact) (before after : List Contact)
    → occurs k (before ++ c ∷ after) ≡ occurs k (c ∷ []) + occurs k (before ++ after)
unfolding occurs
remove_lem k c before after =
    omega (arith, occurs-append k before (c ∷ after), occurs-append k before after)

module _ (s : Search) (h : IsSearch s) where
  pub pop_lem :
      (c : Contact) (rest : List Contact)
      → s.cf.shortlist ≡ c ∷ rest
      → IsSearch
          (record { cf = record s.cf { shortlist = rest }; waiting = c ∷ s.waiting; gone = s.gone })
  unfolding occurs
  pop_lem c rest e =
      let good : All HasId (c ∷ rest) = subst (All HasId) e h.shortlist_good in
      record {
        once = λ k. omega (arith, h.once k, ap (occurs k) e);
        target_good = h.target_good;
        shortlist_good = good.1;
        waiting_good = (good.0, h.waiting_good);
        active_good = h.active_good;
        sorted = h.sorted;
      }

  module _ (c : Contact) (before after : List Contact) (e : s.waiting ≡ before ++ c ∷ after) where
    waits : All HasId (before ++ after) × HasId c
    waits =
        let (b, a) = All-split HasId before (c ∷ after) (subst (All HasId) e h.waiting_good) in
        (All-append HasId before after b a.1, a.0)

    pub lost_lem : IsSearch (record { cf = s.cf; waiting = before ++ after; gone = c ∷ s.gone })
    unfolding occurs
    lost_lem = record {
      once = λ k. omega (arith, h.once k, ap (occurs k) e, remove_lem k c before after);
      target_good = h.target_good;
      shortlist_good = h.shortlist_good;
      waiting_good = waits.0;
      active_good = h.active_good;
      sorted = h.sorted;
    }

    pub value_lem :
        (contacts : List Contact)
        → IsSearch (record {
          cf = record s.cf { find_value_result = contacts; stopped = true };
          waiting = before ++ after;
          gone = c ∷ s.gone;
        })
    value_lem contacts = record {
      once = lost_lem.once;
      target_good = h.target_good;
      shortlist_good = h.shortlist_good;
      waiting_good = waits.0;
      active_good = h.active_good;
      sorted = h.sorted;
    }

    pub answered_lem :
        IsSearch
          (record { cf = insert_into_active_list s.cf c; waiting = before ++ after; gone = s.gone })
    unfolding insert_into_active_list occurs
    answered_lem = record {
      once = λ k. omega (
        arith,
        h.once k,
        ap (occurs k) e,
        remove_lem k c before after,
        occurs-insert_loop k s.cf.target c s.cf.active,
      );
      target_good = h.target_good;
      shortlist_good = h.shortlist_good;
      waiting_good = waits.0;
      active_good =
          insert_loop-All s.cf.target h.target_good HasId c s.cf.active waits.1 h.active_good;
      sorted =
          insert_loop-Ascending s.cf.target h.target_good c s.cf.active waits.1 h.active_good
            h.sorted;
    }

  pub extend_lem :
      (contacts : List Contact)
      → All HasId contacts
      → IsSearch (record {
        cf = append_new_to_shortlist s.cf contacts;
        waiting = s.waiting;
        gone = s.gone;
      })
  unfolding append_new_to_shortlist
  extend_lem contacts good =
      let new = append_loop contacts s.cf.shortlist s.cf.added in
      record {
        once = λ k. omega (
          arith,
          append_loop_lem k (occurs k s.gone + occurs k s.waiting + occurs k s.cf.active) contacts
              s.cf.shortlist s.cf.added (h.once k),
          occurs-sort_by_distance k s.cf.target new.0,
        );
        target_good = h.target_good;
        shortlist_good =
            sort_by_distance-All HasId new.0 s.cf.target
              (append_loop-All HasId contacts s.cf.shortlist s.cf.added good h.shortlist_good);
        waiting_good = h.waiting_good;
        active_good = h.active_good;
        sorted = h.sorted;
      }
