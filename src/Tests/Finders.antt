-- ===== src/Tests/Finders.antt =====
-- dht/node_finder.go: the theorems on a search in a table of two contacts.
use lbry_go.Prelude.{ℕ, ◌+◌, ◌≤◌, ◌≡◌, refl, ap, true, false, [], ◌∷◌, none, some, ok, arith}
use lbry_go.Prelude.Int.{pos}
use lbry_go.Bitmap.{IsBitmap, closer, xor, cmp}
use lbry_go.Bitmap.Value.{b2n, value}
use lbry_go.Contact.{sort_by_distance, insert, nearer}
use lbry_go.Contact.Sorting.{HasId, away}
use lbry_go.Bucket.{contacts}
use lbry_go.Table.{get_closest, all_contacts}
use lbry_go.OrderedMap.{key_eq}
use lbry_go.OrderedMap.Places.{elem}
use lbry_go.Messages.{Response}
use lbry_go.Finder.{
  Finder, new_finder, find_start, find_end, collect_loop, cycle_end, probe_end, is_search_finished,
  is_closer, append_new_to_shortlist, append_loop, pop_from_shortlist, pop_from,
}
use lbry_go.Finder.Lists.{occurs}
use lbry_go.Finder.Trace.{Search, Found, here, next, pop}
use lbry_go.Finder.Invariant.{IsSearch, start_IsSearch}
use lbry_go.Finder.Steps.{Found-IsSearch}
use lbry_go.Finder.Cycles.{IsBest, collect_loop_lem, cycle_end-cycle_end}
use lbry_go.Finder.Probes.{IsAfter, find_start-Found, probe_end-Found}
use lbry_go.Finder.Results.{IsResult, Found-occurs, find_end-find_start}
use lbry_go.Tests.{small, small_lem, contact, self, table, table-IsTable}

small7 : IsBitmap (small 7)
small7 = (small_lem 7 (omega arith)).0

contact-HasId : (k : ℕ) → k ≤ 255 → HasId (contact k)
contact-HasId k h = (small_lem k (omega arith)).0

-- Six is nearer to seven than two is.
abbrev begun : Finder
begun = record {
  find_value = false;
  target = small 7;
  node_id = self;
  find_value_result = [];
  active = [];
  shortlist = contact 6 ∷ contact 2 ∷ [];
  added = small 2 ∷ small 6 ∷ [];
  closest_contact = none;
  not_getting_closer = false;
  stopped = false;
}

begun_lem : find_start table self (small 7) false ≡ ok begun
unfolding find_start get_closest sort_by_distance insert nearer all_contacts contacts xor cmp
    append_new_to_shortlist append_loop new_finder elem key_eq
begun_lem = refl

abbrev first_search : Search
first_search = record { cf = begun; waiting = []; gone = [] }

abbrev asking : Search
asking = record {
  cf = record begun { shortlist = contact 2 ∷ [] };
  waiting = contact 6 ∷ [];
  gone = [];
}

one_step : Found first_search asking
unfolding pop_from_shortlist pop_from
one_step = next here (pop (contact 6) asking.cf refl refl)

start-IsSearch : IsSearch first_search
start-IsSearch =
    Found-IsSearch (find_start-Found table self (small 7) false begun table-IsTable begun_lem)
      (start_IsSearch self (small 7) false small7)

Found-occurs_example :
    occurs (small 6) asking.gone
      + occurs (small 6) asking.waiting
      + occurs (small 6) asking.cf.active
      + occurs (small 6) asking.cf.shortlist
    ≤ b2n (elem (small 6) asking.cf.added)
Found-occurs_example = Found-occurs first_search asking (small 6) start-IsSearch one_step

no_value : (find_end asking.cf).1 ≡ false
unfolding find_end
no_value = refl

find_end-find_start_example : IsResult (small 7) (find_end asking.cf).0
find_end-find_start_example =
    find_end-find_start table self (small 7) false begun asking table-IsTable small7 begun_lem
      one_step no_value

collect_loop_lem_example :
    IsBest
      (small 7)
      small7
      (none ∷ some (contact 6) ∷ [])
      (some (contact 2))
      false
      (collect_loop (small 7) (none ∷ some (contact 6) ∷ []) (some (contact 2)) false).0
      (collect_loop (small 7) (none ∷ some (contact 6) ∷ []) (some (contact 2)) false).1
collect_loop_lem_example =
    collect_loop_lem (small 7) small7 (none ∷ some (contact 6) ∷ []) (some (contact 2)) false
      (tt, (contact-HasId 6 (omega arith), tt)) (contact-HasId 2 (omega arith))

-- After a big cycle whose best contact was six and whose probes gave two, six is popped.
abbrev stalled : Finder
stalled = record begun { not_getting_closer = true }

stalled_lem : (cycle_end begun (some (contact 6)) (none ∷ some (contact 2) ∷ []) true).0 ≡ stalled
unfolding cycle_end is_search_finished collect_loop is_closer closer xor cmp
stalled_lem = refl

abbrev late : Search
late = record asking { cf = record stalled { shortlist = contact 2 ∷ [] } }

abbrev after_big : Search
after_big = record first_search {
  cf = (cycle_end begun (some (contact 6)) (none ∷ some (contact 2) ∷ []) true).0;
}

popped : Found after_big late
unfolding pop_from_shortlist pop_from
popped =
    next here
      (pop (contact 6) late.cf (ap (λ (cf : Finder). pop_from cf cf.shortlist) stalled_lem) refl)

six_nearer : away (small 7) (contact 6) ≤ away (small 7) (contact 2)
unfolding value xor
six_nearer = omega arith

cycle_end-cycle_end_example :
    ((cycle_end begun (some (contact 6)) (none ∷ some (contact 2) ∷ []) true).1 ≡ none)
    × ((cycle_end late.cf none [] false).1 ≡ none)
    × ((cycle_end late.cf none [] false).0.stopped ≡ true)
cycle_end-cycle_end_example =
    cycle_end-cycle_end first_search late (some (contact 6)) none (none ∷ some (contact 2) ∷ []) []
      false small7 (contact-HasId 6 (omega arith)) (tt, (contact-HasId 2 (omega arith), tt))
      (tt, (six_nearer, tt)) popped

abbrev reply : Response
reply = record {
  id = 1 ∷ [];
  node_id = small 6;
  data_text = [];
  contacts = contact 5 ∷ contact 2 ∷ [];
  find_value_key = [];
  token = [];
  protocol_version = pos 1;
}

probe_end-Found_example :
    IsAfter asking (contact 6) (some reply) [] (probe_end asking.cf (contact 6) (some reply))
probe_end-Found_example =
    probe_end-Found asking (Found-IsSearch one_step start-IsSearch) (contact 6)
      (contact-HasId 6 (omega arith)) [] [] (some reply) refl
      (contact-HasId 5 (omega arith), (contact-HasId 2 (omega arith), tt))
