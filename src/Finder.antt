-- ===== src/Finder.antt =====
-- dht/node_finder.go: the iterative search for the nodes that are nearest to a target, or for a value.
-- The probes run at the same time. Each list has its own mutex, which every function on it holds
-- throughout, so each such function is one step, and a probe is its steps: pop, send, then what it does
-- with the response. Logging, the ids of cycles and the goroutines themselves are left out: the node has
-- logged each response before a probe does.
pub mod Lists
pub mod Trace
pub mod Invariant
pub mod Steps
pub mod Results
pub mod Cycles
pub mod Probes
use lbry_go.Prelude.{
  ℕ, zero, suc, ◌≡◌, Bool, true, false, not, ◌&&◌, ◌||◌, List, [], ◌∷◌, ◌++◌, length, take, Option,
  none, some, ltb, leb, if◌then◌else◌, Run, ok, err, panic, ◌>>=◌,
}
use lbry_go.Bitmap.{Bitmap, equals, closer}
use lbry_go.Contact.{Contact, sort_by_distance}
use lbry_go.Bucket.{bucket_size}
use lbry_go.Table.{RoutingTable, get_closest}
use lbry_go.OrderedMap.Places.{elem}
use lbry_go.Messages.{Response}

-- dht/config.go.
abbrev pub alpha : ℕ
alpha = 3

-- `added` has the keys of shortlistAdded, and `stopped` is whether the stop group is stopped.
pub record Finder : Type 0 where
  pub find_value : Bool
  pub target : Bitmap
  pub node_id : Bitmap
  pub find_value_result : List Contact
  pub active : List Contact
  pub shortlist : List Contact
  pub added : List Bitmap
  pub closest_contact : Option Contact
  pub not_getting_closer : Bool
  pub stopped : Bool

unfoldable pub new_finder : Bitmap → Bitmap → Bool → Finder
new_finder node_id target find_value = record {
  find_value = find_value;
  target = target;
  node_id = node_id;
  find_value_result = [];
  active = [];
  shortlist = [];
  added = [];
  closest_contact = none;
  not_getting_closer = false;
  stopped = false;
}

-- The loop of appendNewToShortlist, on the shortlist and the keys of shortlistAdded.
unfoldable pub append_loop : List Contact → List Contact → List Bitmap → List Contact × List Bitmap
append_loop [] shortlist added = (shortlist, added)
append_loop (c ∷ contacts) shortlist added =
    let known = append_loop contacts shortlist added in
    let new = append_loop contacts (shortlist ++ c ∷ []) (c.id ∷ added) in
    if elem c.id added then known else new

unfoldable pub append_new_to_shortlist : Finder → List Contact → Finder
append_new_to_shortlist cf contacts =
    let (shortlist, added) = append_loop contacts cf.shortlist cf.added in
    record cf { shortlist = sort_by_distance shortlist cf.target; added = added }

unfoldable pub pop_from : Finder → List Contact → Option (Contact × Finder)
pop_from cf [] = none
pop_from cf (first ∷ shortlist) = some (first, record cf { shortlist = shortlist })

unfoldable pub pop_from_shortlist : Finder → Option (Contact × Finder)
pop_from_shortlist cf = pop_from cf cf.shortlist

-- The loop of insertIntoActiveList: the contact goes before the first one that is farther away.
unfoldable pub insert_loop : Bitmap → Contact → List Contact → List Contact
insert_loop target contact [] = contact ∷ []
insert_loop target contact (n ∷ active) =
    if closer target contact.id n.id
    then contact ∷ n ∷ active
    else n ∷ insert_loop target contact active

unfoldable pub insert_into_active_list : Finder → Contact → Finder
insert_into_active_list cf contact = record cf { active = insert_loop cf.target contact cf.active }

unfoldable pub closest_loop : Bitmap → Contact → List Contact → Contact
closest_loop target closest [] = closest
closest_loop target closest (c ∷ contacts) =
    closest_loop target (if closer target c.id closest.id then c else closest) contacts

unfoldable pub closest : Finder → List Contact → Option Contact
closest cf [] = none
closest cf (c ∷ contacts) = some (closest_loop cf.target c (c ∷ contacts))

-- What a probe does with a response: a value ends the search, and any other response adds to the lists.
unfoldable pub receive : Finder → Contact → Response → Finder × Option Contact
receive cf c res =
    if cf.find_value && ltb 0 (length res.find_value_key)
    then (record cf { find_value_result = res.contacts; stopped = true }, none)
    else (
      append_new_to_shortlist (insert_into_active_list cf c) res.contacts,
      closest cf res.contacts,
    )

-- The rest of a probe of `c`, with `none` for no response, or for a search that is stopped.
unfoldable pub probe_end : Finder → Contact → Option Response → Finder × Option Contact
probe_end cf c none = (cf, none)
probe_end cf c (some res) = receive cf c res

unfoldable pub is_search_finished : Finder → Bool
is_search_finished cf =
    (cf.find_value && ltb 0 (length cf.find_value_result))
    || cf.stopped
    || cf.not_getting_closer
    || leb bucket_size (length cf.active)

-- The loop of cycle over the results of its probes: the best contact so far, and whether it improved.
unfoldable pub is_closer : Bitmap → Contact → Option Contact → Bool
is_closer target c none = true
is_closer target c (some best) = closer target c.id best.id

unfoldable pub collect_loop :
    Bitmap → List (Option Contact) → Option Contact → Bool → Option Contact × Bool
collect_loop target [] best found_closer = (best, found_closer)
collect_loop target (none ∷ results) best found_closer =
    collect_loop target results best found_closer
collect_loop target (some c ∷ results) best found_closer =
    let improved = collect_loop target results (some c) true in
    let same = collect_loop target results best found_closer in
    if is_closer target c best then improved else same

-- `cf.closestContact = closestContact`, unless another cycle found a closer one.
unfoldable pub improve : Finder → Option Contact → Finder
improve cf none = cf
improve cf (some c) =
    if is_closer cf.target c cf.closest_contact then record cf { closest_contact = some c } else cf

-- cycle from the results of its probes on, which began with the best contact `best`. The second part
-- is the next cycle, and whether it is a big one.
unfoldable pub cycle_end :
    Finder → Option Contact → List (Option Contact) → Bool → Finder × Option Bool
cycle_end cf best results big_cycle =
    let (best', found_closer) = collect_loop cf.target results best false in
    if is_search_finished cf
    then (record cf { stopped = true }, none)
    else if found_closer
    then (improve cf best', some false)
    else if not big_cycle
    then (cf, some true)
    else (record cf { not_getting_closer = true }, none)

-- How many probes a cycle sends.
unfoldable pub probes : Bool → ℕ
probes big_cycle = if big_cycle then bucket_size else alpha

-- Find up to its first cycle.
unfoldable pub find_start : RoutingTable → Bitmap → Bitmap → Bool → Run Finder
find_start rt node_id target find_value =
    let cf =
      append_new_to_shortlist (new_finder node_id target find_value)
        (get_closest rt target alpha) in
    if leb (length cf.shortlist) 0 then err "[%s] find %s: no contacts in routing table" else ok cf

-- The results of Find, once the search is stopped.
unfoldable pub find_end : Finder → List Contact × Bool
find_end cf =
    if cf.find_value && ltb 0 (length cf.find_value_result) then (cf.find_value_result, true) else (
      if ltb bucket_size (length cf.active) then take bucket_size cf.active else cf.active,
      false,
    )
