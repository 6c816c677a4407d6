-- ===== src/Finder/Probes.antt =====
-- dht/node_finder.go: the beginning of a search and the end of a probe are sequences of its steps, and
-- what a probe changes.
use Prim.Native.String.{String}
use lbry_go.Prelude.{
  ◌≡◌, ◌+◌, ◌∙◌, ◌≤◌, ◌<◌, ◌⊎◌, ◌||◌, arith, refl, ap, Bool, true, false, ◌&&◌, List, [], ◌∷◌, ◌++◌,
  length, All, Option, none, some, ltb, Bool-cases, inl, inr, ok, err, if◌then◌else◌,
}
use lbry_go.Bitmap.{Bitmap}
use lbry_go.Bitmap.Value.{b2n}
use lbry_go.Contact.{Contact}
use lbry_go.Contact.Sorting.{away, HasId, Ascending, sort_by_distance-Ascending}
use lbry_go.OrderedMap.{key_eq}
use lbry_go.OrderedMap.Places.{elem}
use lbry_go.Table.{RoutingTable, IsTable, get_closest}
use lbry_go.Table.Closest.{get_closest-HasId}
use lbry_go.Messages.{Response}
use lbry_go.Finder.{
  Finder, probe_end, receive, find_start, new_finder, alpha, append_new_to_shortlist,
  insert_into_active_list, append_loop, closest,
}
use lbry_go.Finder.Lists.{
  occurs, occurs-head, occurs-insert_loop, occurs-sort_by_distance, insert_loop-Ascending,
  append_loop-occurs, append_loop-All, closest_loop_lem, closest_loop-occurs,
}
use lbry_go.Finder.Invariant.{IsSearch}
use lbry_go.Finder.Trace.{Search, Found, here, next, lost, answered, extend, value}

-- The contacts of a response have identifiers of the right length.
abbrev pub GoodReply : Option Response → Type 0
GoodReply none = Unit
GoodReply (some res) = All HasId res.contacts

-- The search once the contact has answered: it is one of the active contacts, which stay in order, and
-- every contact of the response whose key was not added yet is in the shortlist, which is in order,
-- once.
pub record Extended (cf : Finder) (c : Contact) (contacts : List Contact) (cf' : Finder)
    : Type 0 where
  pub active_lem : (k : Bitmap) → occurs k cf'.active ≡ b2n (key_eq k c.id) + occurs k cf.active
  pub active_sorted : Ascending cf.target cf'.active
  pub keys : (k : Bitmap) → elem k cf'.added ≡ (elem k cf.added || ltb 0 (occurs k contacts))
  pub shortlist_lem :
      (k : Bitmap)
      → occurs k cf'.shortlist
        ≡ occurs k cf.shortlist + (if elem k cf.added then 0 else b2n (ltb 0 (occurs k contacts)))
  pub shortlist_sorted : Ascending cf.target cf'.shortlist
  pub others : cf' ≡ record cf { active = cf'.active; shortlist = cf'.shortlist; added = cf'.added }

-- A contact of the response that no other is nearer to the target than, or none if it has none.
abbrev pub IsNearest : Bitmap → List Contact → Option Contact → Type 0
IsNearest target contacts none = contacts ≡ []
IsNearest target contacts (some r) =
    (0 < occurs r.id contacts) × All (λ d. away target r ≤ away target d) contacts

-- What the probe of the contact does to the finder, with what it gives to its cycle: nothing without a
-- response; a value, which only a search for a value takes, stops the search; other responses extend it.
abbrev pub Effect :
    Search → Contact → Option Response → Finder → List Contact → Option Contact → Type 0
Effect s c none cf gone r = (cf ≡ s.cf) × (gone ≡ c ∷ s.gone) × (r ≡ none)
Effect s c (some res) cf gone r =
    ((s.cf.find_value ≡ true)
      × (0 < length res.find_value_key)
      × (cf ≡ record s.cf { find_value_result = res.contacts; stopped = true })
      × (gone ≡ c ∷ s.gone)
      × (r ≡ none))
    ⊎ (((s.cf.find_value ≡ true) → (length res.find_value_key ≡ 0))
        × Extended s.cf c res.contacts cf
        × (gone ≡ s.gone)
        × IsNearest s.cf.target res.contacts r)

-- The search after the probe of `c`: one that its steps reach, in which the probe waits no more.
abbrev pub IsAfter :
    Search → Contact → Option Response → List Contact → Finder × Option Contact → Type 0
IsAfter s c res waiting (cf, r) =
    (gone : List Contact) × Found s (record { cf = cf; waiting = waiting; gone = gone })
    × Effect s c res cf gone r

module _ (s : Search) (h : IsSearch s) (c : Contact) (hc : HasId c) where
  receive-Extended :
      (contacts : List Contact)
      → All HasId contacts
      → Extended s.cf c contacts (append_new_to_shortlist (insert_into_active_list s.cf c) contacts)
  unfolding append_new_to_shortlist insert_into_active_list
  receive-Extended contacts good =
      let out = append_loop contacts s.cf.shortlist s.cf.added in
      record {
        active_lem = λ k. occurs-insert_loop k s.cf.target c s.cf.active;
        active_sorted =
            insert_loop-Ascending s.cf.target h.target_good c s.cf.active hc h.active_good h.sorted;
        keys = λ k. (append_loop-occurs k contacts s.cf.shortlist s.cf.added).0;
        shortlist_lem = λ k.
            occurs-sort_by_distance k s.cf.target out.0
            ∙ (append_loop-occurs k contacts s.cf.shortlist s.cf.added).1;
        shortlist_sorted =
            sort_by_distance-Ascending out.0 s.cf.target h.target_good
              (append_loop-All HasId contacts s.cf.shortlist s.cf.added good h.shortlist_good);
        others = refl;
      }

  closest-IsNearest :
      (contacts : List Contact)
      → All HasId contacts
      → IsNearest s.cf.target contacts (closest s.cf contacts)
  unfolding closest
  closest-IsNearest [] good = refl
  closest-IsNearest (d ∷ contacts) good = (
    closest_loop-occurs s.cf.target d (d ∷ contacts) (d ∷ contacts) (occurs-head d contacts)
        (λ k n. n),
    (closest_loop_lem s.cf.target h.target_good d (d ∷ contacts) good.0 good).2,
  )

  receive-Effect :
      (res : Response) (before after : List Contact)
      → s.waiting ≡ before ++ c ∷ after
      → All HasId res.contacts
      → IsAfter s c (some res) (before ++ after) (receive s.cf c res)
  unfolding receive
  receive-Effect res before after e good =
      elim (Bool-cases (s.cf.find_value && ltb 0 (length res.find_value_key))) [
        | inl got ↦ rw got (
          c ∷ s.gone,
          next here (value c before after res.contacts e refl),
          inl (ground (arith, got), ground (arith, got), refl, refl, refl),
        )
        | inr others ↦ rw others (
          s.gone,
          next (next here (answered c before after e refl)) (extend res.contacts good refl),
          inr (
            λ e. ground (arith, others, e),
            receive-Extended res.contacts good,
            refl,
            closest-IsNearest res.contacts good,
          ),
        )
      ]

  -- The end of a probe of a waiting contact, in a search that keeps its invariant and with contacts of
  -- the right identifier length, which are told apart by their identifiers: it is steps of the search
  -- after which the probe waits no more. Without a response the finder stays as it is; a response with
  -- a value, in a search for one, becomes the result, which stops the search; any other makes the
  -- contact active and adds exactly the contacts whose keys are new to the shortlist, each once and both
  -- lists in order, and gives the cycle the nearest contact of the response, if it has one.
  pub probe_end-Found :
      (before after : List Contact) (res : Option Response)
      → s.waiting ≡ before ++ c ∷ after
      → GoodReply res
      → IsAfter s c res (before ++ after) (probe_end s.cf c res)
  unfolding probe_end
  probe_end-Found before after none e good =
      (c ∷ s.gone, next here (lost c before after e refl), (refl, refl, refl))
  probe_end-Found before after (some res) e good = receive-Effect res before after e good

checked :
    (b : Bool) (x : Finder) (m : String) {cf : Finder}
    → (if b then err m else ok x) ≡ ok cf
    → cf ≡ x
checked true x m e = absurd (cc)
checked false x m e = cc

-- Find begins, unless the routing table gives no contact, with the contacts nearest to the target that
-- the table has, added to an empty search.
pub find_start-Found :
    (rt : RoutingTable) (node_id target : Bitmap) (find_value : Bool) (cf : Finder)
    → IsTable rt
    → find_start rt node_id target find_value ≡ ok cf
    → Found
        (record { cf = new_finder node_id target find_value; waiting = []; gone = [] })
        (record { cf = cf; waiting = []; gone = [] })
unfolding find_start
find_start-Found rt node_id target find_value cf h e = next here (
    extend (get_closest rt target alpha) (get_closest-HasId rt target alpha h)
      (ap (λ (x : Finder). record { cf = x; waiting = []; gone = [] }) (checked _ _ _ e)))
