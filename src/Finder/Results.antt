-- ===== src/Finder/Results.antt =====
-- dht/node_finder.go: which contacts a search asks, and what it has found when it ends.
use lbry_go.Prelude.{
  ℕ, zero, suc, ◌+◌, ◌≤◌, ◌≡◌, refl, ◌∙◌, Bool, true, false, ◌&&◌, List, [], ◌∷◌, length, take,
  length-take, All, ltb, ok, Bool-cases, inl, inr, arith, ok,
}
use mathlib.Core.Path.{subst}
use lbry_go.Bitmap.{Bitmap, IsBitmap}
use lbry_go.Bitmap.Value.{b2n}
use lbry_go.Contact.{Contact}
use lbry_go.Contact.Sorting.{HasId, Ascending, away}
use lbry_go.Bucket.{bucket_size}
use lbry_go.OrderedMap.Places.{elem}
use lbry_go.Finder.{Finder, find_start, new_finder, find_end, Finder, find_end}
use lbry_go.Finder.Lists.{occurs}
use lbry_go.Finder.Trace.{Search, Found}
use lbry_go.Finder.Invariant.{IsSearch, start_IsSearch}
use lbry_go.Finder.Steps.{Found-IsSearch, Found-target}
use lbry_go.Finder.Probes.{find_start-Found}
use lbry_go.Table.{RoutingTable, IsTable}

take-All : {A : Type 0} (P : A → Type 0) (n : ℕ) (l : List A) → All P l → All P (take n l)
take-All P zero l ps = tt
take-All P (suc n) [] ps = tt
take-All P (suc n) (x ∷ l) ps = (ps.0, take-All P n l ps.1)

take-Ascending :
    (target : Bitmap) (n : ℕ) (l : List Contact) → Ascending target l → Ascending target (take n l)
take-Ascending target zero l s = tt
take-Ascending target (suc n) [] s = tt
take-Ascending target (suc n) (c ∷ l) s =
    (take-All (λ d. away target c ≤ away target d) n l s.0, take-Ascending target n l s.1)

take-occurs : (k : Bitmap) (n : ℕ) (l : List Contact) → occurs k (take n l) ≤ occurs k l
unfolding occurs
take-occurs k zero l = omega arith
take-occurs k (suc n) [] = omega arith
take-occurs k (suc n) (c ∷ l) = omega (arith, take-occurs k n l)

-- The contacts that a search returns when it has no value: at most a bucket, in ascending order of the
-- distance to `target`, and none of them twice.
abbrev pub IsResult : Bitmap → List Contact → Type 0
IsResult target l =
    (length l ≤ bucket_size) × Ascending target l × All HasId l × ((k : Bitmap) → occurs k l ≤ 1)

b2n_bound : (b : Bool) → b2n b ≤ 1
b2n_bound true = omega arith
b2n_bound false = omega arith

first_active : (s : Search) → IsSearch s → IsResult s.cf.target (take bucket_size s.cf.active)
first_active s h = (
  omega (arith, length-take bucket_size s.cf.active),
  take-Ascending s.cf.target bucket_size s.cf.active h.sorted,
  take-All HasId bucket_size s.cf.active h.active_good,
  λ k.
      omega (arith, h.once k, take-occurs k bucket_size s.cf.active, b2n_bound (elem k s.cf.added)),
)

all_active :
    (s : Search)
    → IsSearch s
    → ltb bucket_size (length s.cf.active) ≡ false
    → IsResult s.cf.target s.cf.active
all_active s h few = (
  ground arith,
  h.sorted,
  h.active_good,
  λ k. omega (arith, h.once k, b2n_bound (elem k s.cf.added)),
)

end_lem :
    (s : Search) → IsSearch s → (find_end s.cf).1 ≡ false → IsResult s.cf.target (find_end s.cf).0
unfolding find_end
end_lem s h no_value =
    elim (Bool-cases (s.cf.find_value && ltb 0 (length s.cf.find_value_result))) [
      | inl found ↦ absurd (ground (arith, no_value))
      | inr none_found ↦ rw none_found (elim (Bool-cases (ltb bucket_size (length s.cf.active))) [
        | inl many ↦ rw many (first_active s h)
        | inr few ↦ rw few (all_active s h few)
      ])
    ]

new_finder-target :
    (node_id target : Bitmap) (find_value : Bool)
    → (new_finder node_id target find_value).target ≡ target
unfolding new_finder
new_finder-target node_id target find_value = refl

-- After any steps of a search, no contact is asked twice: each identifier stands at most once among the
-- contacts that wait to be asked, are being asked, have answered or are gone, and only if its key
-- was added to the shortlist.
pub Found-occurs :
    (s s' : Search) (k : Bitmap)
    → IsSearch s
    → Found s s'
    → occurs k s'.gone + occurs k s'.waiting + occurs k s'.cf.active + occurs k s'.cf.shortlist
      ≤ b2n (elem k s'.cf.added)
Found-occurs s s' k start found = (Found-IsSearch found start).once k

-- A search that Find begins on a valid table for a bitmap, and that has no value after any of its
-- steps, returns at most a bucket of contacts, in ascending order of their distance to the target,
-- and no identifier twice.
pub find_end-find_start :
    (rt : RoutingTable) (node_id target : Bitmap) (find_value : Bool) (cf : Finder) (s : Search)
    → IsTable rt
    → IsBitmap target
    → find_start rt node_id target find_value ≡ ok cf
    → Found (record { cf = cf; waiting = []; gone = [] }) s
    → (find_end s.cf).1 ≡ false
    → IsResult target (find_end s.cf).0
find_end-find_start rt node_id target find_value cf s h good begun found no_value =
    let first = find_start-Found rt node_id target find_value cf h begun in
    let start = Found-IsSearch first (start_IsSearch node_id target find_value good) in
    subst (λ t. IsResult t (find_end s.cf).0)
      (Found-target found ∙ Found-target first ∙ new_finder-target node_id target find_value)
      (end_lem s (Found-IsSearch found start) no_value)
