-- ===== src/Table/Ends.antt =====
-- dht/routing_table.go, Update, Fresh and Fail: the theorems on whole calls.
use mathlib.Core.Path.{subst}
use lbry_go.Prelude.{
  ℕ, suc, ◌≡◌, ◌≢◌, refl, ap, sym, ◌∙◌, true, false, List, ◌∷◌, ◌++◌, length, All-append, All-split,
  get_elem?, set, get-middle, set-middle, take, drop, take-middle, drop-middle, some, arith,
  Bool-cases, inl, inr, ok,
}
use lbry_go.Bitmap.{IsBitmap, xor}
use lbry_go.Bitmap.Distance.{xor-IsBitmap, xor_comm}
use lbry_go.Range.{contains}
use lbry_go.Contact.{Contact}
use lbry_go.Bucket.{Bucket, IsBucket, fail_contact}
use lbry_go.Bucket.Changes.{Updated}
use lbry_go.Bucket.Invariant.{Failed, fail_contact-Failed}
use lbry_go.Bucket.Splitting.{two_apart}
use lbry_go.Bucket.Total.{Parted, split-Parted}
use lbry_go.Table.{
  RoutingTable, IsTable, should_split, start_loop, update_split, update_from, update, fresh,
  fail_contact_at, table_fail,
}
use lbry_go.Table.Cover.{Covering, bucket_for-Covering, start_loop_finds, Chain-split}
use lbry_go.Table.Updating.{
  Stored, direct, Holds, Holds-IsTable, with_buckets, newcomer, update_at-Updated, one_part,
  replace-Holds,
}
use lbry_go.Table.Storing.{should_split-ok, goes_left, goes_right}

split-Holds :
    (rt : RoutingTable) (before : List Bucket) (b l r : Bucket) (after : List Bucket)
    → Holds rt (before ++ b ∷ after)
    → Parted rt.id b l r
    → Holds rt (before ++ l ∷ r ∷ after)
split-Holds rt before b l r after h t =
    let (p, q) = All-split (IsBucket rt.id) before (b ∷ after) h.good in
    record {
      id_good = h.id_good;
      good =
          All-append (IsBucket rt.id) before (l ∷ r ∷ after) p (t.left_good, (t.right_good, q.1));
      covers = Chain-split 0 before b l r after t.left_start t.adjacent t.right_end h.covers;
    }

Holds-of-table : {rt : RoutingTable} {l : List Bucket} → IsTable rt → rt.buckets ≡ l → Holds rt l
Holds-of-table {rt} h e =
    subst (Holds rt) e (record { id_good = h.id_good; good = h.buckets_good; covers = h.covers })

update_split-Stored :
    (now : ℕ) (rt : RoutingTable) (c : Contact) (before : List Bucket) (b : Bucket)
    (after : List Bucket)
    → IsBitmap c.id
    → IsTable rt
    → Covering (xor rt.id c.id) rt.buckets before b after
    → should_split rt b c ≡ ok true
    → (l r : Bucket) → Parted rt.id b l r
    → Stored now rt c (update_split now rt c l r) × IsTable (update_split now rt c l r)
unfolding update_split
update_split-Stored now rt c before b after good h here splits l r t =
    let whole = Holds-of-table h here.splits in
    let (_, q) = All-split (IsBucket rt.id) before (b ∷ after) whole.good in
    let parted = split-Holds rt before b l r after whole t in
    let d = xor-IsBitmap rt.id c.id h.id_good good in
    let one = one_part rt.id b l r (xor rt.id c.id) q.0 t d here.covers in
    let found : start_loop 0 l.range.start rt.buckets ≡ some (length before) =
      ap (start_loop 0 l.range.start) here.splits
      ∙ start_loop_finds 0 0 rt.id l.range.start before b after whole.good whole.covers t.left_start
      ∙ ap some (omega arith) in
    let shape : take (length before) rt.buckets ++ l ∷ r ∷ drop (suc (length before)) rt.buckets
        ≡ before ++ l ∷ r ∷ after =
      ap (λ m. take (length before) m ++ l ∷ r ∷ drop (suc (length before)) m) here.splits
      ∙ ap (λ m. m ++ l ∷ r ∷ drop (suc (length before)) (before ++ b ∷ after))
          (take-middle before (b ∷ after) (length before) refl)
      ∙ ap (λ m. before ++ l ∷ r ∷ m) (drop-middle before b after (length before) refl) in
    elim (Bool-cases (contains l.range c.id)) [
      | inl chosen ↦
          rw (found, update_split, shape, chosen)
            (goes_left now rt c good before b after here splits l r t parted one chosen)
      | inr chosen ↦
          rw (found, update_split, shape, chosen)
            (goes_right now rt c good before b after here splits l r t parted one chosen)
    ]

-- Update of a contact with a well-formed identifier other than the node's own, in a valid table, ends
-- without a panic in a valid table, in one of these ways: the bucket that covers it is updated by
-- UpdatePeer, or after a split the part that covers it (either refreshes the peer with the identifier,
-- adds a new one, adds it in exchange for a peer that failed too often, or stays as it is if it is full
-- of others), or after a split the chosen part is the one that does not cover it, and the contact is not
-- stored.
pub update-Stored :
    (now : ℕ) (rt : RoutingTable) (c : Contact)
    → IsTable rt
    → IsBitmap c.id
    → rt.id ≢ c.id
    → (rt' : RoutingTable) × (update now rt c ≡ ok rt') × Stored now rt c rt' × IsTable rt'
unfolding update update_from
update-Stored now rt c h good other =
    let (before, b, after, f, found) = (bucket_for-Covering rt c.id h good).0 other in
    let here : Covering (xor rt.id c.id) rt.buckets before b after = record {
      splits = f.splits;
      covers = ap (contains b.range) (xor_comm rt.id c.id h.id_good good) ∙ f.covers;
    } in
    let whole = Holds-of-table h f.splits in
    let (_, q) = All-split (IsBucket rt.id) before (b ∷ after) whole.good in
    let at_place : get_elem? rt.buckets (length before) ≡ some b =
      ap (λ m. get_elem? m (length before)) f.splits
      ∙ get-middle before b after (length before) refl in
    let (t, asked, full) = should_split-ok rt c before b after f.splits in
    elim (Bool-cases t) [
      | inr stays ↦
          let asked' = asked ∙ ap ok stays in
          let (b', e, u, h') =
            update_at-Updated now rt c good true rt.buckets before b after (length before) f.splits
              refl whole here.covers in
          (
            _,
            rw (found, at_place, asked') refl,
            direct here asked' u e,
            subst IsTable (sym e) (Holds-IsTable h'),
          )
      | inl splits ↦
          let asked' = asked ∙ ap ok splits in
          let wide = two_apart rt.id b h.id_good q.0 (omega (arith, full splits)) in
          let (l, r, e, parts) = split-Parted rt.id b h.id_good q.0 wide in
          let (s, h') = update_split-Stored now rt c before b after good h here asked' l r parts in
          (_, rw (found, at_place, asked', e) refl, s, h')
    ]

module _ (rt : RoutingTable) (c : Contact) (h : IsTable rt) (good : IsBitmap c.id)
    (other : rt.id ≢ c.id) where
  -- In a valid table, Fresh of another contact refreshes it in the bucket that covers it, if that
  -- bucket knows it, and changes nothing else; the table stays valid.
  pub fresh-Updated :
      (now : ℕ)
      → (before : List Bucket) × (b : Bucket) × (after : List Bucket) × (b' : Bucket) × Covering
          (xor rt.id c.id)
          rt.buckets
          before
          b
          after
        × Updated now b (newcomer rt c) false b'
        × (fresh now rt c ≡ ok (with_buckets rt (before ++ b' ∷ after)))
        × IsTable (with_buckets rt (before ++ b' ∷ after))
  unfolding fresh
  fresh-Updated now =
      let (before, b, after, f, found) = (bucket_for-Covering rt c.id h good).0 other in
      let inside = ap (contains b.range) (xor_comm rt.id c.id h.id_good good) ∙ f.covers in
      let whole = Holds-of-table h f.splits in
      let (b', e, u, h') =
        update_at-Updated now rt c good false rt.buckets before b after (length before) f.splits
          refl whole inside in
      (
        before,
        b,
        after,
        b',
        record { splits = f.splits; covers = inside },
        u,
        rw found (ap ok e),
        Holds-IsTable h',
      )

  -- In a valid table, Fail of a well-formed identifier other than the node's own counts one failure more
  -- for the peer with it in the bucket that covers it, or no peer of that bucket has it and the bucket
  -- stays as it is; the other buckets stay as they are, and the table stays valid.
  pub table_fail-Failed :
      (before : List Bucket) × (b : Bucket) × (after : List Bucket) × Covering
        (xor rt.id c.id)
        rt.buckets
        before
        b
        after
      × Failed b c.id (fail_contact b c.id)
      × (table_fail rt c ≡ ok (with_buckets rt (before ++ fail_contact b c.id ∷ after)))
      × IsTable (with_buckets rt (before ++ fail_contact b c.id ∷ after))
  unfolding table_fail fail_contact_at
  table_fail-Failed =
      let (before, b, after, f, found) = (bucket_for-Covering rt c.id h good).0 other in
      let inside = ap (contains b.range) (xor_comm rt.id c.id h.id_good good) ∙ f.covers in
      let whole = Holds-of-table h f.splits in
      let (_, q) = All-split (IsBucket rt.id) before (b ∷ after) whole.good in
      let (hb, failed) = fail_contact-Failed rt.id b c.id q.0 good in
      let at_place : get_elem? rt.buckets (length before) ≡ some b =
        ap (λ m. get_elem? m (length before)) f.splits
        ∙ get-middle before b after (length before) refl in
      let written : set rt.buckets (length before) (fail_contact b c.id)
          ≡ before ++ fail_contact b c.id ∷ after =
        ap (λ m. set m (length before) (fail_contact b c.id)) f.splits
        ∙ set-middle before b (fail_contact b c.id) after (length before) refl in
      (
        before,
        b,
        after,
        record { splits = f.splits; covers = inside },
        failed,
        rw (found, at_place, fail_contact_at, written) refl,
        Holds-IsTable
            (replace-Holds before b (fail_contact b c.id) after whole hb (same_range b _ failed)),
      )
    where
      same_range : (b b' : Bucket) → Failed b c.id b' → b'.range ≡ b.range
      same_range b b' (inl (_, _, _, _, _, e)) = ap (λ (d : Bucket). d.range) e
      same_range b b' (inr (_, e)) = ap (λ (d : Bucket). d.range) e
