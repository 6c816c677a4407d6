-- ===== src/Tests.antt =====
-- Sample values, and runs of the operations on them.
mod Bitmaps
mod Ranges
mod Contacts
mod Buckets
mod Tables
mod OrderedMaps
mod Stores
mod Libraries
mod Streams
mod Nodes
mod Finders
mod Urls
mod Managers
mod Lost
use lbry_go.Prelude.{
  ℕ, ◌+◌, ◌<◌, ◌≡◌, ◌≢◌, refl, ap, ◌∙◌, List, [], ◌∷◌, ◌++◌, replicate, get_or, arith,
}
use lbry_go.Prelude.Int.{pos}
use lbry_go.Bitmap.{Bitmap, IsBitmap, num_bytes, zeros, xor}
use lbry_go.Bitmap.Value.{value}
use lbry_go.Range.{Range, IsRange}
use lbry_go.Contact.{Contact}
use lbry_go.Bucket.{Peer, Bucket, IsPeer, IsBucket}
use lbry_go.Table.{RoutingTable, IsTable}

-- The bitmap of a number below 256.
abbrev pub small : ℕ → Bitmap
small k = replicate 47 0 ++ k ∷ []

pub small_lem : (k : ℕ) → k < 256 → IsBitmap (small k) × (value (small k) ≡ k)
unfolding value
small_lem k h = ((refl, omega arith), omega arith)

abbrev pub largest : Bitmap
largest = replicate num_bytes 255

pub largest-IsBitmap : IsBitmap largest
largest-IsBitmap = (refl, omega arith)

abbrev pub whole : Range
whole = record { start = zeros; end = largest }

pub whole-IsRange : IsRange whole
unfolding value
whole-IsRange = record {
  start_good = (refl, omega arith);
  end_good = largest-IsBitmap;
  ordered = omega arith;
}

abbrev pub contact : ℕ → Contact
contact k = record { id = small k; ip = 10 ∷ 0 ∷ 0 ∷ k ∷ []; port = pos 4444; peer_port = pos 3333 }

abbrev pub self : Bitmap
self = small 1

-- The peer with identifier `k`, at distance `d`.
abbrev pub peer : ℕ → ℕ → ℕ → Peer
peer k d failures = record {
  contact = contact k;
  distance = small d;
  last_activity = 0;
  num_failures = failures;
}

abbrev pub pair : Bucket
pair = record { peers = peer 2 3 0 ∷ peer 6 7 1 ∷ []; last_update = 0; range = whole }

pub small-ne : (a b : ℕ) → a ≢ b → small a ≢ small b
small-ne a b ne e = ne (ap (λ l. get_or l 47 0) e)

pub pair-IsBucket : IsBucket self pair
unfolding value xor
pair-IsBucket = record {
  range_good = whole-IsRange;
  peers_good = (
    record {
      id_good = (small_lem 2 (omega arith)).0;
      measured = refl;
      inside = record { above = omega arith; below = omega arith };
    },
    (
      record {
        id_good = (small_lem 6 (omega arith)).0;
        measured = refl;
        inside = record { above = omega arith; below = omega arith };
      },
      tt,
    ),
  );
  distinct = ((small-ne 6 2 (omega arith), tt), (tt, tt));
  bounded = omega arith;
}

abbrev pub table : RoutingTable
table = record { id = self; buckets = pair ∷ [] }

pub table-IsTable : IsTable table
unfolding value
table-IsTable = record {
  id_good = (small_lem 1 (omega arith)).0;
  buckets_good = (pair-IsBucket, tt);
  covers = (refl, refl);
}
