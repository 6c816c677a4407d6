-- ===== src/Tests/Lost.antt =====
-- dht/routing_table.go: Update of a contact that is not stored, since the part of the split bucket is
-- chosen by its identifier.
use lbry_go.Prelude.{ℕ, ◌≡◌, refl, [], ◌∷◌, ◌++◌, replicate, ok, ◌>>=◌}
use lbry_go.Bitmap.{Bitmap, cmp, equals, xor}
use lbry_go.Bitmap.Hex.{
  hex, encode, hex_digit, decode, from_hex_char, from_bytes, from_hex, from_short_hex,
  from_short_hex_p,
}
use lbry_go.Bitmap.Text.{hex_value}
use lbry_go.Bitmap.Big.{big, text16, text16_loop, from_big_p}
use lbry_go.Range.{contains, interval_start, interval_p, range_from}
use lbry_go.Prelude.Int.{◌+ℤ◌, ◌-ℤ◌, ◌*ℤ◌, div_ℤ, mod_ℤ}
use lbry_go.Contact.{contact_equals, ip_equal}
use lbry_go.Bucket.{Peer, has, has_loop, len, keep_if, split, find, find_from, update_peer}
use lbry_go.Table.{
  RoutingTable, update, update_from, update_split, update_at, start_loop, should_split, bucket_for,
  bucket_loop, count, count_loop,
}
use lbry_go.Tests.{small, contact, whole}

abbrev top : ℕ → Bitmap
top k = 128 ∷ replicate 46 0 ++ k ∷ []

-- Of the node `top 0`: a contact with a small identifier is far, and one with a large one is near.
abbrev far : ℕ → Peer
far k = record { contact = contact k; distance = top k; last_activity = 0; num_failures = 0 }

abbrev near : ℕ → Peer
near k = record {
  contact = record (contact k) { id = top k };
  distance = small k;
  last_activity = 0;
  num_failures = 0;
}

abbrev full : RoutingTable
full = record {
  id = top 0;
  buckets =
      record {
        peers = far 1 ∷ far 2 ∷ far 3 ∷ far 4 ∷ near 5 ∷ near 6 ∷ near 7 ∷ near 8 ∷ [];
        last_update = 0;
        range = whole;
      }
      ∷ [];
}

lost : (update 9 full (contact 9) >>= λ rt. ok (count rt)) ≡ ok 8
unfolding update update_from update_split update_at start_loop should_split bucket_for bucket_loop
    count count_loop has has_loop len keep_if split find find_from update_peer contact_equals
    ip_equal contains interval_start interval_p range_from big text16 text16_loop from_big_p
    hex_value hex encode hex_digit decode from_hex_char from_bytes from_hex from_short_hex
    from_short_hex_p cmp equals xor ◌+ℤ◌ ◌-ℤ◌ ◌*ℤ◌ div_ℤ mod_ℤ
lost = refl
