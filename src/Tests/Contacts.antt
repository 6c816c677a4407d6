-- ===== src/Tests/Contacts.antt =====
-- dht/contact.go: the theorems on sample contacts.
use lbry_go.Prelude.{ℕ, ◌≡◌, ◌≢◌, refl, ◌⊎◌, List, [], ◌∷◌, length, some, ok, err, arith}
use lbry_go.Prelude.Int.{pos}
use lbry_go.Contact.{Contact, compact_length, to4, marshal_compact, unmarshal_compact}
use lbry_go.Contact.Compact.{unmarshal_compact-marshal_compact, marshal_compact-unmarshal_compact}
use lbry_go.Tests.{small, small_lem, contact}

address : to4 (contact 2).ip ≡ some (10 ∷ 0 ∷ 0 ∷ 2 ∷ [])
unfolding to4
address = refl

unmarshal_compact-marshal_compact_example :
    (b : List ℕ) × (marshal_compact (contact 2) ≡ ok b)
    × (length b ≡ compact_length)
    × (unmarshal_compact (contact 6) b
        ≡ ok (record (contact 6) {
          id = (contact 2).id;
          ip = 10 ∷ 0 ∷ 0 ∷ 2 ∷ [];
          peer_port = pos 3333;
        }))
unmarshal_compact-marshal_compact_example =
    unmarshal_compact-marshal_compact (contact 2) (contact 6) (10 ∷ 0 ∷ 0 ∷ 2 ∷ []) 3333
      (small_lem 2 (omega arith)).0 address refl (omega arith)

abbrev packet : List ℕ
packet = 10 ∷ 0 ∷ 0 ∷ 2 ∷ 13 ∷ 5 ∷ small 2

marshal_compact-unmarshal_compact_example :
    ((length packet ≡ compact_length)
      × ((c : Contact) × (unmarshal_compact (contact 6) packet ≡ ok c)
          × (marshal_compact c ≡ ok packet)
          × (c.port ≡ (contact 6).port)))
    ⊎ ((length packet ≢ compact_length)
        × (unmarshal_compact (contact 6) packet ≡ err "invalid compact length"))
marshal_compact-unmarshal_compact_example =
    marshal_compact-unmarshal_compact (contact 6) packet (omega arith)
