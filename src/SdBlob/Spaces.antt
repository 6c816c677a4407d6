-- ===== src/SdBlob/Spaces.antt =====
-- stream/json.go, ToBlob: spaces after the commas and colons of a JSON text.
use lbry_go.Prelude.{
  ℕ, ◌≡◌, ◌⊎◌, refl, sym, false, [], ◌∷◌, ◌==◌, if◌then◌else◌, Bool-cases, inl, inr, arith,
}
use mathlib.Core.Path.{subst}
use lbry_go.Messages.{Bytes}
use lbry_go.SdBlob.{spaced_after}

-- Where a byte of a JSON text stands: outside the strings, in one, or after a backslash in one.
pub data Place : Type 0 where
  outside inside escaped : Place

abbrev pub place_after : Place → ℕ → Place
place_after outside x = if x == b'"' then inside else outside
place_after inside x = if x == b'"' then outside else if x == 92 then escaped else inside
place_after escaped x = inside

abbrev pub IsMark : ℕ → Type 0
IsMark x = (x ≡ b',') ⊎ (x ≡ b':')

-- The second text is the first, from this place on, with a space after some of the commas and colons
-- that stand outside the strings.
pub data Respaced : Place → Bytes → Bytes → Type 0 where
  end : {p : Place} → Respaced p [] []
  keep :
      {p : Place} (x : ℕ) {b b' : Bytes}
      → Respaced (place_after p x) b b'
      → Respaced p (x ∷ b) (x ∷ b')
  space :
      (x : ℕ) {b b' : Bytes}
      → IsMark x
      → Respaced outside b b'
      → Respaced outside (x ∷ b) (x ∷ b' ' ∷ b')

-- No string of the text holds a comma or a colon.
abbrev pub Quiet : Place → Bytes → Type 0
Quiet p [] = Unit
Quiet p (x ∷ b) = (IsMark x → p ≡ outside) × Quiet (place_after p x) b

abbrev spaced : Bytes → Bytes
spaced b = spaced_after b':' (spaced_after b',' b)

spaced-mark : (x : ℕ) (b : Bytes) → IsMark x → spaced (x ∷ b) ≡ x ∷ b' ' ∷ spaced b
unfolding spaced_after
spaced-mark x b (inl e) = rw e refl
spaced-mark x b (inr e) = rw e refl

spaced-other :
    (x : ℕ) (b : Bytes) → (x == b',') ≡ false → (x == b':') ≡ false → spaced (x ∷ b) ≡ x ∷ spaced b
unfolding spaced_after
spaced-other x b e f = rw e (rw f refl)

mark-place : (x : ℕ) → IsMark x → place_after outside x ≡ outside
mark-place x (inl e) = rw e refl
mark-place x (inr e) = rw e refl

mark-Respaced :
    (p : Place) (x : ℕ) (b b' : Bytes)
    → IsMark x
    → p ≡ outside
    → Respaced (place_after p x) b b'
    → Respaced p (x ∷ b) (x ∷ b' ' ∷ b')
mark-Respaced outside x b b' m at r = space x m (subst (λ p. Respaced p b b') (mark-place x m) r)
mark-Respaced inside x b b' m at r = absurd cc
mark-Respaced escaped x b b' m at r = absurd cc

-- What ToBlob does to a text whose strings have no comma and no colon.
pub spaced_after-Respaced :
    (p : Place) (b : Bytes) → Quiet p b → Respaced p b (spaced_after b':' (spaced_after b',' b))
unfolding spaced_after
spaced_after-Respaced p [] q = end
spaced_after-Respaced p (x ∷ b) q =
    let rest = spaced_after-Respaced (place_after p x) b q.1 in
    elim (Bool-cases (x == b',')) [
      | inl comma ↦ mark (inl (ground (arith, comma))) rest
      | inr no_comma ↦ elim (Bool-cases (x == b':')) [
        | inl colon ↦ mark (inr (ground (arith, colon))) rest
        | inr no_colon ↦
            subst (Respaced p (x ∷ b)) (sym (spaced-other x b no_comma no_colon)) (keep x rest)
      ]
    ]
  where
    mark : IsMark x → Respaced (place_after p x) b (spaced b) → Respaced p (x ∷ b) (spaced (x ∷ b))
    mark m rest =
        subst (Respaced p (x ∷ b)) (sym (spaced-mark x b m))
          (mark-Respaced p x b (spaced b) m (q.0 m) rest)
