-- ===== src/Url/Patterns.antt =====
-- url/url.go: what the optional groups of the regular expression take of a text.
use lbry_go.Prelude.{
  ℕ, ◌≡◌, ◌≢◌, ◌⊎◌, ◌↔◌, arith, sym, true_ne_false, refl, ap, ◌∙◌, true, List, [], ◌∷◌, ◌++◌, All,
  Option, none, some, Bool-cases, inl, inr,
}
use lbry_go.Messages.{Bytes}
use lbry_go.Url.{literal, fits, alternative, lower}

Whole : Bytes → Option (Bytes × Bytes) → Type 0
Whole s none = Unit
Whole s (some (a, b)) = a ++ b ≡ s

literal_lem : (p s : Bytes) → Whole s (literal p s)
unfolding literal Whole
literal_lem [] s = refl
literal_lem (p ∷ ps) [] = tt
literal_lem (p ∷ ps) (c ∷ s) = elim (Bool-cases (fits p c)) [
  | inl fit ↦ rw fit (longer (literal ps s) (literal_lem ps s))
  | inr other ↦ rw other tt
]
  where
    longer :
        (o : Option (Bytes × Bytes))
        → Whole s o
        → Whole (c ∷ s) (elim o [ none ↦ none | some (first, rest) ↦ some (c ∷ first, rest) ])
    longer none w = tt
    longer (some (a, b)) w = ap (◌∷◌ c) w

pub alternative_lem :
    (ps : List Bytes) (s : Bytes) → (alternative ps s).0 ++ (alternative ps s).1 ≡ s
unfolding alternative Whole
alternative_lem [] s = refl
alternative_lem (p ∷ ps) s = found (literal p s) (literal_lem p s) (alternative_lem ps s)
  where
    found :
        (o : Option (Bytes × Bytes))
        → Whole s o
        → (alternative ps s).0 ++ (alternative ps s).1 ≡ s
        → (let r : Bytes × Bytes = elim o [ none ↦ alternative ps s | some f ↦ f ] in
            r.0 ++ r.1 ≡ s)
    found none w rest = rest
    found (some f) w rest = w

-- What a byte of a pattern stands for: a dot for all but a newline, another byte for itself or its
-- capital.
abbrev pub ReadsByte : ℕ → ℕ → Type 0
ReadsByte p c = ((p ≡ b'.') × (c ≢ 10)) ⊎ ((p ≢ b'.') × (p ≡ lower c))

abbrev pub Reads : Bytes → Bytes → Type 0
Reads [] [] = Unit
Reads [] (c ∷ s) = ⊥
Reads (p ∷ ps) [] = ⊥
Reads (p ∷ ps) (c ∷ s) = ReadsByte p c × Reads ps s

-- The text begins with what the pattern stands for.
abbrev pub Begins : Bytes → Bytes → Type 0
Begins [] s = Unit
Begins (p ∷ ps) [] = ⊥
Begins (p ∷ ps) (c ∷ s) = ReadsByte p c × Begins ps s

abbrev pub ReadsOne : List Bytes → Bytes → Type 0
ReadsOne [] a = ⊥
ReadsOne (p ∷ ps) a = Reads p a ⊎ ReadsOne ps a

-- What the optional group of these patterns takes of the text.
abbrev pub Takes : List Bytes → Bytes → Bytes → Type 0
Takes ps s a = ((a ≡ []) × All (λ p. Begins p s → ⊥) ps) ⊎ ReadsOne ps a

fits_iff : (p c : ℕ) → (fits p c ≡ true) ↔ ReadsByte p c
unfolding fits
fits_iff p c = (λ e. ground (arith, e), λ r. ground (arith, r))

Match : Bytes → Bytes → Option (Bytes × Bytes) → Type 0
Match p s none = Begins p s → ⊥
Match p s (some (a, b)) = Reads p a

literal-Match : (p s : Bytes) → Match p s (literal p s)
unfolding literal Match
literal-Match [] s = tt
literal-Match (p ∷ ps) [] = λ b. b
literal-Match (p ∷ ps) (c ∷ s) = elim (Bool-cases (fits p c)) [
  | inl fit ↦ rw fit (longer ((fits_iff p c).0 fit) (literal ps s) (literal-Match ps s))
  | inr other ↦ rw other (λ b. true_ne_false (sym ((fits_iff p c).1 b.0) ∙ other))
]
  where
    longer :
        ReadsByte p c
        → (o : Option (Bytes × Bytes)) → Match ps s o
        → Match
            (p ∷ ps)
            (c ∷ s)
            (elim o [ none ↦ none | some (first, rest) ↦ some (c ∷ first, rest) ])
    longer r none m = λ b. m b.1
    longer r (some (a, b)) m = (r, m)

pub alternative-Takes : (ps : List Bytes) (s : Bytes) → Takes ps s (alternative ps s).0
unfolding alternative Match
alternative-Takes [] s = inl (refl, tt)
alternative-Takes (p ∷ ps) s = found (literal p s) (literal-Match p s) (alternative-Takes ps s)
  where
    found :
        (o : Option (Bytes × Bytes))
        → Match p s o
        → Takes ps s (alternative ps s).0
        → (let r : Bytes × Bytes = elim o [ none ↦ alternative ps s | some f ↦ f ] in
            Takes (p ∷ ps) s r.0)
    found none m (inl (e, others)) = inl (e, (m, others))
    found none m (inr r) = inr (inr r)
    found (some f) m rest = inr (inl m)
