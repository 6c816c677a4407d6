-- ===== src/Url/Scanning.antt =====
-- url/url.go: the components of a url are its text, in order, and what each of them may be.
use lbry_go.Prelude.{
  ℕ, ◌≡◌, ◌==◌, ◌≢◌, ◌⊎◌, All-imp, arith, refl, ap, ◌∙◌, Bool, true, false, [], ◌∷◌, ◌++◌, All,
  Bool-cases, inl, inr,
}
use lbry_go.Messages.{Bytes}
use lbry_go.Url.Patterns.{Takes, alternative_lem, alternative-Takes}
use lbry_go.Url.{
  Components, components, span, one, alternative, protocols, hosts, is_name, is_separator, is_slash,
  is_value, codes,
}

module _ (test : ℕ → Bool) where
  -- The two parts are the text. Every byte of the first passes the test, and the first byte of the
  -- second does not.
  abbrev pub Stops : Bytes → Type 0
  Stops [] = Unit
  Stops (c ∷ s) = test c ≡ false

  span_lem :
      (s : Bytes)
      → ((span test s).0 ++ (span test s).1 ≡ s)
        × All (λ c. test c ≡ true) (span test s).0
        × Stops (span test s).1
  unfolding span
  span_lem [] = (refl, tt, tt)
  span_lem (c ∷ s) = elim (Bool-cases (test c)) [
    | inl passed ↦ let (a, b, d) = span_lem s in rw passed (ap (◌∷◌ c) a, (passed, b), d)
    | inr failed ↦ rw failed (refl, tt, failed)
  ]

  one_lem : (s : Bytes) → (one test s).0 ++ (one test s).1 ≡ s
  unfolding one
  one_lem [] = refl
  one_lem (c ∷ s) = elim (Bool-cases (test c)) [
    | inl passed ↦ rw passed refl
    | inr failed ↦ rw failed refl
  ]

-- No separator and no slash.
abbrev pub IsNamePart : Bytes → Type 0
IsNamePart = All (λ c. (c ≢ b':') × (c ≢ b'$') × (c ≢ b'#') × (c ≢ b'/'))

abbrev pub HasNoSlash : Bytes → Type 0
HasNoSlash = All (λ c. c ≢ b'/')

-- A separator and a value, or neither.
abbrev pub IsModifier : Bytes → Bytes → Type 0
IsModifier separator value =
    ((separator ≡ []) × (value ≡ []))
    ⊎ ((separator ≡ b':' ∷ []) ⊎ ((separator ≡ b'$' ∷ []) ⊎ (separator ≡ b'#' ∷ [])))

name_part : (s : Bytes) → IsNamePart (span is_name s).0
unfolding is_name is_separator
name_part s = All-imp (λ c. is_name c ≡ true) _ _ (λ c e. ground (arith, e)) (span_lem is_name s).1

no_slash : (s : Bytes) → HasNoSlash (span is_value s).0
unfolding is_value
no_slash s = All-imp (λ c. is_value c ≡ true) _ _ (λ c e. ground (arith, e)) (span_lem is_value s).1

separators : (c : ℕ) → is_separator c ≡ true → (c ≡ b':') ⊎ ((c ≡ b'$') ⊎ (c ≡ b'#'))
unfolding is_separator
separators c e = ground (arith, e)

modifier_part :
    (t : Bytes)
    → Stops is_name t
    → IsModifier (one is_separator t).0 (span is_value (one is_separator t).1).0
unfolding one span is_name is_value
modifier_part [] stops = inl (refl, refl)
modifier_part (c ∷ t) stops = elim (Bool-cases (is_separator c)) [
  | inl is_one ↦ rw is_one (inr (which c is_one))
  | inr other ↦
      let slash : is_value c ≡ false = at_slash c stops other in
      rw other (rw slash (inl (refl, refl)))
]
  where
    which :
        (c : ℕ)
        → is_separator c ≡ true
        → (c ∷ [] ≡ b':' ∷ []) ⊎ ((c ∷ [] ≡ b'$' ∷ []) ⊎ (c ∷ [] ≡ b'#' ∷ []))
    which c e = elim (separators c e) [
      | inl colon ↦ inl (ap (λ x. x ∷ []) colon)
      | inr (inl dollar) ↦ inr (inl (ap (λ x. x ∷ []) dollar))
      | inr (inr hash) ↦ inr (inr (ap (λ x. x ∷ []) hash))
    ]

    at_slash : (c : ℕ) → is_name c ≡ false → is_separator c ≡ false → is_value c ≡ false
    at_slash c e f = ground (arith, e, f)

-- The components and what follows them, put together.
abbrev pub IsText : Bytes → Components → Type 0
IsText s c =
    c.proto
      ++ (c.host
          ++ (c.name
              ++ (c.separator
                  ++ (c.value
                      ++ (c.slash
                          ++ (c.second_name
                              ++ (c.second_separator ++ (c.second_value ++ c.rest))))))))
    ≡ s

joined : (a : Bytes) {b s t : Bytes} → t ≡ b → a ++ b ≡ s → a ++ t ≡ s
joined a e f = ap (λ x. a ++ x) e ∙ f

-- What stops the match: the end of the text, or a slash.
abbrev pub EndsValue : Bytes → Type 0
EndsValue [] = Unit
EndsValue (c ∷ s) = c ≡ b'/'

ends_value : (s : Bytes) → Stops is_value s → EndsValue s
unfolding is_value
ends_value [] stops = tt
ends_value (c ∷ s) stops = ground (arith, stops)

-- The slash, unless the text ends before it.
slash_part : (t : Bytes) → Stops is_value t → ((one is_slash t).0 ≡ b'/' ∷ []) ⊎ (t ≡ [])
unfolding one is_slash
slash_part [] stops = inr refl
slash_part (c ∷ t) stops =
    let e : c ≡ b'/' = ends_value (c ∷ t) stops in
    let test : (c == b'/') ≡ true = ground arith in rw test (inl (ap (λ x. x ∷ []) e))

-- The pieces of a text: `(lbry://|https://)?`, the hosts, a name with its modifier, and after a slash
-- another one.
pub record IsSplit (s : Bytes) (c : Components) : Type 0 where
  pub whole : IsText s c
  pub proto_read : Takes (codes "lbry://" ∷ codes "https://" ∷ []) s c.proto
  pub host_read :
      (t : Bytes) × (c.proto ++ t ≡ s)
      × Takes
          (codes "open.lbry.com/"
            ∷ codes "lbry.tv/"
            ∷ codes "lbry.lat/"
            ∷ codes "lbry.fr/"
            ∷ codes "lbry.in/"
            ∷ [])
          t
          c.host
  pub name_good : IsNamePart c.name
  pub modifier : IsModifier c.separator c.value
  pub value_good : HasNoSlash c.value
  pub slashed :
      (c.slash ≡ b'/' ∷ [])
      ⊎ (c.second_name ++ (c.second_separator ++ (c.second_value ++ c.rest)) ≡ [])
  pub second_name_good : IsNamePart c.second_name
  pub second_modifier : IsModifier c.second_separator c.second_value
  pub second_value_good : HasNoSlash c.second_value
  pub ends : EndsValue c.rest

-- The nine groups that the regular expression of Parse matches, of any text: with what follows the
-- match they are the text, in this order; the first is one of the protocols and the second one of the
-- hosts, up to case and with a dot for any byte but a newline, or empty if the text there begins with
-- none; no name has one of ":$#/"; after each name one of ":$#" and a value stand, or neither; no value
-- has a slash; a slash stands before the second name, or nothing follows; and what Parse ignores is
-- empty or begins with a slash.
pub components-IsSplit : (s : Bytes) → IsSplit s (components s)
unfolding components one
components-IsSplit s =
    let s₁ = (alternative protocols s).1 in
    let s₂ = (alternative hosts s₁).1 in
    let s₃ = (span is_name s₂).1 in
    let s₄ = (one is_separator s₃).1 in
    let s₅ = (span is_value s₄).1 in
    let s₆ = (one is_slash s₅).1 in
    let s₇ = (span is_name s₆).1 in
    let s₈ = (one is_separator s₇).1 in
    let (e₃, _, stops₃) = span_lem is_name s₂ in
    let (e₅, _, stops₅) = span_lem is_value s₄ in
    let (e₇, _, stops₇) = span_lem is_name s₆ in
    let (e₉, _, stops) = span_lem is_value s₈ in
    let second = joined _ (joined _ e₉ (one_lem is_separator s₇)) e₇ in
    let first =
      joined _ (joined _ (joined _ second (one_lem is_slash s₅)) e₅) (one_lem is_separator s₃) in
    record {
      whole =
          joined _ (joined _ (joined _ first e₃) (alternative_lem hosts s₁))
            (alternative_lem protocols s);
      proto_read = alternative-Takes protocols s;
      host_read = (s₁, alternative_lem protocols s, alternative-Takes hosts s₁);
      name_good = name_part s₂;
      modifier = modifier_part s₃ stops₃;
      value_good = no_slash s₄;
      slashed = elim (slash_part s₅ stops₅) [
        | inl slash ↦ inl slash
        | inr done ↦ inr (second ∙ nothing_left s₅ done)
      ];
      second_name_good = name_part s₆;
      second_modifier = modifier_part s₇ stops₇;
      second_value_good = no_slash s₈;
      ends = ends_value _ stops;
    }
  where
    nothing_left : (t : Bytes) → t ≡ [] → (one is_slash t).1 ≡ []
    nothing_left t e = ap (λ x. (one is_slash x).1) e
