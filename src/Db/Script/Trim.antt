-- ===== src/Db/Script/Trim.antt =====
-- db/sql_script.rs: what `PendingStatement::take` makes of a text.
use astesia.Base.{
  ℕ, suc, ◌-◌, ◌≤◌, ◌≡◌, refl, sym, true, false, ◌&&◌, Option, none, some, [], ◌∷◌, arith, length,
  Bool-cases, inl, inr, ◌∙◌, ap,
}
use astesia.Base.Text.{is_space}
use astesia.Db.Script.Statement.{Chars, is_nil, trim_start, trim_end, last_char, drop}

-- The first character of a text that is not whitespace.
unfoldable pub first_visible : Chars → Option ℕ
first_visible [] = none
first_visible (c ∷ s) = elim (is_space c) [ true ↦ first_visible s | false ↦ some c ]

-- The text ends in a character that is not whitespace.
unfoldable pub EndsVisibly : Chars → Type 0
unfolding last_char
EndsVisibly s = (d : ℕ) × (last_char s ≡ some d) × (is_space d ≡ false)

unfoldable pub trimmed : Chars → Chars
unfolding trim_start trim_end drop
trimmed s = drop (length s - length (trim_start s)) (trim_end s)

length-trim_start : (s : Chars) → length (trim_start s) ≤ length s
unfolding trim_start
length-trim_start [] = omega arith
length-trim_start (c ∷ s) = ground (arith, length-trim_start s)

pub trim_end-blank : (s : Chars) → first_visible s ≡ none → trim_end s ≡ []
unfolding trim_end first_visible
trim_end-blank [] h = refl
trim_end-blank (c ∷ s) h = ground (arith, trim_end-blank s)

EndsVisibly-∷ : (c : ℕ) (s : Chars) → EndsVisibly s → EndsVisibly (c ∷ s)
unfolding EndsVisibly
EndsVisibly-∷ c [] (d, e, h) = absurd (cc)
EndsVisibly-∷ c (a ∷ s) h = h

trim_end-keep :
    (c : ℕ) (s : Chars)
    → (is_space c && is_nil (trim_end s)) ≡ false
    → trim_end (c ∷ s) ≡ c ∷ trim_end s
unfolding trim_end
trim_end-keep c s e = rw e

is_nil-true : (s : Chars) → is_nil s ≡ true → s ≡ []
is_nil-true [] e = refl
is_nil-true (c ∷ s) e = absurd (cc)

EndsVisibly-one : (c : ℕ) → is_space c ≡ false → EndsVisibly (c ∷ [])
unfolding EndsVisibly
EndsVisibly-one c e = (c, refl, e)

trim_end-EndsVisibly : (s : Chars) → is_nil (trim_end s) ≡ false → EndsVisibly (trim_end s)
unfolding trim_end
trim_end-EndsVisibly [] h = absurd (cc)
trim_end-EndsVisibly (c ∷ s) h = elim (Bool-cases (is_nil (trim_end s))) [
  | inr more ↦
      rw (trim_end-keep c s (grind arith)) (EndsVisibly-∷ c _ (trim_end-EndsVisibly s more))
  | inl nil ↦ elim (Bool-cases (is_space c)) [
    | inl space ↦ absurd (grind arith)
    | inr visible ↦
        rw (trim_end-keep c s (grind arith), is_nil-true _ nil) (EndsVisibly-one c visible)
  ]
]

trim_start-visible : (c : ℕ) (s : Chars) → is_space c ≡ false → trim_start (c ∷ s) ≡ c ∷ s
unfolding trim_start
trim_start-visible c s e = ground arith

trim_start-space : (c : ℕ) (s : Chars) → is_space c ≡ true → trim_start (c ∷ s) ≡ trim_start s
unfolding trim_start
trim_start-space c s e = ground arith

pub first_visible-visible :
    (c : ℕ) (s : Chars) → is_space c ≡ false → first_visible (c ∷ s) ≡ some c
unfolding first_visible
first_visible-visible c s e = ground arith

pub first_visible-space :
    (c : ℕ) (s : Chars) → is_space c ≡ true → first_visible (c ∷ s) ≡ first_visible s
unfolding first_visible
first_visible-space c s e = ground arith

trimmed-visible : (c : ℕ) (s : Chars) → is_space c ≡ false → trimmed (c ∷ s) ≡ c ∷ trim_end s
unfolding trimmed
trimmed-visible c s e =
    let none_off : suc (length s) - suc (length s) ≡ 0 = omega arith in
    rw (trim_start-visible c s e, none_off, trim_end-keep c s (grind arith))

trimmed-space :
    (c : ℕ) (s : Chars)
    → is_space c ≡ true
    → is_nil (trim_end s) ≡ false
    → trimmed (c ∷ s) ≡ trimmed s
unfolding trimmed trim_start
trimmed-space c s e more =
    let one_off : suc (length s) - length (trim_start s) ≡ suc (length s - length (trim_start s)) =
      omega (arith, length-trim_start s) in
    rw (trim_start-space c s e, one_off, trim_end-keep c s (grind arith))

-- A text with a visible character starts with it after `trim`, and ends visibly.
pub trimmed_lem :
    (s : Chars) (c : ℕ)
    → first_visible s ≡ some c
    → (is_nil (trim_end s) ≡ false)
      × ((rest : Chars) × (trimmed s ≡ c ∷ rest))
      × EndsVisibly (trimmed s)
unfolding first_visible
trimmed_lem [] c h = absurd (cc)
trimmed_lem (a ∷ s) c h = elim (Bool-cases (is_space a)) [
  | inl space ↦
      let ih = trimmed_lem s c (sym (first_visible-space a s space) ∙ h) in
      let same = trimmed-space a s space ih.0 in
      (nonblank ih.0, (ih.1.0, same ∙ ih.1.1), rw same ih.2)
  | inr visible ↦
      let same : a ≡ c = cc (first_visible-visible a s visible, h) in
      let keep : trim_end (a ∷ s) ≡ a ∷ trim_end s = trim_end-keep a s (grind arith) in
      (
        ap is_nil keep,
        (trim_end s, rw (← same) (trimmed-visible a s visible)),
        rw (trimmed-visible a s visible, ← keep) (trim_end-EndsVisibly (a ∷ s) (ap is_nil keep)),
      )
]
  where
    nonblank : is_nil (trim_end s) ≡ false → is_nil (trim_end (a ∷ s)) ≡ false
    nonblank more = ap is_nil (trim_end-keep a s (grind arith))
