-- ===== src/Core/Json/WellFormed.antt =====
-- What `assertWellFormed` accepts: json.ts, lines 19 to 32.
use xcs.Common.{
  ℕ, Text, ◌≡◌, ◌↔◌, inl, inr, refl, [], ◌∷◌, ◌++◌, true, false, ok, ltb, arith, Bool-cases, ◌||◌,
  ◌∙◌,
}
use xcs.Core.Json.{is_high, is_low, assert_well_formed}

-- Unicode text: each surrogate stands in a pair, high before low.
pub data WellFormed : Text → Type 0 where
  empty : WellFormed []
  unit :
      {c : ℕ} {s : Text} → is_high c ≡ false → is_low c ≡ false → WellFormed s → WellFormed (c ∷ s)
  pair :
      {c d : ℕ} {s : Text}
      → is_high c ≡ true
      → is_low d ≡ true
      → WellFormed s
      → WellFormed (c ∷ d ∷ s)

-- What passes: such a text, and such a text with one high surrogate behind it.
pub data Passes : Text → Type 0 where
  whole : {s : Text} → WellFormed s → Passes s
  cut : (c : ℕ) {s t : Text} → WellFormed s → is_high c ≡ true → t ≡ s ++ c ∷ [] → Passes t

low_of_range : (d : ℕ) → (ltb d 0xdc00 || ltb 0xdfff d) ≡ false → is_low d ≡ true
unfolding is_low
low_of_range d h = ground arith

range_of_low : (d : ℕ) → is_low d ≡ true → (ltb d 0xdc00 || ltb 0xdfff d) ≡ false
unfolding is_low
range_of_low d h = ground arith

Passes-unit : (c : ℕ) {s : Text} → is_high c ≡ false → is_low c ≡ false → Passes s → Passes (c ∷ s)
Passes-unit c h l (whole w) = whole (unit h l w)
Passes-unit c h l (cut x w k e) = cut x (unit h l w) k (rw e)

Passes-pair :
    (c d : ℕ) {s : Text} → is_high c ≡ true → is_low d ≡ true → Passes s → Passes (c ∷ d ∷ s)
Passes-pair c d h l (whole w) = whole (pair h l w)
Passes-pair c d h l (cut x w k e) = cut x (pair h l w) k (rw e)

-- one round of the loop, on each branch
module _ (c d : ℕ) (s : Text) where
  step_high :
      is_high c ≡ true
      → assert_well_formed (c ∷ d ∷ s) ≡ ok tt
      → (is_low d ≡ true) × (assert_well_formed s ≡ ok tt)
  unfolding assert_well_formed is_high is_low
  step_high h e = ground arith

  step_other :
      is_high c ≡ false
      → assert_well_formed (c ∷ d ∷ s) ≡ ok tt
      → (is_low c ≡ false) × (assert_well_formed (d ∷ s) ≡ ok tt)
  unfolding assert_well_formed is_high is_low
  step_other h e = ground arith

  run_high :
      is_high c ≡ true → is_low d ≡ true → assert_well_formed (c ∷ d ∷ s) ≡ assert_well_formed s
  unfolding assert_well_formed is_high is_low
  run_high h l = ground arith

  run_other :
      is_high c ≡ false
      → is_low c ≡ false
      → assert_well_formed (c ∷ d ∷ s) ≡ assert_well_formed (d ∷ s)
  unfolding assert_well_formed is_high is_low
  run_other h l = ground arith

step_last : (c : ℕ) → is_high c ≡ false → assert_well_formed (c ∷ []) ≡ ok tt → is_low c ≡ false
unfolding assert_well_formed is_high is_low
step_last c h e = ground arith

assert_sound : (t : Text) → assert_well_formed t ≡ ok tt → Passes t
assert_sound [] e = whole empty
assert_sound (c ∷ []) e = elim (Bool-cases (is_high c)) [
  | inl h ↦ cut c empty h refl
  | inr h ↦ whole (unit h (step_last c h e) empty)
]
assert_sound (c ∷ d ∷ s) e = elim (Bool-cases (is_high c)) [
  | inl h ↦ let (l, k) = step_high c d s h e in Passes-pair c d h l (assert_sound s k)
  | inr h ↦ let (l, k) = step_other c d s h e in Passes-unit c h l (assert_sound (d ∷ s) k)
]

unit-ok :
    (c : ℕ) (s : Text)
    → is_high c ≡ false
    → is_low c ≡ false
    → assert_well_formed s ≡ ok tt
    → assert_well_formed (c ∷ s) ≡ ok tt
unfolding assert_well_formed is_high is_low
unit-ok c [] h l e = ground arith
unit-ok c (d ∷ s) h l e = run_other c d s h l ∙ e

WellFormed-ok : {t : Text} → WellFormed t → assert_well_formed t ≡ ok tt
unfolding assert_well_formed
WellFormed-ok empty = refl
WellFormed-ok (unit {c} {s} h l w) = unit-ok c s h l (WellFormed-ok w)
WellFormed-ok (pair {c} {d} {s} h l w) = run_high c d s h l ∙ WellFormed-ok w

cut-ok :
    {s : Text} (c : ℕ) → WellFormed s → is_high c ≡ true → assert_well_formed (s ++ c ∷ []) ≡ ok tt
unfolding assert_well_formed is_high is_low
cut-ok c empty h = ground arith
cut-ok c (unit {c = d} {s} k l w) h = unit-ok d (s ++ c ∷ []) k l (cut-ok c w h)
cut-ok c (pair {c = a} {d = b} {s} k l w) h = run_high a b (s ++ c ∷ []) k l ∙ cut-ok c w h

assert_complete : {t : Text} → Passes t → assert_well_formed t ≡ ok tt
assert_complete (whole w) = WellFormed-ok w
assert_complete (cut c w h e) = rw e (cut-ok c w h)

-- `assertWellFormed` accepts a string exactly when it is Unicode text, or Unicode text with one
-- unpaired high surrogate in the last place.
pub assert_well_formed_iff : (t : Text) → (assert_well_formed t ≡ ok tt) ↔ Passes t
assert_well_formed_iff t = (assert_sound t, assert_complete)
