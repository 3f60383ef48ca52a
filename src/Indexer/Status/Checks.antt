-- ===== src/Indexer/Status/Checks.antt =====
-- The values that `normalizeStatus` gives out pass the table's CHECK constraints:
-- apps/indexer/src/lib/db/indexer-fencing.ts, lines 100 to 163.
use xcs.Common.{
  ℕ, min, ◌≡◌, refl, Text, Bool, true, not, ◌&&◌, ◌||◌, Option, none, some, ok, err, leb,
  if◌then◌else◌, Ensures, Ensures-test, Ensures-map, ◌==◌, Ensures-bind, Ensures-if, ◌>>◌,
}
use xcs.Core.Json.{JsonNumber, natural, other, non_finite}
use xcs.Indexer.Status.{
  IndexerStatusState, starting, catching_up, ready, halted, invalid_argument, StatusInput,
  NormalizedStatus, is_halted, is_ready, is_some, uint32_max, nullable_uint32, assert_agreed,
  assert_not_ahead, assert_tips, assert_ready, sanitized_error_code, normalize_error,
  normalize_status, is_ledger_hash, is_error_code, tip_check, agreed_ledger_check, not_ahead_check,
  agreed_not_ahead_check, least_check, error_check, status_checks,
}

-- what a row that is ready needs of its values
abbrev pub ready_values : NormalizedStatus → Bool
ready_values s =
    not (is_ready s.state)
    || (least_check s.primary_source_tip s.secondary_source_tip s.last_agreed_ledger_index
        && is_some s.last_agreed_ledger_hash)

abbrev pub IsNormalized : IndexerStatusState → NormalizedStatus → Type 0
IsNormalized state s = (s.state ≡ state) × (status_checks s ≡ true) × (ready_values s ≡ true)

nullable_uint32-tip_check :
    (v : Option JsonNumber) → Ensures (λ t. tip_check t ≡ true) (nullable_uint32 v)
unfolding nullable_uint32 tip_check
nullable_uint32-tip_check none = refl
nullable_uint32-tip_check (some (natural n)) =
    Ensures-if (λ t. tip_check t ≡ true) (leb n uint32_max) (ok (some n)) (err invalid_argument)
      (λ h. h) (λ h. tt)
nullable_uint32-tip_check (some (other _)) = tt
nullable_uint32-tip_check (some non_finite) = tt

-- the agreed ledger: its CHECK, and both parts or neither
assert_agreed-check :
    (i : Option ℕ) (h : Option Text)
    → tip_check i ≡ true
    → Ensures (λ u. (agreed_ledger_check i h ≡ true) × (is_some h ≡ is_some i)) (assert_agreed i h)
unfolding assert_agreed agreed_ledger_check tip_check
assert_agreed-check none none t = (refl, refl)
assert_agreed-check (some i) (some h) t =
    Ensures-test ((agreed_ledger_check (some i) (some h) ≡ true) × (true ≡ true)) (is_ledger_hash h)
      invalid_argument λ k. (rw (t, k) refl, refl)
assert_agreed-check none (some h) t = tt
assert_agreed-check (some i) none t = tt

assert_not_ahead-check :
    (i t : Option ℕ) → Ensures (λ u. not_ahead_check i t ≡ true) (assert_not_ahead i t)
unfolding assert_not_ahead not_ahead_check
assert_not_ahead-check (some i) (some t) =
    Ensures-test (leb i t ≡ true) (leb i t) invalid_argument λ h. h
assert_not_ahead-check (some i) none = refl
assert_not_ahead-check none t = refl

abbrev tips : IndexerStatusState → Option ℕ → Option ℕ → Option ℕ → Bool
tips state p s i = is_halted state || (not_ahead_check i p && not_ahead_check i s)

assert_tips-check :
    (state : IndexerStatusState) (p s i : Option ℕ)
    → Ensures (λ u. tips state p s i ≡ true) (assert_tips state p s i)
unfolding assert_tips
assert_tips-check state p s i =
    Ensures-if (λ u. tips state p s i ≡ true) (is_halted state) (ok tt)
      (assert_not_ahead i p >> assert_not_ahead i s) (λ h. rw h refl)
      λ h.
        Ensures-bind (λ u. not_ahead_check i p ≡ true) (λ u. tips state p s i ≡ true)
          (assert_not_ahead i p) (λ u. assert_not_ahead i s) (assert_not_ahead-check i p)
          λ u hp.
            Ensures-map (λ v. not_ahead_check i s ≡ true) (λ u. tips state p s i ≡ true)
              (assert_not_ahead i s) (assert_not_ahead-check i s) λ v hs. rw (h, hp, hs) refl

assert_ready-check :
    (p s i : Option ℕ)
    → Ensures (λ u. (least_check p s i ≡ true) × (is_some i ≡ true)) (assert_ready p s i)
unfolding assert_ready least_check
assert_ready-check (some p) (some s) (some i) =
    Ensures-test (((i == min p s) ≡ true) × (true ≡ true)) (i == min p s) invalid_argument
      λ h. (h, refl)
assert_ready-check none s i = tt
assert_ready-check (some p) none i = tt
assert_ready-check (some p) (some s) none = tt

normalize_error-check :
    (state : IndexerStatusState) (code : Text)
    → Ensures (λ e. error_check state e ≡ true) (normalize_error state code)
unfolding normalize_error error_check sanitized_error_code
normalize_error-check halted code =
    Ensures-if (λ e. error_check halted e ≡ true) (is_error_code code) (ok (some code))
      (err invalid_argument) (λ h. h) (λ h. tt)
normalize_error-check starting code = refl
normalize_error-check catching_up code = refl
normalize_error-check ready code = refl

if_ready-check :
    (state : IndexerStatusState) (p s i : Option ℕ)
    → Ensures
        (λ u. (not (is_ready state) || (least_check p s i && is_some i)) ≡ true)
        (if is_ready state then assert_ready p s i else ok tt)
if_ready-check ready p s i =
    Ensures-map (λ u. (least_check p s i ≡ true) × (is_some i ≡ true))
      (λ u. (least_check p s i && is_some i) ≡ true) (assert_ready p s i) (assert_ready-check p s i)
      λ u (a, b). rw (a, b) refl
if_ready-check starting p s i = refl
if_ready-check catching_up p s i = refl
if_ready-check halted p s i = refl

normalized-status_checks :
    (state : IndexerStatusState) (input : StatusInput) (p s i : Option ℕ) (e : Option Text)
    → tip_check p ≡ true
    → tip_check s ≡ true
    → agreed_ledger_check i input.last_agreed_ledger_hash ≡ true
    → tips state p s i ≡ true
    → error_check state e ≡ true
    → status_checks (record {
      state = state;
      primary_source_tip = p;
      secondary_source_tip = s;
      last_agreed_ledger_index = i;
      last_agreed_ledger_hash = input.last_agreed_ledger_hash;
      error_code = e;
    })
      ≡ true
unfolding status_checks agreed_not_ahead_check
normalized-status_checks state input p s i e hp hs ha ht he = rw (hp, hs, ha, ht, he) refl

-- The values that `normalizeStatus` gives out have the state asked for and pass every CHECK constraint
-- of the table that is about the status alone, those on a ready row's values included.
pub normalize_status-IsNormalized :
    (state : IndexerStatusState) (input : StatusInput) (code : Text)
    → Ensures (IsNormalized state) (normalize_status state input code)
unfolding normalize_status
normalize_status-IsNormalized state input code =
    Ensures-bind (λ t. tip_check t ≡ true) (IsNormalized state)
      (nullable_uint32 input.primary_source_tip) _
      (nullable_uint32-tip_check input.primary_source_tip)
      λ p hp.
        Ensures-bind (λ t. tip_check t ≡ true) (IsNormalized state)
          (nullable_uint32 input.secondary_source_tip) _
          (nullable_uint32-tip_check input.secondary_source_tip)
          λ s hs.
            Ensures-bind (λ t. tip_check t ≡ true) (IsNormalized state)
              (nullable_uint32 input.last_agreed_ledger_index) _
              (nullable_uint32-tip_check input.last_agreed_ledger_index)
              λ i hi.
                Ensures-bind
                  (λ u.
                    (agreed_ledger_check i input.last_agreed_ledger_hash ≡ true)
                    × (is_some input.last_agreed_ledger_hash ≡ is_some i))
                  (IsNormalized state) (assert_agreed i input.last_agreed_ledger_hash) _
                  (assert_agreed-check i input.last_agreed_ledger_hash hi)
                  λ u (ha, both).
                    Ensures-bind (λ v. tips state p s i ≡ true) (IsNormalized state)
                      (assert_tips state p s i) _ (assert_tips-check state p s i)
                      λ v ht.
                        Ensures-bind
                          (λ w. (not (is_ready state) || (least_check p s i && is_some i)) ≡ true)
                          (IsNormalized state)
                          (if is_ready state then assert_ready p s i else ok tt) _
                          (if_ready-check state p s i)
                          λ w hr.
                            Ensures-bind (λ e. error_check state e ≡ true) (IsNormalized state)
                              (normalize_error state code) _ (normalize_error-check state code)
                              λ e he. (
                                refl,
                                normalized-status_checks state input p s i e hp hs ha ht he,
                                rw both hr,
                              )
