-- ===== src/Indexer/Fencing/Errors.antt =====
-- The errors of `normalizeStatus`: it throws on its argument only.
use xcs.Common.{
  ℕ, Text, Bool, true, false, Option, none, some, Result, ok, err, leb, if◌then◌else◌, guard, ◌>>=◌,
  Ensures, Outcome,
}
use xcs.Core.Json.{JsonNumber, natural, other, non_finite}
use xcs.Indexer.Status.{
  IndexerStatusState, starting, catching_up, ready, halted, FencingError, invalid_argument,
  StatusInput, is_ready, normalize_status, nullable_uint32, assert_agreed, assert_tips,
  assert_not_ahead, assert_ready, normalize_error, sanitized_error_code, uint32_max, is_ledger_hash,
  is_error_code,
}
use xcs.Indexer.Status.Checks.{IsNormalized, normalize_status-IsNormalized}
use xcs.Indexer.Fencing.Invariant.{Expected}

-- `normalizeStatus` throws on its argument only.
abbrev Throws {ℓ} : {A : Type ℓ} → Result FencingError A → Type 0
Throws (ok a) = Unit
Throws (err e) = Expected e

Throws-bind :
    {A B : Type 0} (m : Result FencingError A) (f : A → Result FencingError B)
    → Throws m
    → ((a : A) → Throws (f a))
    → Throws (m >>= f)
Throws-bind (ok a) f h k = k a
Throws-bind (err e) f h k = h

Throws-guard : (t : Bool) → Throws (guard t invalid_argument)
Throws-guard true = tt
Throws-guard false = tt

Throws-if : {A : Type 0} (t : Bool) (a : A) → Throws (if t then ok a else err invalid_argument)
Throws-if true a = tt
Throws-if false a = tt

nullable_uint32-Throws : (v : Option JsonNumber) → Throws (nullable_uint32 v)
unfolding nullable_uint32
nullable_uint32-Throws none = tt
nullable_uint32-Throws (some (natural n)) = Throws-if (leb n uint32_max) (some n)
nullable_uint32-Throws (some (other _)) = tt
nullable_uint32-Throws (some non_finite) = tt

assert_agreed-Throws : (i : Option ℕ) (h : Option Text) → Throws (assert_agreed i h)
unfolding assert_agreed
assert_agreed-Throws none none = tt
assert_agreed-Throws (some i) (some h) = Throws-guard (is_ledger_hash h)
assert_agreed-Throws none (some h) = tt
assert_agreed-Throws (some i) none = tt

assert_not_ahead-Throws : (i t : Option ℕ) → Throws (assert_not_ahead i t)
unfolding assert_not_ahead
assert_not_ahead-Throws (some i) (some t) = Throws-guard (leb i t)
assert_not_ahead-Throws (some i) none = tt
assert_not_ahead-Throws none t = tt

assert_tips-Throws :
    (state : IndexerStatusState) (p s i : Option ℕ) → Throws (assert_tips state p s i)
unfolding assert_tips
assert_tips-Throws halted p s i = tt
assert_tips-Throws starting p s i =
    Throws-bind (assert_not_ahead i p) _ (assert_not_ahead-Throws i p)
      λ u. assert_not_ahead-Throws i s
assert_tips-Throws catching_up p s i =
    Throws-bind (assert_not_ahead i p) _ (assert_not_ahead-Throws i p)
      λ u. assert_not_ahead-Throws i s
assert_tips-Throws ready p s i =
    Throws-bind (assert_not_ahead i p) _ (assert_not_ahead-Throws i p)
      λ u. assert_not_ahead-Throws i s

assert_ready-Throws : (p s i : Option ℕ) → Throws (assert_ready p s i)
unfolding assert_ready
assert_ready-Throws (some p) (some s) (some i) = Throws-guard _
assert_ready-Throws none s i = tt
assert_ready-Throws (some p) none i = tt
assert_ready-Throws (some p) (some s) none = tt

if_ready-Throws :
    (state : IndexerStatusState) (p s i : Option ℕ)
    → Throws (if is_ready state then assert_ready p s i else ok tt)
if_ready-Throws ready p s i = assert_ready-Throws p s i
if_ready-Throws starting p s i = tt
if_ready-Throws catching_up p s i = tt
if_ready-Throws halted p s i = tt

normalize_error-Throws :
    (state : IndexerStatusState) (code : Text) → Throws (normalize_error state code)
unfolding normalize_error sanitized_error_code
normalize_error-Throws halted code = Throws-if (is_error_code code) (some code)
normalize_error-Throws starting code = tt
normalize_error-Throws catching_up code = tt
normalize_error-Throws ready code = tt

normalize_status-Throws :
    (state : IndexerStatusState) (input : StatusInput) (code : Text)
    → Throws (normalize_status state input code)
unfolding normalize_status
normalize_status-Throws state input code =
    Throws-bind (nullable_uint32 input.primary_source_tip) _
      (nullable_uint32-Throws input.primary_source_tip)
      λ p.
        Throws-bind (nullable_uint32 input.secondary_source_tip) _
          (nullable_uint32-Throws input.secondary_source_tip)
          λ s.
            Throws-bind (nullable_uint32 input.last_agreed_ledger_index) _
              (nullable_uint32-Throws input.last_agreed_ledger_index)
              λ i.
                Throws-bind (assert_agreed i input.last_agreed_ledger_hash) _
                  (assert_agreed-Throws i _)
                  λ u. Throws-bind (assert_tips state p s i) _ (assert_tips-Throws state p s i) λ v.
                    Throws-bind (if is_ready state then assert_ready p s i else ok tt) _
                      (if_ready-Throws state p s i)
                      λ w.
                        Throws-bind (normalize_error state code) _
                          (normalize_error-Throws state code) λ e. tt

Outcome-of :
    {A : Type 0} (P : A → Type 0) (r : Result FencingError A)
    → Ensures P r
    → Throws r
    → Outcome P Expected r
Outcome-of P (ok a) h k = h
Outcome-of P (err e) h k = k

pub normalize_status-Outcome :
    (state : IndexerStatusState) (input : StatusInput) (code : Text)
    → Outcome (IsNormalized state) Expected (normalize_status state input code)
normalize_status-Outcome state input code =
    Outcome-of (IsNormalized state) (normalize_status state input code)
      (normalize_status-IsNormalized state input code) (normalize_status-Throws state input code)
