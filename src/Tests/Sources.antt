-- ===== src/Tests/Sources.antt =====
-- Two sources that agree on a ledger, and their tips.
use xcs.Common.{ℕ, text_eq, ◌≡◌, ◌↔◌, refl, min, true, Bool, some, Result, ok, err, codes}
use xcs.Indexer.Types.{ValidatedLedger}
use xcs.Indexer.Status.{is_error_code}
use xcs.Indexer.Sources.{
  SourceFailure, LedgerSourcePreflight, preflight, other_failure, get_ledger,
  get_validated_ledger_tips, tips_of, source_tip_regression, source_unavailable, source_error_code,
  thrown_with,
}
use xcs.Indexer.Sources.Agreement.{
  NotBefore, Agree, preflight_iff, get_validated_ledger_tips_iff, source_error_code-is_error_code,
}
use xcs.Tests.Repository.{main_profile, first_ledger}

-- one and the same field is compared
abbrev same : ValidatedLedger → ValidatedLedger → Bool
same a b = text_eq a.ledger_hash b.ledger_hash

abbrev answer : ℕ → LedgerSourcePreflight
answer tip = record {
  network_id = main_profile.network_id;
  activation_ledger = first_ledger;
  effective_tip = tip;
}

both_agree :
    preflight same main_profile (some (tips_of 12 10)) (ok (answer 13)) (ok (answer 11))
    ≡ ok (first_ledger, tips_of 13 11)
unfolding preflight text_eq
both_agree = refl

preflight_iff_example :
    (preflight same main_profile (some (tips_of 12 10)) (ok (answer 13)) (ok (answer 11))
      ≡ ok (first_ledger, tips_of 13 11))
    ↔ Agree same main_profile
        (some (tips_of 12 10))
        (ok (answer 13))
        (ok (answer 11))
        first_ledger
        (tips_of 13 11)
preflight_iff_example =
    preflight_iff same main_profile (some (tips_of 12 10)) (ok (answer 13)) (ok (answer 11))
      first_ledger (tips_of 13 11)

a_source_is_down : get_ledger same (ok first_ledger) (err other_failure) ≡ err source_unavailable
unfolding get_ledger
a_source_is_down = refl

a_tip_goes_back :
    get_validated_ledger_tips (some (tips_of 12 10)) (ok 13) (ok 9) ≡ err source_tip_regression
unfolding get_validated_ledger_tips
a_tip_goes_back = refl

get_validated_ledger_tips_iff_example :
    (get_validated_ledger_tips (some (tips_of 12 10)) (ok 13) (ok 11) ≡ ok (tips_of 13 11)) ↔ (
      (◌≡◌ {A = Result SourceFailure ℕ} (ok 13) (ok 13))
      × (◌≡◌ {A = Result SourceFailure ℕ} (ok 11) (ok 11))
      × (11 ≡ min 13 11)
      × NotBefore (some (tips_of 12 10)) (tips_of 13 11))
get_validated_ledger_tips_iff_example =
    get_validated_ledger_tips_iff (some (tips_of 12 10)) (ok 13) (ok 11) (tips_of 13 11)

source_error_code-is_error_code_example :
    is_error_code (source_error_code (thrown_with (some (codes "ECONNRESET")))) ≡ true
source_error_code-is_error_code_example =
    source_error_code-is_error_code (thrown_with (some (codes "ECONNRESET")))
