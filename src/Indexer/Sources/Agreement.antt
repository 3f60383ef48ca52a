-- ===== src/Indexer/Sources/Agreement.antt =====
-- apps/indexer/src/quorum-ledger-source.ts and source-errors.ts: what is given out, and under which
-- codes failures are stored.
use mathlib.Core.Path.{subst}
use xcs.Common.{
  ◌==◌, ◌&&◌, ap, ◌∙◌, ℕ, min, ◌≤◌, ◌≡◌, ◌↔◌, refl, sym, Text, codes, Bool, true, not, ◌||◌, List,
  [], ◌∷◌, Option, none, some, Result, ok, err, ltb, text_eq, text_eq_iff, guard, any, all, arith,
  Bool-cases, inl, inr, >>=-eq-ok, guard-eq-ok, and_true,
}
use xcs.Core.Network.{NetworkProfile}
use xcs.Indexer.Types.{ValidatedLedger}
use xcs.Indexer.Status.{is_error_code}
use xcs.Indexer.Sources.{
  XrplSourceErrorCode, SourceFailure, LedgerSourceTips, both, assert_tips_do_not_regress, tips_of,
  get_validated_ledger_tips, assert_same_ledger, get_ledger, ThrownValue, xrpl_source_error,
  LedgerSourcePreflight, preflight, thrown_with, stable_indexer_error_codes, code_text,
  is_stable_code, source_error_code, source_response_invalid, source_network_mismatch,
  source_history_incomplete, source_activation_mismatch, source_amendment_unavailable,
  source_registry_not_blackholed, source_registry_not_receivable, source_divergence,
  source_tip_regression, source_unavailable,
}

both_iff :
    {A : Type 0} (r s : Result SourceFailure A) (p q : A)
    → (both r s ≡ ok (p, q)) ↔ ((r ≡ ok p) × (s ≡ ok q))
unfolding both
both_iff (err e) s p q = (λ h. cc, λ (h, k). cc)
both_iff (ok a) (err e) p q = (λ h. cc, λ (h, k). cc)
both_iff (ok a) (ok b) p q = (λ h. (cc, cc), λ (h, k). cc)

-- The quorum gives out the primary source's ledger, exactly if the secondary has one for which
-- `isDeepStrictEqual` answers true.
get_ledger_iff :
    (same : ValidatedLedger → ValidatedLedger → Bool)
    (primary secondary : Result SourceFailure ValidatedLedger) (ledger : ValidatedLedger)
    → (get_ledger same primary secondary ≡ ok ledger) ↔ (
        (primary ≡ ok ledger)
        × ((s : ValidatedLedger) × (secondary ≡ ok s) × (same ledger s ≡ true)))
unfolding get_ledger assert_same_ledger
get_ledger_iff same primary secondary ledger = (
  λ h.
      let ((p, s), got, rest) = >>=-eq-ok (both primary secondary) _ h in
      let (first, second) = (both_iff primary secondary p s).0 got in
      let (equal, last) = guard-eq-ok (same p s) _ _ rest in
      let e : p ≡ ledger = cc in
      (first ∙ ap (λ l. ok l) e, (s, second, subst (λ l. same l s ≡ true) e equal)),
  λ (first, (s, second, equal)).
      rw ((both_iff primary secondary ledger s).1 (first, second), equal) refl,
)

-- the tips do not go back
abbrev pub NotBefore : Option LedgerSourceTips → LedgerSourceTips → Type 0
NotBefore none current = Unit
NotBefore (some previous) current =
    (previous.primary ≤ current.primary) × (previous.secondary ≤ current.secondary)

regress_iff :
    (previous : Option LedgerSourceTips) (current : LedgerSourceTips)
    → (assert_tips_do_not_regress previous current ≡ ok tt) ↔ NotBefore previous current
unfolding assert_tips_do_not_regress
regress_iff none current = (λ h. tt, λ h. refl)
regress_iff (some previous) current = (
  λ h. go previous.primary previous.secondary current.primary current.secondary h,
  λ (a, b). back previous.primary previous.secondary current.primary current.secondary a b,
)
  where
    go :
        (p s q t : ℕ)
        → guard (not (ltb q p || ltb t s)) source_tip_regression ≡ ok tt
        → (p ≤ q) × (s ≤ t)
    go p s q t h = ground arith

    back :
        (p s q t : ℕ)
        → p ≤ q
        → s ≤ t
        → guard (not (ltb q p || ltb t s)) source_tip_regression ≡ ok tt
    back p s q t h k = ground arith

made :
    (p s : ℕ) (t : LedgerSourceTips)
    → min p s ≡ t.effective
    → p ≡ t.primary
    → s ≡ t.secondary
    → tips_of p s ≡ t
made p s t h k l = cc

-- The quorum gives out tips exactly if both sources answer and neither tip is below the last one that
-- was given out; the effective tip is then the smaller of the two.
pub get_validated_ledger_tips_iff :
    (last_tips : Option LedgerSourceTips) (primary secondary : Result SourceFailure ℕ)
    (tips : LedgerSourceTips)
    → (get_validated_ledger_tips last_tips primary secondary ≡ ok tips) ↔ (
        (primary ≡ ok tips.primary)
        × (secondary ≡ ok tips.secondary)
        × (tips.effective ≡ min tips.primary tips.secondary)
        × NotBefore last_tips tips)
unfolding get_validated_ledger_tips
get_validated_ledger_tips_iff last_tips primary secondary tips = (
  λ h.
      let ((p, s), got, rest) = >>=-eq-ok (both primary secondary) _ h in
      let (first, second) = (both_iff primary secondary p s).0 got in
      let (done, kept, last) =
        >>=-eq-ok (assert_tips_do_not_regress last_tips (tips_of p s)) _ rest in
      let e : tips_of p s ≡ tips = cc in
      (
        first ∙ ap (λ t. ok t.primary) e,
        second ∙ ap (λ t. ok t.secondary) e,
        sym (ap (λ t. t.effective) e) ∙ ap (λ t. min t.primary t.secondary) e,
        subst (NotBefore last_tips) e ((regress_iff last_tips (tips_of p s)).0 kept),
      ),
  λ (first, second, effective, kept).
      let e : tips_of tips.primary tips.secondary ≡ tips =
        made tips.primary tips.secondary tips (sym effective) refl refl in
      rw
        (
          (both_iff primary secondary tips.primary tips.secondary).1 (first, second),
          (regress_iff last_tips (tips_of tips.primary tips.secondary)).1
              (subst (NotBefore last_tips) (sym e) kept),
        )
        (ap (λ t. ok t) e),
)

-- What the quorum's preflight is given out for: what each source has answered, and how the answers
-- agree. `same` is `isDeepStrictEqual`.
pub record Agree (same : ValidatedLedger → ValidatedLedger → Bool) (profile : NetworkProfile)
    (last_tips : Option LedgerSourceTips)
    (primary secondary : Result SourceFailure LedgerSourcePreflight) (ledger : ValidatedLedger)
    (tips : LedgerSourceTips) : Type 0 where
  pub first : LedgerSourcePreflight
  pub second : LedgerSourcePreflight
  pub first_answer : primary ≡ ok first
  pub second_answer : secondary ≡ ok second
  pub first_network : first.network_id ≡ profile.network_id
  pub second_network : second.network_id ≡ profile.network_id
  pub equal : same first.activation_ledger second.activation_ledger ≡ true
  pub primarys : ledger ≡ first.activation_ledger
  pub first_tip : tips.primary ≡ first.effective_tip
  pub second_tip : tips.secondary ≡ second.effective_tip
  pub smaller : tips.effective ≡ min first.effective_tip second.effective_tip
  pub kept : NotBefore last_tips tips

networks_iff : (p s n : ℕ) → (p == n && (s == n && p == s) ≡ true) ↔ ((p ≡ n) × (s ≡ n))
networks_iff p s n = (λ h. ground arith, λ (a, b). ground arith)

-- The quorum's preflight gives out a ledger and tips exactly if both sources answer, are on the
-- profile's network and have activation ledgers for which `isDeepStrictEqual` answers true, and neither
-- tip is below the last one that was given out. The ledger is then the primary's, and the tips are the
-- two sources' and the smaller of them.
pub preflight_iff :
    (same : ValidatedLedger → ValidatedLedger → Bool) (profile : NetworkProfile)
    (last_tips : Option LedgerSourceTips)
    (primary secondary : Result SourceFailure LedgerSourcePreflight) (ledger : ValidatedLedger)
    (tips : LedgerSourceTips)
    → (preflight same profile last_tips primary secondary ≡ ok (ledger, tips))
      ↔ Agree same profile last_tips primary secondary ledger tips
unfolding preflight assert_same_ledger
preflight_iff same profile last_tips primary secondary ledger tips = (
  λ h.
      let ((p, s), got, rest) = >>=-eq-ok (both primary secondary) _ h in
      let (first, second) = (both_iff primary secondary p s).0 got in
      let (ids, rest2) = guard-eq-ok _ _ _ rest in
      let (on_first, on_second) =
        (networks_iff p.network_id s.network_id profile.network_id).0 ids in
      let (equal, rest3) = guard-eq-ok (same p.activation_ledger s.activation_ledger) _ _ rest2 in
      let now = tips_of p.effective_tip s.effective_tip in
      let (done, not_before, last) = >>=-eq-ok (assert_tips_do_not_regress last_tips now) _ rest3 in
      let e : now ≡ tips = cc in
      record {
        first = p;
        second = s;
        first_answer = first;
        second_answer = second;
        first_network = on_first;
        second_network = on_second;
        equal = equal;
        primarys = cc;
        first_tip = sym (ap (λ t. t.primary) e);
        second_tip = sym (ap (λ t. t.secondary) e);
        smaller = sym (ap (λ t. t.effective) e);
        kept = subst (NotBefore last_tips) e ((regress_iff last_tips now).0 not_before);
      },
  λ a.
      let p = a.first in
      let s = a.second in
      let e : tips_of p.effective_tip s.effective_tip ≡ tips =
        made p.effective_tip s.effective_tip tips (sym a.smaller) (sym a.first_tip)
          (sym a.second_tip) in
      rw
        (
          (both_iff primary secondary p s).1 (a.first_answer, a.second_answer),
          (networks_iff p.network_id s.network_id profile.network_id).1
              (a.first_network, a.second_network),
          a.equal,
          (regress_iff last_tips (tips_of p.effective_tip s.effective_tip)).1
              (subst (NotBefore last_tips) (sym e) a.kept),
        )
        (ap (λ l. ok (l, tips_of p.effective_tip s.effective_tip)) (sym a.primarys)
          ∙ ap (λ t. ok (ledger, t)) e),
)

any_code :
    (p : Text → Bool) (known : List Text) (code : Text)
    → all p known ≡ true
    → any (λ c. text_eq c code) known ≡ true
    → p code ≡ true
any_code p [] code h k = cc
any_code p (c ∷ known) code h k =
    let (mine, rest) = and_true (p c) _ h in
    elim (Bool-cases (text_eq c code)) [
      | inl e ↦ let same : c ≡ code = (text_eq_iff c code).0 e in rw (sym same) mine
      | inr e ↦ any_code p known code rest (rw e at k)
    ]

code_text-is_error_code : (code : XrplSourceErrorCode) → is_error_code (code_text code) ≡ true
unfolding code_text is_error_code
code_text-is_error_code source_response_invalid = refl
code_text-is_error_code source_network_mismatch = refl
code_text-is_error_code source_history_incomplete = refl
code_text-is_error_code source_activation_mismatch = refl
code_text-is_error_code source_amendment_unavailable = refl
code_text-is_error_code source_registry_not_blackholed = refl
code_text-is_error_code source_registry_not_receivable = refl
code_text-is_error_code source_divergence = refl
code_text-is_error_code source_tip_regression = refl
code_text-is_error_code source_unavailable = refl

stable_codes : all is_error_code stable_indexer_error_codes ≡ true
unfolding is_error_code
stable_codes = refl

failed_code : is_error_code (codes "INDEXER_FAILED") ≡ true
unfolding is_error_code
failed_code = refl

-- Whatever was thrown, the code under which the worker halts is a code that `haltIndexer` accepts.
pub source_error_code-is_error_code :
    (thrown : ThrownValue) → is_error_code (source_error_code thrown) ≡ true
unfolding source_error_code is_stable_code
source_error_code-is_error_code (xrpl_source_error code) = code_text-is_error_code code
source_error_code-is_error_code (thrown_with none) = failed_code
source_error_code-is_error_code (thrown_with (some code)) =
    elim (Bool-cases (is_stable_code code)) [
      | inl e ↦ rw e (any_code is_error_code stable_indexer_error_codes code stable_codes e)
      | inr e ↦ rw e failed_code
    ]
