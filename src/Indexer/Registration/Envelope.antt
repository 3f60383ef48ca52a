-- ===== src/Indexer/Registration/Envelope.antt =====
-- apps/indexer/src/registration.ts: which transactions carry a registration, lines 20 to 117.
use mathlib.Core.Path.{subst}
use xcs.Common.{
  ℕ, ◌/◌, ◌%◌, Text, codes, Bool, true, false, not, ◌&&◌, ◌||◌, List, [], ◌∷◌, Option, none, some,
  ◌≡◌, ◌≢◌, ◌⊎◌, inl, inr, refl, ap, ◌∙◌, text_eq, text_eq_iff, length, ◌==◌, Bool-cases, and_true,
  arith,
}
use xcs.Core.Json.{
  JsonValue, natural, other, non_finite, number, string, null, bool, array, object, Items, nil,
  cons, get,
}
use xcs.Core.Network.{NetworkProfile}
use xcs.Indexer.Types.{Fields, LedgerTransaction}
use xcs.Indexer.Mutations.{is_text}
use xcs.Indexer.Registration.{
  RegistrationReason, candidate, refused, absent, has_exact_registration_amount, is_partial_payment,
  is_exact_payment, text_or_empty, array_items, is_that, memo_fields, memo_text, xcs_memos, of_data,
  read_memo, envelope_of, extract_registration_envelope,
}

-- One drop, as `Amount` or as `DeliverMax`, and no other amount beside it.
abbrev pub OneDrop : Option JsonValue → Option JsonValue → Type 0
OneDrop amount deliver_max =
    ((amount ≡ some (string (codes "1")))
      × ((deliver_max ≡ none) ⊎ (deliver_max ≡ some (string (codes "1")))))
    ⊎ ((amount ≡ none) × (deliver_max ≡ some (string (codes "1"))))

-- Bit 17 of the flags, tfPartialPayment, is not set.
abbrev pub NotPartial : (ℕ → ℕ) → Option JsonValue → Type 0
NotPartial low_bits (some (number (natural flags))) = flags / 131072 % 2 ≢ 1
NotPartial low_bits (some (number (other k))) = low_bits k / 131072 % 2 ≢ 1
NotPartial low_bits _ = Unit

abbrev pub IsXcsMemo : JsonValue → Type 0
IsXcsMemo entry =
    memo_text (codes "MemoType") (memo_fields (some entry)) ≡ some (codes "xcs:schema_register")

abbrev pub NoXcsMemo : Items → Type 0
NoXcsMemo nil = Unit
NoXcsMemo (cons entry rest) = (IsXcsMemo entry → ⊥) × NoXcsMemo rest

-- One entry only is a memo of XCS, with these fields.
abbrev pub OnlyXcsMemo : Items → Option Fields → Type 0
OnlyXcsMemo nil memo = ⊥
OnlyXcsMemo (cons entry rest) memo =
    (IsXcsMemo entry × (memo_fields (some entry) ≡ memo) × NoXcsMemo rest)
    ⊎ ((IsXcsMemo entry → ⊥) × OnlyXcsMemo rest memo)

-- A successful, exact and direct payment of one drop to the registry, which has one memo of XCS, with
-- JSON text in it.
pub record IsEnvelope (low_bits : ℕ → ℕ) (profile : NetworkProfile)
    (transaction : LedgerTransaction) (publisher json_text : Text) : Type 0 where
  pub payment :
      get (codes "TransactionType") transaction.transaction ≡ some (string (codes "Payment"))
  pub succeeded :
      get (codes "TransactionResult") transaction.metadata ≡ some (string (codes "tesSUCCESS"))
  pub destination :
      get (codes "Destination") transaction.transaction ≡ some (string profile.registry_address)
  pub amount :
      OneDrop
        (get (codes "Amount") transaction.transaction)
        (get (codes "DeliverMax") transaction.transaction)
  pub no_paths : get (codes "Paths") transaction.transaction ≡ none
  pub no_send_max : get (codes "SendMax") transaction.transaction ≡ none
  pub no_deliver_min : get (codes "DeliverMin") transaction.transaction ≡ none
  pub not_partial : NotPartial low_bits (get (codes "Flags") transaction.transaction)
  pub account : get (codes "Account") transaction.transaction ≡ some (string publisher)
  pub named : publisher ≢ []
  pub memo : Option Fields
  pub only_memo : OnlyXcsMemo (array_items (get (codes "Memos") transaction.transaction)) memo
  pub format : memo_text (codes "MemoFormat") memo ≡ some (codes "application/json")
  pub text : memo_text (codes "MemoData") memo ≡ some json_text

is_text_sound : (o : Option JsonValue) (t : Text) → is_text o t ≡ true → o ≡ some (string t)
unfolding is_text
is_text_sound (some (string s)) t h = ap (λ x. some (string x)) ((text_eq_iff s t).0 h)
is_text_sound none t h = cc
is_text_sound (some null) t h = cc
is_text_sound (some (bool b)) t h = cc
is_text_sound (some (number n)) t h = cc
is_text_sound (some (array xs)) t h = cc
is_text_sound (some (object ms)) t h = cc

is_that_sound : (o : Option Text) (t : Text) → is_that o t ≡ true → o ≡ some t
is_that_sound none t h = cc
is_that_sound (some s) t h = ap (λ x. some x) ((text_eq_iff s t).0 h)

is_that-not : (o : Option Text) (t : Text) → is_that o t ≡ false → o ≡ some t → ⊥
is_that-not none t h e = cc
is_that-not (some s) t h e =
    let same : s ≡ t = cc in let k : text_eq s t ≡ true = (text_eq_iff s t).1 same in cc

absent_sound : (o : Option JsonValue) → absent o ≡ true → o ≡ none
absent_sound none h = refl
absent_sound (some v) h = cc

drop_sound :
    (a d : Option JsonValue)
    → (not (absent a && absent d)
        && ((absent a || is_text a (codes "1")) && (absent d || is_text d (codes "1"))))
      ≡ true
    → OneDrop a d
drop_sound none none h = cc
drop_sound none (some d) h = inr (refl, is_text_sound (some d) (codes "1") h)
drop_sound (some a) none h = inl (is_text_sound (some a) (codes "1") (and_true _ _ h).0, inl refl)
drop_sound (some a) (some d) h =
    let (x, y) = and_true _ _ h in
    inl (is_text_sound (some a) (codes "1") x, inr (is_text_sound (some d) (codes "1") y))

differ : (m : ℕ) → not (m == 1) ≡ true → m ≢ 1
differ m h = ground arith

partial_sound :
    (low_bits : ℕ → ℕ) (flags : Option JsonValue)
    → not (is_partial_payment low_bits flags) ≡ true
    → NotPartial low_bits flags
unfolding is_partial_payment
partial_sound low_bits (some (number (natural n))) h = differ (n / 131072 % 2) h
partial_sound low_bits (some (number (other k))) h = differ (low_bits k / 131072 % 2) h
partial_sound low_bits (some (number non_finite)) h = tt
partial_sound low_bits none h = tt
partial_sound low_bits (some null) h = tt
partial_sound low_bits (some (bool b)) h = tt
partial_sound low_bits (some (string s)) h = tt
partial_sound low_bits (some (array xs)) h = tt
partial_sound low_bits (some (object ms)) h = tt

none_sound : (entries : Items) → xcs_memos entries ≡ [] → NoXcsMemo entries
unfolding xcs_memos
none_sound nil h = tt
none_sound (cons entry rest) h =
    let type = memo_text (codes "MemoType") (memo_fields (some entry)) in
    elim (Bool-cases (is_that type (codes "xcs:schema_register"))) [
      | inl e ↦ cons_nil (rw e at h)
      | inr e ↦ (is_that-not type (codes "xcs:schema_register") e, none_sound rest (rw e at h))
    ]
  where
    cons_nil :
        {m : Option Fields} {ms : List (Option Fields)}
        → (m ∷ ms) ≡ []
        → (IsXcsMemo entry → ⊥) × NoXcsMemo rest
    cons_nil h = cc

one_sound :
    (entries : Items) (memo : Option Fields)
    → xcs_memos entries ≡ (memo ∷ [])
    → OnlyXcsMemo entries memo
unfolding xcs_memos
one_sound nil memo h = cc
one_sound (cons entry rest) memo h =
    let type = memo_text (codes "MemoType") (memo_fields (some entry)) in
    elim (Bool-cases (is_that type (codes "xcs:schema_register"))) [
      | inl e ↦
          let (head, tail) = parts (rw e at h) in
          inl (is_that_sound type (codes "xcs:schema_register") e, head, none_sound rest tail)
      | inr e ↦
          inr (is_that-not type (codes "xcs:schema_register") e, one_sound rest memo (rw e at h))
    ]
  where
    parts :
        {m n : Option Fields} {ms : List (Option Fields)}
        → (m ∷ ms) ≡ (n ∷ [])
        → (m ≡ n) × (ms ≡ [])
    parts h = (cc, cc)

account_sound :
    (o : Option JsonValue)
    → (length (text_or_empty o) == 0) ≡ false
    → (o ≡ some (string (text_or_empty o))) × (text_or_empty o ≢ [])
account_sound none h = cc
account_sound (some null) h = cc
account_sound (some (bool b)) h = cc
account_sound (some (number n)) h = cc
account_sound (some (array xs)) h = cc
account_sound (some (object ms)) h = cc
account_sound (some (string [])) h = cc
account_sound (some (string (c ∷ cs))) h = (refl, λ e. cc)

-- the memo of a candidate
record IsRead (publisher json_text : Text) (account : Text) (memos : List (Option Fields))
    : Type 0 where
  memo : Option Fields
  only : memos ≡ (memo ∷ [])
  same : account ≡ publisher
  format : memo_text (codes "MemoFormat") memo ≡ some (codes "application/json")
  text : memo_text (codes "MemoData") memo ≡ some json_text

data_sound :
    (account publisher json_text : Text) (o : Option Text)
    → of_data account o ≡ candidate publisher json_text
    → (account ≡ publisher) × (o ≡ some json_text)
data_sound account publisher json_text none h = cc
data_sound account publisher json_text (some t) h = (cc, cc)

IsRead-sound :
    (account publisher json_text : Text) (memos : List (Option Fields))
    → read_memo account memos ≡ candidate publisher json_text
    → IsRead publisher json_text account memos
unfolding read_memo
IsRead-sound account publisher json_text [] h = cc
IsRead-sound account publisher json_text (memo ∷ second ∷ memos) h = cc
IsRead-sound account publisher json_text (memo ∷ []) h =
    let format = memo_text (codes "MemoFormat") memo in
    elim (Bool-cases (is_that format (codes "application/json"))) [
      | inl e ↦
          let (same, text) =
            data_sound account publisher json_text (memo_text (codes "MemoData") memo)
              (rw e at h) in
          record {
            memo = memo;
            only = refl;
            same = same;
            format = is_that_sound format (codes "application/json") e;
            text = text;
          }
      | inr e ↦ refused_clash (rw e at h)
    ]
  where
    refused_clash :
        {reason : RegistrationReason}
        → refused account reason ≡ candidate publisher json_text
        → IsRead publisher json_text account (memo ∷ [])
    refused_clash h = cc

envelope_sound :
    (exact : Bool) (account publisher json_text : Text) (memos : List (Option Fields))
    → envelope_of exact account memos ≡ candidate publisher json_text
    → (exact ≡ true) × ((length account == 0) ≡ false) × IsRead publisher json_text account memos
unfolding envelope_of
envelope_sound exact account publisher json_text [] h = cc
envelope_sound false account publisher json_text (memo ∷ memos) h = cc
envelope_sound true account publisher json_text (memo ∷ memos) h =
    elim (Bool-cases (length account == 0)) [
      | inl e ↦ clash (rw e at h)
      | inr e ↦ (refl, e, IsRead-sound account publisher json_text (memo ∷ memos) (rw e at h))
    ]
  where
    clash :
        {reason : RegistrationReason}
        → refused account reason ≡ candidate publisher json_text
        → (true ≡ true)
          × ((length account == 0) ≡ false)
          × IsRead publisher json_text account (memo ∷ memos)
    clash h = cc

-- A candidate is the envelope of an exact payment.
pub extract-IsEnvelope :
    (low_bits : ℕ → ℕ) (profile : NetworkProfile) (transaction : LedgerTransaction)
    (publisher json_text : Text)
    → extract_registration_envelope low_bits transaction profile ≡ candidate publisher json_text
    → IsEnvelope low_bits profile transaction publisher json_text
unfolding extract_registration_envelope is_exact_payment has_exact_registration_amount
extract-IsEnvelope low_bits profile transaction publisher json_text h =
    let tx = transaction.transaction in
    let sender = get (codes "Account") tx in
    let (exact, nonempty, read) =
      envelope_sound (is_exact_payment low_bits profile transaction) (text_or_empty sender)
        publisher json_text (xcs_memos (array_items (get (codes "Memos") tx))) h in
    let (a, h1) = and_true (is_text (get (codes "TransactionType") tx) (codes "Payment")) _ exact in
    let (b, h2) =
      and_true (is_text (get (codes "TransactionResult") transaction.metadata) (codes "tesSUCCESS"))
        _ h1 in
    let (c, h3) = and_true (is_text (get (codes "Destination") tx) profile.registry_address) _ h2 in
    let (d, h4) = and_true (has_exact_registration_amount tx (codes "1")) _ h3 in
    let (e, h5) = and_true (absent (get (codes "Paths") tx)) _ h4 in
    let (f, h6) = and_true (absent (get (codes "SendMax") tx)) _ h5 in
    let (g, k) = and_true (absent (get (codes "DeliverMin") tx)) _ h6 in
    let (from, named) = account_sound sender nonempty in
    record {
      payment = is_text_sound (get (codes "TransactionType") tx) (codes "Payment") a;
      succeeded =
          is_text_sound (get (codes "TransactionResult") transaction.metadata) (codes "tesSUCCESS")
            b;
      destination = is_text_sound (get (codes "Destination") tx) profile.registry_address c;
      amount = drop_sound (get (codes "Amount") tx) (get (codes "DeliverMax") tx) d;
      no_paths = absent_sound (get (codes "Paths") tx) e;
      no_send_max = absent_sound (get (codes "SendMax") tx) f;
      no_deliver_min = absent_sound (get (codes "DeliverMin") tx) g;
      not_partial = partial_sound low_bits (get (codes "Flags") tx) k;
      account = from ∙ ap (λ t. some (string t)) read.same;
      named = subst (λ t. t ≢ []) read.same named;
      memo = read.memo;
      only_memo = one_sound (array_items (get (codes "Memos") tx)) read.memo read.only;
      format = read.format;
      text = read.text;
    }
