-- ===== src/Indexer/Registration.antt =====
-- apps/indexer/src/registration.ts: schema registrations in the memos of payments.
pub mod Envelope
pub mod Accepted
pub mod Utf8
use mathlib.Core.Option
use xcs.Common.{
  ℕ, suc, ◌+◌, ◌-◌, ◌*◌, ◌/◌, ◌%◌, Text, codes, Bool, true, false, not, ◌&&◌, ◌||◌, List, [], ◌∷◌,
  ◌++◌, Option, none, some, Result, ok, err, leb, ltb, ◌==◌, text_eq, if◌then◌else◌, guard, ◌>>=◌,
  ◌>>◌, all, length, is_hex, is_digit, is_lower,
}
use xcs.Core.Errors.{XcsErrorCode, Checked}
use xcs.Core.Json.{
  JsonValue, JsonNumber, natural, other, non_finite, number, string, object, array, Items, nil,
  cons, entries, get,
}
use xcs.Core.Schema.{SchemaDefinition, parse_schema}
use xcs.Core.Schema.RoundTrip.{schema_value}
use xcs.Core.Libraries.{Libraries}
use xcs.Core.Network.{NetworkProfile}
use xcs.Core.Resolution.{RegisteredSchema, ResolvedSchema, SchemaResolutionContext, resolve_schema}
use xcs.Core.Documents.{
  DocumentLibraries, SchemaUidInput, parse_json, canonical_json, compute_schema_uid,
}
use xcs.Indexer.Types.{Fields, LedgerTransaction}
use xcs.Indexer.Mutations.{record_of, is_text}

-- `TextDecoder` of UTF-8 with `fatal`, by its bytes: how many bytes the character still needs, the
-- bounds of the next one, and the code point so far.
pub record Utf8State : Type 0 where
  pub needed : ℕ
  pub lower : ℕ
  pub upper : ℕ
  pub point : ℕ

abbrev pub between : ℕ → ℕ → ℕ → Bool
between low high b = leb low b && leb b high

abbrev pub at_boundary : Utf8State
at_boundary = record { needed = 0; lower = 0x80; upper = 0xbf; point = 0 }

abbrev pub needs : ℕ → ℕ → ℕ → ℕ → Utf8State
needs count low high point = record { needed = count; lower = low; upper = high; point = point }

-- the first byte of a character
unfoldable pub lead_byte : ℕ → Option (Text × Utf8State)
lead_byte b =
    if ltb b 0x80
    then some (b ∷ [], at_boundary)
    else if between 0xc2 0xdf b
    then some ([], needs 1 0x80 0xbf (b - 0xc0))
    else if between 0xe0 0xef b
    then some (
      [],
      needs 2 (if b == 0xe0 then 0xa0 else 0x80) (if b == 0xed then 0x9f else 0xbf) (b - 0xe0),
    )
    else if between 0xf0 0xf4 b
    then some (
      [],
      needs 3 (if b == 0xf0 then 0x90 else 0x80) (if b == 0xf4 then 0x8f else 0xbf) (b - 0xf0),
    )
    else none

-- the code units of a code point
unfoldable pub units : ℕ → Text
units p =
    if ltb p 0x10000
    then p ∷ []
    else (0xd800 + (p - 0x10000) / 0x400) ∷ (0xdc00 + (p - 0x10000) % 0x400) ∷ []

-- a byte that follows in a character
unfoldable pub next_byte : Utf8State → ℕ → Option (Text × Utf8State)
unfolding units
next_byte s b =
    if between s.lower s.upper b
    then (if s.needed == 1
        then some (units (s.point * 64 + (b - 0x80)), at_boundary)
        else some ([], needs (s.needed - 1) 0x80 0xbf (s.point * 64 + (b - 0x80))))
    else none

unfoldable pub utf8_byte : Utf8State → ℕ → Option (Text × Utf8State)
unfolding lead_byte next_byte
utf8_byte s b = if s.needed == 0 then lead_byte b else next_byte s b

unfoldable pub decode_from : Utf8State → List ℕ → Option Text
unfolding utf8_byte
decode_from s [] = if s.needed == 0 then some [] else none
decode_from s (b ∷ bytes) = elim (utf8_byte s b) [
  | none ↦ none
  | some step ↦ Option.map (λ rest. step.0 ++ rest) (decode_from step.1 bytes)
]

unfoldable pub hex_digit : ℕ → ℕ
unfolding is_digit is_lower
hex_digit c = if is_digit c then c - 48 else if is_lower c then c - 87 else c - 55

unfoldable pub hex_bytes : Text → List ℕ
unfolding hex_digit
hex_bytes (a ∷ b ∷ rest) = (hex_digit a * 16 + hex_digit b) ∷ hex_bytes rest
hex_bytes _ = []

unfoldable pub decode_hex_utf8 : Option JsonValue → Option Text
unfolding is_hex hex_bytes decode_from
decode_hex_utf8 (some (string value)) =
    if not (length value == 0) && (length value % 2 == 0 && all is_hex value)
    then decode_from at_boundary (hex_bytes value)
    else none
decode_hex_utf8 _ = none

unfoldable pub memo_fields : Option JsonValue → Option Fields
unfolding record_of get
memo_fields value = elim (record_of value) [
  | none ↦ none
  | some wrapper ↦ record_of (get (codes "Memo") wrapper)
]

-- `memo?.[name]`
unfoldable pub memo_text : Text → Option Fields → Option Text
unfolding decode_hex_utf8 get
memo_text name none = none
memo_text name (some memo) = decode_hex_utf8 (get name memo)

abbrev pub is_that : Option Text → Text → Bool
is_that none text = false
is_that (some t) text = text_eq t text

-- the memos of the type that XCS uses
unfoldable pub xcs_memos : Items → List (Option Fields)
unfolding memo_fields memo_text
xcs_memos nil = []
xcs_memos (cons entry rest) =
    if is_that (memo_text (codes "MemoType") (memo_fields (some entry)))
      (codes "xcs:schema_register")
    then memo_fields (some entry) ∷ xcs_memos rest
    else xcs_memos rest

abbrev pub array_items : Option JsonValue → Items
array_items (some (array items)) = items
array_items _ = nil

abbrev pub absent {ℓ} : {A : Type ℓ} → Option A → Bool
absent none = true
absent (some a) = false

-- An alias that is there has the value, and one is there.
unfoldable pub has_exact_registration_amount : Fields → Text → Bool
unfolding get is_text
has_exact_registration_amount transaction amount =
    not (absent (get (codes "Amount") transaction) && absent (get (codes "DeliverMax") transaction))
    && ((absent (get (codes "Amount") transaction)
          || is_text (get (codes "Amount") transaction) amount)
        && (absent (get (codes "DeliverMax") transaction)
            || is_text (get (codes "DeliverMax") transaction) amount))

-- `(flags & PARTIAL_PAYMENT_FLAG) !== 0`, bit 17; `low_bits` are the low 32 bits of the finite
-- numbers that are not natural; those of NaN and the infinities are 0.
unfoldable pub is_partial_payment : (ℕ → ℕ) → Option JsonValue → Bool
is_partial_payment low_bits (some (number (natural flags))) = (flags / 131072) % 2 == 1
is_partial_payment low_bits (some (number (other k))) = (low_bits k / 131072) % 2 == 1
is_partial_payment low_bits _ = false

pub data RegistrationReason : Type 0 where
  registration_account_invalid registration_memo_count registration_memo_format
        registration_memo_data :
      RegistrationReason
  registration_not_canonical : RegistrationReason
  xcs_error : XcsErrorCode → RegistrationReason

pub data EnvelopeResult : Type 0 where
  not_registration : EnvelopeResult
  candidate : (publisher json_text : Text) → EnvelopeResult
  refused : (publisher : Text) (reason : RegistrationReason) → EnvelopeResult

abbrev pub text_or_empty : Option JsonValue → Text
text_or_empty (some (string value)) = value
text_or_empty _ = []

unfoldable pub is_exact_payment : (ℕ → ℕ) → NetworkProfile → LedgerTransaction → Bool
unfolding is_text get has_exact_registration_amount is_partial_payment
is_exact_payment low_bits profile transaction =
    is_text (get (codes "TransactionType") transaction.transaction) (codes "Payment")
    && (is_text (get (codes "TransactionResult") transaction.metadata) (codes "tesSUCCESS")
        && (is_text (get (codes "Destination") transaction.transaction) profile.registry_address
            && (has_exact_registration_amount transaction.transaction (codes "1")
                && (absent (get (codes "Paths") transaction.transaction)
                    && (absent (get (codes "SendMax") transaction.transaction)
                        && (absent (get (codes "DeliverMin") transaction.transaction)
                            && not (
                                is_partial_payment low_bits
                                  (get (codes "Flags") transaction.transaction))))))))

abbrev pub of_data : Text → Option Text → EnvelopeResult
of_data publisher none = refused publisher registration_memo_data
of_data publisher (some json_text) = candidate publisher json_text

-- the rest of `extractRegistrationEnvelope`, for the XCS memos of an exact payment
unfoldable pub read_memo : Text → List (Option Fields) → EnvelopeResult
unfolding memo_text
read_memo publisher (memo ∷ []) =
    if is_that (memo_text (codes "MemoFormat") memo) (codes "application/json")
    then of_data publisher (memo_text (codes "MemoData") memo)
    else refused publisher registration_memo_format
read_memo publisher _ = refused publisher registration_memo_count

unfoldable pub envelope_of : Bool → Text → List (Option Fields) → EnvelopeResult
unfolding read_memo
envelope_of exact publisher [] = not_registration
envelope_of exact publisher (memo ∷ memos) =
    if not exact
    then not_registration
    else if length publisher == 0
    then refused publisher registration_account_invalid
    else read_memo publisher (memo ∷ memos)

unfoldable pub extract_registration_envelope :
    (ℕ → ℕ) → LedgerTransaction → NetworkProfile → EnvelopeResult
unfolding is_exact_payment envelope_of xcs_memos get
extract_registration_envelope low_bits transaction profile =
    envelope_of (is_exact_payment low_bits profile transaction)
      (text_or_empty (get (codes "Account") transaction.transaction))
      (xcs_memos (array_items (get (codes "Memos") transaction.transaction)))

-- what an accepted registration has besides its transaction
pub record Registered : Type 0 where
  pub schema_uid : Text
  pub definition : SchemaDefinition
  pub resolved : ResolvedSchema

-- A rejection has the parsed memo where the text was parsed.
pub data RegistrationOutcome : Type 0 where
  accepted : (memo_json : JsonValue) (registered : Registered) → RegistrationOutcome
  rejected : (reason : RegistrationReason) (memo_json : Option JsonValue) → RegistrationOutcome

pub record SchemaRegistrationResult : Type 0 where
  pub transaction_hash : Text
  pub transaction_index : ℕ
  pub publisher : Text
  pub outcome : RegistrationOutcome

abbrev pub as_reason : {A : Type 0} → Checked A → Result RegistrationReason A
as_reason (ok a) = ok a
as_reason (err code) = err (xcs_error code)

abbrev pub outcome_of : JsonValue → Result RegistrationReason Registered → RegistrationOutcome
outcome_of memo (ok registered) = accepted memo registered
outcome_of memo (err reason) = rejected reason (some memo)

module _ (libraries : Libraries) (documents : DocumentLibraries) (low_bits : ℕ → ℕ)
    (profile : NetworkProfile) (ledger_hash : Text) (ledger_index : ℕ)
    (catalog : Text → Option RegisteredSchema) where
  -- the body of the `try`, for a memo that was parsed
  unfoldable pub register : ℕ → Text → Text → JsonValue → Result RegistrationReason Registered
  unfolding canonical_json parse_schema compute_schema_uid schema_value text_eq
  register transaction_index publisher json_text parsed = do
    canonical ← as_reason (canonical_json documents parsed)
    guard (text_eq canonical json_text) registration_not_canonical
    definition ← as_reason (parse_schema parsed)
    resolved ← as_reason (
        resolve_schema catalog libraries (schema_value definition) (record {
          network_id = profile.network_id;
          publisher = publisher;
          ledger_index = ledger_index;
          transaction_index = transaction_index;
        }))
    uid ← as_reason (
        compute_schema_uid documents libraries (record {
          network_id = profile.network_id;
          ledger_hash = ledger_hash;
          ledger_index = ledger_index;
          transaction_index = transaction_index;
          publisher = publisher;
          schema = schema_value definition;
        }))
    ok (record { schema_uid = uid; definition = definition; resolved = resolved })

  unfoldable pub interpret_parsed : ℕ → Text → Text → Checked JsonValue → RegistrationOutcome
  unfolding register
  interpret_parsed transaction_index publisher json_text (err code) = rejected (xcs_error code) none
  interpret_parsed transaction_index publisher json_text (ok parsed) =
      outcome_of parsed (register transaction_index publisher json_text parsed)

  unfoldable pub interpret_envelope :
      LedgerTransaction → EnvelopeResult → Option SchemaRegistrationResult
  unfolding interpret_parsed parse_json
  interpret_envelope transaction not_registration = none
  interpret_envelope transaction (refused publisher reason) = some (record {
    transaction_hash = transaction.hash;
    transaction_index = transaction.transaction_index;
    publisher = publisher;
    outcome = rejected reason none;
  })
  interpret_envelope transaction (candidate publisher json_text) = some (record {
    transaction_hash = transaction.hash;
    transaction_index = transaction.transaction_index;
    publisher = publisher;
    outcome =
        interpret_parsed transaction.transaction_index publisher json_text
          (parse_json documents json_text);
  })

  unfoldable pub interpret_schema_registration : LedgerTransaction → Option SchemaRegistrationResult
  unfolding interpret_envelope extract_registration_envelope
  interpret_schema_registration transaction =
      interpret_envelope transaction (extract_registration_envelope low_bits transaction profile)
