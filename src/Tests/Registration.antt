-- ===== src/Tests/Registration.antt =====
-- A payment that registers a schema, with stand-ins for the document libraries.
use xcs.Common.{arith, ◌≡◌, ◌↔◌, refl, Text, codes, [], ◌∷◌, Option, none, some, ok, err, text_eq}
use xcs.Core.Json.{
  is_high, is_low, encode_utf8, JsonValue, natural, number, string, object, array, nil, cons,
  member, end, non_finite,
}
use xcs.Core.Schema.{parse_schema, count_schema_fields}
use xcs.Core.Schema.RoundTrip.{schema_value, fields_members}
use xcs.Core.Resolution.{RegisteredSchema, resolve_schema, resolve}
use xcs.Core.Documents.{DocumentLibraries, parse_json, reject_duplicate_object_keys}
use xcs.Core.Json.Plain.{Plain}
use xcs.Core.Documents.Keys.{Distinct, parse_json_iff}
use xcs.Core.Errors.{invalid_json, unsupported_json_value}
use xcs.Core.Json.WellFormed.{WellFormed, empty, unit, pair}
use xcs.Indexer.Registration.Utf8.{decode_from-encode_utf8}
use xcs.Indexer.Types.{LedgerTransaction}
use xcs.Indexer.Registration.{
  decode_from, at_boundary, Registered, SchemaRegistrationResult, accepted, candidate,
  decode_hex_utf8, extract_registration_envelope, interpret_schema_registration,
}
use xcs.Indexer.Registration.Envelope.{IsEnvelope}
use xcs.Indexer.Registration.Accepted.{IsRegistered, interpret_schema_registration-IsRegistered}
use xcs.Tests.Claims.{plain_libraries}
use xcs.Tests.Resolution.{base}
use xcs.Tests.Ledgers.{profile, low_hash}

abbrev memo_json : JsonValue
memo_json = schema_value base

-- One tree for every text, and one text for every value.
abbrev pub one_document : DocumentLibraries
one_document = record {
  parse_tree = λ text. some (schema_value base);
  canonicalize = λ value. some (codes "{}");
  sha256_hex = λ bytes. codes "uid";
}

a_bom_stays : decode_hex_utf8 (some (string (codes "EFBBBF41"))) ≡ some (0xfeff ∷ 0x41 ∷ [])
unfolding decode_hex_utf8
a_bom_stays = refl

a_pair_decodes : decode_hex_utf8 (some (string (codes "f09f9880"))) ≡ some (0xd83d ∷ 0xde00 ∷ [])
unfolding decode_hex_utf8
a_pair_decodes = refl

overlong_fails : decode_hex_utf8 (some (string (codes "c080"))) ≡ none
unfolding decode_hex_utf8
overlong_fails = refl

a_surrogate_fails : decode_hex_utf8 (some (string (codes "eda080"))) ≡ none
unfolding decode_hex_utf8
a_surrogate_fails = refl

abbrev memo : JsonValue
memo = object (
    member (codes "Memo")
      (object (
        member (codes "MemoType") (string (codes "7863733a736368656d615f7265676973746572")) (
          member (codes "MemoFormat") (string (codes "6170706c69636174696f6e2f6a736f6e"))
            (member (codes "MemoData") (string (codes "7b7d")) end))))
      end)

abbrev pub registration : LedgerTransaction
registration = record {
  hash = codes "T1";
  transaction =
      (codes "TransactionType", string (codes "Payment"))
      ∷ (codes "Account", string (codes "rPublisher"))
      ∷ (codes "Destination", string (codes "rRegistry"))
      ∷ (codes "DeliverMax", string (codes "1"))
      ∷ (codes "Memos", array (cons memo nil))
      ∷ [];
  metadata = (codes "TransactionResult", string (codes "tesSUCCESS")) ∷ [];
  transaction_index = 4;
}

is_a_candidate :
    extract_registration_envelope (λ k. 0) registration profile
    ≡ candidate (codes "rPublisher") (codes "{}")
unfolding extract_registration_envelope
is_a_candidate = refl

abbrev registered : Registered
registered = record {
  schema_uid = codes "uid";
  definition = base;
  resolved = record { definition = base; fields = base.fields; lineage = [] };
}

abbrev result : SchemaRegistrationResult
result = record {
  transaction_hash = codes "T1";
  transaction_index = 4;
  publisher = codes "rPublisher";
  outcome = accepted memo_json registered;
}

abbrev pub empty_catalog : Text → Option RegisteredSchema
empty_catalog uid = none

is_accepted :
    interpret_schema_registration plain_libraries one_document
      (λ k. 0)
      profile
      low_hash
      9
      empty_catalog
      registration
    ≡ some result
unfolding interpret_schema_registration resolve_schema resolve schema_value parse_schema text_eq
    count_schema_fields fields_members
is_accepted = refl

interpret_schema_registration-IsRegistered_example :
    (json_text : Text) × IsEnvelope (λ k. 0) profile registration (codes "rPublisher") json_text
    × IsRegistered plain_libraries one_document
        (λ k. 0)
        profile
        low_hash
        9
        empty_catalog
        4
        (codes "rPublisher")
        json_text
        memo_json
        registered
interpret_schema_registration-IsRegistered_example =
    interpret_schema_registration-IsRegistered plain_libraries one_document (λ k. 0) profile
      low_hash 9 empty_catalog registration result memo_json registered is_accepted refl

abbrev twice : JsonValue
twice =
    object (member (codes "a") (number (natural 1)) (member (codes "a") (number (natural 2)) end))

a_repeated_key_fails : reject_duplicate_object_keys twice ≡ err invalid_json
unfolding reject_duplicate_object_keys
a_repeated_key_fails = refl

-- 1e999
not_finite :
    parse_json
      (record one_document { parse_tree = λ text. some (number non_finite) })
      (codes "1e999")
    ≡ err unsupported_json_value
unfolding parse_json
not_finite = refl

parse_json_iff_example :
    (parse_json one_document (codes "{}") ≡ ok memo_json)
    ↔ ((some memo_json ≡ some memo_json) × Distinct memo_json × Plain memo_json)
parse_json_iff_example = parse_json_iff one_document (codes "{}") memo_json

-- a letter and a pair of surrogates
abbrev smile : Text
smile = 0x61 ∷ 0xd83d ∷ 0xde00 ∷ []

smile-WellFormed : WellFormed smile
unfolding is_high is_low
smile-WellFormed = unit refl refl (pair refl refl empty)

decode_from-encode_utf8_example : decode_from at_boundary (encode_utf8 smile) ≡ some smile
decode_from-encode_utf8_example =
    decode_from-encode_utf8 smile smile-WellFormed (omega arith, (omega arith, (omega arith, tt)))
