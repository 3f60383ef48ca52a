-- ===== src/Core/Documents.antt =====
-- packages/core/src/json.ts: the text of JSON documents, and packages/core/src/schema-uid.ts.
pub mod Keys
use xcs.Common.{
  ℕ, Text, codes, Bool, true, false, not, ◌&&◌, List, [], ◌∷◌, Option, none, some, Result, ok, err,
  leb, text_eq, guard, ◌>>=◌, ◌>>◌, all, length, ◌==◌, to_lower,
}
use xcs.Core.Errors.{
  Checked, fail, invalid_json, non_canonical_json, unsupported_json_value, invalid_uid_input,
}
use xcs.Core.Json.{
  JsonValue, Items, Members, natural, null, bool, number, string, array, object, nil, cons, end,
  member, has, assert_json_value, encode_utf8,
}
use xcs.Core.Libraries.{Libraries}
use xcs.Core.Network.{is_hash}
use xcs.Core.Resolution.{is_uint32}
use xcs.Core.Schema.{parse_schema}
use xcs.Core.Schema.RoundTrip.{schema_value}

-- What the code calls of other packages for documents.
pub record DocumentLibraries : Type 0 where
  -- the tree that `parseTree` of jsonc-parser finds, if it reports no error; an object of the tree has
  -- its properties as they stand in the text. Of a text without a repeated key it is the value that
  -- `JSON.parse` gives.
  pub parse_tree : Text → Option JsonValue
  -- `canonicalize`, RFC 8785; `none` is `undefined`
  pub canonicalize : JsonValue → Option Text
  -- the hexadecimal digits of the SHA-256 digest
  pub sha256_hex : List ℕ → Text

-- `rejectDuplicateObjectKeys`; the keys that an object has had so far stand in a list.
unfoldable mutual
  unfolding has

  pub reject_duplicate_object_keys : JsonValue → Checked (Unit {0})
  reject_duplicate_object_keys (object ms) = reject_duplicate_members [] ms
  reject_duplicate_object_keys (array xs) = reject_duplicate_items xs
  reject_duplicate_object_keys null = ok tt
  reject_duplicate_object_keys (bool b) = ok tt
  reject_duplicate_object_keys (number n) = ok tt
  reject_duplicate_object_keys (string s) = ok tt

  pub reject_duplicate_items : Items → Checked (Unit {0})
  reject_duplicate_items nil = ok tt
  reject_duplicate_items (cons x xs) = reject_duplicate_object_keys x >> reject_duplicate_items xs

  pub reject_duplicate_members : List Text → Members → Checked (Unit {0})
  reject_duplicate_members seen end = ok tt
  reject_duplicate_members seen (member key value ms) =
      guard (not (has key seen)) invalid_json
      >> (reject_duplicate_object_keys value >> reject_duplicate_members (key ∷ seen) ms)

pub record SchemaUidInput : Type 0 where
  pub network_id : ℕ
  pub ledger_hash : Text
  pub ledger_index : ℕ
  pub transaction_index : ℕ
  pub publisher : Text
  pub schema : JsonValue

module _ (documents : DocumentLibraries) where
  abbrev pub serialized : Option Text → Checked Text
  serialized none = fail unsupported_json_value
  serialized (some text) = ok text

  unfoldable pub canonical_json : JsonValue → Checked Text
  unfolding assert_json_value
  canonical_json value = do assert_json_value value; serialized (documents.canonicalize value)

  unfoldable pub parsed_tree : Option JsonValue → Checked JsonValue
  unfolding reject_duplicate_object_keys assert_json_value
  parsed_tree none = fail invalid_json
  parsed_tree (some root) = do reject_duplicate_object_keys root; assert_json_value root; ok root

  unfoldable pub parse_json : Text → Checked JsonValue
  unfolding parsed_tree
  parse_json text = parsed_tree (documents.parse_tree text)

  unfoldable pub parse_canonical_json : Text → Checked JsonValue
  unfolding parse_json canonical_json
  parse_canonical_json text = do
    parsed ← parse_json text
    canonical ← canonical_json parsed
    guard (text_eq canonical text) non_canonical_json
    assert_json_value parsed
    ok parsed

  module _ (libraries : Libraries) where
    abbrev pub preimage : SchemaUidInput → JsonValue → JsonValue
    preimage input schema = object (
        member (codes "purpose") (string (codes "xcs.schema.uid")) (
          member (codes "version") (string (codes "0.1")) (
            member (codes "networkId") (number (natural input.network_id)) (
              member (codes "ledgerHash") (string (to_lower input.ledger_hash)) (
                member (codes "ledgerIndex") (number (natural input.ledger_index)) (
                  member (codes "transactionIndex") (number (natural input.transaction_index)) (
                    member (codes "publisher") (string input.publisher)
                      (member (codes "schema") schema end))))))))

    unfoldable pub compute_schema_uid : SchemaUidInput → Checked Text
    unfolding is_hash canonical_json schema_value encode_utf8 to_lower
    compute_schema_uid input = do
      guard
          (is_uint32 input.network_id
            && (is_uint32 input.ledger_index && is_uint32 input.transaction_index))
          invalid_uid_input
      guard (is_hash input.ledger_hash) invalid_uid_input
      guard (libraries.is_valid_classic_address input.publisher) invalid_uid_input
      schema ← parse_schema input.schema
      text ← canonical_json (preimage input (schema_value schema))
      ok (documents.sha256_hex (encode_utf8 text))
