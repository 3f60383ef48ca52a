-- ===== src/Core/Resolution.antt =====
-- packages/core/src/schema-resolution.ts: inherited fields and references of a schema. Network
-- ids, ledger and transaction indices are natural numbers.
pub mod Fields
pub mod Lineage
pub mod Complete
use xcs.Common.{
  ℕ, zero, suc, ◌-◌, Text, Bool, true, false, not, ◌&&◌, ◌||◌, List, [], ◌∷◌, ◌++◌, Option, none,
  some, ok, leb, ltb, ◌==◌, text_eq, if◌then◌else◌, guard, ◌>>=◌, ◌>>◌,
}
use xcs.Core.Errors.{Checked, fail, invalid_schema, invalid_schema_reference}
use xcs.Core.Json.{JsonValue, has}
use xcs.Core.Schema.{
  FieldDescriptor, SchemaFields, no_fields, field, SchemaDefinition, parse_schema,
  count_schema_fields, max_schema_depth, max_schema_fields,
}
use xcs.Core.Claims.{field_names}
use xcs.Core.Libraries.{Libraries}

-- The definition is kept as it was stored, and parsed again when it is used.
pub record RegisteredSchema : Type 0 where
  pub uid : Text
  pub definition : JsonValue
  pub publisher : Text
  pub network_id : ℕ
  pub ledger_index : ℕ
  pub transaction_index : ℕ

pub record ResolvedSchema : Type 0 where
  pub definition : SchemaDefinition
  pub fields : SchemaFields
  pub lineage : List Text

pub record SchemaResolutionContext : Type 0 where
  pub network_id : ℕ
  pub publisher : Text
  pub ledger_index : ℕ
  pub transaction_index : ℕ

abbrev pub is_uint32 : ℕ → Bool
is_uint32 value = leb value 0xffff_ffff

unfoldable pub is_earlier : RegisteredSchema → SchemaResolutionContext → Bool
is_earlier schema context =
    ltb schema.ledger_index context.ledger_index
    || (schema.ledger_index == context.ledger_index
        && ltb schema.transaction_index context.transaction_index)

-- the context in which a registered schema was resolved
abbrev pub context_of : RegisteredSchema → SchemaResolutionContext
context_of schema = record {
  network_id = schema.network_id;
  publisher = schema.publisher;
  ledger_index = schema.ledger_index;
  transaction_index = schema.transaction_index;
}

-- `Object.hasOwn(fields, name)` or `fields[name] = descriptor`, for each entry in turn
unfoldable pub snoc_field : SchemaFields → Text → FieldDescriptor → SchemaFields
snoc_field no_fields name d = field name d no_fields
snoc_field (field n e rest) name d = field n e (snoc_field rest name d)

unfoldable pub add_fields : SchemaFields → SchemaFields → Checked SchemaFields
unfolding has snoc_field
add_fields fields no_fields = ok fields
add_fields fields (field name d rest) = do
  guard (not (has name (field_names fields))) invalid_schema_reference
  add_fields (snoc_field fields name d) rest

module _ (get_schema : Text → Option RegisteredSchema) where
  -- `requireReference` on what `getSchema` found
  unfoldable pub check_reference :
      Text → SchemaResolutionContext → Option RegisteredSchema → Checked RegisteredSchema
  unfolding text_eq is_earlier
  check_reference uid context none = fail invalid_schema_reference
  check_reference uid context (some referenced) = do
    guard (text_eq referenced.uid uid) invalid_schema_reference
    guard (referenced.network_id == context.network_id) invalid_schema_reference
    guard (is_earlier referenced context) invalid_schema_reference
    ok referenced

  unfoldable pub require_reference : Text → SchemaResolutionContext → Checked RegisteredSchema
  unfolding check_reference
  require_reference uid context = check_reference uid context (get_schema uid)

  abbrev pub Resolver : Type 0
  Resolver = SchemaDefinition → SchemaResolutionContext → List Text → Checked ResolvedSchema

  -- The fields and the lineage that come from `extends`; `below` resolves the parent, and is `none`
  -- when `visiting` has reached its limit.
  unfoldable pub inherit :
      Option Resolver
      → Option Text
      → SchemaResolutionContext
      → List Text
      → Checked (SchemaFields × List Text)
  unfolding has require_reference
  inherit below none context visiting = ok (no_fields, [])
  inherit none (some uid) context visiting = fail invalid_schema_reference
  inherit (some below) (some uid) context visiting = do
    guard (not (has uid visiting)) invalid_schema_reference
    parent ← require_reference uid context
    definition ← parse_schema parent.definition
    resolved ← below definition (context_of parent) (uid ∷ visiting)
    ok (resolved.fields, resolved.lineage ++ uid ∷ [])

  unfoldable pub check_supersedes : Option Text → SchemaResolutionContext → Checked (Unit {0})
  unfolding require_reference text_eq
  check_supersedes none context = ok tt
  check_supersedes (some uid) context = do
    previous ← require_reference uid context
    guard (text_eq previous.publisher context.publisher) invalid_schema_reference

  unfoldable pub resolve_level : Option Resolver → Resolver
  unfolding inherit add_fields check_supersedes
  resolve_level below schema context visiting = do
    (inherited, lineage) ← inherit below schema.parent context visiting
    fields ← add_fields inherited schema.fields
    guard (leb (count_schema_fields fields) max_schema_fields) invalid_schema
    check_supersedes schema.predecessor context
    ok (record { definition = schema; fields = fields; lineage = lineage })

  -- The first argument is `MAX_SCHEMA_DEPTH - 1 - visiting.size`: the test on the size of
  -- `visiting` is that no level is left.
  unfoldable pub resolve : ℕ → Resolver
  unfolding resolve_level
  resolve zero = resolve_level none
  resolve (suc left) = resolve_level (some (resolve left))

  module _ (libraries : Libraries) where
    unfoldable pub resolve_schema : JsonValue → SchemaResolutionContext → Checked ResolvedSchema
    resolve_schema input context = do
      guard
          (is_uint32 context.network_id
            && (is_uint32 context.ledger_index
                && (is_uint32 context.transaction_index
                    && libraries.is_valid_classic_address context.publisher)))
          invalid_schema_reference
      definition ← parse_schema input
      resolve (max_schema_depth - 1) definition context []
