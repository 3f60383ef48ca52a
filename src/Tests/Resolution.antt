-- ===== src/Tests/Resolution.antt =====
-- Resolution of a schema that extends another, and states of a credential.
use xcs.Common.{
  ◌≡◌, ◌↔◌, ◌≤◌, refl, Text, true, false, Option, none, some, [], ◌∷◌, ok, length, text_eq, codes,
  arith, if◌then◌else◌,
}
use xcs.Core.Schema.{
  SchemaDefinition, SchemaFields, string_type, scalar, no_fields, field, parse_schema,
  count_schema_fields,
}
use xcs.Core.Schema.RoundTrip.{schema_value, fields_members}
use xcs.Core.Resolution.{
  RegisteredSchema, ResolvedSchema, SchemaResolutionContext, resolve_schema, resolve,
}
use xcs.Core.Resolution.Lineage.{Resolves}
use xcs.Core.Resolution.Complete.{IsContext, resolve_schema_iff}
use xcs.Core.Lifecycle.{project_credential_lifecycle, expired}
use xcs.Core.Lifecycle.States.{at_time, Projects, lifecycle_iff, lifecycle_final}
use xcs.Tests.Claims.{plain_libraries}

abbrev pub parent_uid : Text
parent_uid = codes "aaaaaaaaaaaaaaaaaaaaaaaaaaaaaaaaaaaaaaaaaaaaaaaaaaaaaaaaaaaaaaaa"

abbrev one_field : Text → SchemaFields → SchemaFields
one_field name rest = field name (scalar string_type false) rest

abbrev pub base : SchemaDefinition
base = record {
  name = codes "Base";
  description = codes "The base";
  fields = one_field (codes "title") no_fields;
  parent = none;
  predecessor = none;
}

abbrev pub extension : SchemaDefinition
extension = record {
  name = codes "More";
  description = codes "An extension";
  fields = one_field (codes "grade") no_fields;
  parent = some parent_uid;
  predecessor = none;
}

abbrev registered_base : RegisteredSchema
registered_base = record {
  uid = parent_uid;
  definition = schema_value base;
  publisher = codes "r1";
  network_id = 1;
  ledger_index = 7;
  transaction_index = 3;
}

abbrev catalog : Text → Option RegisteredSchema
catalog uid = if text_eq uid parent_uid then some registered_base else none

abbrev here : SchemaResolutionContext
here = record { network_id = 1; publisher = codes "r2"; ledger_index = 7; transaction_index = 4 }

abbrev resolved_extension : ResolvedSchema
resolved_extension = record {
  definition = extension;
  fields = one_field (codes "title") (one_field (codes "grade") no_fields);
  lineage = parent_uid ∷ [];
}

extension_resolves :
    resolve_schema catalog plain_libraries (schema_value extension) here ≡ ok resolved_extension
unfolding resolve_schema resolve schema_value parse_schema text_eq count_schema_fields
    fields_members
extension_resolves = refl

resolve_schema_iff_example :
    (resolve_schema catalog plain_libraries (schema_value extension) here ≡ ok resolved_extension)
    ↔ (IsContext catalog plain_libraries here
        × (parse_schema (schema_value extension) ≡ ok extension)
        × Resolves catalog extension here resolved_extension.fields (parent_uid ∷ [])
        × (length (parent_uid ∷ []) ≤ 15))
resolve_schema_iff_example =
    resolve_schema_iff catalog plain_libraries (schema_value extension) here resolved_extension

lifecycle_iff_example :
    (project_credential_lifecycle (at_time true true (some 10) 12) ≡ ok expired)
    ↔ Projects (at_time true true (some 10) 12) expired
lifecycle_iff_example = lifecycle_iff (at_time true true (some 10) 12) expired

expired_at_ten : project_credential_lifecycle (at_time true false (some 10) 10) ≡ ok expired
unfolding project_credential_lifecycle
expired_at_ten = refl

lifecycle_final_example : project_credential_lifecycle (at_time true true (some 10) 12) ≡ ok expired
lifecycle_final_example =
    lifecycle_final false true (some 10) 10 12 (omega arith) (omega arith) expired_at_ten
