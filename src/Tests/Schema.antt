-- ===== src/Tests/Schema.antt =====
-- Schema parsing at a definition with a scalar and an array field.
use xcs.Common.{◌≡◌, refl, codes, true, false, none, ok, err}
use xcs.Core.Errors.{invalid_schema}
use xcs.Core.Json.{JsonValue, bool, string, object, end, member}
use xcs.Core.Schema.{
  SchemaDefinition, string_type, uint_type, scalar, array_of, no_fields, field, parse_schema,
}
use xcs.Core.Schema.Valid.{IsSchema}
use xcs.Core.Schema.Sound.{parse_schema-IsSchema}
use xcs.Core.Schema.RoundTrip.{schema_value, parse_schema-schema_value}

abbrev type_object : JsonValue → JsonValue
type_object t = object (member (codes "type") t end)

abbrev degree_input : JsonValue
degree_input = object (
    member (codes "description") (string (codes "A degree")) (
      member (codes "fields")
        (object (
          member (codes "title") (type_object (string (codes "string"))) (
            member (codes "marks")
              (object (
                member (codes "items") (type_object (string (codes "uint"))) (
                  member (codes "optional") (bool true)
                    (member (codes "type") (string (codes "array")) end))))
              end)))
        (member (codes "name") (string (codes "Degree"))
          (member (codes "xcsVersion") (string (codes "0.1")) end))))

abbrev degree : SchemaDefinition
degree = record {
  name = codes "Degree";
  description = codes "A degree";
  fields =
      field (codes "title") (scalar string_type false)
        (field (codes "marks") (array_of (scalar uint_type false) true) no_fields);
  parent = none;
  predecessor = none;
}

degree_parses : parse_schema degree_input ≡ ok degree
unfolding parse_schema
degree_parses = refl

no_fields_fails : parse_schema (type_object (string (codes "x"))) ≡ err invalid_schema
unfolding parse_schema
no_fields_fails = refl

parse_schema-IsSchema_example : IsSchema degree
parse_schema-IsSchema_example = parse_schema-IsSchema degree_input degree degree_parses

parse_schema-schema_value_example : parse_schema (schema_value degree) ≡ ok degree
parse_schema-schema_value_example =
    parse_schema-schema_value degree (parse_schema-IsSchema degree_input degree degree_parses)
