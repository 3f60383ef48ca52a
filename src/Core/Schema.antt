-- ===== src/Core/Schema.antt =====
-- packages/core/src/schema.ts: schema definitions, their parser and the field count.
-- A parser that counts descriptors in a shared `{ value }` takes the count and returns it.
pub mod Valid
pub mod Sound
pub mod RoundTrip
use xcs.Common.{
  ℕ, zero, suc, ◌+◌, ◌-◌, Text, codes, Bool, true, false, not, ◌&&◌, ◌||◌, List, [], ◌∷◌, ◌++◌, map,
  Option, none, some, ok, leb, ltb, ◌==◌, text_eq, length, all, any, if◌then◌else◌, guard, ◌>>=◌,
  ◌>>◌, is_digit, is_lower, is_upper, is_lower_hex,
}
use xcs.Core.Errors.{Checked, fail, invalid_schema}
use xcs.Core.Json.{
  JsonValue, bool, string, array, object, Members, end, member, entries, get, has, keys, is_record,
  is_string, utf8_byte_length,
}

-- FIELD_NAME = /^[A-Za-z_][A-Za-z0-9_]{0,63}$/
unfoldable pub is_name_start : ℕ → Bool
unfolding is_lower is_upper
is_name_start c = is_lower c || is_upper c || c == b'_'

unfoldable pub is_name_part : ℕ → Bool
unfolding is_name_start is_digit
is_name_part c = is_name_start c || is_digit c

unfoldable pub is_field_name : Text → Bool
unfolding is_name_start is_name_part
is_field_name [] = false
is_field_name (c ∷ rest) = is_name_start c && (all is_name_part rest && leb (length rest) 63)

-- SCHEMA_UID = /^[0-9a-f]{64}$/
unfoldable pub is_schema_uid : Text → Bool
unfolding is_lower_hex
is_schema_uid value = all is_lower_hex value && length value == 64

-- CONTROL_CHARACTER = /[\u0000-\u001f\u007f-\u009f]/u
unfoldable pub is_control : ℕ → Bool
is_control c = leb c 0x1f || (leb 0x7f c && leb c 0x9f)

abbrev pub max_schema_depth : ℕ
max_schema_depth = 16

abbrev pub max_schema_fields : ℕ
max_schema_fields = 256

pub data ScalarFieldType : Type 0 where
  string_type bool_type uint_type int_type bytes_type address_type : ScalarFieldType

-- The last argument is `optional`.
mutual
  pub data FieldDescriptor : Type 0 where
    scalar : ScalarFieldType → Bool → FieldDescriptor
    array_of : FieldDescriptor → Bool → FieldDescriptor
    object_of : SchemaFields → Bool → FieldDescriptor

  pub data SchemaFields : Type 0 where
    no_fields : SchemaFields
    field : Text → FieldDescriptor → SchemaFields → SchemaFields

pub record SchemaDefinition : Type 0 where
  pub name : Text
  pub description : Text
  pub fields : SchemaFields
  pub parent : Option Text
  pub predecessor : Option Text

-- `SCALAR_TYPES.has(input.type)`, with the type that is meant
unfoldable pub scalar_type : Text → Option ScalarFieldType
unfolding text_eq
scalar_type t =
    if text_eq t (codes "string")
    then some string_type
    else if text_eq t (codes "bool")
    then some bool_type
    else if text_eq t (codes "uint")
    then some uint_type
    else if text_eq t (codes "int")
    then some int_type
    else if text_eq t (codes "bytes")
    then some bytes_type
    else if text_eq t (codes "address")
    then some address_type
    else none

unfoldable pub assert_only_properties : List (Text × JsonValue) → List Text → Checked (Unit {0})
unfolding has
assert_only_properties value allowed = guard (all (λ k. has k allowed) (keys value)) invalid_schema

unfoldable pub parse_text : Option JsonValue → ℕ → Checked Text
unfolding is_control utf8_byte_length
parse_text (some (string value)) max_bytes =
    if any is_control value then fail invalid_schema else do
      bytes ← utf8_byte_length value
      if ltb bytes 1 || ltb max_bytes bytes then fail invalid_schema else ok value
parse_text _ max_bytes = fail invalid_schema

unfoldable pub assert_field_limit : ℕ → Checked (Unit {0})
assert_field_limit count = guard (leb count max_schema_fields) invalid_schema

-- `optional` is absent or a boolean, and counts when it is true.
unfoldable pub parse_optional : Option JsonValue → Checked Bool
parse_optional none = ok false
parse_optional (some (bool b)) = ok b
parse_optional (some _) = fail invalid_schema

abbrev pub DescriptorParser : Type 0
DescriptorParser = JsonValue → ℕ → Checked (FieldDescriptor × ℕ)

-- the loop of `parseFields`
unfoldable pub parse_entries :
    DescriptorParser → List (Text × JsonValue) → ℕ → Checked (SchemaFields × ℕ)
unfolding is_field_name assert_field_limit
parse_entries parse [] count = ok (no_fields, count)
parse_entries parse ((name, descriptor) ∷ rest) count = do
  guard (is_field_name name) invalid_schema
  assert_field_limit (count + 1)
  (parsed, after) ← parse descriptor (count + 1)
  (fields, total) ← parse_entries parse rest after
  ok (field name parsed fields, total)

unfoldable pub parse_fields : DescriptorParser → Option JsonValue → ℕ → Checked (SchemaFields × ℕ)
unfolding parse_entries
parse_fields parse (some (object (member k v ms))) count =
    parse_entries parse (entries (member k v ms)) count
parse_fields parse _ count = fail invalid_schema

-- The bodies of `parseDescriptor` for arrays and objects; `below` parses one level deeper, and is
-- `none` at the depth limit.
unfoldable pub parse_items :
    DescriptorParser → Option JsonValue → Bool → ℕ → Checked (FieldDescriptor × ℕ)
unfolding assert_field_limit
parse_items parse none optional count = fail invalid_schema
parse_items parse (some items) optional count = do
  assert_field_limit (count + 1)
  (parsed, total) ← parse items (count + 1)
  ok (array_of parsed optional, total)

unfoldable pub parse_array :
    Option DescriptorParser → List (Text × JsonValue) → Bool → ℕ → Checked (FieldDescriptor × ℕ)
unfolding assert_only_properties get parse_items
parse_array below input optional count = do
  assert_only_properties input (codes "type" ∷ codes "optional" ∷ codes "items" ∷ [])
  elim below [
    | none ↦ fail invalid_schema
    | some parse ↦ parse_items parse (get (codes "items") input) optional count
  ]

unfoldable pub parse_object :
    Option DescriptorParser → List (Text × JsonValue) → Bool → ℕ → Checked (FieldDescriptor × ℕ)
unfolding assert_only_properties get parse_fields
parse_object below input optional count = do
  assert_only_properties input (codes "type" ∷ codes "optional" ∷ codes "fields" ∷ [])
  elim below [
    | none ↦ fail invalid_schema
    | some parse ↦ do
      (fields, total) ← parse_fields parse (get (codes "fields") input) count
      ok (object_of fields optional, total)
  ]

-- The branches on `input.type`, a text `kind`; `known` is the scalar type that it names.
unfoldable pub parse_kind :
    Option DescriptorParser
    → List (Text × JsonValue)
    → Option ScalarFieldType
    → Text
    → Bool
    → ℕ
    → Checked (FieldDescriptor × ℕ)
unfolding assert_only_properties parse_array parse_object
parse_kind below input (some known) kind optional count = do
  assert_only_properties input (codes "type" ∷ codes "optional" ∷ [])
  ok (scalar known optional, count)
parse_kind below input none kind optional count =
    if text_eq kind (codes "array")
    then parse_array below input optional count
    else if text_eq kind (codes "object")
    then parse_object below input optional count
    else fail invalid_schema

unfoldable pub parse_type :
    Option DescriptorParser
    → List (Text × JsonValue)
    → Option JsonValue
    → ℕ
    → Checked (FieldDescriptor × ℕ)
unfolding get parse_optional scalar_type parse_kind
parse_type below input (some (string kind)) count = do
  optional ← parse_optional (get (codes "optional") input)
  parse_kind below input (scalar_type kind) kind optional count
parse_type below input _ count = fail invalid_schema

unfoldable pub parse_level : Option DescriptorParser → DescriptorParser
unfolding get parse_type
parse_level below (object ms) count =
    parse_type below (entries ms) (get (codes "type") (entries ms)) count
parse_level below _ count = fail invalid_schema

-- The first argument is `MAX_SCHEMA_DEPTH - depth`: the test `depth >= MAX_SCHEMA_DEPTH` is that
-- no level is left.
unfoldable pub parse_descriptor : ℕ → DescriptorParser
unfolding parse_level
parse_descriptor zero = parse_level none
parse_descriptor (suc left) = parse_level (some (parse_descriptor left))

unfoldable pub parse_relation : Option JsonValue → Checked (Option Text)
unfolding is_schema_uid
parse_relation none = ok none
parse_relation (some (string value)) =
    if is_schema_uid value then ok (some value) else fail invalid_schema
parse_relation (some _) = fail invalid_schema

-- `parent !== undefined && parent === predecessor`
unfoldable pub same_relation : Option Text → Option Text → Bool
unfolding text_eq
same_relation (some a) (some b) = text_eq a b
same_relation _ _ = false

abbrev pub schema_properties : List Text
schema_properties =
    codes "xcsVersion"
    ∷ codes "name"
    ∷ codes "description"
    ∷ codes "extends"
    ∷ codes "supersedes"
    ∷ codes "fields"
    ∷ []

unfoldable pub is_version : Option JsonValue → Bool
unfolding text_eq
is_version (some (string v)) = text_eq v (codes "0.1")
is_version _ = false

unfoldable pub parse_schema_entries : List (Text × JsonValue) → Checked SchemaDefinition
unfolding assert_only_properties get is_version parse_relation same_relation parse_text parse_fields
    parse_descriptor
parse_schema_entries input = do
  assert_only_properties input schema_properties
  guard (is_version (get (codes "xcsVersion") input)) invalid_schema
  parent ← parse_relation (get (codes "extends") input)
  predecessor ← parse_relation (get (codes "supersedes") input)
  guard (not (same_relation parent predecessor)) invalid_schema
  name ← parse_text (get (codes "name") input) 64
  description ← parse_text (get (codes "description") input) 256
  (fields, total) ←
      parse_fields (parse_descriptor (max_schema_depth - 1)) (get (codes "fields") input) 0
  ok (record {
    name = name;
    description = description;
    fields = fields;
    parent = parent;
    predecessor = predecessor;
  })

unfoldable pub parse_schema : JsonValue → Checked SchemaDefinition
unfolding parse_schema_entries
parse_schema (object ms) = parse_schema_entries (entries ms)
parse_schema _ = fail invalid_schema

-- `countSchemaFields({ items })` is one more than the count inside `items`.
unfoldable mutual
  pub count_schema_fields : SchemaFields → ℕ
  count_schema_fields no_fields = 0
  count_schema_fields (field name d rest) = 1 + count_inside d + count_schema_fields rest

  pub count_inside : FieldDescriptor → ℕ
  count_inside (scalar t o) = 0
  count_inside (array_of d o) = 1 + count_inside d
  count_inside (object_of fs o) = count_schema_fields fs
