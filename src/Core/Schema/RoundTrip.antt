-- ===== src/Core/Schema/RoundTrip.antt =====
-- A parsed definition, read as the plain object that `parseSchema` builds, parses to itself:
-- schema.ts, lines 93 to 192. The indexer parses stored definitions again.
use mathlib.Core.Option
use xcs.Common.{
  ℕ, zero, suc, ◌+◌, ◌≤◌, ◌≡◌, refl, Text, codes, Bool, true, false, Option, none, some, ok, arith,
  leb, ltb, ◌||◌,
}
use xcs.Core.Json.{JsonValue, bool, string, object, Members, end, member, entries, utf8_byte_length}
use xcs.Core.Schema.{
  ScalarFieldType, string_type, bool_type, uint_type, int_type, bytes_type, address_type,
  FieldDescriptor, scalar, array_of, object_of, SchemaFields, no_fields, field, SchemaDefinition,
  DescriptorParser, is_field_name, parse_entries, parse_fields, parse_level, parse_descriptor,
  parse_text, parse_relation, same_relation, parse_schema, count_schema_fields, count_inside,
}
use xcs.Core.Schema.Valid.{
  NonEmpty, WellNamed, WellNamedFields, nesting, nesting_fields, IsText, IsRelation, IsSchema,
}

abbrev pub type_name : ScalarFieldType → Text
type_name string_type = codes "string"
type_name bool_type = codes "bool"
type_name uint_type = codes "uint"
type_name int_type = codes "int"
type_name bytes_type = codes "bytes"
type_name address_type = codes "address"

-- `...optional`
abbrev pub optional_member : Bool → Members
optional_member true = member (codes "optional") (bool true) end
optional_member false = end

-- The objects that `parseDescriptor` and `parseFields` build.
unfoldable mutual
  pub descriptor_value : FieldDescriptor → JsonValue
  descriptor_value (scalar t o) =
      object (member (codes "type") (string (type_name t)) (optional_member o))
  descriptor_value (array_of d o) = object (
      member (codes "type") (string (codes "array"))
        (member (codes "items") (descriptor_value d) (optional_member o)))
  descriptor_value (object_of fs o) = object (
      member (codes "type") (string (codes "object"))
        (member (codes "fields") (object (fields_members fs)) (optional_member o)))

  pub fields_members : SchemaFields → Members
  fields_members no_fields = end
  fields_members (field name d rest) = member name (descriptor_value d) (fields_members rest)

abbrev pub relation_member : Text → Option Text → Members → Members
relation_member k none ms = ms
relation_member k (some uid) ms = member k (string uid) ms

-- The object that `parseSchema` builds.
unfoldable pub schema_value : SchemaDefinition → JsonValue
schema_value s = object (
    member (codes "xcsVersion") (string (codes "0.1")) (
      member (codes "name") (string s.name) (
        member (codes "description") (string s.description) (
          member (codes "fields") (object (fields_members s.fields)) (
            relation_member (codes "extends") s.parent
              (relation_member (codes "supersedes") s.predecessor end))))))

scalar_step :
    (below : Option DescriptorParser) (t : ScalarFieldType) (o : Bool) (count : ℕ)
    → parse_level below (descriptor_value (scalar t o)) count ≡ ok (scalar t o, count)
unfolding parse_level descriptor_value
scalar_step below string_type true count = refl
scalar_step below string_type false count = refl
scalar_step below bool_type true count = refl
scalar_step below bool_type false count = refl
scalar_step below uint_type true count = refl
scalar_step below uint_type false count = refl
scalar_step below int_type true count = refl
scalar_step below int_type false count = refl
scalar_step below bytes_type true count = refl
scalar_step below bytes_type false count = refl
scalar_step below address_type true count = refl
scalar_step below address_type false count = refl

room-leb : (count : ℕ) → count ≤ 256 → leb count 256 ≡ true
room-leb count h = ground arith

in_range : (n most : ℕ) → 1 ≤ n → n ≤ most → (ltb n 1 || ltb most n) ≡ false
in_range n most h k = ground arith

module _ (parse : DescriptorParser) (count total : ℕ) where
  array_step :
      (d : FieldDescriptor) (o : Bool)
      → count + 1 ≤ 256
      → parse (descriptor_value d) (count + 1) ≡ ok (d, total)
      → parse_level (some parse) (descriptor_value (array_of d o)) count ≡ ok (array_of d o, total)
  unfolding parse_level descriptor_value
  array_step d true room e = rw (room-leb (count + 1) room, e)
  array_step d false room e = rw (room-leb (count + 1) room, e)

  object_step :
      (fs : SchemaFields) (o : Bool)
      → parse_fields parse (some (object (fields_members fs))) count ≡ ok (fs, total)
      → parse_level (some parse) (descriptor_value (object_of fs o)) count
        ≡ ok (object_of fs o, total)
  unfolding parse_level descriptor_value
  object_step fs true e = rw e
  object_step fs false e = rw e

entries_step :
    (parse : DescriptorParser) (count middle total : ℕ) (name : Text) (d : FieldDescriptor)
    (fs : SchemaFields)
    → is_field_name name ≡ true
    → count + 1 ≤ 256
    → parse (descriptor_value d) (count + 1) ≡ ok (d, middle)
    → parse_entries parse (entries (fields_members fs)) middle ≡ ok (fs, total)
    → parse_entries parse (entries (fields_members (field name d fs))) count
      ≡ ok (field name d fs, total)
unfolding parse_entries descriptor_value
entries_step parse count middle total name d fs good room e k =
    rw (good, room-leb (count + 1) room, e, k)

entries_end :
    (parse : DescriptorParser) (count : ℕ)
    → parse_entries parse (entries (fields_members no_fields)) count ≡ ok (no_fields, count)
unfolding parse_entries descriptor_value
entries_end parse count = refl

fields_step :
    (parse : DescriptorParser) (count total : ℕ) (fs : SchemaFields)
    → NonEmpty fs
    → parse_entries parse (entries (fields_members fs)) count ≡ ok (fs, total)
    → parse_fields parse (some (object (fields_members fs))) count ≡ ok (fs, total)
unfolding parse_fields descriptor_value
fields_step parse count total no_fields n e = absurd n
fields_step parse count total (field name d rest) n e = e

mutual
  unfolding parse_descriptor count_schema_fields

  parse-descriptor_value :
      (d : FieldDescriptor) (left count total : ℕ)
      → nesting d ≤ left
      → WellNamed d
      → total ≤ 256
      → total ≡ count + count_inside d
      → parse_descriptor left (descriptor_value d) count ≡ ok (d, total)
  parse-descriptor_value (scalar t o) zero count total n w room e =
      let same : total ≡ count = omega arith in rw same (scalar_step none t o count)
  parse-descriptor_value (scalar t o) (suc left) count total n w room e =
      let same : total ≡ count = omega arith in
      rw same (scalar_step (some (parse_descriptor left)) t o count)
  parse-descriptor_value (array_of d o) zero count total n w room e = absurd (omega arith)
  parse-descriptor_value (array_of d o) (suc left) count total n w room e =
      array_step (parse_descriptor left) count total d o (omega arith)
        (parse-descriptor_value d left (count + 1) total (omega arith) w room (omega arith))
  parse-descriptor_value (object_of fs o) zero count total n w room e = absurd (omega arith)
  parse-descriptor_value (object_of fs o) (suc left) count total n w room e =
      object_step (parse_descriptor left) count total fs o (
        fields_step (parse_descriptor left) count total fs w.0
          (parse_entries-members fs left count total (omega arith) w.1 room e))

  parse_entries-members :
      (fs : SchemaFields) (left count total : ℕ)
      → nesting_fields fs ≤ left
      → WellNamedFields fs
      → total ≤ 256
      → total ≡ count + count_schema_fields fs
      → parse_entries (parse_descriptor left) (entries (fields_members fs)) count ≡ ok (fs, total)
  parse_entries-members no_fields left count total n w room e =
      let same : total ≡ count = omega arith in rw same (entries_end (parse_descriptor left) count)
  parse_entries-members (field name d rest) left count total n w room e =
      entries_step (parse_descriptor left) count (count + 1 + count_inside d) total name d rest w.0
        (omega arith)
        (parse-descriptor_value d left (count + 1) (count + 1 + count_inside d) (omega arith) w.1
          (omega arith) refl)
        (parse_entries-members rest left (count + 1 + count_inside d) total (omega arith) w.2 room
          (omega arith))

parse_text-string : (most : ℕ) (t : Text) → IsText most t → parse_text (some (string t)) most ≡ ok t
unfolding parse_text utf8_byte_length
parse_text-string most t (plain, unicode, least, greatest) =
    rw (plain, unicode, in_range _ most least greatest)

parse_relation-member :
    (r : Option Text) → IsRelation r → parse_relation (Option.map string r) ≡ ok r
unfolding parse_relation
parse_relation-member none h = refl
parse_relation-member (some uid) h = rw h

-- The properties of the object are looked up by name, whatever stands beside them.
schema_step :
    (name description : Text) (fields : SchemaFields) (parent predecessor : Option Text) (total : ℕ)
    → IsText 64 name
    → IsText 256 description
    → IsRelation parent
    → IsRelation predecessor
    → same_relation parent predecessor ≡ false
    → parse_fields (parse_descriptor 15) (some (object (fields_members fields))) 0
      ≡ ok (fields, total)
    → parse_schema (
        schema_value (record {
          name = name;
          description = description;
          fields = fields;
          parent = parent;
          predecessor = predecessor;
        }))
      ≡ ok (record {
        name = name;
        description = description;
        fields = fields;
        parent = parent;
        predecessor = predecessor;
      })
unfolding parse_schema schema_value
schema_step name description fs none none total n d p q s f =
    rw (parse_text-string 64 name n, parse_text-string 256 description d, f)
schema_step name description fs none (some q) total n d p h s f =
    rw (h, parse_text-string 64 name n, parse_text-string 256 description d, f)
schema_step name description fs (some p) none total n d h q s f =
    rw (h, parse_text-string 64 name n, parse_text-string 256 description d, f)
schema_step name description fs (some p) (some q) total n d h k s f =
    rw (h, k, s, parse_text-string 64 name n, parse_text-string 256 description d, f)

-- A valid definition, written as the object that `parseSchema` builds, is parsed to itself.
pub parse_schema-schema_value :
    (s : SchemaDefinition) → IsSchema s → parse_schema (schema_value s) ≡ ok s
parse_schema-schema_value s v =
    schema_step s.name s.description s.fields s.parent s.predecessor (count_schema_fields s.fields)
      v.name_text v.description_text v.parent_uid v.predecessor_uid v.distinct
      (fields_step (parse_descriptor 15) 0 (count_schema_fields s.fields) s.fields v.nonempty (
        parse_entries-members s.fields 15 0 (count_schema_fields s.fields) v.nested v.named
          v.counted (omega arith)))
