-- ===== src/Core/Schema/Sound.antt =====
-- Every definition that `parseSchema` gives out is well formed: schema.ts, lines 93 to 192.
use xcs.Common.{
  ℕ, zero, suc, ◌+◌, ◌≤◌, ◌≡◌, refl, Text, codes, Bool, true, false, ◌||◌, any, all, leb, length,
  List, [], ◌∷◌, Option, none, some, ok, arith, Ensures, Ensures-guard, Ensures-both, Ensures-bind,
  Ensures-if, Ensures-of, Ensures-at, if◌then◌else◌, ltb, text_eq, not,
}
use xcs.Core.Errors.{fail, invalid_schema}
use xcs.Core.Json.{
  JsonValue, string, object, member, entries, get, has, keys, utf8_byte_length, encode_utf8,
  assert_well_formed,
}
use xcs.Core.Schema.{
  FieldDescriptor, ScalarFieldType, scalar, object_of, SchemaFields, field, SchemaDefinition,
  DescriptorParser, is_field_name, is_control, is_schema_uid, parse_entries, parse_fields,
  parse_items, parse_array, parse_object, parse_kind, parse_type, parse_level, parse_descriptor,
  parse_optional, scalar_type, parse_text, parse_relation, same_relation, is_version,
  parse_schema_entries, parse_schema, schema_properties, count_schema_fields, count_inside,
  max_schema_fields,
}
use xcs.Core.Schema.Valid.{
  NonEmpty, WellNamed, WellNamedFields, nesting, nesting_fields, IsText, IsRelation, IsSchema,
}

-- What a run of the parser gives: `count` descriptors are counted before it and `r.1` after it.
pub record IsParsed (left count : ℕ) (r : FieldDescriptor × ℕ) : Type 0 where
  pub named : WellNamed r.0
  pub nested : nesting r.0 ≤ left
  pub counted : r.1 ≡ count + count_inside r.0
  pub limited : count ≤ 256 → r.1 ≤ 256

pub record AreParsed (left count : ℕ) (r : SchemaFields × ℕ) : Type 0 where
  pub named : WellNamedFields r.0
  pub nested : nesting_fields r.0 ≤ left
  pub counted : r.1 ≡ count + count_schema_fields r.0
  pub limited : count ≤ 256 → r.1 ≤ 256

abbrev pub IsSound : ℕ → DescriptorParser → Type 0
IsSound left parse =
    (input : JsonValue) (count : ℕ) → Ensures (IsParsed left count) (parse input count)

field_limit : (count : ℕ) → leb count max_schema_fields ≡ true → count ≤ 256
field_limit count h = ground arith

AreParsed-field :
    (left count middle total : ℕ) (name : Text) (d : FieldDescriptor) (fs : SchemaFields)
    → is_field_name name ≡ true
    → count + 1 ≤ 256
    → IsParsed left (count + 1) (d, middle)
    → AreParsed left middle (fs, total)
    → AreParsed left count (field name d fs, total)
unfolding count_schema_fields
AreParsed-field left count middle total name d fs good room p ps = record {
  named = (good, p.named, ps.named);
  nested = omega (arith, p.nested, ps.nested);
  counted = omega (arith, p.counted, ps.counted);
  limited = λ _. ps.limited (p.limited room);
}

module _ (left : ℕ) (parse : DescriptorParser) (sound : IsSound left parse) where
  parse_entries_sound :
      (es : List (Text × JsonValue)) (count : ℕ)
      → Ensures (AreParsed left count) (parse_entries parse es count)
  unfolding parse_entries count_schema_fields
  parse_entries_sound [] count = record {
    named = tt;
    nested = omega arith;
    counted = omega arith;
    limited = λ h. h;
  }
  parse_entries_sound ((name, v) ∷ es) count =
      Ensures-guard (AreParsed left count) (is_field_name name) invalid_schema _ λ good.
        Ensures-guard (AreParsed left count) (leb (count + 1) max_schema_fields) invalid_schema _
          λ room.
            Ensures-bind (IsParsed left (count + 1)) (AreParsed left count) (parse v (count + 1)) _
              (sound v (count + 1))
              λ r p.
                Ensures-bind (AreParsed left r.1) (AreParsed left count)
                  (parse_entries parse es r.1) _ (parse_entries_sound es r.1)
                  λ rs ps.
                    AreParsed-field left count r.1 rs.1 name r.0 rs.0 good (field_limit _ room) p ps

  parse_entries-NonEmpty :
      (name : Text) (v : JsonValue) (es : List (Text × JsonValue)) (count : ℕ)
      → Ensures (λ r. NonEmpty r.0) (parse_entries parse ((name, v) ∷ es) count)
  unfolding parse_entries
  parse_entries-NonEmpty name v es count =
      Ensures-guard (λ r. NonEmpty r.0) (is_field_name name) invalid_schema _
        λ _.
          Ensures-guard (λ r. NonEmpty r.0) (leb (count + 1) max_schema_fields) invalid_schema _
            λ _.
              Ensures-bind (IsParsed left (count + 1)) (λ r. NonEmpty r.0) (parse v (count + 1)) _
                (sound v (count + 1))
                λ r _.
                  Ensures-bind (AreParsed left r.1) (λ r. NonEmpty r.0) (parse_entries parse es r.1)
                    _ (parse_entries_sound es r.1) λ _ _. tt

  parse_fields_sound :
      (input : Option JsonValue) (count : ℕ)
      → Ensures (λ r. NonEmpty r.0 × AreParsed left count r) (parse_fields parse input count)
  unfolding parse_fields
  parse_fields_sound (some (object (member k v ms))) count =
      Ensures-both (λ r. NonEmpty r.0) (AreParsed left count)
        (parse_entries parse ((k, v) ∷ entries ms) count)
        (parse_entries-NonEmpty k v (entries ms) count)
        (parse_entries_sound ((k, v) ∷ entries ms) count)
  parse_fields_sound _ count = tt

  parse_items_sound :
      (input : Option JsonValue) (optional : Bool) (count : ℕ)
      → Ensures (IsParsed (suc left) count) (parse_items parse input optional count)
  unfolding parse_items count_schema_fields
  parse_items_sound none optional count = tt
  parse_items_sound (some items) optional count =
      Ensures-guard (IsParsed (suc left) count) (leb (count + 1) max_schema_fields) invalid_schema _
        λ room.
          Ensures-bind (IsParsed left (count + 1)) (IsParsed (suc left) count)
            (parse items (count + 1)) _ (sound items (count + 1))
            λ r p. record {
              named = p.named;
              nested = omega (arith, p.nested);
              counted = omega (arith, p.counted);
              limited = λ _. p.limited (field_limit _ room);
            }

  parse_array_sound :
      (input : List (Text × JsonValue)) (optional : Bool) (count : ℕ)
      → Ensures (IsParsed (suc left) count) (parse_array (some parse) input optional count)
  unfolding parse_array
  parse_array_sound input optional count =
      Ensures-guard (IsParsed (suc left) count) _ invalid_schema
        (parse_items parse (get (codes "items") input) optional count)
        λ _. parse_items_sound (get (codes "items") input) optional count

  parse_object_sound :
      (input : List (Text × JsonValue)) (optional : Bool) (count : ℕ)
      → Ensures (IsParsed (suc left) count) (parse_object (some parse) input optional count)
  unfolding parse_object count_schema_fields
  parse_object_sound input optional count =
      Ensures-guard (IsParsed (suc left) count) _ invalid_schema _ λ _.
        Ensures-bind (λ r. NonEmpty r.0 × AreParsed left count r) (IsParsed (suc left) count)
          (parse_fields parse (get (codes "fields") input) count)
          (λ r. ok (object_of r.0 optional, r.1))
          (parse_fields_sound (get (codes "fields") input) count)
          λ r p. record {
            named = (p.0, p.1.named);
            nested = omega (arith, p.1.nested);
            counted = omega (arith, p.1.counted);
            limited = p.1.limited;
          }

-- One level of the parser, from what its arrays and objects give.
module _ (left : ℕ) (below : Option DescriptorParser)
    (array_sound : (input : List (Text × JsonValue)) (optional : Bool) (count : ℕ)
      → Ensures (IsParsed left count) (parse_array below input optional count))
    (object_sound : (input : List (Text × JsonValue)) (optional : Bool) (count : ℕ)
      → Ensures (IsParsed left count) (parse_object below input optional count)) where
  parse_kind_sound :
      (input : List (Text × JsonValue)) (known : Option ScalarFieldType) (kind : Text)
      (optional : Bool) (count : ℕ)
      → Ensures (IsParsed left count) (parse_kind below input known kind optional count)
  unfolding parse_kind count_schema_fields
  parse_kind_sound input (some known) kind optional count =
      Ensures-guard (IsParsed left count) _ invalid_schema (ok (scalar known optional, count))
        λ _. record { named = tt; nested = omega arith; counted = omega arith; limited = λ h. h }
  parse_kind_sound input none kind optional count =
      Ensures-if (IsParsed left count) (text_eq kind (codes "array")) _ _
        (λ _. array_sound input optional count)
        (λ _.
          Ensures-if (IsParsed left count) (text_eq kind (codes "object")) _ (fail invalid_schema)
            (λ _. object_sound input optional count) (λ _. tt))

  parse_type_sound :
      (input : List (Text × JsonValue)) (found : Option JsonValue) (count : ℕ)
      → Ensures (IsParsed left count) (parse_type below input found count)
  unfolding parse_type
  parse_type_sound input (some (string kind)) count =
      Ensures-bind (λ _. Unit {0}) (IsParsed left count)
        (parse_optional (get (codes "optional") input)) _ (Ensures-of (λ _. Unit {0}) _ λ _ _. tt)
        λ optional _. parse_kind_sound input (scalar_type kind) kind optional count
  parse_type_sound input _ count = tt

  parse_level-IsSound : IsSound left (parse_level below)
  unfolding parse_level
  parse_level-IsSound (object ms) count =
      parse_type_sound (entries ms) (get (codes "type") (entries ms)) count
  parse_level-IsSound _ count = tt

parse_descriptor-IsSound : (left : ℕ) → IsSound left (parse_descriptor left)
unfolding parse_descriptor parse_array parse_object
parse_descriptor-IsSound zero =
    parse_level-IsSound zero none
      (λ input optional count.
        Ensures-guard (IsParsed zero count) _ invalid_schema (fail invalid_schema) λ _. tt)
      (λ input optional count.
        Ensures-guard (IsParsed zero count) _ invalid_schema (fail invalid_schema) λ _. tt)
parse_descriptor-IsSound (suc left) =
    let sound = parse_descriptor-IsSound left in
    parse_level-IsSound (suc left) (some (parse_descriptor left))
      (parse_array_sound left (parse_descriptor left) sound)
      (parse_object_sound left (parse_descriptor left) sound)

abbrev IsByteLength : Text → ℕ → Type 0
IsByteLength value n = (assert_well_formed value ≡ ok tt) × (n ≡ length (encode_utf8 value))

IsByteLength-sound : (value : Text) → Ensures (IsByteLength value) (utf8_byte_length value)
unfolding utf8_byte_length
IsByteLength-sound value =
    Ensures-bind (λ _. assert_well_formed value ≡ ok tt) (IsByteLength value)
      (assert_well_formed value) (λ _. ok (length (encode_utf8 value)))
      (Ensures-of (λ _. assert_well_formed value ≡ ok tt) (assert_well_formed value) λ _ e. e)
      λ _ e. (e, refl)

fits_bounds : (n most : ℕ) → (ltb n 1 || ltb most n) ≡ false → (1 ≤ n) × (n ≤ most)
fits_bounds n most h = ground arith

parse_text_sound :
    (input : Option JsonValue) (most : ℕ) → Ensures (IsText most) (parse_text input most)
unfolding parse_text
parse_text_sound (some (string value)) most =
    Ensures-if (IsText most) (any is_control value) (fail invalid_schema) _ (λ _. tt)
      λ plain.
        Ensures-bind (IsByteLength value) (IsText most) (utf8_byte_length value)
          (λ n. if ltb n 1 || ltb most n then fail invalid_schema else ok value)
          (IsByteLength-sound value)
          λ n p.
            Ensures-if (IsText most) (ltb n 1 || ltb most n) (fail invalid_schema) (ok value)
              (λ _. tt)
              λ fits.
                let (least, greatest) = fits_bounds n most fits in
                (plain, p.0, rw (← p.1) least, rw (← p.1) greatest)
parse_text_sound _ most = tt

parse_relation_sound : (input : Option JsonValue) → Ensures IsRelation (parse_relation input)
unfolding parse_relation
parse_relation_sound none = tt
parse_relation_sound (some (string value)) =
    Ensures-if IsRelation (is_schema_uid value) (ok (some value)) (fail invalid_schema) (λ h. h)
      (λ _. tt)
parse_relation_sound (some _) = tt

not-true : (b : Bool) → not b ≡ true → b ≡ false
not-true b h = ground arith

parse_schema_entries_sound :
    (input : List (Text × JsonValue)) → Ensures IsSchema (parse_schema_entries input)
unfolding parse_schema_entries
parse_schema_entries_sound input =
    Ensures-guard IsSchema (all (λ k. has k schema_properties) (keys input)) invalid_schema _ λ _.
      Ensures-guard IsSchema (is_version (get (codes "xcsVersion") input)) invalid_schema _ λ _.
        Ensures-bind IsRelation IsSchema (parse_relation (get (codes "extends") input)) _
          (parse_relation_sound (get (codes "extends") input))
          λ parent p.
            Ensures-bind IsRelation IsSchema (parse_relation (get (codes "supersedes") input)) _
              (parse_relation_sound (get (codes "supersedes") input))
              λ predecessor q.
                Ensures-guard IsSchema (not (same_relation parent predecessor)) invalid_schema _
                  λ distinct.
                    Ensures-bind (IsText 64) IsSchema (parse_text (get (codes "name") input) 64) _
                      (parse_text_sound (get (codes "name") input) 64)
                      λ name n.
                        Ensures-bind (IsText 256) IsSchema
                          (parse_text (get (codes "description") input) 256) _
                          (parse_text_sound (get (codes "description") input) 256)
                          λ description d.
                            Ensures-bind (λ r. NonEmpty r.0 × AreParsed 15 0 r) IsSchema
                              (parse_fields (parse_descriptor 15) (get (codes "fields") input) 0)
                              (λ r. ok (record {
                                name = name;
                                description = description;
                                fields = r.0;
                                parent = parent;
                                predecessor = predecessor;
                              }))
                              (parse_fields_sound 15 (parse_descriptor 15)
                                (parse_descriptor-IsSound 15) (get (codes "fields") input) 0)
                              λ r f. record {
                                nonempty = f.0;
                                named = f.1.named;
                                nested = f.1.nested;
                                counted = omega (arith, f.1.counted, f.1.limited (omega arith));
                                name_text = n;
                                description_text = d;
                                parent_uid = p;
                                predecessor_uid = q;
                                distinct = not-true _ distinct;
                              }

parse_schema-Ensures : (input : JsonValue) → Ensures IsSchema (parse_schema input)
unfolding parse_schema
parse_schema-Ensures (object ms) = parse_schema_entries_sound (entries ms)
parse_schema-Ensures _ = tt

-- A definition that `parseSchema` gives out has 1 to 256 descriptors by `countSchemaFields`, at
-- most 16 levels, no empty object and field names only; its name and description are Unicode text
-- (up to a last unpaired high surrogate) of 1 to 64 and 1 to 256 bytes without control characters,
-- and its relations are two different schema UIDs, or absent.
pub parse_schema-IsSchema :
    (input : JsonValue) (s : SchemaDefinition) → parse_schema input ≡ ok s → IsSchema s
parse_schema-IsSchema input s h =
    Ensures-at IsSchema (parse_schema input) s (parse_schema-Ensures input) h
