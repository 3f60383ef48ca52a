-- ===== src/Core/Schema/Valid.antt =====
-- The definitions that `parseSchema` gives out: schema.ts, lines 93 to 192.
use xcs.Common.{ℕ, suc, ◌-◌, ◌≤◌, ◌≡◌, Text, true, false, any, Option, none, some, max, ok, length}
use xcs.Core.Json.{encode_utf8, assert_well_formed}
use xcs.Core.Schema.{
  FieldDescriptor, scalar, array_of, object_of, SchemaFields, no_fields, field, SchemaDefinition,
  is_field_name, is_schema_uid, is_control, same_relation, count_schema_fields, max_schema_depth,
  max_schema_fields,
}

abbrev pub NonEmpty : SchemaFields → Type 0
NonEmpty no_fields = ⊥
NonEmpty (field name d rest) = Unit

-- Every name is a field name, and no object below is empty.
abbrev mutual
  pub WellNamed : FieldDescriptor → Type 0
  WellNamed (scalar t o) = Unit
  WellNamed (array_of d o) = WellNamed d
  WellNamed (object_of fs o) = NonEmpty fs × WellNamedFields fs

  pub WellNamedFields : SchemaFields → Type 0
  WellNamedFields no_fields = Unit
  WellNamedFields (field name d rest) =
      (is_field_name name ≡ true) × WellNamed d × WellNamedFields rest

-- How many arrays and objects stand one in another.
abbrev mutual
  pub nesting : FieldDescriptor → ℕ
  nesting (scalar t o) = 0
  nesting (array_of d o) = suc (nesting d)
  nesting (object_of fs o) = suc (nesting_fields fs)

  pub nesting_fields : SchemaFields → ℕ
  nesting_fields no_fields = 0
  nesting_fields (field name d rest) = max (nesting d) (nesting_fields rest)

abbrev pub IsRelation : Option Text → Type 0
IsRelation none = Unit
IsRelation (some uid) = is_schema_uid uid ≡ true

-- 1 to `most` bytes of UTF-8, and no control character
abbrev pub IsText : ℕ → Text → Type 0
IsText most t =
    (any is_control t ≡ false)
    × (assert_well_formed t ≡ ok tt)
    × (1 ≤ length (encode_utf8 t))
    × (length (encode_utf8 t) ≤ most)

pub record IsSchema (s : SchemaDefinition) : Type 0 where
  pub nonempty : NonEmpty s.fields
  pub named : WellNamedFields s.fields
  pub nested : nesting_fields s.fields ≤ max_schema_depth - 1
  pub counted : count_schema_fields s.fields ≤ max_schema_fields
  pub name_text : IsText 64 s.name
  pub description_text : IsText 256 s.description
  pub parent_uid : IsRelation s.parent
  pub predecessor_uid : IsRelation s.predecessor
  pub distinct : same_relation s.parent s.predecessor ≡ false
