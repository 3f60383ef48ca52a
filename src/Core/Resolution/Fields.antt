-- ===== src/Core/Resolution/Fields.antt =====
-- Adding the fields of a schema to the inherited ones: schema-resolution.ts, lines 100 to 109.
use xcs.Common.{
  ◌≡◌, refl, Text, Bool, true, false, not, ◌||◌, List, [], ◌∷◌, All, ok, arith, Ensures,
  Ensures-guard, Ensures-map, text_eq, text_eq_iff, or_false, ◌∙◌, ap,
}
use xcs.Core.Errors.{invalid_schema_reference}
use xcs.Core.Json.{has}
use xcs.Core.Schema.{FieldDescriptor, SchemaFields, no_fields, field}
use xcs.Core.Claims.{field_names}
use xcs.Core.Resolution.{snoc_field, add_fields}

abbrev pub append_fields : SchemaFields → SchemaFields → SchemaFields
append_fields no_fields own = own
append_fields (field name d rest) own = field name d (append_fields rest own)

-- no name twice
abbrev pub Distinct : List Text → Type 0
Distinct [] = Unit
Distinct (k ∷ ks) = (has k ks ≡ false) × Distinct ks

-- The own fields have new names, and different ones.
abbrev pub AreNew : SchemaFields → SchemaFields → Type 0
AreNew inherited own =
    All (λ name. has name (field_names inherited) ≡ false) (field_names own)
    × Distinct (field_names own)

-- the state of the loop: what is added so far has the names of both
has-snoc :
    (k name : Text) (d : FieldDescriptor) (inherited : SchemaFields)
    → has k (field_names (snoc_field inherited name d))
      ≡ (has k (field_names inherited) || text_eq name k)
unfolding has snoc_field
has-snoc k name d no_fields = ground arith
has-snoc k name d (field n e rest) = ground (arith, has-snoc k name d rest)

text_eq_comm : (s t : Text) → text_eq s t ≡ text_eq t s
text_eq_comm s t = ground (arith, text_eq_iff s t, text_eq_iff t s)

-- names that are new for the fields with `name` added are new, and other than `name`
new_before :
    (name : Text) (d : FieldDescriptor) (inherited : SchemaFields) (ks : List Text)
    → All (λ k. has k (field_names (snoc_field inherited name d)) ≡ false) ks
    → All (λ k. has k (field_names inherited) ≡ false) ks × (has name ks ≡ false)
unfolding has
new_before name d inherited [] h = (tt, refl)
new_before name d inherited (k ∷ ks) (p, h) =
    let (ps, other) = new_before name d inherited ks h in
    let (old, differs) = or_false _ _ (rw has-snoc at p) in
    ((old, ps), rw (text_eq_comm k name, differs) other)

new_after :
    (name : Text) (d : FieldDescriptor) (inherited : SchemaFields) (ks : List Text)
    → All (λ k. has k (field_names inherited) ≡ false) ks
    → has name ks ≡ false
    → All (λ k. has k (field_names (snoc_field inherited name d)) ≡ false) ks
unfolding has
new_after name d inherited [] h e = tt
new_after name d inherited (k ∷ ks) (p, h) e =
    let (differs, other) = or_false _ _ e in
    (
      rw (has-snoc k name d inherited, p, text_eq_comm name k) differs,
      new_after name d inherited ks h other,
    )

append-snoc :
    (inherited own : SchemaFields) (name : Text) (d : FieldDescriptor)
    → append_fields (snoc_field inherited name d) own ≡ append_fields inherited (field name d own)
unfolding snoc_field
append-snoc no_fields own name d = refl
append-snoc (field n e rest) own name d = rw (append-snoc rest own name d)

abbrev pub IsMerged : SchemaFields → SchemaFields → SchemaFields → Type 0
IsMerged inherited own merged = AreNew inherited own × (merged ≡ append_fields inherited own)

not-false : (b : Bool) → not b ≡ true → b ≡ false
not-false b h = ground arith

append-end : (inherited : SchemaFields) → append_fields inherited no_fields ≡ inherited
append-end no_fields = refl
append-end (field n e rest) = rw (append-end rest)

pub add_fields_sound :
    (inherited own : SchemaFields) → Ensures (IsMerged inherited own) (add_fields inherited own)
unfolding add_fields
add_fields_sound inherited no_fields = ((tt, tt), rw (append-end inherited))
add_fields_sound inherited (field name d rest) =
    Ensures-guard (IsMerged inherited (field name d rest)) (not (has name (field_names inherited)))
      invalid_schema_reference (add_fields (snoc_field inherited name d) rest)
      λ new.
        Ensures-map (IsMerged (snoc_field inherited name d) rest)
          (IsMerged inherited (field name d rest)) _
          (add_fields_sound (snoc_field inherited name d) rest)
          λ merged m.
            let (old, other) = new_before name d inherited (field_names rest) m.0.0 in
            (((not-false _ new, old), (other, m.0.1)), m.1 ∙ append-snoc inherited rest name d)

pub add_fields_complete :
    (inherited own : SchemaFields)
    → AreNew inherited own
    → add_fields inherited own ≡ ok (append_fields inherited own)
unfolding add_fields
add_fields_complete inherited no_fields h = rw (append-end inherited)
add_fields_complete inherited (field name d rest) ((p, ps), (other, distinct)) = rw p (
    add_fields_complete (snoc_field inherited name d) rest
      (new_after name d inherited (field_names rest) ps other, distinct)
    ∙ ap ok (append-snoc inherited rest name d))
