-- ===== src/Core/Claims/Conforms.antt =====
-- When claims fit the fields of a schema, and that `parseClaims` decides it: claims.ts, lines 34
-- to 102.
use mathlib.Core.Option
use mathlib.Core.Bool.{false≢true}
use xcs.Common.{
  ℕ, ◌^◌, ◌<◌, ◌≡◌, ◌↔◌, refl, Text, Bool, true, false, List, [], ◌∷◌, Option, none, some, ok, all,
  All, Option-cases, inl, inr, text_eq_sound, text_eq_of_eq, Returns, Returns-value, Returns-of,
  Returns-first, Returns-second, Returns-guard, Returns-bind, and_true, if◌then◌else◌,
}
use xcs.Core.Errors.{Checked, fail, invalid_claims}
use xcs.Core.Json.{
  JsonValue, bool, string, array, object, Items, nil, cons, entries, from_entries, get, has, keys,
}
use xcs.Core.Libraries.{Libraries}
use xcs.Core.Schema.{
  ScalarFieldType, string_type, bool_type, uint_type, int_type, bytes_type, address_type,
  FieldDescriptor, scalar, array_of, object_of, SchemaFields, no_fields, field,
}
use xcs.Core.Claims.{
  optional_of, field_names, take_claim, parse_elements, is_canonical_base64url, accepts_scalar,
  parse_value, parse_members, parse_claims,
}
use xcs.Core.Claims.Numerals.{Numeral, is_uint256_iff}
use xcs.Core.Claims.Signed.{SignedNumeral, IsInt256, is_int256_iff}

abbrev AllItems : (JsonValue → Type 0) → Items → Type 0
AllItems P nil = Unit
AllItems P (cons x xs) = P x × AllItems P xs

-- a value that is there satisfies `P`, and only an optional one may be missing
abbrev IsClaim : (JsonValue → Type 0) → Bool → Option JsonValue → Type 0
IsClaim P optional none = optional ≡ true
IsClaim P optional (some v) = P v

if_Returns :
    {A : Type 0} (b : Bool) (rest : Checked A)
    → Returns (if b then rest else fail invalid_claims)
    → (b ≡ true) × Returns rest
if_Returns true rest h = (refl, h)
if_Returns false rest h = absurd h

Returns-if :
    {A : Type 0} (b : Bool) (rest : Checked A)
    → b ≡ true
    → Returns rest
    → Returns (if b then rest else fail invalid_claims)
Returns-if b rest e h = rw e h

all-All : (p : Text → Bool) (ks : List Text) → all p ks ≡ true → All (λ k. p k ≡ true) ks
all-All p [] h = tt
all-All p (k ∷ ks) h = let (here, later) = and_true (p k) (all p ks) h in (here, all-All p ks later)

All-all : (p : Text → Bool) (ks : List Text) → All (λ k. p k ≡ true) ks → all p ks ≡ true
All-all p [] h = refl
All-all p (k ∷ ks) (here, later) = rw (here, All-all p ks later)

module _ (libraries : Libraries) where
  open libraries use {is_valid_classic_address, base64_decode, base64_encode}

  abbrev ConformsScalar : ScalarFieldType → JsonValue → Type 0
  ConformsScalar string_type (string s) = Unit
  ConformsScalar bool_type (bool b) = Unit
  ConformsScalar uint_type (string s) = (n : ℕ) × Numeral s n × (n < 2 ^ 256)
  ConformsScalar int_type (string s) =
      (negative : Bool) × (n : ℕ) × SignedNumeral s negative n × IsInt256 negative n
  ConformsScalar bytes_type (string s) =
      (bytes : List ℕ) × (base64_decode s ≡ some bytes) × (base64_encode bytes ≡ s)
  ConformsScalar address_type (string s) = is_valid_classic_address s ≡ true
  ConformsScalar _ _ = ⊥

  abbrev mutual
    pub Conforms : FieldDescriptor → JsonValue → Type 0
    Conforms (scalar t o) v = ConformsScalar t v
    Conforms (array_of d o) (array xs) = AllItems (Conforms d) xs
    Conforms (array_of d o) _ = ⊥
    Conforms (object_of fs o) (object ms) =
        All (λ k. has k (field_names fs) ≡ true) (keys (entries ms))
        × ConformsFields fs (entries ms)
    Conforms (object_of fs o) _ = ⊥

    pub ConformsFields : SchemaFields → List (Text × JsonValue) → Type 0
    ConformsFields no_fields input = Unit
    ConformsFields (field name d rest) input =
        IsClaim (Conforms d) (optional_of d) (get name input) × ConformsFields rest input

  base64_iff :
      (s : Text)
      → (is_canonical_base64url libraries s ≡ true)
        ↔ ((bytes : List ℕ) × (base64_decode s ≡ some bytes) × (base64_encode bytes ≡ s))
  unfolding is_canonical_base64url
  base64_iff s = (
    λ h. elim (Option-cases (base64_decode s)) [
      | inl e ↦ absurd (false≢true (rw (e, is_canonical_base64url) at h))
      | inr (bytes, e) ↦
          (bytes, e, text_eq_sound (base64_encode bytes) s (rw (e, is_canonical_base64url) at h))
    ],
    λ (bytes, e, same). rw (e, is_canonical_base64url) (text_eq_of_eq (base64_encode bytes) s same),
  )

  accepts_scalar_iff :
      (t : ScalarFieldType) (v : JsonValue)
      → (accepts_scalar libraries t v ≡ true) ↔ ConformsScalar t v
  unfolding accepts_scalar
  accepts_scalar_iff uint_type (string s) = is_uint256_iff s
  accepts_scalar_iff int_type (string s) = is_int256_iff s
  accepts_scalar_iff bytes_type (string s) = base64_iff s
  accepts_scalar_iff address_type (string s) = (λ h. h, λ h. h)
  accepts_scalar_iff string_type (string s) = (λ _. tt, λ _. refl)
  accepts_scalar_iff bool_type (bool b) = (λ _. tt, λ _. refl)
  accepts_scalar_iff _ _ = (λ h. cc h, λ h. absurd h)

  elements_sound :
      (d : FieldDescriptor) (xs : Items)
      → ((x : JsonValue) → Returns (parse_value libraries d x) → Conforms d x)
      → Returns (parse_elements (parse_value libraries d) xs)
      → AllItems (Conforms d) xs
  unfolding parse_elements
  elements_sound d nil ih h = tt
  elements_sound d (cons x xs) ih h =
      let (v, e, later) = Returns-second (parse_value libraries d x) _ h in
      (
        ih x (Returns-of _ v e),
        elements_sound d xs ih
            (Returns-first (parse_elements (parse_value libraries d) xs) _ later),
      )

  elements_complete :
      (d : FieldDescriptor) (xs : Items)
      → ((x : JsonValue) → Conforms d x → Returns (parse_value libraries d x))
      → AllItems (Conforms d) xs
      → Returns (parse_elements (parse_value libraries d) xs)
  unfolding parse_elements
  elements_complete d nil ih h = tt
  elements_complete d (cons x xs) ih (p, ps) =
      Returns-bind (parse_value libraries d x) _ (ih x p) λ item.
        Returns-bind (parse_elements (parse_value libraries d) xs) (λ items. ok (cons item items))
          (elements_complete d xs ih ps) λ items. tt

  take_sound :
      (name : Text) (d : FieldDescriptor) (found : Option JsonValue)
      (rest : Checked (List (Text × JsonValue)))
      → ((x : JsonValue) → Returns (parse_value libraries d x) → Conforms d x)
      → Returns (take_claim name (optional_of d) (Option.map (parse_value libraries d) found) rest)
      → IsClaim (Conforms d) (optional_of d) found × Returns rest
  unfolding take_claim
  take_sound name d none rest ih h = if_Returns (optional_of d) rest h
  take_sound name d (some v) rest ih h =
      let (c, e, later) = Returns-second (parse_value libraries d v) _ h in
      (ih v (Returns-of _ c e), Returns-first rest _ later)

  take_complete :
      (name : Text) (d : FieldDescriptor) (found : Option JsonValue)
      (rest : Checked (List (Text × JsonValue)))
      → ((x : JsonValue) → Conforms d x → Returns (parse_value libraries d x))
      → IsClaim (Conforms d) (optional_of d) found
      → Returns rest
      → Returns (take_claim name (optional_of d) (Option.map (parse_value libraries d) found) rest)
  unfolding take_claim
  take_complete name d none rest ih h r = Returns-if (optional_of d) rest h r
  take_complete name d (some v) rest ih h r =
      Returns-bind (parse_value libraries d v) _ (ih v h)
        λ c. Returns-bind rest (λ claims. ok ((name, c) ∷ claims)) r λ _. tt

  mutual
    unfolding parse_value

    parse_value_sound :
        (d : FieldDescriptor) (v : JsonValue) → Returns (parse_value libraries d v) → Conforms d v
    parse_value_sound (scalar t o) v h =
        (accepts_scalar_iff t v).0 (if_Returns (accepts_scalar libraries t v) (ok v) h).0
    parse_value_sound (array_of d o) (array xs) h =
        elements_sound d xs (parse_value_sound d)
          (Returns-first (parse_elements (parse_value libraries d) xs) _ h)
    parse_value_sound (array_of d o) _ h = absurd h
    parse_value_sound (object_of fs o) (object ms) h =
        let (known, later) =
          Returns-guard (all (λ k. has k (field_names fs)) (keys (entries ms))) invalid_claims _
            h in
        (
          all-All _ _ known,
          parse_members_sound fs (entries ms)
              (Returns-first (parse_members libraries fs (entries ms)) _ later),
        )
    parse_value_sound (object_of fs o) _ h = absurd h

    parse_members_sound :
        (fs : SchemaFields) (input : List (Text × JsonValue))
        → Returns (parse_members libraries fs input)
        → ConformsFields fs input
    parse_members_sound no_fields input h = tt
    parse_members_sound (field name d rest) input h =
        let (claim, later) =
          take_sound name d (get name input) (parse_members libraries rest input)
            (parse_value_sound d) h in
        (claim, parse_members_sound rest input later)

  mutual
    unfolding parse_value

    parse_value_complete :
        (d : FieldDescriptor) (v : JsonValue) → Conforms d v → Returns (parse_value libraries d v)
    parse_value_complete (scalar t o) v h =
        Returns-if (accepts_scalar libraries t v) (ok v) ((accepts_scalar_iff t v).1 h) tt
    parse_value_complete (array_of d o) (array xs) h =
        Returns-bind (parse_elements (parse_value libraries d) xs) (λ items. ok (array items))
          (elements_complete d xs (parse_value_complete d) h) λ _. tt
    parse_value_complete (array_of d o) _ h = absurd h
    parse_value_complete (object_of fs o) (object ms) (known, h) = rw (All-all _ _ known) (
        Returns-bind (parse_members libraries fs (entries ms))
          (λ claims. ok (object (from_entries claims))) (parse_members_complete fs (entries ms) h)
          λ _. tt)
    parse_value_complete (object_of fs o) _ h = absurd h

    parse_members_complete :
        (fs : SchemaFields) (input : List (Text × JsonValue))
        → ConformsFields fs input
        → Returns (parse_members libraries fs input)
    parse_members_complete no_fields input h = tt
    parse_members_complete (field name d rest) input (claim, h) =
        take_complete name d (get name input) (parse_members libraries rest input)
          (parse_value_complete d) claim (parse_members_complete rest input h)

  -- `parseClaims` returns exactly on the claims that fit: an object whose properties are all
  -- fields of the schema, with each field present or optional, and each value of its type (an
  -- unsigned or signed 256-bit number in canonical decimals, bytes in canonical base64url, an
  -- address, a text, a Boolean, an array or an object of such).
  pub parse_claims_iff :
      (input : JsonValue) (fields : SchemaFields)
      → ((claims : JsonValue) × (parse_claims libraries input fields ≡ ok claims))
        ↔ Conforms (object_of fields false) input
  unfolding parse_claims
  parse_claims_iff input fields = (
    λ (claims, e). parse_value_sound (object_of fields false) input (Returns-of _ claims e),
    λ h. Returns-value _ (parse_value_complete (object_of fields false) input h),
  )
