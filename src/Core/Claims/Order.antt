-- ===== src/Core/Claims/Order.antt =====
-- The order and the choice of the claims that `parseClaims` gives out: claims.ts, lines 81 to 102.
use mathlib.Core.Option
use xcs.Common.{
  ◌≡◌, refl, ap, Text, Bool, true, false, List, [], ◌∷◌, Option, none, some, ok, Ensures,
  Ensures-bind, Ensures-of, Ensures-at, Ensures-guard, all,
}
use xcs.Core.Errors.{Checked, invalid_claims}
use xcs.Core.Json.{JsonValue, object, Members, entries, from_entries, get, has, keys}
use xcs.Core.Libraries.{Libraries}
use xcs.Core.Schema.{SchemaFields, no_fields, field}
use xcs.Core.Claims.{optional_of, field_names, take_claim, parse_value, parse_members, parse_claims}

abbrev pub with_name : Text → Option JsonValue → List Text → List Text
with_name name none names = names
with_name name (some v) names = name ∷ names

-- The names of the fields that the input has, in the order of the schema.
abbrev pub present_names : SchemaFields → List (Text × JsonValue) → List Text
present_names no_fields input = []
present_names (field name d rest) input = with_name name (get name input) (present_names rest input)

abbrev HasKeys : List Text → List (Text × JsonValue) → Type 0
HasKeys names claims = keys claims ≡ names

take_keys :
    (name : Text) (optional : Bool) (parse : JsonValue → Checked JsonValue)
    (found : Option JsonValue) (names : List Text) (rest : Checked (List (Text × JsonValue)))
    → Ensures (HasKeys names) rest
    → Ensures
        (HasKeys (with_name name found names))
        (take_claim name optional (Option.map parse found) rest)
unfolding take_claim
take_keys name true parse none names rest h = h
take_keys name false parse none names rest h = tt
take_keys name optional parse (some v) names rest h =
    Ensures-bind (λ _. Unit {0}) (HasKeys (name ∷ names)) (parse v) _
      (Ensures-of (λ _. Unit {0}) (parse v) λ _ _. tt)
      λ c _.
        Ensures-bind (HasKeys names) (HasKeys (name ∷ names)) rest
          (λ claims. ok ((name, c) ∷ claims)) h λ claims e. ap (λ ks. name ∷ ks) e

module _ (libraries : Libraries) where
  parse_members-keys :
      (fs : SchemaFields) (input : List (Text × JsonValue))
      → Ensures (HasKeys (present_names fs input)) (parse_members libraries fs input)
  unfolding parse_value
  parse_members-keys no_fields input = refl
  parse_members-keys (field name d rest) input =
      take_keys name (optional_of d) (parse_value libraries d) (get name input)
        (present_names rest input) (parse_members libraries rest input)
        (parse_members-keys rest input)

  abbrev HasClaims : List Text → JsonValue → Type 0
  HasClaims names claims =
      (es : List (Text × JsonValue)) × (claims ≡ object (from_entries es)) × (keys es ≡ names)

  -- The claims that `parseClaims` gives out are an object whose properties are the fields that the
  -- input has, each once for each place in the schema and in the order of the schema.
  pub parse_claims-keys :
      (ms : Members) (fields : SchemaFields) (claims : JsonValue)
      → parse_claims libraries (object ms) fields ≡ ok claims
      → (es : List (Text × JsonValue)) × (claims ≡ object (from_entries es))
        × (keys es ≡ present_names fields (entries ms))
  unfolding parse_claims
  parse_claims-keys ms fields claims h =
      Ensures-at (HasClaims (present_names fields (entries ms))) _ claims
        (Ensures-guard (HasClaims (present_names fields (entries ms)))
          (all (λ k. has k (field_names fields)) (keys (entries ms))) invalid_claims _
          λ _.
            Ensures-bind (HasKeys (present_names fields (entries ms)))
              (HasClaims (present_names fields (entries ms)))
              (parse_members libraries fields (entries ms)) (λ es. ok (object (from_entries es)))
              (parse_members-keys fields (entries ms)) λ es e. (es, refl, e))
        h
