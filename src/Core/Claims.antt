-- ===== src/Core/Claims.antt =====
-- packages/core/src/claims.ts: the claims of a credential against the fields of its schema.
pub mod Numerals
pub mod Signed
pub mod Conforms
pub mod Order
use mathlib.Core.Option
use xcs.Common.{
  ℕ, zero, suc, ◌+◌, ◌-◌, ◌*◌, ◌≤◌, Text, codes, Bool, true, false, not, ◌&&◌, ◌||◌, List, [], ◌∷◌,
  map, Option, none, some, ok, leb, ltb, ◌==◌, text_eq, length, all, if◌then◌else◌, guard, ◌>>=◌,
  ◌>>◌, is_digit,
}
use xcs.Core.Errors.{Checked, fail, invalid_claims}
use xcs.Core.Json.{
  JsonValue, null, bool, number, string, array, object, Items, nil, cons, Members, entries,
  from_entries, get, has, keys,
}
use xcs.Core.Libraries.{Libraries}
use xcs.Core.Schema.{
  ScalarFieldType, string_type, bool_type, uint_type, int_type, bytes_type, address_type,
  FieldDescriptor, scalar, array_of, object_of, SchemaFields, no_fields, field,
}

abbrev pub uint256_max : ℕ
uint256_max = 115792089237316195423570985008687907853269984665640564039457584007913129639935

abbrev pub int256_max : ℕ
int256_max = 57896044618658097711785492504343953926634992332820282019728792003956564819967

-- -INT256_MIN
abbrev pub int256_min_size : ℕ
int256_min_size = 57896044618658097711785492504343953926634992332820282019728792003956564819968

unfoldable pub is_positive_decimal : Text → Bool
unfolding is_digit
is_positive_decimal [] = false
is_positive_decimal (c ∷ rest) = (leb b'1' c && leb c b'9') && all is_digit rest

-- UNSIGNED_INTEGER = /^(?:0|[1-9][0-9]*)$/
unfoldable pub is_unsigned_integer : Text → Bool
unfolding text_eq is_positive_decimal
is_unsigned_integer value = text_eq value (codes "0") || is_positive_decimal value

-- An optional minus sign and the rest.
abbrev pub split_sign : Text → Bool × Text
split_sign [] = (false, [])
split_sign (c ∷ rest) = if c == b'-' then (true, rest) else (false, c ∷ rest)

-- SIGNED_INTEGER = /^(?:0|-?[1-9][0-9]*)$/
unfoldable pub is_signed_integer : Text → Bool
unfolding text_eq is_positive_decimal
is_signed_integer value = text_eq value (codes "0") || is_positive_decimal (split_sign value).1

-- `BigInt(value)` of decimal digits
unfoldable pub decimal_from : ℕ → Text → ℕ
decimal_from acc [] = acc
decimal_from acc (c ∷ rest) = decimal_from (acc * 10 + (c - b'0')) rest

abbrev pub decimal : Text → ℕ
decimal value = decimal_from 0 value

unfoldable pub is_uint256 : Text → Bool
unfolding is_unsigned_integer decimal_from
is_uint256 value =
    is_unsigned_integer value && not (ltb 78 (length value) || ltb uint256_max (decimal value))

-- `integer < INT256_MIN || integer > INT256_MAX`
unfoldable pub out_of_int256 : Bool × Text → Bool
unfolding decimal_from
out_of_int256 (true, digits) = ltb int256_min_size (decimal digits)
out_of_int256 (false, digits) = ltb int256_max (decimal digits)

unfoldable pub is_int256 : Text → Bool
unfolding is_signed_integer out_of_int256
is_int256 value =
    is_signed_integer value && not (ltb 79 (length value) || out_of_int256 (split_sign value))

abbrev pub optional_of : FieldDescriptor → Bool
optional_of (scalar t o) = o
optional_of (array_of d o) = o
optional_of (object_of fs o) = o

-- `Object.keys(fields)`
abbrev pub field_names : SchemaFields → List Text
field_names no_fields = []
field_names (field name d rest) = name ∷ field_names rest

-- A field that the input lacks is skipped if it is optional; `parsed` is the run on what it has.
unfoldable pub take_claim :
    Text
    → Bool
    → Option (Checked JsonValue)
    → Checked (List (Text × JsonValue))
    → Checked (List (Text × JsonValue))
take_claim name optional none rest = if optional then rest else fail invalid_claims
take_claim name optional (some parsed) rest = do
  claim ← parsed
  claims ← rest
  ok ((name, claim) ∷ claims)

-- `value.map(…)`
unfoldable pub parse_elements : (JsonValue → Checked JsonValue) → Items → Checked Items
parse_elements parse nil = ok nil
parse_elements parse (cons x xs) = do
  item ← parse x
  items ← parse_elements parse xs
  ok (cons item items)

module _ (libraries : Libraries) where
  open libraries use {is_valid_classic_address, base64_decode, base64_encode}

  unfoldable pub is_canonical_base64url : Text → Bool
  unfolding text_eq
  is_canonical_base64url value = elim (base64_decode value) [
    | none ↦ false
    | some bytes ↦ text_eq (base64_encode bytes) value
  ]

  unfoldable pub accepts_scalar : ScalarFieldType → JsonValue → Bool
  unfolding is_uint256 is_int256 is_canonical_base64url
  accepts_scalar string_type (string s) = true
  accepts_scalar bool_type (bool b) = true
  accepts_scalar uint_type (string s) = is_uint256 s
  accepts_scalar int_type (string s) = is_int256 s
  accepts_scalar bytes_type (string s) = is_canonical_base64url s
  accepts_scalar address_type (string s) = is_valid_classic_address s
  accepts_scalar _ _ = false

  unfoldable mutual
    unfolding accepts_scalar parse_elements take_claim get has

    pub parse_value : FieldDescriptor → JsonValue → Checked JsonValue
    parse_value (scalar t o) value =
        if accepts_scalar t value then ok value else fail invalid_claims
    parse_value (array_of d o) (array xs) = do
      items ← parse_elements (parse_value d) xs
      ok (array items)
    parse_value (array_of d o) _ = fail invalid_claims
    parse_value (object_of fs o) (object ms) = do
      guard (all (λ k. has k (field_names fs)) (keys (entries ms))) invalid_claims
      claims ← parse_members fs (entries ms)
      ok (object (from_entries claims))
    parse_value (object_of fs o) _ = fail invalid_claims

    -- the loop over the fields in `parseObject`
    pub parse_members : SchemaFields → List (Text × JsonValue) → Checked (List (Text × JsonValue))
    parse_members no_fields input = ok []
    parse_members (field name d rest) input =
        take_claim name (optional_of d) (Option.map (parse_value d) (get name input))
          (parse_members rest input)

  -- `parseObject` on the fields of the schema
  unfoldable pub parse_claims : JsonValue → SchemaFields → Checked JsonValue
  unfolding parse_value
  parse_claims input fields = parse_value (object_of fields false) input
