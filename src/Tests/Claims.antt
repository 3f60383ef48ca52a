-- ===== src/Tests/Claims.antt =====
-- Claims at an object with a number and a text, with stand-ins for the libraries.
use xcs.Common.{
  ◌^◌, ◌<◌, ◌≡◌, ◌↔◌, refl, ℕ, Bool, Text, codes, true, false, List, [], some, ok, err,
}
use xcs.Core.Errors.{invalid_claims}
use xcs.Core.Json.{JsonValue, string, object, Members, end, member, entries, from_entries, keys}
use xcs.Core.Libraries.{Libraries}
use xcs.Core.Schema.{SchemaFields, string_type, uint_type, scalar, object_of, no_fields, field}
use xcs.Core.Claims.{is_uint256, is_int256, parse_claims}
use xcs.Core.Claims.Numerals.{Numeral, is_uint256_iff}
use xcs.Core.Claims.Signed.{SignedNumeral, IsInt256, is_int256_iff}
use xcs.Core.Claims.Conforms.{Conforms, parse_claims_iff}
use xcs.Core.Claims.Order.{present_names, parse_claims-keys}

-- Every text is an address, and bytes are their own encoding.
abbrev pub plain_libraries : Libraries
plain_libraries = record {
  is_valid_classic_address = λ s. true;
  base64_decode = λ s. some s;
  base64_encode = λ bytes. bytes;
}

abbrev person_fields : SchemaFields
person_fields =
    field (codes "name") (scalar string_type false)
      (field (codes "age") (scalar uint_type true) no_fields)

abbrev person_members : Members
person_members =
    member (codes "age") (string (codes "41")) (member (codes "name") (string (codes "Ada")) end)

abbrev person_claims : JsonValue
person_claims =
    object (
      member (codes "name") (string (codes "Ada")) (member (codes "age") (string (codes "41")) end))

person_parses :
    parse_claims plain_libraries (object person_members) person_fields ≡ ok person_claims
unfolding parse_claims
person_parses = refl

leading_zero_fails :
    parse_claims plain_libraries
      (object (member (codes "age") (string (codes "041")) (member (codes "name") (string []) end)))
      person_fields
    ≡ err invalid_claims
unfolding parse_claims
leading_zero_fails = refl

is_uint256_iff_example :
    (is_uint256 (codes "41") ≡ true) ↔ ((n : ℕ) × Numeral (codes "41") n × (n < 2 ^ 256))
is_uint256_iff_example = is_uint256_iff (codes "41")

is_int256_iff_example :
    (is_int256 (codes "-41") ≡ true)
    ↔ ((negative : Bool) × (n : ℕ) × SignedNumeral (codes "-41") negative n × IsInt256 negative n)
is_int256_iff_example = is_int256_iff (codes "-41")

parse_claims_iff_example :
    ((claims : JsonValue) × (parse_claims plain_libraries (object person_members) person_fields
        ≡ ok claims))
    ↔ Conforms plain_libraries (object_of person_fields false) (object person_members)
parse_claims_iff_example = parse_claims_iff plain_libraries (object person_members) person_fields

parse_claims-keys_example :
    (es : List (Text × JsonValue)) × (person_claims ≡ object (from_entries es))
    × (keys es ≡ present_names person_fields (entries person_members))
parse_claims-keys_example =
    parse_claims-keys plain_libraries person_members person_fields person_claims person_parses
