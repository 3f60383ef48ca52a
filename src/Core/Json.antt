-- ===== src/Core/Json.antt =====
-- packages/core/src/json.ts: JSON values and the Unicode check. A value is a finite tree without
-- cycles, with own properties in the order of `Object.entries`.
pub mod WellFormed
pub mod Utf8
pub mod Plain
use xcs.Common.{
  ℕ, Text, Bool, true, false, ◌&&◌, ◌||◌, List, [], ◌∷◌, ◌++◌, ◌+◌, ◌-◌, ◌*◌, ◌/◌, ◌%◌, Option,
  none, some, Result, ok, ltb, leb, text_eq, length, if◌then◌else◌, guard, ◌>>=◌, ◌>>◌, map, ◌==◌,
}
use xcs.Core.Errors.{Checked, fail, unsupported_json_value}

-- A number of JavaScript: an integer from 0 on, any other finite number, told apart by a tag, or one
-- that is not finite, such as the Infinity that `JSON.parse` makes of 1e999.
pub data JsonNumber : Type 0 where
  natural other : ℕ → JsonNumber
  non_finite : JsonNumber

mutual
  pub data JsonValue : Type 0 where
    null : JsonValue
    bool : Bool → JsonValue
    number : JsonNumber → JsonValue
    string : Text → JsonValue
    array : Items → JsonValue
    object : Members → JsonValue

  pub data Items : Type 0 where
    nil : Items
    cons : JsonValue → Items → Items

  pub data Members : Type 0 where
    end : Members
    member : Text → JsonValue → Members → Members

-- `Number.isFinite`
abbrev pub is_finite : JsonNumber → Bool
is_finite non_finite = false
is_finite _ = true

-- `Object.entries`
abbrev pub entries : Members → List (Text × JsonValue)
entries end = []
entries (member k v ms) = (k, v) ∷ entries ms

abbrev pub from_entries : List (Text × JsonValue) → Members
from_entries [] = end
from_entries ((k, v) ∷ es) = member k v (from_entries es)

-- `Object.keys`
abbrev pub keys : List (Text × JsonValue) → List Text
keys es = map (λ (e : Text × JsonValue). e.0) es

-- A read of an own property; `none` is `undefined`.
unfoldable pub get : Text → List (Text × JsonValue) → Option JsonValue
unfolding text_eq
get k [] = none
get k ((j, v) ∷ es) = if text_eq j k then some v else get k es

-- `allowed.has(key)` on a set of names
unfoldable pub has : Text → List Text → Bool
unfolding text_eq
has k [] = false
has k (j ∷ js) = text_eq j k || has k js

-- `typeof value === 'object' && value !== null && !Array.isArray(value)`
abbrev pub is_record : JsonValue → Option (List (Text × JsonValue))
is_record (object ms) = some (entries ms)
is_record _ = none

abbrev pub is_string : JsonValue → Option Text
is_string (string s) = some s
is_string _ = none

unfoldable pub is_high : ℕ → Bool
is_high c = leb 0xd800 c && leb c 0xdbff

unfoldable pub is_low : ℕ → Bool
is_low c = leb 0xdc00 c && leb c 0xdfff

-- A comparison with the NaN that `charCodeAt` gives past the end is false, so a high surrogate in
-- the last place passes.
unfoldable pub assert_well_formed : Text → Checked (Unit {0})
unfolding is_high is_low
assert_well_formed [] = ok tt
assert_well_formed (unit ∷ []) =
    if is_high unit then ok tt else if is_low unit then fail unsupported_json_value else ok tt
assert_well_formed (unit ∷ next ∷ rest) =
    let after_pair = assert_well_formed rest in
    let after_unit = assert_well_formed (next ∷ rest) in
    if is_high unit
    then (if ltb next 0xdc00 || ltb 0xdfff next then fail unsupported_json_value else after_pair)
    else if is_low unit
    then fail unsupported_json_value
    else after_unit

-- `assertJsonValueInternal` on a tree: every string and every key is well formed.
unfoldable mutual
  unfolding assert_well_formed

  pub assert_json_value : JsonValue → Checked (Unit {0})
  assert_json_value null = ok tt
  assert_json_value (bool b) = ok tt
  assert_json_value (number n) = guard (is_finite n) unsupported_json_value
  assert_json_value (string s) = assert_well_formed s
  assert_json_value (array xs) = assert_json_items xs
  assert_json_value (object ms) = assert_json_members ms

  pub assert_json_items : Items → Checked (Unit {0})
  assert_json_items nil = ok tt
  assert_json_items (cons x xs) = assert_json_value x >> assert_json_items xs

  pub assert_json_members : Members → Checked (Unit {0})
  assert_json_members end = ok tt
  assert_json_members (member k v ms) =
      assert_well_formed k >> (assert_json_value v >> assert_json_members ms)

-- `TextEncoder`: the bytes of a scalar value.
unfoldable pub encode_point : ℕ → List ℕ
encode_point p =
    if ltb p 0x80
    then p ∷ []
    else if ltb p 0x800
    then (0xc0 + p / 64) ∷ (0x80 + p % 64) ∷ []
    else if ltb p 0x10000
    then (0xe0 + p / 4096) ∷ (0x80 + p / 64 % 64) ∷ (0x80 + p % 64) ∷ []
    else (0xf0 + p / 262144) ∷ (0x80 + p / 4096 % 64) ∷ (0x80 + p / 64 % 64) ∷ (0x80 + p % 64) ∷ []

-- An unpaired surrogate is encoded as U+FFFD.
unfoldable pub encode_unit : ℕ → List ℕ
unfolding encode_point is_high is_low
encode_unit c = encode_point (if is_high c || is_low c then 0xfffd else c)

unfoldable pub join : ℕ → ℕ → ℕ
join high low = 0x10000 + (high - 0xd800) * 0x400 + (low - 0xdc00)

unfoldable pub encode_utf8 : Text → List ℕ
unfolding encode_unit join
encode_utf8 [] = []
encode_utf8 (c ∷ []) = encode_unit c
encode_utf8 (c ∷ d ∷ rest) =
    let after_pair = encode_point (join c d) ++ encode_utf8 rest in
    let after_unit = encode_unit c ++ encode_utf8 (d ∷ rest) in
    if is_high c && is_low d then after_pair else after_unit

unfoldable pub utf8_byte_length : Text → Checked ℕ
unfolding assert_well_formed encode_utf8
utf8_byte_length value = do assert_well_formed value; ok (length (encode_utf8 value))
