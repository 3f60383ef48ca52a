-- ===== src/Core/Json/Utf8.antt =====
-- The length of a text in UTF-8: json.ts, lines 165 to 168.
use xcs.Common.{ℕ, true, ◌≡◌, ◌≤◌, arith, length}
use xcs.Core.Json.{is_high, is_low, encode_point, encode_unit, join}

-- A unit takes at most three bytes, and a pair of units at most four.
encode_unit_bounds :
    (c : ℕ) → c ≤ 0xffff → (1 ≤ length (encode_unit c)) × (length (encode_unit c) ≤ 3)
unfolding encode_unit
encode_unit_bounds c h = ground arith

encode_pair_bounds :
    (c d : ℕ) → is_high c ≡ true → is_low d ≡ true → length (encode_point (join c d)) ≡ 4
unfolding encode_point join is_high is_low
encode_pair_bounds c d h l = ground arith
