-- ===== src/Tests/Texts.antt =====
-- The Unicode check.
use xcs.Common.{◌≡◌, ◌↔◌, refl, [], ◌∷◌, ok, err}
use xcs.Core.Errors.{unsupported_json_value}
use xcs.Core.Json.{assert_well_formed}
use xcs.Core.Json.WellFormed.{Passes, assert_well_formed_iff}

lone_low_fails : assert_well_formed (0x61 ∷ 0xdc00 ∷ []) ≡ err unsupported_json_value
unfolding assert_well_formed
lone_low_fails = refl

lone_high_before_text_fails : assert_well_formed (0xd800 ∷ 0x61 ∷ []) ≡ err unsupported_json_value
unfolding assert_well_formed
lone_high_before_text_fails = refl

lone_high_at_the_end_passes : assert_well_formed (0x61 ∷ 0xd800 ∷ []) ≡ ok tt
unfolding assert_well_formed
lone_high_at_the_end_passes = refl

assert_well_formed_iff_example :
    (assert_well_formed (0xd83d ∷ 0xde00 ∷ []) ≡ ok tt) ↔ Passes (0xd83d ∷ 0xde00 ∷ [])
assert_well_formed_iff_example = assert_well_formed_iff (0xd83d ∷ 0xde00 ∷ [])
