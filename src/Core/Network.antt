-- ===== src/Core/Network.antt =====
-- packages/core/src/network.ts: network profiles.
pub mod Profiles
use xcs.Common.{
  ℕ, zero, suc, Text, codes, Bool, true, false, ◌&&◌, ◌||◌, List, [], ◌∷◌, Option, none, some, ok,
  leb, ◌==◌, text_eq, length, all, if◌then◌else◌, guard, ◌>>=◌, ◌>>◌, is_digit, is_lower, is_hex,
  to_lower, to_upper,
}
use xcs.Core.Errors.{Checked, fail, invalid_network_profile}
use xcs.Core.Json.{
  JsonValue, JsonNumber, natural, other, number, string, object, Members, entries, get, has, keys,
}
use xcs.Core.Libraries.{Libraries}

-- `xcsVersion` is '0.1' and `registrationAmountDrops` is '1' in every profile.
pub record NetworkProfile : Type 0 where
  pub profile_id : Text
  pub network_id : ℕ
  pub required_amendment : Text
  pub registry_address : Text
  pub activation_ledger_index : ℕ
  pub activation_ledger_hash : Text

unfoldable pub is_profile_start : ℕ → Bool
unfolding is_lower is_digit
is_profile_start c = is_lower c || is_digit c

unfoldable pub is_profile_part : ℕ → Bool
unfolding is_profile_start
is_profile_part c = is_profile_start c || (c == b'.' || (c == b'_' || c == b'-'))

-- /^[a-z0-9][a-z0-9._-]{0,127}$/
unfoldable pub is_profile_id : Text → Bool
unfolding is_profile_start is_profile_part
is_profile_id [] = false
is_profile_id (c ∷ rest) = is_profile_start c && (all is_profile_part rest && leb (length rest) 127)

-- /^[0-9a-fA-F]{64}$/
unfoldable pub is_hash : Text → Bool
unfolding is_hex
is_hash value = all is_hex value && length value == 64

abbrev pub profile_properties : List Text
profile_properties =
    codes "profileId"
    ∷ codes "xcsVersion"
    ∷ codes "networkId"
    ∷ codes "requiredAmendment"
    ∷ codes "registryAddress"
    ∷ codes "registrationAmountDrops"
    ∷ codes "activationLedgerIndex"
    ∷ codes "activationLedgerHash"
    ∷ []

-- a text property that passes a test
unfoldable pub text_where : (Text → Bool) → Option JsonValue → Checked Text
text_where test (some (string value)) =
    if test value then ok value else fail invalid_network_profile
text_where test _ = fail invalid_network_profile

-- `isUint32`, with the number
unfoldable pub uint32_of : Option JsonValue → Checked ℕ
uint32_of (some (number (natural n))) =
    if leb n 0xffff_ffff then ok n else fail invalid_network_profile
uint32_of _ = fail invalid_network_profile

module _ (libraries : Libraries) where
  unfoldable pub parse_profile_entries : List (Text × JsonValue) → Checked NetworkProfile
  unfolding has get text_where is_profile_id uint32_of is_hash to_lower to_upper text_eq
  parse_profile_entries input = do
    guard (all (λ k. has k profile_properties) (keys input)) invalid_network_profile
    profile_id ← text_where is_profile_id (get (codes "profileId") input)
    version ← text_where (λ v. text_eq v (codes "0.1")) (get (codes "xcsVersion") input)
    network_id ← uint32_of (get (codes "networkId") input)
    amendment ← text_where is_hash (get (codes "requiredAmendment") input)
    registry ← text_where libraries.is_valid_classic_address (get (codes "registryAddress") input)
    drops ← text_where (λ v. text_eq v (codes "1")) (get (codes "registrationAmountDrops") input)
    index ← uint32_of (get (codes "activationLedgerIndex") input)
    guard (leb 1 index) invalid_network_profile
    hash ← text_where is_hash (get (codes "activationLedgerHash") input)
    ok (record {
      profile_id = profile_id;
      network_id = network_id;
      required_amendment = to_upper amendment;
      registry_address = registry;
      activation_ledger_index = index;
      activation_ledger_hash = to_lower hash;
    })

  unfoldable pub parse_network_profile : JsonValue → Checked NetworkProfile
  unfolding parse_profile_entries
  parse_network_profile (object ms) = parse_profile_entries (entries ms)
  parse_network_profile _ = fail invalid_network_profile
