-- ===== src/Core/Network/Profiles.antt =====
-- The profiles that `parseNetworkProfile` gives out, and that it reads them back: network.ts, lines
-- 35 to 104.
use mathlib.Core.Path.{subst}
use xcs.Common.{
  ℕ, ◌+◌, ◌-◌, ◌≤◌, ◌≡◌, refl, Text, codes, Bool, true, false, ◌==◌, List, [], ◌∷◌, Option, none,
  some, ok, leb, leb→le, text_eq, >>=-eq-ok, guard-eq-ok, ok-injective, length, map, if◌then◌else◌,
  all, arith, Ensures, Ensures-of, and_true, is_hex, is_lower_hex, is_digit, is_lower, is_upper,
  to_lower, to_upper,
}
use xcs.Core.Errors.{fail, invalid_network_profile}
use xcs.Core.Json.{JsonValue, natural, number, string, object, end, member, entries, get, has, keys}
use xcs.Core.Libraries.{Libraries}
use xcs.Core.Network.{
  NetworkProfile, is_profile_id, is_hash, text_where, uint32_of, parse_profile_entries,
  parse_network_profile, profile_properties,
}

-- 32 bytes, in lower and in upper case
abbrev pub IsLowerHash : Text → Type 0
IsLowerHash value = (is_hash value ≡ true) × (to_lower value ≡ value)

abbrev pub IsUpperHash : Text → Type 0
IsUpperHash value = (is_hash value ≡ true) × (to_upper value ≡ value)

pub record IsProfile (libraries : Libraries) (p : NetworkProfile) : Type 0 where
  pub id : is_profile_id p.profile_id ≡ true
  pub network : p.network_id ≤ 0xffff_ffff
  pub amendment : IsUpperHash p.required_amendment
  pub registry : libraries.is_valid_classic_address p.registry_address ≡ true
  pub index_min : 1 ≤ p.activation_ledger_index
  pub index_max : p.activation_ledger_index ≤ 0xffff_ffff
  pub hash : IsLowerHash p.activation_ledger_hash

-- The object that `parseNetworkProfile` builds.
abbrev pub profile_value : NetworkProfile → JsonValue
profile_value p = object (
    member (codes "profileId") (string p.profile_id) (
      member (codes "xcsVersion") (string (codes "0.1")) (
        member (codes "networkId") (number (natural p.network_id)) (
          member (codes "requiredAmendment") (string p.required_amendment) (
            member (codes "registryAddress") (string p.registry_address) (
              member (codes "registrationAmountDrops") (string (codes "1")) (
                member (codes "activationLedgerIndex") (number (natural p.activation_ledger_index))
                  (member (codes "activationLedgerHash") (string p.activation_ledger_hash)
                    end))))))))

length-map : (f : ℕ → ℕ) (s : Text) → length (map f s) ≡ length s
length-map f [] = refl
length-map f (c ∷ s) = omega (arith, length-map f s)

-- one character
lower_char :
    (c : ℕ)
    → is_hex c ≡ true
    → (is_hex (if is_upper c then c + 32 else c) ≡ true)
      × (is_upper (if is_upper c then c + 32 else c) ≡ false)
unfolding is_hex is_lower_hex is_digit is_upper
lower_char c h = ground arith

upper_char :
    (c : ℕ)
    → is_hex c ≡ true
    → (is_hex (if is_lower c then c - 32 else c) ≡ true)
      × (is_lower (if is_lower c then c - 32 else c) ≡ false)
unfolding is_hex is_lower_hex is_digit is_lower
upper_char c h = ground arith

if_false : (t : Bool) (a b : ℕ) → t ≡ false → (if t then a else b) ≡ b
if_false t a b h = rw h refl

lower_hex :
    (s : Text)
    → all is_hex s ≡ true
    → (all is_hex (to_lower s) ≡ true) × (to_lower (to_lower s) ≡ to_lower s)
unfolding to_lower
lower_hex [] h = (refl, refl)
lower_hex (c ∷ s) h =
    let (hc, hs) = and_true (is_hex c) (all is_hex s) h in
    let (p, q) = lower_char c hc in
    let (r, e) = lower_hex s hs in (rw p r, rw (if_false _ _ _ q, e) refl)

upper_hex :
    (s : Text)
    → all is_hex s ≡ true
    → (all is_hex (to_upper s) ≡ true) × (to_upper (to_upper s) ≡ to_upper s)
unfolding to_upper
upper_hex [] h = (refl, refl)
upper_hex (c ∷ s) h =
    let (hc, hs) = and_true (is_hex c) (all is_hex s) h in
    let (p, q) = upper_char c hc in
    let (r, e) = upper_hex s hs in (rw p r, rw (if_false _ _ _ q, e) refl)

pub is_hash-to_lower : (s : Text) → is_hash s ≡ true → IsLowerHash (to_lower s)
unfolding is_hash to_lower
is_hash-to_lower s h =
    let (a, b) = and_true (all is_hex s) (length s == 64) h in
    let (p, q) = lower_hex s a in (rw (p, length-map _ s, b) refl, q)

is_hash-to_upper : (s : Text) → is_hash s ≡ true → IsUpperHash (to_upper s)
unfolding is_hash to_upper
is_hash-to_upper s h =
    let (a, b) = and_true (all is_hex s) (length s == 64) h in
    let (p, q) = upper_hex s a in (rw (p, length-map _ s, b) refl, q)

-- the two hashes, in their normal case
abbrev normalized : NetworkProfile → NetworkProfile
normalized p = record {
  profile_id = p.profile_id;
  network_id = p.network_id;
  required_amendment = to_upper p.required_amendment;
  registry_address = p.registry_address;
  activation_ledger_index = p.activation_ledger_index;
  activation_ledger_hash = to_lower p.activation_ledger_hash;
}

if_ok :
    {A : Type 0} (t : Bool) (v w : A)
    → (if t then ok v else fail invalid_network_profile) ≡ ok w
    → (t ≡ true) × (v ≡ w)
if_ok true v w h = (refl, ok-injective h)
if_ok false v w h = cc

text_where-test :
    (test : Text → Bool) (v : Option JsonValue) (t : Text)
    → text_where test v ≡ ok t
    → test t ≡ true
unfolding text_where
text_where-test test none t h = cc
text_where-test test (some (string value)) t h =
    let (a, e) = if_ok (test value) value t h in rw (← e) a
text_where-test test (some _) t h = cc

uint32_of-bound : (v : Option JsonValue) (n : ℕ) → uint32_of v ≡ ok n → n ≤ 0xffff_ffff
unfolding uint32_of
uint32_of-bound none n h = cc
uint32_of-bound (some (number (natural m))) n h =
    let (a, e) = if_ok (leb m 0xffff_ffff) m n h in rw (← e) (leb→le m 0xffff_ffff a)
uint32_of-bound (some _) n h = cc

module _ (libraries : Libraries) where
  normalized-IsProfile :
      (p : NetworkProfile)
      → is_profile_id p.profile_id ≡ true
      → p.network_id ≤ 0xffff_ffff
      → is_hash p.required_amendment ≡ true
      → libraries.is_valid_classic_address p.registry_address ≡ true
      → 1 ≤ p.activation_ledger_index
      → p.activation_ledger_index ≤ 0xffff_ffff
      → is_hash p.activation_ledger_hash ≡ true
      → IsProfile libraries (normalized p)
  normalized-IsProfile p a b c d e f g = record {
    id = a;
    network = b;
    amendment = is_hash-to_upper p.required_amendment c;
    registry = d;
    index_min = e;
    index_max = f;
    hash = is_hash-to_lower p.activation_ledger_hash g;
  }

  parse_profile_entries-IsProfile :
      (input : List (Text × JsonValue)) (p : NetworkProfile)
      → parse_profile_entries libraries input ≡ ok p
      → IsProfile libraries p
  unfolding parse_profile_entries
  parse_profile_entries-IsProfile input p h =
      let (known, h1) = guard-eq-ok (all (λ k. has k profile_properties) (keys input)) _ _ h in
      let (id, idOk, h2) =
        >>=-eq-ok (text_where is_profile_id (get (codes "profileId") input)) _ h1 in
      let (version, versionOk, h3) =
        >>=-eq-ok (text_where (λ v. text_eq v (codes "0.1")) (get (codes "xcsVersion") input)) _
          h2 in
      let (network, networkOk, h4) = >>=-eq-ok (uint32_of (get (codes "networkId") input)) _ h3 in
      let (amendment, amendmentOk, h5) =
        >>=-eq-ok (text_where is_hash (get (codes "requiredAmendment") input)) _ h4 in
      let (registry, registryOk, h6) =
        >>=-eq-ok
          (text_where libraries.is_valid_classic_address (get (codes "registryAddress") input)) _
          h5 in
      let (drops, dropsOk, h7) =
        >>=-eq-ok
          (text_where (λ v. text_eq v (codes "1")) (get (codes "registrationAmountDrops") input)) _
          h6 in
      let (index, indexOk, h8) =
        >>=-eq-ok (uint32_of (get (codes "activationLedgerIndex") input)) _ h7 in
      let (first, h9) = guard-eq-ok (leb 1 index) _ _ h8 in
      let (hash, hashOk, h10) =
        >>=-eq-ok (text_where is_hash (get (codes "activationLedgerHash") input)) _ h9 in
      subst (IsProfile libraries) (ok-injective h10) (
        normalized-IsProfile
          (record {
            profile_id = id;
            network_id = network;
            required_amendment = amendment;
            registry_address = registry;
            activation_ledger_index = index;
            activation_ledger_hash = hash;
          })
          (text_where-test is_profile_id (get (codes "profileId") input) id idOk)
          (uint32_of-bound (get (codes "networkId") input) network networkOk)
          (text_where-test is_hash (get (codes "requiredAmendment") input) amendment amendmentOk)
          (text_where-test libraries.is_valid_classic_address (get (codes "registryAddress") input)
            registry registryOk)
          (leb→le 1 index first)
          (uint32_of-bound (get (codes "activationLedgerIndex") input) index indexOk)
          (text_where-test is_hash (get (codes "activationLedgerHash") input) hash hashOk))

  -- `parseNetworkProfile` gives out profiles, with their two hashes normalized.
  pub parse_network_profile-IsProfile :
      (input : JsonValue) → Ensures (IsProfile libraries) (parse_network_profile libraries input)
  unfolding parse_network_profile
  parse_network_profile-IsProfile (object ms) =
      Ensures-of (IsProfile libraries) _ λ p h. parse_profile_entries-IsProfile (entries ms) p h
  parse_network_profile-IsProfile _ = tt

  -- Every profile is what `parseNetworkProfile` makes of the object that has its properties.
  pub parse_network_profile-profile_value :
      (p : NetworkProfile)
      → IsProfile libraries p
      → parse_network_profile libraries (profile_value p) ≡ ok p
  unfolding parse_network_profile parse_profile_entries text_where uint32_of get has text_eq
  parse_network_profile-profile_value p h =
      let le_leb : (a b : ℕ) → a ≤ b → leb a b ≡ true = λ a b k. ground arith in
      let (am, amUp) = h.amendment in
      let (ha, haLow) = h.hash in
      rw
        (
          h.id,
          le_leb _ _ h.network,
          am,
          h.registry,
          le_leb _ _ h.index_max,
          le_leb _ _ h.index_min,
          ha,
          amUp,
          haLow,
        )
        refl
