-- ===== src/Core/Json/Plain.antt =====
-- packages/core/src/json.ts: the values that `assertJsonValue` accepts.
use xcs.Common.{ok, err, ◌≡◌, ◌≢◌, ◌↔◌, refl, guard, ◌>>◌}
use xcs.Core.Errors.{Checked, unsupported_json_value}
use xcs.Core.Json.{
  JsonValue, JsonNumber, natural, other, non_finite, Items, Members, null, bool, number, string,
  array, object, nil, cons, end, member, is_finite, assert_json_value, assert_json_items,
  assert_json_members, assert_well_formed,
}
use xcs.Core.Json.WellFormed.{Passes, assert_well_formed_iff}

-- Every number in the value is finite, and every string and key passes the Unicode check.
abbrev mutual
  pub Plain : JsonValue → Type 0
  Plain (number n) = n ≢ non_finite
  Plain (string s) = Passes s
  Plain (array xs) = PlainItems xs
  Plain (object ms) = PlainMembers ms
  Plain null = Unit
  Plain (bool b) = Unit

  pub PlainItems : Items → Type 0
  PlainItems nil = Unit
  PlainItems (cons x xs) = Plain x × PlainItems xs

  pub PlainMembers : Members → Type 0
  PlainMembers end = Unit
  PlainMembers (member k v ms) = Passes k × (Plain v × PlainMembers ms)

pub both_iff : (m k : Checked (Unit {0})) → ((m >> k) ≡ ok tt) ↔ ((m ≡ ok tt) × (k ≡ ok tt))
both_iff (ok tt) k = (λ h. (refl, h), λ (a, b). b)
both_iff (err e) k = (λ h. cc, λ (a, b). cc)

finite_iff :
    (n : JsonNumber) → (guard (is_finite n) unsupported_json_value ≡ ok tt) ↔ (n ≢ non_finite)
finite_iff (natural n) = (λ h e. cc, λ h. refl)
finite_iff (other n) = (λ h e. cc, λ h. refl)
finite_iff non_finite = (λ h e. cc, λ h. absurd (h refl))

mutual
  unfolding assert_json_value

  pub assert_json_value_iff : (v : JsonValue) → (assert_json_value v ≡ ok tt) ↔ Plain v
  assert_json_value_iff (number n) = finite_iff n
  assert_json_value_iff (string s) = assert_well_formed_iff s
  assert_json_value_iff (array xs) = assert_json_items_iff xs
  assert_json_value_iff (object ms) = assert_json_members_iff ms
  assert_json_value_iff null = (λ h. tt, λ h. refl)
  assert_json_value_iff (bool b) = (λ h. tt, λ h. refl)

  assert_json_items_iff : (xs : Items) → (assert_json_items xs ≡ ok tt) ↔ PlainItems xs
  assert_json_items_iff nil = (λ h. tt, λ h. refl)
  assert_json_items_iff (cons x xs) =
      let (f, g) = both_iff (assert_json_value x) (assert_json_items xs) in
      let (i, j) = assert_json_value_iff x in
      let (k, m) = assert_json_items_iff xs in
      (λ h. let (a, b) = f h in (i a, k b), λ (a, b). g (j a, m b))

  assert_json_members_iff : (ms : Members) → (assert_json_members ms ≡ ok tt) ↔ PlainMembers ms
  assert_json_members_iff end = (λ h. tt, λ h. refl)
  assert_json_members_iff (member key v ms) =
      let (f, g) =
        both_iff (assert_well_formed key) (assert_json_value v >> assert_json_members ms) in
      let (f1, g1) = both_iff (assert_json_value v) (assert_json_members ms) in
      let (i, j) = assert_well_formed_iff key in
      let (k, m) = assert_json_value_iff v in
      let (p, q) = assert_json_members_iff ms in
      (
        λ h. let (a, b) = f h in let (c, d) = f1 b in (i a, (k c, p d)),
        λ (a, (c, d)). g (j a, g1 (m c, q d)),
      )
