-- ===== src/Core/Documents/Keys.antt =====
-- No object of a parsed document has a key twice: packages/core/src/json.ts, lines 117 to 163.
use mathlib.Core.Path.{subst}
use xcs.Common.{
  Text, Bool, false, not, List, [], ◌∷◌, Option, none, some, ok, ◌≡◌, ◌↔◌, refl, true, >>=-eq-ok,
  guard, ◌>>◌,
}
use xcs.Core.Errors.{invalid_json}
use xcs.Core.Json.{
  JsonValue, Items, Members, null, bool, number, string, array, object, nil, cons, end, member, has,
  assert_json_value,
}
use xcs.Core.Json.Plain.{Plain, both_iff, assert_json_value_iff}
use xcs.Core.Documents.{
  DocumentLibraries, reject_duplicate_object_keys, reject_duplicate_items, reject_duplicate_members,
  parsed_tree, parse_json,
}

-- every object, at any depth, has each key once, and none of a list of keys
abbrev mutual
  pub Distinct : JsonValue → Type 0
  Distinct (object ms) = DistinctMembers [] ms
  Distinct (array xs) = DistinctItems xs
  Distinct null = Unit
  Distinct (bool b) = Unit
  Distinct (number n) = Unit
  Distinct (string s) = Unit

  pub DistinctItems : Items → Type 0
  DistinctItems nil = Unit
  DistinctItems (cons x xs) = Distinct x × DistinctItems xs

  pub DistinctMembers : List Text → Members → Type 0
  DistinctMembers seen end = Unit
  DistinctMembers seen (member k v ms) =
      (has k seen ≡ false) × (Distinct v × DistinctMembers (k ∷ seen) ms)

not_iff : (t : Bool) → (guard (not t) invalid_json ≡ ok tt) ↔ (t ≡ false)
not_iff true = (λ h. cc, λ h. cc)
not_iff false = (λ h. refl, λ h. refl)

mutual
  unfolding reject_duplicate_object_keys

  reject_iff : (v : JsonValue) → (reject_duplicate_object_keys v ≡ ok tt) ↔ Distinct v
  reject_iff (object ms) = members_iff [] ms
  reject_iff (array xs) = items_iff xs
  reject_iff null = (λ h. tt, λ h. refl)
  reject_iff (bool b) = (λ h. tt, λ h. refl)
  reject_iff (number n) = (λ h. tt, λ h. refl)
  reject_iff (string s) = (λ h. tt, λ h. refl)

  items_iff : (xs : Items) → (reject_duplicate_items xs ≡ ok tt) ↔ DistinctItems xs
  items_iff nil = (λ h. tt, λ h. refl)
  items_iff (cons x xs) =
      let (f, g) = both_iff (reject_duplicate_object_keys x) (reject_duplicate_items xs) in
      let (i, j) = reject_iff x in
      let (k, m) = items_iff xs in (λ h. let (a, b) = f h in (i a, k b), λ (a, b). g (j a, m b))

  members_iff :
      (seen : List Text) (ms : Members)
      → (reject_duplicate_members seen ms ≡ ok tt) ↔ DistinctMembers seen ms
  members_iff seen end = (λ h. tt, λ h. refl)
  members_iff seen (member key v ms) =
      let (f, g) =
        both_iff (guard (not (has key seen)) invalid_json)
          (reject_duplicate_object_keys v >> reject_duplicate_members (key ∷ seen) ms) in
      let (f1, g1) =
        both_iff (reject_duplicate_object_keys v) (reject_duplicate_members (key ∷ seen) ms) in
      let (i, j) = not_iff (has key seen) in
      let (k, m) = reject_iff v in
      let (p, q) = members_iff (key ∷ seen) ms in
      (
        λ h. let (a, b) = f h in let (c, d) = f1 b in (i a, (k c, p d)),
        λ (a, (c, d)). g (j a, g1 (m c, q d)),
      )

module _ (documents : DocumentLibraries) where
  tree_iff :
      (o : Option JsonValue) (v : JsonValue)
      → (parsed_tree documents o ≡ ok v)
        ↔ ((o ≡ some v) × Distinct v × (assert_json_value v ≡ ok tt))
  unfolding parsed_tree
  tree_iff none v = (λ h. cc, λ (a, b, c). cc)
  tree_iff (some root) v = (
    λ h.
        let (u, a, h1) = >>=-eq-ok (reject_duplicate_object_keys root) _ h in
        let (w, b, h2) = >>=-eq-ok (assert_json_value root) _ h1 in
        let same : root ≡ v = cc in
        (
          rw same refl,
          subst Distinct same ((reject_iff root).0 a),
          subst (λ y. assert_json_value y ≡ ok tt) same b,
        ),
    λ (e, d, w).
        let same : root ≡ v = cc in
        let a : reject_duplicate_object_keys root ≡ ok tt = rw same ((reject_iff v).1 d) in
        let b : assert_json_value root ≡ ok tt = rw same w in rw (a, b, same) refl,
  )

  -- `parseJson` returns exactly the tree that the parser finds in the text, if no object in it, at any
  -- depth, has a key twice, all its numbers are finite, and all its strings and keys pass the Unicode
  -- check.
  pub parse_json_iff :
      (text : Text) (v : JsonValue)
      → (parse_json documents text ≡ ok v)
        ↔ ((documents.parse_tree text ≡ some v) × Distinct v × Plain v)
  unfolding parse_json
  parse_json_iff text v =
      let (f, g) = tree_iff (documents.parse_tree text) v in
      let (i, j) = assert_json_value_iff v in
      (λ h. let (a, b, c) = f h in (a, b, i c), λ (a, b, c). g (a, b, j c))
