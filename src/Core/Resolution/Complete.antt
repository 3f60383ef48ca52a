-- ===== src/Core/Resolution/Complete.antt =====
-- That `resolve` finds every resolution of at most 15 ancestors, and that the test for cycles never
-- decides: schema-resolution.ts, lines 66 to 127.
use mathlib.Core.Path.{subst}
use xcs.Common.{
  ℕ, zero, suc, ◌+◌, ◌≤◌, ◌≡◌, ◌↔◌, inl, inr, refl, sym, Text, Bool, true, false, List, [], ◌∷◌,
  ◌++◌, length, length-append, All, Option, none, some, ok, arith, leb, text_eq, text_eq_sound,
  text_eq_of_eq, Bool-cases, ==_iff, Ensures-at, guard-eq-ok, >>=-eq-ok, ◌&&◌,
}
use xcs.Core.Errors.{Checked, invalid_schema_reference}
use xcs.Core.Json.{JsonValue, has}
use xcs.Core.Libraries.{Libraries}
use xcs.Core.Schema.{SchemaFields, SchemaDefinition, parse_schema, count_schema_fields}
use xcs.Core.Resolution.{
  RegisteredSchema, ResolvedSchema, SchemaResolutionContext, is_earlier, context_of,
  require_reference, inherit, check_supersedes, resolve_level, resolve, resolve_schema, is_uint32,
}
use xcs.Core.Resolution.Fields.{append_fields, AreNew, add_fields_complete}
use xcs.Core.Resolution.Lineage.{
  Earlier, Refers, Supersedes, Inherits, root, child, Resolves, resolves, IsResolved, resolve_sound,
}

is_earlier_of :
    (r : RegisteredSchema) (context : SchemaResolutionContext)
    → Earlier r context
    → is_earlier r context ≡ true
unfolding is_earlier
is_earlier_of r context (inl h) = ground arith
is_earlier_of r context (inr (h, k)) = ground arith

not-Earlier_self : (r : RegisteredSchema) → Earlier r (context_of r) → ⊥
not-Earlier_self r (inl h) = omega arith
not-Earlier_self r (inr (h, k)) = omega arith

Earlier-trans :
    (s r : RegisteredSchema) (context : SchemaResolutionContext)
    → Earlier s (context_of r)
    → Earlier r context
    → Earlier s context
Earlier-trans s r context h k = ground arith

room_leb : (n : ℕ) → n ≤ 256 → leb n 256 ≡ true
room_leb n h = ground arith

length-extended :
    {extended : List Text} (lineage : List Text) (uid : Text)
    → extended ≡ lineage ++ uid ∷ []
    → length extended ≡ length lineage + 1
length-extended lineage uid e = rw e (length-append lineage (uid ∷ []))

module _ (get_schema : Text → Option RegisteredSchema) where
  require_reference_complete :
      (uid : Text) (context : SchemaResolutionContext) (r : RegisteredSchema)
      → Refers get_schema uid context r
      → require_reference get_schema uid context ≡ ok r
  unfolding require_reference
  require_reference_complete uid context r refers = rw (
    refers.found,
    text_eq_of_eq r.uid uid refers.named,
    (==_iff r.network_id context.network_id).1 refers.network,
    is_earlier_of r context refers.earlier,
  )

  check_supersedes_complete :
      (predecessor : Option Text) (context : SchemaResolutionContext)
      → Supersedes get_schema predecessor context
      → check_supersedes get_schema predecessor context ≡ ok tt
  unfolding check_supersedes
  check_supersedes_complete none context h = refl
  check_supersedes_complete (some uid) context (r, refers, same) = rw (
    require_reference_complete uid context r refers,
    text_eq_of_eq r.publisher context.publisher same,
  )

  -- what is being visited was not registered before the context
  abbrev IsVisited : SchemaResolutionContext → Text → Type 0
  IsVisited context uid =
      (r : RegisteredSchema) × (get_schema uid ≡ some r) × (Earlier r context → ⊥)

  IsVisited-keeps :
      (r : RegisteredSchema) (context : SchemaResolutionContext) (visiting : List Text)
      → Earlier r context
      → All (IsVisited context) visiting
      → All (IsVisited (context_of r)) visiting
  IsVisited-keeps r context [] h v = tt
  IsVisited-keeps r context (uid ∷ visiting) h ((s, found, late), v) = (
    (s, found, λ e. late (Earlier-trans s r context e h)),
    IsVisited-keeps r context visiting h v,
  )

  not_visited :
      (uid : Text) (r : RegisteredSchema) (context : SchemaResolutionContext) (visiting : List Text)
      → Refers get_schema uid context r
      → All (IsVisited context) visiting
      → has uid visiting ≡ false
  unfolding has
  not_visited uid r context [] refers v = refl
  not_visited uid r context (k ∷ visiting) refers ((s, found, late), v) =
      elim (Bool-cases (text_eq k uid)) [
        | inl same ↦
            let e : r ≡ s = cc (text_eq_sound k uid same, found, refers.found) in
            absurd (late (subst (λ x. Earlier x context) e refers.earlier))
        | inr other ↦ rw other (not_visited uid r context visiting refers v)
      ]

  abbrev below_of :
      ℕ → Option (SchemaDefinition → SchemaResolutionContext → List Text → Checked ResolvedSchema)
  below_of zero = none
  below_of (suc left) = some (resolve get_schema left)

  resolve-below_of : (left : ℕ) → resolve get_schema left ≡ resolve_level get_schema (below_of left)
  unfolding resolve
  resolve-below_of zero = refl
  resolve-below_of (suc left) = refl

  level_complete :
      (below : Option
        (SchemaDefinition → SchemaResolutionContext → List Text → Checked ResolvedSchema))
      (schema : SchemaDefinition) (context : SchemaResolutionContext) (visiting : List Text)
      (inherited fs : SchemaFields) (lineage : List Text)
      → inherit get_schema below schema.parent context visiting ≡ ok (inherited, lineage)
      → AreNew inherited schema.fields
      → fs ≡ append_fields inherited schema.fields
      → count_schema_fields fs ≤ 256
      → Supersedes get_schema schema.predecessor context
      → resolve_level get_schema below schema context visiting
        ≡ ok (record { definition = schema; fields = fs; lineage = lineage })
  unfolding resolve_level
  level_complete below schema context visiting inherited fs lineage e new merged room supersedes =
      rw (
        e,
        add_fields_complete inherited schema.fields new,
        ← merged,
        room_leb (count_schema_fields fs) room,
        check_supersedes_complete schema.predecessor context supersedes,
      )

  child_complete :
      (left : ℕ) (uid : Text) (context : SchemaResolutionContext) (visiting : List Text)
      (r : RegisteredSchema) (definition : SchemaDefinition) (fs : SchemaFields)
      (lineage : List Text)
      → Refers get_schema uid context r
      → has uid visiting ≡ false
      → parse_schema r.definition ≡ ok definition
      → resolve get_schema left definition (context_of r) (uid ∷ visiting)
        ≡ ok (record { definition = definition; fields = fs; lineage = lineage })
      → inherit get_schema (below_of (suc left)) (some uid) context visiting
        ≡ ok (fs, lineage ++ uid ∷ [])
  unfolding inherit
  child_complete left uid context visiting r definition fs lineage refers new parsed resolved =
      rw (new, require_reference_complete uid context r refers, parsed, resolved)

  mutual
    unfolding inherit

    Inherits-complete :
        (left : ℕ) (visiting : List Text) {parent : Option Text} {context : SchemaResolutionContext}
        {fs : SchemaFields} {lineage : List Text}
        → Inherits get_schema parent context fs lineage
        → length lineage ≤ left
        → All (IsVisited context) visiting
        → inherit get_schema (below_of left) parent context visiting ≡ ok (fs, lineage)
    Inherits-complete left visiting root h v = refl
    Inherits-complete zero visiting (child {uid} r definition {lineage} refers parsed res e) h v =
        absurd (omega (arith, length-extended lineage uid e))
    Inherits-complete (suc left) visiting
          (child {uid} {context} r definition {fs} {lineage} refers parsed res e) h v =
        rw e (
          child_complete left uid context visiting r definition fs lineage refers
            (not_visited uid r context visiting refers v) parsed
            (Resolves-complete left (uid ∷ visiting) res
              (omega (arith, length-extended lineage uid e))
              (
                (r, refers.found, not-Earlier_self r),
                IsVisited-keeps r context visiting refers.earlier v,
              )))

    Resolves-complete :
        (left : ℕ) (visiting : List Text) {schema : SchemaDefinition}
        {context : SchemaResolutionContext} {fs : SchemaFields} {lineage : List Text}
        → Resolves get_schema schema context fs lineage
        → length lineage ≤ left
        → All (IsVisited context) visiting
        → resolve get_schema left schema context visiting
          ≡ ok (record { definition = schema; fields = fs; lineage = lineage })
    Resolves-complete left visiting
          (resolves {schema} {context} inherited {fs} {lineage} i new merged room supersedes) h v =
        rw (resolve-below_of left) (
          level_complete (below_of left) schema context visiting inherited fs lineage
            (Inherits-complete left visiting i h v) new merged room supersedes)

  resolve_iff :
      (schema : SchemaDefinition) (context : SchemaResolutionContext) (r : ResolvedSchema)
      → (resolve get_schema 15 schema context [] ≡ ok r) ↔ (
          (r.definition ≡ schema)
          × Resolves get_schema schema context r.fields r.lineage
          × (length r.lineage ≤ 15))
  resolve_iff schema context r = (
    λ h.
        let is =
          Ensures-at (IsResolved get_schema 15 schema context) _ r
            (resolve_sound get_schema 15 schema context []) h in
        (is.same, is.resolved, is.depth),
    λ (same, resolved, depth).
        subst (λ s. resolve get_schema 15 s context [] ≡ ok r) same
          (Resolves-complete 15 []
            (subst (λ s. Resolves get_schema s context r.fields r.lineage) (sym same) resolved)
            depth tt),
  )

  module _ (libraries : Libraries) where
    abbrev pub IsContext : SchemaResolutionContext → Type 0
    IsContext context =
        (context.network_id ≤ 0xffff_ffff)
        × (context.ledger_index ≤ 0xffff_ffff)
        × (context.transaction_index ≤ 0xffff_ffff)
        × (libraries.is_valid_classic_address context.publisher ≡ true)

    abbrev context_test : SchemaResolutionContext → Bool
    context_test context =
        is_uint32 context.network_id
        && (is_uint32 context.ledger_index
            && (is_uint32 context.transaction_index
                && libraries.is_valid_classic_address context.publisher))

    IsContext-iff :
        (context : SchemaResolutionContext) → (context_test context ≡ true) ↔ IsContext context
    IsContext-iff context = ground arith

    -- `resolveSchema` returns `r` exactly when the context is valid, the input parses, and `r` is
    -- its resolution: at each step up the `extends` references, the parent is registered under its
    -- uid on the same network and strictly before, is resolved in the context of its own
    -- registration, the fields are the parent's and then the own ones, under new names, at most 256
    -- descriptors, and a superseded schema is registered before by the same publisher. At most 15
    -- ancestors are allowed; cycles need no test, since registrations are ordered.
    pub resolve_schema_iff :
        (input : JsonValue) (context : SchemaResolutionContext) (r : ResolvedSchema)
        → (resolve_schema get_schema libraries input context ≡ ok r) ↔ (
            IsContext context
            × (parse_schema input ≡ ok r.definition)
            × Resolves get_schema r.definition context r.fields r.lineage
            × (length r.lineage ≤ 15))
    unfolding resolve_schema
    resolve_schema_iff input context r = (
      λ h.
          let (valid, e) = guard-eq-ok (context_test context) invalid_schema_reference _ h in
          let (definition, parsed, found) =
            >>=-eq-ok (parse_schema input)
              (λ definition. resolve get_schema 15 definition context []) e in
          let (same, resolved, depth) = (resolve_iff definition context r).0 found in
          (
            (IsContext-iff context).0 valid,
            subst (λ s. parse_schema input ≡ ok s) (sym same) parsed,
            subst (λ s. Resolves get_schema s context r.fields r.lineage) (sym same) resolved,
            depth,
          ),
      λ (valid, parsed, resolved, depth).
          rw ((IsContext-iff context).1 valid, parsed)
            ((resolve_iff r.definition context r).1 (refl, resolved, depth)),
    )
