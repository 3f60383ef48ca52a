-- ===== src/Core/Resolution/Lineage.antt =====
-- What `resolveSchema` means, as a relation, and that each result satisfies it:
-- schema-resolution.ts, lines 27 to 127.
use xcs.Common.{
  ℕ, zero, suc, ◌≤◌, ◌<◌, ◌≡◌, ◌⊎◌, refl, Text, Bool, true, false, not, List, [], ◌∷◌, ◌++◌, length,
  length-append, Option, none, some, ok, arith, leb, leb→le, text_eq, text_eq_sound, ==_iff, ◌==◌,
  Ensures, Ensures-guard, Ensures-bind, Ensures-of, guard,
}
use xcs.Core.Errors.{Checked, XcsErrorCode, invalid_schema, invalid_schema_reference}
use xcs.Core.Json.{has}
use xcs.Core.Schema.{
  SchemaFields, no_fields, SchemaDefinition, parse_schema, count_schema_fields, max_schema_fields,
}
use xcs.Core.Resolution.{
  RegisteredSchema, ResolvedSchema, SchemaResolutionContext, is_earlier, context_of, add_fields,
  check_reference, require_reference, inherit, check_supersedes, resolve_level, resolve,
}
use xcs.Core.Resolution.Fields.{append_fields, AreNew, IsMerged, add_fields_sound}

-- the place of a registration on the ledger comes before that of the context
abbrev pub Earlier : RegisteredSchema → SchemaResolutionContext → Type 0
Earlier schema context =
    (schema.ledger_index < context.ledger_index)
    ⊎ ((schema.ledger_index ≡ context.ledger_index)
        × (schema.transaction_index < context.transaction_index))

module _ (get_schema : Text → Option RegisteredSchema) where
  -- `uid` is registered, on the network of the context and before it.
  pub record Refers (uid : Text) (context : SchemaResolutionContext) (r : RegisteredSchema)
      : Type 0 where
    pub found : get_schema uid ≡ some r
    pub named : r.uid ≡ uid
    pub network : r.network_id ≡ context.network_id
    pub earlier : Earlier r context

  abbrev pub Supersedes : Option Text → SchemaResolutionContext → Type 0
  Supersedes none context = Unit
  Supersedes (some uid) context =
      (r : RegisteredSchema) × Refers uid context r × (r.publisher ≡ context.publisher)

  -- The fields and the lineage of a schema in a context: what it inherits from the schema that it
  -- extends, resolved in its own context, and then its own fields.
  mutual
    pub data Inherits
        : Option Text → SchemaResolutionContext → SchemaFields → List Text → Type 0 where
      root : {context : SchemaResolutionContext} → Inherits none context no_fields []
      child :
          {uid : Text} {context : SchemaResolutionContext} (r : RegisteredSchema)
          (definition : SchemaDefinition) {fs : SchemaFields} {lineage extended : List Text}
          → Refers uid context r
          → parse_schema r.definition ≡ ok definition
          → Resolves definition (context_of r) fs lineage
          → extended ≡ lineage ++ uid ∷ []
          → Inherits (some uid) context fs extended

    pub data Resolves
        : SchemaDefinition → SchemaResolutionContext → SchemaFields → List Text → Type 0 where
      resolves :
          {schema : SchemaDefinition} {context : SchemaResolutionContext} (inherited : SchemaFields)
          {fs : SchemaFields} {lineage : List Text}
          → Inherits schema.parent context inherited lineage
          → AreNew inherited schema.fields
          → fs ≡ append_fields inherited schema.fields
          → count_schema_fields fs ≤ 256
          → Supersedes schema.predecessor context
          → Resolves schema context fs lineage

guard_passed : (t : Bool) (e : XcsErrorCode) → guard t e ≡ ok tt → t ≡ true
guard_passed true e h = refl
guard_passed false e h = cc

Earlier-of :
    (r : RegisteredSchema) (context : SchemaResolutionContext)
    → is_earlier r context ≡ true
    → Earlier r context
unfolding is_earlier
Earlier-of r context h = ground arith

module _ (get_schema : Text → Option RegisteredSchema) where
  check_reference_sound :
      (uid : Text) (context : SchemaResolutionContext) (found : Option RegisteredSchema)
      → get_schema uid ≡ found
      → Ensures (Refers get_schema uid context) (check_reference get_schema uid context found)
  unfolding check_reference
  check_reference_sound uid context none e = tt
  check_reference_sound uid context (some r) e =
      Ensures-guard (Refers get_schema uid context) (text_eq r.uid uid) invalid_schema_reference _
        λ named.
          Ensures-guard (Refers get_schema uid context) (r.network_id == context.network_id)
            invalid_schema_reference _
            λ network.
              Ensures-guard (Refers get_schema uid context) (is_earlier r context)
                invalid_schema_reference (ok r)
                λ earlier. record {
                  found = e;
                  named = text_eq_sound r.uid uid named;
                  network = (==_iff r.network_id context.network_id).0 network;
                  earlier = Earlier-of r context earlier;
                }

  require_reference_sound :
      (uid : Text) (context : SchemaResolutionContext)
      → Ensures (Refers get_schema uid context) (require_reference get_schema uid context)
  unfolding require_reference
  require_reference_sound uid context = check_reference_sound uid context (get_schema uid) refl

  check_supersedes_sound :
      (predecessor : Option Text) (context : SchemaResolutionContext)
      → Ensures
          (λ _. Supersedes get_schema predecessor context)
          (check_supersedes get_schema predecessor context)
  unfolding check_supersedes
  check_supersedes_sound none context = tt
  check_supersedes_sound (some uid) context =
      Ensures-bind (Refers get_schema uid context) (λ _. Supersedes get_schema (some uid) context)
        (require_reference get_schema uid context)
        (λ previous. guard (text_eq previous.publisher context.publisher) invalid_schema_reference)
        (require_reference_sound uid context)
        λ r refers.
          Ensures-of (λ _. Supersedes get_schema (some uid) context)
            (guard (text_eq r.publisher context.publisher) invalid_schema_reference)
            λ _ e. (r, refers, text_eq_sound r.publisher context.publisher (guard_passed _ _ e))

  -- What a run gives with `left` levels left.
  pub record IsResolved (left : ℕ) (schema : SchemaDefinition) (context : SchemaResolutionContext)
      (r : ResolvedSchema) : Type 0 where
    pub same : r.definition ≡ schema
    pub resolved : Resolves get_schema schema context r.fields r.lineage
    pub depth : length r.lineage ≤ left

  abbrev pub AreInherited :
      ℕ → Option Text → SchemaResolutionContext → SchemaFields × List Text → Type 0
  AreInherited left parent context p =
      Inherits get_schema parent context p.0 p.1 × (length p.1 ≤ left)

  module _ (left : ℕ)
      (below : Option
        (SchemaDefinition → SchemaResolutionContext → List Text → Checked ResolvedSchema))
      (inherit_sound : (parent : Option Text) (context : SchemaResolutionContext)
          (visiting : List Text)
        → Ensures
            (AreInherited left parent context)
            (inherit get_schema below parent context visiting)) where
    resolve_level_sound :
        (schema : SchemaDefinition) (context : SchemaResolutionContext) (visiting : List Text)
        → Ensures
            (IsResolved left schema context)
            (resolve_level get_schema below schema context visiting)
    unfolding resolve_level
    resolve_level_sound schema context visiting =
        Ensures-bind (AreInherited left schema.parent context) (IsResolved left schema context)
          (inherit get_schema below schema.parent context visiting) _
          (inherit_sound schema.parent context visiting)
          λ p inherited.
            Ensures-bind (IsMerged p.0 schema.fields) (IsResolved left schema context)
              (add_fields p.0 schema.fields) _ (add_fields_sound p.0 schema.fields)
              λ fs merged.
                Ensures-guard (IsResolved left schema context)
                  (leb (count_schema_fields fs) max_schema_fields) invalid_schema _
                  λ room.
                    Ensures-bind (λ _. Supersedes get_schema schema.predecessor context)
                      (IsResolved left schema context)
                      (check_supersedes get_schema schema.predecessor context)
                      (λ _. ok (record { definition = schema; fields = fs; lineage = p.1 }))
                      (check_supersedes_sound schema.predecessor context)
                      λ _ supersedes. record {
                        same = refl;
                        resolved =
                            resolves p.0 inherited.0 merged.0 merged.1 (leb→le _ _ room) supersedes;
                        depth = inherited.1;
                      }

  inherit_last :
      (parent : Option Text) (context : SchemaResolutionContext) (visiting : List Text)
      → Ensures (AreInherited 0 parent context) (inherit get_schema none parent context visiting)
  unfolding inherit
  inherit_last none context visiting = (root, omega arith)
  inherit_last (some uid) context visiting = tt

  inherit_next :
      (left : ℕ) (parent : Option Text) (context : SchemaResolutionContext) (visiting : List Text)
      → ((schema : SchemaDefinition) (context : SchemaResolutionContext) (visiting : List Text)
          → Ensures
              (IsResolved left schema context)
              (resolve get_schema left schema context visiting))
      → Ensures
          (AreInherited (suc left) parent context)
          (inherit get_schema (some (resolve get_schema left)) parent context visiting)
  unfolding inherit
  inherit_next left none context visiting ih = (root, omega arith)
  inherit_next left (some uid) context visiting ih =
      Ensures-guard (AreInherited (suc left) (some uid) context) (not (has uid visiting))
        invalid_schema_reference _
        λ _.
          Ensures-bind (Refers get_schema uid context) (AreInherited (suc left) (some uid) context)
            (require_reference get_schema uid context) _ (require_reference_sound uid context)
            λ r refers.
              Ensures-bind (λ definition. parse_schema r.definition ≡ ok definition)
                (AreInherited (suc left) (some uid) context) (parse_schema r.definition) _
                (Ensures-of (λ definition. parse_schema r.definition ≡ ok definition) _ λ _ e. e)
                λ definition parsed.
                  Ensures-bind (IsResolved left definition (context_of r))
                    (AreInherited (suc left) (some uid) context)
                    (resolve get_schema left definition (context_of r) (uid ∷ visiting))
                    (λ resolved. ok (resolved.fields, resolved.lineage ++ uid ∷ []))
                    (ih definition (context_of r) (uid ∷ visiting))
                    λ resolved is. (
                      child r definition refers parsed is.resolved refl,
                      rw length-append (omega (arith, is.depth)),
                    )

  pub resolve_sound :
      (left : ℕ) (schema : SchemaDefinition) (context : SchemaResolutionContext)
      (visiting : List Text)
      → Ensures (IsResolved left schema context) (resolve get_schema left schema context visiting)
  unfolding resolve
  resolve_sound zero = resolve_level_sound 0 none inherit_last
  resolve_sound (suc left) =
      resolve_level_sound (suc left) (some (resolve get_schema left))
        λ parent context visiting. inherit_next left parent context visiting (resolve_sound left)
