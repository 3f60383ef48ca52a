-- ===== src/Indexer/Registration/Accepted.antt =====
-- What an accepted registration is: apps/indexer/src/registration.ts, lines 121 to 192.
use mathlib.Core.Path.{subst}
use xcs.Common.{
  ℕ, Text, Option, none, some, Result, ok, err, ◌≡◌, refl, text_eq, text_eq_sound, >>=-eq-ok,
  guard-eq-ok, ok-injective, ap, ◌∙◌,
}
use xcs.Core.Errors.{Checked}
use xcs.Core.Json.{JsonValue}
use xcs.Core.Schema.{SchemaDefinition, parse_schema}
use xcs.Core.Schema.RoundTrip.{schema_value, parse_schema-schema_value}
use xcs.Core.Schema.Valid.{IsSchema}
use xcs.Core.Schema.Sound.{parse_schema-IsSchema}
use xcs.Core.Libraries.{Libraries}
use xcs.Core.Network.{NetworkProfile}
use xcs.Core.Resolution.{RegisteredSchema, ResolvedSchema, SchemaResolutionContext, resolve_schema}
use xcs.Core.Resolution.Lineage.{Resolves}
use xcs.Core.Resolution.Complete.{resolve_schema_iff}
use xcs.Core.Documents.{
  DocumentLibraries, SchemaUidInput, parse_json, canonical_json, compute_schema_uid,
}
use xcs.Core.Documents.Keys.{Distinct, parse_json_iff}
use xcs.Indexer.Types.{LedgerTransaction}
use xcs.Indexer.Registration.Envelope.{IsEnvelope, extract-IsEnvelope}
use xcs.Indexer.Registration.{
  EnvelopeResult, not_registration, candidate, refused, Registered, RegistrationReason, accepted,
  rejected, SchemaRegistrationResult, as_reason, outcome_of, register, interpret_parsed,
  interpret_envelope, interpret_schema_registration, extract_registration_envelope,
  registration_not_canonical,
}

as_reason-eq-ok :
    {A : Type 0} (r : Checked A) (a : A)
    → ◌≡◌ {A = Result RegistrationReason A} (as_reason r) (ok a)
    → r ≡ ok a
as_reason-eq-ok (ok b) a h = cc
as_reason-eq-ok (err e) a h = cc

-- A valid definition is read back from its object.
same_definition :
    (d : SchemaDefinition) (s : ResolvedSchema)
    → IsSchema d
    → parse_schema (schema_value d) ≡ ok s.definition
    → s.definition ≡ d
same_definition d s v h =
    let k : parse_schema (schema_value d) ≡ ok d = parse_schema-schema_value d v in cc

outcome_of-accepted :
    (parsed memo : JsonValue) (x : Result RegistrationReason Registered) (r : Registered)
    → outcome_of parsed x ≡ accepted memo r
    → (parsed ≡ memo) × (x ≡ ok r)
outcome_of-accepted parsed memo (ok a) r h = (cc, cc)
outcome_of-accepted parsed memo (err e) r h = cc

some-injective :
    {a b : SchemaRegistrationResult}
    → ◌≡◌ {A = Option SchemaRegistrationResult} (some a) (some b)
    → a ≡ b
some-injective h = cc

module _ (libraries : Libraries) (documents : DocumentLibraries) (low_bits : ℕ → ℕ)
    (profile : NetworkProfile) (ledger_hash : Text) (ledger_index : ℕ)
    (catalog : Text → Option RegisteredSchema) where
  -- the place of the registration
  abbrev pub place : ℕ → Text → SchemaResolutionContext
  place transaction_index publisher = record {
    network_id = profile.network_id;
    publisher = publisher;
    ledger_index = ledger_index;
    transaction_index = transaction_index;
  }

  -- what the UID is made of
  abbrev pub uid_input : ℕ → Text → SchemaDefinition → SchemaUidInput
  uid_input transaction_index publisher definition = record {
    network_id = profile.network_id;
    ledger_hash = ledger_hash;
    ledger_index = ledger_index;
    transaction_index = transaction_index;
    publisher = publisher;
    schema = schema_value definition;
  }

  pub record IsRegistered (transaction_index : ℕ) (publisher json_text : Text) (memo : JsonValue)
      (r : Registered) : Type 0 where
    -- The text in the transaction is the canonical text of the memo, which has no key twice.
    pub tree : documents.parse_tree json_text ≡ some memo
    pub keys_distinct : Distinct memo
    pub canonical : canonical_json documents memo ≡ ok json_text
    -- The definition is what the memo parses to, and is valid.
    pub parsed : parse_schema memo ≡ ok r.definition
    pub valid : IsSchema r.definition
    pub definition : r.resolved.definition ≡ r.definition
    -- It is resolved in the catalog as it is before the transaction.
    pub resolved :
        Resolves catalog r.resolved.definition
          (place transaction_index publisher)
          r.resolved.fields
          r.resolved.lineage
    pub uid :
        compute_schema_uid documents libraries (uid_input transaction_index publisher r.definition)
        ≡ ok r.schema_uid

  registered :
      (i : ℕ) (publisher json_text : Text) (memo : JsonValue) (r : Registered)
      → documents.parse_tree json_text ≡ some memo
      → Distinct memo
      → canonical_json documents memo ≡ ok json_text
      → parse_schema memo ≡ ok r.definition
      → r.resolved.definition ≡ r.definition
      → Resolves catalog r.resolved.definition
          (place i publisher)
          r.resolved.fields
          r.resolved.lineage
      → compute_schema_uid documents libraries (uid_input i publisher r.definition)
        ≡ ok r.schema_uid
      → IsRegistered i publisher json_text memo r
  registered i publisher json_text memo r a b c d g e f = record {
    tree = a;
    keys_distinct = b;
    canonical = c;
    parsed = d;
    valid = parse_schema-IsSchema memo r.definition d;
    definition = g;
    resolved = e;
    uid = f;
  }

  register-IsRegistered :
      (i : ℕ) (publisher json_text : Text) (memo : JsonValue) (r : Registered)
      → parse_json documents json_text ≡ ok memo
      → register libraries documents low_bits profile ledger_hash ledger_index catalog i publisher
          json_text memo
        ≡ ok r
      → IsRegistered i publisher json_text memo r
  unfolding register
  register-IsRegistered i publisher json_text memo r p h =
      let (tree, distinct, texts) = (parse_json_iff documents json_text memo).0 p in
      let (c, e1, h1) = >>=-eq-ok (as_reason (canonical_json documents memo)) _ h in
      let (same, h2) = guard-eq-ok (text_eq c json_text) registration_not_canonical _ h1 in
      let (d, e2, h3) = >>=-eq-ok (as_reason (parse_schema memo)) _ h2 in
      let (s, e3, h4) =
        >>=-eq-ok
          (as_reason (resolve_schema catalog libraries (schema_value d) (place i publisher))) _
          h3 in
      let (u, e4, h5) =
        >>=-eq-ok (as_reason (compute_schema_uid documents libraries (uid_input i publisher d))) _
          h4 in
      let (context, whole, inherits, depth) =
        (resolve_schema_iff catalog libraries (schema_value d) (place i publisher) s).0
          (as_reason-eq-ok _ s e3) in
      subst (IsRegistered i publisher json_text memo) (ok-injective h5) (
        registered i publisher json_text memo
          (record { schema_uid = u; definition = d; resolved = s }) tree distinct
          (rw (← text_eq_sound c json_text same) (as_reason-eq-ok _ c e1)) (as_reason-eq-ok _ d e2)
          (same_definition d s (parse_schema-IsSchema memo d (as_reason-eq-ok _ d e2)) whole)
          inherits (as_reason-eq-ok _ u e4))

  parsed_accepted :
      (i : ℕ) (publisher json_text : Text) (memo : JsonValue) (r : Registered)
      (c : Checked JsonValue)
      → parse_json documents json_text ≡ c
      → interpret_parsed libraries documents low_bits profile ledger_hash ledger_index catalog i
          publisher json_text c
        ≡ accepted memo r
      → IsRegistered i publisher json_text memo r
  unfolding interpret_parsed
  parsed_accepted i publisher json_text memo r (err code) p h = cc
  parsed_accepted i publisher json_text memo r (ok parsed) p h =
      let (same, done) =
        outcome_of-accepted parsed memo
          (register libraries documents low_bits profile ledger_hash ledger_index catalog i
            publisher json_text parsed)
          r h in
      subst (λ m. IsRegistered i publisher json_text m r) same
        (register-IsRegistered i publisher json_text parsed r p done)

  envelope_accepted :
      (transaction : LedgerTransaction) (e : EnvelopeResult) (result : SchemaRegistrationResult)
      (memo : JsonValue) (r : Registered)
      → interpret_envelope libraries documents low_bits profile ledger_hash ledger_index catalog
          transaction e
        ≡ some result
      → result.outcome ≡ accepted memo r
      → (json_text : Text) × (e ≡ candidate result.publisher json_text)
        × IsRegistered transaction.transaction_index result.publisher json_text memo r
  unfolding interpret_envelope
  envelope_accepted transaction not_registration result memo r h k = cc
  envelope_accepted transaction (refused publisher reason) result memo r h k =
      let same = some-injective h in
      let clash : rejected reason none ≡ accepted memo r = rw (← same) at k in cc
  envelope_accepted transaction (candidate publisher json_text) result memo r h k =
      let same = some-injective h in
      let its : publisher ≡ result.publisher = ap (λ x. x.publisher) same in
      let outcome : interpret_parsed libraries documents low_bits profile ledger_hash ledger_index
            catalog transaction.transaction_index publisher json_text
            (parse_json documents json_text)
          ≡ accepted memo r =
        ap (λ x. x.outcome) same ∙ k in
      (
        json_text,
        ap (λ p. candidate p json_text) its,
        subst (λ p. IsRegistered transaction.transaction_index p json_text memo r) its
            (parsed_accepted transaction.transaction_index publisher json_text memo r
              (parse_json documents json_text) refl outcome),
      )

  -- An accepted registration comes from a successful and direct payment of exactly one drop to the
  -- registry, not a partial one, with one memo of XCS, whose text is JSON: the text is the canonical
  -- text of the memo, which has no key twice; the memo parses to the definition, which is valid, is
  -- resolved in the catalog as it is before the transaction, and gives the UID at the place of the
  -- transaction.
  pub interpret_schema_registration-IsRegistered :
      (transaction : LedgerTransaction) (result : SchemaRegistrationResult) (memo : JsonValue)
      (r : Registered)
      → interpret_schema_registration libraries documents low_bits profile ledger_hash ledger_index
          catalog transaction
        ≡ some result
      → result.outcome ≡ accepted memo r
      → (json_text : Text) × IsEnvelope low_bits profile transaction result.publisher json_text
        × IsRegistered transaction.transaction_index result.publisher json_text memo r
  unfolding interpret_schema_registration
  interpret_schema_registration-IsRegistered transaction result memo r h k =
      let (json_text, found, valid) =
        envelope_accepted transaction (extract_registration_envelope low_bits transaction profile)
          result memo r h k in
      (
        json_text,
        extract-IsEnvelope low_bits profile transaction result.publisher json_text found,
        valid,
      )
