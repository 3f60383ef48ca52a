-- ===== src/Indexer/Mutations/Sound.antt =====
-- What holds of every mutation that apps/indexer/src/credential-mutations.ts extracts.
use xcs.Common.{
  ℕ, suc, ◌≡◌, refl, Text, codes, Bool, true, false, not, ◌||◌, ◌&&◌, List, [], ◌∷◌, Option, none,
  some, Result, ok, err, All, Ensures, Ensures-bind, Ensures-guard, Ensures-if, Ensures-map,
  to_lower, arith,
}
use xcs.Core.Json.{JsonValue, string, Items, nil, cons, get}
use xcs.Core.Libraries.{Libraries}
use xcs.Core.Network.{is_hash}
use xcs.Core.Network.Profiles.{IsLowerHash, is_hash-to_lower}
use xcs.Indexer.Types.{Fields, LedgerTransaction}
use xcs.Indexer.Mutations.{
  CredentialEventType, created_event, accepted_event, deleted_event, CredentialDeletionCause,
  CredentialMutation, ExtractedMutations, NodeKind, created_node, modified_node, deleted_node,
  NormalizedNode, NodeRefusal, left_out, malformed, node_kinds, record_of, or_empty, is_credential,
  node_at, contains_credential, uint32, has_accepted_flag, is_accepted, text_where, present,
  fields_name, normalize_fields, normalize_node, absent_or_uint32, event_type_of, cause_of,
  mutation_of, read_node, add_result, extract_from, affected_nodes, extract_credential_mutations,
  is_some,
}

abbrev pub is_deleted : CredentialEventType → Bool
is_deleted deleted_event = true
is_deleted _ = false

abbrev pub is_acceptance : CredentialEventType → Bool
is_acceptance accepted_event = true
is_acceptance _ = false

pub record IsMutation (libraries : Libraries) (accepts_uri known : Text → Bool)
    (transaction : LedgerTransaction) (m : CredentialMutation) : Type 0 where
  pub transaction_hash : m.transaction_hash ≡ transaction.hash
  pub transaction_index : m.transaction_index ≡ transaction.transaction_index
  pub object_id : IsLowerHash m.ledger_object_id
  pub issuer : libraries.is_valid_classic_address m.issuer ≡ true
  pub subject : libraries.is_valid_classic_address m.subject ≡ true
  pub schema_uid : IsLowerHash m.schema_uid
  pub schema_known : known m.schema_uid ≡ true
  pub uri : accepts_uri m.uri_hex ≡ true
  -- An acceptance leaves the credential accepted.
  pub acceptance : is_acceptance m.event_type ≡ true → m.accepted ≡ true
  -- There is a cause exactly for a deletion.
  pub cause : is_some m.deletion_cause ≡ is_deleted m.event_type

text_where-test :
    (test : Text → Bool) (v : Option JsonValue) → Ensures (λ t. test t ≡ true) (text_where test v)
unfolding text_where
text_where-test test none = tt
text_where-test test (some (string value)) =
    Ensures-if (λ t. test t ≡ true) (test value) (ok value) (err malformed) (λ h. h) (λ h. tt)
text_where-test test (some _) = tt

Ensures-any : (o : Option Fields) → Ensures (λ own. Unit {0}) (present o)
unfolding present
Ensures-any none = tt
Ensures-any (some own) = tt

normalize_fields-id :
    (kind : NodeKind) (node : Fields)
    → Ensures (λ n. IsLowerHash n.ledger_object_id) (normalize_fields kind node)
unfolding normalize_fields
normalize_fields-id kind node =
    Ensures-bind (λ t. is_hash t ≡ true) (λ n. IsLowerHash n.ledger_object_id)
      (text_where is_hash (get (codes "LedgerIndex") node)) _
      (text_where-test is_hash (get (codes "LedgerIndex") node))
      λ id h.
        Ensures-bind (λ own. Unit {0}) (λ n. IsLowerHash n.ledger_object_id)
          (present (record_of (get (fields_name kind) node)))
          (λ own. ok (record {
            kind = kind;
            ledger_object_id = to_lower id;
            fields = own;
            previous_fields = or_empty (record_of (get (codes "PreviousFields") node));
          }))
          (Ensures-any (record_of (get (fields_name kind) node))) λ own u. is_hash-to_lower id h

normalize_node-id :
    (wrapper : Option Fields) (kinds : List NodeKind)
    → Ensures (λ n. IsLowerHash n.ledger_object_id) (normalize_node wrapper kinds)
unfolding normalize_node
normalize_node-id wrapper [] = tt
normalize_node-id wrapper (kind ∷ kinds) =
    Ensures-if (λ n. IsLowerHash n.ledger_object_id) (is_credential (node_at wrapper kind))
      (normalize_fields kind (or_empty (node_at wrapper kind))) (normalize_node wrapper kinds)
      (λ h. normalize_fields-id kind (or_empty (node_at wrapper kind)))
      (λ h. normalize_node-id wrapper kinds)

abbrev AcceptanceOf : Fields → CredentialEventType → Type 0
AcceptanceOf own event = is_acceptance event ≡ true → is_accepted own ≡ true

event_type_of-acceptance :
    (kind : NodeKind) (own previous : Fields)
    → Ensures (AcceptanceOf own) (event_type_of kind own previous)
unfolding event_type_of
event_type_of-acceptance created_node own previous = λ h. cc
event_type_of-acceptance deleted_node own previous = λ h. cc
event_type_of-acceptance modified_node own previous =
    Ensures-if (AcceptanceOf own)
      (not (is_accepted own) || has_accepted_flag (uint32 (get (codes "Flags") previous)))
      (err left_out) (ok accepted_event) (λ h. tt) (λ h k. ground arith)

cause_of-deleted :
    (event : CredentialEventType) (cause : CredentialDeletionCause)
    → is_some (cause_of event cause) ≡ is_deleted event
cause_of-deleted created_event cause = refl
cause_of-deleted accepted_event cause = refl
cause_of-deleted deleted_event cause = refl

module _ (libraries : Libraries) (accepts_uri known : Text → Bool) (close_time : ℕ)
    (transaction : LedgerTransaction) where
  mutation_of-IsMutation :
      (i : ℕ) (node : NormalizedNode) (issuer subject type uri : Text) (event : CredentialEventType)
      → IsLowerHash node.ledger_object_id
      → libraries.is_valid_classic_address issuer ≡ true
      → libraries.is_valid_classic_address subject ≡ true
      → is_hash type ≡ true
      → known (to_lower type) ≡ true
      → accepts_uri uri ≡ true
      → AcceptanceOf node.fields event
      → IsMutation libraries accepts_uri known transaction (
          mutation_of libraries accepts_uri known close_time transaction i node issuer subject
            (to_lower type)
            uri
            event)
  unfolding mutation_of
  mutation_of-IsMutation i node issuer subject type uri event a b c d e f g = record {
    transaction_hash = refl;
    transaction_index = refl;
    object_id = a;
    issuer = b;
    subject = c;
    schema_uid = is_hash-to_lower type d;
    schema_known = e;
    uri = f;
    acceptance = g;
    cause = cause_of-deleted event _;
  }

  abbrev pub Valid : CredentialMutation → Type 0
  Valid m = IsMutation libraries accepts_uri known transaction m

  abbrev pub ValidAt : ℕ → CredentialMutation → Type 0
  ValidAt i m = Valid m × (m.node_index ≡ i)

  pub read_node-IsMutation :
      (i : ℕ) (wrapper : Option Fields)
      → Ensures (ValidAt i) (read_node libraries accepts_uri known close_time transaction i wrapper)
  unfolding read_node mutation_of
  read_node-IsMutation i wrapper =
      Ensures-guard (ValidAt i) (contains_credential wrapper node_kinds) left_out _
        λ some_credential.
          Ensures-bind (λ n. IsLowerHash n.ledger_object_id) (ValidAt i)
            (normalize_node wrapper node_kinds) _ (normalize_node-id wrapper node_kinds)
            λ node a.
              Ensures-bind (λ t. libraries.is_valid_classic_address t ≡ true) (ValidAt i)
                (text_where libraries.is_valid_classic_address (get (codes "Issuer") node.fields)) _
                (text_where-test libraries.is_valid_classic_address
                  (get (codes "Issuer") node.fields))
                λ issuer b.
                  Ensures-bind (λ t. libraries.is_valid_classic_address t ≡ true) (ValidAt i)
                    (text_where libraries.is_valid_classic_address
                      (get (codes "Subject") node.fields))
                    _
                    (text_where-test libraries.is_valid_classic_address
                      (get (codes "Subject") node.fields))
                    λ subject c.
                      Ensures-bind (λ t. is_hash t ≡ true) (ValidAt i)
                        (text_where is_hash (get (codes "CredentialType") node.fields)) _
                        (text_where-test is_hash (get (codes "CredentialType") node.fields))
                        λ type d. Ensures-guard (ValidAt i) (known (to_lower type)) left_out _ λ e.
                          Ensures-guard (ValidAt i)
                            (absent_or_uint32 (get (codes "Flags") node.fields)
                              && (absent_or_uint32 (get (codes "Expiration") node.fields)
                                  && absent_or_uint32 (get (codes "Flags") node.previous_fields)))
                            malformed _
                            λ numbers.
                              Ensures-bind (λ t. accepts_uri t ≡ true) (ValidAt i)
                                (text_where accepts_uri (get (codes "URI") node.fields)) _
                                (text_where-test accepts_uri (get (codes "URI") node.fields))
                                λ uri f.
                                  Ensures-bind (AcceptanceOf node.fields) (ValidAt i)
                                    (event_type_of node.kind node.fields node.previous_fields)
                                    (λ event. ok (
                                      mutation_of libraries accepts_uri known close_time transaction
                                        i node issuer subject (to_lower type) uri event))
                                    (event_type_of-acceptance node.kind node.fields
                                      node.previous_fields)
                                    λ event g. (
                                      mutation_of-IsMutation i node issuer subject type uri event a
                                          b c d e f g,
                                      refl,
                                    )

  add_result-All :
      (r : Result NodeRefusal CredentialMutation) (rest : ExtractedMutations)
      → Ensures Valid r
      → All Valid rest.mutations
      → All Valid (add_result r rest).mutations
  add_result-All (ok m) rest h k = (h, k)
  add_result-All (err left_out) rest h k = k
  add_result-All (err malformed) rest h k = k

  extract_from-All :
      (i : ℕ) (nodes : Items)
      → All Valid
          (extract_from libraries accepts_uri known close_time transaction i nodes).mutations
  unfolding extract_from
  extract_from-All i nil = tt
  extract_from-All i (cons raw nodes) =
      add_result-All
        (read_node libraries accepts_uri known close_time transaction i (record_of (some raw))) _
        (Ensures-map (ValidAt i) Valid
          (read_node libraries accepts_uri known close_time transaction i (record_of (some raw)))
          (read_node-IsMutation i (record_of (some raw))) λ m (h, k). h)
        (extract_from-All (suc i) nodes)

  -- Every mutation that is extracted belongs to the transaction, has valid addresses, a known schema
  -- and a payload URI, its two hashes are in lower case, an acceptance leaves the credential accepted,
  -- and exactly a deletion has a cause.
  pub extract_credential_mutations-IsMutation :
      All Valid
        (extract_credential_mutations libraries accepts_uri known close_time transaction).mutations
  unfolding extract_credential_mutations
  extract_credential_mutations-IsMutation =
      extract_from-All 0 (affected_nodes (get (codes "AffectedNodes") transaction.metadata))
