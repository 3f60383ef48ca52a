-- ===== src/Indexer/Mutations.antt =====
-- apps/indexer/src/credential-mutations.ts: the changes of credentials in a transaction's metadata.
pub mod Sound
pub mod Places
use xcs.Common.{
  ℕ, suc, ◌+◌, ◌/◌, ◌%◌, Text, codes, Bool, true, false, not, ◌&&◌, ◌||◌, List, [], ◌∷◌, Option,
  none, some, Result, ok, err, leb, ◌==◌, text_eq, if◌then◌else◌, guard, ◌>>=◌, ◌>>◌, to_lower,
}
use xcs.Core.Json.{
  JsonValue, JsonNumber, Items, natural, other, number, string, object, array, nil, cons, entries,
  get,
}
use xcs.Core.Libraries.{Libraries}
use xcs.Core.Network.{is_hash}
use xcs.Indexer.Types.{Fields, LedgerTransaction}

pub data CredentialEventType : Type 0 where
  created_event accepted_event deleted_event : CredentialEventType

pub data CredentialDeletionCause : Type 0 where
  issuer_revoked subject_rejected subject_removed expired_cleanup account_deleted self_deleted :
      CredentialDeletionCause

pub record CredentialMutation : Type 0 where
  pub transaction_hash : Text
  pub transaction_index : ℕ
  pub node_index : ℕ
  pub ledger_object_id : Text
  pub event_type : CredentialEventType
  pub issuer : Text
  pub subject : Text
  pub schema_uid : Text
  pub uri_hex : Text
  pub expiration : Option ℕ
  pub accepted : Bool
  pub deletion_cause : Option CredentialDeletionCause
  pub snapshot : Fields

pub record ExtractedMutations : Type 0 where
  pub mutations : List CredentialMutation
  pub malformed_credential_nodes : ℕ

pub data NodeKind : Type 0 where
  created_node modified_node deleted_node : NodeKind

pub record NormalizedNode : Type 0 where
  pub kind : NodeKind
  pub ledger_object_id : Text
  pub fields : Fields
  pub previous_fields : Fields

-- Why a node gives no mutation: it is left out, or it counts as malformed.
pub data NodeRefusal : Type 0 where
  left_out malformed : NodeRefusal

abbrev pub kind_name : NodeKind → Text
kind_name created_node = codes "CreatedNode"
kind_name modified_node = codes "ModifiedNode"
kind_name deleted_node = codes "DeletedNode"

abbrev pub node_kinds : List NodeKind
node_kinds = created_node ∷ modified_node ∷ deleted_node ∷ []

-- `record`: an array is an object too, and has none of the properties that the code asks for.
unfoldable pub record_of : Option JsonValue → Option Fields
record_of (some (object ms)) = some (entries ms)
record_of (some (array items)) = some []
record_of _ = none

abbrev pub or_empty : Option Fields → Fields
or_empty none = []
or_empty (some fs) = fs

-- `value === text`
unfoldable pub is_text : Option JsonValue → Text → Bool
unfolding text_eq
is_text (some (string value)) text = text_eq value text
is_text _ text = false

unfoldable pub is_credential : Option Fields → Bool
unfolding is_text get
is_credential none = false
is_credential (some node) = is_text (get (codes "LedgerEntryType") node) (codes "Credential")

-- `record(wrapper[kind])`
unfoldable pub node_at : Option Fields → NodeKind → Option Fields
unfolding record_of get
node_at none kind = none
node_at (some wrapper) kind = record_of (get (kind_name kind) wrapper)

unfoldable pub contains_credential : Option Fields → List NodeKind → Bool
unfolding is_credential node_at
contains_credential wrapper [] = false
contains_credential wrapper (kind ∷ kinds) =
    is_credential (node_at wrapper kind) || contains_credential wrapper kinds

unfoldable pub uint32 : Option JsonValue → Option ℕ
uint32 (some (number (natural n))) = if leb n 0xffff_ffff then some n else none
uint32 _ = none

-- `flags & CREDENTIAL_ACCEPTED_FLAG`, bit 16
abbrev pub has_accepted_bit : ℕ → Bool
has_accepted_bit flags = (flags / 65536) % 2 == 1

abbrev pub has_accepted_flag : Option ℕ → Bool
has_accepted_flag none = false
has_accepted_flag (some flags) = has_accepted_bit flags

unfoldable pub is_accepted : Fields → Bool
unfolding uint32 get
is_accepted fs = has_accepted_flag (uint32 (get (codes "Flags") fs))

-- a text that passes a test, or else the node is malformed
unfoldable pub text_where : (Text → Bool) → Option JsonValue → Result NodeRefusal Text
text_where test (some (string value)) = if test value then ok value else err malformed
text_where test _ = err malformed

unfoldable pub present : Option Fields → Result NodeRefusal Fields
present none = err malformed
present (some fs) = ok fs

abbrev pub fields_name : NodeKind → Text
fields_name created_node = codes "NewFields"
fields_name _ = codes "FinalFields"

unfoldable pub normalize_fields : NodeKind → Fields → Result NodeRefusal NormalizedNode
unfolding text_where present record_of get is_hash to_lower
normalize_fields kind node = do
  id ← text_where is_hash (get (codes "LedgerIndex") node)
  own ← present (record_of (get (fields_name kind) node))
  ok (record {
    kind = kind;
    ledger_object_id = to_lower id;
    fields = own;
    previous_fields = or_empty (record_of (get (codes "PreviousFields") node));
  })

-- `normalizeNode`, the loop over the kinds; a result of `undefined` is malformed.
unfoldable pub normalize_node : Option Fields → List NodeKind → Result NodeRefusal NormalizedNode
unfolding is_credential node_at normalize_fields
normalize_node wrapper [] = err malformed
normalize_node wrapper (kind ∷ kinds) =
    let rest = normalize_node wrapper kinds in
    if is_credential (node_at wrapper kind)
    then normalize_fields kind (or_empty (node_at wrapper kind))
    else rest

abbrev pub is_past : Option ℕ → ℕ → Bool
is_past none close_time = false
is_past (some expiration) close_time = leb expiration close_time

unfoldable pub deletion_cause :
    Option JsonValue → Option JsonValue → Text → Text → Fields → ℕ → CredentialDeletionCause
unfolding is_text is_accepted uint32 get
deletion_cause transaction_type actor issuer subject fs close_time =
    if is_text transaction_type (codes "AccountDelete")
    then account_deleted
    else if is_text transaction_type (codes "CredentialDelete") && is_text actor issuer
    then issuer_revoked
    else if is_text transaction_type (codes "CredentialDelete") && is_text actor subject
    then (if is_accepted fs then subject_removed else subject_rejected)
    else if is_past (uint32 (get (codes "Expiration") fs)) close_time
    then expired_cleanup
    else self_deleted

abbrev pub is_some {ℓ} : {A : Type ℓ} → Option A → Bool
is_some none = false
is_some (some a) = true

-- A property that is there is a uint32.
unfoldable pub absent_or_uint32 : Option JsonValue → Bool
unfolding uint32
absent_or_uint32 none = true
absent_or_uint32 (some value) = is_some (uint32 (some value))

-- A modified node is an acceptance if it has the flag now and had it not before.
unfoldable pub event_type_of : NodeKind → Fields → Fields → Result NodeRefusal CredentialEventType
unfolding is_accepted uint32 get
event_type_of created_node own previous = ok created_event
event_type_of deleted_node own previous = ok deleted_event
event_type_of modified_node own previous =
    if not (is_accepted own) || has_accepted_flag (uint32 (get (codes "Flags") previous))
    then err left_out
    else ok accepted_event

abbrev pub cause_of : CredentialEventType → CredentialDeletionCause → Option CredentialDeletionCause
cause_of deleted_event cause = some cause
cause_of _ cause = none

abbrev pub add_result :
    Result NodeRefusal CredentialMutation → ExtractedMutations → ExtractedMutations
add_result (ok mutation) rest = record {
  mutations = mutation ∷ rest.mutations;
  malformed_credential_nodes = rest.malformed_credential_nodes;
}
add_result (err left_out) rest = rest
add_result (err malformed) rest = record {
  mutations = rest.mutations;
  malformed_credential_nodes = suc rest.malformed_credential_nodes;
}

unfoldable pub affected_nodes : Option JsonValue → Items
affected_nodes (some (array items)) = items
affected_nodes _ = nil

-- `accepts_uri` is that `parsePayloadUri(decodeHexUtf8(uriHex))` does not throw.
module _ (libraries : Libraries) (accepts_uri : Text → Bool) (known : Text → Bool) (close_time : ℕ)
    (transaction : LedgerTransaction) where
  -- what `mutations.push` is given
  unfoldable pub mutation_of :
      ℕ → NormalizedNode → Text → Text → Text → Text → CredentialEventType → CredentialMutation
  unfolding is_accepted uint32 deletion_cause get
  mutation_of node_index node issuer subject schema_uid uri_hex event = record {
    transaction_hash = transaction.hash;
    transaction_index = transaction.transaction_index;
    node_index = node_index;
    ledger_object_id = node.ledger_object_id;
    event_type = event;
    issuer = issuer;
    subject = subject;
    schema_uid = schema_uid;
    uri_hex = uri_hex;
    expiration = uint32 (get (codes "Expiration") node.fields);
    accepted = is_accepted node.fields;
    deletion_cause = cause_of event (
        deletion_cause (get (codes "TransactionType") transaction.transaction)
          (get (codes "Account") transaction.transaction) issuer subject node.fields close_time);
    snapshot = node.fields;
  }

  unfoldable pub read_node : ℕ → Option Fields → Result NodeRefusal CredentialMutation
  unfolding contains_credential normalize_node text_where is_hash absent_or_uint32 event_type_of
      mutation_of get to_lower
  read_node node_index wrapper = do
    guard (contains_credential wrapper node_kinds) left_out
    node ← normalize_node wrapper node_kinds
    issuer ← text_where libraries.is_valid_classic_address (get (codes "Issuer") node.fields)
    subject ← text_where libraries.is_valid_classic_address (get (codes "Subject") node.fields)
    credential_type ← text_where is_hash (get (codes "CredentialType") node.fields)
    guard (known (to_lower credential_type)) left_out
    guard
        (absent_or_uint32 (get (codes "Flags") node.fields)
          && (absent_or_uint32 (get (codes "Expiration") node.fields)
              && absent_or_uint32 (get (codes "Flags") node.previous_fields)))
        malformed
    uri_hex ← text_where accepts_uri (get (codes "URI") node.fields)
    event ← event_type_of node.kind node.fields node.previous_fields
    ok (mutation_of node_index node issuer subject (to_lower credential_type) uri_hex event)

  -- the loop over the affected nodes, from an index on
  unfoldable pub extract_from : ℕ → Items → ExtractedMutations
  unfolding read_node record_of
  extract_from node_index nil = record { mutations = []; malformed_credential_nodes = 0 }
  extract_from node_index (cons raw_node rest) =
      add_result (read_node node_index (record_of (some raw_node)))
        (extract_from (suc node_index) rest)

  unfoldable pub extract_credential_mutations : ExtractedMutations
  unfolding extract_from affected_nodes get
  extract_credential_mutations =
      extract_from 0 (affected_nodes (get (codes "AffectedNodes") transaction.metadata))
