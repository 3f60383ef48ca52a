-- ===== src/Indexer/Mutations/Places.antt =====
-- Where the mutations of apps/indexer/src/credential-mutations.ts stand among the affected nodes.
use xcs.Common.{
  ℕ, suc, ◌+◌, ◌≤◌, ◌≡◌, Text, codes, Bool, List, [], ◌∷◌, some, Result, ok, err, length, Ensures,
  arith,
}
use xcs.Core.Json.{JsonValue, Items, nil, cons, get}
use xcs.Core.Libraries.{Libraries}
use xcs.Indexer.Types.{LedgerTransaction}
use xcs.Indexer.Mutations.{
  CredentialMutation, ExtractedMutations, NodeRefusal, left_out, malformed, record_of, read_node,
  add_result, extract_from, affected_nodes, extract_credential_mutations,
}
use xcs.Indexer.Mutations.Sound.{ValidAt, read_node-IsMutation}

abbrev pub count : Items → ℕ
count nil = 0
count (cons node rest) = suc (count rest)

-- node indexes that go up, from one bound to below another
abbrev pub Places : ℕ → ℕ → List CredentialMutation → Type 0
Places low high [] = low ≤ high
Places low high (m ∷ ms) = (low ≤ m.node_index) × Places (suc m.node_index) high ms

Places-down :
    (low low1 high : ℕ) (ms : List CredentialMutation)
    → low ≤ low1
    → Places low1 high ms
    → Places low high ms
Places-down low low1 high [] le h = omega (arith, le, h)
Places-down low low1 high (m ∷ ms) le (h, k) = (omega (arith, le, h), k)

abbrev pub affected : LedgerTransaction → Items
affected transaction = affected_nodes (get (codes "AffectedNodes") transaction.metadata)

module _ (libraries : Libraries) (accepts_uri known : Text → Bool) (close_time : ℕ)
    (transaction : LedgerTransaction) where
  -- the mutations of nodes from `i` to `high`, and that no node counts twice
  abbrev Placed : ℕ → ℕ → Items → ExtractedMutations → Type 0
  Placed i high nodes x =
      Places i high x.mutations × (length x.mutations + x.malformed_credential_nodes ≤ count nodes)

  add_result-Placed :
      (i high : ℕ) (raw : JsonValue) (nodes : Items) (r : Result NodeRefusal CredentialMutation)
      (rest : ExtractedMutations)
      → Ensures (ValidAt libraries accepts_uri known close_time transaction i) r
      → Placed (suc i) high nodes rest
      → Placed i high (cons raw nodes) (add_result r rest)
  add_result-Placed i high raw nodes (ok m) rest (v, place) (h, k) =
      ((omega (arith, place), rw place h), omega (arith, k))
  add_result-Placed i high raw nodes (err left_out) rest v (h, k) =
      (Places-down i (suc i) high rest.mutations (omega arith) h, omega (arith, k))
  add_result-Placed i high raw nodes (err malformed) rest v (h, k) =
      (Places-down i (suc i) high rest.mutations (omega arith) h, omega (arith, k))

  extract_from-Placed :
      (i high : ℕ) (nodes : Items)
      → i + count nodes ≡ high
      → Placed i high nodes
          (extract_from libraries accepts_uri known close_time transaction i nodes)
  unfolding extract_from
  extract_from-Placed i high nil e = (omega (arith, e), omega arith)
  extract_from-Placed i high (cons raw nodes) e =
      add_result-Placed i high raw nodes
        (read_node libraries accepts_uri known close_time transaction i (record_of (some raw)))
        (extract_from libraries accepts_uri known close_time transaction (suc i) nodes)
        (read_node-IsMutation libraries accepts_uri known close_time transaction i
          (record_of (some raw)))
        (extract_from-Placed (suc i) high nodes (omega (arith, e)))

  -- The mutations of a transaction come in the order of its affected nodes, each from a node of its
  -- own, so a transaction's hash and a node's index name one mutation at most; and the mutations and
  -- the malformed nodes together are not more than the nodes.
  pub extract_credential_mutations-Places :
      Places 0
        (count (affected transaction))
        (extract_credential_mutations libraries accepts_uri known close_time transaction).mutations
      × (length
              (extract_credential_mutations libraries accepts_uri known close_time
                transaction).mutations
            + (extract_credential_mutations libraries accepts_uri known close_time
                transaction).malformed_credential_nodes
          ≤ count (affected transaction))
  unfolding extract_credential_mutations
  extract_credential_mutations-Places =
      extract_from-Placed 0 (count (affected transaction)) (affected transaction) (omega arith)
