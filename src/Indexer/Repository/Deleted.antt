-- ===== src/Indexer/Repository/Deleted.antt =====
-- apps/indexer/src/repository.ts: the generations of credentials, as `persistCredentialMutation` leaves
-- them.
use mathlib.Core.List.{Memᴰ}
use xcs.Common.{
  ℕ, ◌≡◌, inl, inr, refl, Text, Bool, true, false, not, ◌&&◌, List, [], ◌∷◌, Option, none, some, ok,
  text_eq_refl, guard, ◌>>◌, any, Bool-cases, arith, Ensures, Ensures-bind, Ensures-map,
  Ensures-guard, Ensures-if, Ensures-then, Ensures-at,
}
use xcs.Indexer.Types.{ValidatedLedger}
use xcs.Indexer.Status.{is_some}
use xcs.Indexer.Fencing.{is_none}
use xcs.Indexer.Mutations.{CredentialMutation}
use xcs.Indexer.Repository.{constraint, GenerationRow, CredentialEventRow, Tables}
use xcs.Indexer.Repository.Generations.{
  generation_checks, generation_is, live_generation, touched, update_rows, require_live,
  insert_generation, create_generation, change_generation, apply_mutation, insert_event, event_is,
  event_refers, event_checks, event_of, persist_credential_mutation, persist_credential_mutations,
  new_generation, is_new_generation, generation_refers, with_generation, is_created,
}
use xcs.Indexer.Repository.Keys.{
  Keyed, one_row, Live, live_generation-Live, Updated, update_rows-Updated,
}

-- The rows of the generations stay told apart by their keys, and those of the deleted ones stay.
abbrev pub KeepsDeleted : List GenerationRow → List GenerationRow → Type 0
KeepsDeleted gs hs =
    Keyed gs
    → Keyed hs
      × ((g : GenerationRow) → is_some g.deleted_ledger_index ≡ true → Memᴰ g gs → Memᴰ g hs)

KeepsDeleted-trans :
    (gs hs ks : List GenerationRow) → KeepsDeleted gs hs → KeepsDeleted hs ks → KeepsDeleted gs ks
KeepsDeleted-trans gs hs ks first second keyed =
    let (keyed1, stays1) = first keyed in
    let (keyed2, stays2) = second keyed1 in
    (keyed2, λ g deleted m. stays2 g deleted (stays1 g deleted m))

not_both : (o : Option ℕ) → is_some o ≡ true → is_none o ≡ true → ⊥
not_both none a b = cc
not_both (some n) a b = cc

-- an update at the key of a row that is live
Updated-KeepsDeleted :
    (p : Text) (live : GenerationRow) (gs hs : List GenerationRow)
    → Live p gs (some live)
    → Updated (generation_is p live.generation_id) gs hs
    → KeepsDeleted gs hs
Updated-KeepsDeleted p live gs hs (there, mine, is_live) updated keyed = (
  updated.keyed keyed,
  λ g deleted m. elim (Bool-cases (generation_is p live.generation_id g)) [
    | inl same ↦
        let e = one_row p live.generation_id g live gs keyed m there same (own_key p live mine) in
        absurd (not_both live.deleted_ledger_index (rw e at deleted) is_live)
    | inr other ↦ updated.others g other m
  ],
)
  where
    own_key :
        (q : Text) (x : GenerationRow) → x.profile_id ≡ q → generation_is q x.generation_id x ≡ true
    own_key q x e = rw (e, text_eq_refl q, text_eq_refl x.generation_id) refl

new_key : (a b : Bool) → (not a && not b) ≡ true → a ≡ false
new_key a b h = ground arith

with_generation-KeepsDeleted :
    (g : GenerationRow) (t : Tables)
    → is_new_generation g t ≡ true
    → KeepsDeleted t.generations (g ∷ t.generations)
with_generation-KeepsDeleted g t is_new keyed = (
  (new_key (any (generation_is g.profile_id g.generation_id) t.generations) _ is_new, keyed),
  λ h deleted m. Memᴰ.tail m,
)

-- of tables with their generations
abbrev Keeping : Tables → Tables → Type 0
Keeping t u = KeepsDeleted t.generations u.generations

abbrev KeepingAfter : Tables → Text × Tables → Type 0
KeepingAfter t r = Keeping t r.1

insert_generation-Keeping :
    (g : GenerationRow) (t : Tables) → Ensures (Keeping t) (insert_generation g t)
unfolding insert_generation
insert_generation-Keeping g t =
    Ensures-guard (Keeping t) (generation_checks g) constraint
      (guard (is_new_generation g t) constraint
        >> (guard (generation_refers g t) constraint >> ok (with_generation g t)))
      λ passed.
        Ensures-guard (Keeping t) (is_new_generation g t) constraint
          (guard (generation_refers g t) constraint >> ok (with_generation g t))
          λ is_new.
            Ensures-guard (Keeping t) (generation_refers g t) constraint (ok (with_generation g t))
              λ refers. with_generation-KeepsDeleted g t is_new

insert_event-Keeping :
    (e : CredentialEventRow) (t : Tables)
    → Ensures (λ u. u.generations ≡ t.generations) (insert_event e t)
unfolding insert_event
insert_event-Keeping e t =
    Ensures-guard (λ u. u.generations ≡ t.generations) (event_checks e) _ _
      λ passed.
        Ensures-if (λ u. u.generations ≡ t.generations)
          (any (event_is e.profile_id e.transaction_hash e.node_index) t.events) _ _ (λ there. refl)
          λ absent.
            Ensures-then (λ u. u.generations ≡ t.generations) (guard (event_refers e t) constraint)
              _ λ u. refl

module _ (profile : Text) (ledger : ValidatedLedger) where
  require_live-Live :
      (gs : List GenerationRow) (o : Option GenerationRow)
      → Live profile gs o
      → Ensures (λ g. Live profile gs (some g)) (require_live o)
  require_live-Live gs none h = tt
  require_live-Live gs (some g) h = h

  change_generation-Keeping :
      (mutation : CredentialMutation) (t : Tables)
      → Ensures (KeepingAfter t) (change_generation profile ledger mutation t)
  unfolding change_generation
  change_generation-Keeping mutation t =
      let change = touched mutation ledger.ledger_index mutation.event_type in
      Ensures-bind (λ g. Live profile t.generations (some g)) (KeepingAfter t)
        (require_live (live_generation profile mutation.ledger_object_id t.generations)) _
        (require_live-Live t.generations _
          (live_generation-Live profile mutation.ledger_object_id t.generations))
        λ live found.
          Ensures-bind (Updated (generation_is profile live.generation_id) t.generations)
            (KeepingAfter t)
            (update_rows (generation_is profile live.generation_id) change t.generations) _
            (update_rows-Updated mutation ledger.ledger_index mutation.event_type
              (generation_is profile live.generation_id) t.generations)
            λ rows updated. Updated-KeepsDeleted profile live t.generations rows found updated

  create_generation-Keeping :
      (mutation : CredentialMutation) (t : Tables)
      → Ensures (KeepingAfter t) (create_generation profile ledger mutation t)
  unfolding create_generation
  create_generation-Keeping mutation t =
      Ensures-bind (Keeping t) (KeepingAfter t)
        (insert_generation (new_generation profile ledger mutation) t) _
        (insert_generation-Keeping (new_generation profile ledger mutation) t) λ u h. h

  persist_credential_mutation-Keeping :
      (mutation : CredentialMutation) (t : Tables)
      → Ensures (Keeping t) (persist_credential_mutation profile ledger mutation t)
  unfolding persist_credential_mutation apply_mutation
  persist_credential_mutation-Keeping mutation t =
      Ensures-bind (KeepingAfter t) (Keeping t) (apply_mutation profile ledger mutation t) _
        (Ensures-if (KeepingAfter t) (is_created mutation.event_type) _ _
          (λ h. create_generation-Keeping mutation t) λ h. change_generation-Keeping mutation t)
        λ (generation, u) h.
          Ensures-map (λ v. v.generations ≡ u.generations) (Keeping t)
            (insert_event (event_of profile ledger mutation generation) u)
            (insert_event-Keeping (event_of profile ledger mutation generation) u)
            λ v same. rw same h

  persist_credential_mutations-Keeping :
      (mutations : List CredentialMutation) (t : Tables)
      → Ensures
          (λ u. KeepsDeleted t.generations u.generations)
          (persist_credential_mutations profile ledger mutations t)
  unfolding persist_credential_mutations
  persist_credential_mutations-Keeping [] t = λ keyed. (keyed, λ g deleted m. m)
  persist_credential_mutations-Keeping (mutation ∷ rest) t =
      Ensures-bind (Keeping t) (Keeping t) (persist_credential_mutation profile ledger mutation t) _
        (persist_credential_mutation-Keeping mutation t)
        λ u h.
          Ensures-map (Keeping u) (Keeping t) (persist_credential_mutations profile ledger rest u)
            (persist_credential_mutations-Keeping rest u)
            λ v k. KeepsDeleted-trans t.generations u.generations v.generations h k

-- Where no key of the generations stands twice, the mutations of a ledger, when they are all stored,
-- leave such a table, and a generation that was deleted before is in it with all its columns as they
-- were.
pub persist_credential_mutations-Keyed :
    (profile : Text) (ledger : ValidatedLedger) (mutations : List CredentialMutation) (t u : Tables)
    (g : GenerationRow)
    → Keyed t.generations
    → Memᴰ g t.generations
    → is_some g.deleted_ledger_index ≡ true
    → persist_credential_mutations profile ledger mutations t ≡ ok u
    → Keyed u.generations × Memᴰ g u.generations
persist_credential_mutations-Keyed profile ledger mutations t u g keyed there deleted e =
    let (after, stays) =
      Ensures-at (Keeping t) (persist_credential_mutations profile ledger mutations t) u
        (persist_credential_mutations-Keeping profile ledger mutations t) e keyed in
    (after, stays g deleted there)
