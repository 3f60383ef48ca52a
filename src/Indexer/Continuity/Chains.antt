-- ===== src/Indexer/Continuity/Chains.antt =====
-- The sequences of ledgers that apps/indexer/src/continuity.ts lets pass.
use xcs.Common.{
  ℕ, suc, ◌+◌, ◌≡◌, ◌↔◌, refl, Text, Bool, true, false, zero, List, [], ◌∷◌, map, Option, none,
  some, Result, ok, err, ◌==◌, ==_iff, text_eq, text_eq_iff, guard, ◌>>◌, to_lower, arith, length,
}
use xcs.Core.Network.{NetworkProfile}
use xcs.Indexer.Types.{LedgerTransaction, ValidatedLedger, Checkpoint}
use xcs.Indexer.Continuity.{
  LedgerContinuityError, ledger_gap, assert_ledger_continuity, assert_ordering_from,
  assert_transaction_ordering,
}

-- The checkpoint of a ledger that is stored: apps/indexer/src/repository.ts.
abbrev pub checkpoint_of : ValidatedLedger → Checkpoint
checkpoint_of ledger = record {
  ledger_index = ledger.ledger_index;
  ledger_hash = ledger.ledger_hash;
  parent_hash = ledger.parent_hash;
  close_time = ledger.close_time;
  transaction_count = length ledger.transactions;
  transaction_root = some ledger.transaction_root;
}

two_tests :
    (e1 e2 : LedgerContinuityError) (a b : Bool)
    → ((guard a e1 >> guard b e2) ≡ ok tt) ↔ ((a ≡ true) × (b ≡ true))
two_tests e1 e2 true true = (λ h. (refl, refl), λ h. refl)
two_tests e1 e2 true false = (λ h. cc, λ (h, k). cc)
two_tests e1 e2 false b = (λ h. cc, λ (h, k). cc)

-- the next ledger of a chain, by its place and what it descends from
abbrev pub Follows : NetworkProfile → Option Checkpoint → ValidatedLedger → Type 0
Follows profile none ledger =
    (ledger.ledger_index ≡ profile.activation_ledger_index)
    × (ledger.ledger_hash ≡ to_lower profile.activation_ledger_hash)
Follows profile (some previous) ledger =
    (ledger.ledger_index ≡ previous.ledger_index + 1) × (ledger.parent_hash ≡ previous.ledger_hash)

pub assert_ledger_continuity_iff :
    (profile : NetworkProfile) (previous : Option Checkpoint) (ledger : ValidatedLedger)
    → (assert_ledger_continuity profile previous ledger ≡ ok tt) ↔ Follows profile previous ledger
unfolding assert_ledger_continuity
assert_ledger_continuity_iff profile none ledger =
    let (f, g) =
      two_tests _ _ (ledger.ledger_index == profile.activation_ledger_index)
        (text_eq ledger.ledger_hash (to_lower profile.activation_ledger_hash)) in
    let (i, j) = ==_iff ledger.ledger_index profile.activation_ledger_index in
    let (k, l) = text_eq_iff ledger.ledger_hash (to_lower profile.activation_ledger_hash) in
    (λ h. let (a, b) = f h in (i a, k b), λ (a, b). g (j a, l b))
assert_ledger_continuity_iff profile (some previous) ledger =
    let (f, g) =
      two_tests _ _ (ledger.ledger_index == previous.ledger_index + 1)
        (text_eq ledger.parent_hash previous.ledger_hash) in
    let (i, j) = ==_iff ledger.ledger_index (previous.ledger_index + 1) in
    let (k, l) = text_eq_iff ledger.parent_hash previous.ledger_hash in
    (λ h. let (a, b) = f h in (i a, k b), λ (a, b). g (j a, l b))

-- The ledgers of a run, each checked against the checkpoint of the one before.
abbrev pub follow :
    NetworkProfile
    → Option Checkpoint
    → List ValidatedLedger
    → Result LedgerContinuityError (Unit {0})
follow profile previous [] = ok tt
follow profile previous (ledger ∷ rest) =
    assert_ledger_continuity profile previous ledger
    >> follow profile (some (checkpoint_of ledger)) rest

abbrev pub count_from : ℕ → ℕ → List ℕ
count_from start zero = []
count_from start (suc n) = start ∷ count_from (suc start) n

-- every ledger descends from the one before
abbrev pub Linked : Text → List ValidatedLedger → Type 0
Linked hash [] = Unit
Linked hash (ledger ∷ rest) = (ledger.parent_hash ≡ hash) × Linked ledger.ledger_hash rest

abbrev pub IsChain : NetworkProfile → List ValidatedLedger → Type 0
IsChain profile [] = Unit
IsChain profile (ledger ∷ rest) =
    (ledger.ledger_hash ≡ to_lower profile.activation_ledger_hash)
    × Linked ledger.ledger_hash rest
    × (map (λ l. l.ledger_index) (ledger ∷ rest)
        ≡ count_from profile.activation_ledger_index (length (ledger ∷ rest)))

>>-eq-ok :
    (m k : Result LedgerContinuityError (Unit {0}))
    → ((m >> k) ≡ ok tt) ↔ ((m ≡ ok tt) × (k ≡ ok tt))
>>-eq-ok (ok tt) k = (λ h. (refl, h), λ (a, b). b)
>>-eq-ok (err e) k = (λ h. cc, λ (a, b). cc)

guard_test : (t : Bool) → guard t ledger_gap ≡ ok tt → t ≡ true
guard_test true h = refl
guard_test false h = cc

begin_places :
    (a b n : ℕ) (rest : List ℕ)
    → a ≡ b
    → rest ≡ count_from (suc a) n
    → (a ∷ rest) ≡ count_from b (suc n)
begin_places a b n rest place h = rw (h, place) refl

unbegin_places :
    (a b n : ℕ) (rest : List ℕ)
    → (a ∷ rest) ≡ count_from b (suc n)
    → (a ≡ b) × (rest ≡ count_from (suc a) n)
unbegin_places a b n rest h =
    let place : a ≡ b = cc in let tail : rest ≡ count_from (suc b) n = cc in (place, rw place tail)

-- the same, for the next place
cons_places :
    (a b n : ℕ) (rest : List ℕ)
    → a ≡ b + 1
    → rest ≡ count_from (suc a) n
    → (a ∷ rest) ≡ count_from (suc b) (suc n)
cons_places a b n rest place h = begin_places a (suc b) n rest (omega (arith, place)) h

uncons_places :
    (a b n : ℕ) (rest : List ℕ)
    → (a ∷ rest) ≡ count_from (suc b) (suc n)
    → (a ≡ b + 1) × (rest ≡ count_from (suc a) n)
uncons_places a b n rest h =
    let (place, tail) = unbegin_places a (suc b) n rest h in (omega (arith, place), tail)

follow-Linked :
    (profile : NetworkProfile) (c : Checkpoint) (ls : List ValidatedLedger)
    → (follow profile (some c) ls ≡ ok tt) ↔ (
        Linked c.ledger_hash ls
        × (map (λ l. l.ledger_index) ls ≡ count_from (suc c.ledger_index) (length ls)))
follow-Linked profile c [] = (λ h. (tt, refl), λ h. refl)
follow-Linked profile c (l ∷ ls) =
    let (f, g) =
      >>-eq-ok (assert_ledger_continuity profile (some c) l)
        (follow profile (some (checkpoint_of l)) ls) in
    let (i, j) = assert_ledger_continuity_iff profile (some c) l in
    let (k, m) = follow-Linked profile (checkpoint_of l) ls in
    (
      λ h.
          let (a, b) = f h in
          let (place, parent) = i a in
          let (linked, places) = k b in
          ((parent, linked), cons_places l.ledger_index c.ledger_index (length ls) _ place places),
      λ ((parent, linked), places).
          let (place, rest) = uncons_places l.ledger_index c.ledger_index (length ls) _ places in
          g (j (place, parent), m (linked, rest)),
    )

-- What `assertLedgerContinuity` lets pass, one ledger after the other, are exactly the chains: they
-- begin at the activation ledger, with its hash, their indexes go up by one, and every ledger
-- descends from the one before.
pub follow_iff :
    (profile : NetworkProfile) (ledgers : List ValidatedLedger)
    → (follow profile none ledgers ≡ ok tt) ↔ IsChain profile ledgers
follow_iff profile [] = (λ h. tt, λ h. refl)
follow_iff profile (l ∷ ls) =
    let (f, g) =
      >>-eq-ok (assert_ledger_continuity profile none l)
        (follow profile (some (checkpoint_of l)) ls) in
    let (i, j) = assert_ledger_continuity_iff profile none l in
    let (k, m) = follow-Linked profile (checkpoint_of l) ls in
    (
      λ h.
          let (a, b) = f h in
          let (place, hash) = i a in
          let (linked, places) = k b in
          (
            hash,
            linked,
            begin_places l.ledger_index profile.activation_ledger_index (length ls) _ place places,
          ),
      λ (hash, linked, places).
          let (place, rest) =
            unbegin_places l.ledger_index profile.activation_ledger_index (length ls) _ places in
          g (j (place, hash), m (linked, rest)),
    )

ordering_from_iff :
    (position : ℕ) (ts : List LedgerTransaction)
    → (assert_ordering_from position ts ≡ ok tt)
      ↔ (map (λ t. t.transaction_index) ts ≡ count_from position (length ts))
unfolding assert_ordering_from
ordering_from_iff position [] = (λ h. refl, λ h. refl)
ordering_from_iff position (t ∷ ts) =
    let (f, g) =
      >>-eq-ok (guard (t.transaction_index == position) ledger_gap)
        (assert_ordering_from (suc position) ts) in
    let (k, m) = ordering_from_iff (suc position) ts in
    (
      λ h.
          let (a, b) = f h in
          let place : t.transaction_index ≡ position =
            (==_iff t.transaction_index position).0
              (guard_test (t.transaction_index == position) a) in
          rw (place, k b) refl,
      λ places.
          let place : t.transaction_index ≡ position = cc in
          let rest : map (λ t. t.transaction_index) ts ≡ count_from (suc position) (length ts) =
            cc in
          g (rw ((==_iff t.transaction_index position).1 place) refl, m rest),
    )

-- `assertTransactionOrdering` lets a ledger pass exactly if its transactions' indexes are 0, 1, 2 and
-- so on, in the order of its list.
pub assert_transaction_ordering_iff :
    (ledger : ValidatedLedger)
    → (assert_transaction_ordering ledger ≡ ok tt) ↔ (
        map (λ t. t.transaction_index) ledger.transactions
        ≡ count_from 0 (length ledger.transactions))
unfolding assert_transaction_ordering
assert_transaction_ordering_iff ledger = ordering_from_iff 0 ledger.transactions
