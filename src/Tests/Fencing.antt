-- ===== src/Tests/Fencing.antt =====
-- Leases on one profile: a first writer, and a second one when the first lease is over.
use xcs.Common.{
  ◌<◌, ◌≡◌, ◌↔◌, refl, Text, codes, true, none, some, ok, err, text_eq, Outcome, Returns, Ensures,
  arith,
}
use xcs.Core.Json.{natural}
use xcs.Indexer.Status.{
  IndexerStatusRow, lease_lost, lease_unavailable, ready, StatusInput, normalize_status,
}
use xcs.Indexer.Status.Checks.{IsNormalized, normalize_status-IsNormalized}
use xcs.Indexer.Fencing.{
  LeaseToken, AcquiredLease, Database, put_status, leased_row, acquire_indexer_lease,
  lock_active_indexer_lease,
}
use xcs.Indexer.Fencing.Invariant.{Inv, Expected}
use xcs.Indexer.Fencing.History.{run, Stepped, run-Stepped, acquire}
use xcs.Indexer.Fencing.Exclusion.{
  start, step, Refused, History-Inv, superseded-Refused, acquired_lease_iff,
}

abbrev pub main : Text
main = codes "main"

abbrev first : Text
first = codes "writer-1"

abbrev pub second : Text
second = codes "writer-2"

-- one profile, and no leases yet
abbrev no_leases : Database
no_leases = record { profiles = λ p. true; statuses = λ p. none; incidents = λ p e. none }

no_leases-Inv : Inv 0 no_leases
no_leases-Inv = record { rows = λ p r e. cc; unused = λ p e n. refl }

abbrev pub first_row : IndexerStatusRow
first_row = leased_row main first 1 60000 1000

abbrev pub first_leased : Database
first_leased = put_status main first_row no_leases

abbrev pub first_token : LeaseToken
first_token = record { profile_id = main; writer_id = first; epoch = 1 }

abbrev first_lease : AcquiredLease
first_lease = record { token = first_token; lease_expires_at = 61000 }

abbrev pub second_leased : Database
second_leased = put_status main (leased_row main second 2 60000 61000) first_leased

abbrev pub second_lease : AcquiredLease
second_lease = record {
  token = record { profile_id = main; writer_id = second; epoch = 2 };
  lease_expires_at = 121000;
}

first_acquires :
    acquire_indexer_lease main first (natural 60000) 1000 no_leases ≡ ok (first_lease, first_leased)
unfolding acquire_indexer_lease text_eq
first_acquires = refl

pub first_is_active : lock_active_indexer_lease first_token 1000 first_leased ≡ ok first_row
unfolding lock_active_indexer_lease text_eq
first_is_active = refl

first_is_over : lock_active_indexer_lease first_token 61000 first_leased ≡ err lease_lost
unfolding lock_active_indexer_lease text_eq
first_is_over = refl

second_waits :
    acquire_indexer_lease main second (natural 60000) 60999 first_leased ≡ err lease_unavailable
unfolding acquire_indexer_lease text_eq
second_waits = refl

pub second_acquires :
    acquire_indexer_lease main second (natural 60000) 61000 first_leased
    ≡ ok (second_lease, second_leased)
unfolding acquire_indexer_lease text_eq
second_acquires = refl

first_runs : run (acquire main first (natural 60000)) 1000 no_leases ≡ ok first_leased
unfolding run text_eq
first_runs = refl

pub first_leased-Inv : Inv 1000 first_leased
first_leased-Inv =
    (History-Inv 0 no_leases 1000 first_leased no_leases-Inv
      (step (acquire main first (natural 60000)) start (omega arith) first_runs)).0

run-Stepped_example :
    Outcome
      (Stepped 1000 no_leases)
      Expected
      (run (acquire main first (natural 60000)) 1000 no_leases)
run-Stepped_example =
    run-Stepped (acquire main first (natural 60000)) 0 1000 no_leases no_leases-Inv (omega arith)

superseded-Refused_example : Refused second_leased first_token
superseded-Refused_example =
    superseded-Refused 1000 1000 61000 61000 first_leased first_leased second_leased second_leased
      first_token first_row second (natural 60000) second_lease first_leased-Inv first_is_active
      start (omega arith) second_acquires start

acquired_lease_iff_example :
    Returns (lock_active_indexer_lease first_token 5000 first_leased) ↔ (5000 < 61000)
acquired_lease_iff_example =
    acquired_lease_iff 0 1000 5000 no_leases first_leased main first (natural 60000) first_lease
      no_leases-Inv (omega arith) first_acquires

abbrev ready_input : StatusInput
ready_input = record {
  primary_source_tip = some (natural 12);
  secondary_source_tip = some (natural 10);
  last_agreed_ledger_index = some (natural 10);
  last_agreed_ledger_hash =
      some (codes "00000000000000000000000000000000000000000000000000000000000000ff");
}

normalize_status-IsNormalized_example :
    Ensures (IsNormalized ready) (normalize_status ready ready_input (codes ""))
normalize_status-IsNormalized_example = normalize_status-IsNormalized ready ready_input (codes "")
