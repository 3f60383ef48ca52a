-- ===== src/Tests/Projection.antt =====
-- A ledger whose first transaction registers a schema and whose second creates a credential of it.
use xcs.Common.{◌≡◌, refl, codes, true, [], ◌∷◌, some, ok, All, length, text_eq}
use xcs.Core.Schema.{parse_schema, count_schema_fields}
use xcs.Core.Schema.RoundTrip.{schema_value, fields_members}
use xcs.Core.Resolution.{resolve_schema, resolve}
use xcs.Core.Documents.{DocumentLibraries}
use xcs.Indexer.Types.{LedgerTransaction, ValidatedLedger}
use xcs.Indexer.Projection.{LedgerProjection, project_ledger, project_transactions}
use xcs.Indexer.Projection.Known.{HasSource, project_ledger-HasSource}
use xcs.Tests.Claims.{plain_libraries}
use xcs.Tests.Resolution.{base}
use xcs.Tests.Ledgers.{profile, low_hash, payment}
use xcs.Tests.Registration.{registration, empty_catalog}

abbrev one_document : DocumentLibraries
one_document = record {
  parse_tree = λ text. some (schema_value base);
  canonicalize = λ value. some (codes "{}");
  sha256_hex = λ bytes. low_hash;
}

abbrev first : LedgerTransaction
first = record {
  hash = registration.hash;
  transaction = registration.transaction;
  metadata = registration.metadata;
  transaction_index = 0;
}

abbrev second : LedgerTransaction
second = record {
  hash = payment.hash;
  transaction = payment.transaction;
  metadata = payment.metadata;
  transaction_index = 1;
}

abbrev ledger : ValidatedLedger
ledger = record {
  ledger_index = 9;
  ledger_hash = low_hash;
  parent_hash = codes "p";
  account_root = codes "00";
  transaction_root = codes "11";
  parent_close_time = 100;
  close_time = 110;
  close_time_resolution = 10;
  close_flags = 0;
  total_coins = codes "100";
  transactions = first ∷ second ∷ [];
}

abbrev projection : LedgerProjection
projection = record {
  ledger = ledger;
  collected =
      project_transactions plain_libraries one_document (λ k. 0) (λ u. true) profile ledger
        empty_catalog (first ∷ second ∷ []);
}

is_projected :
    project_ledger plain_libraries one_document (λ k. 0) (λ u. true) profile ledger empty_catalog
    ≡ ok projection
unfolding project_ledger
is_projected = refl

the_credential_counts : length projection.collected.credential_mutations ≡ 1
unfolding project_transactions resolve_schema resolve schema_value parse_schema text_eq
    count_schema_fields fields_members
the_credential_counts = refl

project_ledger-HasSource_example :
    All
      (HasSource empty_catalog projection.collected.schema_registrations)
      projection.collected.credential_mutations
project_ledger-HasSource_example =
    project_ledger-HasSource plain_libraries one_document (λ k. 0) (λ u. true) profile ledger
      empty_catalog projection is_projected
