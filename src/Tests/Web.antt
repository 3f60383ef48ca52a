-- ===== src/Tests/Web.antt =====
-- Rate limits of two clients, and a status row that is ready.
use xcs.Common.{
  ◌+◌, ◌≤◌, ◌≡◌, ◌↔◌, refl, Text, codes, true, false, List, [], ◌∷◌, map, none, some, ok, err, All,
  length, max, arith, inl, inr, text_eq,
}
use xcs.Indexer.Status.{IndexerStatusRow, ready, row_checks, is_ledger_hash, is_writer_id}
use xcs.Indexer.Fencing.{expires_after}
use xcs.Indexer.Fencing.Rows.{RowChecks, row_checks-RowChecks}
use xcs.Web.IndexerStatus.{assert_indexer_ready, indexer_lease_expired}
use xcs.Web.IndexerStatus.Ready.{assert_indexer_ready_iff}
use xcs.Web.RateLimit.{RouteRateLimit, shared, Window, Limiter, get_window, hit, create_limiter}
use xcs.Web.RateLimit.Bounds.{Hit, run_hits, length-run_hits, hit-keys}
use xcs.Web.RateLimit.Budget.{InWindow, allowed_hits, allowed_hits-Bounded}
use xcs.Tests.Fencing.{main}
use xcs.Tests.Ledgers.{low_hash}

abbrev budget : RouteRateLimit
budget = record { max = 2; time_window_ms = 60000; scope = shared }

abbrev alice : Text
alice = codes "default|198.51.100.1"

abbrev bob : Text
bob = codes "default|198.51.100.2"

abbrev one_counted : Window
one_counted = record { count = 1; window_start = 5 }

abbrev limiter : Limiter
limiter = record {
  windows = (alice, one_counted) ∷ (bob, record { count = 2; window_start = 1 }) ∷ [];
  last_prune = 0;
}

abbrev hits : List Hit
hits =
    record { key = alice; limit = budget; at = 10 }
    ∷ record { key = bob; limit = budget; at = 20 }
    ∷ record { key = alice; limit = budget; at = 30 }
    ∷ []

has_window : get_window alice limiter.windows ≡ some one_counted
unfolding get_window text_eq
has_window = refl

another_client : text_eq bob alice ≡ false
unfolding text_eq
another_client = refl

within : All (InWindow alice 2 5 60000) hits
within = (
  (omega arith, inr (refl, refl, omega arith)),
  ((omega arith, inl another_client), ((omega arith, inr (refl, refl, omega arith)), tt)),
)

one_is_denied : allowed_hits 5000 alice hits limiter ≡ 1
unfolding allowed_hits text_eq
one_is_denied = refl

-- the first window is dropped for the third, whether it was hit last or not
the_first_is_dropped :
    map
      (λ (e : Text × Window). e.0)
      (run_hits 2
        (record { key = alice; limit = budget; at = 30 }
          ∷ record { key = codes "c"; limit = budget; at = 40 }
          ∷ [])
        limiter).windows
    ≡ (bob ∷ codes "c" ∷ [])
unfolding run_hits text_eq
the_first_is_dropped = refl

length-run_hits_example : length (run_hits 2 hits (create_limiter 0)).windows ≤ 2
length-run_hits_example = length-run_hits 2 0 hits (omega arith)

hit-keys_example :
    map (λ (e : Text × Window). e.0) (hit 5000 alice budget 10 limiter).1.windows
    ≡ map (λ (e : Text × Window). e.0) limiter.windows
hit-keys_example = hit-keys 5000 alice budget 10 limiter one_counted has_window (omega arith)

allowed_hits-Bounded_example : allowed_hits 5000 alice hits limiter + 1 ≤ max 2 1
allowed_hits-Bounded_example =
    allowed_hits-Bounded 5000 alice 2 60000 hits limiter one_counted has_window within (omega arith)

abbrev ready_row : IndexerStatusRow
ready_row = record {
  profile_id = main;
  status = record {
    state = ready;
    primary_source_tip = some 12;
    secondary_source_tip = some 10;
    last_agreed_ledger_index = some 10;
    last_agreed_ledger_hash = some low_hash;
    error_code = none;
  };
  writer_id = some (codes "writer-1");
  writer_epoch = 1;
  lease_expires_at = some 61000;
  updated_at = 1000;
}

ready_row_passes : row_checks ready_row ≡ true
unfolding row_checks is_ledger_hash is_writer_id
ready_row_passes = refl

ready_row-RowChecks : RowChecks ready_row
ready_row-RowChecks = row_checks-RowChecks ready_row ready_row_passes

after_the_lease : assert_indexer_ready (some ready_row) 61000 ≡ err indexer_lease_expired
unfolding assert_indexer_ready
after_the_lease = refl

assert_indexer_ready_iff_example :
    (assert_indexer_ready (some ready_row) 5000 ≡ ok tt)
    ↔ ((ready ≡ ready) × (expires_after (some 61000) 5000 ≡ true))
assert_indexer_ready_iff_example = assert_indexer_ready_iff ready_row 5000 ready_row-RowChecks
