-- ===== src/Indexer/Status.antt =====
-- apps/indexer/src/lib/db/indexer-fencing.ts: the status values a writer may store, and
-- db/schema/indexer.ts: the table and its CHECK constraints. A time is a number of milliseconds.
pub mod Checks
use xcs.Common.{
  ℕ, ◌+◌, min, Text, Bool, true, false, not, ◌&&◌, ◌||◌, List, [], ◌∷◌, Option, none, some, Result,
  ok, err, leb, ◌==◌, if◌then◌else◌, length, all, is_digit, is_lower, is_upper, is_lower_hex, guard,
  ◌>>=◌, ◌>>◌,
}
use xcs.Core.Json.{JsonNumber, natural, other, non_finite}

pub data IndexerStatusState : Type 0 where
  starting catching_up ready halted : IndexerStatusState

-- the states but `halted`
pub data WritableIndexerStatusState : Type 0 where
  starting_state catching_up_state ready_state : WritableIndexerStatusState

abbrev pub widen : WritableIndexerStatusState → IndexerStatusState
widen starting_state = starting
widen catching_up_state = catching_up
widen ready_state = ready

-- `invalid_argument` is a plain `Error` on an argument; `constraint_violation` is a statement that
-- the database refuses for a CHECK or a primary key, `foreign_key_violation` one that it refuses for
-- a profile it does not have; the other two are `IndexerLeaseErrorCode`.
pub data FencingError : Type 0 where
  invalid_argument lease_unavailable lease_lost constraint_violation foreign_key_violation :
      FencingError

pub record NormalizedStatus : Type 0 where
  pub state : IndexerStatusState
  pub primary_source_tip : Option ℕ
  pub secondary_source_tip : Option ℕ
  pub last_agreed_ledger_index : Option ℕ
  pub last_agreed_ledger_hash : Option Text
  pub error_code : Option Text

pub record IndexerStatusRow : Type 0 where
  pub profile_id : Text
  pub status : NormalizedStatus
  pub writer_id : Option Text
  pub writer_epoch : ℕ
  pub lease_expires_at : Option ℕ
  pub updated_at : ℕ

-- A property that is `null` or left out is `none`.
pub record StatusInput : Type 0 where
  pub primary_source_tip : Option JsonNumber
  pub secondary_source_tip : Option JsonNumber
  pub last_agreed_ledger_index : Option JsonNumber
  pub last_agreed_ledger_hash : Option Text

abbrev pub uint32_max : ℕ
uint32_max = 4294967295

abbrev pub max_safe_epoch : ℕ
max_safe_epoch = 9007199254740991

-- HASH_PATTERN: /^[0-9a-f]{64}$/u
unfoldable pub is_ledger_hash : Text → Bool
unfolding is_lower_hex
is_ledger_hash value = all is_lower_hex value && length value == 64

unfoldable pub is_error_part : ℕ → Bool
unfolding is_upper is_digit
is_error_part c = is_upper c || (is_digit c || c == b'_')

-- ERROR_CODE_PATTERN: /^[A-Z][A-Z0-9_]{0,63}$/u
unfoldable pub is_error_code : Text → Bool
unfolding is_upper is_error_part
is_error_code [] = false
is_error_code (c ∷ rest) = is_upper c && (all is_error_part rest && leb (length rest) 63)

unfoldable pub is_writer_start : ℕ → Bool
unfolding is_upper is_lower is_digit
is_writer_start c = is_upper c || (is_lower c || is_digit c)

unfoldable pub is_writer_part : ℕ → Bool
unfolding is_writer_start
is_writer_part c = is_writer_start c || (c == b'.' || (c == b'_' || (c == b':' || c == b'-')))

-- WRITER_ID_PATTERN: /^[A-Za-z0-9][A-Za-z0-9._:-]{0,127}$/u
unfoldable pub is_writer_id : Text → Bool
unfolding is_writer_start is_writer_part
is_writer_id [] = false
is_writer_id (c ∷ rest) = is_writer_start c && (all is_writer_part rest && leb (length rest) 127)

abbrev pub is_halted : IndexerStatusState → Bool
is_halted halted = true
is_halted _ = false

abbrev pub is_ready : IndexerStatusState → Bool
is_ready ready = true
is_ready _ = false

unfoldable pub nullable_uint32 : Option JsonNumber → Result FencingError (Option ℕ)
nullable_uint32 none = ok none
nullable_uint32 (some (natural n)) = if leb n uint32_max then ok (some n) else err invalid_argument
nullable_uint32 (some (other _)) = err invalid_argument
nullable_uint32 (some non_finite) = err invalid_argument

-- The last agreed ledger has both an index and a hash, or neither.
unfoldable pub assert_agreed : Option ℕ → Option Text → Result FencingError (Unit {0})
assert_agreed none none = ok tt
assert_agreed (some index) (some hash) = guard (is_ledger_hash hash) invalid_argument
assert_agreed _ _ = err invalid_argument

-- `tip !== null && index > tip` throws
unfoldable pub assert_not_ahead : Option ℕ → Option ℕ → Result FencingError (Unit {0})
assert_not_ahead (some index) (some tip) = guard (leb index tip) invalid_argument
assert_not_ahead _ _ = ok tt

unfoldable pub assert_tips :
    IndexerStatusState → Option ℕ → Option ℕ → Option ℕ → Result FencingError (Unit {0})
unfolding assert_not_ahead
assert_tips state primary secondary index =
    if is_halted state
    then ok tt
    else assert_not_ahead index primary >> assert_not_ahead index secondary

unfoldable pub assert_ready : Option ℕ → Option ℕ → Option ℕ → Result FencingError (Unit {0})
assert_ready (some primary) (some secondary) (some index) =
    guard (index == min primary secondary) invalid_argument
assert_ready _ _ _ = err invalid_argument

-- `sanitizedErrorCode`, for a halt only
unfoldable pub sanitized_error_code : Text → Result FencingError (Option Text)
sanitized_error_code value = if is_error_code value then ok (some value) else err invalid_argument

unfoldable pub normalize_error : IndexerStatusState → Text → Result FencingError (Option Text)
unfolding sanitized_error_code
normalize_error halted code = sanitized_error_code code
normalize_error _ code = ok none

-- `normalizeStatus`; the error code counts for a halt only.
unfoldable pub normalize_status :
    IndexerStatusState → StatusInput → Text → Result FencingError NormalizedStatus
unfolding nullable_uint32 assert_agreed assert_tips assert_ready normalize_error
normalize_status state input code = do
  primary ← nullable_uint32 input.primary_source_tip
  secondary ← nullable_uint32 input.secondary_source_tip
  index ← nullable_uint32 input.last_agreed_ledger_index
  assert_agreed index input.last_agreed_ledger_hash
  assert_tips state primary secondary index
  (if is_ready state then assert_ready primary secondary index else ok tt)
  error ← normalize_error state code
  ok (record {
    state = state;
    primary_source_tip = primary;
    secondary_source_tip = secondary;
    last_agreed_ledger_index = index;
    last_agreed_ledger_hash = input.last_agreed_ledger_hash;
    error_code = error;
  })

-- The CHECK constraints of `indexer_status`, one to a constraint. The one on the state's name holds
-- by its type.
unfoldable pub tip_check : Option ℕ → Bool
tip_check none = true
tip_check (some tip) = leb tip uint32_max

unfoldable pub agreed_ledger_check : Option ℕ → Option Text → Bool
agreed_ledger_check none none = true
agreed_ledger_check (some index) (some hash) = leb index uint32_max && is_ledger_hash hash
agreed_ledger_check _ _ = false

unfoldable pub not_ahead_check : Option ℕ → Option ℕ → Bool
not_ahead_check (some index) (some tip) = leb index tip
not_ahead_check _ _ = true

unfoldable pub agreed_not_ahead_check : NormalizedStatus → Bool
unfolding not_ahead_check
agreed_not_ahead_check s =
    is_halted s.state
    || (not_ahead_check s.last_agreed_ledger_index s.primary_source_tip
        && not_ahead_check s.last_agreed_ledger_index s.secondary_source_tip)

unfoldable pub least_check : Option ℕ → Option ℕ → Option ℕ → Bool
least_check (some primary) (some secondary) (some index) = index == min primary secondary
least_check _ _ _ = false

abbrev pub is_some {ℓ} : {A : Type ℓ} → Option A → Bool
is_some none = false
is_some (some a) = true

unfoldable pub ready_shape_check : IndexerStatusRow → Bool
unfolding least_check
ready_shape_check r =
    not (is_ready r.status.state)
    || (least_check r.status.primary_source_tip r.status.secondary_source_tip
          r.status.last_agreed_ledger_index
        && (is_some r.status.last_agreed_ledger_hash
            && (is_some r.writer_id && is_some r.lease_expires_at)))

-- `error_code` and `error_shape`
unfoldable pub error_check : IndexerStatusState → Option Text → Bool
error_check halted (some code) = is_error_code code
error_check halted none = false
error_check _ (some code) = false
error_check _ none = true

unfoldable pub writer_id_check : Option Text → Bool
writer_id_check none = true
writer_id_check (some writer) = is_writer_id writer

unfoldable pub lease_window_check : Option Text → Option ℕ → ℕ → Bool
lease_window_check none none updated = true
lease_window_check (some writer) (some expires) updated =
    leb updated expires && leb expires (updated + 300000)
lease_window_check _ _ _ = false

unfoldable pub status_checks : NormalizedStatus → Bool
unfolding tip_check agreed_ledger_check agreed_not_ahead_check error_check
status_checks s =
    tip_check s.primary_source_tip
    && (tip_check s.secondary_source_tip
        && (agreed_ledger_check s.last_agreed_ledger_index s.last_agreed_ledger_hash
            && (agreed_not_ahead_check s && error_check s.state s.error_code)))

unfoldable pub row_checks : IndexerStatusRow → Bool
unfolding status_checks ready_shape_check writer_id_check lease_window_check
row_checks r =
    status_checks r.status
    && (ready_shape_check r
        && (writer_id_check r.writer_id
            && ((leb 1 r.writer_epoch && leb r.writer_epoch max_safe_epoch)
                && lease_window_check r.writer_id r.lease_expires_at r.updated_at)))
