-- ===== src/Core/Lifecycle.antt =====
-- packages/core/src/lifecycle.ts: the state of a credential at the close time of a ledger.
pub mod States
use xcs.Common.{Bool, false, Option, none, some, ok, leb, if◌then◌else◌, guard, ◌>>=◌, ◌>>◌}
use xcs.Core.Errors.{Checked, invalid_ripple_time}
use xcs.Core.Json.{JsonNumber, natural, other, non_finite}

pub data CredentialLifecycleState : Type 0 where
  pending active expired deleted : CredentialLifecycleState

-- A missing and a null `expiration` are both `none`.
pub record CredentialLifecycleInput : Type 0 where
  pub object_exists : Bool
  pub accepted : Bool
  pub expiration : Option JsonNumber
  pub close_time : JsonNumber

-- the test of `requireRippleTime`
unfoldable pub is_ripple_time : JsonNumber → Bool
is_ripple_time (natural n) = leb n 0xffff_ffff
is_ripple_time (other k) = false
is_ripple_time non_finite = false

unfoldable pub require_ripple_time : JsonNumber → Checked (Unit {0})
unfolding is_ripple_time
require_ripple_time value = guard (is_ripple_time value) invalid_ripple_time

unfoldable pub require_expiration : Option JsonNumber → Checked (Unit {0})
unfolding require_ripple_time
require_expiration none = ok tt
require_expiration (some value) = require_ripple_time value

-- `<=` on two numbers that are ripple times
abbrev pub number_le : JsonNumber → JsonNumber → Bool
number_le (natural a) (natural b) = leb a b
number_le _ _ = false

abbrev pub has_expired : Option JsonNumber → JsonNumber → Bool
has_expired none close_time = false
has_expired (some expiration) close_time = number_le expiration close_time

unfoldable pub project_credential_lifecycle :
    CredentialLifecycleInput → Checked CredentialLifecycleState
unfolding require_expiration
project_credential_lifecycle input = do
  require_ripple_time input.close_time
  require_expiration input.expiration
  ok (
      if input.object_exists
      then (if has_expired input.expiration input.close_time
          then expired
          else if input.accepted
          then active
          else pending)
      else deleted)
