-- ===== src/Core/Errors.antt =====
-- packages/core/src/errors.ts: a thrown `XcsError` is the `err` of its code. Messages, paths and
-- details are diagnostics that no code reads; they are left out.
use xcs.Common.{Result, err}

pub data XcsErrorCode : Type 0 where
  invalid_network_profile invalid_schema invalid_schema_reference : XcsErrorCode
  invalid_claims invalid_uid_input invalid_credential_payload : XcsErrorCode
  invalid_payload_uri invalid_ripple_time invalid_json : XcsErrorCode
  non_canonical_json unsupported_json_value : XcsErrorCode

abbrev pub Checked : Type 0 → Type 0
Checked A = Result XcsErrorCode A

abbrev pub fail : {A : Type 0} → XcsErrorCode → Checked A
fail code = err code
