-- ===== src/Core/Libraries.antt =====
-- The packages that packages/core calls: xrpl and @scure/base. They are parameters of the model.
use xcs.Common.{ℕ, Text, Bool, List, Option}

pub record Libraries : Type 0 where
  -- `isValidClassicAddress` of xrpl
  pub is_valid_classic_address : Text → Bool
  -- `base64urlnopad` of @scure/base; `none` is a throw
  pub base64_decode : Text → Option (List ℕ)
  pub base64_encode : List ℕ → Text
