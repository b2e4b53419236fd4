-- ===== src/Transport/Fault.antt =====
-- Whose fault a failed request was: src/transport/fault.rs. The errors are those of the transport
-- package, of which the source tells these apart; whether it would retry a payload is a parameter.
use perpcity_rust_sdk.Base.{ℕ, List, Option, none, Bool, leb, ◌==◌, ◌&&◌, ◌||◌, if◌then◌else◌}
use perpcity_rust_sdk.Base.Int.{ℤ, pos, negsuc, eq_ℤ}

-- A JSON-RPC error; its message and its data are texts.
pub record ErrorPayload : Type 0 where
  pub code : ℤ
  pub message : List ℕ
  pub extra : Option (List ℕ)

pub data TransportError : Type 0 where
  error_resp : ErrorPayload → TransportError
  http_error : ℕ → TransportError
  ser_error deser_error unsupported_feature other_error : TransportError

pub data Fault : Type 0 where
  endpoint_fault request_fault : Fault

module _ (is_retry_err : ErrorPayload → Bool) where
  unfoldable pub is_rate_limit : ErrorPayload → Bool
  is_rate_limit payload =
      if eq_ℤ payload.code (negsuc 32004)
      then is_retry_err (record { code = pos 0; message = payload.message; extra = none })
      else is_retry_err payload

  unfoldable pub fault : TransportError → Fault
  unfolding is_rate_limit
  fault (error_resp payload) = if is_rate_limit payload then endpoint_fault else request_fault
  fault (http_error status) =
      if status == 408 || status == 429 || status == 503
      then endpoint_fault
      else if status == 401 || status == 403
      then endpoint_fault
      else if leb 500 status && leb status 599
      then endpoint_fault
      else request_fault
  fault ser_error = request_fault
  fault deser_error = endpoint_fault
  fault unsupported_feature = request_fault
  fault other_error = endpoint_fault
