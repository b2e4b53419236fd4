-- ===== src/History/Scan/Taxonomy.antt =====
-- The two readings of a failed request: whose fault it was, for the transport, and whether a narrower
-- range may pass, for the scan.
use perpcity_rust_sdk.Base.{ℕ, ◌≤◌, ◌≡◌, ◌≢◌, ◌↔◌, ◌⊎◌, Bool, arith}
use perpcity_rust_sdk.Transport.Fault.{ErrorPayload, error_resp, http_error, endpoint_fault, fault}
use perpcity_rust_sdk.History.Scan.{range, unanswered, classify}

-- Whatever the package's rule for retries: a JSON-RPC error is the endpoint's fault just where the
-- scan takes it for no answer; an HTTP status is at once the endpoint's fault and a range that may
-- be too wide just where it is 408, or a server error other than 503.
pub faults_and_failures :
    (is_retry_err : ErrorPayload → Bool) (payload : ErrorPayload) (status : ℕ)
    → ((fault is_retry_err (error_resp payload) ≡ endpoint_fault)
        ↔ (classify is_retry_err (error_resp payload) ≡ unanswered))
      × (((fault is_retry_err (http_error status) ≡ endpoint_fault)
            × (classify is_retry_err (http_error status) ≡ range))
          ↔ ((status ≡ 408) ⊎ ((500 ≤ status) × (status ≤ 599) × (status ≢ 503))))
unfolding fault classify
faults_and_failures is_retry_err payload status = (ground arith, ground arith)
