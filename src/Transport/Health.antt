-- ===== src/Transport/Health.antt =====
-- The circuit breaker of one endpoint: src/transport/health.rs.
pub mod Laws
mod Tests
use perpcity_rust_sdk.Base.{
  ℕ, ◌+◌, ◌-◌, ◌*◌, ◌/◌, ◌%◌, Option, some, none, Bool, true, false, ltb, leb, ◌==◌, if◌then◌else◌,
}
use perpcity_rust_sdk.Base.Float.{Float}
use perpcity_rust_sdk.Base.Word.{u32_mod, u64_mod, sat_add64, sat_mul64}

-- `recovery_timeout` in milliseconds, as `as_millis() as u64` reads it.
pub record CircuitBreakerConfig : Type 0 where
  pub failure_threshold : ℕ
  pub recovery_timeout : ℕ
  pub half_open_max_requests : ℕ

pub data Reserved : Type 0 where
  freely probe : Reserved

pub data CircuitState : Type 0 where
  closed : CircuitState
  open_since : ℕ → CircuitState
  half_open : ℕ → CircuitState

pub record EndpointHealth (F : Type 0) : Type 0 where
  pub state : CircuitState
  pub config : CircuitBreakerConfig
  pub avg_latency_ns : ℕ
  pub total_requests : ℕ
  pub consecutive_failures : ℕ
  pub error_rate : F

pub record EndpointStatus (F : Type 0) : Type 0 where
  pub state : CircuitState
  pub avg_latency_ns : ℕ
  pub total_requests : ℕ
  pub error_rate : F
  pub consecutive_failures : ℕ

-- The `match` of `reserve` on the state: what is reserved, and the state after it.
unfoldable pub reserve_state :
    CircuitBreakerConfig → ℕ → CircuitState → Option Reserved × CircuitState
reserve_state c now_ms closed = (some freely, closed)
reserve_state c now_ms (open_since since_ms) =
    if leb c.recovery_timeout (now_ms - since_ms)
    then (some probe, half_open 1)
    else (none, open_since since_ms)
reserve_state c now_ms (half_open probes) =
    if ltb probes c.half_open_max_requests
    then (some probe, half_open (probes + 1))
    else (none, half_open probes)

unfoldable pub release_state : CircuitState → CircuitState
release_state closed = closed
release_state (open_since since_ms) = open_since since_ms
release_state (half_open probes) = half_open (probes - 1)

-- The `match` of `record_failure` on the state, with the failures counted so far.
unfoldable pub fail_state : CircuitBreakerConfig → ℕ → ℕ → CircuitState → CircuitState
fail_state c failures now_ms closed =
    if leb c.failure_threshold failures then open_since now_ms else closed
fail_state c failures now_ms (open_since since_ms) = open_since now_ms
fail_state c failures now_ms (half_open probes) = open_since now_ms

-- The moving average of the latency.
unfoldable pub next_latency : ℕ → ℕ → ℕ → ℕ
next_latency total avg latency_ns =
    if total == 0 then latency_ns else sat_add64 (sat_mul64 avg 4) latency_ns / 5

module _ (fl : Float) where
  open fl use {F, add, mul, lit}

  unfoldable pub new : CircuitBreakerConfig → EndpointHealth F
  new config = record {
    state = closed;
    config = config;
    avg_latency_ns = 0;
    total_requests = 0;
    consecutive_failures = 0;
    error_rate = lit 0 0;
  }

  unfoldable pub reserve : ℕ → EndpointHealth F → Option Reserved × EndpointHealth F
  unfolding reserve_state
  reserve now_ms h =
      let (r, s) = reserve_state h.config now_ms h.state in (r, record h { state = s })

  unfoldable pub is_callable : ℕ → EndpointHealth F → Bool × EndpointHealth F
  unfolding reserve
  is_callable now_ms h =
      let (r, h') = reserve now_ms h in (elim r [ none ↦ false | some x ↦ true ], h')

  unfoldable pub release_probe : EndpointHealth F → EndpointHealth F
  unfolding release_state
  release_probe h = record h { state = release_state h.state }

  unfoldable pub record_answered : EndpointHealth F → EndpointHealth F
  unfolding release_probe
  record_answered h = release_probe (record h { consecutive_failures = 0 })

  unfoldable pub record_success : ℕ → EndpointHealth F → EndpointHealth F
  unfolding next_latency
  record_success latency_ns h = record h {
    avg_latency_ns = next_latency h.total_requests h.avg_latency_ns latency_ns;
    total_requests = (h.total_requests + 1) % u64_mod;
    consecutive_failures = 0;
    error_rate = mul h.error_rate (lit 9 1);
    state = closed;
  }

  unfoldable pub record_failure : ℕ → EndpointHealth F → EndpointHealth F
  unfolding fail_state
  record_failure now_ms h =
      let failures = (h.consecutive_failures + 1) % u32_mod in
      record h {
        consecutive_failures = failures;
        error_rate = add (mul h.error_rate (lit 9 1)) (lit 1 1);
        state = fail_state h.config failures now_ms h.state;
      }

  unfoldable pub status : EndpointHealth F → EndpointStatus F
  status h = record {
    state = h.state;
    avg_latency_ns = h.avg_latency_ns;
    total_requests = h.total_requests;
    error_rate = h.error_rate;
    consecutive_failures = h.consecutive_failures;
  }
