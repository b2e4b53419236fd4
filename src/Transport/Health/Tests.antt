-- ===== src/Transport/Health/Tests.antt =====
-- Runs of a breaker with a threshold of 3 failures and a timeout of 1000 milliseconds.
use perpcity_rust_sdk.Base.{ℕ, ◌≤◌, ◌≡◌, ◌≢◌, refl, List, [], ◌∷◌, arith}
use perpcity_rust_sdk.Base.Float.{thousandths}
use perpcity_rust_sdk.Transport.Health.{
  CircuitBreakerConfig, CircuitState, closed, open_since, half_open, EndpointHealth, new, reserve,
  record_failure, reserve_state,
}
use perpcity_rust_sdk.Transport.Health
use perpcity_rust_sdk.Transport.Health.Laws.{
  Call, reserves, fails, apply, run, probes_of, successes, probes_bounded,
}

abbrev config : CircuitBreakerConfig
config = record { failure_threshold = 3; recovery_timeout = 1000; half_open_max_requests = 2 }

abbrev health : CircuitState → EndpointHealth ℕ
health s = record {
  state = s;
  config = config;
  avg_latency_ns = 500;
  total_requests = 4;
  consecutive_failures = 0;
  error_rate = 0;
}

abbrev calls : List Call
calls = fails 1 ∷ fails 2 ∷ fails 3 ∷ reserves 1500 ∷ reserves 1501 ∷ reserves 1502 ∷ []

probes_bounded_example : probes_of (run thousandths calls (new thousandths config)).state ≤ 2
probes_bounded_example = probes_bounded thousandths config calls

probes_run : (run thousandths calls (new thousandths config)).state ≡ half_open 2
unfolding run apply new reserve record_failure reserve_state
probes_run = refl

opened : (apply thousandths (reserves 1100) (health (open_since 100))).state ≡ half_open 1
unfolding apply reserve reserve_state
opened = refl

not_half_open : (q : ℕ) → open_since 100 ≢ half_open q
not_half_open q = λ e. cc

counted : (successes thousandths (300 ∷ 900 ∷ []) (health closed)).total_requests ≢ 0
unfolding successes Health.record_success
counted = λ e. omega arith
