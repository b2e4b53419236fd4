-- ===== src/Transport/Pool/Tests.antt =====
-- Selections from a pool of three endpoints.
use perpcity_rust_sdk.Base.{ℕ, zero, suc, ◌≡◌, refl, subst, some, [], ◌∷◌, true}
use perpcity_rust_sdk.Base.Float.{thousandths}
use perpcity_rust_sdk.Transport.Health.{
  CircuitBreakerConfig, CircuitState, closed, open_since, half_open, EndpointHealth, reserve_state,
  release_state,
}
use perpcity_rust_sdk.Transport.Health
use perpcity_rust_sdk.Transport.Pool.{
  ManagedEndpoint, EndpointPool, pack_state, is_closed, reserve, select_round_robin,
  select_latency_based, drop_permit, best_closed, best_reserved, reserve_at, release_probe,
}
use perpcity_rust_sdk.Transport.Pool.Laws.{IsMirrored}
use perpcity_rust_sdk.Transport.Pool.Slots.{AllMirrored, Reserves, select_round_robin-Reserves}
use perpcity_rust_sdk.Transport.Pool.Latency.{Chooses, select_latency_based-Chooses}

abbrev config : CircuitBreakerConfig
config = record { failure_threshold = 3; recovery_timeout = 1000; half_open_max_requests = 2 }

abbrev endpoint : ℕ → CircuitState → ManagedEndpoint ℕ
endpoint latency s = record {
  health = record {
    state = s;
    config = config;
    avg_latency_ns = latency;
    total_requests = 4;
    consecutive_failures = 0;
    error_rate = 0;
  };
  atomic_latency_ns = latency;
  atomic_state = pack_state s;
}

abbrev pool : EndpointPool ℕ
pool = record {
  endpoints =
      endpoint 900 (open_since 0)
      ∷ endpoint 300 (half_open 0)
      ∷ endpoint 100 (open_since 5000)
      ∷ [];
  round_robin = 1;
}

mirrored : (latency : ℕ) (s : CircuitState) → IsMirrored thousandths (endpoint latency s)
mirrored latency s = record { latency = refl; state = refl }

read_back :
    (a e : ManagedEndpoint ℕ)
    → some a ≡ some e
    → IsMirrored thousandths a
    → IsMirrored thousandths e
read_back a e h m = let q : a ≡ e = cc in subst (λ x. IsMirrored thousandths x) q m

all_mirrored : AllMirrored thousandths pool.endpoints
all_mirrored zero e h = read_back _ e h (mirrored 900 (open_since 0))
all_mirrored (suc zero) e h = read_back _ e h (mirrored 300 (half_open 0))
all_mirrored (suc (suc zero)) e h = read_back _ e h (mirrored 100 (open_since 5000))
all_mirrored (suc (suc (suc n))) e h = cc

select_round_robin-Reserves_example :
    let r = select_round_robin thousandths 5500 pool in
    Reserves thousandths 5500 pool.endpoints (r.0, r.1.endpoints)
select_round_robin-Reserves_example = select_round_robin-Reserves thousandths 5500 pool all_mirrored

select_latency_based-Chooses_example :
    let r = select_latency_based thousandths 5500 pool in
    Chooses thousandths 5500 pool.endpoints (r.0, r.1.endpoints)
unfolding is_closed pack_state
select_latency_based-Chooses_example =
    select_latency_based-Chooses thousandths 5500 pool (refl, (refl, (refl, tt)))

-- The faster of the two endpoints that grant a probe is chosen; the other becomes half-open without a
-- probe in flight.
latency_run :
    let r = select_latency_based thousandths 5500 pool in
    (r.0 ≡ some (1, true))
    × (r.1.endpoints
        ≡ endpoint 900 (half_open 0)
          ∷ endpoint 300 (half_open 1)
          ∷ endpoint 100 (open_since 5000)
          ∷ [])
unfolding select_latency_based best_closed best_reserved reserve_at reserve drop_permit
    release_probe is_closed pack_state Health.reserve Health.release_probe reserve_state
    release_state
latency_run = (refl, refl)
