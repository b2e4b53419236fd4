-- ===== src/Transport/Pool/Laws.antt =====
-- The lock-free mirrors of the pool, and what a reservation changes.
use perpcity_rust_sdk.Base.{ℕ, ◌≡◌, ◌↔◌, refl, none, Bool, true, false, arith}
use perpcity_rust_sdk.Base.Float.{Float}
use perpcity_rust_sdk.Transport.Health
use perpcity_rust_sdk.Transport.Health.{
  CircuitBreakerConfig, CircuitState, closed, open_since, half_open, Reserved, freely, probe,
  EndpointHealth, reserve_state, release_state, fail_state, next_latency,
}
use perpcity_rust_sdk.Transport.Pool.{
  ManagedEndpoint, pack_state, is_closed, new_endpoint, record_success, release_probe,
  record_answered, record_failure, reserve, drop_permit,
}

-- The tag of a packed state is that of a closed circuit exactly where the circuit is closed.
pub is_closed-pack_state : (s : CircuitState) → (is_closed (pack_state s) ≡ true) ↔ (s ≡ closed)
unfolding is_closed pack_state
is_closed-pack_state closed = (λ h. refl, λ h. refl)
is_closed-pack_state (open_since t) = (λ h. absurd (ground arith), λ h. cc)
is_closed-pack_state (half_open p) = (λ h. absurd (ground arith), λ h. cc)

module _ (fl : Float) where
  open fl use {F}

  -- The mirrors hold what the health holds.
  pub record IsMirrored (e : ManagedEndpoint F) : Type 0 where
    pub latency : e.atomic_latency_ns ≡ e.health.avg_latency_ns
    pub state : e.atomic_state ≡ pack_state e.health.state

  pub new_endpoint-IsMirrored :
      (config : CircuitBreakerConfig) → IsMirrored (new_endpoint fl config)
  unfolding new_endpoint Health.new pack_state
  new_endpoint-IsMirrored config = record { latency = refl; state = refl }

  -- Every operation of an endpoint keeps its mirrors.
  pub operations-IsMirrored :
      (now latency : ℕ) (held : Bool) (e : ManagedEndpoint F)
      → IsMirrored e
      → IsMirrored (record_success fl latency e)
        × IsMirrored (record_failure fl now e)
        × IsMirrored (record_answered fl e)
        × IsMirrored (reserve fl now e).1
        × IsMirrored (drop_permit fl held e)
  unfolding record_success record_failure record_answered reserve drop_permit release_probe
      Health.record_success Health.record_failure Health.record_answered Health.reserve
      Health.release_probe
  operations-IsMirrored now latency held e m = (
    record { latency = refl; state = refl },
    record { latency = m.latency; state = refl },
    record { latency = m.latency; state = refl },
    record { latency = refl; state = refl },
    dropped held,
  )
    where
      dropped : (held : Bool) → IsMirrored (drop_permit fl held e)
      dropped true = record { latency = m.latency; state = refl }
      dropped false = m

  -- A refused reservation changes nothing.
  pub reserve_refused :
      (now : ℕ) (e : ManagedEndpoint F)
      → IsMirrored e
      → (reserve fl now e).0 ≡ none
      → (reserve fl now e).1 ≡ e
  unfolding reserve Health.reserve
  reserve_refused now e m r = ground (arith, m.latency, m.state)
