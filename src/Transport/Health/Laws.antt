-- ===== src/Transport/Health/Laws.antt =====
-- The circuit breaker under any sequence of calls.
use perpcity_rust_sdk.Base.{
  ℕ, suc, ◌+◌, ◌-◌, ◌*◌, ◌≤◌, ◌<◌, max, min, ◌≡◌, ◌≢◌, refl, some, none, List, [], ◌∷◌, arith, ◌==◌,
  if◌then◌else◌, length, All, subst,
}
use perpcity_rust_sdk.Base.Float.{Float}
use perpcity_rust_sdk.Base.Word.{u32_mod, u64_max}
use perpcity_rust_sdk.Transport.Health.{
  CircuitBreakerConfig, CircuitState, closed, open_since, half_open, EndpointHealth, new, reserve,
  release_probe, record_answered, record_success, record_failure, fail_state,
}

-- One call of the breaker.
pub data Call : Type 0 where
  reserves : ℕ → Call
  releases answers : Call
  succeeds : ℕ → Call
  fails : ℕ → Call

abbrev pub probes_of : CircuitState → ℕ
probes_of closed = 0
probes_of (open_since s) = 0
probes_of (half_open p) = p

module _ (fl : Float) where
  open fl use {F}

  unfoldable pub apply : Call → EndpointHealth F → EndpointHealth F
  apply (reserves now) h = (reserve fl now h).1
  apply releases h = release_probe fl h
  apply answers h = record_answered fl h
  apply (succeeds l) h = record_success fl l h
  apply (fails now) h = record_failure fl now h

  unfoldable pub run : List Call → EndpointHealth F → EndpointHealth F
  unfolding apply
  run [] h = h
  run (c ∷ cs) h = run cs (apply c h)

  apply-config : (c : Call) (h : EndpointHealth F) → (apply c h).config ≡ h.config
  unfolding apply reserve release_probe record_answered record_success record_failure
  apply-config (reserves now) h = refl
  apply-config releases h = refl
  apply-config answers h = refl
  apply-config (succeeds l) h = refl
  apply-config (fails now) h = refl

  apply_bounded :
      (c : Call) (h : EndpointHealth F)
      → probes_of h.state ≤ max 1 h.config.half_open_max_requests
      → probes_of (apply c h).state ≤ max 1 (apply c h).config.half_open_max_requests
  unfolding apply reserve release_probe record_answered record_success record_failure
  apply_bounded (reserves now) h b = ground arith
  apply_bounded releases h b = ground arith
  apply_bounded answers h b = ground arith
  apply_bounded (succeeds l) h b = ground arith
  apply_bounded (fails now) h b = ground arith

  run_bounded :
      (cs : List Call) (h : EndpointHealth F)
      → probes_of h.state ≤ max 1 h.config.half_open_max_requests
      → probes_of (run cs h).state ≤ max 1 h.config.half_open_max_requests
  unfolding run
  run_bounded [] h b = b
  run_bounded (c ∷ cs) h b =
      subst
        (λ (k : CircuitBreakerConfig).
          probes_of (run cs (apply c h)).state ≤ max 1 k.half_open_max_requests)
        (apply-config c h) (run_bounded cs (apply c h) (apply_bounded c h b))

  -- After any calls on a new breaker, the half-open probes in flight are at most
  -- `half_open_max_requests`, or at most one where that is zero.
  pub probes_bounded :
      (config : CircuitBreakerConfig) (cs : List Call)
      → probes_of (run cs (new fl config)).state ≤ max 1 config.half_open_max_requests
  unfolding new
  probes_bounded config cs = run_bounded cs (new fl config) (omega arith)

  -- A call that makes the circuit half-open found it open, and was a reservation at or after the end
  -- of the recovery timeout, which took the one probe.
  pub half_open_needs_timeout :
      (c : Call) (h : EndpointHealth F) (p : ℕ)
      → (apply c h).state ≡ half_open p
      → ((q : ℕ) → h.state ≢ half_open q)
      → (now : ℕ) × (since : ℕ) × (c ≡ reserves now)
        × (h.state ≡ open_since since)
        × (h.config.recovery_timeout ≤ now - since)
        × (p ≡ 1)
  unfolding apply reserve release_probe record_answered record_success record_failure
  half_open_needs_timeout c h p e n = go c h.state refl e
    where
      go :
          (c : Call) (s : CircuitState)
          → h.state ≡ s
          → (apply c (record h { state = s })).state ≡ half_open p
          → (now : ℕ) × (since : ℕ) × (c ≡ reserves now)
            × (h.state ≡ open_since since)
            × (h.config.recovery_timeout ≤ now - since)
            × (p ≡ 1)
      go c (half_open q) hs e = absurd (n q hs)
      go (reserves now) closed hs e = cc
      go (reserves now) (open_since s) hs e = (now, s, refl, hs, ground arith, ground arith)
      go releases closed hs e = cc
      go releases (open_since s) hs e = cc
      go answers closed hs e = cc
      go answers (open_since s) hs e = cc
      go (succeeds l) closed hs e = cc
      go (succeeds l) (open_since s) hs e = cc
      go (fails now) closed hs e = absurd (ground arith)
      go (fails now) (open_since s) hs e = cc

  -- `record_failure` at each of the times.
  unfoldable pub failures : List ℕ → EndpointHealth F → EndpointHealth F
  failures [] h = h
  failures (t ∷ ts) h = failures ts (record_failure fl t h)

  failures_below :
      (ts : List ℕ) (h : EndpointHealth F)
      → h.state ≡ closed
      → h.consecutive_failures + length ts < h.config.failure_threshold
      → h.config.failure_threshold < u32_mod
      → ((failures ts h).state ≡ closed)
        × ((failures ts h).consecutive_failures ≡ h.consecutive_failures + length ts)
        × ((failures ts h).config ≡ h.config)
  unfolding failures record_failure
  failures_below [] h s b w = (s, omega arith, refl)
  failures_below (t ∷ ts) h s b w =
      let (a, c, d) = failures_below ts (record_failure fl t h) (ground arith) (ground arith) w in
      (a, omega (arith, c), d)

  -- A closed circuit opens at the failure that brings the streak to the threshold, at that failure's
  -- time, and stays closed at each failure before it.
  pub opens_at_threshold :
      (h : EndpointHealth F) (ts : List ℕ) (t : ℕ)
      → h.state ≡ closed
      → h.consecutive_failures + length ts < h.config.failure_threshold
      → h.config.failure_threshold < u32_mod
      → (record_failure fl t (failures ts h)).state ≡ (
          if h.consecutive_failures + length ts + 1 == h.config.failure_threshold
          then open_since t
          else closed)
  unfolding record_failure
  opens_at_threshold h ts t s b w =
      let (a, c, d) = failures_below ts h s b w in rw (a, c, d, fail_state) (ground arith)

  -- `reserve` at each of the times: what was granted, and the breaker after them.
  unfoldable pub granted : List ℕ → EndpointHealth F → ℕ
  granted [] h = 0
  granted (t ∷ ts) h = elim (reserve fl t h).0 [
    | none ↦ granted ts (reserve fl t h).1
    | some r ↦ suc (granted ts (reserve fl t h).1)
  ]

  -- Reservations before the recovery timeout has passed are all refused by an open circuit, which
  -- stays as it is.
  pub open_refuses :
      (ts : List ℕ) (h : EndpointHealth F) (since : ℕ)
      → h.state ≡ open_since since
      → All (λ t. t - since < h.config.recovery_timeout) ts
      → granted ts h ≡ 0
  unfolding granted reserve
  open_refuses [] h since s a = refl
  open_refuses (t ∷ ts) h since s a = ground (arith, open_refuses ts h since s a.1)

  -- A half-open circuit grants as many probes as its budget has left, whatever the times.
  pub granted-half_open :
      (ts : List ℕ) (h : EndpointHealth F) (p : ℕ)
      → h.state ≡ half_open p
      → granted ts h ≡ min (length ts) (h.config.half_open_max_requests - p)
  unfolding granted reserve
  granted-half_open [] h p s = omega arith
  granted-half_open (t ∷ ts) h p s = ground (
    arith,
    granted-half_open ts (reserve fl t h).1 p,
    granted-half_open ts (reserve fl t h).1 (p + 1),
  )

  unfoldable pub successes : List ℕ → EndpointHealth F → EndpointHealth F
  successes [] h = h
  successes (l ∷ ls) h = successes ls (record_success fl l h)

  -- The latency average stays between any bounds that enclose the recorded latencies, once a
  -- success has been counted, where a fifth of the largest word is no obstacle.
  pub successes_bounds :
      (ls : List ℕ) (lo hi : ℕ) (h : EndpointHealth F)
      → hi * 5 ≤ u64_max
      → (h.total_requests ≢ 0 → (lo ≤ h.avg_latency_ns) × (h.avg_latency_ns ≤ hi))
      → All (λ l. (lo ≤ l) × (l ≤ hi)) ls
      → (successes ls h).total_requests ≢ 0
      → (lo ≤ (successes ls h).avg_latency_ns) × ((successes ls h).avg_latency_ns ≤ hi)
  unfolding successes record_success
  successes_bounds [] lo hi h m b a e = b e
  successes_bounds (l ∷ ls) lo hi h m b a e =
      successes_bounds ls lo hi (record_success fl l h) m (λ _. ground (arith, b)) a.1 e
