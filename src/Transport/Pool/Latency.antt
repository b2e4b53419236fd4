-- ===== src/Transport/Pool/Latency.antt =====
-- The latency-based selection: the fastest endpoint that grants a reservation is chosen, and each
-- other endpoint gets its probe slot back.
use perpcity_rust_sdk.Base.{
  ℕ, zero, suc, ◌+◌, ◌-◌, ◌<◌, ◌≤◌, ◌≡◌, ◌⊎◌, inl, inr, refl, Option, some, none, List, [], ◌∷◌,
  Bool, true, false, leb, ◌==◌, if◌then◌else◌, length, get_elem?, arith, All, Bool-cases,
  Option-cases, ap,
}
use mathlib.Core.Option
use perpcity_rust_sdk.Base.Float.{Float}
use perpcity_rust_sdk.Transport.Health
use perpcity_rust_sdk.Transport.Health.{
  CircuitState, closed, open_since, half_open, reserve_state, release_state,
}
use perpcity_rust_sdk.Transport.Pool.{
  ManagedEndpoint, EndpointPool, reserve, drop_permit, release_probe, best_closed,
  select_latency_based, is_closed,
}
use perpcity_rust_sdk.Transport.Pool.Loop.{passed, Loop, best_reserved-Loop}

module _ (fl : Float) where
  open fl use {F}

  nothing_closed :
      (i : ℕ) (es : List (ManagedEndpoint F)) (any : Bool)
      → All (λ (e : ManagedEndpoint F). is_closed e.atomic_state ≡ false) es
      → best_closed fl i es none any ≡ (none, elim es [ [] ↦ any | e ∷ r ↦ true ])
  unfolding best_closed
  nothing_closed i [] any a = refl
  nothing_closed i (e ∷ []) any a = rw a.0
  nothing_closed i (e ∷ x ∷ es) any a = rw a.0 (nothing_closed (i + 1) (x ∷ es) true a.1)

  -- The outcome of a selection among circuits that are not closed: without a choice every endpoint
  -- refuses; otherwise the chosen one is as after its reservation, no endpoint that grants one is
  -- faster, and each other endpoint is as after a reservation whose permit was dropped.
  abbrev pub Chooses :
      ℕ → List (ManagedEndpoint F) → Option (ℕ × Bool) × List (ManagedEndpoint F) → Type 0
  Chooses now eps (none, eps') =
      (j : ℕ) (e : ManagedEndpoint F) → get_elem? eps j ≡ some e → (reserve fl now e).0 ≡ none
  Chooses now eps (some (idx, held), eps') =
      (e : ManagedEndpoint F) × (get_elem? eps idx ≡ some e)
      × ((reserve fl now e).0 ≡ some held)
      × ((j : ℕ) (x : ManagedEndpoint F)
          → get_elem? eps j ≡ some x
          → ((reserve fl now x).0 ≡ none)
            ⊎ ((reserve fl now e).1.atomic_latency_ns ≤ (reserve fl now x).1.atomic_latency_ns))
      × ((j : ℕ)
          → get_elem? eps' j
            ≡ Option.map (λ x. if j == idx then (reserve fl now x).1 else passed fl now x)
                (get_elem? eps j))

  in_range :
      (eps : List (ManagedEndpoint F)) (j : ℕ) {e : ManagedEndpoint F}
      → get_elem? eps j ≡ some e
      → j < length eps
  in_range [] j h = cc
  in_range (x ∷ eps) zero h = omega arith
  in_range (x ∷ eps) (suc j) h = omega (arith, in_range eps j h)

  Loop-Chooses :
      (now : ℕ) (eps out : List (ManagedEndpoint F)) (b : Option (ℕ × ℕ × Bool))
      → Loop fl now eps (length eps) b out
      → Chooses now eps (Option.map (λ (x : ℕ × ℕ × Bool). (x.0, x.2)) b, out)
  Loop-Chooses now eps out none l = λ j e h. l.beaten j e (in_range eps j h) h
  Loop-Chooses now eps out (some (idx, latency, held)) l =
      let (e, g, r, t) = l.choice in
      (
        e,
        g,
        r,
        λ j x h. rw (← t) (l.beaten j x (in_range eps j h) h),
        λ j. elim (Option-cases (get_elem? eps j)) [
          | inl n ↦ rw n (ground (arith, l.entries j))
          | inr (x, n) ↦ ground (arith, l.entries j, in_range eps j n)
        ],
      )

  start-Loop : (now : ℕ) (eps : List (ManagedEndpoint F)) → Loop fl now eps 0 none eps
  start-Loop now eps = record {
    entries = λ j. elim (Option-cases (get_elem? eps j)) [
      | inl n ↦ rw n
      | inr (x, n) ↦ rw n (ground arith)
    ];
    choice = tt;
    within = tt;
    beaten = λ j e h. absurd (omega arith);
  }

  slow_path :
      (now rr : ℕ) (eps : List (ManagedEndpoint F))
      → All (λ (e : ManagedEndpoint F). is_closed e.atomic_state ≡ false) eps
      → let p : EndpointPool F = record { endpoints = eps; round_robin = rr } in
        Chooses now eps
          ((select_latency_based fl now p).0, (select_latency_based fl now p).1.endpoints)
  unfolding select_latency_based
  slow_path now rr [] a = λ j e h. cc
  slow_path now rr (x ∷ eps) a =
      let q = nothing_closed 0 (x ∷ eps) false a in
      rw (ap (λ r. r.0) q, ap (λ r. r.1) q, select_latency_based)
        (Loop-Chooses now (x ∷ eps) _ _ (
          best_reserved-Loop fl now (x ∷ eps) (length (x ∷ eps)) 0 none (x ∷ eps) (omega arith)
            (start-Loop now (x ∷ eps))))

  -- Where no circuit is closed, the latency-based selection makes the choice that `Chooses` says.
  pub select_latency_based-Chooses :
      (now : ℕ) (p : EndpointPool F)
      → All (λ (e : ManagedEndpoint F). is_closed e.atomic_state ≡ false) p.endpoints
      → Chooses now p.endpoints
          ((select_latency_based fl now p).0, (select_latency_based fl now p).1.endpoints)
  select_latency_based-Chooses now p a = slow_path now p.round_robin p.endpoints a

  -- A reservation whose permit is dropped leaves the circuit as it was, or takes it from open, after
  -- its recovery timeout, to half-open with no probe in flight.
  pub passed_keeps_slots :
      (now : ℕ) (e : ManagedEndpoint F)
      → let s = (passed fl now e).health.state in
        (s ≡ e.health.state)
        ⊎ ((since : ℕ) × (e.health.state ≡ open_since since)
            × (e.health.config.recovery_timeout ≤ now - since)
            × (s ≡ half_open 0))
  unfolding reserve drop_permit release_probe Health.reserve Health.release_probe
  passed_keeps_slots now e = go e.health.state refl
    where
      go :
          (s : CircuitState)
          → e.health.state ≡ s
          → ((passed fl now e).health.state ≡ e.health.state)
            ⊎ ((since : ℕ) × (e.health.state ≡ open_since since)
                × (e.health.config.recovery_timeout ≤ now - since)
                × ((passed fl now e).health.state ≡ half_open 0))
      go closed h = inl (ground arith)
      go (half_open p) h = inl (ground arith)
      go (open_since t) h = elim (Bool-cases (leb e.health.config.recovery_timeout (now - t))) [
        | inl b ↦ inr (t, h, ground arith, ground arith)
        | inr b ↦ inl (ground arith)
      ]
