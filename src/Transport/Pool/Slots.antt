-- ===== src/Transport/Pool/Slots.antt =====
-- Selections and probe slots: a selection leaves every endpoint that it does not choose as it was, or
-- with its probe slot given back.
use perpcity_rust_sdk.Base.{
  ℕ, zero, suc, ◌+◌, ◌%◌, ◌≡◌, ◌⊎◌, inl, inr, refl, Option, some, none, List, [], ◌∷◌, Bool, true,
  false, length, get_elem?, modify, arith, Option-cases, ap,
}
use perpcity_rust_sdk.Base.Float.{Float}
use perpcity_rust_sdk.Base.Word.{u64_mod}
use perpcity_rust_sdk.Transport.Health.{closed}
use perpcity_rust_sdk.Transport.Pool.{
  ManagedEndpoint, EndpointPool, reserve, reserve_at, first_closed, first_reserved,
  select_round_robin, closed_at,
}
use perpcity_rust_sdk.Transport.Pool.Laws.{IsMirrored, reserve_refused, is_closed-pack_state}

modify_fixed {ℓ} :
    {A : Type ℓ} (i : ℕ) (f : A → A) {x : A} (xs : List A)
    → get_elem? xs i ≡ some x
    → f x ≡ x
    → modify i f xs ≡ xs
modify_fixed i f [] h e = refl
modify_fixed zero f (y ∷ xs) h e = cc
modify_fixed (suc i) f (y ∷ xs) h e = ap (λ ys. y ∷ ys) (modify_fixed i f xs h e)

module _ (fl : Float) where
  open fl use {F}

  -- Every endpoint of the list has true mirrors.
  abbrev pub AllMirrored : List (ManagedEndpoint F) → Type 0
  AllMirrored eps = (j : ℕ) (e : ManagedEndpoint F) → get_elem? eps j ≡ some e → IsMirrored fl e

  -- A reservation that is refused, or names no endpoint, changes nothing.
  reserve_at_refused :
      (idx now : ℕ) (eps : List (ManagedEndpoint F))
      → AllMirrored eps
      → (reserve_at fl idx now eps).0 ≡ none
      → (reserve_at fl idx now eps).1 ≡ eps
  unfolding reserve_at
  reserve_at_refused idx now eps m = elim (Option-cases (get_elem? eps idx)) [
    | inl e ↦ rw (e, reserve_at) (λ _. refl)
    | inr (e, h) ↦
        rw (h, reserve_at) (λ r. modify_fixed idx _ eps h (reserve_refused fl now e (m idx e h) r))
  ]

  reserve_at_given :
      (idx now : ℕ) (eps : List (ManagedEndpoint F)) (held : Bool)
      → (reserve_at fl idx now eps).0 ≡ some held
      → (e : ManagedEndpoint F) × (get_elem? eps idx ≡ some e)
        × ((reserve fl now e).0 ≡ some held)
        × ((reserve_at fl idx now eps).1 ≡ modify idx (λ x. (reserve fl now x).1) eps)
  unfolding reserve_at
  reserve_at_given idx now eps held = elim (Option-cases (get_elem? eps idx)) [
    | inl e ↦ rw (e, reserve_at) (λ r. cc)
    | inr (e, h) ↦ rw (h, reserve_at) (λ r. (e, refl, r, refl))
  ]

  -- What a selection may have done: nothing, where it found no endpoint; nothing, where the endpoint
  -- is closed and the permit free; or a reservation at the chosen endpoint alone.
  abbrev pub Reserves :
      ℕ → List (ManagedEndpoint F) → Option (ℕ × Bool) × List (ManagedEndpoint F) → Type 0
  Reserves now eps (none, eps') = eps' ≡ eps
  Reserves now eps (some (idx, held), eps') =
      (e : ManagedEndpoint F) × (get_elem? eps idx ≡ some e)
      × ((held ≡ false) × (e.health.state ≡ closed) × (eps' ≡ eps)
          ⊎ ((reserve fl now e).0 ≡ some held)
            × (eps' ≡ modify idx (λ x. (reserve fl now x).1) eps))

  first_reserved-Reserves :
      (now start k i : ℕ) (eps : List (ManagedEndpoint F))
      → AllMirrored eps
      → Reserves now eps (first_reserved fl now start k i eps)
  unfolding first_reserved
  first_reserved-Reserves now start zero i eps m = refl
  first_reserved-Reserves now start (suc k) i eps m =
      let idx = (start + i) % u64_mod % length eps in
      elim (Option-cases (reserve_at fl idx now eps).0) [
        | inl r ↦
            rw (r, first_reserved)
              (rw (reserve_at_refused idx now eps m r)
                (first_reserved-Reserves now start k (i + 1) eps m))
        | inr (held, r) ↦
            let (e, g, h, q) = reserve_at_given idx now eps held r in
            rw (r, first_reserved) (e, g, inr (h, q))
      ]

  first_closed_lem :
      (start k i : ℕ) (eps : List (ManagedEndpoint F)) (idx : ℕ)
      → first_closed fl start k i eps ≡ some idx
      → closed_at fl idx eps ≡ true
  unfolding first_closed
  first_closed_lem start zero i eps idx h = cc
  first_closed_lem start (suc k) i eps idx h =
      ground (arith, first_closed_lem start k (i + 1) eps idx)

  closed_at_lem :
      (idx : ℕ) (eps : List (ManagedEndpoint F))
      → AllMirrored eps
      → closed_at fl idx eps ≡ true
      → (e : ManagedEndpoint F) × (get_elem? eps idx ≡ some e) × (e.health.state ≡ closed)
  closed_at_lem idx eps m = elim (Option-cases (get_elem? eps idx)) [
    | inl e ↦ rw (e, closed_at) (λ r. cc)
    | inr (e, h) ↦
        rw (h, closed_at)
          (λ r. (e, refl, (is_closed-pack_state e.health.state).0 (rw (m idx e h).state at r)))
  ]

  -- A round-robin selection over endpoints with true mirrors reserves at the endpoint that it chooses
  -- and leaves all others as they were; without an endpoint it leaves all as they were.
  pub select_round_robin-Reserves :
      (now : ℕ) (p : EndpointPool F)
      → AllMirrored p.endpoints
      → Reserves now p.endpoints
          ((select_round_robin fl now p).0, (select_round_robin fl now p).1.endpoints)
  unfolding select_round_robin
  select_round_robin-Reserves now p m =
      elim (Option-cases (first_closed fl p.round_robin (length p.endpoints) 0 p.endpoints)) [
        | inl r ↦
            rw (r, select_round_robin)
              (first_reserved-Reserves now p.round_robin (length p.endpoints) 0 p.endpoints m)
        | inr (idx, r) ↦
            let (e, g, c) =
              closed_at_lem idx p.endpoints m
                (first_closed_lem p.round_robin (length p.endpoints) 0 p.endpoints idx r) in
            rw (r, select_round_robin) (e, g, inl (refl, c, refl))
      ]
