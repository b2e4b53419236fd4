-- ===== src/Transport/Pool/Loop.antt =====
-- The loop of the latency-based selection over the endpoints.
use perpcity_rust_sdk.Base.{
  ℕ, zero, suc, ◌+◌, ◌<◌, ◌≤◌, ◌≡◌, ◌⊎◌, inl, inr, refl, Option, some, none, List, Bool, false, ltb,
  leb, ◌==◌, if◌then◌else◌, length, get_elem?, modify, arith, Bool-cases, Option-cases,
  get_elem?-modify_self, get_elem?-modify_ne, get_elem?_lt, subst,
}
use mathlib.Core.Option
use perpcity_rust_sdk.Base.Float.{Float}
use perpcity_rust_sdk.Transport.Pool.{
  ManagedEndpoint, reserve, drop_permit, reserve_at, best_reserved,
}

module _ (fl : Float) where
  open fl use {F}

  -- An endpoint that was reserved and whose permit, if it got one, was dropped.
  abbrev pub passed : ℕ → ManagedEndpoint F → ManagedEndpoint F
  passed now e = elim (reserve fl now e).0 [
    | none ↦ (reserve fl now e).1
    | some held ↦ drop_permit fl held (reserve fl now e).1
  ]

  abbrev pub is_best : ℕ → Option (ℕ × ℕ × Bool) → Bool
  is_best j none = false
  is_best j (some (b, latency, held)) = j == b

  -- Endpoint `j` after the loop has gone over the first `idx` endpoints.
  abbrev pub seen : ℕ → ℕ → Option (ℕ × ℕ × Bool) → ℕ → ManagedEndpoint F → ManagedEndpoint F
  seen now idx best j e =
      if ltb j idx then (if is_best j best then (reserve fl now e).1 else passed now e) else e

  -- Whether endpoint `e` at `j` grants a reservation with a latency below the best.
  abbrev pub IsBeaten : ℕ → Option (ℕ × ℕ × Bool) → ManagedEndpoint F → Type 0
  IsBeaten now none e = (reserve fl now e).0 ≡ none
  IsBeaten now (some (b, latency, held)) e =
      ((reserve fl now e).0 ≡ none) ⊎ (latency ≤ (reserve fl now e).1.atomic_latency_ns)

  abbrev pub IsGranted : ℕ → List (ManagedEndpoint F) → Option (ℕ × ℕ × Bool) → Type 0
  IsGranted now eps none = Unit
  IsGranted now eps (some (b, latency, held)) =
      (e : ManagedEndpoint F) × (get_elem? eps b ≡ some e)
      × ((reserve fl now e).0 ≡ some held)
      × (latency ≡ (reserve fl now e).1.atomic_latency_ns)

  abbrev pub Below : ℕ → Option (ℕ × ℕ × Bool) → Type 0
  Below idx none = Unit
  Below idx (some (b, latency, held)) = b < idx

  pub record Loop (now : ℕ) (eps : List (ManagedEndpoint F)) (idx : ℕ)
      (best : Option (ℕ × ℕ × Bool)) (now_eps : List (ManagedEndpoint F)) : Type 0 where
    pub entries : (j : ℕ) → get_elem? now_eps j ≡ Option.map (seen now idx best j) (get_elem? eps j)
    pub choice : IsGranted now eps best
    pub within : Below idx best
    pub beaten :
        (j : ℕ) (e : ManagedEndpoint F) → j < idx → get_elem? eps j ≡ some e → IsBeaten now best e

  step_none :
      (now : ℕ) (eps : List (ManagedEndpoint F)) (idx : ℕ) (best : Option (ℕ × ℕ × Bool))
      (now_eps : List (ManagedEndpoint F)) (e : ManagedEndpoint F)
      → get_elem? eps idx ≡ some e
      → (reserve fl now e).0 ≡ none
      → Loop now eps idx best now_eps
      → Loop now eps (idx + 1) best (modify idx (λ x. (reserve fl now x).1) now_eps)
  step_none now eps idx best now_eps e g r l = record {
    entries = λ j. ground (
      arith,
      l.entries j,
      l.entries idx,
      get_elem?-modify_self idx (λ x. (reserve fl now x).1) now_eps,
      get_elem?-modify_ne idx j (λ x. (reserve fl now x).1) now_eps,
    );
    choice = l.choice;
    within = ground (arith, l.within);
    beaten = λ j x h k. ground (arith, l.beaten j x);
  }

  step_first :
      (now : ℕ) (eps : List (ManagedEndpoint F)) (idx : ℕ) (now_eps : List (ManagedEndpoint F))
      (e : ManagedEndpoint F) (held : Bool)
      → get_elem? eps idx ≡ some e
      → (reserve fl now e).0 ≡ some held
      → Loop now eps idx none now_eps
      → Loop now eps
          (idx + 1)
          (some (idx, (reserve fl now e).1.atomic_latency_ns, held))
          (modify idx (λ x. (reserve fl now x).1) now_eps)
  step_first now eps idx now_eps e held g r l = record {
    entries = λ j. ground (
      arith,
      l.entries j,
      l.entries idx,
      get_elem?-modify_self idx (λ x. (reserve fl now x).1) now_eps,
      get_elem?-modify_ne idx j (λ x. (reserve fl now x).1) now_eps,
    );
    choice = (e, g, r, refl);
    within = omega arith;
    beaten = λ j x h k. ground (arith, l.beaten j x);
  }

  step_keep :
      (now : ℕ) (eps : List (ManagedEndpoint F)) (idx b latency : ℕ) (kept : Bool)
      (now_eps : List (ManagedEndpoint F)) (e : ManagedEndpoint F) (held : Bool)
      → get_elem? eps idx ≡ some e
      → (reserve fl now e).0 ≡ some held
      → latency ≤ (reserve fl now e).1.atomic_latency_ns
      → Loop now eps idx (some (b, latency, kept)) now_eps
      → Loop now eps
          (idx + 1)
          (some (b, latency, kept))
          (modify idx (drop_permit fl held) (modify idx (λ x. (reserve fl now x).1) now_eps))
  step_keep now eps idx b latency kept now_eps e held g r le l =
      let once = modify idx (λ (x : ManagedEndpoint F). (reserve fl now x).1) now_eps in
      record {
        entries = λ j. ground (
          arith,
          l.entries j,
          l.entries idx,
          l.within,
          get_elem?-modify_self idx (λ x. (reserve fl now x).1) now_eps,
          get_elem?-modify_ne idx j (λ x. (reserve fl now x).1) now_eps,
          get_elem?-modify_self idx (drop_permit fl held) once,
          get_elem?-modify_ne idx j (drop_permit fl held) once,
        );
        choice = l.choice;
        within = omega (arith, l.within);
        beaten = λ j x h k. ground (arith, l.beaten j x);
      }

  step_replace :
      (now : ℕ) (eps : List (ManagedEndpoint F)) (idx b latency : ℕ) (kept : Bool)
      (now_eps : List (ManagedEndpoint F)) (e : ManagedEndpoint F) (held : Bool)
      → get_elem? eps idx ≡ some e
      → (reserve fl now e).0 ≡ some held
      → (reserve fl now e).1.atomic_latency_ns < latency
      → Loop now eps idx (some (b, latency, kept)) now_eps
      → Loop now eps
          (idx + 1)
          (some (idx, (reserve fl now e).1.atomic_latency_ns, held))
          (modify b (drop_permit fl kept) (modify idx (λ x. (reserve fl now x).1) now_eps))
  step_replace now eps idx b latency kept now_eps e held g r lt l =
      let once = modify idx (λ (x : ManagedEndpoint F). (reserve fl now x).1) now_eps in
      let (eb, gb, rb, lb) = l.choice in
      record {
        entries = λ j. ground (
          arith,
          gb,
          rb,
          l.entries j,
          l.entries idx,
          l.within,
          get_elem?-modify_self idx (λ x. (reserve fl now x).1) now_eps,
          get_elem?-modify_ne idx j (λ x. (reserve fl now x).1) now_eps,
          get_elem?-modify_self b (drop_permit fl kept) once,
          get_elem?-modify_ne b j (drop_permit fl kept) once,
        );
        choice = (e, g, r, refl);
        within = omega arith;
        beaten = λ j x h k. ground (arith, l.beaten j x);
      }

  reserve_at_eq :
      (now : ℕ) (eps : List (ManagedEndpoint F)) (idx : ℕ) (best : Option (ℕ × ℕ × Bool))
      (now_eps : List (ManagedEndpoint F)) (e : ManagedEndpoint F)
      → get_elem? eps idx ≡ some e
      → Loop now eps idx best now_eps
      → ((reserve_at fl idx now now_eps).0 ≡ (reserve fl now e).0)
        × ((reserve_at fl idx now now_eps).1 ≡ modify idx (λ x. (reserve fl now x).1) now_eps)
        × (get_elem? (modify idx (λ x. (reserve fl now x).1) now_eps) idx
            ≡ some (reserve fl now e).1)
  unfolding reserve_at
  reserve_at_eq now eps idx best now_eps e g l =
      let here : get_elem? now_eps idx ≡ some e = ground (arith, l.entries idx) in
      (
        rw (here, reserve_at),
        rw (here, reserve_at),
        rw (get_elem?-modify_self idx (λ x. (reserve fl now x).1) now_eps, here),
      )

  pub best_reserved-Loop :
      (now : ℕ) (eps : List (ManagedEndpoint F)) (k idx : ℕ) (best : Option (ℕ × ℕ × Bool))
      (now_eps : List (ManagedEndpoint F))
      → idx + k ≡ length eps
      → Loop now eps idx best now_eps
      → let (b, out) = best_reserved fl now k idx now_eps best in Loop now eps (length eps) b out
  unfolding best_reserved
  best_reserved-Loop now eps zero idx best now_eps h l =
      subst (λ i. Loop now eps i best now_eps) (omega arith) l
  best_reserved-Loop now eps (suc k) idx none now_eps h l =
      let (e, g) = get_elem?_lt idx eps (omega arith) in
      let (q, q', at) = reserve_at_eq now eps idx none now_eps e g l in
      elim (Option-cases (reserve fl now e).0) [
        | inl r ↦
            rw (q, r, q', best_reserved)
              (best_reserved-Loop now eps k (idx + 1) none _ (omega arith)
                (step_none now eps idx none now_eps e g r l))
        | inr (held, r) ↦
            rw (q, r, q', at, best_reserved)
              (best_reserved-Loop now eps k (idx + 1) _ _ (omega arith)
                (step_first now eps idx now_eps e held g r l))
      ]
  best_reserved-Loop now eps (suc k) idx (some (b, latency, kept)) now_eps h l =
      let (e, g) = get_elem?_lt idx eps (omega arith) in
      let (q, q', at) = reserve_at_eq now eps idx (some (b, latency, kept)) now_eps e g l in
      elim (Option-cases (reserve fl now e).0) [
        | inl r ↦
            rw (q, r, q', best_reserved)
              (best_reserved-Loop now eps k (idx + 1) _ _ (omega arith)
                (step_none now eps idx _ now_eps e g r l))
        | inr (held, r) ↦ elim (Bool-cases (leb latency (reserve fl now e).1.atomic_latency_ns)) [
          | inl c ↦
              rw (q, r, q', at, best_reserved)
                (rw (c, q')
                  (best_reserved-Loop now eps k (idx + 1) _ _ (omega arith)
                    (step_keep now eps idx b latency kept now_eps e held g r (ground arith) l)))
          | inr c ↦
              rw (q, r, q', at, best_reserved)
                (rw (c, q', at)
                  (best_reserved-Loop now eps k (idx + 1) _ _ (omega arith)
                    (step_replace now eps idx b latency kept now_eps e held g r (ground arith) l)))
        ]
      ]
