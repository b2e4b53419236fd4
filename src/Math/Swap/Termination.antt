-- ===== src/Math/Swap/Termination.antt =====
-- The loop of `PoolSnapshot::simulate` ends within a round for each initialized tick and two more.
use perpcity_rust_sdk.Base.{
  ℕ, zero, suc, ◌+◌, ◌≡◌, ◌≢◌, ◌≤◌, ◌<◌, ◌⊎◌, sym, subst, ◌∙◌, ap, some, none, Bool, true, false,
  ◌==◌, ◌||◌, if◌then◌else◌, length, arith, Bool-cases, Option-cases, inl, inr,
}
use perpcity_rust_sdk.Base.Int.{ℤ, pos, ◌-ℤ◌, is_neg, pos_part, neg_part, int_laws}
use perpcity_rust_sdk.Base.Result.{Result, ok, ◌>>=◌, Result-cases}
use perpcity_rust_sdk.Math.FixedPoint.{toward_zero, up}
use perpcity_rust_sdk.Math.Tick.{min_tick, max_tick, get_sqrt_ratio_at_tick}
use perpcity_rust_sdk.Math.Amounts.{amount0_delta, amount1_delta}
use perpcity_rust_sdk.Math.Amounts.Same.{amount0_same, amount1_same}
use perpcity_rust_sdk.Math.Swap.Ticks.{Ticks, get_tick, last_at_most, first_above}
use perpcity_rust_sdk.Math.Swap.Simulation.{
  PoolSnapshot, StepResult, Simulation, Walk, next_tick_of, target_of, swap_step, cross, round,
  walk, start_walk, finish_walk, simulate,
}
use perpcity_rust_sdk.Math.Swap.Accounting.{round-Round, cross-same, swap_step-used}
use perpcity_rust_sdk.Math.Swap.Fuel.{
  ahead, ahead-le_length, last_at_most-ahead, first_above-ahead, Inside, Inside-get_ends,
  Inside-none_below, Inside-none_above,
}

abbrev pub end_of : Bool → ℤ
end_of true = min_tick
end_of false = max_tick

-- The price stands at the end of the range, and no tick is left ahead.
abbrev pub AtEnd : Ticks → Bool → ℕ → Walk → Type 0
AtEnd ticks z limit w =
    (next_tick_of z w.tick ticks ≡ end_of z)
    × (get_sqrt_ratio_at_tick (end_of z) ≡ ok w.sqrt)
    × (target_of z w.sqrt limit ≡ w.sqrt)

-- A step from a price to itself uses and returns nothing.
step_in_place :
    (z : Bool) (sqrt l remaining : ℕ) (s : StepResult)
    → swap_step z sqrt sqrt l remaining ≡ ok s
    → (s.used ≡ 0) × (s.other ≡ 0) × (s.sqrt_after ≡ sqrt)
unfolding swap_step
step_in_place true sqrt l remaining s e = elim (Result-cases (amount0_delta sqrt sqrt l up)) [
  | inl (x, q) ↦ ground arith
  | inr (a, q) ↦ elim (Result-cases (amount1_delta sqrt sqrt l toward_zero)) [
    | inl (x, q') ↦ ground (arith, amount0_same sqrt l up a q)
    | inr (b, q') ↦ ground (arith, amount0_same sqrt l up a q, amount1_same sqrt l toward_zero b q')
  ]
]
step_in_place false sqrt l remaining s e =
    elim (Result-cases (amount0_delta sqrt sqrt l toward_zero)) [
      | inl (x, q) ↦ ground arith
      | inr (a, q) ↦ elim (Result-cases (amount1_delta sqrt sqrt l up)) [
        | inl (x, q') ↦ ground (arith, amount0_same sqrt l toward_zero a q)
        | inr (b, q') ↦
            ground (arith, amount0_same sqrt l toward_zero a q, amount1_same sqrt l up b q')
      ]
    ]

target-cases :
    (z : Bool) (sqrt_next limit : ℕ)
    → (target_of z sqrt_next limit ≡ limit)
      ⊎ ((target_of z sqrt_next limit ≡ sqrt_next)
          × (target_of z sqrt_next limit ≡ target_of z (target_of z sqrt_next limit) limit))
unfolding target_of
target-cases true sqrt_next limit = ground arith
target-cases false sqrt_next limit = ground arith

-- What `cross` does at the tick, and where no tick is.
cross-tick :
    (ticks : Ticks) (z : Bool) (t : ℤ) (sqrt_next start : ℕ) (w : Walk) (b : Bool) (w' : Walk)
    → w.sqrt ≡ sqrt_next
    → cross ticks z t sqrt_next start w ≡ ok (b, w')
    → w'.tick ≡ (if z then t -ℤ pos 1 else t)
unfolding cross
cross-tick ticks z t sqrt_next start w b w' h e = ground arith

cross-missing :
    (ticks : Ticks) (z : Bool) (t : ℤ) (sqrt_next start : ℕ) (w : Walk) (b : Bool) (w' : Walk)
    → get_tick t ticks ≡ none
    → cross ticks z t sqrt_next start w ≡ ok (b, w')
    → b ≡ false
unfolding cross
cross-missing ticks z t sqrt_next start w b w' h e = ground arith

get-end_of : (ticks : Ticks) (z : Bool) → Inside ticks → get_tick (end_of z) ticks ≡ none
get-end_of ticks true i = (Inside-get_ends ticks i).0
get-end_of ticks false i = (Inside-get_ends ticks i).1

-- At an end of the range a round that succeeds is the last.
AtEnd-stops :
    (ticks : Ticks) (z : Bool) (limit : ℕ) (w : Walk) (stop : Bool) (w' : Walk)
    → Inside ticks
    → AtEnd ticks z limit w
    → round ticks z limit w ≡ ok (stop, w')
    → stop ≡ true
AtEnd-stops ticks z limit w stop w' i (n, q, t) e =
    let r = round-Round ticks z limit w stop w' e in
    let ratio : ok r.sqrt_next ≡ ok w.sqrt = sym r.ratio_eq ∙ ap get_sqrt_ratio_at_tick n ∙ q in
    let same : r.sqrt_next ≡ w.sqrt = cc in
    let (used, other, after) = step_in_place z w.sqrt w.liquidity w.remaining r.step (
      ap (λ k. swap_step z k w.sqrt w.liquidity w.remaining)
        (sym (ap (λ k. target_of z k limit) same ∙ t))
      ∙ r.step_eq) in
    let no_tick = ap (λ k. get_tick k ticks) n ∙ get-end_of ticks z i in
    let c = cross-missing ticks z _ _ _ _ _ w' no_tick r.cross_eq in r.stop_eq ∙ ground arith

-- After a round that reaches the tick it moved towards, fewer ticks are ahead or the range is at its
-- end.
reached :
    (ticks : Ticks) (z : Bool) (limit : ℕ) (w w' : Walk)
    → Inside ticks
    → w'.tick ≡ (if z then next_tick_of z w.tick ticks -ℤ pos 1 else next_tick_of z w.tick ticks)
    → get_sqrt_ratio_at_tick (next_tick_of z w.tick ticks) ≡ ok w'.sqrt
    → target_of z w'.sqrt limit ≡ w'.sqrt
    → (ahead z w'.tick ticks < ahead z w.tick ticks) ⊎ AtEnd ticks z limit w'
unfolding next_tick_of
reached ticks true limit w w' i t q g = elim (Option-cases (last_at_most w.tick ticks)) [
  | inl n ↦
      let at : next_tick_of true w.tick ticks ≡ min_tick = ground arith in
      let none_left = Inside-none_below ticks w'.tick i (
        omega (
          int_laws,
          ap pos_part (t ∙ ap (λ k. k -ℤ pos 1) at),
          ap neg_part (t ∙ ap (λ k. k -ℤ pos 1) at),
        )) in
      inr (ground arith, ap get_sqrt_ratio_at_tick (sym at) ∙ q, g)
  | inr (k, n) ↦
      let at : w'.tick ≡ k -ℤ pos 1 = ground arith in
      inl (
        last_at_most-ahead w.tick ticks k w'.tick n
          (omega (int_laws, ap pos_part at, ap neg_part at)))
]
reached ticks false limit w w' i t q g = elim (Option-cases (first_above w.tick ticks)) [
  | inl n ↦
      let at : next_tick_of false w.tick ticks ≡ max_tick = ground arith in
      let none_left = Inside-none_above ticks i in
      inr (ground arith, ap get_sqrt_ratio_at_tick (sym at) ∙ q, g)
  | inr (k, n) ↦
      let at : w'.tick ≡ k = ground arith in
      inl (
        subst (λ t. ahead false t ticks < ahead false w.tick ticks) (sym at)
          (first_above-ahead w.tick ticks k n))
]

-- What a round that goes on leads to.
round_outcome :
    (ticks : Ticks) (z : Bool) (limit : ℕ) (w : Walk) (w' : Walk)
    → Inside ticks
    → round ticks z limit w ≡ ok (false, w')
    → ((w'.remaining == 0 || w'.sqrt == limit) ≡ true)
      ⊎ (ahead z w'.tick ticks < ahead z w.tick ticks)
      ⊎ AtEnd ticks z limit w'
round_outcome ticks z limit w w' i e =
    let r = round-Round ticks z limit w false w' e in
    let (rem, sq, calc) = cross-same ticks z _ _ _ _ _ _ r.cross_eq in
    let (le, how) = swap_step-used z _ _ _ _ r.step r.step_eq in
    elim how [
      | inl a ↦ inl (ground arith)
      | inr a ↦ elim (target-cases z r.sqrt_next limit) [
        | inl b ↦ inl (ground arith)
        | inr (b, g) ↦
            let at : w'.sqrt ≡ r.sqrt_next = sq ∙ a ∙ b in
            inr (
              reached ticks z limit w w' i
                (cross-tick ticks z _ r.sqrt_next _ _ _ w' (a ∙ b) r.cross_eq)
                (r.ratio_eq ∙ ap ok (sym at))
                (sym (at ∙ sym b ∙ g ∙ ap (λ k. target_of z k limit) (b ∙ sym at))))
      ]
    ]

walk_finished :
    (ticks : Ticks) (z : Bool) (limit fuel : ℕ) (w : Walk)
    → (w.remaining == 0 || w.sqrt == limit) ≡ true
    → 0 < fuel
    → walk ticks z limit fuel w ≢ none
unfolding walk
walk_finished ticks z limit zero w c h = λ q. omega arith
walk_finished ticks z limit (suc fuel) w c h = ground arith

walk-AtEnd :
    (ticks : Ticks) (z : Bool) (limit fuel : ℕ) (w : Walk)
    → Inside ticks
    → AtEnd ticks z limit w
    → 0 < fuel
    → walk ticks z limit fuel w ≢ none
unfolding walk
walk-AtEnd ticks z limit zero w i a h = λ q. omega arith
walk-AtEnd ticks z limit (suc fuel) w i a h =
    elim (Bool-cases (w.remaining == 0 || w.sqrt == limit)) [
      | inl c ↦ ground arith
      | inr c ↦ elim (Result-cases (round ticks z limit w)) [
        | inl (x, q) ↦ ground arith
        | inr ((stop, v), q) ↦ ground (arith, AtEnd-stops ticks z limit w stop v i a q)
      ]
    ]

-- A walk with fuel for the ticks ahead and two rounds more has a result.
walk-enough :
    (ticks : Ticks) (z : Bool) (limit fuel : ℕ) (w : Walk)
    → Inside ticks
    → ahead z w.tick ticks + 2 ≤ fuel
    → walk ticks z limit fuel w ≢ none
unfolding walk
walk-enough ticks z limit zero w i h = λ q. omega arith
walk-enough ticks z limit (suc fuel) w i h =
    elim (Bool-cases (w.remaining == 0 || w.sqrt == limit)) [
      | inl c ↦ ground arith
      | inr c ↦ elim (Result-cases (round ticks z limit w)) [
        | inl (x, q) ↦ ground arith
        | inr ((true, v), q) ↦ ground arith
        | inr ((false, v), q) ↦
            let rest : walk ticks z limit fuel v ≢ none =
              elim (round_outcome ticks z limit w v i q) [
                | inl d ↦ walk_finished ticks z limit fuel v d (omega arith)
                | inr (inl d) ↦ walk-enough ticks z limit fuel v i (omega arith)
                | inr (inr d) ↦ walk-AtEnd ticks z limit fuel v i d (omega arith)
              ] in
            ground (arith, rest)
      ]
    ]

-- Where every initialized tick is strictly inside the range of ticks, `simulate` ends: a round for
-- each initialized tick and four more are enough, whatever the pool, the request and the limit.
pub simulate-ends :
    (p : PoolSnapshot) (requested : ℤ) (limit : ℕ)
    → Inside p.ticks
    → (r : Result Simulation) × (simulate p requested limit ≡ some r)
unfolding simulate
simulate-ends p requested limit i =
    let w = walk p.ticks (is_neg requested) limit (length p.ticks + 4) (start_walk p requested) in
    elim (Option-cases w) [
      | inl n ↦ absurd (
          walk-enough p.ticks (is_neg requested) limit (length p.ticks + 4) (start_walk p requested)
            i (omega (arith, ahead-le_length (is_neg requested) p.tick p.ticks)) n)
      | inr (r, q) ↦ (r >>= finish_walk requested limit, ground arith)
    ]
