-- ===== src/Math/Swap/Fills.antt =====
-- What a result of `PoolSnapshot::simulate` says of the request and of the ticks it crossed.
use perpcity_rust_sdk.Base.{
  ℕ, ◌+◌, ◌≡◌, ◌≤◌, ◌↔◌, refl, sym, ◌∙◌, ap, some, true, ◌==◌, if◌then◌else◌, length, arith,
  Option-cases, inl, inr,
}
use perpcity_rust_sdk.Base.Int.{ℤ, pos, negsuc, neg, abs, is_neg, pos_part, neg_part}
use perpcity_rust_sdk.Base.Result.{ok, >>=-eq-ok, Result-cases}
use perpcity_rust_sdk.Math.Liquidity.{wrapping_sub}
use perpcity_rust_sdk.Math.Amounts.{i128_half, u256_to_i128}
use perpcity_rust_sdk.Math.Swap.Simulation.{
  PoolSnapshot, Simulation, Walk, walk, start_walk, finish_walk, simulate,
}
use perpcity_rust_sdk.Math.Swap.Accounting.{walk-remaining, walk-replays, replay}

-- The walk that a result stands on.
record Walked (p : PoolSnapshot) (requested : ℤ) (limit : ℕ) (sim : Simulation) : Type 0 where
  pub last : Walk
  pub walk_eq :
      walk p.ticks (is_neg requested) limit (length p.ticks + 4) (start_walk p requested)
      ≡ some (ok last)
  pub finish_eq : finish_walk requested limit last ≡ ok sim

simulate-Walked :
    (p : PoolSnapshot) (requested : ℤ) (limit : ℕ) (sim : Simulation)
    → simulate p requested limit ≡ some (ok sim)
    → Walked p requested limit sim
unfolding simulate
simulate-Walked p requested limit sim e =
    let r = walk p.ticks (is_neg requested) limit (length p.ticks + 4) (start_walk p requested) in
    elim (Option-cases r) [
      | inl n ↦ ground arith
      | inr (x, q) ↦ elim (Result-cases x) [
        | inl (f, g) ↦ ground arith
        | inr (w, g) ↦ record { last = w; walk_eq = q ∙ ap some g; finish_eq = ground arith }
      ]
    ]

u256_to_i128-eq-ok : (a b : ℕ) → u256_to_i128 a ≡ ok b → b ≡ a
unfolding u256_to_i128
u256_to_i128-eq-ok a b e = ground arith

finish_walk-perp :
    (requested : ℤ) (limit : ℕ) (w : Walk) (sim : Simulation)
    → finish_walk requested limit w ≡ ok sim
    → (filled usd : ℕ) × (filled ≡ wrapping_sub (abs requested) w.remaining)
      × (usd ≡ w.calculated)
      × (sim.perp_delta ≡ (if is_neg requested then neg (pos filled) else pos filled))
      × (sim.usd_delta ≡ (if is_neg requested then pos usd else neg (pos usd)))
      × (sim.fully_filled ≡ (w.remaining == 0))
      × (sim.liquidity_after ≡ w.liquidity)
      × (sim.crossed ≡ w.crossed)
unfolding finish_walk
finish_walk-perp requested limit w sim e =
    let (a, ea, e1) = >>=-eq-ok (u256_to_i128 (wrapping_sub (abs requested) w.remaining)) _ e in
    let (b, eb, e2) = >>=-eq-ok (u256_to_i128 w.calculated) _ e1 in
    (
      a,
      b,
      u256_to_i128-eq-ok _ a ea,
      u256_to_i128-eq-ok _ b eb,
      ground arith,
      ground arith,
      ground arith,
      ground arith,
      ground arith,
    )

-- A taker that sells gets a base change that is at most 0 and a quote change that is at least 0.
abbrev pub OnSide : ℤ → Simulation → Type 0
OnSide (pos _) sim = (neg_part sim.perp_delta ≡ 0) × (pos_part sim.usd_delta ≡ 0)
OnSide (negsuc _) sim = (pos_part sim.perp_delta ≡ 0) × (neg_part sim.usd_delta ≡ 0)

fills :
    (requested : ℤ) (limit : ℕ) (w : Walk) (sim : Simulation)
    → w.remaining ≤ abs requested
    → abs requested ≤ i128_half
    → finish_walk requested limit w ≡ ok sim
    → OnSide requested sim
      × (abs sim.perp_delta ≤ abs requested)
      × ((sim.fully_filled ≡ true) ↔ (sim.perp_delta ≡ requested))
unfolding neg
fills (pos n) limit w sim h k e =
    let (a, b, ea, eb, p, u, f, l, c) = finish_walk-perp (pos n) limit w sim e in
    (
      (ground arith, ground arith),
      ground arith,
      (λ q. ground arith, λ q. ground (arith, ap pos_part q)),
    )
fills (negsuc n) limit w sim h k e =
    let (a, b, ea, eb, p, u, f, l, c) = finish_walk-perp (negsuc n) limit w sim e in
    (
      (ground arith, ground arith),
      ground arith,
      (λ q. ground arith, λ q. ground (arith, ap neg_part q)),
    )

-- A successful simulation of a request of 128 bits, whatever it stops at: the base amount has the side of the request, the
-- quote amount the other side, no more than the request is filled, and it reports a full fill
-- exactly if the base amount is the request.
pub simulate-fills :
    (p : PoolSnapshot) (requested : ℤ) (limit : ℕ) (sim : Simulation)
    → abs requested ≤ i128_half
    → simulate p requested limit ≡ some (ok sim)
    → OnSide requested sim
      × (abs sim.perp_delta ≤ abs requested)
      × ((sim.fully_filled ≡ true) ↔ (sim.perp_delta ≡ requested))
simulate-fills p requested limit sim k e =
    let r = simulate-Walked p requested limit sim e in
    fills requested limit r.last sim (walk-remaining _ _ _ _ _ r.last (omega arith) r.walk_eq) k
      r.finish_eq

-- The liquidity that a successful simulation ends with is the pool's, changed by the net liquidity of
-- each tick it lists as crossed, in that order and in the direction of the swap; every tick it lists
-- is initialized and no such change overflows.
pub simulate-replays :
    (p : PoolSnapshot) (requested : ℤ) (limit : ℕ) (sim : Simulation)
    → simulate p requested limit ≡ some (ok sim)
    → replay p.ticks (is_neg requested) p.liquidity sim.crossed ≡ ok sim.liquidity_after
simulate-replays p requested limit sim e =
    let r = simulate-Walked p requested limit sim e in
    let (a, b, ea, eb, pd, u, f, l, c) = finish_walk-perp requested limit r.last sim r.finish_eq in
    ap (replay p.ticks (is_neg requested) p.liquidity) c
    ∙ walk-replays _ _ _ p.liquidity _ _ r.last r.walk_eq refl
    ∙ ap ok (sym l)
