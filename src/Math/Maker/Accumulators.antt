-- ===== src/Math/Maker/Accumulators.antt =====
-- What the fee growth inside a band promises.
use perpcity_rust_sdk.Base.{
  ℕ, ◌+◌, ◌%◌, ◌<◌, ◌≡◌, refl, inl, inr, Bool, true, false, Bool-cases, if◌then◌else◌, arith,
}
use perpcity_rust_sdk.Base.Int.{ℤ, leb_ℤ, ltb_ℤ, ◌≤ℤ◌, ◌<ℤ◌}
use perpcity_rust_sdk.Math.FixedPoint.{u256_mod}
use perpcity_rust_sdk.Math.Maker.{fee_since, fee_growth_inside1}

-- The growth since the growth since a checkpoint is the checkpoint.
fee_since-fee_since : (g o : ℕ) → g < u256_mod → o < u256_mod → fee_since g (fee_since g o) ≡ o
unfolding fee_since
fee_since-fee_since g o hg ho = omega arith

-- The growth on the two sides of a tick adds up to the global growth.
sides :
    (g lm m um : ℕ)
    → g < u256_mod
    → lm < u256_mod
    → m < u256_mod
    → um < u256_mod
    → (fee_since (fee_since g lm) m + fee_since (fee_since g (fee_since g m)) um) % u256_mod
      ≡ fee_since (fee_since g lm) um
unfolding fee_since
sides g lm m um hg hl hm hu = omega arith

sides_above :
    (g lm m um : ℕ)
    → g < u256_mod
    → lm < u256_mod
    → m < u256_mod
    → um < u256_mod
    → (fee_since (fee_since g lm) (fee_since g m) + fee_since (fee_since g m) um) % u256_mod
      ≡ fee_since (fee_since g lm) um
unfolding fee_since
sides_above g lm m um hg hl hm hu = omega arith

fee_since-bound : (g o : ℕ) → fee_since g o < u256_mod
unfolding fee_since
fee_since-bound g o = omega arith

either_bound : (c : Bool) (x y : ℕ) → x < u256_mod → y < u256_mod → (if c then x else y) < u256_mod
either_bound true x y h k = h
either_bound false x y h k = k

-- The fee growth inside two bands that meet at a tick adds up, modulo 2^256, to the growth inside the
-- band that they make together, wherever the current tick stands.
pub fee_growth_inside1-adds :
    (g ol om ou : ℕ) (lower mid upper tick : ℤ)
    → g < u256_mod
    → ol < u256_mod
    → om < u256_mod
    → ou < u256_mod
    → (fee_growth_inside1 g ol om lower mid tick + fee_growth_inside1 g om ou mid upper tick)
        % u256_mod
      ≡ fee_growth_inside1 g ol ou lower upper tick
unfolding fee_growth_inside1
fee_growth_inside1-adds g ol om ou lower mid upper tick hg hl hm hu =
    let below = if leb_ℤ lower tick then ol else fee_since g ol in
    let above = if ltb_ℤ tick upper then ou else fee_since g ou in
    let hb = either_bound (leb_ℤ lower tick) ol (fee_since g ol) hl (fee_since-bound g ol) in
    let ha = either_bound (ltb_ℤ tick upper) ou (fee_since g ou) hu (fee_since-bound g ou) in
    elim (Bool-cases (leb_ℤ mid tick)) [
      | inl c ↦
          let past : ltb_ℤ tick mid ≡ false = ground arith in
          rw (c, past) (sides_above g below om above hg hb hm ha)
      | inr c ↦
          let before : ltb_ℤ tick mid ≡ true = ground arith in
          rw (c, before) (sides g below om above hg hb hm ha)
    ]

-- When the current tick crosses the lower bound of a band from below and the bound's outside growth is
-- replaced by the growth since it, the growth inside the band stays as it is.
pub fee_growth_inside1_entering :
    (g ol ou : ℕ) (lower upper tick tick' : ℤ)
    → g < u256_mod
    → ol < u256_mod
    → tick <ℤ lower
    → lower ≤ℤ tick'
    → tick <ℤ upper
    → tick' <ℤ upper
    → fee_growth_inside1 g (fee_since g ol) ou lower upper tick'
      ≡ fee_growth_inside1 g ol ou lower upper tick
unfolding fee_growth_inside1
fee_growth_inside1_entering g ol ou lower upper tick tick' hg hl a b c d =
    let p : leb_ℤ lower tick' ≡ true = ground arith in
    let q : leb_ℤ lower tick ≡ false = ground arith in
    let r : ltb_ℤ tick' upper ≡ true = ground arith in
    let s : ltb_ℤ tick upper ≡ true = ground arith in rw (p, q, r, s) refl

-- When the current tick crosses the upper bound of a band from below and the bound's outside growth is
-- replaced by the growth since it, the growth inside the band stays as it is.
pub fee_growth_inside1_leaving :
    (g ol ou : ℕ) (lower upper tick tick' : ℤ)
    → g < u256_mod
    → ou < u256_mod
    → lower ≤ℤ tick
    → tick <ℤ upper
    → lower ≤ℤ tick'
    → upper ≤ℤ tick'
    → fee_growth_inside1 g ol (fee_since g ou) lower upper tick'
      ≡ fee_growth_inside1 g ol ou lower upper tick
unfolding fee_growth_inside1
fee_growth_inside1_leaving g ol ou lower upper tick tick' hg hu a b c d =
    let p : leb_ℤ lower tick' ≡ true = ground arith in
    let q : leb_ℤ lower tick ≡ true = ground arith in
    let r : ltb_ℤ tick' upper ≡ false = ground arith in
    let s : ltb_ℤ tick upper ≡ true = ground arith in
    let back = fee_since-fee_since g ou hg hu in rw (p, q, r, s, back) refl
