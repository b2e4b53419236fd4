-- ===== src/Math/Swap/Accounting.antt =====
-- What a simulation accounts for: the amount that filled, and the liquidity of the crossed ticks.
use perpcity_rust_sdk.Base.{
  ℕ, zero, suc, ◌+◌, ◌%◌, ◌≡◌, ◌≤◌, ◌<◌, ◌⊎◌, ◌∙◌, ap, some, none, List, [], ◌∷◌, ◌++◌, Bool, true,
  false, ◌==◌, ◌&&◌, ◌||◌, not, if◌then◌else◌, arith, Bool-cases, inl, inr,
}
use perpcity_rust_sdk.Base.Int.{ℤ}
use perpcity_rust_sdk.Base.Result.{Result, ok, err, overflow, ◌>>=◌, >>=-eq-ok, Result-cases}
use perpcity_rust_sdk.Math.FixedPoint.{u256_mod}
use perpcity_rust_sdk.Math.Tick.{get_sqrt_ratio_at_tick}
use perpcity_rust_sdk.Math.Liquidity.{wrapping_sub}
use perpcity_rust_sdk.Math.Swap.Ticks.{Ticks, checked_add_signed, negated, get_tick}
use perpcity_rust_sdk.Math.Swap.Simulation.{
  StepResult, Walk, next_tick_of, target_of, swap_step, cross, round, walk,
}

-- What a step may be: nothing used without liquidity, the whole of what remains, or a move to the
-- target by no more than remains.
pub swap_step-used :
    (z : Bool) (target sqrt l remaining : ℕ) (s : StepResult)
    → swap_step z target sqrt l remaining ≡ ok s
    → (s.used ≤ remaining) × ((s.used ≡ remaining) ⊎ (s.sqrt_after ≡ target))
unfolding swap_step
swap_step-used true target sqrt l remaining s e = ground arith
swap_step-used false target sqrt l remaining s e = ground arith

-- What `cross` leaves as it was.
pub cross-same :
    (ticks : Ticks) (z : Bool) (next_tick : ℤ) (sqrt_next start : ℕ) (w : Walk) (b : Bool)
    (w' : Walk)
    → cross ticks z next_tick sqrt_next start w ≡ ok (b, w')
    → (w'.remaining ≡ w.remaining) × (w'.sqrt ≡ w.sqrt) × (w'.calculated ≡ w.calculated)
unfolding cross
cross-same ticks z next_tick sqrt_next start w b w' e = ground arith

-- The state that `cross` starts from in a round.
abbrev pub moved : StepResult → Walk → Walk
moved s w = record w {
  remaining = wrapping_sub w.remaining s.used;
  calculated = (w.calculated + s.other) % u256_mod;
  sqrt = s.sqrt_after;
}

-- The parts of a round that succeeds.
pub record Round (ticks : Ticks) (z : Bool) (limit : ℕ) (w : Walk) (stop : Bool) (w' : Walk)
    : Type 0 where
  pub sqrt_next : ℕ
  pub step : StepResult
  pub crossed_tick : Bool
  pub ratio_eq : get_sqrt_ratio_at_tick (next_tick_of z w.tick ticks) ≡ ok sqrt_next
  pub step_eq : swap_step z (target_of z sqrt_next limit) w.sqrt w.liquidity w.remaining ≡ ok step
  pub cross_eq :
      cross ticks z (next_tick_of z w.tick ticks) sqrt_next w.sqrt (moved step w)
      ≡ ok (crossed_tick, w')
  pub stop_eq :
      stop ≡ (step.used == 0 && step.other == 0 && step.sqrt_after == w.sqrt && not crossed_tick)

pub round-Round :
    (ticks : Ticks) (z : Bool) (limit : ℕ) (w : Walk) (stop : Bool) (w' : Walk)
    → round ticks z limit w ≡ ok (stop, w')
    → Round ticks z limit w stop w'
unfolding round
round-Round ticks z limit w stop w' e =
    let (sqrt_next, er, e1) =
      >>=-eq-ok (get_sqrt_ratio_at_tick (next_tick_of z w.tick ticks)) _ e in
    let (s, es, e2) =
      >>=-eq-ok (swap_step z (target_of z sqrt_next limit) w.sqrt w.liquidity w.remaining) _ e1 in
    let ((c, w2), ec, e3) =
      >>=-eq-ok (cross ticks z (next_tick_of z w.tick ticks) sqrt_next w.sqrt (moved s w)) _ e2 in
    let same : w2 ≡ w' = cc in
    record {
      sqrt_next = sqrt_next;
      step = s;
      crossed_tick = c;
      ratio_eq = er;
      step_eq = es;
      cross_eq = ec ∙ ap (λ (x : Walk). ok (c, x)) same;
      stop_eq = ground arith;
    }

round-remaining :
    (ticks : Ticks) (z : Bool) (limit : ℕ) (w : Walk) (stop : Bool) (w' : Walk)
    → w.remaining < u256_mod
    → round ticks z limit w ≡ ok (stop, w')
    → w'.remaining ≤ w.remaining
round-remaining ticks z limit w stop w' h e =
    let r = round-Round ticks z limit w stop w' e in
    let (a, b, c) = cross-same ticks z _ _ _ _ _ _ r.cross_eq in
    let (few, way) = swap_step-used z _ _ _ _ r.step r.step_eq in omega (arith, a, few)

pub walk-remaining :
    (ticks : Ticks) (z : Bool) (limit fuel : ℕ) (w w' : Walk)
    → w.remaining < u256_mod
    → walk ticks z limit fuel w ≡ some (ok w')
    → w'.remaining ≤ w.remaining
unfolding walk
walk-remaining ticks z limit zero w w' h e = cc
walk-remaining ticks z limit (suc fuel) w w' h e =
    elim (Bool-cases (w.remaining == 0 || w.sqrt == limit)) [
      | inl c ↦ ground arith
      | inr c ↦ elim (Result-cases (round ticks z limit w)) [
        | inl (x, q) ↦ ground arith
        | inr ((true, v), q) ↦ ground (arith, round-remaining ticks z limit w true v h q)
        | inr ((false, v), q) ↦
            let less = round-remaining ticks z limit w false v h q in
            ground (arith, less, walk-remaining ticks z limit fuel v w' (omega (arith, less)))
      ]
    ]

-- Crossing a tick: its net liquidity is taken off on the way down, added on the way up.
abbrev pub cross_liquidity : Ticks → Bool → ℕ → ℤ → Result ℕ
cross_liquidity ticks z l t = elim (get_tick t ticks) [
  | none ↦ err overflow
  | some info ↦ (if z then negated info.net else ok info.net) >>= λ net. checked_add_signed l net
]

-- The crossed ticks one after the other: the liquidity after them.
abbrev pub replay : Ticks → Bool → ℕ → List ℤ → Result ℕ
replay ticks z l [] = ok l
replay ticks z l (t ∷ ts) = cross_liquidity ticks z l t >>= λ l'. replay ticks z l' ts

replay-append :
    (ticks : Ticks) (z : Bool) (l : ℕ) (xs : List ℤ) (t : ℤ) (m m' : ℕ)
    → replay ticks z l xs ≡ ok m
    → cross_liquidity ticks z m t ≡ ok m'
    → replay ticks z l (xs ++ t ∷ []) ≡ ok m'
replay-append ticks z l [] t m m' e h = ground arith
replay-append ticks z l (x ∷ xs) t m m' e h =
    let (l', c, r) = >>=-eq-ok (cross_liquidity ticks z l x) (λ k. replay ticks z k xs) e in
    ap (λ r. r >>= λ k. replay ticks z k (xs ++ t ∷ [])) c ∙ replay-append ticks z l' xs t m m' r h

-- Either nothing was crossed and the liquidity is the same, or the tick was.
cross-replays :
    (ticks : Ticks) (z : Bool) (next_tick : ℤ) (sqrt_next start l : ℕ) (w : Walk) (b : Bool)
    (w' : Walk)
    → cross ticks z next_tick sqrt_next start w ≡ ok (b, w')
    → replay ticks z l w.crossed ≡ ok w.liquidity
    → replay ticks z l w'.crossed ≡ ok w'.liquidity
unfolding cross
cross-replays ticks z next_tick sqrt_next start l w b w' e h =
    ground (arith, replay-append ticks z l w.crossed next_tick w.liquidity w'.liquidity h)

round-replays :
    (ticks : Ticks) (z : Bool) (limit l : ℕ) (w : Walk) (stop : Bool) (w' : Walk)
    → round ticks z limit w ≡ ok (stop, w')
    → replay ticks z l w.crossed ≡ ok w.liquidity
    → replay ticks z l w'.crossed ≡ ok w'.liquidity
round-replays ticks z limit l w stop w' e h =
    let r = round-Round ticks z limit w stop w' e in
    cross-replays ticks z _ _ _ l (moved r.step w) _ w' r.cross_eq h

pub walk-replays :
    (ticks : Ticks) (z : Bool) (limit l fuel : ℕ) (w w' : Walk)
    → walk ticks z limit fuel w ≡ some (ok w')
    → replay ticks z l w.crossed ≡ ok w.liquidity
    → replay ticks z l w'.crossed ≡ ok w'.liquidity
unfolding walk
walk-replays ticks z limit l zero w w' e h = cc
walk-replays ticks z limit l (suc fuel) w w' e h =
    elim (Bool-cases (w.remaining == 0 || w.sqrt == limit)) [
      | inl c ↦ ground arith
      | inr c ↦ elim (Result-cases (round ticks z limit w)) [
        | inl (x, q) ↦ ground arith
        | inr ((true, v), q) ↦ ground (arith, round-replays ticks z limit l w true v q h)
        | inr ((false, v), q) ↦ ground (
          arith,
          walk-replays ticks z limit l fuel v w',
          round-replays ticks z limit l w false v q h,
        )
      ]
    ]
