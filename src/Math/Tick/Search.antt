-- ===== src/Math/Tick/Search.antt =====
-- The binary search for the tick of a square-root price.
use perpcity_rust_sdk.Base.{
  ℕ, zero, suc, ◌-◌, ◌*◌, ◌/◌, ◌<◌, ◌≤◌, ◌≡◌, refl, true, false, ltb, leb, ◌||◌, if◌then◌else◌,
  arith, Bool-cases, inl, inr, ◌⊎◌, lt→ltb, leb→le,
}
use perpcity_rust_sdk.Base.Int.{ℤ, pos, ◌+ℤ◌, ◌-ℤ◌, ◌≤ℤ◌, ◌<ℤ◌, abs, ltb_ℤ, int_laws, +ℤ_parts}
use perpcity_rust_sdk.Base.Result.{Result, ok, err, invalid_price, ◌>>=◌}
use perpcity_rust_sdk.Math.Tick.{
  half, search, min_tick, max_tick, uniswap_max_tick, get_sqrt_ratio_at_tick,
  get_tick_at_sqrt_ratio,
}

abbrev pow2 : ℕ → ℕ
pow2 zero = 1
pow2 (suc n) = 2 * pow2 n

-- The middle of a range of width w.
mid_lem : (lo : ℤ) (w : ℕ) → lo +ℤ half ((lo +ℤ pos w) -ℤ lo) ≡ lo +ℤ pos (w / 2)
mid_lem lo w = let e : (lo +ℤ pos w) -ℤ lo ≡ pos w = omega int_laws in rw e

-- The tick's price is at most the given one, and the next tick's is above it.
abbrev pub Brackets : (ℤ → Result ℕ) → ℕ → ℤ → Type 0
Brackets ratio sqrt t =
    ((a : ℕ) × (ratio t ≡ ok a) × (a ≤ sqrt)) × ((b : ℕ) × (ratio (t +ℤ pos 1) ≡ ok b) × (sqrt < b))

split_width : (lo : ℤ) (w : ℕ) → lo +ℤ pos (w / 2) +ℤ pos (w - w / 2) ≡ lo +ℤ pos w
split_width lo w = omega int_laws

module _ (ratio : ℤ → Result ℕ) (sqrt : ℕ) where
  abbrev Found : ℤ → ℤ → Result ℤ → Type 0
  Found lo hi r = (t : ℤ) × (r ≡ ok t) × Brackets ratio sqrt t × (lo ≤ℤ t) × (t +ℤ pos 1 ≤ℤ hi)

  abbrev Total : ℤ → ℤ → Type 0
  Total lo hi = (t : ℤ) → lo ≤ℤ t → t ≤ℤ hi → (x : ℕ) × (ratio t ≡ ok x)

  Found-mono :
      (lo hi lo' hi' : ℤ) (r : Result ℤ) → lo ≤ℤ lo' → hi' ≤ℤ hi → Found lo' hi' r → Found lo hi r
  Found-mono lo hi lo' hi' r h k (t, e, b, l, u) = (t, e, b, omega arith, omega arith)

  no_width :
      (lo : ℤ) (a b : ℕ) → ratio lo ≡ ok a → a ≤ sqrt → ratio (lo +ℤ pos 0) ≡ ok b → sqrt < b → ⊥
  no_width lo a b ea la eb lb = let z : lo +ℤ pos 0 ≡ lo = omega int_laws in ground (arith, z)

  -- One round over a range that has an inner tick.
  step :
      (fuel : ℕ) (lo hi mid : ℤ) (x : ℕ)
      → lo +ℤ pos 1 <ℤ hi
      → lo +ℤ half (hi -ℤ lo) ≡ mid
      → ratio mid ≡ ok x
      → search ratio sqrt (suc fuel) lo hi
        ≡ (if leb x sqrt then search ratio sqrt fuel mid hi else search ratio sqrt fuel lo mid)
  unfolding search
  step fuel lo hi mid x h m e =
      let go : ltb_ℤ (lo +ℤ pos 1) hi ≡ true = lt→ltb _ _ h in
      elim (Bool-cases (leb x sqrt)) [
        | inl c ↦ rw (go, search) (rw m (rw (e, ◌>>=◌) (rw (c, m))))
        | inr c ↦ rw (go, search) (rw m (rw (e, ◌>>=◌) (rw (c, m))))
      ]

  search-Found :
      (fuel : ℕ) (lo : ℤ) (w a b : ℕ)
      → Total lo (lo +ℤ pos w)
      → w ≤ pow2 fuel
      → ratio lo ≡ ok a
      → a ≤ sqrt
      → ratio (lo +ℤ pos w) ≡ ok b
      → sqrt < b
      → Found lo (lo +ℤ pos w) (search ratio sqrt fuel lo (lo +ℤ pos w))
  unfolding search
  search-Found fuel lo zero a b total wide ea la eb lb = absurd (no_width lo a b ea la eb lb)
  search-Found zero lo (suc zero) a b total wide ea la eb lb =
      (lo, refl, ((a, ea, la), (b, eb, lb)), omega arith, omega arith)
  search-Found (suc fuel) lo (suc zero) a b total wide ea la eb lb =
      (lo, ground arith, ((a, ea, la), (b, eb, lb)), omega arith, omega arith)
  search-Found zero lo (suc (suc v)) a b total wide ea la eb lb = absurd (omega arith)
  search-Found (suc fuel) lo (suc (suc v)) a b total wide ea la eb lb =
      let w = suc (suc v) in
      let mid = lo +ℤ pos (w / 2) in
      let (x, ex) = total mid (omega int_laws) (omega int_laws) in
      rw (step fuel lo (lo +ℤ pos w) mid x (omega int_laws) (mid_lem lo w) ex)
        (elim (Bool-cases (leb x sqrt)) [
          | inl c ↦
              rw (c, ← split_width lo w)
                (Found-mono lo _ mid _ _ (omega int_laws) (omega int_laws) (
                  search-Found fuel mid (w - w / 2) x b
                    (λ t l u. total t (omega int_laws) (omega int_laws)) (omega arith) ex
                    (leb→le _ _ c) (rw (split_width lo w) eb) lb))
          | inr c ↦ rw c (
              Found-mono lo _ lo mid _ (omega int_laws) (omega int_laws) (
                search-Found fuel lo (w / 2) a x
                  (λ t l u. total t (omega int_laws) (omega int_laws)) (omega arith) ea la ex
                  (ground arith)))
        ])

-- The ratio function returns a number on each tick in the protocol's range.
in_range : (t : ℤ) → min_tick ≤ℤ t → t ≤ℤ max_tick → (x : ℕ) × (get_sqrt_ratio_at_tick t ≡ ok x)
unfolding get_sqrt_ratio_at_tick
in_range t l u =
    let small : ltb uniswap_max_tick (abs t) ≡ false = ground arith in rw small (_, refl)

-- A square-root price from the lowest tick's to below the highest tick's is given the tick whose
-- price is at most it and whose successor's price is above it; every other price is refused.
pub get_tick_at_sqrt_ratio-Brackets :
    (lowest highest sqrt : ℕ)
    → get_sqrt_ratio_at_tick min_tick ≡ ok lowest
    → get_sqrt_ratio_at_tick max_tick ≡ ok highest
    → (lowest ≤ sqrt
        → sqrt < highest
        → (t : ℤ) × (get_tick_at_sqrt_ratio sqrt ≡ ok t)
          × Brackets get_sqrt_ratio_at_tick sqrt t
          × (min_tick ≤ℤ t)
          × (t +ℤ pos 1 ≤ℤ max_tick))
      × ((sqrt < lowest) ⊎ (highest ≤ sqrt) → get_tick_at_sqrt_ratio sqrt ≡ err invalid_price)
unfolding get_tick_at_sqrt_ratio ◌+ℤ◌
get_tick_at_sqrt_ratio-Brackets lowest highest sqrt el eh = (found, refused)
  where
    width : max_tick ≡ min_tick +ℤ pos 1774544
    width = omega int_laws

    found :
        lowest ≤ sqrt
        → sqrt < highest
        → (t : ℤ) × (get_tick_at_sqrt_ratio sqrt ≡ ok t)
          × Brackets get_sqrt_ratio_at_tick sqrt t
          × (min_tick ≤ℤ t)
          × (t +ℤ pos 1 ≤ℤ max_tick)
    found l h =
        let inside : (ltb sqrt lowest || leb highest sqrt) ≡ false = ground arith in
        rw (el, eh, inside, get_tick_at_sqrt_ratio)
          (rw width (
            search-Found get_sqrt_ratio_at_tick sqrt 21 min_tick 1774544 lowest highest
              (λ t lo hi. in_range t lo (omega (arith, +ℤ_parts min_tick (pos 1774544))))
              (omega arith) el l (rw (← width) eh) h))

    refused : (sqrt < lowest) ⊎ (highest ≤ sqrt) → get_tick_at_sqrt_ratio sqrt ≡ err invalid_price
    refused o =
        let outside : (ltb sqrt lowest || leb highest sqrt) ≡ true = ground arith in
        rw (el, eh, outside, get_tick_at_sqrt_ratio)
