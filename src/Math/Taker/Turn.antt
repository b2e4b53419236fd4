-- ===== src/Math/Taker/Turn.antt =====
-- The search ends, and what it finds is the first mark at which a monotone test fails.
use perpcity_rust_sdk.Base.{
  ℕ, zero, suc, ◌+◌, ◌*◌, ◌/◌, ◌%◌, ◌≤◌, ◌<◌, ◌≡◌, ◌≢◌, sym, ap, ◌∙◌, min, Option, some, none, Bool,
  true, false, ltb, ◌==◌, arith, Bool-cases, Option-cases, inl, inr,
}
use perpcity_rust_sdk.Math.FixedPoint.{u256_mod, i256_half}
use perpcity_rust_sdk.Math.Taker.Search.{away, toward, gap, gallop_back, gallop_out, bisect}

abbrev pub power : ℕ → ℕ
power zero = 1
power (suc i) = power i * 2

pub power_pos : (i : ℕ) → 0 < power i
power_pos zero = omega arith
power_pos (suc i) = omega (arith, power_pos i)

pub power_mono : (i j k : ℕ) → i + j ≡ k → power i ≤ power k
power_mono i j zero h = let z : i ≡ 0 = omega arith in omega (arith, ap power z)
power_mono i zero (suc k) h = let z : i ≡ suc k = omega arith in omega (arith, ap power z)
power_mono i (suc j) (suc k) h = omega (arith, power_mono i j k (omega arith), power_pos k)

module _ (fails : ℕ → Option Bool) where
  -- A test that has an answer only below 2^255.
  abbrev pub IsBounded : Type 0
  IsBounded = (x : ℕ) (b : Bool) → fails x ≡ some b → x < i256_half

  -- What stands further away from the mark.
  abbrev pub Beyond : Bool → ℕ → ℕ → Type 0
  Beyond true x y = x ≤ y
  Beyond false x y = y ≤ x

  -- A test that, once it fails, fails further away.
  abbrev pub IsMonotone : Bool → Type 0
  IsMonotone up =
      (x y : ℕ) (b : Bool) → Beyond up x y → fails x ≡ some true → fails y ≡ some b → b ≡ true

  pub bisect-ne_none :
      (k healthy failing : ℕ)
      → gap healthy failing ≤ power k
      → bisect fails (suc k) healthy failing ≢ none
  unfolding bisect
  bisect-ne_none zero h f g = ground arith
  bisect-ne_none (suc k) h f g = elim (Bool-cases (ltb 1 (gap h f))) [
    | inr c ↦ ground arith
    | inl c ↦
        let mid = min h f + gap h f / 2 in
        let near : gap h mid ≤ power k = ground arith in
        let far : gap mid f ≤ power k = ground arith in
        elim (Option-cases (fails mid)) [
          | inl n ↦ ground arith
          | inr (true, e) ↦ ground (arith, bisect-ne_none k h mid near)
          | inr (false, e) ↦ ground (arith, bisect-ne_none k mid f far)
        ]
  ]

  pub bisect_lem :
      (fuel healthy failing turn : ℕ)
      → fails healthy ≡ some false
      → fails failing ≡ some true
      → bisect fails fuel healthy failing ≡ some (some turn)
      → (fails turn ≡ some true) × ((h : ℕ) × (fails h ≡ some false) × (gap h turn ≤ 1))
  unfolding bisect
  bisect_lem zero h f turn eh ef r = cc
  bisect_lem (suc fuel) h f turn eh ef r = elim (Bool-cases (ltb 1 (gap h f))) [
    | inr c ↦
        let same : f ≡ turn = ground arith in (ap fails (sym same) ∙ ef, (h, eh, ground arith))
    | inl c ↦
        let mid = min h f + gap h f / 2 in
        elim (Option-cases (fails mid)) [
          | inl n ↦ absurd (ground arith)
          | inr (true, e) ↦ bisect_lem fuel h mid turn eh e (ground arith)
          | inr (false, e) ↦ bisect_lem fuel mid f turn e ef (ground arith)
        ]
  ]

  pub gallop_back_lem :
      (up : Bool) (mark start fuel width failing h f : ℕ)
      → fails failing ≡ some true
      → gallop_back fails up mark start fuel width failing ≡ some (some (h, f))
      → (fails h ≡ some false) × (fails f ≡ some true)
  unfolding gallop_back
  gallop_back_lem up mark start zero width failing h f e r = cc
  gallop_back_lem up mark start (suc fuel) width failing h f e r =
      let next = toward up mark start width in
      elim (Option-cases (fails next)) [
        | inl n ↦ absurd (ground arith)
        | inr (false, q) ↦ (ground arith, ground arith)
        | inr (true, q) ↦
            gallop_back_lem up mark start fuel (width * 2 % u256_mod) next h f q (ground arith)
      ]

  pub gallop_out_lem :
      (up : Bool) (mark start fuel width healthy h f : ℕ)
      → fails healthy ≡ some false
      → gallop_out fails up mark start fuel width healthy ≡ some (some (h, f))
      → (fails h ≡ some false) × (fails f ≡ some true)
  unfolding gallop_out
  gallop_out_lem up mark start zero width healthy h f e r = cc
  gallop_out_lem up mark start (suc fuel) width healthy h f e r =
      let next = away up start width in
      elim (Bool-cases (next == healthy)) [
        | inl c ↦ absurd (ground arith)
        | inr c ↦ elim (Option-cases (fails next)) [
          | inl n ↦ absurd (ground arith)
          | inr (true, q) ↦ (ground arith, ground arith)
          | inr (false, q) ↦
              gallop_out_lem up mark start fuel (width * 2 % u256_mod) next h f q (ground arith)
        ]
      ]
