-- ===== src/Math/Taker/First.antt =====
-- What the search returns.
use perpcity_rust_sdk.Base.{
  ℕ, ◌≤◌, ◌<◌, ◌≡◌, ◌≢◌, Option, some, none, Bool, true, false, leb, arith, Bool-cases,
  Option-cases, inl, inr,
}
use perpcity_rust_sdk.Math.Taker.Search.{gap, start_of, bracket, first_failing}
use perpcity_rust_sdk.Math.Taker.Turn.{
  IsBounded, IsMonotone, Beyond, bisect_lem, gallop_back_lem, gallop_out_lem,
}
use perpcity_rust_sdk.Math.Taker.Ends.{bracket-ne_none, bisect_ends}

-- What stands closer to the mark.
abbrev pub Before : Bool → ℕ → ℕ → Type 0
Before true x y = x < y
Before false x y = y < x

module _ (fails : ℕ → Option Bool) where
  bracket_lem :
      (up : Bool) (mark start h f : ℕ)
      → bracket fails up mark start ≡ some (some (h, f))
      → (fails h ≡ some false) × (fails f ≡ some true)
  unfolding bracket
  bracket_lem up mark start h f r = elim (Option-cases (fails start)) [
    | inl n ↦ absurd (ground arith)
    | inr (true, e) ↦ gallop_back_lem fails up mark start 258 1 start h f e (ground arith)
    | inr (false, e) ↦ gallop_out_lem fails up mark start 258 1 start h f e (ground arith)
  ]

  -- For a test that has no answer from 2^255 on, as that of `is_liquidatable_at`, and a mark that
  -- passes it, the search ends within the fuel of the model, from every turn.
  pub first_failing-ends :
      (up : Bool) (mark turn : ℕ)
      → IsBounded fails
      → fails mark ≡ some false
      → first_failing fails up mark turn ≢ none
  unfolding first_failing
  first_failing-ends up mark turn bounded em =
      let start = start_of fails up mark turn in
      let ends = bracket-ne_none fails bounded up mark start em in
      elim (Option-cases (bracket fails up mark start)) [
        | inl n ↦ absurd (ends n)
        | inr (none, e) ↦ ground arith
        | inr (some (h, f), e) ↦
            let (eh, ef) = bracket_lem up mark start h f e in
            let last = bisect_ends fails bounded h f false true eh ef in ground arith
      ]

  first_failing-turn :
      (up : Bool) (mark turn r : ℕ)
      → first_failing fails up mark turn ≡ some (some r)
      → (fails r ≡ some true) × ((h : ℕ) × (fails h ≡ some false) × (gap h r ≤ 1))
  unfolding first_failing
  first_failing-turn up mark turn r e =
      let start = start_of fails up mark turn in
      elim (Option-cases (bracket fails up mark start)) [
        | inl n ↦ absurd (ground arith)
        | inr (none, q) ↦ absurd (ground arith)
        | inr (some (h, f), q) ↦
            let (eh, ef) = bracket_lem up mark start h f q in
            bisect_lem fails 257 h f r eh ef (ground arith)
      ]

  Before-turn :
      (up : Bool) (h r x : ℕ)
      → IsMonotone fails up
      → fails h ≡ some false
      → fails r ≡ some true
      → gap h r ≤ 1
      → Before up x r
      → Beyond fails up x h
  Before-turn true h r x mono eh er near before = elim (Bool-cases (leb r h)) [
    | inl c ↦ let no = mono r h false (ground arith) er eh in absurd (ground arith)
    | inr c ↦ grind arith
  ]
  Before-turn false h r x mono eh er near before = elim (Bool-cases (leb h r)) [
    | inl c ↦ let no = mono r h false (ground arith) er eh in absurd (ground arith)
    | inr c ↦ grind arith
  ]

  -- For a test that, once it fails, fails further away, the mark that the search returns fails, and
  -- no mark before it does.
  pub first_failing-first :
      (up : Bool) (mark turn r : ℕ)
      → IsMonotone fails up
      → first_failing fails up mark turn ≡ some (some r)
      → (fails r ≡ some true) × ((x : ℕ) → Before up x r → fails x ≢ some true)
  first_failing-first up mark turn r mono e =
      let (er, (h, eh, near)) = first_failing-turn up mark turn r e in
      (
        er,
        λ x before ex.
            let further = Before-turn up h r x mono eh er near before in
            let no = mono x h false further ex eh in absurd (ground arith),
      )
