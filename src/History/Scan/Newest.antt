-- ===== src/History/Scan/Newest.antt =====
-- The scan from the newest block down, `scan_newest` of src/history/scan.rs: each pull reads the blocks
-- just below those before it.
use mathlib.Core.Option
use perpcity_rust_sdk.Base.{
  ℕ, zero, suc, ◌+◌, ◌-◌, ◌≤◌, ◌<◌, ◌≡◌, inl, inr, refl, min, max, List, Option, some, none, Bool,
  leb, ◌==◌, Bool-cases, if◌then◌else◌, arith,
}
use perpcity_rust_sdk.Transport.Fault.{ErrorPayload}
use perpcity_rust_sdk.History.Width.Bounds.{IsSearch}
use perpcity_rust_sdk.History.Scan.{Answer, Client, Scanned, ok, err, attempt}
use perpcity_rust_sdk.History.Scan.Blocks.{blocks, IsHonest, Blames}
use perpcity_rust_sdk.History.Scan.Window.{Brings, attempt-Brings}

module _ {Log : Type 0} (is_retry_err : ErrorPayload → Bool)
    (ask : ℕ → ℕ → ℕ → Answer Log × ℕ) where
  -- What the loop of `scan_newest` does with the outcome of a request.
  unfoldable pub after_newest :
      (Client → Option (Scanned (List Log × Option ℕ) × Client))
      → ℕ
      → Scanned (Option (List Log))
      → Client
      → Option (Scanned (List Log × Option ℕ) × Client)
  after_newest again low (err e) c = some (err e, c)
  after_newest again low (ok none) c = again c
  after_newest again low (ok (some chunk)) c =
      some (ok (chunk, if low == 0 then none else some (low - 1)), c)

  -- That loop, on fuel: the chunk that ends at `high`, and the next top.
  unfoldable pub newest_loop : ℕ → ℕ → ℕ → Client → Option (Scanned (List Log × Option ℕ) × Client)
  unfolding attempt after_newest
  newest_loop zero from_block high c = none
  newest_loop (suc fuel) from_block high c =
      let low = max (high - (c.state.search.next - 1)) from_block in
      let r = attempt is_retry_err ask low high c in
      after_newest (newest_loop fuel from_block high) low r.0 r.1

  -- One pull on the stream of `scan_newest` that stands at `top`; no chunk is its end.
  unfoldable pub scan_newest :
      ℕ → Option ℕ → Client → Option (Option (Scanned (List Log × Option ℕ)) × Client)
  unfolding newest_loop
  scan_newest from_block none c = some (none, c)
  scan_newest from_block (some high) c =
      if leb from_block high
      then Option.map (λ r. (some r.0, r.1)) (newest_loop (high - from_block + 2) from_block high c)
      else some (none, c)

module _ {Log : Type 0} (chain : ℕ → List Log) (is_retry_err : ErrorPayload → Bool)
    (ask : ℕ → ℕ → ℕ → Answer Log × ℕ) where
  -- A chunk that ends at `high`, with the next top just below it, or an error of the server.
  abbrev pub Chunked : ℕ → ℕ → Option (Scanned (List Log × Option ℕ) × Client) → Type 0
  Chunked from_block high none = ⊥
  Chunked from_block high (some (err e, c)) = Blames is_retry_err ask e
  Chunked from_block high (some (ok (chunk, top), c)) =
      (low : ℕ) × (from_block ≤ low)
      × (low ≤ high)
      × (chunk ≡ blocks chain low (high - low + 1))
      × (top ≡ (if low == 0 then none else some (low - 1)))
      × IsSearch c.state.search

  newest_round :
      (again : Client → Option (Scanned (List Log × Option ℕ) × Client))
      (from_block low high budget : ℕ) (r : Scanned (Option (List Log))) (c : Client)
      → ((c' : Client)
          → IsSearch c'.state.search
          → min c'.state.search.next (high - from_block + 1) < budget
          → Chunked from_block high (again c'))
      → from_block ≤ low
      → low ≤ high
      → high - low + 1 ≤ budget
      → Brings chain is_retry_err ask low high r c
      → Chunked from_block high (after_newest is_retry_err ask again low r c)
  unfolding after_newest
  newest_round again from_block low high budget (err e) c ih a b n h = h
  newest_round again from_block low high budget (ok none) c ih a b n (less, i, narrow) =
      ih c i (omega arith)
  newest_round again from_block low high budget (ok (some chunk)) c ih a b n (h, i) =
      (low, a, b, h, refl, i)

  newest_loop-Chunked :
      (fuel from_block high : ℕ) (c : Client)
      → IsHonest chain ask
      → from_block ≤ high
      → IsSearch c.state.search
      → min c.state.search.next (high - from_block + 1) < fuel
      → Chunked from_block high (newest_loop is_retry_err ask fuel from_block high c)
  unfolding newest_loop
  newest_loop-Chunked zero from_block high c honest le i h = absurd (omega arith)
  newest_loop-Chunked (suc fuel) from_block high c honest le i h =
      let low = max (high - (c.state.search.next - 1)) from_block in
      let r = attempt is_retry_err ask low high c in
      let p = i.positive in
      newest_round (newest_loop is_retry_err ask fuel from_block high) from_block low high fuel r.0
        r.1 (λ c' j k. newest_loop-Chunked fuel from_block high c' honest le j k) (omega arith)
        (omega arith) (omega (arith, p))
        (attempt-Brings chain is_retry_err ask low high c honest (omega arith) i)

  -- A pull on the stream: its end, where no block is left, or the next chunk down.
  abbrev pub Pulled :
      ℕ → Option ℕ → Option (Option (Scanned (List Log × Option ℕ)) × Client) → Type 0
  Pulled from_block top none = ⊥
  Pulled from_block none (some (none, c)) = Unit
  Pulled from_block none (some (some r, c)) = ⊥
  Pulled from_block (some high) (some (none, c)) = high < from_block
  Pulled from_block (some high) (some (some r, c)) =
      (from_block ≤ high) × Chunked from_block high (some (r, c))

  pull_lem :
      (from_block high : ℕ) (r : Option (Scanned (List Log × Option ℕ) × Client))
      → from_block ≤ high
      → Chunked from_block high r
      → Pulled from_block (some high) (Option.map (λ p. (some p.0, p.1)) r)
  pull_lem from_block high none le h = absurd h
  pull_lem from_block high (some (r, c)) le h = (le, h)

  -- A pull on a scan from the newest block, of an honest server and from widths in order, ends:
  -- the stream ends just where no block is left below its top, and else gives the logs of the
  -- blocks from some `low` to the top, with the next top just below, or an error that the server
  -- caused.
  pub scan_newest_pulls :
      (from_block : ℕ) (top : Option ℕ) (c : Client)
      → IsHonest chain ask
      → IsSearch c.state.search
      → Pulled from_block top (scan_newest is_retry_err ask from_block top c)
  unfolding scan_newest
  scan_newest_pulls from_block none c honest i = tt
  scan_newest_pulls from_block (some high) c honest i = elim (Bool-cases (leb from_block high)) [
    | inl q ↦
        let le : from_block ≤ high = ground arith in
        rw (q, Pulled)
          (pull_lem from_block high
            (newest_loop is_retry_err ask (high - from_block + 2) from_block high c) le
            (newest_loop-Chunked (high - from_block + 2) from_block high c honest le i
              (omega arith)))
    | inr q ↦ let less : high < from_block = ground arith in rw (q, Pulled) less
  ]
