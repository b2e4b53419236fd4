-- ===== src/History/Scan/Complete.antt =====
-- A scan covers its range of blocks: every block once, in chain order, or an error that says why.
use perpcity_rust_sdk.Base.{
  ℕ, zero, suc, ◌+◌, ◌-◌, ◌≤◌, ◌<◌, ◌≡◌, ◌⊎◌, inl, inr, refl, sym, ap, ◌∙◌, subst, min, List, [],
  ◌++◌, Option, some, none, Bool, ltb, ◌&&◌, Bool-cases, ltb→lt, arith,
}
use mathlib.Core.List.{append_assoc}
use perpcity_rust_sdk.Base.Word.{u64_max, sat_add64}
use perpcity_rust_sdk.Transport.Fault.{ErrorPayload}
use perpcity_rust_sdk.History.Width.Bounds.{IsSearch}
use perpcity_rust_sdk.History.Scan.{
  Answer, Client, Scanned, ok, err, ScanError, logs_rejected, no_answer, invalid_block_range,
  read_window, window_end, after_window, windows_loop, check_block_range, scan_all,
}
use perpcity_rust_sdk.History.Scan.Blocks.{blocks, blocks-add, IsHonest, Blames, IsServing}
use perpcity_rust_sdk.History.Scan.Window.{Ended, read_window-Ended}

module _ {Log : Type 0} (chain : ℕ → List Log) (is_retry_err : ErrorPayload → Bool)
    (ask : ℕ → ℕ → ℕ → Answer Log × ℕ) where
  window-Ended :
      (again : ℕ → List Log → Client → Option (Scanned (List Log) × Client)) (low to high : ℕ)
      (logs : List Log) (r : Option (Scanned (List Log) × Client))
      → ((low' : ℕ) (logs' : List Log) (c' : Client)
          → low < low'
          → low' ≤ to
          → IsSearch c'.state.search
          → Ended chain is_retry_err ask
              (logs' ++ blocks chain low' (to - low' + 1))
              (again low' logs' c'))
      → low ≤ high
      → high ≤ to
      → to ≤ u64_max
      → Ended chain is_retry_err ask (blocks chain low (high - low + 1)) r
      → Ended chain is_retry_err ask
          (logs ++ blocks chain low (to - low + 1))
          (after_window is_retry_err ask again high to logs r)
  unfolding after_window
  window-Ended again low to high logs none ih a b u h = absurd h
  window-Ended again low to high logs (some (err e, c)) ih a b u h = h
  window-Ended again low to high logs (some (ok l, c)) ih a b u (h, i) =
      elim (Bool-cases (ltb high to && ltb high u64_max)) [
        | inl q ↦
            let less : high < to = ground arith in
            let whole =
              blocks-add chain low (high - low + 1) (to - (high + 1) + 1) (to - low + 1) (high + 1)
                (omega arith) (omega arith) in
            let rest = ih (high + 1) (logs ++ l) c (omega arith) (omega arith) i in
            rw (q, after_window, Ended)
              (subst (λ x. Ended chain is_retry_err ask x (again (high + 1) (logs ++ l) c))
                (append_assoc logs l (blocks chain (high + 1) (to - (high + 1) + 1))
                  ∙ ap (λ x. logs ++ (x ++ blocks chain (high + 1) (to - (high + 1) + 1))) h
                  ∙ ap (λ x. logs ++ x) (sym whole))
                rest)
        | inr q ↦
            let last : high ≡ to = ground arith in
            rw (q, after_window, Ended)
              (ap (λ x. logs ++ x) (h ∙ ap (λ x. blocks chain low (x - low + 1)) last), i)
      ]

  windows_loop-Ended :
      (fuel to low : ℕ) (logs : List Log) (c : Client)
      → IsHonest chain ask
      → low ≤ to
      → to ≤ u64_max
      → to - low + 1 ≤ fuel
      → IsSearch c.state.search
      → Ended chain is_retry_err ask
          (logs ++ blocks chain low (to - low + 1))
          (windows_loop is_retry_err ask fuel to low logs c)
  unfolding windows_loop window_end
  windows_loop-Ended zero to low logs c honest le u n i = absurd (omega arith)
  windows_loop-Ended (suc fuel) to low logs c honest le u n i =
      let high = min (sat_add64 low (c.state.search.next - 1)) to in
      let p = i.positive in
      window-Ended (windows_loop is_retry_err ask fuel to) low to high logs
        (read_window is_retry_err ask low high c)
        (λ low' logs' c' a b j. windows_loop-Ended fuel to low' logs' c' honest b u (omega arith) j)
        (omega arith) (omega arith) u
        (read_window-Ended chain is_retry_err ask low high c honest (omega arith) i)

  -- What a scan returns: all of the logs of the range, an error for a range that ends before it
  -- starts, or an error that the server caused.
  abbrev pub Covers : ℕ → ℕ → Option (Scanned (List Log) × Client) → Type 0
  Covers from_block to_block none = ⊥
  Covers from_block to_block (some (ok l, c)) =
      (from_block ≤ to_block)
      × (l ≡ blocks chain from_block (to_block - from_block + 1))
      × IsSearch c.state.search
  Covers from_block to_block (some (err e, c)) =
      ((to_block < from_block) × (e ≡ invalid_block_range from_block to_block))
      ⊎ ((from_block ≤ to_block) × Blames is_retry_err ask e)

  Ended-Covers :
      (from_block to_block : ℕ) (r : Option (Scanned (List Log) × Client))
      → from_block ≤ to_block
      → Ended chain is_retry_err ask (blocks chain from_block (to_block - from_block + 1)) r
      → Covers from_block to_block r
  Ended-Covers a b none le h = absurd h
  Ended-Covers a b (some (ok l, c)) le (h, i) = (le, h, i)
  Ended-Covers a b (some (err e, c)) le h = inr (le, h)

  -- A scan against an honest server, from widths in order and of a range that ends within 64 bits,
  -- ends, whatever the server refuses: with every log of the range in chain order and the widths
  -- in order, or with the error of a range that ends before it starts, or with one that names an
  -- answer of the server that no narrower request would mend.
  pub scan-Covers :
      (from_block to_block : ℕ) (c : Client)
      → IsHonest chain ask
      → to_block ≤ u64_max
      → IsSearch c.state.search
      → Covers from_block to_block (scan_all is_retry_err ask from_block to_block c)
  unfolding scan_all check_block_range
  scan-Covers from_block to_block c honest u i = elim (Bool-cases (ltb to_block from_block)) [
    | inl q ↦ rw (q, scan_all, check_block_range, Covers) (inl (ltb→lt to_block from_block q, refl))
    | inr q ↦
        let le : from_block ≤ to_block = ground arith in
        rw (q, scan_all, check_block_range, Covers)
          (Ended-Covers from_block to_block
            (windows_loop is_retry_err ask (to_block - from_block + 1) to_block from_block [] c) le
            (windows_loop-Ended (to_block - from_block + 1) to_block from_block [] c honest le u
              (omega arith) i))
  ]

  serves_no-Blames : (e : ScanError) → IsServing is_retry_err ask → Blames is_retry_err ask e → ⊥
  serves_no-Blames (logs_rejected a b t) serving (k, h, inl (e, q)) =
      let less = (serving k a b t h).0 in absurd (omega (arith, less))
  serves_no-Blames (logs_rejected a b t) serving (k, h, inr q) =
      let one = (serving k a b t h).1 in cc
  serves_no-Blames (no_answer t) serving (k, a, b, h, q) = let one = (serving k a b t h).1 in cc
  serves_no-Blames (invalid_block_range a b) serving h = h

  Covers-served :
      (from_block to_block : ℕ) (r : Option (Scanned (List Log) × Client))
      → from_block ≤ to_block
      → IsServing is_retry_err ask
      → Covers from_block to_block r
      → (c' : Client) × (r ≡ some (ok (blocks chain from_block (to_block - from_block + 1)), c'))
  Covers-served a b none le serving h = absurd h
  Covers-served a b (some (ok l, c)) le serving (i, h, s) = (c, ap (λ x. some (ok x, c)) h)
  Covers-served a b (some (err e, c)) le serving (inl (less, q)) = absurd (omega arith)
  Covers-served a b (some (err e, c)) le serving (inr (i, h)) =
      absurd (serves_no-Blames e serving h)

  -- Where an honest server rejects nothing but ranges of several blocks, a scan from widths in
  -- order, of a range that is not empty and ends within 64 bits, returns all of its logs, in chain
  -- order.
  pub scan_completes :
      (from_block to_block : ℕ) (c : Client)
      → IsHonest chain ask
      → IsServing is_retry_err ask
      → from_block ≤ to_block
      → to_block ≤ u64_max
      → IsSearch c.state.search
      → (c' : Client) × (scan_all is_retry_err ask from_block to_block c
          ≡ some (ok (blocks chain from_block (to_block - from_block + 1)), c'))
  scan_completes from_block to_block c honest serving le u i =
      Covers-served from_block to_block (scan_all is_retry_err ask from_block to_block c) le serving
        (scan-Covers from_block to_block c honest u i)
