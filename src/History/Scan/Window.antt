-- ===== src/History/Scan/Window.antt =====
-- A window is read to its end, whatever its server does: with all of its logs, or with an error that
-- the server gave.
use perpcity_rust_sdk.Base.{
  ℕ, zero, suc, ◌+◌, ◌-◌, ◌*◌, ◌≤◌, ◌<◌, ◌≡◌, inl, inr, refl, sym, ap, ◌∙◌, subst, min, List, [],
  ◌++◌, Option, some, none, Bool, ltb, ◌==◌, Bool-cases, ltb→lt, arith,
}
use mathlib.Core.List.{append_assoc}
use perpcity_rust_sdk.Transport.Fault.{ErrorPayload, TransportError}
use perpcity_rust_sdk.History.Width.Bounds.{
  IsSearch, accept-IsSearch, reject-IsSearch, reject_narrows,
}
use perpcity_rust_sdk.History.Scan.{
  Answer, logs_of, failed, Failure, range, refused, unanswered, classify, Client, State, Scanned,
  ok, err, judge, judge_failure, after_attempt, tally, attempt, read_loop, read_window, read_fuel,
  accepted_width, rejected_width,
}
use perpcity_rust_sdk.History.Scan.Blocks.{blocks, blocks-add, IsHonest, Blames}

-- A window that shrinks by a request leaves fewer rounds.
fewer_rounds : (n m w size : ℕ) → n ≡ m + w → 1 ≤ w → m * (size + 1) + (size + 1) ≤ n * (size + 1)
fewer_rounds n m w size e h =
    let more : (m + 1) * (size + 1) ≤ n * (size + 1) = grind arith in
    let split : (m + 1) * (size + 1) ≡ m * (size + 1) + (size + 1) = grind arith in omega arith

module _ {Log : Type 0} (chain : ℕ → List Log) (is_retry_err : ErrorPayload → Bool)
    (ask : ℕ → ℕ → ℕ → Answer Log × ℕ) where
  -- What one request brings: all of its logs, a narrower request to come, or the server's error.
  abbrev pub Brings : ℕ → ℕ → Scanned (Option (List Log)) → Client → Type 0
  Brings low high (ok (some l)) c =
      (l ≡ blocks chain low (high - low + 1)) × IsSearch c.state.search
  Brings low high (ok none) c =
      (low < high) × IsSearch c.state.search × (c.state.search.next < high - low + 1)
  Brings low high (err e) c = Blames is_retry_err ask e

  failure-Brings :
      (k low high : ℕ) (t : TransportError) (f : Failure) (s : State) (sent : ℕ)
      → (ask k low high).0 ≡ failed t
      → classify is_retry_err t ≡ f
      → low ≤ high
      → IsSearch s.search
      → let r = judge_failure is_retry_err ask low high t f s in
        Brings low high r.0 (record { state = r.1; sent = sent })
  unfolding judge_failure rejected_width
  failure-Brings k low high t range s sent e q le i = elim (Bool-cases (ltb low high)) [
    | inl b ↦ rw b (
      ltb→lt low high b,
      reject-IsSearch (high - low + 1) s.search (omega (arith, ltb→lt low high b)) i,
      reject_narrows (high - low + 1) s.search (omega (arith, ltb→lt low high b)) i,
    )
    | inr b ↦ rw b (k, e, inl (ground arith, q))
  ]
  failure-Brings k low high t refused s sent e q le i = (k, e, inr q)
  failure-Brings k low high t unanswered s sent e q le i = (k, low, high, e, q)

  judge-Brings :
      (k low high : ℕ) (answer : Answer Log) (s : State) (sent : ℕ)
      → IsHonest chain ask
      → (ask k low high).0 ≡ answer
      → low ≤ high
      → IsSearch s.search
      → let r = judge is_retry_err ask low high answer s in
        Brings low high r.0 (record { state = r.1; sent = sent })
  unfolding judge accepted_width
  judge-Brings k low high (logs_of l) s sent honest e le i =
      (honest k low high l e, accept-IsSearch (high - low + 1) s.search (omega arith) i)
  judge-Brings k low high (failed t) s sent honest e le i =
      failure-Brings k low high t (classify is_retry_err t) s sent e refl le i

  tally-search :
      (answer : Answer Log) (elapsed : ℕ) (s : State) → (tally answer elapsed s).search ≡ s.search
  unfolding tally
  tally-search (logs_of l) elapsed s = refl
  tally-search (failed t) elapsed s = refl

  pub attempt-Brings :
      (low high : ℕ) (c : Client)
      → IsHonest chain ask
      → low ≤ high
      → IsSearch c.state.search
      → let r = attempt is_retry_err ask low high c in Brings low high r.0 r.1
  unfolding attempt
  attempt-Brings low high c honest le i =
      let answer = ask c.sent low high in
      let s = tally answer.0 answer.1 c.state in
      judge-Brings c.sent low high answer.0 s (c.sent + 1) honest refl le
        (subst IsSearch (sym (tally-search answer.0 answer.1 c.state)) i)

  -- How a window ends: with its logs after those before it, or with an error of the server.
  abbrev pub Ended : List Log → Option (Scanned (List Log) × Client) → Type 0
  Ended want none = ⊥
  Ended want (some (ok l, c)) = (l ≡ want) × IsSearch c.state.search
  Ended want (some (err e, c)) = Blames is_retry_err ask e

  -- What is left of a window, in rounds.
  abbrev pub rounds : ℕ → ℕ → ℕ → ℕ
  rounds size n next = n * (size + 1) + min next n

  round-Ended :
      (again : ℕ → List Log → Client → Option (Scanned (List Log) × Client)) (size low to high : ℕ)
      (logs : List Log) (budget : ℕ) (r : Scanned (Option (List Log))) (c : Client)
      → ((low' : ℕ) (logs' : List Log) (c' : Client)
          → low' ≤ to
          → to - low' + 1 ≤ size
          → IsSearch c'.state.search
          → rounds size (to - low' + 1) c'.state.search.next < budget
          → Ended (logs' ++ blocks chain low' (to - low' + 1)) (again low' logs' c'))
      → low ≤ high
      → high ≤ to
      → to - low + 1 ≤ size
      → (to - low + 1) * (size + 1) + (high - low + 1) ≤ budget
      → Brings low high r c
      → Ended
          (logs ++ blocks chain low (to - low + 1))
          (after_attempt is_retry_err ask again low high to logs r c)
  unfolding after_attempt
  round-Ended again size low to high logs budget (err e) c ih a b n m h = h
  round-Ended again size low to high logs budget (ok none) c ih a b n m (less, i, narrow) =
      ih low logs c (omega arith) n i (omega arith)
  round-Ended again size low to high logs budget (ok (some l)) c ih a b n m (h, i) =
      elim (Bool-cases (high == to)) [
        | inl q ↦
            let last : high ≡ to = ground arith in
            rw (q, after_attempt, Ended)
              (ap (λ x. logs ++ x) (h ∙ ap (λ x. blocks chain low (x - low + 1)) last), i)
        | inr q ↦
            let less : high < to = ground arith in
            let whole =
              blocks-add chain low (high - low + 1) (to - (high + 1) + 1) (to - low + 1) (high + 1)
                (omega arith) (omega arith) in
            let next : to - low + 1 ≡ to - (high + 1) + 1 + (high - low + 1) = omega arith in
            let fewer =
              fewer_rounds (to - low + 1) (to - (high + 1) + 1) (high - low + 1) size next
                (omega arith) in
            let rest =
              ih (high + 1) (logs ++ l) c (omega arith) (omega arith) i (omega (arith, fewer)) in
            rw (q, after_attempt, Ended)
              (subst (λ x. Ended x (again (high + 1) (logs ++ l) c))
                (append_assoc logs l (blocks chain (high + 1) (to - (high + 1) + 1))
                  ∙ ap (λ x. logs ++ (x ++ blocks chain (high + 1) (to - (high + 1) + 1))) h
                  ∙ ap (λ x. logs ++ x) (sym whole))
                rest)
      ]

  read_loop-Ended :
      (fuel size to low : ℕ) (logs : List Log) (c : Client)
      → IsHonest chain ask
      → low ≤ to
      → to - low + 1 ≤ size
      → IsSearch c.state.search
      → rounds size (to - low + 1) c.state.search.next < fuel
      → Ended
          (logs ++ blocks chain low (to - low + 1))
          (read_loop is_retry_err ask fuel to low logs c)
  unfolding read_loop
  read_loop-Ended zero size to low logs c honest le n i h = absurd (omega arith)
  read_loop-Ended (suc fuel) size to low logs c honest le n i h =
      let high = low + min (c.state.search.next - 1) (to - low) in
      let r = attempt is_retry_err ask low high c in
      let p = i.positive in
      round-Ended (read_loop is_retry_err ask fuel to) size low to high logs fuel r.0 r.1
        (λ low' logs' c' a b j k. read_loop-Ended fuel size to low' logs' c' honest a b j k)
        (omega arith) (omega arith) n (omega (arith, p))
        (attempt-Brings low high c honest (omega arith) i)

  -- Whatever the server does, a window of an honest server is read to its end: with the logs of its
  -- blocks in order, or with an error for a request that the server refused.
  pub read_window-Ended :
      (low to : ℕ) (c : Client)
      → IsHonest chain ask
      → low ≤ to
      → IsSearch c.state.search
      → Ended (blocks chain low (to - low + 1)) (read_window is_retry_err ask low to c)
  unfolding read_window
  read_window-Ended low to c honest le i =
      read_loop-Ended (read_fuel is_retry_err ask (to - low + 1)) (to - low + 1) to low [] c honest
        le (omega arith) i (omega arith)
