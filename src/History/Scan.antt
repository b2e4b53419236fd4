-- ===== src/History/Scan.antt =====
-- The scan of a range of blocks for logs: src/history/scan.rs. The server is a parameter: its answer
-- to the request that follows `sent` others, and the time that it took. One request is in flight.
pub mod Blocks
pub mod Window
pub mod Complete
pub mod Newest
pub mod Taxonomy
mod Tests
use perpcity_rust_sdk.Base.{
  ℕ, zero, suc, ◌+◌, ◌-◌, ◌*◌, ◌%◌, min, max, Option, some, none, List, [], ◌∷◌, ◌++◌, Bool, true,
  false, ltb, leb, ◌==◌, ◌||◌, ◌&&◌, if◌then◌else◌, length,
}
use perpcity_rust_sdk.Base.Int.{ℤ, negsuc, eq_ℤ}
use perpcity_rust_sdk.Base.Word.{u64_mod, u64_max, sat_add64}
use perpcity_rust_sdk.Transport.Fault.{
  ErrorPayload, TransportError, error_resp, http_error, ser_error, deser_error, unsupported_feature,
  other_error, is_rate_limit,
}
use perpcity_rust_sdk.History.Width
use perpcity_rust_sdk.History.Width.{WidthSearch, accept, reject}

-- What a failed request tells the scan.
pub data Failure : Type 0 where
  range refused unanswered : Failure

pub data ScanError : Type 0 where
  logs_rejected : ℕ → ℕ → TransportError → ScanError
  no_answer : TransportError → ScanError
  invalid_block_range : ℕ → ℕ → ScanError

pub record ScanStats : Type 0 where
  pub requests : ℕ
  pub rejections : ℕ
  pub logs : ℕ
  pub undecodable : ℕ
  pub learned_width : ℕ
  pub request_time : ℕ

pub record State : Type 0 where
  pub search : WidthSearch
  pub stats : ScanStats

-- What a scan returns, a chunk or an error.
pub data Scanned {ℓ} (A : Type ℓ) : Type ℓ where
  ok : A → Scanned A
  err : ScanError → Scanned A

pub data Answer (Log : Type 0) : Type 0 where
  logs_of : List Log → Answer Log
  failed : TransportError → Answer Log

-- The shared widths, and how many requests were sent.
pub record Client : Type 0 where
  pub state : State
  pub sent : ℕ

unfoldable pub shared_widths : State
unfolding Width.new
shared_widths = record {
  search = Width.new;
  stats = record {
    requests = 0;
    rejections = 0;
    logs = 0;
    undecodable = 0;
    learned_width = 0;
    request_time = 0;
  };
}

-- `SharedWidths::stats` and `undecodable`.
unfoldable pub stats_of : State → ScanStats
stats_of s = record s.stats { learned_width = s.search.next }

unfoldable pub undecodable_logs : ℕ → State → State
undecodable_logs how_many s = record s {
  stats = record s.stats { undecodable = (s.stats.undecodable + how_many) % u64_mod };
}

unfoldable pub classify : (ErrorPayload → Bool) → TransportError → Failure
unfolding is_rate_limit
classify is_retry_err (error_resp payload) =
    if is_rate_limit is_retry_err payload
    then unanswered
    else if eq_ℤ payload.code (negsuc 32600) || eq_ℤ payload.code (negsuc 32699)
    then refused
    else range
classify is_retry_err (http_error status) =
    if status == 429 || status == 503
    then unanswered
    else if status == 401 || status == 403
    then refused
    else range
classify is_retry_err ser_error = unanswered
classify is_retry_err deser_error = unanswered
classify is_retry_err unsupported_feature = unanswered
classify is_retry_err other_error = unanswered

module _ {Log : Type 0} where
  unfoldable pub tally : Answer Log → ℕ → State → State
  tally (logs_of chunk) elapsed s = record s {
    stats = record s.stats {
      requests = (s.stats.requests + 1) % u64_mod;
      logs = (s.stats.logs + length chunk) % u64_mod;
      request_time = s.stats.request_time + elapsed;
    };
  }
  tally (failed e) elapsed s = record s {
    stats = record s.stats {
      requests = (s.stats.requests + 1) % u64_mod;
      rejections = (s.stats.rejections + 1) % u64_mod;
      request_time = s.stats.request_time + elapsed;
    };
  }

unfoldable pub accepted_width : ℕ → State → State
unfolding accept
accepted_width width s = record s { search = accept width s.search }

unfoldable pub rejected_width : ℕ → State → State
unfolding reject
rejected_width width s = record s { search = reject width s.search }

module _ {Log : Type 0} (is_retry_err : ErrorPayload → Bool)
    (ask : ℕ → ℕ → ℕ → Answer Log × ℕ) where
  -- What a failure means for a request; a range rejection of several blocks may pass when narrower.
  unfoldable pub judge_failure :
      ℕ → ℕ → TransportError → Failure → State → Scanned (Option (List Log)) × State
  unfolding rejected_width
  judge_failure low high error range s =
      if ltb low high
      then (ok none, rejected_width (high - low + 1) s)
      else (err (logs_rejected low high error), s)
  judge_failure low high error refused s = (err (logs_rejected low high error), s)
  judge_failure low high error unanswered s = (err (no_answer error), s)

  unfoldable pub judge : ℕ → ℕ → Answer Log → State → Scanned (Option (List Log)) × State
  unfolding accepted_width judge_failure classify
  judge low high (logs_of chunk) s = (ok (some chunk), accepted_width (high - low + 1) s)
  judge low high (failed error) s = judge_failure low high error (classify is_retry_err error) s

  unfoldable pub attempt : ℕ → ℕ → Client → Scanned (Option (List Log)) × Client
  unfolding judge tally
  attempt low high c =
      let answer = ask c.sent low high in
      let r = judge low high answer.0 (tally answer.0 answer.1 c.state) in
      (r.0, record { state = r.1; sent = c.sent + 1 })

  -- The upper end of the next request of a window.
  unfoldable pub reach : ℕ → ℕ → Client → ℕ
  reach low to c = low + min (c.state.search.next - 1) (to - low)

  -- What `read_window` does with the outcome of a request; `again` is its next round.
  unfoldable pub after_attempt :
      (ℕ → List Log → Client → Option (Scanned (List Log) × Client))
      → ℕ
      → ℕ
      → ℕ
      → List Log
      → Scanned (Option (List Log))
      → Client
      → Option (Scanned (List Log) × Client)
  after_attempt again low high to logs (err e) c = some (err e, c)
  after_attempt again low high to logs (ok none) c = again low logs c
  after_attempt again low high to logs (ok (some chunk)) c = elim (high == to) [
    | true ↦ some (ok (logs ++ chunk), c)
    | false ↦ again (high + 1) (logs ++ chunk) c
  ]

  -- The loop of `read_window`, on fuel.
  unfoldable pub read_loop : ℕ → ℕ → ℕ → List Log → Client → Option (Scanned (List Log) × Client)
  unfolding attempt reach after_attempt
  read_loop zero to low logs c = none
  read_loop (suc fuel) to low logs c =
      let high = reach low to c in
      let r = attempt low high c in after_attempt (read_loop fuel to) low high to logs r.0 r.1

  -- Enough fuel for a window of `n` blocks.
  abbrev pub read_fuel : ℕ → ℕ
  read_fuel n = n * (n + 1) + n + 1

  unfoldable pub read_window : ℕ → ℕ → Client → Option (Scanned (List Log) × Client)
  unfolding read_loop
  read_window low to c = read_loop (read_fuel (to - low + 1)) to low [] c

  unfoldable pub check_block_range : ℕ → ℕ → Scanned (Unit {0})
  check_block_range from_block to_block =
      if ltb to_block from_block then err (invalid_block_range from_block to_block) else ok tt

  -- The windows of `windows_oldest_first`, each read to its end before the next is carved.
  unfoldable pub window_end : ℕ → ℕ → Client → ℕ
  window_end low to c = min (sat_add64 low (c.state.search.next - 1)) to

  -- What the driver does with a window that was read.
  unfoldable pub after_window :
      (ℕ → List Log → Client → Option (Scanned (List Log) × Client))
      → ℕ
      → ℕ
      → List Log
      → Option (Scanned (List Log) × Client)
      → Option (Scanned (List Log) × Client)
  after_window again high to logs none = none
  after_window again high to logs (some (err e, c)) = some (err e, c)
  after_window again high to logs (some (ok chunk, c)) = elim (ltb high to && ltb high u64_max) [
    | true ↦ again (high + 1) (logs ++ chunk) c
    | false ↦ some (ok (logs ++ chunk), c)
  ]

  unfoldable pub windows_loop : ℕ → ℕ → ℕ → List Log → Client → Option (Scanned (List Log) × Client)
  unfolding read_window window_end after_window
  windows_loop zero to low logs c = none
  windows_loop (suc fuel) to low logs c =
      let high = window_end low to c in
      after_window (windows_loop fuel to) high to logs (read_window low high c)

  unfoldable pub scan_all : ℕ → ℕ → Client → Option (Scanned (List Log) × Client)
  unfolding check_block_range windows_loop
  scan_all from_block to_block c = elim (check_block_range from_block to_block) [
    | err e ↦ some (err e, c)
    | ok u ↦ windows_loop (to_block - from_block + 1) to_block from_block [] c
  ]
