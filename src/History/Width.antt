-- ===== src/History/Width.antt =====
-- The width of the next log request, learned from the server's answers: `WidthSearch` of
-- src/history/scan.rs.
pub mod Bounds
use perpcity_rust_sdk.Base.{
  ℕ, ◌+◌, ◌-◌, ◌*◌, ◌/◌, ◌%◌, min, max, Option, some, none, Bool, true, false, leb, if◌then◌else◌,
}
use perpcity_rust_sdk.Base.Word.{u32_mod, sat_mul64}

-- `LOG_SCAN_INITIAL_SPAN` and `LOG_SCAN_MAX_SPAN` of src/constants.rs, and `RETEST_AFTER`.
abbrev pub initial_span : ℕ
initial_span = 100000

abbrev pub max_span : ℕ
max_span = 10000000

abbrev pub retest_first : ℕ
retest_first = 16

abbrev pub retest_cap : ℕ
retest_cap = 1024

pub record WidthSearch : Type 0 where
  pub next : ℕ
  pub accepted : Option ℕ
  pub rejected : Option ℕ
  pub accepted_run : ℕ
  pub retest_after : ℕ

unfoldable pub new : WidthSearch
new = record {
  next = initial_span;
  accepted = none;
  rejected = none;
  accepted_run = 0;
  retest_after = retest_first;
}

-- The gap does not wrap where `accepted < rejected`.
unfoldable pub probe : ℕ → ℕ → ℕ
probe accepted rejected =
    let gap = rejected - accepted in
    if leb gap (max (accepted / 8) 1) then accepted else accepted + gap / 2

abbrev pub map_or : Option ℕ → (ℕ → ℕ → ℕ) → ℕ → ℕ
map_or none f width = width
map_or (some a) f width = f a width

-- Drops a rejection that the answers contradict, or that is due for a retest.
unfoldable pub retest : ℕ → WidthSearch → WidthSearch
retest accepted s = elim s.rejected [
  | none ↦ s
  | some rejected ↦
      if leb rejected accepted
      then record s { rejected = none; retest_after = retest_first }
      else if leb s.retest_after s.accepted_run
      then record s {
        rejected = none;
        accepted_run = 0;
        retest_after = min (s.retest_after * 2 % u32_mod) retest_cap;
      }
      else s
]

unfoldable pub next_accepted : ℕ → ℕ → WidthSearch → WidthSearch
unfolding probe
next_accepted width accepted s = record s {
  next = elim s.rejected [
    | none ↦ min (sat_mul64 (max s.next width) 2) max_span
    | some rejected ↦ probe accepted rejected
  ];
}

-- The method `accepted`.
unfoldable pub accept : ℕ → WidthSearch → WidthSearch
unfolding retest next_accepted
accept width s =
    let accepted = map_or s.accepted max width in
    next_accepted width accepted (
      retest accepted
        (record s { accepted = some accepted; accepted_run = (s.accepted_run + 1) % u32_mod }))

-- Forgets an accepted width that a rejection of no greater width contradicts.
unfoldable pub contradict : ℕ → WidthSearch → WidthSearch
contradict width s = elim s.accepted [
  | none ↦ s
  | some accepted ↦
      if leb width accepted then record s { accepted = none; retest_after = retest_first } else s
]

unfoldable pub next_rejected : ℕ → WidthSearch → WidthSearch
unfolding probe
next_rejected width s =
    let rejected = map_or s.rejected min width in
    record s {
      rejected = some rejected;
      next = elim s.accepted [ none ↦ width / 2 | some accepted ↦ probe accepted rejected ];
    }

-- The method `rejected`.
unfoldable pub reject : ℕ → WidthSearch → WidthSearch
unfolding contradict next_rejected
reject width s = next_rejected width (contradict width (record s { accepted_run = 0 }))
