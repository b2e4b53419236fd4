-- ===== src/History/Scan/Tests.antt =====
-- Runs of a scan against a server that answers at most three blocks at once.
use perpcity_rust_sdk.Base.{
  subst, ℕ, ◌+◌, ◌-◌, ◌≤◌, ◌<◌, ◌≡◌, ◌≢◌, ◌↔◌, ◌⊎◌, refl, List, [], ◌∷◌, Option, some, none, Bool,
  true, false, ltb, ltb→lt, arith,
}
use mathlib.Core.Option
use perpcity_rust_sdk.Transport.Fault.{
  ErrorPayload, TransportError, http_error, error_resp, endpoint_fault, fault,
}
use perpcity_rust_sdk.Base.Int.{negsuc}
use perpcity_rust_sdk.History.Width.{new}
use perpcity_rust_sdk.History.Width.Bounds.{
  IsSearch, new-IsSearch, Told, told_accepted, told_rejected, tell, widths_hold,
}
use perpcity_rust_sdk.History.Scan.{
  Answer, logs_of, failed, range, unanswered, classify, Client, Scanned, ok, shared_widths,
  scan_all,
}
use perpcity_rust_sdk.History.Scan.Blocks.{blocks, IsHonest, IsServing}
use perpcity_rust_sdk.History.Scan.Newest.{scan_newest, Pulled, scan_newest_pulls}
use perpcity_rust_sdk.History.Scan.Taxonomy.{faults_and_failures}
use perpcity_rust_sdk.History.Scan.Complete.{scan-Covers, scan_completes, Covers}

-- Each block has one log, its own number.
abbrev chain : ℕ → List ℕ
chain n = n ∷ []

abbrev never : ErrorPayload → Bool
never e = false

abbrev reply : Bool → ℕ → ℕ → Answer ℕ × ℕ
reply true a b = (failed (http_error 400), 1)
reply false a b = (logs_of (blocks chain a (b - a + 1)), 1)

abbrev three_at_most : ℕ → ℕ → ℕ → Answer ℕ × ℕ
three_at_most k a b = reply (ltb (a + 2) b) a b

abbrev start : Client
start = record { state = shared_widths; sent = 0 }

fresh : IsSearch start.state.search
unfolding shared_widths
fresh = new-IsSearch

reply-IsHonest :
    (t : Bool) (a b : ℕ) (l : List ℕ) → (reply t a b).0 ≡ logs_of l → l ≡ blocks chain a (b - a + 1)
reply-IsHonest true a b l e = absurd cc
reply-IsHonest false a b l e = cc

reply-serves :
    (s : Bool) (a b : ℕ) (t : TransportError)
    → ltb (a + 2) b ≡ s
    → (reply s a b).0 ≡ failed t
    → (a < b) × (classify never t ≡ range)
unfolding classify
reply-serves true a b t h e =
    let same : http_error 400 ≡ t = cc in
    (omega (arith, ltb→lt (a + 2) b h), subst (λ x. classify never x ≡ range) same refl)
reply-serves false a b t h e = absurd cc

three-IsHonest : IsHonest chain three_at_most
three-IsHonest k a b l e = reply-IsHonest (ltb (a + 2) b) a b l e

three-IsServing : IsServing never three_at_most
three-IsServing k a b t e = reply-serves (ltb (a + 2) b) a b t refl e

-- The first request is too wide; four narrower ones read the range.
seven_logs :
    Option.map {B = Scanned (List ℕ) × ℕ}
      (λ r. (r.0, r.1.sent))
      (scan_all never three_at_most 100 106 start)
    ≡ some (ok (100 ∷ 101 ∷ 102 ∷ 103 ∷ 104 ∷ 105 ∷ 106 ∷ []), 5)
unfolding scan_all shared_widths blocks
seven_logs = refl

scan-Covers_example :
    Covers chain never three_at_most 100 106 (scan_all never three_at_most 100 106 start)
scan-Covers_example =
    scan-Covers chain never three_at_most 100 106 start three-IsHonest (omega arith) fresh

scan_completes_example :
    (c' : Client) × (scan_all never three_at_most 100 106 start
      ≡ some (ok (blocks chain 100 7), c'))
scan_completes_example =
    scan_completes chain never three_at_most 100 106 start three-IsHonest three-IsServing
      (omega arith) (omega arith) fresh

abbrev a_pull : Option (Option (Scanned (List ℕ × Option ℕ)) × Client)
a_pull = scan_newest never three_at_most 100 (some 106) start

scan_newest_pulls_example : Pulled chain never three_at_most 100 (some 106) a_pull
scan_newest_pulls_example =
    scan_newest_pulls chain never three_at_most 100 (some 106) start three-IsHonest fresh

abbrev too_wide : ErrorPayload
too_wide = record { code = negsuc 32004; message = []; extra = none }

abbrev bad_gateway : ℕ
bad_gateway = 502

faults_and_failures_example :
    ((fault never (error_resp too_wide) ≡ endpoint_fault)
      ↔ (classify never (error_resp too_wide) ≡ unanswered))
    × (((fault never (http_error 502) ≡ endpoint_fault) × (classify never (http_error 502) ≡ range))
        ↔ ((bad_gateway ≡ 408) ⊎ ((500 ≤ bad_gateway) × (bad_gateway ≤ 599) × (bad_gateway ≢ 503))))
faults_and_failures_example = faults_and_failures never too_wide 502

-- The answers of requests that overlap.
abbrev answers : List Told
answers = told_accepted 10000 ∷ told_rejected 40000 ∷ told_accepted 20000 ∷ told_rejected 15000 ∷ []

widths_hold_example : IsSearch (tell answers new)
widths_hold_example =
    widths_hold answers (omega arith, (omega arith, (omega arith, (omega arith, tt))))
