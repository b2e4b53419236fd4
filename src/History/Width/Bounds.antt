-- ===== src/History/Width/Bounds.antt =====
-- What the width search keeps, whatever the order of the answers.
use perpcity_rust_sdk.Base.{
  ℕ, ◌*◌, ◌/◌, ◌%◌, ◌≤◌, ◌<◌, ◌≡◌, min, max, Option, some, none, refl, sym, subst, arith, leb,
  Bool-cases, inl, inr, List, [], ◌∷◌, All,
}
use perpcity_rust_sdk.Base.Word.{u32_mod, sat_mul64}
use perpcity_rust_sdk.History.Width.{
  WidthSearch, new, probe, retest, next_accepted, accept, contradict, next_rejected, reject,
  max_span, retest_first, retest_cap, map_or,
}

abbrev pub AtLeastOne : Option ℕ → Type 0
AtLeastOne none = Unit
AtLeastOne (some w) = 1 ≤ w

abbrev pub Below : Option ℕ → Option ℕ → Type 0
Below (some a) (some r) = a < r
Below (some a) none = Unit
Below none r = Unit

pub record IsSearch (s : WidthSearch) : Type 0 where
  pub positive : 1 ≤ s.next
  pub accepted_positive : AtLeastOne s.accepted
  pub rejected_positive : AtLeastOne s.rejected
  pub ordered : Below s.accepted s.rejected

pub new-IsSearch : IsSearch new
unfolding new
new-IsSearch = record {
  positive = omega arith;
  accepted_positive = tt;
  rejected_positive = tt;
  ordered = tt;
}

pub probe_bounds : (a r : ℕ) → a < r → (a ≤ probe a r) × (probe a r < r)
unfolding probe
probe_bounds a r h = (ground arith, ground arith)

made :
    (next : ℕ) (a r : Option ℕ) (run after : ℕ)
    → 1 ≤ next
    → AtLeastOne a
    → AtLeastOne r
    → Below a r
    → IsSearch (record {
      next = next;
      accepted = a;
      rejected = r;
      accepted_run = run;
      retest_after = after;
    })
made next a r run after p q k o = record {
  positive = p;
  accepted_positive = q;
  rejected_positive = k;
  ordered = o;
}

-- The width after an answer within the widest span.
clear_bound : (n w : ℕ) → 1 ≤ w → 1 ≤ min (sat_mul64 (max n w) 2) max_span
clear_bound n w h = omega arith

retest-IsSearch :
    (w : ℕ) (next a : ℕ) (r : Option ℕ) (run after : ℕ)
    → 1 ≤ w
    → 1 ≤ a
    → AtLeastOne r
    → IsSearch (
        next_accepted w a (
          retest a (record {
            next = next;
            accepted = some a;
            rejected = r;
            accepted_run = run;
            retest_after = after;
          })))
unfolding retest next_accepted
retest-IsSearch w next a none run after h k o =
    made _ (some a) none run after (clear_bound next w h) k tt tt
retest-IsSearch w next a (some r) run after h k o =
    let s : WidthSearch = record {
      next = next;
      accepted = some a;
      rejected = some r;
      accepted_run = run;
      retest_after = after;
    } in
    let cleared = λ (run' after' : ℕ).
      made (min (sat_mul64 (max next w) 2) max_span) (some a) none run' after'
        (clear_bound next w h) k tt tt in
    elim (Bool-cases (leb r a)) [
      | inl c ↦
          let e : retest a s ≡ record s { rejected = none; retest_after = retest_first } =
            rw c refl in
          subst (λ t. IsSearch (next_accepted w a t)) (sym e) (cleared run retest_first)
      | inr c ↦ elim (Bool-cases (leb after run)) [
        | inl d ↦
            let after' = min (after * 2 % u32_mod) retest_cap in
            let e : retest a s
                ≡ record s { rejected = none; accepted_run = 0; retest_after = after' } =
              rw (c, d) refl in
            subst (λ t. IsSearch (next_accepted w a t)) (sym e) (cleared 0 after')
        | inr d ↦
            let e : retest a s ≡ s = rw (c, d) refl in
            let less : a < r = ground arith in
            let bounds = probe_bounds a r less in
            subst (λ t. IsSearch (next_accepted w a t)) (sym e)
              (made (probe a r) (some a) (some r) run after (omega (arith, bounds, k)) k o less)
      ]
    ]

pub accept-IsSearch : (w : ℕ) (s : WidthSearch) → 1 ≤ w → IsSearch s → IsSearch (accept w s)
unfolding accept
accept-IsSearch w s h i =
    retest-IsSearch w s.next (map_or s.accepted max w) s.rejected _ _ h (greatest s.accepted w h)
      i.rejected_positive
  where
    greatest : (o : Option ℕ) (w : ℕ) → 1 ≤ w → 1 ≤ map_or o max w
    greatest none w h = h
    greatest (some a) w h = omega arith

least : (o : Option ℕ) (w : ℕ) → 1 ≤ w → AtLeastOne o → (1 ≤ map_or o min w) × (map_or o min w ≤ w)
least none w h k = (h, omega arith)
least (some r) w h k = (omega arith, omega arith)

least_above : (o : Option ℕ) (a w : ℕ) → a < w → Below (some a) o → a < map_or o min w
least_above none a w h k = h
least_above (some r) a w h k = omega arith

reject_lem :
    (w next : ℕ) (a r : Option ℕ) (run after : ℕ)
    → 2 ≤ w
    → AtLeastOne a
    → AtLeastOne r
    → Below a r
    → let s : WidthSearch = record {
      next = next;
      accepted = a;
      rejected = r;
      accepted_run = run;
      retest_after = after;
    } in
      IsSearch (reject w s) × ((reject w s).next < w)
unfolding reject contradict next_rejected
reject_lem w next none r run after h p q o =
    let (one, most) = least r w (omega arith) q in
    (made (w / 2) none (some (map_or r min w)) 0 after (omega arith) tt one tt, omega arith)
reject_lem w next (some a) r run after h p q o =
    let s : WidthSearch = record {
      next = next;
      accepted = some a;
      rejected = r;
      accepted_run = 0;
      retest_after = after;
    } in
    let (one, most) = least r w (omega arith) q in
    elim (Bool-cases (leb w a)) [
      | inl c ↦
          let e : contradict w s ≡ record s { accepted = none; retest_after = retest_first } =
            rw c refl in
          subst (λ t. IsSearch (next_rejected w t) × ((next_rejected w t).next < w)) (sym e)
            (
              made (w / 2) none (some (map_or r min w)) 0 retest_first (omega arith) tt one tt,
              omega arith,
            )
      | inr c ↦
          let e : contradict w s ≡ s = rw c refl in
          let above = least_above r a w (ground arith) o in
          let (low, high) = probe_bounds a (map_or r min w) above in
          subst (λ t. IsSearch (next_rejected w t) × ((next_rejected w t).next < w)) (sym e)
            (
              made (probe a (map_or r min w)) (some a) (some (map_or r min w)) 0 after
                  (omega (arith, low, p)) p one above,
              omega (arith, high, most),
            )
    ]

pub reject-IsSearch : (w : ℕ) (s : WidthSearch) → 2 ≤ w → IsSearch s → IsSearch (reject w s)
reject-IsSearch w s h i =
    (reject_lem w s.next s.accepted s.rejected s.accepted_run s.retest_after h i.accepted_positive
      i.rejected_positive i.ordered).0

-- A rejection makes the next request narrower than the one that was rejected.
pub reject_narrows : (w : ℕ) (s : WidthSearch) → 2 ≤ w → IsSearch s → (reject w s).next < w
reject_narrows w s h i =
    (reject_lem w s.next s.accepted s.rejected s.accepted_run s.retest_after h i.accepted_positive
      i.rejected_positive i.ordered).1

-- An answer that the search is told of.
pub data Told : Type 0 where
  told_accepted told_rejected : ℕ → Told

unfoldable pub tell : List Told → WidthSearch → WidthSearch
unfolding accept reject
tell [] s = s
tell (told_accepted w ∷ ts) s = tell ts (accept w s)
tell (told_rejected w ∷ ts) s = tell ts (reject w s)

-- A scan is told of accepted requests of one block at least, and of rejected ones of two.
abbrev pub IsWide : Told → Type 0
IsWide (told_accepted w) = 1 ≤ w
IsWide (told_rejected w) = 2 ≤ w

tell-IsSearch :
    (ts : List Told) (s : WidthSearch) → All IsWide ts → IsSearch s → IsSearch (tell ts s)
unfolding tell
tell-IsSearch [] s a i = i
tell-IsSearch (told_accepted w ∷ ts) s (h, a) i =
    tell-IsSearch ts (accept w s) a (accept-IsSearch w s h i)
tell-IsSearch (told_rejected w ∷ ts) s (h, a) i =
    tell-IsSearch ts (reject w s) a (reject-IsSearch w s h i)

-- However the answers of concurrent requests interleave, where the accepted ones were of one block at
-- least and the rejected ones of two: the next width is at least 1, and the widest accepted width
-- stays below the narrowest rejected one whenever both are known.
pub widths_hold : (ts : List Told) → All IsWide ts → IsSearch (tell ts new)
widths_hold ts a = tell-IsSearch ts new a new-IsSearch
