-- ===== src/History/Replay/Market/Split.antt =====
-- The market's totals fold in segments.
use perpcity_rust_sdk.Base.{
  ℕ, zero, suc, ◌≡◌, refl, ap, ◌∙◌, sym, Option, some, none, List, [], ◌∷◌, ◌++◌, set, length,
  length-set, replicate, arith,
}
use perpcity_rust_sdk.History.Fold.{combine_latest, fold, sequenced}
use perpcity_rust_sdk.History.Fold.Law.{IsFold, Follows, sequenced-fold-append}
use perpcity_rust_sdk.History.Tape.{
  MarketEvent, cumulatives_accrued, rates_and_emas_refreshed, module_set, TapeEvent, point,
}
use perpcity_rust_sdk.History.Replay.Market.{
  Rates, apply_rates, combine_rates, rates, index, apply_modules, combine_modules, modules,
}

combine-apply_rates :
    (e : MarketEvent) (s t : Rates)
    → combine_rates s (apply_rates e t) ≡ apply_rates e (combine_rates s t)
unfolding combine_rates apply_rates
combine-apply_rates (rates_and_emas_refreshed a b c d f) s t = refl
combine-apply_rates (cumulatives_accrued c) s t = refl
combine-apply_rates _ s t = refl

pub rates-IsFold : IsFold rates
unfolding rates combine_rates
rates-IsFold = record {
  Kept = λ s. Unit;
  kept_default = tt;
  kept_apply = λ e s k. tt;
  combine_default = λ s k. refl;
  combine_apply = λ e s t k l. combine-apply_rates e.event s t;
}

combine-set :
    (xs ys : List (Option ℕ)) (i a : ℕ)
    → length xs ≡ length ys
    → combine_modules xs (set ys i (some a)) ≡ set (combine_modules xs ys) i (some a)
unfolding combine_modules
combine-set [] [] i a h = refl
combine-set [] (y ∷ ys) i a h = absurd (omega arith)
combine-set (x ∷ xs) [] i a h = absurd (omega arith)
combine-set (x ∷ xs) (y ∷ ys) zero a h = refl
combine-set (x ∷ xs) (y ∷ ys) (suc i) a h =
    ap (λ r. combine_latest x y ∷ r) (combine-set xs ys i a (omega arith))

combine-nothing :
    (xs : List (Option ℕ)) (n : ℕ) → combine_modules xs (replicate (length xs) none) ≡ xs
unfolding combine_modules
combine-nothing [] n = refl
combine-nothing (x ∷ xs) n = ap (λ r. x ∷ r) (combine-nothing xs n)

length-apply_modules :
    (e : MarketEvent) (xs : List (Option ℕ)) → length (apply_modules e xs) ≡ length xs
unfolding apply_modules
length-apply_modules (module_set kind address) xs = length-set xs (index kind) (some address)
length-apply_modules _ xs = refl

combine-apply_modules :
    (e : MarketEvent) (s t : List (Option ℕ))
    → length s ≡ length t
    → combine_modules s (apply_modules e t) ≡ apply_modules e (combine_modules s t)
unfolding apply_modules
combine-apply_modules (module_set kind address) s t h = combine-set s t (index kind) address h
combine-apply_modules _ s t h = refl

modules-IsFold : IsFold modules
unfolding modules
modules-IsFold = record {
  Kept = λ s. length s ≡ 6;
  kept_default = refl;
  kept_apply = λ e s k. length-apply_modules e.event s ∙ k;
  combine_default =
      λ s k. ap (λ n. combine_modules s (replicate n none)) (sym k) ∙ combine-nothing s 0;
  combine_apply = λ e s t k l. combine-apply_modules e.event s t (k ∙ sym l);
}

-- Behind the guard, the rates and the modules of two segments combine to those of both, where the
-- later segment starts after the earlier one's point.
pub rates_split :
    (xs ys : List TapeEvent)
    → Follows point rates (fold (sequenced point rates) xs).last ys
    → Follows point modules (fold (sequenced point modules) xs).last ys
    → (fold (sequenced point rates) (xs ++ ys)
        ≡ (sequenced point rates).combine
            (fold (sequenced point rates) xs)
            (fold (sequenced point rates) ys))
      × (fold (sequenced point modules) (xs ++ ys)
          ≡ (sequenced point modules).combine
              (fold (sequenced point modules) xs)
              (fold (sequenced point modules) ys))
rates_split xs ys a b = (
  sequenced-fold-append point rates rates-IsFold xs ys a,
  sequenced-fold-append point modules modules-IsFold xs ys b,
)
