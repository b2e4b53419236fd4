-- ===== src/History/Fold/Law.antt =====
-- The law of folds: the folds of two segments combine to the fold of both.
use perpcity_rust_sdk.Base.{
  ℕ, ◌+◌, ◌%◌, ◌<◌, ◌≡◌, inl, inr, refl, sym, ap, ◌∙◌, true, false, Bool-cases, Option, some, List,
  [], ◌∷◌, ◌++◌, arith,
}
use perpcity_rust_sdk.Base.Word.{u32_mod}
use perpcity_rust_sdk.History.Fold.{
  ChainPoint, at_or_before, Fold, run, fold, Sequenced, is_refused, accept, sequenced,
}

-- What a fold's operations owe: `S` is in a state that they keep, and an event applied to the later
-- of two combined folds is an event applied to both.
pub record IsFold {E S : Type 0} (f : Fold E S) : Type 1 where
  pub Kept : S → Type 0
  pub kept_default : Kept f.default
  pub kept_apply : (e : E) (s : S) → Kept s → Kept (f.apply e s)
  pub combine_default : (s : S) → Kept s → f.combine s f.default ≡ s
  pub combine_apply :
      (e : E) (s t : S) → Kept s → Kept t → f.combine s (f.apply e t) ≡ f.apply e (f.combine s t)

module _ {E S : Type 0} (f : Fold E S) where
  run-append : (s : S) (xs ys : List E) → run f s (xs ++ ys) ≡ run f (run f s xs) ys
  run-append s [] ys = refl
  run-append s (x ∷ xs) ys = run-append (f.apply x s) xs ys

  run-Kept : (law : IsFold f) (s : S) (es : List E) → law.Kept s → law.Kept (run f s es)
  run-Kept law s [] k = k
  run-Kept law s (e ∷ es) k = run-Kept law (f.apply e s) es (law.kept_apply e s k)

  combine-run :
      (law : IsFold f) (s t : S) (es : List E)
      → law.Kept s
      → law.Kept t
      → f.combine s (run f t es) ≡ run f (f.combine s t) es
  combine-run law s t [] k l = refl
  combine-run law s t (e ∷ es) k l =
      combine-run law s (f.apply e t) es k (law.kept_apply e t l)
      ∙ ap (λ u. run f u es) (law.combine_apply e s t k l)

  -- Folding two segments in turn and combining is folding both.
  pub fold-append :
      (law : IsFold f) (xs ys : List E) → fold f (xs ++ ys) ≡ f.combine (fold f xs) (fold f ys)
  fold-append law xs ys =
      let k = run-Kept law f.default xs law.kept_default in
      run-append f.default xs ys
      ∙ ap (λ u. run f u ys) (sym (law.combine_default (fold f xs) k))
      ∙ sym (combine-run law (fold f xs) f.default ys k law.kept_default)

-- The guarded fold of a segment that starts after another.
module _ {E S : Type 0} (point : E → ChainPoint) (f : Fold E S) where
  pub record Counted (law : IsFold f) (s : Sequenced S) : Type 0 where
    pub inner_kept : law.Kept s.inner
    pub few : s.refused < u32_mod

  -- Where the first event of a segment is taken.
  abbrev pub Follows : Option ChainPoint → List E → Type 0
  Follows last [] = Unit
  Follows last (e ∷ es) = is_refused point f e last ≡ false

  abbrev standing : S → ChainPoint → ℕ → Sequenced S
  standing inner p refused = record { inner = inner; last = some p; refused = refused }

  accept-Counted :
      (law : IsFold f) (e : E) (s : Sequenced S) → Counted law s → Counted law (accept point f e s)
  unfolding accept
  accept-Counted law e s k = elim (Bool-cases (is_refused point f e s.last)) [
    | inl q ↦ rw q (record { inner_kept = k.inner_kept; few = omega arith })
    | inr q ↦ rw q (record { inner_kept = law.kept_apply e s.inner k.inner_kept; few = k.few })
  ]

  run-Counted :
      (law : IsFold f) (s : Sequenced S) (es : List E)
      → Counted law s
      → Counted law (run (sequenced point f) s es)
  run-Counted law s [] k = k
  run-Counted law s (e ∷ es) k = run-Counted law (accept point f e s) es (accept-Counted law e s k)

  accept_refused :
      (e : E) (s : Sequenced S)
      → is_refused point f e s.last ≡ true
      → accept point f e s ≡ record s { refused = (s.refused + 1) % u32_mod }
  unfolding accept
  accept_refused e s q = rw q refl

  accept_taken :
      (e : E) (s : Sequenced S)
      → is_refused point f e s.last ≡ false
      → accept point f e s ≡ standing (f.apply e s.inner) (point e) s.refused
  unfolding accept
  accept_taken e s q = rw q refl

  -- Once the later segment has a point, both refuse alike.
  combine-run-standing :
      (law : IsFold f) (s : Sequenced S) (inner : S) (p : ChainPoint) (refused : ℕ) (es : List E)
      → law.Kept s.inner
      → law.Kept inner
      → (sequenced point f).combine s (run (sequenced point f) (standing inner p refused) es)
        ≡ run
            (sequenced point f)
            (standing (f.combine s.inner inner) p ((s.refused + refused) % u32_mod))
            es
  combine-run-standing law s inner p refused [] k l = refl
  combine-run-standing law s inner p refused (e ∷ es) k l =
      let g = sequenced point f in
      let both = f.combine s.inner inner in
      let n = (s.refused + refused) % u32_mod in
      elim (Bool-cases (at_or_before (point e) p)) [
        | inl q ↦
            let count : (s.refused + (refused + 1) % u32_mod) % u32_mod ≡ (n + 1) % u32_mod =
              omega arith in
            ap (λ u. g.combine s (run g u es)) (accept_refused e (standing inner p refused) q)
            ∙ combine-run-standing law s inner p ((refused + 1) % u32_mod) es k l
            ∙ ap (λ m. run g (standing both p m) es) count
            ∙ ap (λ u. run g u es) (sym (accept_refused e (standing both p n) q))
        | inr q ↦
            ap (λ u. g.combine s (run g u es)) (accept_taken e (standing inner p refused) q)
            ∙ combine-run-standing law s (f.apply e inner) (point e) refused es k
                (law.kept_apply e inner l)
            ∙ ap (λ u. run g (standing u (point e) n) es) (law.combine_apply e s.inner inner k l)
            ∙ ap (λ u. run g u es) (sym (accept_taken e (standing both p n) q))
      ]

  combine-run-sequenced :
      (law : IsFold f) (s : Sequenced S) (es : List E)
      → Counted law s
      → Follows s.last es
      → (sequenced point f).combine s (fold (sequenced point f) es) ≡ run (sequenced point f) s es
  combine-run-sequenced law s [] k follows =
      let count : (s.refused + 0) % u32_mod ≡ s.refused = omega (arith, k.few) in
      ap (λ u. record s { inner = u; refused = (s.refused + 0) % u32_mod })
        (law.combine_default s.inner k.inner_kept)
      ∙ ap (λ n. record s { refused = n }) count
  combine-run-sequenced law s (e ∷ es) k follows =
      let g = sequenced point f in
      let count : (s.refused + 0) % u32_mod ≡ s.refused = omega (arith, k.few) in
      let first =
        law.combine_apply e s.inner f.default k.inner_kept law.kept_default
        ∙ ap (f.apply e) (law.combine_default s.inner k.inner_kept) in
      ap (λ u. g.combine s (run g u es)) (accept_taken e g.default refl)
      ∙ combine-run-standing law s (f.apply e f.default) (point e) 0 es k.inner_kept
          (law.kept_apply e f.default law.kept_default)
      ∙ ap (λ u. run g (standing u (point e) ((s.refused + 0) % u32_mod)) es) first
      ∙ ap (λ n. run g (standing (f.apply e s.inner) (point e) n) es) count
      ∙ ap (λ u. run g u es) (sym (accept_taken e s follows))

  -- For a fold that keeps the law, the guarded folds of two segments combine to the guarded fold
  -- of both, refusals counted alike, where the later segment's first event comes after the earlier
  -- one's point.
  pub sequenced-fold-append :
      (law : IsFold f) (xs ys : List E)
      → Follows (fold (sequenced point f) xs).last ys
      → fold (sequenced point f) (xs ++ ys)
        ≡ (sequenced point f).combine (fold (sequenced point f) xs) (fold (sequenced point f) ys)
  sequenced-fold-append law xs ys follows =
      run-append (sequenced point f) (sequenced point f).default xs ys
      ∙ sym (
          combine-run-sequenced law (fold (sequenced point f) xs) ys
            (run-Counted law (sequenced point f).default xs
              (record { inner_kept = law.kept_default; few = omega arith }))
            follows)
