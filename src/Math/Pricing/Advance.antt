-- ===== src/Math/Pricing/Advance.antt =====
-- Advancing the averages to a timestamp a second time changes nothing.
use perpcity_rust_sdk.Base.{
  ℕ, ◌-◌, ◌*◌, ◌/◌, ◌==◌, ◌≤◌, ◌<◌, ◌≡◌, refl, ap, subst, ◌∙◌, max, Option, some, none, true, leb,
  arith, Bool-cases, Option-cases, inl, inr,
}
use perpcity_rust_sdk.Base.Word.{u128_mod}
use perpcity_rust_sdk.Base.Result.{ok, ◌>>=◌, >>=-eq-ok}
use perpcity_rust_sdk.Base.Int.{neg}
use perpcity_rust_sdk.Math.FixedPoint.{to_i256}
use perpcity_rust_sdk.Math.FixedPoint.Exp.{exp_wad}
use perpcity_rust_sdk.Math.Liquidity.{narrow}
use perpcity_rust_sdk.Math.Pricing.{
  PricePair, weighted, weigh_pair, try_from_x96, calculate_emas, wad, Emas, stored, pair, stored_at,
  advanced,
}

-- A pair that 128 bits hold.
abbrev pub IsNarrow : PricePair → Type 0
IsNarrow p = (p.amm < u128_mod) × (p.index < u128_mod)

try_from_x96-IsNarrow : (a i : ℕ) (p : PricePair) → try_from_x96 a i ≡ ok p → IsNarrow p
unfolding try_from_x96 narrow
try_from_x96-IsNarrow a i p e = (ground arith, ground arith)

weighted_small : (s p alpha x : ℕ) → weighted s p alpha ≡ some x → x < u128_mod
unfolding weighted
weighted_small s p alpha x e = ground arith

weigh_pair-IsNarrow : (s p x : PricePair) (alpha : ℕ) → weigh_pair s p alpha ≡ some x → IsNarrow x
unfolding weigh_pair
weigh_pair-IsNarrow s p x alpha e = elim (Option-cases (weighted s.amm p.amm alpha)) [
  | inl n ↦ absurd (ground arith)
  | inr (a, ea) ↦ elim (Option-cases (weighted s.index p.index alpha)) [
    | inl n ↦ absurd (ground arith)
    | inr (i, ei) ↦
        let la = weighted_small s.amm p.amm alpha a ea in
        let li = weighted_small s.index p.index alpha i ei in
        let same : record { amm = a; index = i } ≡ x = cc in subst IsNarrow same (la, li)
  ]
]

calculate_emas-IsNarrow :
    (s p x : PricePair) (last now window : ℕ)
    → IsNarrow s
    → calculate_emas s p last now window ≡ ok (some x)
    → IsNarrow x
unfolding calculate_emas
calculate_emas-IsNarrow s p x last now window h e = elim (Bool-cases (leb now last)) [
  | inl c ↦ let same : s ≡ x = cc in subst IsNarrow same h
  | inr c ↦ elim (Bool-cases (window == 0)) [
    | inl k ↦ absurd (cc)
    | inr k ↦
        let value : (to_i256 ((now - last) * wad / window) >>= λ ratio.
        exp_wad (neg ratio) >>= λ alpha. ok (weigh_pair s p alpha))
            ≡ ok (some x) =
          cc in
        let (ratio, er, e1) = >>=-eq-ok (to_i256 ((now - last) * wad / window)) _ value in
        let (alpha, ea, e2) = >>=-eq-ok (exp_wad (neg ratio)) _ e1 in
        weigh_pair-IsNarrow s p x alpha (ok_injective e2)
  ]
]
  where
    ok_injective : {a b : Option PricePair} → ok a ≡ ok b → a ≡ b
    ok_injective q = cc

pair-stored : (p : PricePair) (t : ℕ) → IsNarrow p → pair (stored p t) ≡ ok p
unfolding pair stored try_from_x96 narrow
pair-stored p t (a, b) = ground arith

calculate_emas-settled :
    (x spot : PricePair) (last now window : ℕ)
    → now ≤ last
    → calculate_emas x spot last now window ≡ ok (some x)
unfolding calculate_emas
calculate_emas-settled x spot last now window h = let c : leb now last ≡ true = ground arith in cc

-- The second time.
advanced-again :
    (x spot : PricePair) (pool index now last window : ℕ)
    → IsNarrow x
    → try_from_x96 pool index ≡ ok spot
    → advanced (stored x (max now last)) pool index now window ≡ ok (some (stored x (max now last)))
unfolding advanced stored_at stored
advanced-again x spot pool index now last window h e =
    let t = max now last in
    let own = pair-stored x t h in
    let still = calculate_emas-settled x spot t now window (omega arith) in
    let top : max now t ≡ t = omega arith in cc

stored_at-some :
    (t : ℕ) (o : Option PricePair) (e : Emas)
    → ok (stored_at t o) ≡ ok (some e)
    → (x : PricePair) × (o ≡ some x) × (stored x t ≡ e)
unfolding stored_at
stored_at-some t none e h = absurd (ground arith)
stored_at-some t (some x) e h = (x, refl, cc)

-- Advancing the averages a second time to the same timestamp, at the same prices, gives the same
-- averages.
pub advanced_idempotent :
    (e e' : Emas) (pool index now window : ℕ)
    → advanced e pool index now window ≡ ok (some e')
    → advanced e' pool index now window ≡ ok (some e')
unfolding advanced
advanced_idempotent e e' pool index now window h =
    let (spot, es, e1) = >>=-eq-ok (try_from_x96 pool index) _ h in
    let (own, eo, e2) = >>=-eq-ok (pair e) _ e1 in
    let (emas, ea, e3) = >>=-eq-ok (calculate_emas own spot e.last_touch now window) _ e2 in
    let (x, ex, same) = stored_at-some (max now e.last_touch) emas e' e3 in
    let own_narrow = try_from_x96-IsNarrow e.amm_price e.index own eo in
    let x_narrow =
      calculate_emas-IsNarrow own spot x e.last_touch now window own_narrow (ea ∙ ap ok ex) in
    subst (λ k. advanced k pool index now window ≡ ok (some k)) same
      (advanced-again x spot pool index now e.last_touch window x_narrow es)
