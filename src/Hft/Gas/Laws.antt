-- ===== src/Hft/Gas/Laws.antt =====
-- When the fee cache has fees, and how they grow with the urgency.
use perpcity_rust_sdk.Base.{ℕ, ◌-◌, ◌≡◌, ◌≤◌, ◌↔◌, some, none, arith, Option-cases, inl, inr}
use perpcity_rust_sdk.Base.Word.{u64_max}
use perpcity_rust_sdk.Hft.Gas.{
  Urgency, low, normal, high, critical, GasFees, FeeCache, update, get, fees_for, scale,
}

abbrev pub rank : Urgency → ℕ
rank low = 0
rank normal = 1
rank high = 2
rank critical = 3

scale-monotone :
    (u v : Urgency) (bf pf : ℕ)
    → rank u ≤ rank v
    → pf ≤ u64_max
    → ((scale u bf pf).0 ≤ (scale v bf pf).0) × ((scale u bf pf).1 ≤ (scale v bf pf).1)
unfolding scale
scale-monotone low low bf pf h p = ground arith
scale-monotone low normal bf pf h p = ground arith
scale-monotone low high bf pf h p = ground arith
scale-monotone low critical bf pf h p = ground arith
scale-monotone normal low bf pf h p = absurd (omega arith)
scale-monotone normal normal bf pf h p = ground arith
scale-monotone normal high bf pf h p = ground arith
scale-monotone normal critical bf pf h p = ground arith
scale-monotone high low bf pf h p = absurd (omega arith)
scale-monotone high normal bf pf h p = absurd (omega arith)
scale-monotone high high bf pf h p = ground arith
scale-monotone high critical bf pf h p = ground arith
scale-monotone critical low bf pf h p = absurd (omega arith)
scale-monotone critical normal bf pf h p = absurd (omega arith)
scale-monotone critical high bf pf h p = absurd (omega arith)
scale-monotone critical critical bf pf h p = ground arith

scale-covers : (u : Urgency) (bf pf : ℕ) → pf ≤ u64_max → (scale u bf pf).1 ≤ (scale u bf pf).0
unfolding scale
scale-covers low bf pf h = ground arith
scale-covers normal bf pf h = ground arith
scale-covers high bf pf h = ground arith
scale-covers critical bf pf h = ground arith

-- Fees of one cache at one time: a higher urgency pays neither a lower maximum nor a lower priority
-- fee, and the maximum covers the priority fee, saturated sums and products included.
pub fees_for-monotone :
    (u v : Urgency) (now : ℕ) (c : FeeCache) (a b : GasFees)
    → rank u ≤ rank v
    → c.default_priority_fee ≤ u64_max
    → fees_for u now c ≡ some a
    → fees_for v now c ≡ some b
    → (a.max_fee_per_gas ≤ b.max_fee_per_gas)
      × (a.max_priority_fee_per_gas ≤ b.max_priority_fee_per_gas)
      × (a.max_priority_fee_per_gas ≤ a.max_fee_per_gas)
unfolding fees_for
fees_for-monotone u v now c a b h p ea eb = elim (Option-cases (get now c)) [
  | inl n ↦ ground arith
  | inr (f, q) ↦
      let (m, r) = scale-monotone u v f.base_fee c.default_priority_fee h p in
      let k = scale-covers u f.base_fee c.default_priority_fee p in
      (ground arith, ground arith, ground arith)
]

-- Updated fees serve every urgency until the time to live has passed since the update, and none from
-- then on.
pub fees_for-update :
    (u : Urgency) (base now later : ℕ) (c : FeeCache)
    → (fees_for u later (update base now c) ≡ none) ↔ (c.ttl_ms ≤ later - now)
unfolding fees_for update get
fees_for-update u base now later c = (λ h. ground arith, λ h. ground arith)
