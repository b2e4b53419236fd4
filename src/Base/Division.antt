-- ===== src/Base/Division.antt =====
-- The bounds of a quotient.
use native.Mathlib.Nat.{div-mul-le_self, lt-div-mul-add}
use perpcity_rust_sdk.Base.{ℕ, ◌+◌, ◌*◌, ◌/◌, ◌≤◌, ◌<◌}

-- The floor of a quotient.
pub div_bounds : (n d : ℕ) → 0 < d → (n / d * d ≤ n) × (n < n / d * d + d)
div_bounds n d h = (div-mul-le_self n d, lt-div-mul-add h)
