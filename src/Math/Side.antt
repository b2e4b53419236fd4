-- ===== src/Math/Side.antt =====
-- The two sides of a market: src/units/side.rs.
use perpcity_rust_sdk.Base.{ℕ, zero, suc, Option, some, none}
use perpcity_rust_sdk.Base.Int.{ℤ, pos, negsuc, neg}

pub data Side : Type 0 where
  longs shorts : Side

pub record PerSide (T : Type 0) : Type 0 where
  pub long : T
  pub short : T

abbrev pub on : {T : Type 0} → Side → PerSide T → T
on longs p = p.long
on shorts p = p.short

unfoldable pub opposite : Side → Side
opposite longs = shorts
opposite shorts = longs

-- `Side::exposure`
unfoldable pub exposure : Side → ℕ → ℤ
exposure longs size = pos size
exposure shorts size = neg (pos size)

-- `PerpDelta::side`
unfoldable pub side_of : ℤ → Option Side
side_of (pos zero) = none
side_of (pos (suc n)) = some longs
side_of (negsuc n) = some shorts
