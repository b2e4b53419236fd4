-- ===== src/Base/Star.antt =====
-- The states that a step relation reaches.
pub data Star {A : Type 0} (R : A → A → Type 0) (s : A) : A → Type 0 where
  here : Star R s s
  next : {t u : A} → Star R s t → R t u → Star R s u

-- What every step keeps, every reachable state has.
pub Star-keeps :
    {A : Type 0} (R : A → A → Type 0) (P : A → Type 0)
    → ((t u : A) → R t u → P t → P u)
    → {s t : A} → Star R s t
    → P s
    → P t
Star-keeps R P keep here p = p
Star-keeps R P keep (next {t} {u} r st) p = keep t u st (Star-keeps R P keep r p)
