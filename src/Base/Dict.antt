-- ===== src/Base/Dict.antt =====
-- A `HashMap` keyed by numbers, as an association list. The order of the entries stands for the
-- map's iteration order. `IsMap` says that no key occurs twice, which makes `length` the map's
-- `len`.
use perpcity_rust_sdk.Base.{
  ℕ, suc, ◌≡◌, refl, ◌≢◌, Option, none, some, List, [], ◌∷◌, arith, ◌==◌, if◌then◌else◌, length,
}

abbrev pub Dict {ℓ} : Type ℓ → Type ℓ
Dict V = List (ℕ × V)

module _ {ℓ} {V : Type ℓ} where
  abbrev pub values : Dict V → List V
  values [] = []
  values ((k, v) ∷ d) = v ∷ values d

  -- `HashMap::get`
  abbrev pub lookup : ℕ → Dict V → Option V
  lookup key [] = none
  lookup key (entry ∷ rest) = if key == entry.0 then some entry.1 else lookup key rest

  abbrev pub IsMap : Dict V → Type ℓ
  IsMap [] = Unit
  IsMap ((k, v) ∷ d) = (lookup k d ≡ none) × IsMap d

  -- `HashMap::remove`
  abbrev pub erase : ℕ → Dict V → Dict V
  erase key [] = []
  erase key (entry ∷ rest) = if key == entry.0 then rest else entry ∷ erase key rest

  -- `HashMap::insert`, which overwrites a value in place.
  abbrev pub insert : ℕ → V → Dict V → Dict V
  insert key new [] = (key, new) ∷ []
  insert key new (entry ∷ rest) =
      if key == entry.0 then (key, new) ∷ rest else entry ∷ insert key new rest

  pub lookup-insert :
      (j k : ℕ) (v : V) (d : Dict V)
      → lookup j (insert k v d) ≡ (if j == k then some v else lookup j d)
  lookup-insert j k v [] = refl
  lookup-insert j k v (e ∷ d) = ground (arith, lookup-insert j k v d)

  pub lookup-erase :
      (j k : ℕ) (d : Dict V)
      → IsMap d
      → lookup j (erase k d) ≡ (if j == k then none else lookup j d)
  lookup-erase j k [] h = ground arith
  lookup-erase j k (e ∷ d) h = ground (arith, lookup-erase j k d h.1)

  pub insert-IsMap : (k : ℕ) (v : V) (d : Dict V) → IsMap d → IsMap (insert k v d)
  insert-IsMap k v [] h = (refl, tt)
  insert-IsMap k v (e ∷ d) h = ground (arith, insert-IsMap k v d h.1, lookup-insert e.0 k v d)

  pub erase-IsMap : (k : ℕ) (d : Dict V) → IsMap d → IsMap (erase k d)
  erase-IsMap k [] h = tt
  erase-IsMap k (e ∷ d) h = ground (arith, erase-IsMap k d h.1, lookup-erase e.0 k d h.1)

  pub length-insert_new :
      (k : ℕ) (v : V) (d : Dict V) → lookup k d ≡ none → length (insert k v d) ≡ suc (length d)
  length-insert_new k v [] h = refl
  length-insert_new k v (e ∷ d) h = ground (arith, length-insert_new k v d)

  pub length-insert_old :
      (k : ℕ) (v : V) (d : Dict V) → lookup k d ≢ none → length (insert k v d) ≡ length d
  length-insert_old k v [] h = absurd (h refl)
  length-insert_old k v (e ∷ d) h = ground (arith, length-insert_old k v d)

  pub length-erase_old :
      (k : ℕ) (d : Dict V) → lookup k d ≢ none → suc (length (erase k d)) ≡ length d
  length-erase_old k [] h = absurd (h refl)
  length-erase_old k (e ∷ d) h = ground (arith, length-erase_old k d)

  pub erase-eq_none : (k : ℕ) (d : Dict V) → lookup k d ≡ none → erase k d ≡ d
  erase-eq_none k [] h = refl
  erase-eq_none k (e ∷ d) h = ground (arith, erase-eq_none k d)
