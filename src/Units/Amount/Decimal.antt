-- ===== src/Units/Amount/Decimal.antt =====
-- The digits of a number: their value is the number, and padding and trimming keep it.
use native.Mathlib.Nat.{mod-lt}
use perpcity_rust_sdk.Base.{
  ℕ, zero, suc, ◌+◌, ◌-◌, ◌*◌, ◌/◌, ◌%◌, ◌^◌, ◌≤◌, ◌<◌, ◌≡◌, inl, inr, refl, ap, ◌∙◌, subst, sym,
  true, false, ltb, ◌==◌, ◌&&◌, [], ◌∷◌, ◌++◌, some, length, replicate, length-append,
  length-replicate, arith, Bool-cases,
}
use perpcity_rust_sdk.Base.Word.{u128_mod}
use perpcity_rust_sdk.Units.Amount.{
  Text, zero_digit, decimal, pad_left, trim_zeros, is_empty, all_digits, is_ascii_digit, parse_u128,
  places,
}

-- The number that digits spell after those that spell `so_far`.
abbrev pub value : ℕ → Text → ℕ
value so_far [] = so_far
value so_far (b ∷ bs) = value (so_far * 10 + (b - zero_digit)) bs

pub value-append : (a : ℕ) (xs ys : Text) → value a (xs ++ ys) ≡ value (value a xs) ys
value-append a [] ys = refl
value-append a (x ∷ xs) ys = value-append (a * 10 + (x - zero_digit)) xs ys

pub value_grows : (a : ℕ) (xs : Text) → a ≤ value a xs
value_grows a [] = omega arith
value_grows a (x ∷ xs) =
    let rest = value_grows (a * 10 + (x - zero_digit)) xs in omega (arith, rest)

-- Digits whose number is a u128 are read, to that number.
pub parse_u128-eq :
    (a : ℕ) (xs : Text) → value a xs < u128_mod → parse_u128 a xs ≡ some (value a xs)
unfolding parse_u128
parse_u128-eq a [] h = refl
parse_u128-eq a (x ∷ xs) h =
    let next = a * 10 + (x - zero_digit) in
    ground (arith, value_grows next xs, parse_u128-eq next xs h)

pub all_digits-append :
    (xs ys : Text) → all_digits xs ≡ true → all_digits ys ≡ true → all_digits (xs ++ ys) ≡ true
all_digits-append [] ys a b = b
all_digits-append (x ∷ xs) ys a b = ground (arith, all_digits-append xs ys)

pub all_digits_prefix : (xs ys : Text) → all_digits (xs ++ ys) ≡ true → all_digits xs ≡ true
all_digits_prefix [] ys h = refl
all_digits_prefix (x ∷ xs) ys h = ground (arith, all_digits_prefix xs ys)

pub all_digits-replicate : (n : ℕ) → all_digits (replicate n zero_digit) ≡ true
all_digits-replicate zero = refl
all_digits-replicate (suc n) = all_digits-replicate n

pub value-replicate : (n : ℕ) → value 0 (replicate n zero_digit) ≡ 0
value-replicate zero = refl
value-replicate (suc n) = value-replicate n

pow_suc : (n : ℕ) → 10 ^ suc n ≡ 10 * 10 ^ n
pow_suc n = grind arith

digit_value : (a d : ℕ) → value a ((zero_digit + d) ∷ []) ≡ a * 10 + d
digit_value a d = omega arith

digit-is_ascii_digit : (d : ℕ) → d < 10 → is_ascii_digit (zero_digit + d) ≡ true
digit-is_ascii_digit d h = ground arith

-- What the digits of a number are.
pub record IsDecimal (n : ℕ) (text : Text) : Type 0 where
  pub spells : value 0 text ≡ n
  pub ascii : all_digits text ≡ true
  pub inhabited : is_empty text ≡ false

append_inhabited : (xs : Text) (b : ℕ) → is_empty (xs ++ (b ∷ [])) ≡ false
append_inhabited [] b = refl
append_inhabited (x ∷ xs) b = refl

pub decimal-IsDecimal : (fuel n : ℕ) → n < 10 ^ suc fuel → IsDecimal n (decimal (suc fuel) n)
unfolding decimal
decimal-IsDecimal zero n h =
    let small : n < 10 = omega (arith, pow_suc 0) in
    let first : ltb n 10 ≡ true = ground arith in
    rw first (record { spells = omega arith; ascii = ground arith; inhabited = refl })
decimal-IsDecimal (suc fuel) n h = elim (Bool-cases (ltb n 10)) [
  | inl q ↦
      let small : n < 10 = ground arith in
      rw q (record { spells = omega arith; ascii = ground arith; inhabited = refl })
  | inr q ↦
      let fewer : n / 10 < 10 ^ suc fuel = omega (arith, pow_suc (suc fuel)) in
      let before = decimal-IsDecimal fuel (n / 10) fewer in
      let b = before.spells in
      let d = digit-is_ascii_digit (n % 10) (mod-lt n (omega arith)) in
      let text = decimal (suc fuel) (n / 10) in
      let last : Text = (zero_digit + n % 10) ∷ [] in
      let tail : value (n / 10) last ≡ n = omega arith in
      let whole : value 0 (text ++ last) ≡ n =
        value-append 0 text last ∙ ap (λ v. value v last) b ∙ tail in
      rw q (record {
        spells = whole;
        ascii = all_digits-append text last before.ascii (ground (arith, d));
        inhabited = append_inhabited text (zero_digit + n % 10);
      })
]

pub length-decimal : (fuel k n : ℕ) → n < 10 ^ suc k → length (decimal fuel n) ≤ suc k
unfolding decimal
length-decimal zero k n h = omega arith
length-decimal (suc fuel) zero n h = let small : n < 10 = omega (arith, pow_suc 0) in ground arith
length-decimal (suc fuel) (suc k) n h =
    let fewer : n / 10 < 10 ^ suc k = omega (arith, pow_suc (suc k)) in
    let rest = length-decimal fuel k (n / 10) fewer in
    let more = length-append (decimal fuel (n / 10)) ((zero_digit + n % 10) ∷ []) in
    ground (arith, rest, more)

pub pad_left-value : (text : Text) → value 0 (pad_left text) ≡ value 0 text
unfolding pad_left
pad_left-value text =
    let k = places - length text in
    value-append 0 (replicate k zero_digit) text ∙ ap (λ v. value v text) (value-replicate k)

pub pad_left-ascii : (text : Text) → all_digits text ≡ true → all_digits (pad_left text) ≡ true
unfolding pad_left
pad_left-ascii text h =
    all_digits-append (replicate (places - length text) zero_digit) text
      (all_digits-replicate (places - length text)) h

pub length-pad_left : (text : Text) → length text ≤ places → length (pad_left text) ≡ places
unfolding pad_left
length-pad_left text h = omega (
  arith,
  length-append (replicate (places - length text) zero_digit) text,
  length-replicate (places - length text) zero_digit,
)

empty_text : (text : Text) → is_empty text ≡ true → text ≡ []
empty_text [] h = refl
empty_text (b ∷ bs) h = cc

pub length-trim_zeros : (text : Text) → length (trim_zeros text) ≤ length text
unfolding trim_zeros
length-trim_zeros [] = omega arith
length-trim_zeros (b ∷ bs) = let rest = length-trim_zeros bs in ground (arith, rest)

-- A trimmed text is the text again when its zeros are put back.
pub trim_zeros-pad :
    (text : Text)
    → trim_zeros text ++ replicate (length text - length (trim_zeros text)) zero_digit ≡ text
unfolding trim_zeros
trim_zeros-pad [] = refl
trim_zeros-pad (b ∷ bs) =
    let rest = trim_zeros-pad bs in
    elim (Bool-cases ((b == zero_digit) && is_empty (trim_zeros bs))) [
      | inl q ↦
          let z : b ≡ zero_digit = ground arith in
          let e : trim_zeros bs ≡ [] = empty_text (trim_zeros bs) (ground arith) in
          let none_cut : length bs ≡ length bs - 0 = omega arith in
          let zeros : replicate (length bs) zero_digit ≡ bs =
            ap (λ k. replicate k zero_digit) none_cut
            ∙ subst (λ t. t ++ replicate (length bs - length t) zero_digit ≡ bs) e rest in
          let all_cut : suc (length bs) - 0 ≡ suc (length bs) = omega arith in
          rw q (
            ap (λ k. replicate k zero_digit) all_cut
            ∙ ap (λ t. zero_digit ∷ t) zeros
            ∙ ap (λ x. x ∷ bs) (sym z))
      | inr q ↦
          let t = trim_zeros bs in
          let same : suc (length bs) - suc (length t) ≡ length bs - length t = omega arith in
          rw q (ap (λ k. b ∷ (t ++ replicate k zero_digit)) same ∙ ap (λ t'. b ∷ t') rest)
    ]
