-- ===== src/Base/Bits.antt =====
-- `&`, `|` and `^` at variables: each works digit by digit, so each splits at any bit.
use Prim.Native.Nat.{
  ℕ, zero, suc, ◌+◌, ◌-◌, ◌*◌, ◌/◌, ◌%◌, ◌^◌, ◌≤◌, ◌<◌, min, max, digits, bitwise, bit_and, bit_or,
  bit_xor, bit_and-bitwise, bit_or-bitwise, bit_xor-bitwise, differ,
}
use mathlib.Core.Path.{◌≡◌, refl, sym, ap, ap₂, ◌∙◌}
use native.Mathlib.Nat.{
  pow-suc, one-le-pow, div-div-eq-div-mul, mul-add-mod_self_right, mul-div_cancel, div-eq_of_lt,
  mul-mod_left, mod-eq_of_lt, mod-lt, div-add-mod,
}
use native.Mathlib.Omega.{arith}

module _ (z : ℕ → ℕ) (f : ℕ → ℕ → ℕ) where
  -- One round more than needed changes nothing, hence any number of rounds.
  digits_stable : (n a b : ℕ) → a ≤ n → digits z f (suc n) a b ≡ digits z f n a b
  digits_stable zero zero b h = refl
  digits_stable zero (suc a) b h = absurd (omega arith)
  digits_stable (suc n) zero b h = refl
  digits_stable (suc n) (suc a) b h = rw (digits_stable n (suc a / 2) (b / 2) (omega arith))

  digits_more : (d a b : ℕ) → digits z f (d + a) a b ≡ bitwise z f a b
  digits_more zero a b = ap (λ n. digits z f n a b) (omega arith)
  digits_more (suc d) a b =
      ap (λ n. digits z f n a b) {x = suc d + a} {y = suc (d + a)} (omega arith)
      ∙ digits_stable (d + a) a b (omega arith)
      ∙ digits_more d a b

  bitwise_digit :
      (a b : ℕ)
      → bitwise z f (suc a) b ≡ bitwise z f (suc a / 2) (b / 2) * 2 + f (suc a % 2) (b % 2)
  bitwise_digit a b =
      ap (λ n. digits z f n (suc a / 2) (b / 2) * 2 + f (suc a % 2) (b % 2)) {x = a}
        {y = (a - suc a / 2) + suc a / 2} (omega arith)
      ∙ ap (λ r. r * 2 + f (suc a % 2) (b % 2)) (digits_more (a - suc a / 2) (suc a / 2) (b / 2))

-- The lowest digit of the result comes from the lowest digits, the rest from the rest.
abbrev DigitLaw : (op f : ℕ → ℕ → ℕ) → Type 0
DigitLaw op f = (a b : ℕ) → op a b ≡ op (a / 2) (b / 2) * 2 + f (a % 2) (b % 2)

-- An operation on the binary digits.
pub record Digitwise (op f : ℕ → ℕ → ℕ) : Type 0 where
  pub digit : DigitLaw op f
  pub nothing : op 0 0 ≡ 0
  pub small : (a b : ℕ) → f (a % 2) (b % 2) < 2

and_digit : DigitLaw bit_and min
and_digit zero b = simp bit_and-bitwise (omega arith)
and_digit (suc a) b = simp bit_and-bitwise (bitwise_digit (λ r. 0) min a b)

or_digit : DigitLaw bit_or max
or_digit zero b = simp bit_or-bitwise (omega arith)
or_digit (suc a) b = simp bit_or-bitwise (bitwise_digit (λ r. r) max a b)

xor_digit : DigitLaw bit_xor differ
xor_digit zero b = omega (arith, bit_xor-bitwise 0 b, bit_xor-bitwise 0 (b / 2))
xor_digit (suc a) b = simp bit_xor-bitwise (bitwise_digit (λ r. r) differ a b)

differ-lt : (x y : ℕ) → x < 2 → y < 2 → differ x y < 2
differ-lt zero y h k = k
differ-lt (suc x) zero h k = h
differ-lt (suc x) (suc y) h k = differ-lt x y (omega arith) (omega arith)

pub and_Digitwise : Digitwise bit_and min
and_Digitwise = record { digit = and_digit; nothing = refl; small = λ a b. omega arith }

pub or_Digitwise : Digitwise bit_or max
or_Digitwise = record { digit = or_digit; nothing = refl; small = λ a b. omega arith }

pub xor-Digitwise : Digitwise bit_xor differ
xor-Digitwise = record {
  digit = xor_digit;
  nothing = refl;
  small = λ a b. differ-lt (a % 2) (b % 2) (omega arith) (omega arith);
}

-- Halving a remainder by `2 ^ (k + 1)`.
module _ (k a : ℕ) where
  pub pow_pos : 0 < 2 ^ k
  pow_pos = one-le-pow k 2 (omega arith)

  pub div_half : a / 2 ^ suc k ≡ a / 2 / 2 ^ k
  div_half = rw pow-suc (ap (λ n. a / n) (omega arith) ∙ sym (div-div-eq-div-mul a 2 (2 ^ k)))

  mod_parts : a % 2 ^ suc k ≡ (a / 2) % 2 ^ k * 2 + a % 2
  mod_parts =
      ap (λ n. n % 2 ^ suc k) whole
      ∙ mul-add-mod_self_right (a / 2 / 2 ^ k) (2 ^ suc k) rest
      ∙ mod-eq_of_lt rest-lt
    where
      rest : ℕ
      rest = (a / 2) % 2 ^ k * 2 + a % 2

      rest-lt : rest < 2 ^ suc k
      rest-lt = rw pow-suc (omega (arith, mod-lt (a / 2) pow_pos))

      whole : a ≡ a / 2 / 2 ^ k * 2 ^ suc k + rest
      whole = rw pow-suc (omega (arith, div-add-mod (a / 2) (2 ^ k)))

  pub mod_half : a % 2 ^ suc k / 2 ≡ (a / 2) % 2 ^ k
  mod_half = omega (arith, mod_parts)

  pub mod_low : a % 2 ^ suc k % 2 ≡ a % 2
  mod_low = omega (arith, mod_parts)

module _ {op f : ℕ → ℕ → ℕ} (w : Digitwise op f) where
  -- The digits from the `k`-th on, and those below it, do not mix.
  pub op_split :
      (k a b : ℕ) → op a b ≡ op (a / 2 ^ k) (b / 2 ^ k) * 2 ^ k + op (a % 2 ^ k) (b % 2 ^ k)
  op_split zero a b =
      let n : op (a % 2 ^ 0) (b % 2 ^ 0) ≡ 0 = ap₂ op (omega arith) (omega arith) ∙ w.nothing in
      let q : op (a / 2 ^ 0) (b / 2 ^ 0) ≡ op a b = ap₂ op (omega arith) (omega arith) in
      omega arith
  op_split (suc k) a b =
      let d = w.digit a b in
      let l = w.digit (a % 2 ^ suc k) (b % 2 ^ suc k) in
      let ih = op_split k (a / 2) (b / 2) in
      let h : op (a / 2 ^ suc k) (b / 2 ^ suc k) ≡ op (a / 2 / 2 ^ k) (b / 2 / 2 ^ k) =
        ap₂ op (div_half k a) (div_half k b) in
      let m : op (a % 2 ^ suc k / 2) (b % 2 ^ suc k / 2) ≡ op ((a / 2) % 2 ^ k) ((b / 2) % 2 ^ k) =
        ap₂ op (mod_half k a) (mod_half k b) in
      let n : f (a % 2 ^ suc k % 2) (b % 2 ^ suc k % 2) ≡ f (a % 2) (b % 2) =
        ap₂ f (mod_low k a) (mod_low k b) in
      rw (h, l, m, n, d, ih, pow-suc 2 k) (omega arith)

  -- Words of `k` bits stay words of `k` bits.
  pub op_lt : (k a b : ℕ) → a < 2 ^ k → b < 2 ^ k → op a b < 2 ^ k
  op_lt zero a b ha hb =
      let x : a ≡ 0 = omega arith in
      let y : b ≡ 0 = omega arith in let e : op a b ≡ 0 = ap₂ op x y ∙ w.nothing in omega arith
  op_lt (suc k) a b ha hb =
      let p = pow-suc 2 k in
      omega (arith, w.digit a b, w.small a b, op_lt k (a / 2) (b / 2) (omega arith) (omega arith))

  -- The `i`-th bit of the result comes from the `i`-th bits of the operands.
  pub op_bit : (i a b : ℕ) → op a b / 2 ^ i % 2 ≡ f (a / 2 ^ i % 2) (b / 2 ^ i % 2)
  op_bit zero a b =
      let x : a % 2 ≡ a / 2 ^ 0 % 2 = omega arith in
      let y : b % 2 ≡ b / 2 ^ 0 % 2 = omega arith in
      let z : op a b / 2 ^ 0 % 2 ≡ f (a % 2) (b % 2) = omega (arith, w.digit a b, w.small a b) in
      z ∙ ap₂ f x y
  op_bit (suc i) a b =
      rw (div_half i (op a b), div_half i a, div_half i b)
        (ap (λ n. n / 2 ^ i % 2) (omega (arith, w.digit a b, w.small a b))
          ∙ op_bit i (a / 2) (b / 2))

-- Every number is reached from 0 by appending binary digits.
module _ (P : ℕ → Type 0) (start : P 0) (append : (a : ℕ) → P (suc a / 2) → P (suc a)) where
  digit_induction_below : (bound a : ℕ) → a ≤ bound → P a
  digit_induction_below bound zero h = start
  digit_induction_below zero (suc a) h = absurd (omega arith)
  digit_induction_below (suc bound) (suc a) h =
      append a (digit_induction_below bound (suc a / 2) (omega arith))

  digit_induction : (a : ℕ) → P a
  digit_induction a = digit_induction_below a a (omega arith)

pub zero_or : (b : ℕ) → bit_or 0 b ≡ b
zero_or b = bit_or-bitwise 0 b

pub or_zero : (a : ℕ) → bit_or a 0 ≡ a
or_zero = digit_induction (λ a. bit_or a 0 ≡ a) refl λ a below. omega (arith, or_digit (suc a) 0)

pub and_zero : (a : ℕ) → bit_and a 0 ≡ 0
and_zero = digit_induction (λ a. bit_and a 0 ≡ 0) refl λ a below. omega (arith, and_digit (suc a) 0)

-- `(high << k) | low` for a `low` of `k` bits is their sum.
pub or_fields : (k high low : ℕ) → low < 2 ^ k → bit_or (high * 2 ^ k) low ≡ high * 2 ^ k + low
or_fields k high low h =
    op_split or_Digitwise k (high * 2 ^ k) low
    ∙ ap₂ (λ x y. x * 2 ^ k + y)
        (ap₂ bit_or (mul-div_cancel high (pow_pos k high)) (div-eq_of_lt h) ∙ or_zero high)
        (ap₂ bit_or (mul-mod_left high (2 ^ k)) (mod-eq_of_lt h) ∙ zero_or low)

-- A mask of `k` ones takes the remainder.
pub and_mask : (k a : ℕ) → bit_and a (2 ^ k - 1) ≡ a % 2 ^ k
and_mask zero a = and_zero a ∙ omega arith
and_mask (suc k) a =
    let p = pow-suc 2 k in
    let q = pow_pos k a in
    let h : (2 ^ suc k - 1) / 2 ≡ 2 ^ k - 1 = omega arith in
    let l : (2 ^ suc k - 1) % 2 ≡ 1 = omega arith in
    and_digit a (2 ^ suc k - 1) ∙ rw (h, l, and_mask k (a / 2)) (omega (arith, mod_parts k a))

-- `|` adds where the lower `k` bits of the one and the upper bits of the other are clear.
pub or_sum : (k x y : ℕ) → x % 2 ^ k ≡ 0 → y < 2 ^ k → bit_or x y ≡ x + y
or_sum k x y low high =
    let e : x ≡ x / 2 ^ k * 2 ^ k = omega (arith, div-add-mod x (2 ^ k)) in
    ap (λ n. bit_or n y) e ∙ or_fields k (x / 2 ^ k) y high ∙ ap (λ n. n + y) (sym e)

-- A mask of `w` ones from bit `s` on.
pub and_field : (s w x : ℕ) → bit_and x ((2 ^ w - 1) * 2 ^ s) ≡ x / 2 ^ s % 2 ^ w * 2 ^ s
and_field s w x =
    op_split and_Digitwise s x ((2 ^ w - 1) * 2 ^ s)
    ∙ ap₂ (λ a b. a * 2 ^ s + b)
        (ap (bit_and (x / 2 ^ s)) (mul-div_cancel (2 ^ w - 1) (pow_pos s x))
          ∙ and_mask w (x / 2 ^ s))
        (ap (bit_and (x % 2 ^ s)) (mul-mod_left (2 ^ w - 1) (2 ^ s)) ∙ and_zero (x % 2 ^ s))
    ∙ omega arith

pub or_sum_low : (k x y : ℕ) → x < 2 ^ k → y % 2 ^ k ≡ 0 → bit_or x y ≡ x + y
or_sum_low k x y low high =
    op_split or_Digitwise k x y
    ∙ ap₂ (λ a b. a * 2 ^ k + b)
        (ap (λ n. bit_or n (y / 2 ^ k)) (div-eq_of_lt low) ∙ zero_or (y / 2 ^ k))
        (ap₂ bit_or (mod-eq_of_lt low) high ∙ or_zero x)
    ∙ omega (arith, div-add-mod y (2 ^ k))

differ_zero : (d : ℕ) → differ d 0 ≡ d
differ_zero zero = refl
differ_zero (suc d) = refl

pub xor_zero : (a : ℕ) → bit_xor a 0 ≡ a
xor_zero =
    digit_induction (λ a. bit_xor a 0 ≡ a) (bit_xor-bitwise 0 0)
      λ a below. omega (arith, xor_digit (suc a) 0, differ_zero (suc a % 2))
