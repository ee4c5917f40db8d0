-- ===== src/Core/EventFlags/Laws.antt =====
-- The event flags against the set of the raised flags: what each call does to each flag.
use Prim.Native.Nat.{max}
use nx_c_util.Base.{
  ℕ, zero, suc, ◌-◌, ◌/◌, ◌%◌, ◌^◌, ◌<◌, ◌≡◌, refl, sym, ap, ◌∙◌, arith, true, false, ◌==◌, bit_and,
  min, ==_iff, Bool-cases, inl, inr, not, ◌↔◌,
}
use native.Mathlib.Decide.{ℕ_discrete}
use nx_c_util.Base.Bits.{op_bit, op_lt, or_Digitwise, and_Digitwise, div_half}
use native.Mathlib.Nat.{pow-suc}
use nx_c_util.Core.EventFlags.{EventFlags, complement, raise, clear, test, test_all, take, get}

-- Flag `i` of a word: 1 where it is raised.
abbrev pub bit : ℕ → ℕ → ℕ
bit i n = n / 2 ^ i % 2

bit_zero : (i : ℕ) → bit i 0 ≡ 0
bit_zero zero = refl
bit_zero (suc i) = rw (div_half i 0) (bit_zero i)

-- `(2 ^ k - 1) - m` has the opposite bit at each place below `k`.
bit-complement : (k i m : ℕ) → i < k → m < 2 ^ k → bit i (2 ^ k - 1 - m) ≡ 1 - bit i m
bit-complement zero i m h lt = absurd (omega arith)
bit-complement (suc k) zero m h lt =
    let p = pow-suc 2 k in
    let x : (2 ^ suc k - 1 - m) / 2 ^ 0 ≡ 2 ^ suc k - 1 - m = omega arith in
    let y : m / 2 ^ 0 ≡ m = omega arith in rw (x, y) (omega arith)
bit-complement (suc k) (suc i) m h lt =
    let p = pow-suc 2 k in
    let x : (2 ^ suc k - 1 - m) / 2 ≡ 2 ^ k - 1 - m / 2 = omega arith in
    rw (div_half i (2 ^ suc k - 1 - m), div_half i m, x)
      (bit-complement k i (m / 2) (omega arith) (omega arith))

-- A word whose bits are all clear is zero.
zero_of_bits : (k n : ℕ) → n < 2 ^ k → ((i : ℕ) → i < k → bit i n ≡ 0) → n ≡ 0
zero_of_bits zero n lt h = omega arith
zero_of_bits (suc k) n lt h =
    let p = pow-suc 2 k in
    let rest : n / 2 ≡ 0 =
      zero_of_bits k (n / 2) (omega arith)
        (λ i q. ap (λ x. x % 2) (sym (div_half i n)) ∙ h (suc i) (omega arith)) in
    let x : n / 2 ^ 0 ≡ n = omega arith in omega (arith, h 0 (omega arith))

-- The flag word and the mask are 32-bit words.
abbrev pub AreWords : EventFlags → ℕ → Type 0
AreWords ef mask = (ef.bits < 2 ^ 32) × (mask < 2 ^ 32)

-- Raising a mask raises its flags and leaves the others; clearing it clears its flags and leaves the
-- others; both give 32-bit words again.
pub raise-clear_bits :
    (ef : EventFlags) (mask i : ℕ)
    → AreWords ef mask
    → i < 32
    → (bit i (get (raise ef mask)) ≡ max (bit i (get ef)) (bit i mask))
      × (bit i (get (clear ef mask)) ≡ min (bit i (get ef)) (1 - bit i mask))
      × (get (raise ef mask) < 2 ^ 32)
      × (get (clear ef mask) < 2 ^ 32)
unfolding raise clear get
raise-clear_bits ef mask i w h = (
  op_bit or_Digitwise i ef.bits mask,
  op_bit and_Digitwise i ef.bits (complement mask)
      ∙ ap (min (bit i ef.bits)) (bit-complement 32 i mask h w.1),
  op_lt or_Digitwise 32 ef.bits mask w.0 w.1,
  op_lt and_Digitwise 32 ef.bits (complement mask) w.0 (omega arith),
)

cleared :
    (ef : EventFlags) (mask : ℕ)
    → AreWords ef mask
    → bit_and (bit_and ef.bits (complement mask)) mask ≡ 0
cleared ef mask w =
    zero_of_bits 32 (bit_and (bit_and ef.bits (complement mask)) mask)
      (op_lt and_Digitwise 32 (bit_and ef.bits (complement mask)) mask
        (op_lt and_Digitwise 32 ef.bits (complement mask) w.0 (omega arith)) w.1)
      λ i h.
        op_bit and_Digitwise i (bit_and ef.bits (complement mask)) mask
        ∙ omega (
          arith,
          op_bit and_Digitwise i ef.bits (complement mask),
          bit-complement 32 i mask h w.1,
        )

-- A take reports whether a flag of the mask was raised, as a test does; it lowers exactly the flags
-- of the mask, so that a test and a second take report nothing. The flags and the mask are 32-bit words.
pub take_lem :
    (ef : EventFlags) (mask : ℕ)
    → AreWords ef mask
    → let (raised, ef') = take ef mask in
      (raised ≡ test ef mask)
      × (test ef' mask ≡ false)
      × (take ef' mask ≡ (false, ef'))
      × ((i : ℕ) → i < 32 → bit i (get ef') ≡ min (bit i (get ef)) (1 - bit i mask))
unfolding take test get
take_lem ef mask w = elim (Bool-cases (bit_and ef.bits mask == 0)) [
  | inl none_raised ↦ rw none_raised (
    refl,
    rw none_raised refl,
    rw none_raised refl,
    λ i h. omega (
      arith,
      op_bit and_Digitwise i ef.bits mask,
      (==_iff _ _).0 none_raised,
      ap (bit i) ((==_iff _ _).0 none_raised),
      bit_zero i,
    ),
  )
  | inr some_raised ↦ rw some_raised (
    refl,
    rw (cleared ef mask w) refl,
    rw (cleared ef mask w) refl,
    λ i h.
        op_bit and_Digitwise i ef.bits (complement mask)
        ∙ ap (min (bit i ef.bits)) (bit-complement 32 i mask h w.1),
  )
]

-- Words with the same bits are the same.
same_bits : (k a b : ℕ) → a < 2 ^ k → b < 2 ^ k → ((i : ℕ) → i < k → bit i a ≡ bit i b) → a ≡ b
same_bits zero a b ha hb h = omega arith
same_bits (suc k) a b ha hb h =
    let p = pow-suc 2 k in
    let rest : a / 2 ≡ b / 2 = same_bits k (a / 2) (b / 2) (omega arith) (omega arith) (λ i q.
      ap (λ x. x % 2) (sym (div_half i a))
      ∙ h (suc i) (omega arith)
      ∙ ap (λ x. x % 2) (div_half i b)) in
    let x : a / 2 ^ 0 ≡ a = omega arith in
    let y : b / 2 ^ 0 ≡ b = omega arith in omega (arith, h 0 (omega arith))

-- The flags of the mask are all raised, and none of them is.
abbrev pub AllRaised : EventFlags → ℕ → Type 0
AllRaised ef mask = (i : ℕ) → i < 32 → bit i mask ≡ 1 → bit i (get ef) ≡ 1

abbrev pub NoneRaised : EventFlags → ℕ → Type 0
NoneRaised ef mask = (i : ℕ) → i < 32 → bit i mask ≡ 1 → bit i (get ef) ≡ 0

module _ (ef : EventFlags) (mask : ℕ) (w : AreWords ef mask) where
  test_all-AllRaised : (test_all ef mask ≡ true) ↔ AllRaised ef mask
  unfolding test_all get
  test_all-AllRaised = (
    λ all i h on.
        omega (arith, ap (bit i) ((==_iff _ _).0 all), op_bit and_Digitwise i ef.bits mask),
    λ raised. (==_iff _ _).1 (
        same_bits 32 (bit_and ef.bits mask) mask (op_lt and_Digitwise 32 ef.bits mask w.0 w.1) w.1
          λ i h. op_bit and_Digitwise i ef.bits mask ∙ elim (ℕ_discrete (bit i mask) 1) [
            | yes on ↦ omega (arith, raised i h on)
            | no off ↦ omega arith
          ]),
  )

  test-NoneRaised : (test ef mask ≡ false) ↔ NoneRaised ef mask
  unfolding test get
  test-NoneRaised = (
    λ none i h on. omega (
      arith,
      ap (bit i) {x = bit_and ef.bits mask} {y = 0} (ground (arith, none)),
      bit_zero i,
      op_bit and_Digitwise i ef.bits mask,
    ),
    λ lowered. ap not (
        (==_iff _ _).1 (
          zero_of_bits 32 (bit_and ef.bits mask) (op_lt and_Digitwise 32 ef.bits mask w.0 w.1)
            λ i h. op_bit and_Digitwise i ef.bits mask ∙ elim (ℕ_discrete (bit i mask) 1) [
              | yes on ↦ omega (arith, lowered i h on)
              | no off ↦ omega arith
            ])),
  )

-- For a 32-bit flag word and mask, the test of all succeeds exactly where every flag of the mask is
-- raised, and the test of any fails exactly where none of them is.
pub test_all_bits :
    (ef : EventFlags) (mask : ℕ)
    → AreWords ef mask
    → ((test_all ef mask ≡ true) ↔ AllRaised ef mask)
      × ((test ef mask ≡ false) ↔ NoneRaised ef mask)
test_all_bits ef mask w = (test_all-AllRaised ef mask w, test-NoneRaised ef mask w)
