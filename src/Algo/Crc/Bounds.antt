-- ===== src/Algo/Crc/Bounds.antt =====
-- The register and the result fit the width.
use nx_c_util.Base.{
  ℕ, zero, suc, ◌-32◌, ◌^◌, ◌≤◌, ◌<◌, ◌≡◌, refl, ap, ◌∙◌, arith, Bool, false, Bool-cases, inl, inr,
  Option, none, some, List, [], ◌∷◌, ◌==◌, leb, bit_and, bit_xor, u32, ◌<<◌,
}
use nx_c_util.Base.Bits.{and_mask, pow_pos}
use native.Mathlib.Nat.{mod-lt}
use native.Mathlib.Decide.{ℕ_discrete}
use nx_c_util.Algo.Crc.{
  Ctx, width_mask, shift_bit, shift_bits, feed_byte, feed, init, update, final,
}

mask-lt : (x width : ℕ) → width ≤ 32 → bit_and x (width_mask width) < 2 ^ width
unfolding width_mask
mask-lt x width h = elim (ℕ_discrete width 32) [
  | yes e ↦ rw e (omega (arith, and_mask 32 x))
  | no ne ↦
      let short : leb 32 width ≡ false = ground arith in
      rw (short, and_mask width x) (mod-lt x (pow_pos width x))
]

shift_bit-lt : (width poly reg : ℕ) → width ≤ 32 → shift_bit width poly reg < 2 ^ width
unfolding shift_bit
shift_bit-lt width poly reg h = elim (Bool-cases (bit_and reg (1 << (width -32 1)) == 0)) [
  | inl e ↦ rw e (mask-lt (u32 (reg << 1)) width h)
  | inr e ↦ rw e (mask-lt (bit_xor (u32 (reg << 1)) poly) width h)
]

shift_bits-lt : (n width poly reg : ℕ) → width ≤ 32 → shift_bits (suc n) width poly reg < 2 ^ width
unfolding shift_bits
shift_bits-lt zero width poly reg h = shift_bit-lt width poly reg h
shift_bits-lt (suc n) width poly reg h = shift_bits-lt n width poly (shift_bit width poly reg) h

feed_byte-lt : (ctx : Ctx) (reg b : ℕ) → ctx.width ≤ 32 → feed_byte ctx reg b < 2 ^ ctx.width
unfolding feed_byte
feed_byte-lt ctx reg b h = shift_bits-lt 7 ctx.width ctx.poly _ h

feed-lt :
    (ctx : Ctx) (reg : ℕ) (bs : List ℕ)
    → ctx.width ≤ 32
    → reg < 2 ^ ctx.width
    → feed ctx reg bs < 2 ^ ctx.width
unfolding feed
feed-lt ctx reg [] h lt = lt
feed-lt ctx reg (b ∷ bs) h lt = feed-lt ctx (feed_byte ctx reg b) bs h (feed_byte-lt ctx reg b h)

update-lt :
    (ctx : Ctx) (bytes : Option (List ℕ))
    → ctx.width ≤ 32
    → ctx.reg < 2 ^ ctx.width
    → (update ctx bytes).reg < 2 ^ ctx.width
unfolding update
update-lt ctx none h lt = lt
update-lt ctx (some bs) h lt = feed-lt ctx ctx.reg bs h lt

update-width : (ctx : Ctx) (bytes : Option (List ℕ)) → (update ctx bytes).width ≡ ctx.width
unfolding update
update-width ctx none = refl
update-width ctx (some bs) = refl

pub final-lt : (ctx : Ctx) → ctx.width ≤ 32 → final ctx < 2 ^ ctx.width
unfolding final
final-lt ctx h = mask-lt _ ctx.width h

init-lt :
    (width poly start xorout : ℕ) (refin refout : Bool)
    → width ≤ 32
    → (init width poly start refin refout xorout).reg < 2 ^ width
unfolding init
init-lt width poly start xorout refin refout h = mask-lt start width h

init-width :
    (width poly start xorout : ℕ) (refin refout : Bool)
    → (init width poly start refin refout xorout).width ≡ width
unfolding init
init-width width poly start xorout refin refout = refl

-- For a width from 8 to 32, whatever the other parameters and the data, the register after an
-- initialisation and an update, and the result, are numbers of `width` bits.
pub update-final-lt :
    (width poly start xorout : ℕ) (refin refout : Bool) (bytes : Option (List ℕ))
    → 8 ≤ width
    → width ≤ 32
    → let ctx = update (init width poly start refin refout xorout) bytes in
      (ctx.reg < 2 ^ width) × (final ctx < 2 ^ width)
update-final-lt width poly start xorout refin refout bytes low h =
    let ctx = init width poly start refin refout xorout in
    let same : ctx.width ≡ width = init-width width poly start xorout refin refout in
    let kept : (update ctx bytes).width ≡ width = update-width ctx bytes ∙ same in
    let start-lt : ctx.reg < 2 ^ ctx.width =
      omega (arith, ap (λ w. 2 ^ w) same, init-lt width poly start xorout refin refout h) in
    (
      omega (arith, ap (λ w. 2 ^ w) same, update-lt ctx bytes (omega arith) start-lt),
      omega (arith, ap (λ w. 2 ^ w) kept, final-lt (update ctx bytes) (omega arith)),
    )
