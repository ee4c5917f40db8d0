-- ===== src/Middleware/ModbusRtu/Table.antt =====
-- The lookup table against the shift register, by evaluation over all bytes and pairs of bytes.
use nx_c_util.Base.{
  ℕ, zero, suc, ◌+◌, ◌*◌, ◌/◌, ◌%◌, ◌^◌, ◌<◌, ◌≡◌, refl, arith, true, ◌==◌, ==_iff, if◌then◌else◌,
  bit_xor, get_or,
}
use nx_c_util.Base.Finite.{all_bytes, all_bytes_sound, all_pairs, all_pairs_sound}
use nx_c_util.Algo.Crc.{reflect8, reflect_width, shift_bit}
use nx_c_util.Middleware.ModbusRtu.{crc16_table}

-- One step of the reflected register, polynomial 0xA001.
unfoldable pub low_step : ℕ → ℕ
low_step y = if y % 2 == 0 then y / 2 else bit_xor (y / 2) 0xA001

unfoldable pub low_steps : ℕ → ℕ → ℕ
unfolding low_step
low_steps zero y = y
low_steps (suc n) y = low_steps n (low_step y)

-- The 16 bits of a register in the opposite order, as `nx_crc_reflect_width` gives them.
unfoldable pub mirror : ℕ → ℕ
unfolding reflect_width
mirror x = reflect_width x 16

table_check : all_bytes (λ i. get_or crc16_table i 0 == low_steps 8 i) ≡ true
unfolding all_bytes crc16_table low_steps
table_check = refl

high_check : all_pairs (λ h l. low_steps 8 (h * 256 + l) == bit_xor h (low_steps 8 l)) ≡ true
unfolding all_pairs low_steps
high_check = refl

step_check :
    all_pairs (λ h l. mirror (shift_bit 16 0x8005 (h * 256 + l)) == low_step (mirror (h * 256 + l)))
    ≡ true
unfolding all_pairs mirror shift_bit low_step
step_check = refl

mirror_check : all_pairs (λ h l. mirror (h * 256 + l) == reflect8 l * 256 + reflect8 h) ≡ true
unfolding all_pairs mirror reflect8
mirror_check = refl

reflect8_xor_check :
    all_pairs (λ x y. reflect8 (bit_xor x y) == bit_xor (reflect8 x) (reflect8 y)) ≡ true
unfolding all_pairs reflect8
reflect8_xor_check = refl

reflect8_twice_check : all_bytes (λ x. reflect8 (reflect8 x) == x) ≡ true
unfolding all_bytes reflect8
reflect8_twice_check = refl

pub table_lem : (i : ℕ) → i < 256 → get_or crc16_table i 0 ≡ low_steps 8 i
table_lem i h = (==_iff _ _).0 (all_bytes_sound _ i table_check h)

pub low_steps_split :
    (h l : ℕ) → h < 256 → l < 256 → low_steps 8 (h * 256 + l) ≡ bit_xor h (low_steps 8 l)
low_steps_split h l hh hl = (==_iff _ _).0 (all_pairs_sound _ h l high_check hh hl)

pub mirror-shift_bit : (x : ℕ) → x < 2 ^ 16 → mirror (shift_bit 16 0x8005 x) ≡ low_step (mirror x)
mirror-shift_bit x h =
    let e : x / 256 * 256 + x % 256 ≡ x = omega arith in
    rw e at (
      (==_iff _ _).0 (all_pairs_sound _ (x / 256) (x % 256) step_check (omega arith) (omega arith)))

pub mirror_bytes :
    (h l : ℕ) → h < 256 → l < 256 → mirror (h * 256 + l) ≡ reflect8 l * 256 + reflect8 h
mirror_bytes h l hh hl = (==_iff _ _).0 (all_pairs_sound _ h l mirror_check hh hl)

pub reflect8-xor :
    (x y : ℕ) → x < 256 → y < 256 → reflect8 (bit_xor x y) ≡ bit_xor (reflect8 x) (reflect8 y)
reflect8-xor x y hx hy = (==_iff _ _).0 (all_pairs_sound _ x y reflect8_xor_check hx hy)

pub reflect8_twice : (x : ℕ) → x < 256 → reflect8 (reflect8 x) ≡ x
reflect8_twice x h = (==_iff _ _).0 (all_bytes_sound _ x reflect8_twice_check h)
