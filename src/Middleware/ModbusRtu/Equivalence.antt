-- ===== src/Middleware/ModbusRtu/Equivalence.antt =====
-- The table-driven CRC of nx_modbus_rtu.c computes what nx_crc16_modbus of nx_crc.c computes.
use nx_c_util.Base.{
  ◌-◌, ℕ, zero, suc, ◌+◌, ◌*◌, ◌/◌, ◌%◌, ◌^◌, ◌<◌, ◌≡◌, refl, sym, ap, ◌∙◌, arith, true, some, List,
  [], ◌∷◌, bit_xor, bit_and, get_or, u16, u32,
}
use native.Mathlib.Nat.{mod-eq_of_lt}
use nx_c_util.Base.Bits.{op_split, op_lt, xor-Digitwise, and_mask, xor_zero}
use nx_c_util.Algo.Crc.{
  Ctx, init, update, final, reflect8, shift_bit, shift_bits, feed_byte, feed, crc16_modbus,
  width_mask,
}
use nx_c_util.Algo.Crc.Bounds.{final-lt}
use nx_c_util.Algo.Crc.Stream.{update_chunks, concat, chunks_whole}
use nx_c_util.Middleware.ModbusRtu.{crc16_table, crc_byte, crc_bytes, crc16}
use nx_c_util.Middleware.ModbusRtu.Table.{
  low_steps, mirror, table_lem, low_steps_split, mirror-shift_bit, mirror_bytes, reflect8-xor,
  reflect8_twice,
}

-- Every byte of the data is a byte.
abbrev pub AreBytes : List ℕ → Type 0
AreBytes [] = Unit
AreBytes (b ∷ bs) = (b < 256) × AreBytes bs

shift_bit-lt : (x : ℕ) → shift_bit 16 0x8005 x < 2 ^ 16
unfolding shift_bit width_mask
shift_bit-lt x =
    ground (arith, and_mask 16 (u32 (x * 2)), and_mask 16 (bit_xor (u32 (x * 2)) 0x8005))

mirror-shift_bits :
    (n x : ℕ) → x < 2 ^ 16 → mirror (shift_bits n 16 0x8005 x) ≡ low_steps n (mirror x)
unfolding shift_bits low_steps
mirror-shift_bits zero x h = refl
mirror-shift_bits (suc n) x h =
    mirror-shift_bits n (shift_bit 16 0x8005 x) (shift_bit-lt x)
    ∙ ap (low_steps n) (mirror-shift_bit x h)

reflect8-lt : (x : ℕ) → reflect8 x < 256
unfolding reflect8
reflect8-lt x = omega arith

mirror_halves : (x : ℕ) → x < 2 ^ 16 → mirror x ≡ reflect8 (x % 256) * 256 + reflect8 (x / 256)
mirror_halves x h =
    ap mirror {y = x / 256 * 256 + x % 256} (omega arith)
    ∙ mirror_bytes (x / 256) (x % 256) (omega arith) (omega arith)

mirror-lt : (x : ℕ) → x < 2 ^ 16 → mirror x < 2 ^ 16
mirror-lt x h = omega (arith, mirror_halves x h, reflect8-lt (x % 256), reflect8-lt (x / 256))

-- Exclusive or with a byte changes the lower half, and with a byte shifted up the upper half.
xor_low : (y b : ℕ) → b < 256 → bit_xor y b ≡ y / 256 * 256 + bit_xor (y % 256) b
xor_low y b h =
    let q : b / 2 ^ 8 ≡ 0 = omega arith in
    let r : b % 2 ^ 8 ≡ b = omega arith in
    op_split xor-Digitwise 8 y b ∙ rw (q, r, xor_zero (y / 256)) refl

xor_high : (x c : ℕ) → bit_xor x (c * 256) ≡ bit_xor (x / 256) c * 256 + x % 256
xor_high x c =
    let q : c * 256 / 2 ^ 8 ≡ c = omega arith in
    let r : c * 256 % 2 ^ 8 ≡ 0 = omega arith in
    op_split xor-Digitwise 8 x (c * 256) ∙ rw (q, r, xor_zero (x % 256)) refl

-- Feeding a byte into the top of the register mirrors to feeding it into the bottom.
mirror-feed :
    (x b : ℕ) → x < 2 ^ 16 → b < 256 → mirror (bit_xor x (reflect8 b * 256)) ≡ bit_xor (mirror x) b
mirror-feed x b hx hb =
    ap mirror (xor_high x (reflect8 b))
    ∙ mirror_bytes (bit_xor (x / 256) (reflect8 b)) (x % 256)
        (op_lt xor-Digitwise 8 (x / 256) (reflect8 b) (omega arith) (reflect8-lt b)) (omega arith)
    ∙ ap (λ n. reflect8 (x % 256) * 256 + n)
        (reflect8-xor (x / 256) (reflect8 b) (omega arith) (reflect8-lt b)
          ∙ ap (bit_xor (reflect8 (x / 256))) (reflect8_twice b hb))
    ∙ sym (
        ap (λ n. bit_xor n b) (mirror_halves x hx)
        ∙ xor_low (reflect8 (x % 256) * 256 + reflect8 (x / 256)) b hb
        ∙ rw (parts.0, parts.1) refl)
  where
    parts :
        ((reflect8 (x % 256) * 256 + reflect8 (x / 256)) / 256 ≡ reflect8 (x % 256))
        × ((reflect8 (x % 256) * 256 + reflect8 (x / 256)) % 256 ≡ reflect8 (x / 256))
    parts = omega (arith, reflect8-lt (x / 256))

-- Eight steps of the low register are one lookup.
low_steps-lookup :
    (y : ℕ) → y < 2 ^ 16 → low_steps 8 y ≡ bit_xor (y / 256) (get_or crc16_table (y % 256) 0)
low_steps-lookup y h =
    ap (low_steps 8) {y = y / 256 * 256 + y % 256} (omega arith)
    ∙ low_steps_split (y / 256) (y % 256) (omega arith) (omega arith)
    ∙ ap (bit_xor (y / 256)) (sym (table_lem (y % 256) (omega arith)))

modbus_ctx : ℕ → Ctx
modbus_ctx reg = record {
  reg = reg;
  poly = 0x8005;
  xorout = 0;
  width = 16;
  refin = true;
  refout = true;
}

shift_bits-lt : (n x : ℕ) → x < 2 ^ 16 → shift_bits n 16 0x8005 x < 2 ^ 16
unfolding shift_bits
shift_bits-lt zero x h = h
shift_bits-lt (suc n) x h = shift_bits-lt n (shift_bit 16 0x8005 x) (shift_bit-lt x)

module _ (x start b : ℕ) (hx : x < 2 ^ 16) (hb : b < 256) where
  fed : ℕ
  fed = bit_xor x (reflect8 b * 256)

  fed-lt : fed < 2 ^ 16
  unfolding fed
  fed-lt = op_lt xor-Digitwise 16 x (reflect8 b * 256) hx (omega (arith, reflect8-lt b))

  feed_byte-shift_bits : feed_byte (modbus_ctx start) x b ≡ shift_bits 8 16 0x8005 fed
  unfolding feed_byte modbus_ctx fed
  feed_byte-shift_bits =
      ap (λ c. shift_bits 8 16 0x8005 (bit_xor x c)) {x = u32 (reflect8 b * 2 ^ 8)}
        (omega (arith, reflect8-lt b))

  feed_byte-lt : feed_byte (modbus_ctx start) x b < 2 ^ 16
  feed_byte-lt = rw feed_byte-shift_bits (shift_bits-lt 8 fed fed-lt)

  mixed-lt : bit_xor (mirror x) b < 2 ^ 16
  mixed-lt = op_lt xor-Digitwise 16 (mirror x) b (mirror-lt x hx) (omega arith)

  mixed_high : bit_xor (mirror x) b / 256 ≡ mirror x / 256
  mixed_high = omega (
    arith,
    xor_low (mirror x) b hb,
    op_lt xor-Digitwise 8 (mirror x % 256) b (omega arith) (omega arith),
  )

  mirror-fed :
      mirror (feed_byte (modbus_ctx start) x b)
      ≡ bit_xor (mirror x / 256) (get_or crc16_table (bit_xor (mirror x) b % 256) 0)
  mirror-fed =
      ap mirror feed_byte-shift_bits
      ∙ mirror-shift_bits 8 fed fed-lt
      ∙ ap (low_steps 8) {y = bit_xor (mirror x) b} (unfold fed in mirror-feed x b hx hb)
      ∙ low_steps-lookup (bit_xor (mirror x) b) mixed-lt
      ∙ ap (λ h. bit_xor h (get_or crc16_table (bit_xor (mirror x) b % 256) 0)) mixed_high

  -- One byte: the mirrored register goes where the table sends it.
  mirror-feed_byte : mirror (feed_byte (modbus_ctx start) x b) ≡ crc_byte (mirror x) b
  mirror-feed_byte =
      mirror-fed
      ∙ sym (
          crc_byte_eq
            (omega (arith, mirror-lt (feed_byte (modbus_ctx start) x b) feed_byte-lt, mirror-fed)))
    where
      crc_byte_eq :
          bit_xor (mirror x / 256) (get_or crc16_table (bit_xor (mirror x) b % 256) 0) < 2 ^ 16
          → crc_byte (mirror x) b
            ≡ bit_xor (mirror x / 256) (get_or crc16_table (bit_xor (mirror x) b % 256) 0)
      crc_byte_eq h = unfold crc_byte in mod-eq_of_lt h

-- All bytes.
mirror-feed_all :
    (x start : ℕ) (bs : List ℕ)
    → x < 2 ^ 16
    → AreBytes bs
    → (mirror (feed (modbus_ctx start) x bs) ≡ crc_bytes (mirror x) bs)
      × (feed (modbus_ctx start) x bs < 2 ^ 16)
unfolding feed crc_bytes
mirror-feed_all x start [] h w = (refl, h)
mirror-feed_all x start (b ∷ bs) h w =
    let ih =
      mirror-feed_all (feed_byte (modbus_ctx start) x b) start bs (feed_byte-lt x start b h w.0)
        w.1 in
    (ih.0 ∙ ap (λ c. crc_bytes c bs) (mirror-feed_byte x start b h w.0), ih.1)

-- What `nx_crc_final` makes of the register.
finish : (r : ℕ) → r < 2 ^ 16 → u16 (bit_and (bit_xor (mirror r) 0) (2 ^ 16 - 1)) ≡ mirror r
finish r h =
    rw (and_mask 16 (bit_xor (mirror r) 0), xor_zero (mirror r)) (omega (arith, mirror-lt r h))

-- On every sequence of bytes the table-driven CRC-16/MODBUS gives the value of the generic one.
pub crc16-crc16_modbus : (bs : List ℕ) → AreBytes bs → crc16 (some bs) ≡ crc16_modbus (some bs)
unfolding crc16 crc16_modbus modbus_ctx mirror
crc16-crc16_modbus bs w =
    let m = mirror-feed_all 0xFFFF 0xFFFF bs (omega arith) w in
    sym m.0 ∙ sym (finish (feed (modbus_ctx 0xFFFF) 0xFFFF bs) m.1)

-- A MODBUS frame that is fed to the generic CRC in pieces, however it is cut, gives the CRC that the
-- table gives of the whole frame.
pub final-update_chunks :
    (cs : List (List ℕ))
    → AreBytes (concat cs)
    → final (update_chunks (init 16 0x8005 0xFFFF true true 0) cs) ≡ crc16 (some (concat cs))
unfolding crc16_modbus
final-update_chunks cs w =
    let whole = update (init 16 0x8005 0xFFFF true true 0) (some (concat cs)) in
    ap final (chunks_whole (init 16 0x8005 0xFFFF true true 0) cs)
    ∙ sym (mod-eq_of_lt (final-lt whole (unfold update in omega arith)))
    ∙ sym (crc16-crc16_modbus (concat cs) w)
