-- ===== src/Algo/Crc.antt =====
-- src/algo/nx_crc.h and src/algo/nx_crc.c: the CRC core for any width, fed byte by byte, and the named
-- variants. `data` is the list of the bytes given, `none` where the pointer is NULL.
pub mod Stream
pub mod Bounds
mod Tests
use nx_c_util.Base.{
  ℕ, zero, suc, ◌-◌, ◌-32◌, ◌^◌, Bool, true, false, not, Option, none, some, List, [], ◌∷◌, ◌==◌,
  leb, if◌then◌else◌, ◌<<◌, ◌>>◌, u8, u16, u32, bit_and, bit_or, bit_xor,
}

-- `nx_crc_reflect8`
unfoldable pub reflect8 : ℕ → ℕ
reflect8 v0 =
    let v1 = u8 (bit_or (bit_and v0 0x55 << 1) (bit_and v0 0xAA >> 1)) in
    let v2 = u8 (bit_or (bit_and v1 0x33 << 2) (bit_and v1 0xCC >> 2)) in
    u8 (bit_or (bit_and v2 0x0F << 4) (bit_and v2 0xF0 >> 4))

-- `nx_crc_reflect32`
unfoldable pub reflect32 : ℕ → ℕ
reflect32 v0 =
    let v1 = bit_or (u32 (bit_and v0 0x55555555 << 1)) (bit_and v0 0xAAAAAAAA >> 1) in
    let v2 = bit_or (u32 (bit_and v1 0x33333333 << 2)) (bit_and v1 0xCCCCCCCC >> 2) in
    let v3 = bit_or (u32 (bit_and v2 0x0F0F0F0F << 4)) (bit_and v2 0xF0F0F0F0 >> 4) in
    let v4 = bit_or (u32 (bit_and v3 0x00FF00FF << 8)) (bit_and v3 0xFF00FF00 >> 8) in
    bit_or (u32 (bit_and v4 0x0000FFFF << 16)) (bit_and v4 0xFFFF0000 >> 16)

-- `nx_crc_reflect_width`
unfoldable pub reflect_width : ℕ → ℕ → ℕ
unfolding reflect32
reflect_width v width = reflect32 v >> (32 - width)

-- `nx_crc_width_mask`
unfoldable pub width_mask : ℕ → ℕ
width_mask width = if leb 32 width then 0xFFFFFFFF else 2 ^ width - 1

-- `nx_crc_ctx_t`
pub record Ctx : Type 0 where
  pub reg : ℕ
  pub poly : ℕ
  pub xorout : ℕ
  pub width : ℕ
  pub refin : Bool
  pub refout : Bool

-- `nx_crc_init`
unfoldable pub init : ℕ → ℕ → ℕ → Bool → Bool → ℕ → Ctx
unfolding width_mask
init width poly start refin refout xorout =
    let mask = width_mask width in
    record {
      reg = bit_and start mask;
      poly = bit_and poly mask;
      xorout = bit_and xorout mask;
      width = width;
      refin = refin;
      refout = refout;
    }

-- One round of the inner loop of `nx_crc_update`; the shift is defined for a width from 1 to 32.
unfoldable pub shift_bit : (width poly reg : ℕ) → ℕ
unfolding width_mask
shift_bit width poly reg =
    if bit_and reg (1 << (width -32 1)) == 0
    then bit_and (u32 (reg << 1)) (width_mask width)
    else bit_and (bit_xor (u32 (reg << 1)) poly) (width_mask width)

-- The inner loop, with the rounds left.
unfoldable pub shift_bits : ℕ → (width poly reg : ℕ) → ℕ
unfolding shift_bit
shift_bits zero width poly reg = reg
shift_bits (suc n) width poly reg = shift_bits n width poly (shift_bit width poly reg)

-- One round of the outer loop; the shift is defined for a width from 8 to 39.
unfoldable pub feed_byte : Ctx → ℕ → ℕ → ℕ
unfolding shift_bits reflect8
feed_byte ctx reg p =
    let byte = if ctx.refin then reflect8 p else p in
    shift_bits 8 ctx.width ctx.poly (bit_xor reg (u32 (byte << (ctx.width -32 8))))

-- The outer loop: the register after all bytes.
unfoldable pub feed : Ctx → ℕ → List ℕ → ℕ
unfolding feed_byte
feed ctx reg [] = reg
feed ctx reg (p ∷ ps) = feed ctx (feed_byte ctx reg p) ps

-- `nx_crc_update`
unfoldable pub update : Ctx → Option (List ℕ) → Ctx
unfolding feed
update ctx none = ctx
update ctx (some bytes) = record ctx { reg = feed ctx ctx.reg bytes }

-- `nx_crc_final`
unfoldable pub final : Ctx → ℕ
unfolding reflect_width width_mask
final ctx =
    let reg = if ctx.refout then reflect_width ctx.reg ctx.width else ctx.reg in
    bit_and (bit_xor reg ctx.xorout) (width_mask ctx.width)

-- `nx_crc8_compute`
unfoldable pub crc8_compute : Option (List ℕ) → ℕ → ℕ → Bool → Bool → ℕ → ℕ
unfolding init update final
crc8_compute bytes poly start refin refout xorout =
    u8 (final (update (init 8 poly start refin refout xorout) bytes))

-- `nx_crc16_compute`
unfoldable pub crc16_compute : Option (List ℕ) → ℕ → ℕ → Bool → Bool → ℕ → ℕ
unfolding init update final
crc16_compute bytes poly start refin refout xorout =
    u16 (final (update (init 16 poly start refin refout xorout) bytes))

-- `nx_crc32_compute`
unfoldable pub crc32_compute : Option (List ℕ) → ℕ → ℕ → Bool → Bool → ℕ → ℕ
unfolding init update final
crc32_compute bytes poly start refin refout xorout =
    final (update (init 32 poly start refin refout xorout) bytes)

-- `nx_crc8`
unfoldable pub crc8 : Option (List ℕ) → ℕ
unfolding crc8_compute
crc8 bytes = crc8_compute bytes 0x07 0x00 false false 0x00

-- `nx_crc8_itu`
unfoldable pub crc8_itu : Option (List ℕ) → ℕ
unfolding crc8_compute
crc8_itu bytes = crc8_compute bytes 0x07 0x00 false false 0x55

-- `nx_crc8_rohc`
unfoldable pub crc8_rohc : Option (List ℕ) → ℕ
unfolding crc8_compute
crc8_rohc bytes = crc8_compute bytes 0x07 0xFF true true 0x00

-- `nx_crc8_maxim`
unfoldable pub crc8_maxim : Option (List ℕ) → ℕ
unfolding crc8_compute
crc8_maxim bytes = crc8_compute bytes 0x31 0x00 true true 0x00

-- `nx_crc16_ibm`
unfoldable pub crc16_ibm : Option (List ℕ) → ℕ
unfolding crc16_compute
crc16_ibm bytes = crc16_compute bytes 0x8005 0x0000 true true 0x0000

-- `nx_crc16_maxim`
unfoldable pub crc16_maxim : Option (List ℕ) → ℕ
unfolding crc16_compute
crc16_maxim bytes = crc16_compute bytes 0x8005 0x0000 true true 0xFFFF

-- `nx_crc16_usb`
unfoldable pub crc16_usb : Option (List ℕ) → ℕ
unfolding crc16_compute
crc16_usb bytes = crc16_compute bytes 0x8005 0xFFFF true true 0xFFFF

-- `nx_crc16_modbus`
unfoldable pub crc16_modbus : Option (List ℕ) → ℕ
unfolding crc16_compute
crc16_modbus bytes = crc16_compute bytes 0x8005 0xFFFF true true 0x0000

-- `nx_crc16_ccitt`
unfoldable pub crc16_ccitt : Option (List ℕ) → ℕ
unfolding crc16_compute
crc16_ccitt bytes = crc16_compute bytes 0x1021 0x0000 true true 0x0000

-- `nx_crc16_ccitt_false`
unfoldable pub crc16_ccitt_false : Option (List ℕ) → ℕ
unfolding crc16_compute
crc16_ccitt_false bytes = crc16_compute bytes 0x1021 0xFFFF false false 0x0000

-- `nx_crc16_x25`
unfoldable pub crc16_x25 : Option (List ℕ) → ℕ
unfolding crc16_compute
crc16_x25 bytes = crc16_compute bytes 0x1021 0xFFFF true true 0xFFFF

-- `nx_crc16_xmodem`
unfoldable pub crc16_xmodem : Option (List ℕ) → ℕ
unfolding crc16_compute
crc16_xmodem bytes = crc16_compute bytes 0x1021 0x0000 false false 0x0000

-- `nx_crc32`
unfoldable pub crc32 : Option (List ℕ) → ℕ
unfolding crc32_compute
crc32 bytes = crc32_compute bytes 0x04C11DB7 0xFFFFFFFF true true 0xFFFFFFFF

-- `nx_crc32_mpeg2`
unfoldable pub crc32_mpeg2 : Option (List ℕ) → ℕ
unfolding crc32_compute
crc32_mpeg2 bytes = crc32_compute bytes 0x04C11DB7 0xFFFFFFFF false false 0x00000000
