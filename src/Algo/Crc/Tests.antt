-- ===== src/Algo/Crc/Tests.antt =====
-- The named variants at the check string of the CRC catalogue.
use nx_c_util.Base.{ℕ, ◌^◌, ◌<◌, ◌≡◌, refl, arith, true, some, List, [], ◌∷◌}
use nx_c_util.Algo.Crc.{
  crc8, crc8_itu, crc8_rohc, crc8_maxim, crc16_ibm, crc16_maxim, crc16_usb, crc16_modbus,
  crc16_ccitt, crc16_ccitt_false, crc16_x25, crc16_xmodem, crc32, crc32_mpeg2, init, update, final,
}
use nx_c_util.Algo.Crc.Bounds.{update-final-lt}

-- "123456789"
abbrev check_string : List ℕ
check_string = 0x31 ∷ 0x32 ∷ 0x33 ∷ 0x34 ∷ 0x35 ∷ 0x36 ∷ 0x37 ∷ 0x38 ∷ 0x39 ∷ []

check_values_8 :
    (crc8 (some check_string) ≡ 0xF4)
    × (crc8_itu (some check_string) ≡ 0xA1)
    × (crc8_rohc (some check_string) ≡ 0xD0)
    × (crc8_maxim (some check_string) ≡ 0xA1)
unfolding crc8 crc8_itu crc8_rohc crc8_maxim
check_values_8 = (refl, refl, refl, refl)

check_values_16 :
    (crc16_ibm (some check_string) ≡ 0xBB3D)
    × (crc16_maxim (some check_string) ≡ 0x44C2)
    × (crc16_usb (some check_string) ≡ 0xB4C8)
    × (crc16_modbus (some check_string) ≡ 0x4B37)
    × (crc16_ccitt (some check_string) ≡ 0x2189)
    × (crc16_ccitt_false (some check_string) ≡ 0x29B1)
    × (crc16_x25 (some check_string) ≡ 0x906E)
    × (crc16_xmodem (some check_string) ≡ 0x31C3)
unfolding crc16_ibm crc16_maxim crc16_usb crc16_modbus crc16_ccitt crc16_ccitt_false crc16_x25
    crc16_xmodem
check_values_16 = (refl, refl, refl, refl, refl, refl, refl, refl)

check_values_32 :
    (crc32 (some check_string) ≡ 0xCBF43926) × (crc32_mpeg2 (some check_string) ≡ 0x0376E6E7)
unfolding crc32 crc32_mpeg2
check_values_32 = (refl, refl)

update-final-lt_example :
    let ctx = update (init 12 0x180D 0xABCDE true true 0xFFFFF) (some check_string) in
    (ctx.reg < 2 ^ 12) × (final ctx < 2 ^ 12)
update-final-lt_example =
    update-final-lt 12 0x180D 0xABCDE 0xFFFFF true true (some check_string) (omega arith)
      (omega arith)
