-- ===== src/Middleware/ModbusRtu/Tests.antt =====
-- Runs of the frame CRC of nx_modbus_rtu.c, and the theorems about it at concrete inputs.
use nx_c_util.Base.{ℕ, ◌-◌, ◌≡◌, refl, arith, true, false, none, some, List, [], ◌∷◌, take}
use mathlib.Core.Option
use nx_c_util.Algo.Crc.{init, final, crc16_modbus}
use nx_c_util.Algo.Crc.Stream.{update_chunks, concat}
use nx_c_util.Middleware.ModbusRtu.{crc16_table, crc16, set_crc, check_crc}
use nx_c_util.Middleware.ModbusRtu.Equivalence.{crc16-crc16_modbus, final-update_chunks}
use nx_c_util.Middleware.ModbusRtu.Frame.{check_crc-set_crc}

-- Read ten holding registers of unit 1 from address 0, with room for the CRC.
abbrev request : List ℕ
request = 0x01 ∷ 0x03 ∷ 0x00 ∷ 0x00 ∷ 0x00 ∷ 0x0A ∷ 0x00 ∷ 0x00 ∷ []

abbrev sealed_request : List ℕ
sealed_request = 0x01 ∷ 0x03 ∷ 0x00 ∷ 0x00 ∷ 0x00 ∷ 0x0A ∷ 0xC5 ∷ 0xCD ∷ []

set_request : set_crc (some request) 8 ≡ (true, some sealed_request)
unfolding set_crc crc16_table
set_request = refl

check_request :
    (check_crc (some sealed_request) 8 ≡ true)
    × (check_crc (some request) 8 ≡ false)
    × (check_crc (some sealed_request) 4 ≡ false)
    × (check_crc none 8 ≡ false)
unfolding check_crc crc16_table
check_request = (refl, refl, refl, refl)

crc16-crc16_modbus_example :
    crc16 (some (0x01 ∷ 0x83 ∷ 0x02 ∷ [])) ≡ crc16_modbus (some (0x01 ∷ 0x83 ∷ 0x02 ∷ []))
crc16-crc16_modbus_example =
    crc16-crc16_modbus (0x01 ∷ 0x83 ∷ 0x02 ∷ []) (omega arith, (omega arith, (omega arith, tt)))

check_crc-set_crc_example :
    let (done, frame) = set_crc (some request) 8 in
    (done ≡ true)
    × (check_crc frame 8 ≡ true)
    × (Option.map (take (8 - 2)) frame ≡ some (take (8 - 2) request))
check_crc-set_crc_example = check_crc-set_crc request 8 (omega arith) (omega arith)

-- The unit and the function, nothing, and the exception code.
final-update_chunks_example :
    final (
      update_chunks
        (init 16 0x8005 0xFFFF true true 0)
        ((0x01 ∷ 0x83 ∷ []) ∷ [] ∷ (0x02 ∷ []) ∷ []))
    ≡ crc16 (some (0x01 ∷ 0x83 ∷ 0x02 ∷ []))
unfolding concat
final-update_chunks_example =
    final-update_chunks ((0x01 ∷ 0x83 ∷ []) ∷ [] ∷ (0x02 ∷ []) ∷ [])
      (omega arith, (omega arith, (omega arith, tt)))
