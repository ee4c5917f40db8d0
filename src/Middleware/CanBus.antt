-- ===== src/Middleware/CanBus.antt =====
-- src/middleware/nx_can_bus.h: CAN frames and the lengths that a data length code expresses.
pub mod Lengths
use nx_c_util.Base.{ℕ, Bool, List, [], ◌∷◌, leb, if◌then◌else◌, get_or}

-- `NX_CAN_MAX_DLC`, `NX_CAN_MAX_CLASSIC_LEN`, `NX_CAN_MAX_CH`
abbrev pub max_dlc : ℕ
max_dlc = 15

abbrev pub max_classic_len : ℕ
max_classic_len = 8

abbrev pub max_ch : ℕ
max_ch = 15

-- The fields of `nx_can_msg_t` that the transport reads or writes.
pub record Msg : Type 0 where
  pub id : ℕ
  pub ch : ℕ
  pub dlc : ℕ
  pub is_ext : Bool
  pub is_fd : Bool
  pub brs : Bool
  pub bytes : List ℕ

-- The table in `nx_can_dlc_to_len`
abbrev pub dlc_table : List ℕ
dlc_table = 0 ∷ 1 ∷ 2 ∷ 3 ∷ 4 ∷ 5 ∷ 6 ∷ 7 ∷ 8 ∷ 12 ∷ 16 ∷ 20 ∷ 24 ∷ 32 ∷ 48 ∷ 64 ∷ []

-- `nx_can_dlc_to_len`
unfoldable pub dlc_to_len : ℕ → ℕ
dlc_to_len dlc = if leb dlc max_dlc then get_or dlc_table dlc 0 else 0

-- `nx_can_len_to_dlc`
unfoldable pub len_to_dlc : ℕ → ℕ
len_to_dlc len =
    if leb len 8
    then len
    else if leb len 12
    then 9
    else if leb len 16
    then 10
    else if leb len 20
    then 11
    else if leb len 24
    then 12
    else if leb len 32
    then 13
    else if leb len 48
    then 14
    else 15
