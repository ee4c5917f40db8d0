-- ===== src/Middleware/Uds.antt =====
-- src/middleware/nx_uds.h: what the server and a service handler pass to each other.
use nx_c_util.Base.{ℕ, Bool, true, false, List, bit_or, u8}

-- `nx_uds_phase_t`
pub data Phase : Type 0 where
  request resume response confirm link_error silence abort : Phase

-- `nx_uds_disposition_t`
pub data Disposition : Type 0 where
  done pending negative no_response : Disposition

abbrev pub is_done : Disposition → Bool
is_done done = true
is_done pending = false
is_done negative = false
is_done no_response = false

-- `nx_uds_ctx_t`, less the pointer that is the handler's own.
pub record Ctx : Type 0 where
  pub phase : Phase
  pub req : List ℕ
  pub req_len : ℕ
  pub sid : ℕ
  pub sub : ℕ
  pub has_sub : Bool
  pub suppress_pos : Bool
  pub ta_type : ℕ
  pub link : ℕ
  pub session : ℕ
  pub sec_level : ℕ
  pub out : List ℕ
  pub out_cap : ℕ
  pub out_len : ℕ
  pub nrc : ℕ
  pub result : ℕ

-- What a handler leaves: the disposition, the transaction, the state it acts on.
pub record Outcome (S : Type 0) : Type 0 where
  pub disposition : Disposition
  pub ctx : Ctx
  pub state : S

-- `NX_UDS_SID_TO_POS_RSP`
abbrev pub positive_sid : ℕ → ℕ
positive_sid sid = u8 (bit_or sid 0x40)
