-- ===== src/Middleware/CanIsotp.antt =====
-- src/middleware/nx_can_isotp.h and nx_can_isotp.c: the ISO 15765-2 transport. This file has its state.
-- The pool and the clock are functions in the configuration: whether the allocation of a number and a
-- size succeeds, and the clock's reading of a number; the state counts both. A queue is its items and how many it
-- holds, as Core.Queue.Refine has it; the messages in it are values, so a reference is the message.
pub mod Emit
pub mod Receive
pub mod Send
pub mod Process
pub mod Reassembly
mod Tests
use nx_c_util.Base.{
  ℕ, ◌+◌, ◌*◌, ◌-◌, Bool, true, false, not, ◌&&◌, Option, none, some, List, [], ◌∷◌, ◌++◌, length,
  ltb, leb, ◌==◌, if◌then◌else◌, ◌-32◌,
}
use nx_c_util.Middleware.CanBus.{Msg}

-- `nx_tp_ta_type_t`
pub data TaType : Type 0 where
  physical functional : TaType

abbrev pub is_functional : TaType → Bool
is_functional physical = false
is_functional functional = true

-- `nx_tp_sdu_kind_t`
pub data SduKind : Type 0 where
  indication confirmation : SduKind

-- `nx_tp_result_t`
pub data TpResult : Type 0 where
  n_ok n_timeout_a n_timeout_bs n_timeout_cr n_wrong_sn n_invalid_fs n_unexp_pdu n_wft_ovrn
        n_buffer_ovflw n_error :
      TpResult

-- `nx_tp_sdu_t`
pub record Sdu : Type 0 where
  pub len : ℕ
  pub link : ℕ
  pub kind : SduKind
  pub ta_type : TaType
  pub result : TpResult
  pub bytes : List ℕ

-- `NX_CAN_ISOTP_MSG_OVERHEAD` with pointers and `size_t` of 32 bits and data aligned to 8, and
-- `NX_CAN_ISOTP_MAX_MSG_LEN`
abbrev pub msg_overhead : ℕ
msg_overhead = 24

abbrev pub max_msg_len : ℕ
max_msg_len = 0xFFFFFFFF - msg_overhead

-- `nx_can_isotp_cfg_t`, less its queues.
pub record Cfg : Type 0 where
  pub max_frame_len : ℕ
  pub ext_id : Bool
  pub fd_frames : Bool
  pub brs : Bool
  pub pad_frames : Bool
  pub pad_byte : ℕ
  pub ch : ℕ
  pub phys_rx_id : ℕ
  pub phys_tx_id : ℕ
  pub func_rx_id : ℕ
  pub func_tx_id : ℕ
  pub pool : (count size : ℕ) → Bool
  pub link : ℕ
  pub confirm_tx : Bool
  pub get_us : (count : ℕ) → ℕ
  pub n_as_us : ℕ
  pub n_ar_us : ℕ
  pub n_bs_us : ℕ
  pub n_cr_us : ℕ
  pub n_wft_max : ℕ
  pub rx_max_len : ℕ
  pub rx_block_size : ℕ
  pub rx_stmin : ℕ
  pub tx_frames_per_process : ℕ

-- `NX_ISOTP_RX_IDLE` and its kin
pub data RxState : Type 0 where
  idle assem fc_wait : RxState

abbrev pub is_idle : RxState → Bool
is_idle idle = true
is_idle assem = false
is_idle fc_wait = false

abbrev pub is_assem : RxState → Bool
is_assem idle = false
is_assem assem = true
is_assem fc_wait = false

abbrev pub is_fc_wait : RxState → Bool
is_fc_wait idle = false
is_fc_wait assem = false
is_fc_wait fc_wait = true

-- `nx_can_isotp_rx_t`
pub record Rx : Type 0 where
  pub state : RxState
  pub sn : ℕ
  pub block_left : ℕ
  pub total : ℕ
  pub filled : ℕ
  pub acc : Option Sdu
  pub deadline : ℕ

-- `NX_ISOTP_TX_IDLE` and its kin
pub data TxState : Type 0 where
  at_rest wait_fc sending wait_link : TxState

-- `nx_can_isotp_tx_t`
pub record Tx : Type 0 where
  pub state : TxState
  pub sn : ℕ
  pub bs : ℕ
  pub wft : ℕ
  pub ta_type : TaType
  pub sent : ℕ
  pub total : ℕ
  pub stmin_us : ℕ
  pub last_us : ℕ
  pub deadline : ℕ
  pub tx_id : ℕ
  pub sdu : Option Sdu

-- A queue of messages.
pub record Mailbox (A : Type 0) : Type 0 where
  pub items : List A
  pub capacity : ℕ

-- `nx_ref_msg_publish`: the queue afterwards, or nothing where it was full.
unfoldable pub publish : {A : Type 0} → Mailbox A → A → Option (Mailbox A)
publish q m =
    if leb q.capacity (length q.items) then none else some (record q { items = q.items ++ m ∷ [] })

-- `nx_can_isotp_t` with its queues, and how often it has allocated and read the clock.
pub record Isotp : Type 0 where
  pub cfg : Cfg
  pub rx : Rx
  pub tx : Tx
  pub sdu_rx : Mailbox Sdu
  pub sdu_tx : Mailbox Sdu
  pub can_rx : Mailbox Msg
  pub can_tx : Mailbox Msg
  pub allocs : ℕ
  pub reads : ℕ

-- `istp_now`; `read` is the state after it.
abbrev pub now : Isotp → ℕ
now iso = iso.cfg.get_us iso.reads

abbrev pub read : Isotp → Isotp
read iso = record iso { reads = iso.reads + 1 }

-- `nx_ref_msg_alloc`: whether it succeeds; `allocated` is the state after it.
abbrev pub alloc : Isotp → (size : ℕ) → Bool
alloc iso size = iso.cfg.pool iso.allocs size

abbrev pub allocated : Isotp → Isotp
allocated iso = record iso { allocs = iso.allocs + 1 }

-- `istp_stmin_to_us`
unfoldable pub stmin_to_us : ℕ → ℕ
stmin_to_us st =
    if leb 1 st && leb st 0x7F
    then st * 1000
    else if leb 0xF1 st && leb st 0xF9
    then (st - 0xF0) * 100
    else 0

-- `istp_sdu_head`, with the payload.
abbrev pub sdu_of : Isotp → SduKind → TaType → TpResult → List ℕ → (len : ℕ) → Sdu
sdu_of iso kind ta_type result bytes len = record {
  len = len;
  link = iso.cfg.link;
  kind = kind;
  ta_type = ta_type;
  result = result;
  bytes = bytes;
}

-- Publishing to the upper layer: a full queue drops the message.
unfoldable pub to_upper : Isotp → Sdu → Isotp
to_upper iso sdu = elim (publish iso.sdu_tx sdu) [ none ↦ iso | some q ↦ record iso { sdu_tx = q } ]

-- What `istp_tx_confirm` and `istp_rx_abort` report without payload.
unfoldable pub report : Isotp → SduKind → TpResult → Isotp
report iso kind result =
    if not iso.cfg.confirm_tx
    then iso
    else if not (alloc iso 8)
    then allocated iso
    else to_upper (allocated iso) (sdu_of iso kind physical result [] 0)
