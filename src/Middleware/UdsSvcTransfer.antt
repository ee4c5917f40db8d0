-- ===== src/Middleware/UdsSvcTransfer.antt =====
-- src/middleware/nx_uds_svc_transfer.h: the state of the memory transfer services 0x34, 0x35, 0x36 and
-- 0x37, and the application's callbacks. `M` is the application behind the `user` pointer: a callback takes
-- it and gives it back.
pub mod Fields
pub mod Open
pub mod Block
pub mod Close
mod Tests
use nx_c_util.Base.{
  ℕ, ◌-◌, Bool, true, false, ◌&&◌, Option, none, some, List, ltb, ◌==◌, if◌then◌else◌,
}
use nx_c_util.Middleware.Uds.{Disposition, Ctx, negative}

-- `nx_uds_svc_transfer_dir_t`
pub data Dir : Type 0 where
  closed download upload : Dir

-- `NX_UDS_SVC_TRANSFER_BLOCK_OVERHEAD`, `NX_UDS_SVC_TRANSFER_FIRST_BSC`
abbrev pub block_overhead : ℕ
block_overhead = 2

abbrev pub first_bsc : ℕ
first_bsc = 1

-- `nx_uds_svc_transfer_payload_room`
unfoldable pub payload_room : ℕ → ℕ
payload_room block_len = if ltb block_overhead block_len then block_len - block_overhead else 0

-- What `nx_uds_server_apdu_limits` reports of the server.
pub record Limits : Type 0 where
  pub max_req_apdu : ℕ
  pub max_resp_apdu : ℕ

-- The callbacks. Each gives its result and the application; `open_fn` also the block length and the
-- reason for a refusal that stand afterwards, `write_fn` the reason, `read_fn` the bytes it wrote and the
-- reason, `close_fn` the bytes it wrote, the length it reports and the reason.
abbrev pub OpenFn : Type 0 → Type 0
OpenFn M = M → Dir → (addr size format block_len nrc : ℕ) → Bool × M × ℕ × ℕ

abbrev pub WriteFn : Type 0 → Type 0
WriteFn M = M → (addr : ℕ) → List ℕ → (nrc : ℕ) → Bool × M × ℕ

abbrev pub ReadFn : Type 0 → Type 0
ReadFn M = M → (addr len nrc : ℕ) → Bool × M × List ℕ × ℕ

abbrev pub CloseFn : Type 0 → Type 0
CloseFn M = M → Dir → (done size : ℕ) → List ℕ → (out_cap nrc : ℕ) → Bool × M × List ℕ × ℕ × ℕ

-- `nx_uds_svc_transfer_cfg_t`
pub record Cfg (M : Type 0) : Type 0 where
  pub srv : Option Limits
  pub open_fn : Option (OpenFn M)
  pub write_fn : Option (WriteFn M)
  pub read_fn : Option (ReadFn M)
  pub close_fn : Option (CloseFn M)
  pub max_block_len : ℕ
  pub bsc_error_nrc : ℕ
  pub require_full_size : Bool

-- The member `run` of `nx_uds_svc_transfer_t`.
pub record Run : Type 0 where
  pub dir : Dir
  pub addr : ℕ
  pub size : ℕ
  pub sent : ℕ
  pub block_len : ℕ
  pub bsc_next : ℕ
  pub bsc_last : ℕ
  pub committed : Bool
  pub last_len : ℕ

-- `xfer_clear`
unfoldable pub cleared : Run
cleared = record {
  dir = closed;
  addr = 0;
  size = 0;
  sent = 0;
  block_len = 0;
  bsc_next = 0;
  bsc_last = 0;
  committed = false;
  last_len = 0;
}

-- `nx_uds_svc_transfer_t`, with the server that its configuration names.
pub record Xfer (M : Type 0) : Type 0 where
  pub srv : Limits
  pub cfg : Cfg M
  pub run : Run

-- What a request leaves.
pub record Outcome (M : Type 0) : Type 0 where
  pub disposition : Disposition
  pub ctx : Ctx
  pub xfer : Xfer M
  pub app : M

abbrev pub is_none {ℓ} : {A : Type ℓ} → Option A → Bool
is_none none = true
is_none (some a) = false

module _ {M : Type 0} where
  init_on : Cfg M → Option Limits → Option (Xfer M)
  unfolding cleared
  init_on cfg none = none
  init_on cfg (some srv) =
      if is_none cfg.write_fn && is_none cfg.read_fn
      then none
      else some (record {
        srv = srv;
        cfg = record cfg {
          bsc_error_nrc = if cfg.bsc_error_nrc == 0 then 0x73 else cfg.bsc_error_nrc;
        };
        run = cleared;
      })

  -- `nx_uds_svc_transfer_init`
  unfoldable pub init : Cfg M → Option (Xfer M)
  unfolding init_on
  init cfg = init_on cfg cfg.srv

  -- `nx_uds_svc_transfer_abort`
  unfoldable pub stop : Xfer M → Xfer M
  unfolding cleared
  stop xfer = record xfer { run = cleared }

  -- `nx_uds_svc_transfer_progress`
  unfoldable pub progress : Xfer M → Dir × ℕ × ℕ
  progress xfer = (xfer.run.dir, xfer.run.sent, xfer.run.size)

  -- A refusal with its reason.
  unfoldable pub refuse : Ctx → Xfer M → M → ℕ → Outcome M
  refuse ctx xfer app nrc = record {
    disposition = negative;
    ctx = record ctx { nrc = nrc };
    xfer = xfer;
    app = app;
  }
