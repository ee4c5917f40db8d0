-- ===== src/Middleware/UdsSvcTransfer/Open.antt =====
-- src/middleware/nx_uds_svc_transfer.c: opening a transfer, the services 0x34 and 0x35.
pub mod Opening
pub mod Granted
use nx_c_util.Base.{
  ℕ, ◌+◌, Bool, true, false, not, ◌||◌, ◌&&◌, Option, none, some, List, ltb, ◌==◌, if◌then◌else◌,
  ◌+32◌, ◌>>◌, ◌<<◌, u8, bit_and, get_or, set, take, drop,
}
use nx_c_util.Middleware.Uds.{
  Phase, request, resume, response, confirm, link_error, silence, abort, Disposition, done, Ctx,
}
use nx_c_util.Middleware.UdsSvcTransfer.{
  Dir, closed, download, upload, first_bsc, payload_room, Limits, OpenFn, WriteFn, ReadFn, Cfg, Run,
  Xfer, Outcome, is_none, refuse,
}
use nx_c_util.Middleware.UdsSvcTransfer.Fields.{read_be, write_be, width_for}

abbrev pub req_fixed : ℕ
req_fixed = 3

abbrev pub rsp_fixed : ℕ
rsp_fixed = 2

abbrev pub is_closed : Dir → Bool
is_closed closed = true
is_closed _ = false

-- Whether the callback that the direction needs is missing.
abbrev pub unserved : {M : Type 0} → Cfg M → Dir → Bool
unserved cfg download = is_none cfg.write_fn
unserved cfg upload = is_none cfg.read_fn
unserved cfg closed = false

abbrev capacity : Limits → Dir → ℕ
capacity srv download = srv.max_req_apdu
capacity srv _ = srv.max_resp_apdu

module _ {M : Type 0} where
  -- `xfer_announce_len`
  unfoldable pub announce_len : Xfer M → Dir → ℕ
  announce_len xfer dir =
      let len = capacity xfer.srv dir in
      if not (xfer.cfg.max_block_len == 0) && ltb xfer.cfg.max_block_len len
      then xfer.cfg.max_block_len
      else len

  -- `open_fn`, where there is one: its result, the application, the block length and the reason.
  unfoldable pub consult :
      Option (OpenFn M) → M → Dir → (addr size format block_len nrc : ℕ) → Bool × M × ℕ × ℕ
  consult none app dir addr size format block_len nrc = (true, app, block_len, nrc)
  consult (some open_fn) app dir addr size format block_len nrc =
      open_fn app dir addr size format block_len nrc

  -- The state and the answer of a transfer that opens.
  unfoldable pub opened : Xfer M → Ctx → M → Dir → (addr size block_len : ℕ) → Outcome M
  unfolding write_be width_for
  opened xfer ctx app dir addr size block_len =
      let width = width_for block_len in
      record {
        disposition = done;
        ctx = record ctx {
          out = write_be (set ctx.out 1 (u8 (width << 4))) rsp_fixed width block_len;
          out_len = rsp_fixed + width;
        };
        xfer = record xfer {
          run = record {
            dir = dir;
            addr = addr;
            size = size;
            sent = 0;
            block_len = block_len;
            bsc_next = first_bsc;
            bsc_last = 0;
            committed = false;
            last_len = 0;
          };
        };
        app = app;
      }

  -- `xfer_open` once the application has been asked.
  unfoldable pub announce : Xfer M → Ctx → Dir → (addr size : ℕ) → Bool × M × ℕ × ℕ → Outcome M
  unfolding announce_len payload_room width_for refuse opened
  announce xfer ctx dir addr size (accepted, app, wished, nrc) =
      let limit = announce_len xfer dir in
      let block_len = if ltb limit wished then limit else wished in
      if not accepted
      then refuse ctx xfer app nrc
      else if payload_room block_len == 0
      then refuse ctx xfer app 0x22
      else if ltb ctx.out_cap (rsp_fixed + width_for block_len)
      then refuse ctx xfer app 0x14
      else opened xfer ctx app dir addr size block_len

  -- `xfer_open` once the two fields have been read.
  unfoldable pub open_region : Xfer M → Ctx → M → Dir → Option ℕ → Option ℕ → Outcome M
  unfolding refuse announce consult announce_len
  open_region xfer ctx app dir none size = refuse ctx xfer app 0x31
  open_region xfer ctx app dir (some addr) none = refuse ctx xfer app 0x31
  open_region xfer ctx app dir (some addr) (some size) =
      if size == 0
      then refuse ctx xfer app 0x31
      else announce xfer ctx dir addr size (
          consult xfer.cfg.open_fn app dir addr size (get_or ctx.req 1 0) (announce_len xfer dir)
            0x31)

  -- `xfer_open`
  unfoldable pub open_transfer : Xfer M → Ctx → M → Dir → Outcome M
  unfolding refuse open_region read_be
  open_transfer xfer ctx app dir =
      let addr_len = bit_and (get_or ctx.req 2 0) 0x0F in
      let size_len = bit_and (get_or ctx.req 2 0 >> 4) 0x0F in
      if not (is_closed xfer.run.dir)
      then refuse ctx xfer app 0x22
      else if unserved xfer.cfg dir
      then refuse ctx xfer app 0x70
      else if addr_len == 0 || size_len == 0 || not (ctx.req_len == req_fixed + addr_len + size_len)
      then refuse ctx xfer app 0x13
      else open_region xfer ctx app dir (read_be (take addr_len (drop req_fixed ctx.req)))
          (read_be (take size_len (drop (req_fixed + addr_len) ctx.req)))

  -- At the other phases a handler of this module does nothing.
  unfoldable pub later_phase : Xfer M → Ctx → M → Outcome M
  later_phase xfer ctx app = record { disposition = done; ctx = ctx; xfer = xfer; app = app }

  -- A handler's answer at each phase, from the one at the first.
  unfoldable pub at_phase : Phase → Xfer M → Ctx → M → Outcome M → Outcome M
  unfolding later_phase
  at_phase request xfer ctx app o = o
  at_phase resume xfer ctx app o = later_phase xfer ctx app
  at_phase response xfer ctx app o = later_phase xfer ctx app
  at_phase confirm xfer ctx app o = later_phase xfer ctx app
  at_phase link_error xfer ctx app o = later_phase xfer ctx app
  at_phase silence xfer ctx app o = later_phase xfer ctx app
  at_phase abort xfer ctx app o = later_phase xfer ctx app

  -- `nx_uds_svc_transfer_request_download`
  unfoldable pub request_download : Xfer M → Ctx → M → Outcome M
  unfolding at_phase open_transfer
  request_download xfer ctx app =
      at_phase ctx.phase xfer ctx app (open_transfer xfer ctx app download)

  -- `nx_uds_svc_transfer_request_upload`
  unfoldable pub request_upload : Xfer M → Ctx → M → Outcome M
  unfolding at_phase open_transfer
  request_upload xfer ctx app = at_phase ctx.phase xfer ctx app (open_transfer xfer ctx app upload)
