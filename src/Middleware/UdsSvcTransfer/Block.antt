-- ===== src/Middleware/UdsSvcTransfer/Block.antt =====
-- src/middleware/nx_uds_svc_transfer.c: carrying a block, the service 0x36.
pub mod Image
pub mod Memory
pub mod Carried
pub mod Repeat
pub mod Client
use nx_c_util.Base.{
  ℕ, ◌+◌, Bool, true, false, not, ◌||◌, ◌&&◌, Option, none, some, List, ltb, ◌==◌, if◌then◌else◌,
  ◌+32◌, ◌-32◌, u8, get_or, set, take, drop, copy_at,
}
use nx_c_util.Middleware.Uds.{Disposition, done, pending, negative, no_response, is_done, Ctx}
use nx_c_util.Middleware.UdsSvcTransfer.{
  Dir, closed, download, upload, block_overhead, payload_room, Run, Xfer, Outcome, ReadFn, WriteFn,
  refuse,
}
use nx_c_util.Middleware.UdsSvcTransfer.Open.{is_closed, at_phase}

-- `NX_UDS_NRC_GENERAL_PROGRAMMING_FAILURE`, the reason before a callback names one.
abbrev pub programming_failure : ℕ
programming_failure = 0x72

abbrev pub is_upload : Dir → Bool
is_upload upload = true
is_upload _ = false

-- The last lines of `nx_uds_svc_transfer_data`: the block is committed.
unfoldable pub commit : Run → (bsc len : ℕ) → Run
commit run bsc len = record run {
  sent = run.sent +32 len;
  bsc_last = bsc;
  bsc_next = u8 (bsc + 1);
  committed = true;
  last_len = len;
}

module _ {M : Type 0} where
  -- `xfer_fill_upload` with what `read_fn` gave.
  unfoldable pub filled : Xfer M → Ctx → ℕ → Bool × M × List ℕ × ℕ → Outcome M
  unfolding refuse
  filled xfer ctx len (read, app, bytes, nrc) =
      let ctx' = record ctx { out = copy_at ctx.out block_overhead (take len bytes) } in
      if not read then refuse ctx' xfer app nrc else record {
        disposition = done;
        ctx = record ctx' { out_len = block_overhead +32 len };
        xfer = xfer;
        app = app;
      }

  -- The direction is open only where the callback is there, so `none` does not occur, also below.
  unfoldable pub read_block : Option (ReadFn M) → Xfer M → Ctx → M → (offset len : ℕ) → Outcome M
  unfolding filled refuse
  read_block none xfer ctx app offset len = refuse ctx xfer app programming_failure
  read_block (some read_fn) xfer ctx app offset len =
      filled xfer ctx len (read_fn app (xfer.run.addr +32 offset) len programming_failure)

  -- `xfer_fill_upload`
  unfoldable pub fill_upload : Xfer M → Ctx → M → (offset len : ℕ) → Outcome M
  unfolding refuse read_block
  fill_upload xfer ctx app offset len =
      if ltb ctx.out_cap (block_overhead +32 len)
      then refuse ctx xfer app 0x14
      else read_block xfer.cfg.read_fn xfer ctx app offset len

  -- `xfer_repeat`
  unfoldable pub repeat : Xfer M → Ctx → M → Outcome M
  unfolding fill_upload
  repeat xfer ctx0 app =
      let ctx = record ctx0 { out = set ctx0.out 1 xfer.run.bsc_last } in
      if is_upload xfer.run.dir
      then fill_upload xfer ctx app (xfer.run.sent -32 xfer.run.last_len) xfer.run.last_len
      else record {
        disposition = done;
        ctx = record ctx { out_len = block_overhead };
        xfer = xfer;
        app = app;
      }

  -- A download's block with what `write_fn` gave.
  unfoldable pub written : Xfer M → Ctx → (bsc len : ℕ) → Bool × M × ℕ → Outcome M
  unfolding refuse commit
  written xfer ctx bsc len (wrote, app, nrc) =
      if not wrote then refuse ctx xfer app nrc else record {
        disposition = done;
        ctx = record ctx { out_len = block_overhead };
        xfer = record xfer { run = commit xfer.run bsc len };
        app = app;
      }

  unfoldable pub write_block : Option (WriteFn M) → Xfer M → Ctx → M → (bsc len : ℕ) → Outcome M
  unfolding written refuse
  write_block none xfer ctx app bsc len = refuse ctx xfer app programming_failure
  write_block (some write_fn) xfer ctx app bsc len = written xfer ctx bsc len (
      write_fn app (xfer.run.addr +32 xfer.run.sent) (take len (drop block_overhead ctx.req))
        programming_failure)

  -- An upload's block with what `xfer_fill_upload` gave.
  unfoldable pub sent_on : Outcome M → (bsc len : ℕ) → Outcome M
  unfolding commit
  sent_on o bsc len =
      if is_done o.disposition
      then record o { xfer = record o.xfer { run = commit o.xfer.run bsc len } }
      else o

  -- The block in turn, of the length decided.
  unfoldable pub carry : Xfer M → Ctx → M → (bsc len : ℕ) → Outcome M
  unfolding write_block fill_upload sent_on
  carry xfer ctx0 app bsc len =
      let ctx = record ctx0 { out = set ctx0.out 1 bsc } in
      if is_upload xfer.run.dir
      then sent_on (fill_upload xfer ctx app xfer.run.sent len) bsc len
      else write_block xfer.cfg.write_fn xfer ctx app bsc len

  -- The block in turn: its end against the region's.
  unfoldable pub fit : Xfer M → Ctx → M → (bsc len : ℕ) → Outcome M
  unfolding refuse carry
  fit xfer ctx app bsc len =
      let left = xfer.run.size -32 xfer.run.sent in
      if ltb xfer.run.size (xfer.run.sent +32 len)
      then (if left == 0 || not (is_upload xfer.run.dir)
          then refuse ctx xfer app 0x31
          else carry xfer ctx app bsc left)
      else carry xfer ctx app bsc len

  -- A block that is not the last one again.
  unfoldable pub new_block : Xfer M → Ctx → M → Outcome M
  unfolding refuse payload_room fit
  new_block xfer ctx app =
      let bsc = get_or ctx.req 1 0 in
      let room = payload_room xfer.run.block_len in
      let len = ctx.req_len -32 block_overhead in
      if not (bsc == xfer.run.bsc_next)
      then refuse ctx xfer app xfer.cfg.bsc_error_nrc
      else if is_upload xfer.run.dir
      then fit xfer ctx app bsc room
      else if len == 0 || ltb room len
      then refuse ctx xfer app 0x31
      else fit xfer ctx app bsc len

  -- `nx_uds_svc_transfer_data` at the first phase.
  unfoldable pub take_block : Xfer M → Ctx → M → Outcome M
  unfolding refuse repeat new_block
  take_block xfer ctx app =
      if is_closed xfer.run.dir
      then refuse ctx xfer app 0x24
      else if xfer.run.committed && get_or ctx.req 1 0 == xfer.run.bsc_last
      then repeat xfer ctx app
      else new_block xfer ctx app

  -- `nx_uds_svc_transfer_data`
  unfoldable pub transfer_data : Xfer M → Ctx → M → Outcome M
  unfolding at_phase take_block
  transfer_data xfer ctx app = at_phase ctx.phase xfer ctx app (take_block xfer ctx app)
