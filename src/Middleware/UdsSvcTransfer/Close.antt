-- ===== src/Middleware/UdsSvcTransfer/Close.antt =====
-- src/middleware/nx_uds_svc_transfer.c: finishing a transfer, the service 0x37.
pub mod Ending
use nx_c_util.Base.{
  ℕ, ◌+◌, ◌-◌, Bool, true, false, not, ◌&&◌, Option, none, some, List, [], ltb, ◌==◌, if◌then◌else◌,
  ◌+32◌, get_or, take, drop, copy_at,
}
use nx_c_util.Middleware.Uds.{Disposition, done, Ctx}
use nx_c_util.Middleware.UdsSvcTransfer.{Dir, CloseFn, Run, cleared, Xfer, Outcome, refuse}
use nx_c_util.Middleware.UdsSvcTransfer.Open.{is_closed, at_phase}
use nx_c_util.Middleware.UdsSvcTransfer.Block.{programming_failure}

module _ {M : Type 0} where
  -- `close_fn`, where there is one: its result, the application, the bytes it wrote behind the
  -- identifier, the length it reports and the reason.
  unfoldable pub conclude :
      Option (CloseFn M)
      → M
      → Dir
      → (sent size : ℕ) → List ℕ
      → (out_cap : ℕ) → Bool × M × List ℕ × ℕ × ℕ
  conclude none app dir sent size bytes out_cap = (true, app, [], 0, programming_failure)
  conclude (some close_fn) app dir sent size bytes out_cap =
      close_fn app dir sent size bytes out_cap programming_failure

  -- `nx_uds_svc_transfer_exit` once the application has been asked.
  unfoldable pub settle : Xfer M → Ctx → Bool × M × List ℕ × ℕ × ℕ → Outcome M
  unfolding refuse cleared
  settle xfer ctx0 (accepted, app, bytes, out_len, nrc) =
      let ctx = record ctx0 { out = copy_at ctx0.out 1 bytes } in
      if not accepted
      then refuse ctx xfer app nrc
      else if ltb ctx.out_cap (1 +32 out_len)
      then refuse ctx xfer app 0x14
      else record {
        disposition = done;
        ctx = record ctx { out_len = 1 +32 out_len };
        xfer = record xfer { run = cleared };
        app = app;
      }

  -- `nx_uds_svc_transfer_exit` at the first phase.
  unfoldable pub finish : Xfer M → Ctx → M → Outcome M
  unfolding refuse settle conclude
  finish xfer ctx app =
      if is_closed xfer.run.dir
      then refuse ctx xfer app 0x24
      else if xfer.cfg.require_full_size && not (xfer.run.sent == xfer.run.size)
      then refuse ctx xfer app 0x24
      else settle xfer ctx (
          conclude xfer.cfg.close_fn app xfer.run.dir xfer.run.sent xfer.run.size
            (if ltb 1 ctx.req_len then take (ctx.req_len - 1) (drop 1 ctx.req) else [])
            (if ltb 1 ctx.out_cap then ctx.out_cap - 1 else 0))

  -- `nx_uds_svc_transfer_exit`
  unfoldable pub transfer_exit : Xfer M → Ctx → M → Outcome M
  unfolding at_phase finish
  transfer_exit xfer ctx app = at_phase ctx.phase xfer ctx app (finish xfer ctx app)
