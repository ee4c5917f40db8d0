-- ===== src/Middleware/UdsServer/Instance/Known.antt =====
-- src/middleware/nx_uds_server.c: the calls of a handler that is known.
use nx_c_util.Base.{◌≡◌, ap, Option, none, some}
use nx_c_util.Middleware.Uds.{Phase}
use nx_c_util.Middleware.UdsServer.Table.{Handler}
use nx_c_util.Middleware.UdsServer.Instance.{
  Instance, with_ctx, txn_row, row_handler, left_by, call, notify, apply_disposition, run_handler,
}

module _ {M : Type 0} where
  pub notify-known :
      (i : Instance M) (phase : Phase) (handler : Handler M)
      → row_handler (txn_row i) ≡ some handler
      → notify i phase ≡ left_by i (call i handler phase)
  unfolding notify
  notify-known i phase handler e =
      ap
        (λ (h : Option (Handler M)). elim h [
          | none ↦ i
          | some handler ↦ left_by i (call i handler phase)
        ])
        e

  pub run_handler-known :
      (i : Instance M) (phase : Phase) (handler : Handler M)
      → row_handler (txn_row i) ≡ some handler
      → let o = call (with_ctx i (record i.txn.ctx { nrc = 0 })) handler phase in
        run_handler i phase ≡ apply_disposition (left_by i o) o.disposition
  unfolding run_handler
  run_handler-known i phase handler e =
      ap
        (λ (h : Option (Handler M)). elim h [
          | none ↦ i
          | some handler ↦
              let o = call (with_ctx i (record i.txn.ctx { nrc = 0 })) handler phase in
              apply_disposition (left_by i o) o.disposition
        ])
        e
