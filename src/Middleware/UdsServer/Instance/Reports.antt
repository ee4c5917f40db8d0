-- ===== src/Middleware/UdsServer/Instance/Reports.antt =====
-- src/middleware/nx_uds_server.c: what a report to the handler leaves as it was.
use nx_c_util.Base.{◌+◌, ◌≤◌, ◌≡◌, refl, arith, none, some}
use nx_c_util.Middleware.Uds.{Phase, Outcome}
use nx_c_util.Middleware.UdsServer.{Server}
use nx_c_util.Middleware.UdsServer.Instance.{Instance, txn_row, row_handler, left_by, call, notify}

module _ {M : Type 0} where
  -- A report to the handler leaves all of the transaction but what the handler sees.
  pub record Reports (i o : Instance M) : Type 0 where
    pub cfg : o.cfg ≡ i.cfg
    pub state : o.txn.state ≡ i.txn.state
    pub row : o.txn.row ≡ i.txn.row
    pub started : o.txn.started ≡ i.txn.started
    pub deadline : o.txn.deadline ≡ i.txn.deadline
    pub pend_count : o.txn.pend_count ≡ i.txn.pend_count
    pub answered : o.txn.answered ≡ i.txn.answered
    pub later : i.reads ≤ o.reads
    pub soon : o.reads ≤ i.reads + 1

  left_by-Reports : (i : Instance M) (o : Outcome (Server × M)) → Reports i (left_by i o)
  unfolding left_by
  left_by-Reports i o = record {
    cfg = refl;
    state = refl;
    row = refl;
    started = refl;
    deadline = refl;
    pend_count = refl;
    answered = refl;
    later = omega arith;
    soon = omega arith;
  }

  pub same-Reports : (i : Instance M) → Reports i i
  same-Reports i = record {
    cfg = refl;
    state = refl;
    row = refl;
    started = refl;
    deadline = refl;
    pend_count = refl;
    answered = refl;
    later = omega arith;
    soon = omega arith;
  }

  pub notify-Reports : (i : Instance M) (phase : Phase) → Reports i (notify i phase)
  unfolding notify
  notify-Reports i phase =
      elim (row_handler (txn_row i))
        as (λ h.
          Reports i (elim h [ none ↦ i | some handler ↦ left_by i (call i handler phase) ])) [
            | none ↦ same-Reports i
            | some handler ↦ left_by-Reports i (call i handler phase)
          ]
