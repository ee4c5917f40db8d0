-- ===== src/Middleware/UdsServer/Sound/Keeping.antt =====
-- src/middleware/nx_uds_server.c: small changes of a server that carries a transaction.
use nx_c_util.Base.{ℕ, ◌+◌, ◌<◌, arith, List, if-elim}
use nx_c_util.Middleware.UdsServer.{Server}
use nx_c_util.Middleware.UdsServer.Instance.{Instance, read, with_ctx, txn_row}
use nx_c_util.Middleware.UdsServer.Process.{txn_max_pending, pend_refused, pend_taken}
use nx_c_util.Middleware.UdsServer.Sound.{
  Carries, Offers, Settled, at_rest, at_send, Sound, settled, at_work,
}

module _ {M : Type 0} where
  -- What is beside the transaction does not matter.
  abbrev pub aside : Instance M → (req_buf : List ℕ) → Server → M → (reads : ℕ) → Instance M
  aside i req_buf srv app reads = record i {
    req_buf = req_buf;
    srv = srv;
    app = app;
    reads = reads;
  }

  pub aside-Carries :
      (i : Instance M) (req_buf : List ℕ) (srv : Server) (app : M) (reads : ℕ)
      → Carries i
      → Carries (aside i req_buf srv app reads)
  unfolding txn_max_pending txn_row
  aside-Carries i req_buf srv app reads c = record {
    careful = c.careful;
    kept = c.kept;
    buffer = c.buffer;
    cap = c.cap;
    count = c.count;
  }

  pub aside-Offers :
      (i : Instance M) (req_buf : List ℕ) (srv : Server) (app : M) (reads : ℕ)
      → Offers i
      → Offers (aside i req_buf srv app reads)
  aside-Offers i req_buf srv app reads h = record {
    answered = h.answered;
    some_bytes = h.some_bytes;
    within = h.within;
  }

  pub aside-Settled :
      (i : Instance M) (req_buf : List ℕ) (srv : Server) (app : M) (reads : ℕ)
      → Settled i
      → Settled (aside i req_buf srv app reads)
  aside-Settled i req_buf srv app reads (at_rest c k e) = at_rest c k e
  aside-Settled i req_buf srv app reads (at_send c h e) =
      at_send (aside-Carries i req_buf srv app reads c) (aside-Offers i req_buf srv app reads h) e

  pub aside-Sound :
      (i : Instance M) (req_buf : List ℕ) (srv : Server) (app : M) (reads : ℕ)
      → Sound i
      → Sound (aside i req_buf srv app reads)
  aside-Sound i req_buf srv app reads (settled h) =
      settled (aside-Settled i req_buf srv app reads h)
  aside-Sound i req_buf srv app reads (at_work c e) =
      at_work (aside-Carries i req_buf srv app reads c) e

  pub read-Carries : (i : Instance M) → Carries i → Carries (read i)
  read-Carries i = aside-Carries i i.req_buf i.srv i.app (i.reads + 1)

  pub result-Carries :
      (i : Instance M) (result : ℕ)
      → Carries i
      → Carries (with_ctx i (record i.txn.ctx { result = result }))
  unfolding txn_max_pending txn_row
  result-Carries i result c = record {
    careful = c.careful;
    kept = c.kept;
    buffer = c.buffer;
    cap = c.cap;
    count = c.count;
  }

  -- A transaction whose notification is out, or waits.
  pub pend_taken-Carries :
      (i : Instance M) → Carries i → i.txn.pend_count < txn_max_pending i → Carries (pend_taken i)
  unfolding pend_taken txn_max_pending txn_row
  pend_taken-Carries i c below = record {
    careful = c.careful;
    kept = c.kept;
    buffer = c.buffer;
    cap = c.cap;
    count = (let k = c.count in ground arith);
  }

  pub pend_refused-Carries : (i : Instance M) → Carries i → Carries (pend_refused i)
  unfolding pend_refused txn_max_pending txn_row
  pend_refused-Carries i c =
      if-elim Carries i.txn.pend_stuck (λ stuck. c)
        (λ moving. (record {
          careful = c.careful;
          kept = c.kept;
          buffer = c.buffer;
          cap = c.cap;
          count = c.count;
        }))
