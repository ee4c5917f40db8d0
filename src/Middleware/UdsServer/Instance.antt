-- ===== src/Middleware/UdsServer/Instance.antt =====
-- src/middleware/nx_uds_server.h and nx_uds_server.c: the transaction in flight. The clock counts its
-- readings. The response buffer is the transaction's while one runs.
pub mod Reports
pub mod Known
use nx_c_util.Base.{
  ℕ, ◌+◌, Bool, true, false, not, ◌&&◌, ◌||◌, Option, none, some, List, [], ltb, ◌==◌,
  if◌then◌else◌, get_elem?,
}
use nx_c_util.Middleware.Uds.{
  Phase, request, response, silence, Disposition, done, pending, negative, no_response, Ctx,
  Outcome,
}
use nx_c_util.Middleware.UdsServer.{Server, put_negative}
use nx_c_util.Middleware.UdsServer.Table.{Handler, Row, answers_functional}

-- `nx_uds_output_fn`: the application, the link, the response, its length and the addressing, to
-- whether it was taken and the application.
abbrev pub OutFn : Type 0 → Type 0
OutFn M = M → (link : ℕ) → List ℕ → (len ta_type : ℕ) → Bool × M

-- `nx_uds_server_cfg_t`, less what `Server` has of it; the buffers are the instance's.
pub record Cfg (M : Type 0) : Type 0 where
  pub services : List (Row M)
  pub out_fn : Option (OutFn M)
  pub req_buf_size : ℕ
  pub out_buf_size : ℕ
  pub max_req_apdu : ℕ
  pub max_resp_apdu : ℕ
  pub link : ℕ
  pub accept_rsp_range_sid : Bool
  pub get_us : (count : ℕ) → ℕ
  pub p2_adjust_us : ℕ
  pub p4_us : ℕ
  pub p4_nrc : ℕ
  pub max_pending : ℕ

-- `TXN_IDLE` and its kin
pub data TxnState : Type 0 where
  vacant running sending awaiting : TxnState

abbrev pub is_vacant : TxnState → Bool
is_vacant vacant = true
is_vacant running = false
is_vacant sending = false
is_vacant awaiting = false

abbrev pub is_awaiting : TxnState → Bool
is_awaiting vacant = false
is_awaiting running = false
is_awaiting sending = false
is_awaiting awaiting = true

-- `nx_uds_txn_t`
pub record Txn : Type 0 where
  pub state : TxnState
  pub row : ℕ
  pub pend_count : ℕ
  pub pending_sent : Bool
  pub pend_stuck : Bool
  pub pend_give_up : ℕ
  pub answered : Bool
  pub started : ℕ
  pub deadline : ℕ
  pub ctx : Ctx

-- `memset(&srv->run.txn, 0, ...)`
abbrev pub blank_ctx : Ctx
blank_ctx = record {
  phase = request;
  req = [];
  req_len = 0;
  sid = 0;
  sub = 0;
  has_sub = false;
  suppress_pos = false;
  ta_type = 0;
  link = 0;
  session = 0;
  sec_level = 0;
  out = [];
  out_cap = 0;
  out_len = 0;
  nrc = 0;
  result = 0;
}

abbrev pub blank_txn : Txn
blank_txn = record {
  state = vacant;
  row = 0;
  pend_count = 0;
  pending_sent = false;
  pend_stuck = false;
  pend_give_up = 0;
  answered = false;
  started = 0;
  deadline = 0;
  ctx = blank_ctx;
}

-- `nx_uds_server_t`, with its buffers, the application, and how often the clock was read.
pub record Instance (M : Type 0) : Type 0 where
  pub cfg : Cfg M
  pub srv : Server
  pub txn : Txn
  pub req_buf : List ℕ
  pub out_buf : List ℕ
  pub app : M
  pub reads : ℕ

-- `nx_uds_disposition_t` of a refusal with no reason of its own.
abbrev pub or_conditions : ℕ → ℕ
or_conditions nrc = if not (nrc == 0) then nrc else 0x22

-- The reasons that go unsent where the request was for every server.
abbrev pub is_comment : ℕ → Bool
is_comment nrc = (nrc == 0x11) || (nrc == 0x12) || (nrc == 0x31) || (nrc == 0x7E) || (nrc == 0x7F)

module _ {M : Type 0} where
  -- `uds_now`; `read` is the state after it.
  abbrev pub now : Instance M → ℕ
  now i = i.cfg.get_us i.reads

  abbrev pub read : Instance M → Instance M
  read i = record i { reads = i.reads + 1 }

  abbrev pub with_ctx : Instance M → Ctx → Instance M
  with_ctx i ctx = record i { txn = record i.txn { ctx = ctx } }

  -- `uds_txn_row`
  unfoldable pub txn_row : Instance M → Option (Row M)
  txn_row i = get_elem? i.cfg.services i.txn.row

  -- The handler of a row, where there is one.
  unfoldable pub row_handler : Option (Row M) → Option (Handler M)
  row_handler none = none
  row_handler (some row) = row.handler

  -- The state that a handler leaves.
  unfoldable pub left_by : Instance M → Outcome (Server × M) → Instance M
  left_by i o = record (with_ctx (read i) o.ctx) { srv = o.state.0; app = o.state.1 }

  -- The call of a handler for a phase.
  unfoldable pub call : Instance M → Handler M → Phase → Outcome (Server × M)
  call i handler phase = handler (now i) (record i.txn.ctx { phase = phase }) i.srv i.app

  -- `uds_negative_suppressed`
  unfoldable pub negative_suppressed : Instance M → (ta_type nrc : ℕ) → Bool
  negative_suppressed i ta_type nrc = (ta_type == 1) && not i.txn.pending_sent && is_comment nrc

  -- `uds_notify`
  unfoldable pub notify : Instance M → Phase → Instance M
  unfolding left_by call
  notify i phase = elim (row_handler (txn_row i)) [
    | none ↦ i
    | some handler ↦ left_by i (call i handler phase)
  ]

  -- `uds_txn_end`
  unfoldable pub txn_end : Instance M → Instance M
  txn_end i = record i { txn = blank_txn; out_buf = i.txn.ctx.out }

  -- `uds_txn_answer_ready`
  unfoldable pub answer_ready : Instance M → (send : Bool) → Instance M
  answer_ready i send =
      if not send
      then txn_end (notify i silence)
      else notify (record i { txn = record i.txn { answered = true; state = sending } }) response

  -- `uds_txn_refuse`
  unfoldable pub refuse : Instance M → (nrc : ℕ) → Instance M
  refuse i nrc =
      let i' = with_ctx i (put_negative i.txn.ctx i.txn.ctx.sid nrc) in
      answer_ready i' (not (negative_suppressed i' i'.txn.ctx.ta_type nrc))

  -- Whether a positive answer is sent.
  unfoldable pub sends_positive : Instance M → Bool
  sends_positive i =
      not i.txn.ctx.suppress_pos
      && not (
          (i.txn.ctx.ta_type == 1)
          && elim (txn_row i) [ none ↦ true | some row ↦ not (answers_functional row) ])

  -- A positive answer of a handler.
  unfoldable pub apply_done : Instance M → Instance M
  apply_done i =
      if ltb i.txn.ctx.out_cap i.txn.ctx.out_len
      then refuse i 0x14
      else if i.txn.ctx.out_len == 0
      then txn_end (notify i silence)
      else answer_ready i (sends_positive i)

  -- `uds_apply_disposition`
  unfoldable pub apply_disposition : Instance M → Disposition → Instance M
  apply_disposition i pending = record i { txn = record i.txn { state = running } }
  apply_disposition i negative = refuse i (or_conditions i.txn.ctx.nrc)
  apply_disposition i no_response = txn_end (notify i silence)
  apply_disposition i done = apply_done i

  -- `uds_run_handler`
  unfoldable pub run_handler : Instance M → Phase → Instance M
  unfolding call
  run_handler i phase = elim (row_handler (txn_row i)) [
    | none ↦ i
    | some handler ↦
        let o = call (with_ctx i (record i.txn.ctx { nrc = 0 })) handler phase in
        apply_disposition (left_by i o) o.disposition
  ]
