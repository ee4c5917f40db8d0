-- ===== src/Middleware/UdsServer/Sound.antt =====
-- src/middleware/nx_uds_server.c: what a transaction keeps to, in every state it is in.
pub mod Keeping
pub mod Driving
pub mod Accepting
pub mod Running
use nx_c_util.Base.{
  ℕ, ◌+◌, ◌≤◌, ◌<◌, ◌≡◌, ◌⊎◌, inl, inr, refl, sym, ap, ◌∙◌, arith, Bool, true, false, not, Option,
  none, some, length, ltb, ◌==◌, if◌then◌else◌, if-true, if-false, Bool-cases, if-elim, get_elem?,
  set, length-set, List,
}
use mathlib.Core.Path.{subst}
use nx_c_util.Middleware.Uds.{
  Phase, request, resume, response, confirm, link_error, silence, abort, Disposition, done, pending,
  negative, no_response, Ctx, Outcome,
}
use nx_c_util.Middleware.UdsServer.{Server, put_negative}
use nx_c_util.Middleware.UdsServer.Table.{Handler}
use nx_c_util.Middleware.UdsServer.Instance.{
  Cfg, TxnState, running, sending, awaiting, blank_txn, Instance, read, with_ctx, txn_row,
  row_handler, call, left_by, negative_suppressed, notify, txn_end, answer_ready, refuse,
  or_conditions, apply_done, apply_disposition, run_handler, sends_positive,
}
use nx_c_util.Middleware.UdsServer.Instance.Reports.{Reports, notify-Reports}
use nx_c_util.Middleware.UdsServer.Process.{txn_max_pending}

-- The phases in which a handler is only told something.
abbrev pub is_report : Phase → Bool
is_report request = false
is_report resume = false
is_report response = true
is_report confirm = true
is_report link_error = true
is_report silence = true
is_report abort = true

module _ {M : Type 0} where
  -- A handler writes within the buffer it is given, leaves the capacity, and the length of an answer
  -- that is already decided.
  pub record Respects (handler : Handler M) : Type 0 where
    pub buffer :
        (now : ℕ) (ctx : Ctx) (srv : Server) (app : M)
        → length (handler now ctx srv app).ctx.out ≡ length ctx.out
    pub cap :
        (now : ℕ) (ctx : Ctx) (srv : Server) (app : M)
        → (handler now ctx srv app).ctx.out_cap ≡ ctx.out_cap
    pub decided :
        (now : ℕ) (ctx : Ctx) (srv : Server) (app : M)
        → is_report ctx.phase ≡ true
        → (handler now ctx srv app).ctx.out_len ≡ ctx.out_len

  abbrev pub HasRespect : Option (Handler M) → Type 0
  HasRespect none = Unit
  HasRespect (some handler) = Respects handler

  -- The buffer has room for a refusal, and the handlers of the table respect it.
  pub record Careful (cfg : Cfg M) : Type 0 where
    pub room : 3 ≤ cfg.out_buf_size
    pub handlers : (n : ℕ) → HasRespect (row_handler (get_elem? cfg.services n))

  -- A transaction has the buffer, hands out no more of it than there is, and has said no more often that
  -- its answer is late than it may.
  pub record Carries (i : Instance M) : Type 0 where
    pub careful : Careful i.cfg
    pub kept : length i.out_buf ≡ i.cfg.out_buf_size
    pub buffer : length i.txn.ctx.out ≡ i.cfg.out_buf_size
    pub cap : i.txn.ctx.out_cap ≤ i.cfg.out_buf_size
    pub count : i.txn.pend_count ≤ txn_max_pending i

  -- The answer of a transaction is within its buffer.
  pub record Offers (i : Instance M) : Type 0 where
    pub answered : i.txn.answered ≡ true
    pub some_bytes : 0 < i.txn.ctx.out_len
    pub within : i.txn.ctx.out_len ≤ i.cfg.out_buf_size

  -- A server is at rest with nothing of a transaction left, or has an answer that is offered or with the
  -- carrier.
  pub data Settled (i : Instance M) : Type 0 where
    at_rest : Careful i.cfg → length i.out_buf ≡ i.cfg.out_buf_size → i.txn ≡ blank_txn → Settled i
    at_send : Carries i → Offers i → (i.txn.state ≡ sending) ⊎ (i.txn.state ≡ awaiting) → Settled i

  -- That, or its handler is not done.
  pub data Sound (i : Instance M) : Type 0 where
    settled : Settled i → Sound i
    at_work : Carries i → i.txn.state ≡ running → Sound i

  pub turn-Carries :
      (i : Instance M) (state : TxnState) (answered : Bool)
      → Carries i
      → Carries (record i { txn = record i.txn { answered = answered; state = state } })
  unfolding txn_max_pending txn_row
  turn-Carries i state answered c = record {
    careful = c.careful;
    kept = c.kept;
    buffer = c.buffer;
    cap = c.cap;
    count = c.count;
  }

  left_by-Carries :
      (i : Instance M) (handler : Handler M) (phase : Phase)
      → Respects handler
      → Carries i
      → Carries (left_by i (call i handler phase))
  unfolding left_by call txn_max_pending txn_row
  left_by-Carries i handler phase r c = record {
    careful = c.careful;
    kept = c.kept;
    buffer = r.buffer _ _ _ _ ∙ c.buffer;
    cap = subst (λ n. n ≤ i.cfg.out_buf_size) (sym (r.cap _ _ _ _)) c.cap;
    count = c.count;
  }

  pub notify-Carries : (i : Instance M) (phase : Phase) → Carries i → Carries (notify i phase)
  unfolding notify txn_row
  notify-Carries i phase c =
      (elim (row_handler (txn_row i))
          as (λ h.
            HasRespect h
            → Carries (elim h [ none ↦ i | some handler ↦ left_by i (call i handler phase) ])) [
              | none ↦ λ r. c
              | some handler ↦ λ r. left_by-Carries i handler phase r c
            ])
        (c.careful.handlers i.txn.row)

  notify-Offers :
      (i : Instance M) (phase : Phase)
      → is_report phase ≡ true
      → Careful i.cfg
      → Offers i
      → Offers (notify i phase)
  unfolding notify txn_row left_by call
  notify-Offers i phase p c h =
      (elim (row_handler (txn_row i))
          as (λ o.
            HasRespect o
            → Offers (elim o [ none ↦ i | some handler ↦ left_by i (call i handler phase) ])) [
              | none ↦ λ r. h
              | some handler ↦ λ r. record {
                answered = h.answered;
                some_bytes = subst (λ n. 0 < n) (sym (r.decided _ _ _ _ p)) h.some_bytes;
                within = subst (λ n. n ≤ i.cfg.out_buf_size) (sym (r.decided _ _ _ _ p)) h.within;
              }
            ])
        (c.handlers i.txn.row)

  pub txn_end-Settled : (i : Instance M) → Carries i → Settled (txn_end i)
  unfolding txn_end
  txn_end-Settled i c = at_rest c.careful c.buffer refl

  answer_ready-Settled :
      (i : Instance M) (send : Bool)
      → Carries i
      → 0 < i.txn.ctx.out_len
      → i.txn.ctx.out_len ≤ i.cfg.out_buf_size
      → Settled (answer_ready i send)
  unfolding answer_ready txn_max_pending txn_row
  answer_ready-Settled i false c h k =
      txn_end-Settled (notify i silence) (notify-Carries i silence c)
  answer_ready-Settled i true c h k =
      let i' : Instance M = record i { txn = record i.txn { answered = true; state = sending } } in
      let c' : Carries i' = turn-Carries i sending true c in
      at_send (notify-Carries i' response c')
        (notify-Offers i' response refl c'.careful
          (record { answered = refl; some_bytes = h; within = k }))
        (inl (notify-Reports i' response).state)

  -- A refusal leaves the server at rest or offering.
  pub put-Carries :
      (i : Instance M) (nrc : ℕ)
      → Carries i
      → Carries (with_ctx i (put_negative i.txn.ctx i.txn.ctx.sid nrc))
  unfolding put_negative txn_max_pending txn_row
  put-Carries i nrc c =
      let out = i.txn.ctx.out in
      let first = set out 0 0x7F in
      let second = set first 1 i.txn.ctx.sid in
      record {
        careful = c.careful;
        kept = c.kept;
        buffer =
            length-set second 2 nrc
            ∙ length-set first 1 i.txn.ctx.sid
            ∙ length-set out 0 0x7F
            ∙ c.buffer;
        cap = c.cap;
        count = c.count;
      }

  pub refuse-Settled : (i : Instance M) (nrc : ℕ) → Carries i → Settled (refuse i nrc)
  unfolding refuse put_negative
  refuse-Settled i nrc c =
      answer_ready-Settled _ _ (put-Carries i nrc c) (omega arith) c.careful.room

  apply_done-Settled : (i : Instance M) → Carries i → Settled (apply_done i)
  unfolding apply_done
  apply_done-Settled i c =
      if-elim Settled (ltb i.txn.ctx.out_cap i.txn.ctx.out_len) (λ over. (refuse-Settled i 0x14 c))
        (λ fits.
          (if-elim Settled (i.txn.ctx.out_len == 0)
            (λ empty. (txn_end-Settled _ (notify-Carries i silence c)))
            (λ full.
              (answer_ready-Settled i (sends_positive i) c (ground arith)
                (let k = c.cap in ground arith)))))

  apply_disposition-Sound :
      (i : Instance M) (d : Disposition) → Carries i → Sound (apply_disposition i d)
  unfolding apply_disposition txn_max_pending txn_row
  apply_disposition-Sound i pending c = at_work (turn-Carries i running i.txn.answered c) refl
  apply_disposition-Sound i negative c = settled (refuse-Settled i (or_conditions i.txn.ctx.nrc) c)
  apply_disposition-Sound i no_response c = settled (txn_end-Settled _ (notify-Carries i silence c))
  apply_disposition-Sound i done c = settled (apply_done-Settled i c)

  pub run_handler-Sound :
      (i : Instance M) (phase : Phase)
      → Carries i
      → i.txn.state ≡ running
      → Sound (run_handler i phase)
  unfolding run_handler txn_max_pending txn_row left_by
  run_handler-Sound i phase c at =
      let i' : Instance M = with_ctx i (record i.txn.ctx { nrc = 0 }) in
      let c' : Carries i' = record {
        careful = c.careful;
        kept = c.kept;
        buffer = c.buffer;
        cap = c.cap;
        count = c.count;
      } in
      (elim (row_handler (txn_row i))
          as (λ h.
            HasRespect h
            → Sound (elim h [
              | none ↦ i
              | some handler ↦
                  let o = call i' handler phase in apply_disposition (left_by i o) o.disposition
            ])) [
              | none ↦ λ r. at_work c at
              | some handler ↦ λ r.
                  let o = call i' handler phase in
                  apply_disposition-Sound (left_by i' o) o.disposition
                    (left_by-Carries i' handler phase r c')
            ])
        (c.careful.handlers i.txn.row)
