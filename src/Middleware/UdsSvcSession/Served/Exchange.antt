-- ===== src/Middleware/UdsSvcSession/Served/Exchange.antt =====
-- src/middleware/nx_uds_svc_session.c under nx_uds_server.c: asked for a session, answered, and told
-- what became of the answer.
use nx_c_util.Base.{
  ℕ, ◌≤◌, ◌≡◌, ◌≢◌, ap, ◌∙◌, arith, Bool, true, false, Option, none, some, List, [], ◌∷◌, length,
  ◌==◌, if◌then◌else◌, if-true, if-false,
}
use mathlib.Core.Path.{subst}
use nx_c_util.Middleware.UdsServer.{Server, session_in_range, set_session, enter_session, arm_s3}
use nx_c_util.Middleware.UdsServer.Table.{Row}
use nx_c_util.Middleware.UdsServer.Instance.{OutFn, vacant, sending, awaiting, Instance, now}
use nx_c_util.Middleware.UdsServer.Process.{ok, give_out, expire_session, process, confirm_link}
use nx_c_util.Middleware.UdsServer.Process.Ending.{expire_session-Reports}
use nx_c_util.Middleware.UdsServer.Indicate.{too_long, indicate}
use nx_c_util.Middleware.UdsSvcSession.{Cfg}
use nx_c_util.Middleware.UdsSvcSession.Served.{Takes, confirm-Acts, process-Answering}
use nx_c_util.Middleware.UdsSvcSession.Served.Asked.{Lets, Fits, indicate-Answering}

set_session-enters :
    (now : ℕ) (srv : Server) (s : ℕ)
    → session_in_range s ≡ true
    → ((set_session now srv s).session ≡ s) × ((set_session now srv s).sec_level ≡ 0)
unfolding set_session enter_session arm_s3
set_session-enters now srv s h = ground arith

-- A carrier that takes everything takes the answer.
all-Takes :
    {M : Type 0} (i : Instance M) (out_fn : OutFn M)
    → i.cfg.out_fn ≡ some out_fn
    → ((app : M) (link : ℕ) (bytes : List ℕ) (len ta_type : ℕ)
        → (out_fn app link bytes len ta_type).0 ≡ true)
    → Takes (expire_session i)
unfolding give_out
all-Takes {M = M} i out_fn e all =
    let i1 = expire_session i in
    ap
      (λ (f : Option (OutFn M)).
        (elim f as (λ f. Bool × M) [
          | none ↦ (false, i1.app)
          | some out_fn ↦
              out_fn i1.app i1.txn.ctx.link i1.txn.ctx.out i1.txn.ctx.out_len i1.txn.ctx.ta_type
        ]).0)
      (ap (λ (cfg : nx_c_util.Middleware.UdsServer.Instance.Cfg M). cfg.out_fn)
          (expire_session-Reports i).cfg
        ∙ e)
    ∙ all _ _ _ _ _

-- A client asks a server at rest for a session, physically and without suppressing the answer; the row
-- of the service lets the request through, the application agrees and the carrier takes the answer. The
-- request alone leaves the session; one call of `process` hands the answer over; the carrier's word
-- ends the transaction. A good word has put the server in the session that was asked for, locked; a
-- bad one leaves it as it was.
pub exchange-changes :
    {M : Type 0} (c : Cfg M) (s : ℕ) (row : Row M) (subs : List ℕ) (i : Instance M)
    (out_fn : OutFn M) (result : ℕ)
    → Lets c s row subs i.srv.session i.srv.sec_level
    → Fits c s row subs i.srv.session i.srv.sec_level i
    → i.txn.state ≡ vacant
    → too_long i.cfg 2 ≡ false
    → 2 ≤ length i.req_buf
    → i.cfg.out_fn ≡ some out_fn
    → ((app : M) (link : ℕ) (bytes : List ℕ) (len ta_type : ℕ)
        → (out_fn app link bytes len ta_type).0 ≡ true)
    → let asked = indicate i (0x10 ∷ s ∷ []) 2 0 i.cfg.link in
      let waiting = process asked.1 in
      let told = confirm_link waiting i.cfg.link result in
      (asked.0 ≡ ok)
      × (asked.1.srv.session ≡ i.srv.session)
      × (waiting.txn.state ≡ awaiting)
      × (told.0 ≡ ok)
      × (told.1.txn.state ≡ vacant)
      × (result ≡ 0 → (told.1.srv.session ≡ s) × (told.1.srv.sec_level ≡ 0))
      × (result ≢ 0 → told.1.srv ≡ waiting.srv)
exchange-changes {M = M} c s row subs i out_fn result l f resting short room e all =
    let asked = (indicate i (0x10 ∷ s ∷ []) 2 0 i.cfg.link).1 in
    let waiting = process asked in
    let (took, answering, live, kept, same) =
      indicate-Answering c s row subs i.srv.session i.srv.sec_level i l f resting short room in
    let (held, carried, same') = process-Answering c s asked answering live (
      all-Takes asked out_fn
        (ap (λ (cfg : nx_c_util.Middleware.UdsServer.Instance.Cfg M). cfg.out_fn) same ∙ e) all) in
    let told =
      subst
        (λ (link : ℕ).
          let o = confirm_link waiting link result in
          (o.0 ≡ ok)
          × (o.1.txn.state ≡ vacant)
          × (o.1.srv
              ≡ (if result == 0 then set_session (now waiting) waiting.srv s else waiting.srv)))
        (ap (λ (cfg : nx_c_util.Middleware.UdsServer.Instance.Cfg M). cfg.link) (same' ∙ same))
        (confirm-Acts c s waiting result held carried) in
    let entered = set_session-enters (now waiting) waiting.srv s l.ranged in
    (
      took,
      kept,
      carried,
      told.0,
      told.1,
      (λ good.
          let at = told.2 ∙ if-true {b = result == 0} _ _ (ground arith) in
          (
            ap (λ (x : Server). x.session) at ∙ entered.0,
            ap (λ (x : Server). x.sec_level) at ∙ entered.1,
          )),
      λ bad. told.2 ∙ if-false {b = result == 0} _ _ (ground arith),
    )
