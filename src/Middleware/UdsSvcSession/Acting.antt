-- ===== src/Middleware/UdsSvcSession/Acting.antt =====
-- What 0x10 and 0x11 do once their answer is behind them.
mod Deciding
pub use Deciding.*
use nx_c_util.Base.{
  ℕ, suc, ◌≤◌, ◌≡◌, ◌≢◌, inl, inr, refl, sym, ap, ◌∙◌, arith, Bool, true, false, not, ◌&&◌, Option,
  none, some, List, [], ◌∷◌, length, ltb, ◌==◌, if◌then◌else◌, get_or, set, length-set, Bool-cases,
  if-true, if-false,
}
use mathlib.Core.Path.{subst}
use nx_c_util.Middleware.Uds.{
  Outcome, Phase, request, resume, response, confirm, link_error, silence, abort, is_done, Ctx,
  positive_sid,
}
use nx_c_util.Middleware.UdsServer.{
  Server, session_in_range, set_session, enter_session, put_negative,
}
use nx_c_util.Middleware.UdsSvcSession.{
  Cfg, ResetCfg, ResetDoFn, answered_positively, refuse, answer, at_phase, windows, allowed,
  announce, accept, enter, control, reset_allowed, accept_reset, reset, reset_by, ecu_reset,
}
use nx_c_util.Middleware.UdsSvcSession.Timing.{control-accept}

if-same :
    (b d : Bool) (srv : Server) (now sub : ℕ)
    → (d ≡ true → session_in_range sub ≡ true)
    → (if b && d then set_session now srv sub else srv)
      ≡ (if b && d then enter_session now srv sub else srv)
unfolding set_session
if-same true true srv now sub h = rw (h refl) refl
if-same true false srv now sub h = refl
if-same false d srv now sub h = refl

module _ {S : Type 0} where
  later-phase :
      (p : Phase) (a b c : Outcome S)
      → p ≢ request
      → at_phase p a b c ≡ (if is_closing p then b else c)
  unfolding at_phase
  later-phase request a b c h = absurd (h refl)
  later-phase resume a b c h = refl
  later-phase response a b c h = refl
  later-phase confirm a b c h = refl
  later-phase link_error a b c h = refl
  later-phase silence a b c h = refl
  later-phase abort a b c h = refl

module _ {M : Type 0} where
  enter-decided :
      (now : ℕ) (srv : Server) (ctx : Ctx) (app : M) (positive : Bool) (sub : ℕ)
      → answered_positively ctx ≡ positive
      → ctx.sub ≡ sub
      → (enter now srv ctx app).state.0 ≡ (if positive then set_session now srv sub else srv)
  unfolding enter
  enter-decided now srv ctx app true sub e s =
      ap (λ (o : Server × M). o.0) (if-true (set_session now srv ctx.sub, app) (srv, app) e)
      ∙ ap (set_session now srv) s
  enter-decided now srv ctx app false sub e s =
      ap (λ (o : Server × M). o.0) (if-false (set_session now srv ctx.sub, app) (srv, app) e)

  pub control-later :
      (cfg : Cfg M) (now : ℕ) (ctx : Ctx) (srv : Server) (app : M)
      → ctx.phase ≢ request
      → control cfg now ctx srv app
        ≡ (if is_closing ctx.phase then enter now srv ctx app else answer ctx (srv, app))
  unfolding control
  control-later cfg now ctx srv app h =
      later-phase ctx.phase (accept cfg srv ctx app) (enter now srv ctx app) (answer ctx (srv, app))
        h

  pub control-closes :
      (cfg : Cfg M) (now : ℕ) (ctx : Ctx) (srv : Server) (app : M) (positive : Bool) (sub : ℕ)
      → ctx.phase ≢ request
      → answered_positively ctx ≡ positive
      → ctx.sub ≡ sub
      → (control cfg now ctx srv app).state.0
        ≡ (if is_closing ctx.phase && positive then set_session now srv sub else srv)
  control-closes cfg now ctx srv app positive sub h e s =
      ap (λ o. o.state.0) (control-later cfg now ctx srv app h)
      ∙ elim (Bool-cases (is_closing ctx.phase)) [
        | inl closing ↦ rw closing (enter-decided now srv ctx app positive sub e s)
        | inr later ↦ rw later refl
      ]

  -- The request, and then the phase that ends it, with the buffer that the server has by then.
  abbrev pub exchange : Cfg M → (now later : ℕ) → Ctx → Phase → Server → M → Outcome (Server × M)
  exchange cfg now later ctx p srv app =
      let o = control cfg now ctx srv app in control cfg later (decided o p) o.state.0 o.state.1

  reset-closes :
      (do_fn : ResetDoFn M) (cfg : ResetCfg M) (ctx : Ctx) (app : M) (positive : Bool) (sub : ℕ)
      → ctx.phase ≢ request
      → answered_positively ctx ≡ positive
      → ctx.sub ≡ sub
      → (reset_by do_fn cfg ctx app).state
        ≡ (if is_closing ctx.phase && positive then do_fn app sub else app)
  unfolding reset_by reset
  reset-closes do_fn cfg ctx app positive sub h e s =
      ap (λ o. o.state)
        (later-phase ctx.phase
          (accept_reset cfg.power_down_time ctx (reset_allowed cfg.allow_fn app ctx.sub))
          (reset do_fn ctx app) (answer ctx app) h)
      ∙ elim (Bool-cases (is_closing ctx.phase)) [
        | inl closing ↦ rw closing (rw e (ap (λ n. if positive then do_fn app n else app) s))
        | inr later ↦ rw later refl
      ]

  pub accept-server :
      (cfg : Cfg M) (srv : Server) (ctx : Ctx) (app : M)
      → let o = accept cfg srv ctx app in
        (o.state.0 ≡ srv) × (is_done o.disposition ≡ true → session_in_range ctx.sub ≡ true)
  unfolding accept announce refuse
  accept-server cfg srv ctx app = ground arith

  reset_by-accept :
      (do_fn : ResetDoFn M) (cfg : ResetCfg M) (ctx : Ctx) (app : M)
      → ctx.phase ≡ request
      → reset_by do_fn cfg ctx app
        ≡ accept_reset cfg.power_down_time ctx (reset_allowed cfg.allow_fn app ctx.sub)
  unfolding reset_by at_phase
  reset_by-accept do_fn cfg ctx app first =
      ap
        (λ p.
          at_phase p (accept_reset cfg.power_down_time ctx (reset_allowed cfg.allow_fn app ctx.sub))
            (reset do_fn ctx app) (answer ctx app))
        first

  ecu_reset-by :
      (do_fn : ResetDoFn M) (cfg : ResetCfg M) (ctx : Ctx) (app : M)
      → cfg.do_fn ≡ some do_fn
      → ecu_reset (some cfg) ctx app ≡ reset_by do_fn cfg ctx app
  unfolding ecu_reset
  ecu_reset-by do_fn cfg ctx app e =
      ap
        (λ (f : Option (ResetDoFn M)). elim f [
          | none ↦ refuse ctx app 0x22
          | some do_fn ↦ reset_by do_fn cfg ctx app
        ])
        e

-- A request for a session, and then one of the later phases, with the buffer as the server has it by then: the
-- session that was asked for is entered exactly where the request was accepted and the phase says that the
-- answer reached the client or was to be silence; else the server stays as it was. The request has the service's
-- identifier, and the buffer the one of its positive answer.
pub exchange-enters :
    {M : Type 0} (cfg : Cfg M) (now later : ℕ) (ctx : Ctx) (p : Phase) (srv : Server) (app : M)
    → ctx.phase ≡ request
    → p ≢ request
    → ctx.sid ≡ 0x10
    → 1 ≤ length ctx.out
    → get_or ctx.out 0 0 ≡ 0x50
    → (exchange cfg now later ctx p srv app).state.0 ≡ (
        if is_closing p && is_done (control cfg now ctx srv app).disposition
        then enter_session later srv ctx.sub
        else srv)
exchange-enters {M = M} cfg now later ctx p srv app first other sid l front =
    let (kept, ranged) = accept-server cfg srv ctx app in
    let dec = accept-Decides cfg srv ctx app in
    let o = accept cfg srv ctx app in
    let is_pos =
      answered-decided ctx o p dec l (front ∙ ap positive_sid (sym sid))
        (subst (λ n. positive_sid n ≢ 0x7F) (sym sid) (omega arith)) in
    ap (λ (o : Outcome (Server × M)). (control cfg later (decided o p) o.state.0 o.state.1).state.0)
      (control-accept cfg now ctx srv app first)
    ∙ control-closes cfg later (decided o p) o.state.0 o.state.1 (is_done o.disposition) ctx.sub
        other is_pos (decided-sub ctx o p dec)
    ∙ ap (λ s. if is_closing p && is_done o.disposition then set_session later s ctx.sub else s)
        kept
    ∙ if-same (is_closing p) (is_done o.disposition) srv later ctx.sub ranged
    ∙ ap
        (λ (o : Outcome (Server × M)).
          if is_closing p && is_done o.disposition then enter_session later srv ctx.sub else srv)
        (sym (control-accept cfg now ctx srv app first))

-- A request for a reset, and then one of the later phases, with the buffer as the server has it by then: the
-- reset is carried out exactly where the request was accepted and the phase says that the answer reached the
-- client or was to be silence. The request has the service's identifier, and the buffer the one of its positive
-- answer.
pub ecu_reset-resets :
    {M : Type 0} (do_fn : ResetDoFn M) (cfg : ResetCfg M) (ctx : Ctx) (p : Phase) (app : M)
    → cfg.do_fn ≡ some do_fn
    → ctx.phase ≡ request
    → p ≢ request
    → ctx.sid ≡ 0x11
    → 1 ≤ length ctx.out
    → get_or ctx.out 0 0 ≡ 0x51
    → let o = ecu_reset (some cfg) ctx app in
      (ecu_reset (some cfg) (decided o p) o.state).state
      ≡ (if is_closing p && is_done o.disposition then do_fn o.state ctx.sub else o.state)
ecu_reset-resets {M = M} do_fn cfg ctx p app given first other sid l front =
    let o = accept_reset cfg.power_down_time ctx (reset_allowed cfg.allow_fn app ctx.sub) in
    let dec =
      accept_reset-Decides cfg.power_down_time ctx (reset_allowed cfg.allow_fn app ctx.sub) in
    let is_pos =
      answered-decided ctx o p dec l (front ∙ ap positive_sid (sym sid))
        (subst (λ n. positive_sid n ≢ 0x7F) (sym sid) (omega arith)) in
    let e = ecu_reset-by do_fn cfg ctx app given ∙ reset_by-accept do_fn cfg ctx app first in
    subst
      (λ (o : Outcome M).
        (ecu_reset (some cfg) (decided o p) o.state).state
        ≡ (if is_closing p && is_done o.disposition then do_fn o.state ctx.sub else o.state))
      (sym e)
      (ap (λ (o : Outcome M). o.state) (ecu_reset-by do_fn cfg (decided o p) o.state given)
        ∙ reset-closes do_fn cfg (decided o p) o.state (is_done o.disposition) ctx.sub other is_pos
            (decided-sub ctx o p dec))
