-- ===== src/Middleware/UdsSvcSession/Respecting.antt =====
-- src/middleware/nx_uds_svc_session.c: session control as a handler of the server's table.
use nx_c_util.Base.{◌≡◌, refl, arith, false, length}
use nx_c_util.Middleware.Uds.{
  Phase, request, resume, response, confirm, link_error, silence, abort, Ctx, Outcome,
}
use nx_c_util.Middleware.UdsServer.{Server}
use nx_c_util.Middleware.UdsServer.Sound.{is_report, Respects}
use nx_c_util.Middleware.UdsSvcSession.{
  Cfg, at_phase, windows, refuse, announce, accept, enter, control,
}
use nx_c_util.Middleware.UdsSvcSession.Acting.{accept-Decides}

module _ {S : Type 0} where
  -- What holds of each outcome holds of the one that the phase picks.
  at_phase_elim :
      (P : Outcome S → Type 0) (p : Phase) (first closing later : Outcome S)
      → (is_report p ≡ false → P first)
      → P closing
      → P later
      → P (at_phase p first closing later)
  unfolding at_phase
  at_phase_elim P request a b c f g h = f refl
  at_phase_elim P resume a b c f g h = h
  at_phase_elim P response a b c f g h = h
  at_phase_elim P confirm a b c f g h = g
  at_phase_elim P link_error a b c f g h = h
  at_phase_elim P silence a b c f g h = g
  at_phase_elim P abort a b c f g h = h

module _ {M : Type 0} (c : Cfg M) where
  accept-cap :
      (srv : Server) (ctx : Ctx) (app : M) → (accept c srv ctx app).ctx.out_cap ≡ ctx.out_cap
  unfolding accept announce refuse windows
  accept-cap srv ctx app = ground arith

  pub control-Respects : Respects (control c)
  unfolding control enter
  control-Respects = record {
    buffer = λ now ctx srv app.
        at_phase_elim (λ (o : Outcome (Server × M)). length o.ctx.out ≡ length ctx.out) ctx.phase _
          _ _ (λ first. (accept-Decides c srv ctx app).buffer) refl refl;
    cap = λ now ctx srv app.
        at_phase_elim (λ (o : Outcome (Server × M)). o.ctx.out_cap ≡ ctx.out_cap) ctx.phase _ _ _
          (λ first. accept-cap srv ctx app) refl refl;
    decided = λ now ctx srv app report.
        at_phase_elim (λ (o : Outcome (Server × M)). o.ctx.out_len ≡ ctx.out_len) ctx.phase _ _ _
          (λ first. ground arith) refl refl;
  }
