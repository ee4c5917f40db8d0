-- ===== src/Middleware/UdsSvcSession/Timing.antt =====
-- The answer to a request for a session, and the windows it announces.
use nx_c_util.Base.{
  ℕ, ◌+◌, ◌*◌, ◌^◌, ◌≤◌, ◌<◌, ◌≡◌, ◌⊎◌, inl, inr, refl, sym, ap, arith, Bool, true, false, not,
  List, [], ◌∷◌, length, ltb, if◌then◌else◌, u8, ◌>>◌, get_or, set, drop,
}
use mathlib.Core.Path.{subst}
use nx_c_util.Core.Bytes.{get_be16}
use nx_c_util.Core.Bytes.Sums.{get_be16_sum}
use nx_c_util.Middleware.Uds.{Outcome, request, done, negative, Ctx}
use nx_c_util.Middleware.UdsServer.{Server, session_in_range}
use nx_c_util.Middleware.UdsSvcSession.{
  Cfg, window_counts, refuse, windows, allowed, announce, answer, accept, enter, at_phase, control,
}

-- A count of the unit covers the window, by less than a unit.
abbrev pub Covers : (counts unit us : ℕ) → Type 0
Covers counts unit us = (us ≤ counts * unit) × (counts * unit < us + unit)

window_counts-Covers : (us : ℕ) → us ≤ 65535000 → Covers (window_counts us 1000) 1000 us
unfolding window_counts
window_counts-Covers us h = ground arith

window_counts_star-Covers : (us : ℕ) → us ≤ 655350000 → Covers (window_counts us 10000) 10000 us
unfolding window_counts
window_counts_star-Covers us h = ground arith

window_counts_word : (us unit : ℕ) → window_counts us unit < 2 ^ 16
unfolding window_counts
window_counts_word us unit = ground arith

be16_pair : (x : ℕ) (rest : List ℕ) → x < 2 ^ 16 → get_be16 (u8 (x >> 8) ∷ u8 x ∷ rest) ≡ x
be16_pair x rest h =
    omega (arith, get_be16_sum (u8 (x >> 8) ∷ u8 x ∷ rest) (omega arith, omega arith))

-- What a positive answer to 0x10 holds.
pub record Announces (srv : Server) (sub : ℕ) (ctx : Ctx) : Type 0 where
  pub len : ctx.out_len ≡ 6
  pub room : 6 ≤ ctx.out_cap
  pub echo : get_or ctx.out 1 0 ≡ sub
  pub p2 : Covers (get_be16 (drop 2 ctx.out)) 1000 srv.p2_us
  pub p2_star : Covers (get_be16 (drop 4 ctx.out)) 10000 srv.p2_star_us

write_windows :
    (out : List ℕ) (sub x y : ℕ)
    → 6 ≤ length out
    → x < 2 ^ 16
    → y < 2 ^ 16
    → let three = set (set (set out 1 sub) 2 (u8 (x >> 8))) 3 (u8 x) in
      let all = set (set three 4 (u8 (y >> 8))) 5 (u8 y) in
      (get_or all 1 0 ≡ sub) × (get_be16 (drop 2 all) ≡ x) × (get_be16 (drop 4 all) ≡ y)
write_windows [] sub x y h hx hy = absurd (omega arith)
write_windows (a ∷ []) sub x y h hx hy = absurd (omega arith)
write_windows (a ∷ b ∷ []) sub x y h hx hy = absurd (omega arith)
write_windows (a ∷ b ∷ c ∷ []) sub x y h hx hy = absurd (omega arith)
write_windows (a ∷ b ∷ c ∷ d ∷ []) sub x y h hx hy = absurd (omega arith)
write_windows (a ∷ b ∷ c ∷ d ∷ e ∷ []) sub x y h hx hy = absurd (omega arith)
write_windows (a ∷ b ∷ c ∷ d ∷ e ∷ f ∷ rest) sub x y h hx hy =
    (refl, be16_pair x (u8 (y >> 8) ∷ u8 y ∷ rest) hx, be16_pair y rest hy)

windows-Announces :
    (srv : Server) (ctx : Ctx)
    → 6 ≤ length ctx.out
    → 6 ≤ ctx.out_cap
    → srv.p2_us ≤ 65535000
    → srv.p2_star_us ≤ 655350000
    → Announces srv ctx.sub (windows srv ctx)
unfolding windows
windows-Announces srv ctx l room h h' =
    let (echo, p2, p2_star) =
      write_windows ctx.out ctx.sub (window_counts srv.p2_us 1000)
        (window_counts srv.p2_star_us 10000) l (window_counts_word srv.p2_us 1000)
        (window_counts_word srv.p2_star_us 10000) in
    record {
      len = refl;
      room = room;
      echo = echo;
      p2 = subst (λ n. Covers n 1000 srv.p2_us) (sym p2) (window_counts-Covers srv.p2_us h);
      p2_star =
          subst (λ n. Covers n 10000 srv.p2_star_us) (sym p2_star)
            (window_counts_star-Covers srv.p2_star_us h');
    }

module _ {M : Type 0} (srv : Server) (ctx : Ctx) where
  -- A refusal leaves the buffer; a positive answer announces the windows of a session in range. Neither
  -- touches the server.
  abbrev pub Answers : Outcome (Server × M) → Type 0
  Answers o =
      (o.state.0 ≡ srv)
      × (((o.disposition ≡ negative) × (o.ctx.out ≡ ctx.out))
          ⊎ ((o.disposition ≡ done)
              × (session_in_range ctx.sub ≡ true)
              × Announces srv ctx.sub o.ctx))

  if-Answers :
      (b : Bool) (o o' : Outcome (Server × M))
      → (b ≡ true → Answers o)
      → (b ≡ false → Answers o')
      → Answers (if b then o else o')
  if-Answers true o o' h k = h refl
  if-Answers false o o' h k = k refl

  refuse-Answers : (app : M) (nrc : ℕ) → Answers (refuse ctx (srv, app) nrc)
  unfolding refuse
  refuse-Answers app nrc = (refl, inl (refl, refl))

  announce-Answers :
      (answer : Bool × M × ℕ)
      → session_in_range ctx.sub ≡ true
      → 6 ≤ length ctx.out
      → srv.p2_us ≤ 65535000
      → srv.p2_star_us ≤ 655350000
      → Answers (announce srv ctx answer)
  unfolding announce
  announce-Answers (allow, app, nrc) r l h h' =
      if-Answers (not allow) _ _ (λ e. refuse-Answers app nrc)
        λ e.
          if-Answers (ltb ctx.out_cap 6) _ _ (λ e. refuse-Answers app 0x14)
            λ room. (refl, inr (refl, r, windows-Announces srv ctx l (ground arith) h h'))

pub control-accept :
    {M : Type 0} (cfg : Cfg M) (now : ℕ) (ctx : Ctx) (srv : Server) (app : M)
    → ctx.phase ≡ request
    → control cfg now ctx srv app ≡ accept cfg srv ctx app
unfolding control at_phase
control-accept cfg now ctx srv app first =
    ap (λ p. at_phase p (accept cfg srv ctx app) (enter now srv ctx app) (answer ctx (srv, app)))
      first

accept-Answers :
    {M : Type 0} (cfg : Cfg M) (ctx : Ctx) (srv : Server) (app : M)
    → 6 ≤ length ctx.out
    → srv.p2_us ≤ 65535000
    → srv.p2_star_us ≤ 655350000
    → Answers srv ctx (accept cfg srv ctx app)
unfolding accept
accept-Answers cfg ctx srv app l h h' =
    if-Answers srv ctx (not (session_in_range ctx.sub)) _ _ (λ e. refuse-Answers srv ctx app 0x12)
      λ e.
        announce-Answers srv ctx (allowed cfg.allow_fn app ctx.session ctx.sub) (ground arith) l h
          h'

-- At the first phase 0x10 leaves the server as it was. It either refuses, and leaves the response buffer, or
-- answers: the session asked for is in range, the answer echoes it and has six bytes, and the two windows read
-- from it in their units cover the ones the server keeps to, by less than a unit. The windows are small enough
-- for their fields and the buffer has six bytes.
pub control-Answers :
    {M : Type 0} (cfg : Cfg M) (now : ℕ) (ctx : Ctx) (srv : Server) (app : M)
    → ctx.phase ≡ request
    → 6 ≤ length ctx.out
    → srv.p2_us ≤ 65535000
    → srv.p2_star_us ≤ 655350000
    → Answers srv ctx (control cfg now ctx srv app)
control-Answers cfg now ctx srv app first l h h' =
    rw (control-accept cfg now ctx srv app first) (accept-Answers cfg ctx srv app l h h')
