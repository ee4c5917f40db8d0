-- ===== src/Middleware/UdsSvcSession/Acting/Deciding.antt =====
-- What 0x10 and 0x11 leave once they have decided on a request.
use nx_c_util.Base.{
  ℕ, suc, ◌≤◌, ◌≡◌, ◌≢◌, inl, inr, refl, sym, ap, ◌∙◌, arith, Bool, true, false, not, List, [], ◌∷◌,
  length, ltb, ◌==◌, if◌then◌else◌, get_or, set, length-set, Bool-cases,
}
use mathlib.Core.Path.{subst}
use nx_c_util.Middleware.Uds.{
  Outcome, Phase, request, resume, response, confirm, link_error, silence, abort, is_done, Ctx,
  positive_sid,
}
use nx_c_util.Middleware.UdsServer.{Server, session_in_range, put_negative}
use nx_c_util.Middleware.UdsSvcSession.{
  Cfg, answered_positively, refuse, answer, windows, allowed, announce, accept, accept_reset,
}

-- The phases at which an answer has left, or was to be silence.
abbrev pub is_closing : Phase → Bool
is_closing request = false
is_closing resume = false
is_closing response = false
is_closing confirm = true
is_closing link_error = false
is_closing silence = true
is_closing abort = false

-- What the server has in its buffer when the handler has decided: for a refusal, the negative response.
abbrev pub decided : {S : Type 0} → Outcome S → Phase → Ctx
decided o p =
    record (if is_done o.disposition then o.ctx else put_negative o.ctx o.ctx.sid o.ctx.nrc) {
      phase = p;
    }

module _ {S : Type 0} (ctx : Ctx) where
  -- A decision on the request keeps what it asks for; a positive one leaves the identifier in the buffer.
  pub record Decides (o : Outcome S) : Type 0 where
    pub sid : o.ctx.sid ≡ ctx.sid
    pub sub : o.ctx.sub ≡ ctx.sub
    pub buffer : length o.ctx.out ≡ length ctx.out
    pub first : get_or o.ctx.out 0 0 ≡ get_or ctx.out 0 0
    pub len : is_done o.disposition ≡ true → 2 ≤ o.ctx.out_len

  if-Decides :
      (b : Bool) (o o' : Outcome S) → Decides o → Decides o' → Decides (if b then o else o')
  if-Decides true o o' h k = h
  if-Decides false o o' h k = k

  refuse-Decides : (s : S) (nrc : ℕ) → Decides (refuse ctx s nrc)
  unfolding refuse
  refuse-Decides s nrc = record {
    sid = refl;
    sub = refl;
    buffer = refl;
    first = refl;
    len = λ e. ground arith;
  }

get_or-set_front : (xs : List ℕ) (i v : ℕ) → get_or (set xs (suc i) v) 0 0 ≡ get_or xs 0 0
get_or-set_front [] i v = refl
get_or-set_front (x ∷ xs) i v = refl

length-if_set : (b : Bool) (xs : List ℕ) (v : ℕ) → length (if b then set xs 2 v else xs) ≡ length xs
length-if_set true xs v = length-set xs 2 v
length-if_set false xs v = refl

front-if_set :
    (b : Bool) (xs : List ℕ) (v : ℕ) → get_or (if b then set xs 2 v else xs) 0 0 ≡ get_or xs 0 0
front-if_set true xs v = get_or-set_front xs 1 v
front-if_set false xs v = refl

front-five :
    (xs : List ℕ) (a b c d e : ℕ)
    → get_or (set (set (set (set (set xs 1 a) 2 b) 3 c) 4 d) 5 e) 0 0 ≡ get_or xs 0 0
front-five [] a b c d e = refl
front-five (x ∷ xs) a b c d e = refl

module _ {M : Type 0} where
  pub windows-Decides :
      (srv : Server) (ctx : Ctx) (app : M)
      → Decides {S = Server × M} ctx (answer (windows srv ctx) (srv, app))
  unfolding windows
  windows-Decides srv ctx app = record {
    sid = refl;
    sub = refl;
    buffer = simp (length-set);
    first = front-five ctx.out _ _ _ _ _;
    len = λ e. omega arith;
  }

  announce-Decides :
      (srv : Server) (ctx : Ctx) (a : Bool × M × ℕ) → Decides ctx (announce srv ctx a)
  unfolding announce
  announce-Decides srv ctx (allow, app, nrc) =
      if-Decides ctx (not allow) _ _ (refuse-Decides ctx (srv, app) nrc) (
        if-Decides ctx (ltb ctx.out_cap 6) _ _ (refuse-Decides ctx (srv, app) 0x14)
          (windows-Decides srv ctx app))

  pub accept-Decides :
      (cfg : Cfg M) (srv : Server) (ctx : Ctx) (app : M) → Decides ctx (accept cfg srv ctx app)
  unfolding accept
  accept-Decides cfg srv ctx app =
      if-Decides ctx (not (session_in_range ctx.sub)) _ _ (refuse-Decides ctx (srv, app) 0x12)
        (announce-Decides srv ctx (allowed cfg.allow_fn app ctx.session ctx.sub))

  pub accept_reset-Decides :
      (time : ℕ) (ctx : Ctx) (a : Bool × M × ℕ) → Decides ctx (accept_reset time ctx a)
  unfolding accept_reset
  accept_reset-Decides time ctx (allow, app, nrc) =
      if-Decides ctx (not allow) _ _ (refuse-Decides ctx app nrc) (
        if-Decides ctx (ltb ctx.out_cap (if ctx.sub == 4 then 3 else 2)) _ _
          (refuse-Decides ctx app 0x14)
          (record {
            sid = refl;
            sub = refl;
            buffer = length-if_set _ (set ctx.out 1 ctx.sub) time ∙ length-set ctx.out 1 ctx.sub;
            first =
                front-if_set _ (set ctx.out 1 ctx.sub) time ∙ get_or-set_front ctx.out 0 ctx.sub;
            len = λ e. ground arith;
          }))

-- A refusal is not taken for the answer it replaced.
put_negative-answered :
    (ctx : Ctx) (p : Phase) (sid nrc : ℕ)
    → 1 ≤ length ctx.out
    → positive_sid ctx.sid ≢ 0x7F
    → answered_positively (record (put_negative ctx sid nrc) { phase = p }) ≡ false
unfolding answered_positively put_negative
put_negative-answered ctx p sid nrc l other =
    let e =
      get_or-set_front (set (set ctx.out 0 0x7F) 1 sid) 1 nrc
      ∙ get_or-set_front (set ctx.out 0 0x7F) 0 sid
      ∙ front ctx.out l in
    rw e (ground arith)
  where
    front : (xs : List ℕ) → 1 ≤ length xs → get_or (set xs 0 0x7F) 0 0 ≡ 0x7F
    front [] h = absurd (omega arith)
    front (x ∷ xs) h = refl

module _ {S : Type 0} where
  pub answered-decided :
      (ctx : Ctx) (o : Outcome S) (p : Phase)
      → Decides ctx o
      → 1 ≤ length ctx.out
      → get_or ctx.out 0 0 ≡ positive_sid ctx.sid
      → positive_sid ctx.sid ≢ 0x7F
      → answered_positively (decided o p) ≡ is_done o.disposition
  unfolding answered_positively
  answered-decided ctx o p h l first other = elim (Bool-cases (is_done o.disposition)) [
    | inl positive ↦
        let len = h.len positive in
        let e : get_or o.ctx.out 0 0 ≡ positive_sid o.ctx.sid =
          h.first ∙ first ∙ ap positive_sid (sym h.sid) in
        rw positive (ground arith)
    | inr refused ↦ rw refused (
        put_negative-answered o.ctx p o.ctx.sid o.ctx.nrc (subst (λ n. 1 ≤ n) (sym h.buffer) l)
          (subst (λ n. positive_sid n ≢ 0x7F) (sym h.sid) other))
  ]

  pub decided-sub :
      (ctx : Ctx) (o : Outcome S) (p : Phase) → Decides ctx o → (decided o p).sub ≡ ctx.sub
  unfolding put_negative
  decided-sub ctx o p h = elim (Bool-cases (is_done o.disposition)) [
    | inl positive ↦ rw positive h.sub
    | inr refused ↦ rw refused h.sub
  ]
