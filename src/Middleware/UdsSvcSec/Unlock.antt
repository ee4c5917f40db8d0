-- ===== src/Middleware/UdsSvcSec/Unlock.antt =====
-- When a request unlocks a level.
use nx_c_util.Base.{
  ℕ, ◌≡◌, refl, arith, Bool, true, false, Bool-cases, inl, inr, ◌⊎◌, Option, none, some, List, ◌==◌,
  ◌+32◌, reached, take, drop,
}
use nx_c_util.Middleware.Uds.{
  Phase, Ctx, request, resume, response, confirm, link_error, silence, abort,
}
use nx_c_util.Middleware.UdsSvcSec.{
  Level, Sec, Env, Outcome, level_of, is_seed_request, find_level, refuse, spend, answer, issue,
  do_seed, wrong_key, right_key, verdict, do_key, exchange, serve, on_request, later_phase,
  security_access, at_phase,
}

issue-unlocked :
    (sec : Sec) (ctx : Ctx) (lv : Level) (level : ℕ) (got : Bool × List ℕ × ℕ)
    → (issue sec ctx lv level got).unlocked ≡ none
unfolding issue refuse answer
issue-unlocked sec ctx lv level (produced, buf, len) = ground arith

do_seed-unlocked :
    (env : Env) (sec : Sec) (ctx : Ctx) (lv : Level) (level : ℕ)
    → (do_seed env sec ctx lv level).unlocked ≡ none
unfolding do_seed refuse answer
do_seed-unlocked env sec ctx lv level = ground (arith, issue-unlocked sec ctx lv level)

-- A key unlocks only against the outstanding seed of its level, of the right length, when judged right.
do_key-unlocked :
    (env : Env) (sec : Sec) (ctx : Ctx) (lv : Level) (level : ℕ) {l : ℕ}
    → let o = do_key env sec ctx lv level in
      o.unlocked ≡ some l
      → (l ≡ level)
        × (sec.seed_level ≡ level)
        × (ctx.req_len ≡ 2 +32 lv.key_len)
        × (verdict env sec ctx lv level ≡ true)
        × (o ≡ right_key sec ctx level)
unfolding do_key refuse right_key wrong_key
do_key-unlocked env sec ctx lv level h = ground arith

-- What stands when level `l` is unlocked: the seed of the level was outstanding, the level is declared,
-- the request has the length of its key, and the key was judged right for that seed. Afterwards no seed is
-- outstanding and no wrong key is counted.
pub record Earned (env : Env) (sec : Sec) (ctx : Ctx) (o : Outcome) (l : ℕ) : Type 0 where
  pub lv : Level
  pub asked : level_of ctx.sub ≡ l
  pub is_key : is_seed_request ctx.sub ≡ false
  pub declared : find_level sec.levels l ≡ some lv
  pub issued : sec.seed_level ≡ l
  pub length : ctx.req_len ≡ 2 +32 lv.key_len
  pub judged :
      env.verify_fn l (take sec.seed_len sec.seed_buf) (take lv.key_len (drop 2 ctx.req)) ≡ true
  pub spent : o.sec.seed_level ≡ 0
  pub forgiven : o.sec.attempts ≡ 0

none-some : {x : ℕ} {o : Option ℕ} → o ≡ none → o ≡ some x → ⊥
none-some e h = ground arith

-- An accepted key.
right_key-Earned :
    (env : Env) (sec : Sec) (ctx : Ctx) (lv : Level)
    → let level = level_of ctx.sub in
      is_seed_request ctx.sub ≡ false
      → find_level sec.levels level ≡ some lv
      → sec.seed_level ≡ level
      → ctx.req_len ≡ 2 +32 lv.key_len
      → verdict env sec ctx lv level ≡ true
      → Earned env sec ctx (right_key sec ctx level) level
unfolding right_key verdict spend answer
right_key-Earned env sec ctx lv key found issued length judged = record {
  lv = lv;
  asked = refl;
  is_key = key;
  declared = found;
  issued = issued;
  length = length;
  judged = judged;
  spent = refl;
  forgiven = refl;
}

exchange-Earned :
    (env : Env) (sec : Sec) (ctx : Ctx) (found : Option Level) (l : ℕ)
    → let o = exchange env sec ctx (level_of ctx.sub) found in
      o.unlocked ≡ some l
      → ((lv : Level) → found ≡ some lv → find_level sec.levels (level_of ctx.sub) ≡ some lv)
      → Earned env sec ctx o l
unfolding exchange refuse
exchange-Earned env sec ctx none l h same = absurd (none-some refl h)
exchange-Earned env sec ctx (some lv) l h same = elim (Bool-cases (is_seed_request ctx.sub)) [
  | inl e ↦ absurd (none-some (do_seed-unlocked env sec ctx lv (level_of ctx.sub)) (rw e at h))
  | inr e ↦
      let d = do_key-unlocked env sec ctx lv (level_of ctx.sub) (rw e at h) in
      rw (e, d.4, d.0) (right_key-Earned env sec ctx lv e (same lv refl) d.1 d.2 d.3)
]

serve-Earned :
    (env : Env) (sec : Sec) (ctx : Ctx) (l : ℕ)
    → (serve env sec ctx).unlocked ≡ some l
    → Earned env sec ctx (serve env sec ctx) l
unfolding serve
serve-Earned env sec ctx l h = exchange-Earned env sec ctx _ l h λ lv found.
    elim (Bool-cases (level_of ctx.sub == 0)) [
      | inl e ↦ absurd (none-some' (rw e at found))
      | inr e ↦ rw e at found
    ]
  where
    none-some' : {lv : Level} → none ≡ some lv → ⊥
    none-some' h = ground arith

-- A wait that is over leaves what an unlock rests on.
served-Earned :
    (env : Env) (sec : Sec) (ctx : Ctx) (o : Outcome) (l : ℕ)
    → Earned env (record sec { waiting = false; attempts = 0 }) ctx o l
    → Earned env sec ctx o l
served-Earned env sec ctx o l w = record {
  lv = w.lv;
  asked = w.asked;
  is_key = w.is_key;
  declared = w.declared;
  issued = w.issued;
  length = w.length;
  judged = w.judged;
  spent = w.spent;
  forgiven = w.forgiven;
}

refuse-unlocked : (ctx : Ctx) (sec : Sec) (nrc : ℕ) → (refuse ctx sec nrc).unlocked ≡ none
unfolding refuse
refuse-unlocked ctx sec nrc = refl

later_phase-unlocked : (sec : Sec) (ctx : Ctx) → (later_phase sec ctx).unlocked ≡ none
unfolding later_phase
later_phase-unlocked sec ctx = refl

module _ (env : Env) (sec : Sec) (ctx : Ctx) where
  -- What a request comes to.
  pub on_request-free : sec.waiting ≡ false → on_request env sec ctx ≡ serve env sec ctx
  unfolding on_request
  on_request-free w = rw w refl

  pub on_request-late :
      sec.waiting ≡ true
      → reached env.now sec.wait_until ≡ true
      → on_request env sec ctx ≡ serve env (record sec { waiting = false; attempts = 0 }) ctx
  unfolding on_request
  on_request-late w late = rw (w, late) refl

  pub on_request-early :
      sec.waiting ≡ true
      → reached env.now sec.wait_until ≡ false
      → on_request env sec ctx ≡ refuse ctx sec 0x37
  unfolding on_request
  on_request-early w early = simp (w, early) refl

  on_request-Earned :
      (l : ℕ)
      → (on_request env sec ctx).unlocked ≡ some l
      → Earned env sec ctx (on_request env sec ctx) l
        × (sec.waiting ≡ true → reached env.now sec.wait_until ≡ true)
  on_request-Earned l h = elim (Bool-cases sec.waiting) [
    | inr e ↦ (
      rw (on_request-free e) (serve-Earned env sec ctx l (rw (on_request-free e) at h)),
      λ w. ground (arith, e),
    )
    | inl e ↦ elim (Bool-cases (reached env.now sec.wait_until)) [
      | inr early ↦
          absurd (none-some (refuse-unlocked ctx sec 0x37) (rw (on_request-early e early) at h))
      | inl late ↦ (
        rw (on_request-late e late) (
            served-Earned env sec ctx _ l (
              serve-Earned env (record sec { waiting = false; attempts = 0 }) ctx l
                (rw (on_request-late e late) at h))),
        λ w. late,
      )
    ]
  ]

  at_phase-cases :
      (p : Phase)
      → ((p ≡ request) × (at_phase env sec ctx p ≡ on_request env sec ctx))
        ⊎ (at_phase env sec ctx p ≡ later_phase sec ctx)
  unfolding at_phase
  at_phase-cases request = inl (refl, refl)
  at_phase-cases resume = inr refl
  at_phase-cases response = inr refl
  at_phase-cases confirm = inr refl
  at_phase-cases link_error = inr refl
  at_phase-cases silence = inr refl
  at_phase-cases abort = inr refl

  -- Only the first phase does anything.
  pub security_access-cases :
      ((ctx.phase ≡ request) × (security_access env sec ctx ≡ on_request env sec ctx))
      ⊎ (security_access env sec ctx ≡ later_phase sec ctx)
  unfolding security_access
  security_access-cases = at_phase-cases ctx.phase

-- A request unlocks a level only in its first phase and not before a running wait is over; the seed of that
-- level was outstanding, the level is declared, and the key, of the declared length, was judged right for
-- that seed. Afterwards no seed is outstanding and no wrong key is counted.
pub security_access-Earned :
    (env : Env) (sec : Sec) (ctx : Ctx) (l : ℕ)
    → let o = security_access env sec ctx in
      o.unlocked ≡ some l
      → (ctx.phase ≡ request)
        × Earned env sec ctx o l
        × (sec.waiting ≡ true → reached env.now sec.wait_until ≡ true)
security_access-Earned env sec ctx l h = elim (security_access-cases env sec ctx) [
  | inl (e, same) ↦ let w = on_request-Earned env sec ctx l (rw same at h) in (e, rw same w.0, w.1)
  | inr same ↦ absurd (none-some (later_phase-unlocked sec ctx) (rw same at h))
]
