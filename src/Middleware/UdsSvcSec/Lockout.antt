-- ===== src/Middleware/UdsSvcSec/Lockout.antt =====
-- How many wrong keys a client can have judged.
use nx_c_util.Base.{
  ℕ, ◌+◌, ◌*◌, ◌-◌, ◌≤◌, ◌<◌, ◌≡◌, refl, ap, arith, Bool, true, false, ◌&&◌, ◌||◌, Bool-cases, inl,
  inr, Option, none, some, List, [], ◌∷◌, ltb, ◌==◌, if◌then◌else◌, ◌+32◌, ◌-32◌, reached, take,
  drop, replicate,
}
use native.Mathlib.Nat.{add-mul}
use nx_c_util.Middleware.Uds.{
  Phase, Disposition, Ctx, request, done, pending, negative, no_response,
}
use nx_c_util.Middleware.UdsSvcSec.{
  Level, Sec, Env, Outcome, level_of, refuse, spend, answer, issue, do_seed, wrong_key, right_key,
  do_key, exchange, serve, on_request, later_phase, security_access,
}
use nx_c_util.Middleware.UdsSvcSec.Unlock.{
  on_request-free, on_request-late, on_request-early, security_access-cases,
}

-- Keys may still be tried, and the limit is a byte.
abbrev pub IsSafe : Sec → Type 0
IsSafe sec =
    (sec.max_attempts < 256)
    × (1 ≤ sec.max_attempts)
    × (sec.waiting ≡ false → sec.attempts < sec.max_attempts)

-- The client is told that its key was wrong.
unfoldable pub wrong : Disposition → ℕ → ℕ
wrong negative nrc = if nrc == 0x35 || nrc == 0x36 then 1 else 0
wrong done nrc = 0
wrong pending nrc = 0
wrong no_response nrc = 0

unfoldable pub is_unlock : Option ℕ → Bool
is_unlock none = false
is_unlock (some l) = true

-- The wrong keys that are left before a wait starts.
unfoldable pub left : Sec → ℕ
left sec = if sec.waiting then 0 else sec.max_attempts - sec.attempts

-- The limit stays, the state stays safe, and a wrong key is paid for.
record Accounted (sec : Sec) (o : Outcome) : Type 0 where
  pub account :
      (o.sec.max_attempts ≡ sec.max_attempts)
      × IsSafe o.sec
      × (wrong o.disposition o.ctx.nrc + left o.sec
          ≤ left sec + (if is_unlock o.unlocked then sec.max_attempts else 0))

if-Accounted :
    (sec : Sec) (b : Bool) {x y : Outcome}
    → Accounted sec x
    → Accounted sec y
    → Accounted sec (if b then x else y)
if-Accounted sec true h k = h
if-Accounted sec false h k = k

refuse-Accounted :
    (sec : Sec) (ctx : Ctx) (nrc : ℕ)
    → IsSafe sec
    → wrong negative nrc ≡ 0
    → Accounted sec (refuse ctx sec nrc)
unfolding refuse left is_unlock
refuse-Accounted sec ctx nrc safe h = record { account = (refl, safe, omega arith) }

answer-Accounted :
    (sec : Sec) (ctx : Ctx) (bytes : List ℕ) (len : ℕ)
    → IsSafe sec
    → Accounted sec (answer ctx (spend sec) bytes len)
unfolding answer spend wrong left is_unlock
answer-Accounted sec ctx bytes len safe = record { account = ground arith }

issue-Accounted :
    (sec : Sec) (ctx : Ctx) (lv : Level) (level : ℕ) (got : Bool × List ℕ × ℕ)
    → IsSafe sec
    → Accounted sec (issue sec ctx lv level got)
unfolding issue refuse answer spend wrong left is_unlock
issue-Accounted sec ctx lv level (produced, buf, len) safe = record { account = ground arith }

wrong_key-Accounted :
    (env : Env) (sec : Sec) (ctx : Ctx)
    → sec.waiting ≡ false
    → IsSafe sec
    → Accounted sec (wrong_key env sec ctx)
unfolding wrong_key refuse spend wrong left is_unlock
wrong_key-Accounted env sec ctx w safe = record { account = ground arith }

right_key-Accounted :
    (sec : Sec) (ctx : Ctx) (level : ℕ) → IsSafe sec → Accounted sec (right_key sec ctx level)
unfolding right_key answer spend wrong left is_unlock
right_key-Accounted sec ctx level safe = record { account = ground arith }

do_seed-Accounted :
    (env : Env) (sec : Sec) (ctx : Ctx) (lv : Level) (level : ℕ)
    → IsSafe sec
    → Accounted sec (do_seed env sec ctx lv level)
unfolding do_seed
do_seed-Accounted env sec ctx lv level safe =
    if-Accounted sec (ltb ctx.out_cap (2 +32 lv.seed_len))
      (refuse-Accounted sec ctx 0x14 safe (unfold wrong in refl))
      (if-Accounted sec ctx.suppress_pos (answer-Accounted sec ctx [] 0 safe) (
        if-Accounted sec (ctx.sec_level == level)
          (answer-Accounted sec ctx (replicate lv.seed_len 0) lv.seed_len safe)
          (issue-Accounted sec ctx lv level
            (env.seed_fn level (take (ctx.req_len -32 2) (drop 2 ctx.req)) sec.seed_buf
              sec.seed_buf_size)
            safe)))

do_key-Accounted :
    (env : Env) (sec : Sec) (ctx : Ctx) (lv : Level) (level : ℕ)
    → sec.waiting ≡ false
    → IsSafe sec
    → Accounted sec (do_key env sec ctx lv level)
unfolding do_key
do_key-Accounted env sec ctx lv level w safe =
    if-Accounted sec _ (refuse-Accounted sec ctx 0x24 safe (unfold wrong in refl)) (
      if-Accounted sec _ (refuse-Accounted sec ctx 0x13 safe (unfold wrong in refl)) (
        if-Accounted sec _ (refuse-Accounted sec ctx 0x14 safe (unfold wrong in refl)) (
          if-Accounted sec _ (right_key-Accounted sec ctx level safe)
            (wrong_key-Accounted env sec ctx w safe))))

exchange-Accounted :
    (env : Env) (sec : Sec) (ctx : Ctx) (level : ℕ) (found : Option Level)
    → sec.waiting ≡ false
    → IsSafe sec
    → Accounted sec (exchange env sec ctx level found)
unfolding exchange
exchange-Accounted env sec ctx level none w safe =
    refuse-Accounted sec ctx 0x12 safe (unfold wrong in refl)
exchange-Accounted env sec ctx level (some lv) w safe =
    if-Accounted sec _ (do_seed-Accounted env sec ctx lv level safe)
      (do_key-Accounted env sec ctx lv level w safe)

-- The first phase serves a wait that is over.
unfoldable pub is_request : Phase → Bool
is_request request = true
is_request _ = false

unfoldable pub serves_wait : Env → Sec → Ctx → Bool
unfolding is_request
serves_wait env sec ctx = is_request ctx.phase && sec.waiting && reached env.now sec.wait_until

-- One request: the limit stays, the state stays safe, and a wrong key is paid for, by the keys left, by
-- a wait that was served or by an unlock.
abbrev Paid : Env → Sec → Ctx → Outcome → Type 0
Paid env sec ctx o =
    (o.sec.max_attempts ≡ sec.max_attempts)
    × IsSafe o.sec
    × (wrong o.disposition o.ctx.nrc + left o.sec
        ≤ left sec
          + (if is_unlock o.unlocked then sec.max_attempts else 0)
          + (if serves_wait env sec ctx then sec.max_attempts else 0))

serve-Accounted :
    (env : Env) (sec : Sec) (ctx : Ctx)
    → sec.waiting ≡ false
    → IsSafe sec
    → Accounted sec (serve env sec ctx)
unfolding serve
serve-Accounted env sec ctx w safe = exchange-Accounted env sec ctx (level_of ctx.sub) _ w safe

on_request-Paid :
    (env : Env) (sec : Sec) (ctx : Ctx)
    → ctx.phase ≡ request
    → IsSafe sec
    → Paid env sec ctx (on_request env sec ctx)
unfolding left serves_wait
on_request-Paid env sec ctx first safe = elim (Bool-cases sec.waiting) [
  | inr free ↦
      let a = (serve-Accounted env sec ctx free safe).account in
      rw (on_request-free env sec ctx free) (a.0, a.1, omega (arith, a.2))
  | inl w ↦ elim (Bool-cases (reached env.now sec.wait_until)) [
    | inl late ↦
        let served : serves_wait env sec ctx ≡ true = rw (first, w, late) refl in
        let rested : Sec = record sec { waiting = false; attempts = 0 } in
        let a = (serve-Accounted env rested ctx refl (safe.0, safe.1, λ e. safe.1)).account in
        rw (on_request-late env sec ctx w late) (a.0, a.1, rw served (omega (arith, a.2)))
    | inr early ↦
        let a = (refuse-Accounted sec ctx 0x37 safe (unfold wrong in refl)).account in
        rw (on_request-early env sec ctx w early) (a.0, a.1, omega (arith, a.2))
  ]
]

security_access-Paid :
    (env : Env) (sec : Sec) (ctx : Ctx)
    → IsSafe sec
    → Paid env sec ctx (security_access env sec ctx)
unfolding later_phase wrong is_unlock
security_access-Paid env sec ctx safe = elim (security_access-cases env sec ctx) [
  | inl (first, same) ↦ rw same (on_request-Paid env sec ctx first safe)
  | inr same ↦ rw same (refl, safe, omega arith)
]

-- A run of requests: the wrong keys, and the unlocks and the waits served.
unfoldable pub wrong_keys : Sec → List (Env × Ctx) → ℕ
wrong_keys sec [] = 0
wrong_keys sec ((env, ctx) ∷ rest) =
    let o = security_access env sec ctx in wrong o.disposition o.ctx.nrc + wrong_keys o.sec rest

abbrev pub one_if : Bool → ℕ
one_if b = if b then 1 else 0

unfoldable pub releases : Sec → List (Env × Ctx) → ℕ
releases sec [] = 0
releases sec ((env, ctx) ∷ rest) =
    let o = security_access env sec ctx in
    one_if (is_unlock o.unlocked) + one_if (serves_wait env sec ctx) + releases o.sec rest

one_if-times : (b : Bool) (m : ℕ) → one_if b * m ≡ (if b then m else 0)
one_if-times true m = omega arith
one_if-times false m = omega arith

-- In a run of requests from a safe state, the client is told of a wrong key at most as often as keys are
-- left before the wait, and as often again as the limit for every unlock and every wait served.
pub wrong_keys-le :
    (sec : Sec) (rs : List (Env × Ctx))
    → IsSafe sec
    → wrong_keys sec rs ≤ left sec + releases sec rs * sec.max_attempts
unfolding wrong_keys releases
wrong_keys-le sec [] safe = omega arith
wrong_keys-le sec ((env, ctx) ∷ rest) safe =
    let p = security_access-Paid env sec ctx safe in
    let ih = wrong_keys-le (security_access env sec ctx).sec rest p.1 in
    let o = security_access env sec ctx in
    let u = one_if (is_unlock o.unlocked) in
    let w = one_if (serves_wait env sec ctx) in
    let m = sec.max_attempts in
    rw
      (
        add-mul (u + w) (releases o.sec rest) m,
        add-mul u w m,
        one_if-times (is_unlock o.unlocked) m,
        one_if-times (serves_wait env sec ctx) m,
      )
      (omega (arith, p.2, ap (λ k. releases o.sec rest * k) p.0))
