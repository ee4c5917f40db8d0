-- ===== src/Middleware/UdsSvcSec/Tests.antt =====
-- Runs of nx_uds_svc_sec.c at concrete inputs, and the theorems about it at such inputs. The key of
-- a seed is the seed with one added to its first byte.
use nx_c_util.Base.{
  ℕ, ◌+◌, ◌*◌, ◌≤◌, ◌≡◌, refl, arith, Bool, true, false, some, List, [], ◌∷◌, ◌==◌, reached,
  if◌then◌else◌,
}
use nx_c_util.Middleware.Uds.{request, Ctx}
use nx_c_util.Middleware.UdsSvcSec.{
  Level, Cfg, Sec, Env, init, get_lockout, set_lockout, security_access,
}
use nx_c_util.Middleware.UdsSvcSec.Unlock.{Earned, security_access-Earned}
use nx_c_util.Middleware.UdsSvcSec.Lockout.{
  IsSafe, wrong, is_unlock, serves_wait, left, wrong_keys, releases, wrong_keys-le,
}
use nx_c_util.Middleware.UdsSvcSec.Setup.{init-IsSafe, get-set_lockout}

abbrev level_one : Level
level_one = record { level = 1; seed_len = 2; key_len = 1 }

abbrev cfg : Cfg
cfg = record {
  srv = true;
  levels = some (level_one ∷ []);
  levels_count = 1;
  seed_fn = true;
  verify_fn = true;
  granted_fn = true;
  seed_buf = some (0 ∷ 0 ∷ []);
  seed_buf_size = 2;
  max_attempts = 2;
  delay_us = 0;
}

abbrev start : Sec
start = record {
  levels = level_one ∷ [];
  granted_fn = true;
  seed_buf = 0 ∷ 0 ∷ [];
  seed_buf_size = 2;
  max_attempts = 2;
  delay_us = 10000000;
  seed_level = 0;
  seed_len = 0;
  attempts = 0;
  waiting = false;
  wait_until = 0;
}

-- The seed 7, 8 of level 1 is outstanding, after a wrong key.
abbrev asked : Sec
asked = record start { seed_buf = 7 ∷ 8 ∷ []; seed_level = 1; seed_len = 2; attempts = 1 }

abbrev judge : List ℕ → List ℕ → Bool
judge (s ∷ seed) (k ∷ key) = k == s + 1
judge _ _ = false

abbrev env_at : ℕ → Env
env_at now = record {
  now = now;
  seed_fn = λ level bytes buf cap. (true, 7 ∷ 8 ∷ [], 2);
  verify_fn = λ level seed key. judge seed key;
}

abbrev message : ℕ → List ℕ → ℕ → Ctx
message sub req len = record {
  phase = request;
  req = req;
  req_len = len;
  sid = 0x27;
  sub = sub;
  has_sub = false;
  ta_type = 0;
  link = 0;
  session = 3;
  suppress_pos = false;
  sec_level = 0;
  out = 0x67 ∷ 0 ∷ 0 ∷ 0 ∷ [];
  out_cap = 4;
  out_len = 1;
  nrc = 0;
  result = 0;
}

abbrev ask : Ctx
ask = message 1 (0x27 ∷ 1 ∷ []) 2

abbrev key : ℕ → Ctx
key k = message 2 (0x27 ∷ 2 ∷ k ∷ []) 3

asking :
    ((security_access (env_at 5) start ask).ctx.out ≡ 0x67 ∷ 1 ∷ 7 ∷ 8 ∷ [])
    × ((security_access (env_at 5) start ask).sec ≡ record asked { attempts = 0 })
unfolding security_access
asking = (refl, refl)

answering :
    ((security_access (env_at 5) asked (key 8)).unlocked ≡ some 1)
    × ((security_access (env_at 5) asked (key 9)).ctx.nrc ≡ 0x36)
    × ((security_access (env_at 5) asked (key 9)).sec.wait_until ≡ 10000005)
unfolding security_access
answering = (refl, refl, refl)

-- Two wrong keys, a third try during the wait, and one more wrong key after it.
abbrev attack : List (Env × Ctx)
attack =
    (env_at 0, ask)
    ∷ (env_at 1, key 0)
    ∷ (env_at 2, ask)
    ∷ (env_at 3, key 1)
    ∷ (env_at 4, ask)
    ∷ (env_at 20000000, ask)
    ∷ (env_at 20000001, key 0)
    ∷ []

attacking : (wrong_keys start attack ≡ 3) × (releases start attack ≡ 1)
unfolding wrong_keys releases security_access wrong is_unlock serves_wait
attacking = (refl, refl)

abbrev start-IsSafe : IsSafe start
start-IsSafe = (omega arith, omega arith, λ w. omega arith)

wrong_keys-le_example :
    wrong_keys start attack ≤ left start + releases start attack * start.max_attempts
wrong_keys-le_example = wrong_keys-le start attack start-IsSafe

security_access-Earned_example :
    let o = security_access (env_at 5) asked (key 8) in
    ((key 8).phase ≡ request)
    × Earned (env_at 5) asked (key 8) o 1
    × (asked.waiting ≡ true → reached 5 asked.wait_until ≡ true)
unfolding security_access
security_access-Earned_example = security_access-Earned (env_at 5) asked (key 8) 1 refl

init-IsSafe_example :
    IsSafe start
    × (start.seed_level ≡ 0)
    × (start.waiting ≡ false)
    × (left start ≡ (if cfg.max_attempts == 0 then 3 else cfg.max_attempts))
unfolding init
init-IsSafe_example = init-IsSafe cfg start (omega arith) refl

get-set_lockout_example :
    get_lockout (set_lockout start 4294967290 2 true 500) 4294967290 ≡ (2, true, 500)
get-set_lockout_example = get-set_lockout start 4294967290 2 500 true (omega arith) (omega arith)
