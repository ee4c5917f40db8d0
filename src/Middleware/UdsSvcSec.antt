-- ===== src/Middleware/UdsSvcSec.antt =====
-- src/middleware/nx_uds_svc_sec.h and src/middleware/nx_uds_svc_sec.c: the seed/key exchange of the
-- service 0x27. The server and the application's callbacks are what `Env` says at each request; what
-- the module calls them for is part of the `Outcome`.
pub mod Unlock
pub mod Lockout
pub mod Setup
mod Tests
use nx_c_util.Base.{
  ℕ, ◌+◌, ◌*◌, ◌/◌, ◌%◌, ◌^◌, Bool, true, false, not, ◌||◌, ◌&&◌, Option, none, some, List, [], ◌∷◌,
  ltb, leb, ◌==◌, if◌then◌else◌, u8, ◌+32◌, ◌-32◌, reached, take, drop, set, copy_at, replicate,
  bit_and,
}
use nx_c_util.Middleware.Uds.{
  Phase, request, resume, response, confirm, link_error, silence, abort, Disposition, done,
  negative, Ctx,
}

-- `NX_UDS_SVC_SEC_DEFAULT_ATTEMPTS`, `NX_UDS_SVC_SEC_DEFAULT_DELAY_US`, `NX_UDS_SVC_SEC_MAX_LEVEL`
abbrev pub default_attempts : ℕ
default_attempts = 3

abbrev pub default_delay_us : ℕ
default_delay_us = 10000000

abbrev pub max_level : ℕ
max_level = 32

-- `NX_UDS_SVC_SEC_KEY_SUB`
abbrev pub key_sub : ℕ → ℕ
key_sub level = u8 (level * 2)

-- `nx_uds_svc_sec_level_t`
pub record Level : Type 0 where
  pub level : ℕ
  pub seed_len : ℕ
  pub key_len : ℕ

-- `nx_uds_svc_sec_cfg_t`; of the server and the callbacks, whether the pointer is there.
pub record Cfg : Type 0 where
  pub srv : Bool
  pub levels : Option (List Level)
  pub levels_count : ℕ
  pub seed_fn : Bool
  pub verify_fn : Bool
  pub granted_fn : Bool
  pub seed_buf : Option (List ℕ)
  pub seed_buf_size : ℕ
  pub max_attempts : ℕ
  pub delay_us : ℕ

-- `nx_uds_svc_sec_t`, with the levels and the seed buffer that its configuration points to.
pub record Sec : Type 0 where
  pub levels : List Level
  pub granted_fn : Bool
  pub seed_buf : List ℕ
  pub seed_buf_size : ℕ
  pub max_attempts : ℕ
  pub delay_us : ℕ
  pub seed_level : ℕ
  pub seed_len : ℕ
  pub attempts : ℕ
  pub waiting : Bool
  pub wait_until : ℕ

-- What is outside the module during a request: the server's clock, and the callbacks. `seed_fn` takes
-- the level, the record, the seed buffer and its size, and gives its result, the buffer and the
-- length it reports; `verify_fn` takes the level, the seed and the key.
pub record Env : Type 0 where
  pub now : ℕ
  pub seed_fn : ℕ → List ℕ → List ℕ → ℕ → Bool × List ℕ × ℕ
  pub verify_fn : ℕ → List ℕ → List ℕ → Bool

-- What a request leaves: the disposition, the transaction, the handle, the level given to
-- `nx_uds_server_set_sec_level` and the one given to `granted_fn`.
pub record Outcome : Type 0 where
  pub disposition : Disposition
  pub ctx : Ctx
  pub sec : Sec
  pub unlocked : Option ℕ
  pub granted : Option ℕ

-- `sec_level_of`
unfoldable pub level_of : ℕ → ℕ
level_of sub = if sub == 0 || ltb (key_sub max_level) sub then 0 else u8 ((sub + 1) / 2)

-- `sec_is_seed_request`
unfoldable pub is_seed_request : ℕ → Bool
is_seed_request sub = not (bit_and sub 1 == 0)

-- `sec_find_level`
unfoldable pub find_level : List Level → ℕ → Option Level
find_level [] level = none
find_level (lv ∷ lvs) level =
    let rest = find_level lvs level in if lv.level == level then some lv else rest

-- The inner loop of `nx_uds_svc_sec_init`: no earlier declaration has the level.
unfoldable pub has_level : List Level → ℕ → Bool
has_level [] level = false
has_level (lv ∷ lvs) level = (lv.level == level) || has_level lvs level

-- The outer loop, with the declarations already passed.
unfoldable pub check_levels : (passed : List Level) → List Level → ℕ → Bool
unfolding has_level
check_levels passed [] size = true
check_levels passed (lv ∷ lvs) size =
    let rest = check_levels (lv ∷ passed) lvs size in
    if lv.level == 0 || ltb max_level lv.level
    then false
    else if lv.seed_len == 0 || lv.key_len == 0
    then false
    else if ltb size lv.seed_len
    then false
    else if has_level passed lv.level
    then false
    else rest

-- `memset(sec, 0, ...)`, the copy of the configuration and the defaults.
unfoldable pub make : Cfg → List Level → List ℕ → Sec
make cfg levels buf = record {
  levels = levels;
  granted_fn = cfg.granted_fn;
  seed_buf = buf;
  seed_buf_size = cfg.seed_buf_size;
  max_attempts = if cfg.max_attempts == 0 then default_attempts else cfg.max_attempts;
  delay_us = if cfg.delay_us == 0 then default_delay_us else cfg.delay_us;
  seed_level = 0;
  seed_len = 0;
  attempts = 0;
  waiting = false;
  wait_until = 0;
}

unfoldable pub init_with : Cfg → Option (List Level) → Option (List ℕ) → Option Sec
unfolding check_levels make
init_with cfg none buf = none
init_with cfg (some levels) none = none
init_with cfg (some levels) (some buf) =
    if not cfg.srv
      || cfg.levels_count == 0
      || not cfg.seed_fn
      || not cfg.verify_fn
      || cfg.seed_buf_size == 0
    then none
    else if check_levels [] (take cfg.levels_count levels) cfg.seed_buf_size
    then some (make cfg (take cfg.levels_count levels) buf)
    else none

-- `nx_uds_svc_sec_init`: the handle, or nothing where it returns false.
unfoldable pub init : Cfg → Option Sec
unfolding init_with
init cfg = init_with cfg cfg.levels cfg.seed_buf

-- `nx_uds_svc_sec_get_lockout`: the attempts, whether the wait runs, and what is left of it.
unfoldable pub get_lockout : Sec → (now : ℕ) → ℕ × Bool × ℕ
get_lockout sec now = (
  sec.attempts,
  sec.waiting,
  if sec.waiting && not (reached now sec.wait_until) then sec.wait_until -32 now else 0,
)

-- `nx_uds_svc_sec_set_lockout`
unfoldable pub set_lockout : Sec → (now attempts : ℕ) → Bool → (remaining : ℕ) → Sec
set_lockout sec now attempts waiting remaining = record sec {
  attempts = attempts;
  waiting = waiting;
  wait_until = if waiting then now +32 remaining else 0;
  seed_level = 0;
  seed_len = 0;
}

-- A refusal with its reason.
unfoldable pub refuse : Ctx → Sec → ℕ → Outcome
refuse ctx sec nrc = record {
  disposition = negative;
  ctx = record ctx { nrc = nrc };
  sec = sec;
  unlocked = none;
  granted = none;
}

-- No seed is outstanding.
unfoldable pub spend : Sec → Sec
spend sec = record sec { seed_level = 0; seed_len = 0 }

-- An answer of the sub-function and data behind it.
unfoldable pub answer : Ctx → Sec → List ℕ → ℕ → Outcome
answer ctx sec bytes len = record {
  disposition = done;
  ctx = record ctx { out = set (copy_at ctx.out 2 bytes) 1 ctx.sub; out_len = 2 +32 len };
  sec = sec;
  unlocked = none;
  granted = none;
}

-- What `sec_do_seed` does with what `seed_fn` gave.
unfoldable pub issue : Sec → Ctx → Level → ℕ → Bool × List ℕ × ℕ → Outcome
unfolding refuse spend answer
issue sec ctx lv level (produced, buf, len) =
    let sec' = record sec { seed_buf = buf } in
    if not produced
    then refuse ctx sec' 0x22
    else if not (len == lv.seed_len)
    then refuse ctx (spend sec') 0x22
    else answer ctx (record sec' { seed_level = level; seed_len = len }) (take len buf) len

-- `sec_do_seed`
unfoldable pub do_seed : Env → Sec → Ctx → Level → ℕ → Outcome
unfolding refuse spend answer issue
do_seed env sec ctx lv level =
    if ltb ctx.out_cap (2 +32 lv.seed_len)
    then refuse ctx sec 0x14
    else if ctx.suppress_pos
    then answer ctx (spend sec) [] 0
    else if ctx.sec_level == level
    then answer ctx (spend sec) (replicate lv.seed_len 0) lv.seed_len
    else issue sec ctx lv level (
        env.seed_fn level (take (ctx.req_len -32 2) (drop 2 ctx.req)) sec.seed_buf
          sec.seed_buf_size)

-- `sec_do_key` after `verify_fn` refused the key.
unfoldable pub wrong_key : Env → Sec → Ctx → Outcome
unfolding refuse spend
wrong_key env sec ctx =
    let attempts = if ltb sec.attempts 0xFF then sec.attempts + 1 else sec.attempts in
    let sec' = record (spend sec) { attempts = attempts } in
    if leb sec.max_attempts attempts
    then refuse ctx (record sec' { waiting = true; wait_until = env.now +32 sec.delay_us }) 0x36
    else refuse ctx sec' 0x35

-- `sec_do_key` after `verify_fn` accepted it.
unfoldable pub right_key : Sec → Ctx → ℕ → Outcome
unfolding spend answer
right_key sec ctx level = record (answer ctx (record (spend sec) { attempts = 0 }) [] 0) {
  unlocked = some level;
  granted = if sec.granted_fn then some level else none;
}

-- The answer of `verify_fn` on the outstanding seed and the key of the request.
unfoldable pub verdict : Env → Sec → Ctx → Level → ℕ → Bool
verdict env sec ctx lv level =
    env.verify_fn level (take sec.seed_len sec.seed_buf) (take lv.key_len (drop 2 ctx.req))

-- `sec_do_key`
unfoldable pub do_key : Env → Sec → Ctx → Level → ℕ → Outcome
unfolding refuse verdict wrong_key right_key
do_key env sec ctx lv level =
    if not (sec.seed_level == level)
    then refuse ctx sec 0x24
    else if not (ctx.req_len == 2 +32 lv.key_len)
    then refuse ctx sec 0x13
    else if ltb ctx.out_cap 2
    then refuse ctx sec 0x14
    else if verdict env sec ctx lv level
    then right_key sec ctx level
    else wrong_key env sec ctx

unfoldable pub exchange : Env → Sec → Ctx → ℕ → Option Level → Outcome
unfolding refuse do_seed do_key is_seed_request
exchange env sec ctx level none = refuse ctx sec 0x12
exchange env sec ctx level (some lv) =
    if is_seed_request ctx.sub then do_seed env sec ctx lv level else do_key env sec ctx lv level

-- `nx_uds_svc_security_access` past the wait.
unfoldable pub serve : Env → Sec → Ctx → Outcome
unfolding exchange level_of find_level
serve env sec ctx =
    let level = level_of ctx.sub in
    exchange env sec ctx level (if level == 0 then none else find_level sec.levels level)

unfoldable pub on_request : Env → Sec → Ctx → Outcome
unfolding refuse serve
on_request env sec ctx =
    if sec.waiting
    then if reached env.now sec.wait_until
      then serve env (record sec { waiting = false; attempts = 0 }) ctx
      else refuse ctx sec 0x37
    else serve env sec ctx

-- Nothing is left to do at the other phases.
unfoldable pub later_phase : Sec → Ctx → Outcome
later_phase sec ctx = record {
  disposition = done;
  ctx = ctx;
  sec = sec;
  unlocked = none;
  granted = none;
}

unfoldable pub at_phase : Env → Sec → Ctx → Phase → Outcome
unfolding on_request later_phase
at_phase env sec ctx request = on_request env sec ctx
at_phase env sec ctx resume = later_phase sec ctx
at_phase env sec ctx response = later_phase sec ctx
at_phase env sec ctx confirm = later_phase sec ctx
at_phase env sec ctx link_error = later_phase sec ctx
at_phase env sec ctx silence = later_phase sec ctx
at_phase env sec ctx abort = later_phase sec ctx

-- `nx_uds_svc_security_access`
unfoldable pub security_access : Env → Sec → Ctx → Outcome
unfolding at_phase
security_access env sec ctx = at_phase env sec ctx ctx.phase
