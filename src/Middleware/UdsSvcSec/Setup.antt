-- ===== src/Middleware/UdsSvcSec/Setup.antt =====
-- Setting up the exchange, and storing and restoring its lockout.
use nx_c_util.Base.{
  ℕ, ◌+◌, ◌-◌, ◌%◌, ◌^◌, ◌≤◌, ◌<◌, ◌≡◌, refl, ap, arith, Bool, true, false, not, Option, none, some,
  List, ◌==◌, if◌then◌else◌, ◌+32◌, ◌-32◌, reached, take,
}
use nx_c_util.Middleware.UdsSvcSec.{
  Level, Cfg, Sec, make, init_with, init, get_lockout, set_lockout,
}
use nx_c_util.Middleware.UdsSvcSec.Lockout.{IsSafe, left}

make-IsSafe :
    (cfg : Cfg) (levels : List Level) (buf : List ℕ)
    → cfg.max_attempts < 256
    → IsSafe (make cfg levels buf)
unfolding make
make-IsSafe cfg levels buf h = ground arith

make-left :
    (cfg : Cfg) (levels : List Level) (buf : List ℕ)
    → left (make cfg levels buf) ≡ (if cfg.max_attempts == 0 then 3 else cfg.max_attempts)
unfolding make left
make-left cfg levels buf = omega arith

init_with-made :
    (cfg : Cfg) (levels : Option (List Level)) (buf : Option (List ℕ)) {sec : Sec}
    → init_with cfg levels buf ≡ some sec
    → (lvs : List Level) × (b : List ℕ) × (sec ≡ make cfg lvs b)
unfolding init_with
init_with-made cfg none buf h = absurd (ground arith)
init_with-made cfg (some levels) none h = absurd (ground arith)
init_with-made cfg (some levels) (some buf) h = (take cfg.levels_count levels, buf, ground arith)

-- Where an initialisation succeeds with a limit that is a byte, the state is safe: keys can be tried, no
-- seed is outstanding, no wait runs, and all the attempts are left, the default number if none was chosen.
pub init-IsSafe :
    (cfg : Cfg) (sec : Sec)
    → cfg.max_attempts < 256
    → init cfg ≡ some sec
    → IsSafe sec
      × (sec.seed_level ≡ 0)
      × (sec.waiting ≡ false)
      × (left sec ≡ (if cfg.max_attempts == 0 then 3 else cfg.max_attempts))
unfolding init
init-IsSafe cfg sec small h =
    let m = init_with-made cfg cfg.levels cfg.seed_buf h in
    rw m.2 (
      make-IsSafe cfg m.0 m.1 small,
      (unfold make in refl),
      (unfold make in refl),
      make-left cfg m.0 m.1,
    )

-- What is left at `now` of a wait of `remaining` that starts at `now`.
remaining_lem :
    (now remaining : ℕ)
    → now < 2 ^ 32
    → remaining ≤ 2 ^ 31
    → (if not (reached now (now +32 remaining)) then (now +32 remaining) -32 now else 0) ≡ remaining
remaining_lem now remaining hn hr =
    let back : (now +32 remaining) -32 now ≡ remaining = omega arith in
    let gap : (now + 2 ^ 32 - (now + remaining) % 2 ^ 32) % 2 ^ 32 ≡ (2 ^ 32 - remaining) % 2 ^ 32 =
      omega arith in
    rw (back, gap) (ground arith)

-- A lockout that is restored reads back at the same time: the attempts, whether the wait runs, and the
-- time left of it, for at most half the range of the clock.
pub get-set_lockout :
    (sec : Sec) (now attempts remaining : ℕ) (waiting : Bool)
    → now < 2 ^ 32
    → remaining ≤ 2 ^ 31
    → get_lockout (set_lockout sec now attempts waiting remaining) now
      ≡ (attempts, waiting, (if waiting then remaining else 0))
unfolding get_lockout set_lockout
get-set_lockout sec now attempts remaining true hn hr =
    ap (λ r. (attempts, true, r)) (remaining_lem now remaining hn hr)
get-set_lockout sec now attempts remaining false hn hr = refl
