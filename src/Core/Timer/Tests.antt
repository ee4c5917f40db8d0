-- ===== src/Core/Timer/Tests.antt =====
-- Runs of nx_timer.c at concrete inputs, and the theorem about it at such an input. The application is the
-- list of the timers whose callbacks ran, the last one first.
use nx_c_util.Base.{ℕ, ◌<◌, ◌≡◌, refl, arith, true, false, List, [], ◌∷◌}
use nx_c_util.Core.IntrusiveList.{init, add, add_tail, del}
use nx_c_util.Core.IntrusiveList.Chain.{count}
use nx_c_util.Core.IntrusiveList.Refine.{IsList}
use nx_c_util.Core.Timer.{
  Clock, mgr_init, timer_init, start, stop, call_back, visit, sweep, process,
}
use nx_c_util.Core.Timer.Sweep.{staying, acted, ticked, process-ticks}

abbrev act : (t : ℕ) → List ℕ → List ℕ
act t fired = t ∷ fired

abbrev note : (t : ℕ) → Clock (List ℕ) → Clock (List ℕ)
note t w = record w { app = act t w.app }

abbrev blank : Clock (List ℕ)
blank = record {
  links = record { next = λ a. 0; prev = λ a. 0 };
  timers = λ a. record { expire_tick = 0; interval = 0; has_cb = false; active = false };
  last_tick = 0;
  app = [];
}

-- The timer 1 once after five ticks, the timer 2 every three.
abbrev two_timers : Clock (List ℕ)
two_timers =
    start (start (timer_init (timer_init (mgr_init blank 100) 1 true) 2 true) 100 1 5 0) 100 2 3 3

late : (process note (process note two_timers 100 3 9) 100 7 9).app ≡ 2 ∷ 1 ∷ 2 ∷ []
unfolding process sweep visit call_back start timer_init mgr_init add_tail add init del
late = refl

stopped : (process note (stop two_timers 2) 100 7 9).app ≡ 1 ∷ []
unfolding process sweep visit call_back start stop timer_init mgr_init add_tail add init del
stopped = refl

-- Two callbacks that start their timers again with no delay keep the loop going.
abbrev again : (t : ℕ) → Clock (List ℕ) → Clock (List ℕ)
again t w = start (record w { app = act t w.app }) 100 t 0 0

goes_on : (process again two_timers 100 7 6).app ≡ 2 ∷ 1 ∷ 2 ∷ 1 ∷ 2 ∷ 1 ∷ []
unfolding process sweep visit call_back start timer_init mgr_init add_tail add init del
goes_on = refl

linked : IsList two_timers.links 100 (1 ∷ 2 ∷ [])
unfolding start timer_init mgr_init init add_tail add
linked = record { chain = (refl, refl, (refl, refl, (refl, refl))); once = λ a. ground arith }

active : (t : ℕ) → 0 < count t (1 ∷ 2 ∷ []) → (two_timers.timers t).active ≡ true
unfolding start timer_init mgr_init
active t h = ground arith

has_cb : (t : ℕ) → 0 < count t (1 ∷ 2 ∷ []) → (two_timers.timers t).has_cb ≡ true
unfolding start timer_init mgr_init
has_cb t h = ground arith

process-ticks_example :
    let o = process note two_timers 100 7 3 in
    IsList o.links 100 (staying two_timers.timers 7 (1 ∷ 2 ∷ []))
    × (o.app ≡ acted act two_timers.timers 7 (1 ∷ 2 ∷ []) two_timers.app)
    × (o.last_tick ≡ 7)
    × ((t : ℕ) → 0 < count t (1 ∷ 2 ∷ []) → o.timers t ≡ ticked 7 (two_timers.timers t))
    × ((t : ℕ) → count t (1 ∷ 2 ∷ []) ≡ 0 → o.timers t ≡ two_timers.timers t)
process-ticks_example =
    process-ticks act note two_timers 100 7 3 (1 ∷ 2 ∷ []) (λ t w. refl) linked active has_cb
      (omega arith)
