-- ===== src/Core/Timer.antt =====
-- src/core/nx_timer.h and nx_timer.c: software timers on an intrusive list. A timer is the address of its
-- link, and what a callback may change is one value: links, timers, the last tick and the application.
pub mod Sweep
mod Tests
use nx_c_util.Base.{ℕ, zero, suc, Bool, true, false, not, List, ◌==◌, if◌then◌else◌, ◌+32◌, reached}
use nx_c_util.Core.IntrusiveList.{Links, add_tail, del}

-- `nx_timer_t`, less its link and what is called; whether it has a callback.
pub record Timer : Type 0 where
  pub expire_tick : ℕ
  pub interval : ℕ
  pub has_cb : Bool
  pub active : Bool

-- The links and timers in memory, `last_tick` of the manager, and the application.
pub record Clock (M : Type 0) : Type 0 where
  pub links : Links
  pub timers : ℕ → Timer
  pub last_tick : ℕ
  pub app : M

module _ {M : Type 0} where
  abbrev pub set_timer : Clock M → (t : ℕ) → Timer → Clock M
  set_timer w t timer = record w { timers = λ a. if a == t then timer else w.timers a }

  -- `nx_timer_mgr_init`, with the manager's list head.
  unfoldable pub mgr_init : Clock M → (head : ℕ) → Clock M
  mgr_init w head = record w {
    links = nx_c_util.Core.IntrusiveList.init w.links head;
    last_tick = 0;
  }

  -- `nx_timer_init`
  unfoldable pub timer_init : Clock M → (t : ℕ) → (has_cb : Bool) → Clock M
  timer_init w t has_cb =
      set_timer (record w { links = nx_c_util.Core.IntrusiveList.init w.links t }) t
        (record { expire_tick = 0; interval = 0; has_cb = has_cb; active = false })

  -- `nx_timer_start`
  unfoldable pub start : Clock M → (head t delay period : ℕ) → Clock M
  start w head t delay period =
      let links = if (w.timers t).active then del w.links t else w.links in
      if not (w.timers t).has_cb
      then w
      else set_timer (record w { links = add_tail links head t }) t
          (record (w.timers t) {
            expire_tick = w.last_tick +32 delay;
            interval = period;
            active = true;
          })

  -- `nx_timer_stop`
  unfoldable pub stop : Clock M → (t : ℕ) → Clock M
  stop w t =
      if not (w.timers t).active
      then w
      else set_timer (record w { links = del w.links t }) t (record (w.timers t) { active = false })

  -- The callbacks of the timers.
  module _ (cb : (t : ℕ) → Clock M → Clock M) where
    unfoldable pub call_back : Clock M → (t : ℕ) → Clock M
    call_back w t = if (w.timers t).has_cb then cb t w else w

    -- The body of the loop in `nx_timer_mgr_process`.
    unfoldable pub visit : Clock M → (now t : ℕ) → Clock M
    unfolding call_back
    visit w now t =
        if not (w.timers t).active
        then w
        else if not (reached now (w.timers t).expire_tick)
        then w
        else if (w.timers t).interval == 0
        then call_back
            (set_timer (record w { links = del w.links t }) t
              (record (w.timers t) { active = false }))
            t
        else call_back
            (set_timer w t (record (w.timers t) {
              expire_tick = (w.timers t).expire_tick +32 (w.timers t).interval;
            }))
            t

    -- The loop from a position on, in so many steps: the node that follows is read before the body.
    unfoldable pub sweep : Clock M → (head now pos steps : ℕ) → Clock M
    unfolding visit
    sweep w head now pos zero = w
    sweep w head now pos (suc steps) =
        let rest = sweep (visit w now pos) head now (w.links.next pos) steps in
        if pos == head then w else rest

    -- `nx_timer_mgr_process`
    unfoldable pub process : Clock M → (head now steps : ℕ) → Clock M
    unfolding sweep
    process w head now steps =
        sweep (record w { last_tick = now }) head now (w.links.next head) steps
