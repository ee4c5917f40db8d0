-- ===== src/Core/Timer/Sweep.antt =====
-- src/core/nx_timer.c: what one call of nx_timer_mgr_process does, where the callbacks leave the timers.
use nx_c_util.Base.{
  ℕ, zero, suc, ◌<◌, ◌≡◌, ◌≢◌, refl, sym, ap, ◌∙◌, arith, Bool, true, false, not, ◌&&◌, List, [],
  ◌∷◌, ◌++◌, length, ◌==◌, if◌then◌else◌, if-true, if-false, if-elim, Bool-cases, ◌+32◌, reached,
  inl, inr,
}
use mathlib.Core.List.{append_assoc}
use mathlib.Core.Path.{subst}
use nx_c_util.Core.IntrusiveList.{Links, del}
use nx_c_util.Core.IntrusiveList.Chain.{count, count-append, IsChain, split}
use nx_c_util.Core.IntrusiveList.Refine.{IsList, del-IsList}
use nx_c_util.Core.Timer.{Timer, Clock, set_timer, call_back, visit, sweep, process}

abbrev pub is_due : (now : ℕ) → Timer → Bool
is_due now timer = reached now timer.expire_tick

-- A one-shot timer that is due.
abbrev pub is_over : (now : ℕ) → Timer → Bool
is_over now timer = is_due now timer && (timer.interval == 0)

-- A timer after the call.
abbrev pub ticked : (now : ℕ) → Timer → Timer
ticked now timer =
    if is_due now timer
    then (if timer.interval == 0
        then record timer { active = false }
        else record timer { expire_tick = timer.expire_tick +32 timer.interval })
    else timer

-- The timers that stay.
abbrev pub staying : (ℕ → Timer) → (now : ℕ) → List ℕ → List ℕ
staying timers now [] = []
staying timers now (t ∷ ts) =
    let rest = staying timers now ts in if is_over now (timers t) then rest else t ∷ rest

module _ {M : Type 0} (act : (t : ℕ) → M → M) where
  -- The application once the callbacks of those that are due have run, in their order.
  abbrev pub acted : (ℕ → Timer) → (now : ℕ) → List ℕ → M → M
  acted timers now [] app = app
  acted timers now (t ∷ ts) app =
      acted timers now ts (if is_due now (timers t) then act t app else app)

  module _ (cb : (t : ℕ) → Clock M → Clock M)
      (quiet : (t : ℕ) (w : Clock M) → cb t w ≡ record w { app = act t w.app }) where
    -- What the body of the loop does for a timer.
    record Visited (w o : Clock M) (now t : ℕ) : Type 0 where
      links : o.links ≡ (if is_over now (w.timers t) then del w.links t else w.links)
      app : o.app ≡ (if is_due now (w.timers t) then act t w.app else w.app)
      same_tick : o.last_tick ≡ w.last_tick
      visited : o.timers t ≡ ticked now (w.timers t)
      other : (a : ℕ) → a ≢ t → o.timers a ≡ w.timers a

    called :
        (w : Clock M) (t : ℕ)
        → (w.timers t).has_cb ≡ true
        → call_back cb w t ≡ record w { app = act t w.app }
    unfolding call_back
    called w t h = if-true _ _ h ∙ quiet t w

    set-at : (w : Clock M) (t : ℕ) (timer : Timer) → (set_timer w t timer).timers t ≡ timer
    set-at w t timer = if-true {b = t == t} _ _ (ground arith)

    set-off :
        (w : Clock M) (t a : ℕ) (timer : Timer)
        → a ≢ t
        → (set_timer w t timer).timers a ≡ w.timers a
    set-off w t a timer h = if-false {b = a == t} _ _ (ground arith)

    visit-Visited :
        (w : Clock M) (now t : ℕ)
        → (w.timers t).active ≡ true
        → (w.timers t).has_cb ≡ true
        → Visited w (visit cb w now t) now t
    unfolding visit
    visit-Visited w now t active has_cb =
        if-elim (λ (o : Clock M). Visited w o now t) (not (w.timers t).active)
          (λ off. absurd (ground arith))
          λ on.
            if-elim (λ (o : Clock M). Visited w o now t)
              (not (reached now (w.timers t).expire_tick))
              (λ early.
                let e : is_due now (w.timers t) ≡ false = ground arith in
                record {
                  links = sym (if-false {b = is_over now (w.timers t)} _ _ (ground arith));
                  app = sym (if-false _ _ e);
                  same_tick = refl;
                  visited = sym (if-false _ _ e);
                  other = λ a h. refl;
                })
              λ late.
                let e : is_due now (w.timers t) ≡ true = ground arith in
                if-elim (λ (o : Clock M). Visited w o now t) ((w.timers t).interval == 0)
                  (λ once.
                    let w' : Clock M =
                      set_timer (record w { links = del w.links t }) t
                        (record (w.timers t) { active = false }) in
                    let at =
                      set-at (record w { links = del w.links t }) t
                        (record (w.timers t) { active = false }) in
                    subst (λ (o : Clock M). Visited w o now t)
                      (sym (called w' t (ap (λ (x : Timer). x.has_cb) at ∙ has_cb)))
                      (record {
                        links = sym (if-true {b = is_over now (w.timers t)} _ _ (ground arith));
                        app = sym (if-true _ _ e);
                        same_tick = refl;
                        visited = at ∙ sym (if-true _ _ e ∙ if-true _ _ once);
                        other = λ a h. set-off w t a _ h;
                      }))
                  (λ again.
                    let timer = record (w.timers t) {
                      expire_tick = (w.timers t).expire_tick +32 (w.timers t).interval;
                    } in
                    let w' : Clock M = set_timer w t timer in
                    let at = set-at w t timer in
                    subst (λ (o : Clock M). Visited w o now t)
                      (sym (called w' t (ap (λ (x : Timer). x.has_cb) at ∙ has_cb)))
                      (record {
                        links = sym (if-false {b = is_over now (w.timers t)} _ _ (ground arith));
                        app = sym (if-true _ _ e);
                        same_tick = refl;
                        visited = at ∙ sym (if-true _ _ e ∙ if-false _ _ again);
                        other = λ a h. set-off w t a timer h;
                      }))

    -- What the loop does from a position on, for the timers that are left.
    record Swept (w o : Clock M) (timers : ℕ → Timer) (head now : ℕ) (behind rest : List ℕ)
        : Type 0 where
      list : IsList o.links head (behind ++ staying timers now rest)
      app : o.app ≡ acted timers now rest w.app
      same_tick : o.last_tick ≡ w.last_tick
      passed : (a : ℕ) → 0 < count a rest → o.timers a ≡ ticked now (timers a)
      other : (a : ℕ) → count a rest ≡ 0 → o.timers a ≡ w.timers a

    -- The timers that are left are as they were, started, and have callbacks.
    record Waits (w : Clock M) (timers : ℕ → Timer) (rest : List ℕ) : Type 0 where
      same : (a : ℕ) → 0 < count a rest → w.timers a ≡ timers a
      active : (a : ℕ) → 0 < count a rest → (timers a).active ≡ true
      has_cb : (a : ℕ) → 0 < count a rest → (timers a).has_cb ≡ true

    abbrev start_of : (head : ℕ) → List ℕ → ℕ
    start_of head [] = head
    start_of head (t ∷ ts) = t

    chain-start : (h : Links) (p q : ℕ) (xs : List ℕ) → IsChain h p xs q → h.next p ≡ start_of q xs
    chain-start h p q [] (n, r) = n
    chain-start h p q (x ∷ xs) (n, r, rest) = n

    same-count : (a t : ℕ) (xs : List ℕ) → a ≡ t → count t xs ≡ 0 → count a xs ≡ 0
    same-count a t xs e off = subst (λ n. count n xs ≡ 0) (sym e) off

    -- One timer, and then the rest.
    then-Swept :
        (w w1 o : Clock M) (timers : ℕ → Timer) (head now t : ℕ) (behind behind1 ts : List ℕ)
        → Visited w w1 now t
        → Swept w1 o timers head now behind1 ts
        → w.timers t ≡ timers t
        → count t ts ≡ 0
        → behind1 ++ staying timers now ts ≡ behind ++ staying timers now (t ∷ ts)
        → Swept w o timers head now behind (t ∷ ts)
    then-Swept w w1 o timers head now t behind behind1 ts v s same off e = record {
      list = subst (IsList o.links head) e s.list;
      app =
          s.app
          ∙ ap (acted timers now ts)
              (v.app ∙ ap (λ (x : Timer). if is_due now x then act t w.app else w.app) same);
      same_tick = s.same_tick ∙ v.same_tick;
      passed = λ a h. elim (Bool-cases (a == t)) [
        | inl it ↦
            let at : a ≡ t = ground arith in
            s.other a (same-count a t ts at off)
            ∙ subst (λ n. w1.timers n ≡ ticked now (timers n)) (sym at)
                (v.visited ∙ ap (ticked now) same)
        | inr others ↦ s.passed a (ground arith)
      ];
      other = λ a h. s.other a (ground arith) ∙ v.other a (ground arith);
    }

    sweep-Swept :
        (w : Clock M) (timers : ℕ → Timer) (head now pos steps : ℕ) (behind rest : List ℕ)
        → IsList w.links head (behind ++ rest)
        → Waits w timers rest
        → pos ≡ start_of head rest
        → length rest < steps
        → Swept w (sweep cb w head now pos steps) timers head now behind rest
    unfolding sweep
    sweep-Swept w timers head now pos zero behind rest l k e s = absurd (omega arith)
    sweep-Swept w timers head now pos (suc steps) behind [] l k e s =
        subst (λ (o : Clock M). Swept w o timers head now behind [])
          (sym (if-true {b = pos == head} _ _ (ground arith)))
          (record {
            list = l;
            app = refl;
            same_tick = refl;
            passed = λ a h. absurd (omega arith);
            other = λ a h. refl;
          })
    sweep-Swept w timers head now pos (suc steps) behind (t ∷ ts) l k e s =
        subst (λ p. Swept w (sweep cb w head now p (suc steps)) timers head now behind (t ∷ ts))
          (sym e)
          (subst (λ (o : Clock M). Swept w o timers head now behind (t ∷ ts))
            (sym (
              if-false {b = t == head} _ _
                (let o = l.once t in let c = count-append t behind (t ∷ ts) in ground arith)))
            (let here : 0 < count t (t ∷ ts) = ground arith in
              let off : count t ts ≡ 0 =
                (let o = l.once t in let c = count-append t behind (t ∷ ts) in ground arith) in
              let same = k.same t here in
              let v =
                visit-Visited w now t (ap (λ (x : Timer). x.active) same ∙ k.active t here)
                  (ap (λ (x : Timer). x.has_cb) same ∙ k.has_cb t here) in
              let w1 : Clock M = visit cb w now t in
              let at =
                chain-start w.links t head ts (split w.links head t head behind ts l.chain).1 in
              let k1 : Waits w1 timers ts = record {
                same = λ a h.
                    v.other a (λ it. let z = same-count a t ts it off in absurd (omega arith))
                    ∙ k.same a (ground arith);
                active = λ a h. k.active a (ground arith);
                has_cb = λ a h. k.has_cb a (ground arith);
              } in
              elim (Bool-cases (is_over now (timers t))) [
                | inl over ↦
                    let links = v.links ∙ if-true _ _ (ap (is_over now) same ∙ over) in
                    then-Swept w w1 _ timers head now t behind behind ts v
                      (sweep-Swept w1 timers head now (w.links.next t) steps behind ts
                        (subst (λ h. IsList h head (behind ++ ts)) (sym links)
                          (del-IsList w.links head t behind ts l))
                        k1 at (omega arith))
                      same off (ap (λ l. behind ++ l) (sym (if-true _ _ over)))
                | inr stays ↦
                    let links = v.links ∙ if-false _ _ (ap (is_over now) same ∙ stays) in
                    then-Swept w w1 _ timers head now t behind (behind ++ (t ∷ [])) ts v
                      (sweep-Swept w1 timers head now (w.links.next t) steps (behind ++ (t ∷ [])) ts
                        (subst (λ h. IsList h head ((behind ++ (t ∷ [])) ++ ts)) (sym links)
                          (subst (IsList w.links head) (sym (append_assoc behind (t ∷ []) ts)) l))
                        k1 at (omega arith))
                      same off
                      (append_assoc behind (t ∷ []) (staying timers now ts)
                        ∙ ap (λ l. behind ++ l) (sym (if-false _ _ stays)))
              ]))

-- One call of `process` on a list of started timers, with callbacks that act on the application alone:
-- the callback of each timer that is due is called, once and in the list's order, and of no other; a
-- one-shot timer that is due is off the list and stopped, a periodic one is reloaded by its interval, all
-- others stay as they are, in their order. The loop ends within one step more than there are timers.
pub process-ticks :
    {M : Type 0} (act : (t : ℕ) → M → M) (cb : (t : ℕ) → Clock M → Clock M) (w : Clock M)
    (head now steps : ℕ) (ts : List ℕ)
    → ((t : ℕ) (w : Clock M) → cb t w ≡ record w { app = act t w.app })
    → IsList w.links head ts
    → ((t : ℕ) → 0 < count t ts → (w.timers t).active ≡ true)
    → ((t : ℕ) → 0 < count t ts → (w.timers t).has_cb ≡ true)
    → length ts < steps
    → let o = process cb w head now steps in
      IsList o.links head (staying w.timers now ts)
      × (o.app ≡ acted act w.timers now ts w.app)
      × (o.last_tick ≡ now)
      × ((t : ℕ) → 0 < count t ts → o.timers t ≡ ticked now (w.timers t))
      × ((t : ℕ) → count t ts ≡ 0 → o.timers t ≡ w.timers t)
unfolding process
process-ticks {M = M} act cb w head now steps ts quiet l active has_cb enough =
    let w0 : Clock M = record w { last_tick = now } in
    let s =
      sweep-Swept act cb quiet w0 w.timers head now (w.links.next head) steps [] ts l
        (record { same = λ t h. refl; active = active; has_cb = has_cb })
        (chain-start act cb quiet w.links head head ts l.chain) enough in
    (s.list, s.app, s.same_tick, s.passed, s.other)
