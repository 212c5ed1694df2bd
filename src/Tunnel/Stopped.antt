-- ===== src/Tunnel/Stopped.antt =====
-- internal/tunnel/manager.go: what `Stop` and a context that is done mean for later processes.
use homelab_homepage.Prelude.{
  ℕ, ◌≤◌, ◌<◌, ◌≡◌, ◌≢◌, refl, Bool, true, false, Option, none, some, List, [], ◌∷◌, arith, nat_eq,
  sym, ◌∙◌,
}
use homelab_homepage.Tunnel.Process.{
  System, Event, starting, watching, stopping, exiting, shutting_down, Stage, no_watcher, reading,
  waiting, exited, checking, sleeping, relaunching, ended, Stopping, outside, taken, killing, new,
  is_done, launch_cmd, start_process, stop, watch_stage, watch, stop_stage, stop_step, step, run,
}

-- What holds between two events: a running manager has a command; processes and contexts that are not
-- made yet are not in use.
pub record IsSound (s : System) : Type 0 where
  pub has_cmd : s.running ≡ true → s.cmd ≢ none
  pub fresh_ctx : (c : ℕ) → s.next_ctx ≤ c → (s.cancelled c ≡ false) × (s.stage c ≡ no_watcher)
  pub fresh_proc : (p : ℕ) → s.next_proc ≤ p → s.alive p ≡ false
  pub ctx_made : (p : ℕ) → s.alive p ≡ true → s.ctx_of p < s.next_ctx
  pub cancel_made : (c : ℕ) → s.cancel ≡ some c → c < s.next_ctx
  pub taken_made : (i c : ℕ) (p : Option ℕ) → s.stops i ≡ taken (some c) p → c < s.next_ctx

launch_cmd-IsSound :
    (starts : Bool) (c : ℕ) (s : System)
    → c < s.next_ctx
    → IsSound s
    → IsSound (launch_cmd starts c s).1
unfolding launch_cmd
launch_cmd-IsSound starts c s h v = ground (arith, v)

pub start_process-IsSound :
    (starts : Bool) (s : System) → IsSound s → IsSound (start_process starts s).1
unfolding start_process launch_cmd
start_process-IsSound starts s v = ground (arith, v)

watch_stage-IsSound :
    (timer starts : Bool) (c : ℕ) (st : Stage) (s : System)
    → s.stage c ≡ st
    → IsSound s
    → IsSound (watch_stage timer starts c st s)
unfolding launch_cmd
watch_stage-IsSound timer starts c no_watcher s e v = v
watch_stage-IsSound timer starts c reading s e v = ground (arith, v, e)
watch_stage-IsSound timer starts c (waiting p) s e v = ground (arith, v, e)
watch_stage-IsSound timer starts c exited s e v = ground (arith, v, e)
watch_stage-IsSound timer starts c checking s e v = ground (arith, v, e)
watch_stage-IsSound timer starts c sleeping s e v = ground (arith, v, e)
watch_stage-IsSound timer starts c relaunching s e v =
    let made : c < s.next_ctx = ground (arith, v.fresh_ctx c, e) in ground (arith, v, e, made)
watch_stage-IsSound timer starts c ended s e v = v

stop_stage-IsSound :
    (i : ℕ) (st : Stopping) (s : System) → s.stops i ≡ st → IsSound s → IsSound (stop_stage i st s)
stop_stage-IsSound i outside s e v = ground (arith, v, e, v.cancel_made)
stop_stage-IsSound i (taken none p) s e v = ground (arith, v, e)
stop_stage-IsSound i (taken (some c) p) s e v =
    let made = v.taken_made i c p e in ground (arith, v, e, made)
stop_stage-IsSound i (killing none) s e v = ground (arith, v, e)
stop_stage-IsSound i (killing (some p)) s e v = ground (arith, v, e)

step-IsSound : (e : Event) (s : System) → IsSound s → IsSound (step e s)
unfolding step watch stop_step
step-IsSound (starting starts) s v = start_process-IsSound starts s v
step-IsSound (watching timer starts c) s v = watch_stage-IsSound timer starts c (s.stage c) s refl v
step-IsSound (stopping i) s v = stop_stage-IsSound i (s.stops i) s refl v
step-IsSound (exiting p) s v = ground (arith, v)
step-IsSound shutting_down s v = ground (arith, v)

run-IsSound : (es : List Event) (s : System) → IsSound s → IsSound (run es s)
unfolding run
run-IsSound [] s v = v
run-IsSound (e ∷ es) s v = run-IsSound es (step e s) (step-IsSound e s v)

new-IsSound : IsSound new
new-IsSound = ground arith

pub run-new-IsSound : (es : List Event) → IsSound (run es new)
run-new-IsSound es = run-IsSound es new new-IsSound

-- Compared with `s`: the context `c` is still done, and has no process that it had not before.
abbrev IsOver : ℕ → System → System → Type 0
IsOver c s t =
    (is_done c t ≡ true)
    × (c < t.next_ctx)
    × ((p : ℕ) → t.alive p ≡ true → t.ctx_of p ≡ c → (s.alive p ≡ true) × (s.ctx_of p ≡ c))

module _ (c : ℕ) where
  start_process-IsOver :
      (starts : Bool) (s : System)
      → IsSound s
      → is_done c s ≡ true
      → c < s.next_ctx
      → IsOver c s (start_process starts s).1
  unfolding start_process launch_cmd
  start_process-IsOver starts s v d h = ground (arith, d, h)

  watch_stage-IsOver :
      (timer starts : Bool) (w : ℕ) (st : Stage) (s : System)
      → is_done c s ≡ true
      → c < s.next_ctx
      → IsOver c s (watch_stage timer starts w st s)
  unfolding launch_cmd
  watch_stage-IsOver timer starts w st s d h = ground (arith, d, h)

  stop_stage-IsOver :
      (i : ℕ) (st : Stopping) (s : System)
      → is_done c s ≡ true
      → c < s.next_ctx
      → IsOver c s (stop_stage i st s)
  stop_stage-IsOver i st s d h = ground (arith, d, h)

  step-IsOver :
      (e : Event) (s : System)
      → IsSound s
      → is_done c s ≡ true
      → c < s.next_ctx
      → IsOver c s (step e s)
  unfolding step watch stop_step
  step-IsOver (starting starts) s v d h = start_process-IsOver starts s v d h
  step-IsOver (watching timer starts w) s v d h =
      watch_stage-IsOver timer starts w (s.stage w) s d h
  step-IsOver (stopping i) s v d h = stop_stage-IsOver i (s.stops i) s d h
  step-IsOver (exiting p) s v d h = ground (arith, d, h)
  step-IsOver shutting_down s v d h = ground (arith, d, h)

  pub run-IsOver :
      (es : List Event) (s : System)
      → IsSound s
      → is_done c s ≡ true
      → c < s.next_ctx
      → IsOver c s (run es s)
  unfolding run
  run-IsOver [] s v d h = (d, h, λ p a o. (a, o))
  run-IsOver (e ∷ es) s v d h =
      let (d1, h1, old1) = step-IsOver e s v d h in
      let (d2, h2, old2) = run-IsOver es (step e s) (step-IsSound e s v) d1 h1 in
      (d2, h2, λ p a o. let (a1, o1) = old2 p a o in old1 p a1 o1)

stop-IsSound : (i : ℕ) (s : System) → IsSound s → IsSound (stop i s)
unfolding stop step run
stop-IsSound i s v = run-IsSound (stopping i ∷ stopping i ∷ stopping i ∷ []) s v

-- `Stop` that nothing comes between, with a context and a command to stop.
stop_lem :
    (i c p : ℕ) (s : System)
    → s.stops i ≡ outside
    → s.cancel ≡ some c
    → s.cmd ≡ some p
    → (is_done c (stop i s) ≡ true)
      × ((stop i s).next_ctx ≡ s.next_ctx)
      × ((q : ℕ) → (stop i s).alive q ≡ true → (s.alive q ≡ true) × (q ≢ p))
      × ((q : ℕ) → (stop i s).ctx_of q ≡ s.ctx_of q)
unfolding stop stop_step
stop_lem i c p s out can cmd = ground (arith, out, can, cmd)

-- If the manager is sound and has a context and the only process of that context that lives, then
-- after a stop that nothing interrupts, and after whatever events follow, starts included, no
-- process of that context lives.
pub stop_final :
    (i c p : ℕ) (s : System) (es : List Event)
    → IsSound s
    → s.stops i ≡ outside
    → s.cancel ≡ some c
    → s.cmd ≡ some p
    → ((q : ℕ) → s.alive q ≡ true → s.ctx_of q ≡ c → q ≡ p)
    → (q : ℕ) → (run es (stop i s)).alive q ≡ true
    → (run es (stop i s)).ctx_of q ≢ c
stop_final i c p s es v out can cmd only q a o =
    let (done, same, alive, ctx) = stop_lem i c p s out can cmd in
    let (d, h, old) =
      run-IsOver c es (stop i s) (stop-IsSound i s v) done
        (omega (arith, same, v.cancel_made c can)) in
    let (a1, o1) = old q a o in
    let (a2, differs) = alive q a1 in differs (only q a2 (sym (ctx q) ∙ o1))
