-- ===== src/Tunnel/Restart.antt =====
-- internal/tunnel/manager.go: what follows when the process ends by itself.
use homelab_homepage.Prelude.{
  ℕ, ◌+◌, ◌≡◌, Bool, true, false, some, List, [], ◌∷◌, arith, nat_eq, ap,
}
use homelab_homepage.Tunnel.Process.{
  System, Event, starting, watching, Stage, no_watcher, reading, waiting, exited, checking,
  sleeping, relaunching, ended, is_done, launch_cmd, start_process, watch, watch_stage, step, run,
}
use homelab_homepage.Tunnel.Stopped.{IsSound}

-- The steps that the watcher of `c` takes from the end of its process on: `Wait` returns, the flag is
-- reset, the context is looked at, the pause ends, the command is launched, its number is read.
abbrev pub restart : Bool → ℕ → List Event
restart starts c =
    watching true starts c
    ∷ watching true starts c
    ∷ watching true starts c
    ∷ watching true starts c
    ∷ watching true starts c
    ∷ watching true starts c
    ∷ []

-- At stage `st` the step of the watcher is the one of that stage.
watch-stage :
    (timer starts : Bool) (c : ℕ) (st : Stage) (s : System)
    → s.stage c ≡ st
    → watch timer starts c s ≡ watch_stage timer starts c st s
unfolding watch
watch-stage timer starts c st s e = ap (λ st. watch_stage timer starts c st s) e

-- If the watcher of a context that is not done waits for a process that has ended, then after six
-- of its steps, with a command that can be started, it waits for a new process, which lives, which
-- is the one of the manager, and which belongs to the same context.
pub restart_lem :
    (c p : ℕ) (s : System)
    → s.stage c ≡ waiting p
    → s.alive p ≡ false
    → is_done c s ≡ false
    → let t = run (restart true c) s in
      (t.stage c ≡ waiting s.next_proc)
      × (t.cmd ≡ some s.next_proc)
      × (t.running ≡ true)
      × (t.alive s.next_proc ≡ true)
      × (t.ctx_of s.next_proc ≡ c)
unfolding run step watch launch_cmd
restart_lem c p s w dead live = ground (arith, w, dead, live)

-- The watcher of `c` runs, and is past its process, or waits for one that has ended.
abbrev pub IsPast : System → Stage → Type 0
IsPast s no_watcher = ⊥
IsPast s reading = ⊥
IsPast s (waiting p) = s.alive p ≡ false
IsPast s exited = Unit {0}
IsPast s checking = Unit {0}
IsPast s sleeping = Unit {0}
IsPast s relaunching = Unit {0}
IsPast s ended = Unit {0}

abbrev pub four_steps : Bool × Bool → Bool × Bool → Bool × Bool → Bool × Bool → ℕ → List Event
four_steps (t1, l1) (t2, l2) (t3, l3) (t4, l4) c =
    watching t1 l1 c ∷ watching t2 l2 c ∷ watching t3 l3 c ∷ watching t4 l4 c ∷ []

-- A watcher whose context is done, and whose process has ended or is no longer waited for, is at
-- its end after four of its steps, and starts no process on the way, whichever way the timer and
-- the start of a command go.
pub watcher-ended :
    (c : ℕ) (s : System) (st : Stage) (a b d e : Bool × Bool)
    → s.stage c ≡ st
    → IsPast s st
    → is_done c s ≡ true
    → let t = run (four_steps a b d e c) s in (t.stage c ≡ ended) × (t.next_proc ≡ s.next_proc)
unfolding run step watch launch_cmd
watcher-ended c s no_watcher a b d e at h done = absurd h
watcher-ended c s reading a b d e at h done = absurd h
watcher-ended c s (waiting p) a b d e at h done = ground (arith, at, h, done)
watcher-ended c s exited a b d e at h done = ground (arith, at, done)
watcher-ended c s checking a b d e at h done = ground (arith, at, done)
watcher-ended c s sleeping a b d e at h done = ground (arith, at, done)
watcher-ended c s relaunching a b d e at h done = ground (arith, at, done)
watcher-ended c s ended a b d e at h done = ground (arith, at, done)

pub stale_watcher :
    (c : ℕ) (timer starts : Bool) (s : System)
    → IsSound s
    → s.stage c ≡ exited
    → s.running ≡ false
    → s.root_done ≡ false
    → let t = run (starting true ∷ watching timer starts c ∷ []) s in
      (t.cmd ≡ some s.next_proc)
      × (t.alive s.next_proc ≡ true)
      × (is_done (t.ctx_of s.next_proc) t ≡ false)
      × (t.running ≡ false)
unfolding run step watch start_process launch_cmd
stale_watcher c timer starts s v at idle live =
    let (fresh, unwatched) = v.fresh_ctx s.next_ctx (omega arith) in
    ground (arith, at, idle, live, fresh, unwatched)

-- If a start comes while the watcher of a context that is not done is in its pause, and the
-- watcher then goes on, two processes live; the manager has the second one, of the old context,
-- and the cancel function of the new context.
pub second_process :
    (c : ℕ) (s : System)
    → IsSound s
    → s.stage c ≡ sleeping
    → is_done c s ≡ false
    → s.running ≡ false
    → let t = run (starting true ∷ watching true true c ∷ watching true true c ∷ []) s in
      (t.alive s.next_proc ≡ true)
      × (t.alive (s.next_proc + 1) ≡ true)
      × (t.cmd ≡ some (s.next_proc + 1))
      × (t.cancel ≡ some s.next_ctx)
      × (t.ctx_of (s.next_proc + 1) ≡ c)
unfolding run step watch start_process launch_cmd
second_process c s v at live idle =
    let (fresh, unwatched) = v.fresh_ctx s.next_ctx (omega arith) in
    ground (arith, at, idle, live, fresh, unwatched)
