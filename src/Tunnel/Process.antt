-- ===== src/Tunnel/Process.antt =====
-- internal/tunnel/manager.go: the fields of the manager, the processes, and the goroutines that watch
-- them, one event at a time. Between two events of one goroutine come those of the others. A context
-- and a process are numbers in the order of their creation; each context has one watcher.
use homelab_homepage.Prelude.{
  ℕ, ◌+◌, Bool, true, false, ◌&&◌, ◌||◌, not, Option, none, some, ◌==◌, nat_eq, if◌then◌else◌, List,
  [], ◌∷◌,
}

-- Where the watcher of a context stands in `watchAndRestart`.
pub data Stage : Type 0 where
  no_watcher : Stage
  reading : Stage
  waiting : ℕ → Stage
  exited : Stage
  checking : Stage
  sleeping : Stage
  relaunching : Stage
  ended : Stage

-- Where a goroutine stands in `Stop`: it has taken the cancel function and the command, or has called
-- the first and has the second left.
pub data Stopping : Type 0 where
  outside : Stopping
  taken : Option ℕ → Option ℕ → Stopping
  killing : Option ℕ → Stopping

-- `cmd`, `running` and `cancel` are the fields of the manager; `cancel` is the context that it
-- cancels. `root_done` is that the application is shutting down, which ends all contexts.
pub record System : Type 0 where
  pub cmd : Option ℕ
  pub running : Bool
  pub cancel : Option ℕ
  pub root_done : Bool
  pub cancelled : ℕ → Bool
  pub next_ctx : ℕ
  pub next_proc : ℕ
  pub ctx_of : ℕ → ℕ
  pub alive : ℕ → Bool
  pub stage : ℕ → Stage
  pub stops : ℕ → Stopping

abbrev pub new : System
new = record {
  cmd = none;
  running = false;
  cancel = none;
  root_done = false;
  cancelled = λ _. false;
  next_ctx = 0;
  next_proc = 0;
  ctx_of = λ _. 0;
  alive = λ _. false;
  stage = λ _. no_watcher;
  stops = λ _. outside;
}

abbrev pub put {ℓ} : {A : Type ℓ} → ℕ → A → (ℕ → A) → ℕ → A
put i a f j = if i == j then a else f j

-- ctx.Err() != nil
abbrev pub is_done : ℕ → System → Bool
is_done c s = s.root_done || s.cancelled c

-- `launchCmd` under the context `c`. `starts` is whether the pipes can be made and the system can
-- start the command; `Start` also fails when the context is done.
unfoldable pub launch_cmd : Bool → ℕ → System → Bool × System
launch_cmd starts c s =
    if starts && not (is_done c s)
    then (
      true,
      record s {
        cmd = some s.next_proc;
        running = true;
        next_proc = s.next_proc + 1;
        ctx_of = put s.next_proc c s.ctx_of;
        alive = put s.next_proc true s.alive;
      },
    )
    else (false, s)

abbrev pub watched : ℕ → Bool × System → Bool × System
watched c (true, s) = (true, record s { stage = put c reading s.stage })
watched c (false, s) = (false, record s { cancelled = put c true s.cancelled })

-- `startProcess`, with whether there was no error.
unfoldable pub start_process : Bool → System → Bool × System
start_process starts s =
    if s.running
    then (true, s)
    else watched s.next_ctx (
        launch_cmd starts s.next_ctx
          (record s { cancel = some s.next_ctx; next_ctx = s.next_ctx + 1 }))

abbrev pub relaunched : ℕ → Bool × System → System
relaunched c (true, s) = record s { stage = put c reading s.stage }
relaunched c (false, s) = record s { stage = put c ended s.stage }

abbrev pub read_cmd : ℕ → Option ℕ → System → System
read_cmd c none s = record s { stage = put c ended s.stage }
read_cmd c (some p) s = record s { stage = put c (waiting p) s.stage }

-- One step of the watcher of `c`. `Wait` returns when its process is no longer alive. In the pause
-- of ten seconds the timer and the context race: `timer` is whether the timer wins, which it can also
-- do when the context is done, and which it does when the context is not.
abbrev pub watch_stage : Bool → Bool → ℕ → Stage → System → System
watch_stage timer starts c no_watcher s = s
watch_stage timer starts c reading s = read_cmd c s.cmd s
watch_stage timer starts c (waiting p) s =
    if s.alive p then s else record s { stage = put c exited s.stage }
watch_stage timer starts c exited s = record s { running = false; stage = put c checking s.stage }
watch_stage timer starts c checking s =
    if is_done c s
    then record s { stage = put c ended s.stage }
    else record s { stage = put c sleeping s.stage }
watch_stage timer starts c sleeping s =
    if is_done c s && not timer
    then record s { stage = put c ended s.stage }
    else record s { stage = put c relaunching s.stage }
watch_stage timer starts c relaunching s = relaunched c (launch_cmd starts c s)
watch_stage timer starts c ended s = s

unfoldable pub watch : Bool → Bool → ℕ → System → System
watch timer starts c s = watch_stage timer starts c (s.stage c) s

abbrev pub cancel_ctx : Option ℕ → System → System
cancel_ctx none s = s
cancel_ctx (some c) s = record s { cancelled = put c true s.cancelled }

abbrev pub kill : Option ℕ → System → System
kill none s = s
kill (some p) s = record s { alive = put p false s.alive }

-- One step of the goroutine `i` in `Stop`.
abbrev pub stop_stage : ℕ → Stopping → System → System
stop_stage i outside s = record s {
  cmd = none;
  running = false;
  cancel = none;
  stops = put i (taken s.cancel s.cmd) s.stops;
}
stop_stage i (taken c p) s = cancel_ctx c (record s { stops = put i (killing p) s.stops })
stop_stage i (killing p) s = kill p (record s { stops = put i outside s.stops })

unfoldable pub stop_step : ℕ → System → System
stop_step i s = stop_stage i (s.stops i) s

-- `Stop`, when nothing comes between.
unfoldable pub stop : ℕ → System → System
stop i s = stop_step i (stop_step i (stop_step i s))

-- What happens, in the order in which it happens: a start, a step of a watcher, a step of a `Stop`, the
-- end of a process for whatever reason, the end of the application's context.
pub data Event : Type 0 where
  starting : Bool → Event
  watching : Bool → Bool → ℕ → Event
  stopping : ℕ → Event
  exiting : ℕ → Event
  shutting_down : Event

unfoldable pub step : Event → System → System
step (starting starts) s = (start_process starts s).1
step (watching timer starts c) s = watch timer starts c s
step (stopping i) s = stop_step i s
step (exiting p) s = record s { alive = put p false s.alive }
step shutting_down s = record s { root_done = true }

unfoldable pub run : List Event → System → System
run [] s = s
run (e ∷ es) s = run es (step e s)
