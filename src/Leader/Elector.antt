-- ===== src/Leader/Elector.antt =====
-- `Elector` of delfin/leader_election/tooz/leader_elector.py, in the loop of `LeaderElectionService` of
-- delfin/service.py. What the coordination back end answers and whether a callback raises are arguments.
use delfin.Prelude.{Bool, true, false, not, ◌&&◌, ◌||◌, List, [], ◌∷◌, if◌then◌else◌}
use delfin.Errors.{ok, err, other_exception}
use delfin.Effect.{Effect, ◌>>◌, pure, lift, modify}

-- The calls of `on_started_leading` and `on_stopped_leading`; one that failed has raised.
pub data Call : Type 0 where
  started start_failed stopped stop_failed : Call

-- What `run_watchers` does: no election; the node is elected, and `on_started_leading` returns or
-- raises; or it raises itself.
pub data Watch : Type 0 where
  not_elected elected elected_raising watch_raising : Watch

-- One round of the loop of `run`: whether the heart beat succeeds, whether the node still holds the
-- leader's lock, whether `on_stopped_leading` returns, and the watch.
pub record Beat : Type 0 where
  pub heartbeat : Bool
  pub still_leader : Bool
  pub stop_returns : Bool
  pub watch : Watch

-- `_coordinator` is set, `leader`, and the calls so far, the newest first.
pub record Elector : Type 0 where
  pub coordinator : Bool
  pub leader : Bool
  pub calls : List Call

-- One round of the service: whether the coordinator starts and joins the group, the beats until
-- `_stop` is set, and for the cleanup whether `on_stopped_leading` and `stop` of the coordinator
-- return.
pub record Round : Type 0 where
  pub joins : Bool
  pub beats : List Beat
  pub stop_returns : Bool
  pub disconnects : Bool

abbrev pub note : Call → Effect Elector (Unit {0})
note c = modify λ e. record e { calls = c ∷ e.calls }

abbrev pub raise : Effect Elector (Unit {0})
raise = lift (err other_exception)

abbrev pub set_leader : Bool → Effect Elector (Unit {0})
set_leader b = modify λ e. record e { leader = b }

abbrev pub on_stopped_leading : Bool → Effect Elector (Unit {0})
on_stopped_leading returns = if returns then note stopped else note stop_failed >> raise

-- `on_started_leading` is registered before `set_leader_callback`, so it is called first.
abbrev pub start_leader_watch : Watch → Effect Elector (Unit {0})
start_leader_watch not_elected = pure tt
start_leader_watch elected = note started >> set_leader true
start_leader_watch elected_raising = note start_failed >> raise
start_leader_watch watch_raising = raise

-- The loop; no beats are left when `_stop` is set.
unfoldable pub run_beats : List Beat → Effect Elector (Unit {0})
run_beats [] e = (ok tt, e)
run_beats (b ∷ bs) e =
    let rest = run_beats bs in
    if not b.heartbeat
    then raise e
    else if e.leader && not b.still_leader
    then (on_stopped_leading b.stop_returns >> set_leader false) e
    else (start_leader_watch b.watch >> rest) e

unfoldable pub run : Round → Effect Elector (Unit {0})
unfolding run_beats
run r e =
    if e.coordinator
    then (ok tt, e)
    else let e : Elector = record e { coordinator = true } in
      if r.joins then run_beats r.beats e else raise e

abbrev pub disconnect : Bool → Effect Elector (Unit {0})
disconnect returns e =
    if e.coordinator
    then (if returns then (ok tt, record e { coordinator = false }) else raise e)
    else (ok tt, e)

unfoldable pub cleanup : Round → Effect Elector (Unit {0})
cleanup r e =
    if e.leader
    then (on_stopped_leading r.stop_returns >> set_leader false >> disconnect r.disconnects) e
    else disconnect r.disconnects e

-- `run_leader_service`: exceptions of both calls are logged.
unfoldable pub run_leader_service : List Round → Elector → Elector
unfolding run cleanup
run_leader_service [] e = e
run_leader_service (r ∷ rs) e = run_leader_service rs (cleanup r (run r e).1).1

-- The last call that returned was a start.
abbrev pub leads : List Call → Bool
leads [] = false
leads (started ∷ cs) = true
leads (start_failed ∷ cs) = leads cs
leads (stopped ∷ cs) = false
leads (stop_failed ∷ cs) = leads cs

-- A start is called when no start is in force, a stop only when one is.
abbrev pub alternating : List Call → Bool
alternating [] = true
alternating (started ∷ cs) = not (leads cs) && alternating cs
alternating (start_failed ∷ cs) = not (leads cs) && alternating cs
alternating (stopped ∷ cs) = leads cs && alternating cs
alternating (stop_failed ∷ cs) = leads cs && alternating cs

abbrev pub is_election : Watch → Bool
is_election not_elected = false
is_election elected = true
is_election elected_raising = true
is_election watch_raising = false

-- The back end elects no node that holds the lock already.
abbrev pub fair : Bool → List Beat → Bool
fair leader [] = true
fair leader (b ∷ bs) =
    not (leader && is_election b.watch) && fair (leader || is_election b.watch) bs

abbrev pub all_fair : List Round → Bool
all_fair [] = true
all_fair (r ∷ rs) = fair false r.beats && all_fair rs
