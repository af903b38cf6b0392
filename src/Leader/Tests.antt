-- ===== src/Leader/Tests.antt =====
-- Runs of delfin/leader_election/tooz/leader_elector.py.
use delfin.Prelude.{◌≡◌, refl, Bool, true, false, ◌&&◌, [], ◌∷◌}
use delfin.Leader.Elector.{
  started, start_failed, stopped, Watch, not_elected, elected, elected_raising, Beat, Round, run,
  cleanup, run_leader_service, leads, alternating,
}
use delfin.Leader.Alternates.{new_elector, run_leader_service-alternates}

abbrev beat : Bool → Watch → Beat
beat still w = record { heartbeat = true; still_leader = still; stop_returns = true; watch = w }

-- The node is elected and loses the lock.
abbrev lost_round : Round
lost_round = record {
  joins = true;
  beats =
      beat false not_elected
      ∷ beat false elected
      ∷ beat true not_elected
      ∷ beat false not_elected
      ∷ [];
  stop_returns = true;
  disconnects = true;
}

-- The node is elected, and the cleanup stops the leading.
abbrev ended_round : Round
ended_round = record {
  joins = true;
  beats = beat false elected ∷ [];
  stop_returns = true;
  disconnects = true;
}

run_leader_service-alternates_example :
    let before = run_leader_service (lost_round ∷ []) new_elector in
    let after = (cleanup ended_round (run ended_round before).1).1 in
    (alternating after.calls ≡ true)
    × (after.leader ≡ leads after.calls)
    × ((ended_round.stop_returns && ended_round.disconnects) ≡ true
        → (leads after.calls ≡ false) × (after.leader ≡ false) × (after.coordinator ≡ false))
run_leader_service-alternates_example =
    run_leader_service-alternates (lost_round ∷ []) ended_round refl refl

rounds-run :
    (run_leader_service (lost_round ∷ ended_round ∷ []) new_elector).calls
    ≡ stopped ∷ started ∷ stopped ∷ started ∷ []
unfolding run_leader_service
rounds-run = refl

-- A start that raises is not followed by a stop.
abbrev failed_round : Round
failed_round = record {
  joins = true;
  beats = beat false elected_raising ∷ [];
  stop_returns = true;
  disconnects = true;
}

start_failed-run : (run_leader_service (failed_round ∷ []) new_elector).calls ≡ start_failed ∷ []
unfolding run_leader_service
start_failed-run = refl
