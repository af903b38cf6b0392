-- ===== src/Leader/Alternates.antt =====
-- The callbacks of delfin/leader_election/tooz/leader_elector.py, through the rounds of its service.
use delfin.Prelude.{
  ◌≡◌, refl, sym, ap, ◌∙◌, Bool, true, false, not, ◌&&◌, ◌||◌, List, [], ◌∷◌, if◌then◌else◌, arith,
  Bool-cases, inl, inr,
}
use delfin.Effect.{Effect, ◌>>◌}
use delfin.Leader.Elector.{
  Watch, Beat, Elector, Round, set_leader, on_stopped_leading, start_leader_watch, run_beats, run,
  disconnect, cleanup, run_leader_service, leads, alternating, is_election, fair, all_fair, started,
  not_elected, elected, elected_raising, watch_raising,
}

-- `leader` says whether a start is in force, and a leader has a coordinator.
pub record IsElector (e : Elector) : Type 0 where
  pub leader_is : e.leader ≡ leads e.calls
  pub alternates : alternating e.calls ≡ true
  pub connected : (e.leader && not e.coordinator) ≡ false

stop-IsElector :
    (returns : Bool) (e : Elector)
    → e.leader ≡ true
    → IsElector e
    → IsElector ((on_stopped_leading returns >> set_leader false) e).1
stop-IsElector true e l good = record {
  leader_is = refl;
  alternates = let is = good.leader_is in let a = good.alternates in ground arith;
  connected = refl;
}
stop-IsElector false e l good = record {
  leader_is = good.leader_is;
  alternates = let is = good.leader_is in let a = good.alternates in ground arith;
  connected = good.connected;
}

watch-IsElector :
    (w : Watch) (rest : Effect Elector (Unit {0})) (e : Elector)
    → (e.leader && is_election w) ≡ false
    → e.coordinator ≡ true
    → IsElector e
    → ((x : Elector)
        → x.coordinator ≡ true
        → x.leader ≡ (e.leader || is_election w)
        → IsElector x
        → IsElector (rest x).1)
    → IsElector ((start_leader_watch w >> rest) e).1
watch-IsElector not_elected rest e f c good next = next e c (ground arith) good
watch-IsElector elected rest e f c good next =
    next (record e { leader = true; calls = started ∷ e.calls }) c (ground arith)
      (record {
        leader_is = refl;
        alternates = let is = good.leader_is in let a = good.alternates in ground arith;
        connected = rw c refl;
      })
watch-IsElector elected_raising rest e f c good next = record {
  leader_is = good.leader_is;
  alternates = let is = good.leader_is in let a = good.alternates in ground arith;
  connected = good.connected;
}
watch-IsElector watch_raising rest e f c good next = good

run_beats-IsElector :
    (bs : List Beat) (e : Elector)
    → fair e.leader bs ≡ true
    → e.coordinator ≡ true
    → IsElector e
    → IsElector (run_beats bs e).1
unfolding run_beats
run_beats-IsElector [] e f c good = good
run_beats-IsElector (b ∷ bs) e f c good = elim (Bool-cases b.heartbeat) [
  | inr n ↦ rw n good
  | inl y ↦ elim (Bool-cases (e.leader && not b.still_leader)) [
    | inl s ↦ rw (y, s) (stop-IsElector b.stop_returns e (ground arith) good)
    | inr s ↦
        rw (y, s)
          (watch-IsElector b.watch (run_beats bs) e (ground arith) c good (λ x connected l known.
            run_beats-IsElector bs x (ap (λ k. fair k bs) l ∙ ground arith) connected known))
  ]
]

run-IsElector :
    (r : Round) (e : Elector) → fair false r.beats ≡ true → IsElector e → IsElector (run r e).1
unfolding run
run-IsElector r e f good = elim (Bool-cases e.coordinator) [
  | inl y ↦ simp y good
  | inr n ↦
      let follower : e.leader ≡ false = let k = good.connected in ground arith in
      let joined : IsElector (record e { coordinator = true }) = record {
        leader_is = good.leader_is;
        alternates = good.alternates;
        connected = rw follower refl;
      } in
      elim (Bool-cases r.joins) [
        | inl j ↦
            rw (n, j)
              (run_beats-IsElector r.beats (record e { coordinator = true })
                (ap (λ k. fair k r.beats) follower ∙ f) refl joined)
        | inr j ↦ rw (n, j) joined
      ]
]

disconnect-IsElector :
    (returns : Bool) (e : Elector)
    → e.leader ≡ false
    → IsElector e
    → IsElector (disconnect returns e).1
disconnect-IsElector returns e l good = elim (Bool-cases e.coordinator) [
  | inr n ↦ simp n good
  | inl y ↦ elim (Bool-cases returns) [
    | inl d ↦
        rw (y, d)
          (record {
            leader_is = good.leader_is;
            alternates = good.alternates;
            connected = rw l refl;
          })
    | inr d ↦ simp (y, d) good
  ]
]

cleanup-IsElector : (r : Round) (e : Elector) → IsElector e → IsElector (cleanup r e).1
unfolding cleanup
cleanup-IsElector r e good = at e.leader refl
  where
    at :
        (b : Bool)
        → e.leader ≡ b
        → IsElector
            (if b
              then (on_stopped_leading r.stop_returns
                    >> set_leader false
                    >> disconnect r.disconnects)
                  e
              else disconnect r.disconnects e).1
    at false n = disconnect-IsElector r.disconnects e n good
    at true y = elim (Bool-cases r.stop_returns) [
      | inl s ↦
          let done : IsElector ((on_stopped_leading true >> set_leader false) e).1 =
            stop-IsElector true e y good in
          rw s (
            disconnect-IsElector r.disconnects ((on_stopped_leading true >> set_leader false) e).1
              refl done)
      | inr s ↦ rw s (stop-IsElector false e y good)
    ]

abbrev pub new_elector : Elector
new_elector = record { coordinator = false; leader = false; calls = [] }

rounds-IsElector :
    (rs : List Round) (e : Elector)
    → all_fair rs ≡ true
    → IsElector e
    → IsElector (run_leader_service rs e)
unfolding run_leader_service
rounds-IsElector [] e f good = good
rounds-IsElector (r ∷ rs) e f good =
    rounds-IsElector rs (cleanup r (run r e).1).1 (ground arith)
      (cleanup-IsElector r (run r e).1 (run-IsElector r e (ground arith) good))

cleanup-resets :
    (r : Round) (e : Elector)
    → r.stop_returns ≡ true
    → r.disconnects ≡ true
    → ((cleanup r e).1.leader ≡ false) × ((cleanup r e).1.coordinator ≡ false)
unfolding cleanup
cleanup-resets r e s d = elim (Bool-cases e.leader) [
  | inl y ↦ elim (Bool-cases e.coordinator) [
    | inl c ↦ simp (y, s, d, c) (refl, refl)
    | inr n ↦ simp (y, s, d, n) (refl, refl)
  ]
  | inr n ↦ elim (Bool-cases e.coordinator) [
    | inl c ↦ simp (n, d, c) (refl, refl)
    | inr x ↦ simp (n, x) (refl, refl)
  ]
]

-- With a back end that elects no node that holds the lock already: through any rounds of the service
-- `on_started_leading` is only called when no start is in force and `on_stopped_leading` only when
-- one is, and `leader` says which. After a round whose cleanup gets through, no start is in force, and
-- the next round joins the group again.
pub run_leader_service-alternates :
    (rs : List Round) (r : Round)
    → all_fair rs ≡ true
    → fair false r.beats ≡ true
    → let before = run_leader_service rs new_elector in
      let after = (cleanup r (run r before).1).1 in
      (alternating after.calls ≡ true)
      × (after.leader ≡ leads after.calls)
      × ((r.stop_returns && r.disconnects) ≡ true
          → (leads after.calls ≡ false) × (after.leader ≡ false) × (after.coordinator ≡ false))
run_leader_service-alternates rs r f g =
    let before = run_leader_service rs new_elector in
    let start : IsElector new_elector = record {
      leader_is = refl;
      alternates = refl;
      connected = refl;
    } in
    let good =
      cleanup-IsElector r (run r before).1
        (run-IsElector r before g (rounds-IsElector rs new_elector f start)) in
    (
      good.alternates,
      good.leader_is,
      λ h.
          let (l, c) = cleanup-resets r (run r before).1 (ground arith) (ground arith) in
          (sym good.leader_is ∙ l, l, c),
    )
