-- ===== src/App/Aborted.antt =====
-- What becomes of a connection that P-Net aborts.
use pnet2csv.Common.{ℕ, ◌≡◌, ◌≢◌, refl, List, [], true, false, none, arith}
use pnet2csv.Host.{Host}
use pnet2csv.Pnet.{ArEvent}
use pnet2csv.Ar.{EventSet, find_ar, removes, ready_for_data, alarm, sm_released, abort}
use pnet2csv.Ar.Waits.{Waits, known-Waits, with_event_sets}
use pnet2csv.Ar.Distinct.{handle_event_ar-aborted}
use pnet2csv.App.{
  App, Indication, raise, default_outputs, state_ind_lines, indicate, indicate_all, state_ind,
}
use pnet2csv.App.Loop.{
  RoundAnswers, Round, handle_event, when_flag, when_timer, allow_alarm, loop_round,
}
use pnet2csv.App.Invariant.{IsSoundApp, indicate-IsSoundApp, indicate_all-IsSoundApp}
use pnet2csv.App.Polling.{IsFed}
use pnet2csv.App.Rounds.{start-IsOutcome, when_flag-IsOutcome, when_timer-IsOutcome}
use pnet2csv.App.Answers.{indicate_all-Waits, indicate_all-flag}
use pnet2csv.App.Answered.{when_flag-Waits, when_timer-Waits}

-- The handler of aborts, and the line after it.
when_flag-aborted :
    (arep : ℕ) (flags : EventSet) (r : Round)
    → flags abort ≡ true
    → IsSoundApp r.app
    → Waits abort arep r.app.ars
    → let r' = allow_alarm flags (when_flag flags abort r) in
      (find_ar r'.app.ars arep ≡ none) × (r'.app.alarm_allowed ≡ true)
unfolding when_flag handle_event allow_alarm
when_flag-aborted arep flags r up v w =
    rw up (handle_event_ar-aborted arep r.app.ars v.gapless v.distinct w, refl)

-- An abort that waits is handled in the next round.
loop_round-aborted :
    (h : Host) (a : RoundAnswers) (app : App) (arep : ℕ)
    → IsFed a
    → IsSoundApp app
    → Waits abort arep app.ars
    → app.main_events abort ≡ true
    → let r = loop_round h a app in (find_ar r.app.ars arep ≡ none) × (r.app.alarm_allowed ≡ true)
unfolding loop_round removes
loop_round-aborted h a app arep fed v w up =
    let flags = app.main_events in
    let start : Round = record { app = app; calls = []; samples = []; reads = [] } in
    let r1 = when_flag flags ready_for_data start in
    let (w1, _) =
      when_flag-Waits abort ready_for_data arep flags start (omega arith) (λ x. refl) w in
    let o1 = when_flag-IsOutcome app flags ready_for_data start (start-IsOutcome app v) in
    let r2 = when_flag flags alarm r1 in
    let (w2, _) = when_flag-Waits abort alarm arep flags r1 (omega arith) (λ x. refl) w1 in
    let o2 = when_flag-IsOutcome app flags alarm r1 o1 in
    let r3 = when_timer flags h a r2 in
    let w3 = when_timer-Waits abort arep flags h a r2 w2 in
    let o3 = when_timer-IsOutcome app flags h a r2 fed o2 in
    let (w4, _) = when_flag-Waits abort sm_released arep flags r3 (omega arith) (λ x. refl) w3 in
    let o4 = when_flag-IsOutcome app flags sm_released r3 o3 in
    when_flag-aborted arep flags (when_flag flags sm_released r3) up o4.sound w4

-- After `app_state_ind` with ABORT for a connection in the table, and any callbacks after it, the next
-- round of the main loop leaves the connection out of the table, even when P-Net indicates it again
-- during the round, and alarms are allowed again.
pub aborted-find_ar :
    (h : Host) (a : RoundAnswers) (app : App) (arep : ℕ) (is : List Indication)
    → IsFed a
    → IsSoundApp app
    → find_ar app.ars arep ≢ none
    → let indicated = indicate_all (indicate app (state_ind arep ArEvent.abort)).0 is in
      let r = loop_round h a indicated.0 in
      (find_ar r.app.ars arep ≡ none) × (r.app.alarm_allowed ≡ true)
unfolding indicate state_ind_lines raise default_outputs
aborted-find_ar h a app arep is fed v known =
    let app1 = raise (default_outputs app) arep abort false in
    let sound =
      indicate_all-IsSoundApp app1 is (indicate-IsSoundApp app (state_ind arep ArEvent.abort) v) in
    loop_round-aborted h a (indicate_all app1 is).0 arep fed sound
      (indicate_all-Waits abort arep app1 is (known-Waits abort arep false app.ars known))
      (indicate_all-flag abort app1 is (with_event_sets app.main_events abort))
