-- ===== src/App/Answered.antt =====
-- Which calls a round of the main loop makes for the events of the connections.
use pnet2csv.Common.{
  ℕ, ◌≡◌, ◌≢◌, refl, subst, ◌⊎◌, inl, inr, List, [], true, false, none, arith, Bool-cases, Has, ltb,
  ◌%◌, ◌+◌, ◌^◌,
}
use pnet2csv.Host.{Host}
use pnet2csv.Pnet.{ArEvent}
use pnet2csv.Ar.{
  AppEvent, EventSet, bit, no_arep, find_ar, free_ar, without_event, handle_event_ar, removes,
  ready_for_data, timer, alarm, sm_released, abort,
}
use pnet2csv.Cyclic.{ticks_update_data}
use pnet2csv.Ar.Waits.{
  Waits, set-Waits, with_event_sets, handle_event_ar-Has, handle_event_ar-Waits,
}
use pnet2csv.App.{
  App, application_ready, alarm_ack, Indication, raise, state_ind_lines, indicate, indicate_all,
  state_ind,
}
use pnet2csv.App.Answers.{
  Answer, Answer-append_left, Answer-append_right, all_handler_calls-Answer, indicate_all-Waits,
  indicate_all-flag,
}
use pnet2csv.App.Loop.{
  is_connected, RoundAnswers, Round, app_handle_cyclic_data, handle_event_timer, handle_event,
  when_flag, when_timer, allow_alarm, loop_round,
}

-- The calls so far stay.
when_flag-calls :
    (event : AppEvent) (app : App) (arep : ℕ) (flags : EventSet) (e : AppEvent) (r : Round)
    → Answer event app arep r.calls
    → Answer event app arep (when_flag flags e r).calls
unfolding when_flag
when_flag-calls event app arep flags e r w = elim (Bool-cases (flags e)) [
  | inr down ↦ rw down w
  | inl up ↦ rw up (Answer-append_left event app arep r.calls _ w)
]

when_timer-calls :
    (event : AppEvent) (app : App) (arep : ℕ) (flags : EventSet) (h : Host) (a : RoundAnswers)
    (r : Round)
    → Answer event app arep r.calls
    → Answer event app arep (when_timer flags h a r).calls
unfolding when_timer
when_timer-calls event app arep flags h a r w = elim (Bool-cases (flags timer)) [
  | inr down ↦ rw down w
  | inl up ↦ rw up (Answer-append_left event app arep r.calls _ w)
]

allow_alarm-calls : (flags : EventSet) (r : Round) → (allow_alarm flags r).calls ≡ r.calls
unfolding allow_alarm
allow_alarm-calls flags r = elim (Bool-cases (flags abort)) [
  | inl up ↦ rw up refl
  | inr down ↦ rw down refl
]

-- The event's own handler.
when_flag-Answer :
    (event : AppEvent) (arep : ℕ) (flags : EventSet) (r : Round)
    → flags event ≡ true
    → Waits event arep r.app.ars
    → Answer event r.app arep (when_flag flags event r).calls
unfolding when_flag handle_event
when_flag-Answer event arep flags r up w = rw up (
    Answer-append_right event r.app arep r.calls _ (
      all_handler_calls-Answer event r.app arep
        (handle_event_ar event (removes event) r.app.ars).handled
        (handle_event_ar-Has event (removes event) arep r.app.ars w)))

-- The handler of another event that removes nothing.
pub when_flag-Waits :
    (event e : AppEvent) (arep : ℕ) (flags : EventSet) (r : Round)
    → bit event ≢ bit e
    → ((x : ℕ) → removes e x ≡ false)
    → Waits event arep r.app.ars
    → Waits event arep (when_flag flags e r).app.ars
      × ((when_flag flags e r).app.alarm_arg ≡ r.app.alarm_arg)
unfolding when_flag handle_event
when_flag-Waits event e arep flags r other none_gone w = elim (Bool-cases (flags e)) [
  | inr down ↦ rw down (w, refl)
  | inl up ↦ rw up (handle_event_ar-Waits event e arep r.app.ars other none_gone w, refl)
]

polled-ars :
    (h : Host) (a : RoundAnswers) (app : App) → (app_handle_cyclic_data h a app).app.ars ≡ app.ars
unfolding app_handle_cyclic_data
polled-ars h a app =
    elim (Bool-cases (ltb ((app.cyclic.tick_counter + 1) % 2 ^ 32) ticks_update_data)) [
      | inl early ↦ rw early refl
      | inr now ↦ rw now refl
    ]

handle_event_timer-Waits :
    (event : AppEvent) (arep : ℕ) (h : Host) (a : RoundAnswers) (app : App)
    → Waits event arep app.ars
    → Waits event arep (handle_event_timer h a app).app.ars
unfolding handle_event_timer
handle_event_timer-Waits event arep h a app w =
    let cleared = record app { main_events = without_event app.main_events timer } in
    elim (Bool-cases (is_connected app.ars)) [
      | inr off ↦ rw off (indicate_all-Waits event arep cleared a.periodic w)
      | inl on ↦ rw on (
          indicate_all-Waits event arep (app_handle_cyclic_data h a cleared).app a.periodic
            (rw (polled-ars h a cleared) w))
    ]

pub when_timer-Waits :
    (event : AppEvent) (arep : ℕ) (flags : EventSet) (h : Host) (a : RoundAnswers) (r : Round)
    → Waits event arep r.app.ars
    → Waits event arep (when_timer flags h a r).app.ars
unfolding when_timer
when_timer-Waits event arep flags h a r w = elim (Bool-cases (flags timer)) [
  | inr down ↦ rw down w
  | inl up ↦ rw up (handle_event_timer-Waits event arep h a r.app w)
]

-- An event that waits in the table, with its flag up, is answered in the next round, whatever else is
-- up, and whatever P-Net answers: a connection that is ready gets `pnet_application_ready`, an alarm is
-- acknowledged with the arguments that are stored, and a released state machine is confirmed.
pub loop_round-Answer :
    (h : Host) (a : RoundAnswers) (app : App) (event : AppEvent) (arep : ℕ)
    → Waits event arep app.ars
    → app.main_events event ≡ true
    → Answer event app arep (loop_round h a app).calls
unfolding loop_round removes
loop_round-Answer h a app ready_for_data arep w up =
    let flags = app.main_events in
    let start : Round = record { app = app; calls = []; samples = []; reads = [] } in
    let r1 = when_flag flags ready_for_data start in
    let c1 = when_flag-Answer ready_for_data arep flags start up w in
    let r2 = when_flag flags alarm r1 in
    let c2 = when_flag-calls ready_for_data app arep flags alarm r1 c1 in
    let r3 = when_timer flags h a r2 in
    let c3 = when_timer-calls ready_for_data app arep flags h a r2 c2 in
    let r4 = when_flag flags sm_released r3 in
    let c4 = when_flag-calls ready_for_data app arep flags sm_released r3 c3 in
    rw (allow_alarm-calls flags (when_flag flags abort r4))
      (when_flag-calls ready_for_data app arep flags abort r4 c4)
loop_round-Answer h a app alarm arep w up =
    let flags = app.main_events in
    let start : Round = record { app = app; calls = []; samples = []; reads = [] } in
    let r1 = when_flag flags ready_for_data start in
    let (w1, arg) =
      when_flag-Waits alarm ready_for_data arep flags start (omega arith) (λ x. refl) w in
    let r2 = when_flag flags alarm r1 in
    let c2 : Answer alarm app arep r2.calls =
      subst (λ x. Has (alarm_ack arep x) r2.calls) arg
        (when_flag-Answer alarm arep flags r1 up w1) in
    let r3 = when_timer flags h a r2 in
    let c3 = when_timer-calls alarm app arep flags h a r2 c2 in
    let r4 = when_flag flags sm_released r3 in
    let c4 = when_flag-calls alarm app arep flags sm_released r3 c3 in
    rw (allow_alarm-calls flags (when_flag flags abort r4))
      (when_flag-calls alarm app arep flags abort r4 c4)
loop_round-Answer h a app sm_released arep w up =
    let flags = app.main_events in
    let start : Round = record { app = app; calls = []; samples = []; reads = [] } in
    let r1 = when_flag flags ready_for_data start in
    let (w1, _) =
      when_flag-Waits sm_released ready_for_data arep flags start (omega arith) (λ x. refl) w in
    let r2 = when_flag flags alarm r1 in
    let (w2, _) = when_flag-Waits sm_released alarm arep flags r1 (omega arith) (λ x. refl) w1 in
    let r3 = when_timer flags h a r2 in
    let w3 = when_timer-Waits sm_released arep flags h a r2 w2 in
    let r4 = when_flag flags sm_released r3 in
    let c4 = when_flag-Answer sm_released arep flags r3 up w3 in
    rw (allow_alarm-calls flags (when_flag flags abort r4))
      (when_flag-calls sm_released app arep flags abort r4 c4)
loop_round-Answer h a app timer arep w up = tt
loop_round-Answer h a app abort arep w up = tt

-- After `app_state_ind` with PRMEND for a connection that the table knows or has room for, and any
-- callbacks after it, the next round of the main loop calls `pnet_application_ready` for it.
pub prmend-application_ready :
    (h : Host) (a : RoundAnswers) (app : App) (arep : ℕ) (is : List Indication)
    → arep ≢ no_arep
    → (find_ar app.ars arep ≢ none) ⊎ (free_ar app.ars ≢ none)
    → let indicated = indicate_all (indicate app (state_ind arep ArEvent.prmend)).0 is in
      Has (application_ready arep) (loop_round h a indicated.0).calls
unfolding indicate state_ind_lines raise
prmend-application_ready h a app arep is valid room =
    let up = raise app arep ready_for_data true in
    loop_round-Answer h a (indicate_all up is).0 ready_for_data arep
      (indicate_all-Waits ready_for_data arep up is
        (set-Waits ready_for_data arep app.ars valid room))
      (indicate_all-flag ready_for_data up is (with_event_sets app.main_events ready_for_data))
