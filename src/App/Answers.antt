-- ===== src/App/Answers.antt =====
-- The calls that answer an event of a connection, and what the callbacks leave of the events.
use pnet2csv.Common.{
  ℕ, ◌≡◌, refl, subst, inl, inr, List, [], ◌∷◌, ◌++◌, true, false, Has, Has-append_left,
  Has-append_right, map,
}
use pnet2csv.Pnet.{ArEvent}
use pnet2csv.Ar.{AppEvent, ready_for_data, timer, alarm, sm_released, abort}
use pnet2csv.Ar.Waits.{Waits, event_set-Waits, with_event_keeps}
use pnet2csv.App.{
  App, StackCall, application_ready, alarm_ack, released_cnf, Indication, raise, default_outputs,
  state_ind_lines, indicate, indicate_all, notice, release_ind, alarm_cnf, sm_released_ind,
  state_ind, module_ind, submodule_ind, data_status_ind, alarm_ind,
}
use pnet2csv.App.Loop.{handler_calls, all_handler_calls}

-- The call that answers an event of a connection, for those that have one.
abbrev pub Answer : AppEvent → App → ℕ → List StackCall → Type 0
Answer ready_for_data app arep calls = Has (application_ready arep) calls
Answer alarm app arep calls = Has (alarm_ack arep app.alarm_arg) calls
Answer sm_released app arep calls = Has (released_cnf arep) calls
Answer timer app arep calls = Unit {0}
Answer abort app arep calls = Unit {0}

pub Answer-append_left :
    (event : AppEvent) (app : App) (arep : ℕ) (xs ys : List StackCall)
    → Answer event app arep xs
    → Answer event app arep (xs ++ ys)
Answer-append_left ready_for_data app arep xs ys h = Has-append_left _ xs ys h
Answer-append_left alarm app arep xs ys h = Has-append_left _ xs ys h
Answer-append_left sm_released app arep xs ys h = Has-append_left _ xs ys h
Answer-append_left timer app arep xs ys h = tt
Answer-append_left abort app arep xs ys h = tt

pub Answer-append_right :
    (event : AppEvent) (app : App) (arep : ℕ) (xs ys : List StackCall)
    → Answer event app arep ys
    → Answer event app arep (xs ++ ys)
Answer-append_right ready_for_data app arep xs ys h = Has-append_right _ xs ys h
Answer-append_right alarm app arep xs ys h = Has-append_right _ xs ys h
Answer-append_right sm_released app arep xs ys h = Has-append_right _ xs ys h
Answer-append_right timer app arep xs ys h = tt
Answer-append_right abort app arep xs ys h = tt

-- What the handler sends is the answer.
handler_calls-Answer :
    (event : AppEvent) (app : App) (arep : ℕ) → Answer event app arep (handler_calls event app arep)
unfolding handler_calls
handler_calls-Answer ready_for_data app arep = inl refl
handler_calls-Answer alarm app arep = inl refl
handler_calls-Answer sm_released app arep =
    Has-append_right _ (map _ _) (released_cnf arep ∷ []) (inl refl)
handler_calls-Answer timer app arep = tt
handler_calls-Answer abort app arep = tt

pub all_handler_calls-Answer :
    (event : AppEvent) (app : App) (arep : ℕ) (areps : List ℕ)
    → Has arep areps
    → Answer event app arep (all_handler_calls event app areps)
unfolding all_handler_calls
all_handler_calls-Answer event app arep (r ∷ areps) (inl e) =
    Answer-append_left event app arep (handler_calls event app r) _ (
      subst (λ x. Answer event app arep (handler_calls event app x)) e
        (handler_calls-Answer event app arep))
all_handler_calls-Answer event app arep (r ∷ areps) (inr h) =
    Answer-append_right event app arep (handler_calls event app r) _
      (all_handler_calls-Answer event app arep areps h)
all_handler_calls-Answer event app arep [] h = absurd h

-- A callback takes no event back.
pub indicate-Waits :
    (event : AppEvent) (arep : ℕ) (app : App) (i : Indication)
    → Waits event arep app.ars
    → Waits event arep (indicate app i).0.ars
unfolding indicate state_ind_lines raise default_outputs
indicate-Waits event arep app notice w = w
indicate-Waits event arep app release_ind w = w
indicate-Waits event arep app alarm_cnf w = w
indicate-Waits event arep app (sm_released_ind r) w =
    event_set-Waits event sm_released arep r false app.ars w
indicate-Waits event arep app (state_ind r ArEvent.abort) w =
    event_set-Waits event abort arep r false app.ars w
indicate-Waits event arep app (state_ind r ArEvent.prmend) w =
    event_set-Waits event ready_for_data arep r true app.ars w
indicate-Waits event arep app (state_ind r ArEvent.startup) w = w
indicate-Waits event arep app (state_ind r ArEvent.applrdy) w = w
indicate-Waits event arep app (state_ind r ArEvent.transfer) w = w
indicate-Waits event arep app (module_ind a n id) w = w
indicate-Waits event arep app (submodule_ind a n m mid sid cfg) w = w
indicate-Waits event arep app (data_status_ind n) w = w
indicate-Waits event arep app (alarm_ind r arg) w =
    event_set-Waits event alarm arep r false app.ars w

pub indicate_all-Waits :
    (event : AppEvent) (arep : ℕ) (app : App) (is : List Indication)
    → Waits event arep app.ars
    → Waits event arep (indicate_all app is).0.ars
unfolding indicate_all
indicate_all-Waits event arep app [] w = w
indicate_all-Waits event arep app (i ∷ is) w =
    indicate_all-Waits event arep (indicate app i).0 is (indicate-Waits event arep app i w)

-- The flag of the main loop stays up, too.
indicate-flag :
    (event : AppEvent) (app : App) (i : Indication)
    → app.main_events event ≡ true
    → (indicate app i).0.main_events event ≡ true
unfolding indicate state_ind_lines raise default_outputs
indicate-flag event app notice up = up
indicate-flag event app release_ind up = up
indicate-flag event app alarm_cnf up = up
indicate-flag event app (sm_released_ind r) up =
    with_event_keeps app.main_events event sm_released up
indicate-flag event app (state_ind r ArEvent.abort) up =
    with_event_keeps app.main_events event abort up
indicate-flag event app (state_ind r ArEvent.prmend) up =
    with_event_keeps app.main_events event ready_for_data up
indicate-flag event app (state_ind r ArEvent.startup) up = up
indicate-flag event app (state_ind r ArEvent.applrdy) up = up
indicate-flag event app (state_ind r ArEvent.transfer) up = up
indicate-flag event app (module_ind a n id) up = up
indicate-flag event app (submodule_ind a n m mid sid cfg) up = up
indicate-flag event app (data_status_ind n) up = up
indicate-flag event app (alarm_ind r arg) up = with_event_keeps app.main_events event alarm up

pub indicate_all-flag :
    (event : AppEvent) (app : App) (is : List Indication)
    → app.main_events event ≡ true
    → (indicate_all app is).0.main_events event ≡ true
unfolding indicate_all
indicate_all-flag event app [] up = up
indicate_all-flag event app (i ∷ is) up =
    indicate_all-flag event (indicate app i).0 is (indicate-flag event app i up)
