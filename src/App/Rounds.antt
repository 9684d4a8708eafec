-- ===== src/App/Rounds.antt =====
-- What a round of the main loop keeps, and what it logs.
use pnet2csv.Common.{◌≡◌, refl, sym, ap, ◌∙◌, inl, inr, [], ◌++◌, true, if◌then◌else◌, Bool-cases}
use pnet2csv.Host.{Host}
use pnet2csv.Cyclic
use pnet2csv.Cyclic.{
  Cyclic, Sample, data_changed, handle_sample, handle_cyclic_data, ticks_update_data,
}
use pnet2csv.Cyclic.Runs.{run-append, All-append, IsFull}
use pnet2csv.App.Polling.{IsFed, IsOutcome, app_handle_cyclic_data-IsOutcome}
use pnet2csv.Ar.{
  AppEvent, EventSet, removes, without_event, ready_for_data, alarm, sm_released, abort, timer,
}
use pnet2csv.Ar.Distinct.{handle_event_ar-IsDistinct}
use pnet2csv.Ar.Pass.{handle_event_ar-IsCompact}
use pnet2csv.App.{App, indicate_all}
use pnet2csv.App.Loop.{
  is_connected, RoundAnswers, Round, app_handle_cyclic_data, handle_event_timer, handle_event,
  when_flag, when_timer, allow_alarm, loop_round,
}
use pnet2csv.App.Invariant.{IsSoundApp, indicate_all-IsSoundApp, indicate_all-cyclic}

-- A step that logs nothing, and leaves the sampling alone.
quiet :
    (app : App) (r : Round) (after : App)
    → IsOutcome app r
    → IsSoundApp after
    → after.cyclic ≡ r.app.cyclic
    → IsOutcome app (record r { app = after })
quiet app r after o v e = record {
  sound = v;
  logged = o.logged ∙ ap (λ c. (c, r.samples)) (sym e);
  reads_full = o.reads_full;
  samples_full = o.samples_full;
}

-- The same outcome, whatever was sent to P-Net.
calls-IsOutcome :
    (app : App) (r r' : Round)
    → r'.app ≡ r.app
    → r'.samples ≡ r.samples
    → r'.reads ≡ r.reads
    → IsOutcome app r
    → IsOutcome app r'
calls-IsOutcome app r r' e1 e2 e3 o = record {
  sound = rw e1 o.sound;
  logged = rw (e1, e2, e3) o.logged;
  reads_full = rw e3 o.reads_full;
  samples_full = rw e2 o.samples_full;
}

pub start-IsOutcome :
    (app : App)
    → IsSoundApp app
    → IsOutcome app (record { app = app; calls = []; samples = []; reads = [] })
unfolding Cyclic.run
start-IsOutcome app v = record { sound = v; logged = refl; reads_full = tt; samples_full = tt }

-- Two steps, one after the other.
then-IsOutcome :
    (app : App) (r t : Round)
    → IsOutcome app r
    → IsOutcome r.app t
    → IsOutcome app (record t {
      calls = r.calls ++ t.calls;
      samples = r.samples ++ t.samples;
      reads = r.reads ++ t.reads;
    })
then-IsOutcome app r t o q = record {
  sound = q.sound;
  logged =
      run-append app.cyclic r.reads t.reads
      ∙ ap (λ x. ((Cyclic.run x.0 t.reads).0, x.1 ++ (Cyclic.run x.0 t.reads).1)) o.logged
      ∙ ap (λ x. (x.0, r.samples ++ x.1)) q.logged;
  reads_full = All-append IsFull r.reads t.reads o.reads_full q.reads_full;
  samples_full = All-append IsFull r.samples t.samples o.samples_full q.samples_full;
}

pub cleared-IsSoundApp :
    (app : App) (events : EventSet)
    → IsSoundApp app
    → IsSoundApp (record app { main_events = events })
cleared-IsSoundApp app events v = record {
  tidy = v.tidy;
  gapless = v.gapless;
  sized = v.sized;
  last_fresh = v.last_fresh;
  last_full = v.last_full;
  counted = v.counted;
  distinct = v.distinct;
}

handle_event-IsSoundApp :
    (event : AppEvent) (app : App) → IsSoundApp app → IsSoundApp (handle_event event app).0
unfolding handle_event
handle_event-IsSoundApp event app v = record {
  tidy = v.tidy;
  gapless = (handle_event_ar-IsCompact event (removes event) app.ars v.gapless).1;
  sized = v.sized;
  last_fresh = v.last_fresh;
  last_full = v.last_full;
  counted = v.counted;
  distinct = handle_event_ar-IsDistinct event (removes event) app.ars v.gapless v.distinct;
}

pub when_flag-IsOutcome :
    (app : App) (flags : EventSet) (event : AppEvent) (r : Round)
    → IsOutcome app r
    → IsOutcome app (when_flag flags event r)
unfolding when_flag
when_flag-IsOutcome app flags event r o = elim (Bool-cases (flags event)) [
  | inr down ↦ rw down o
  | inl up ↦ rw up (
      calls-IsOutcome app (record r { app = (handle_event event r.app).0 }) _ refl refl refl
        (quiet app r (handle_event event r.app).0 o (handle_event-IsSoundApp event r.app o.sound)
          refl))
]

polled_or_not-IsOutcome :
    (h : Host) (a : RoundAnswers) (app : App)
    → IsFed a
    → IsSoundApp app
    → IsOutcome app (
        if is_connected app.ars
        then app_handle_cyclic_data h a app
        else record { app = app; calls = []; samples = []; reads = [] })
polled_or_not-IsOutcome h a app fed v = elim (Bool-cases (is_connected app.ars)) [
  | inl e ↦ rw e (app_handle_cyclic_data-IsOutcome h a app fed v)
  | inr e ↦ rw e (start-IsOutcome app v)
]

handle_event_timer-IsOutcome :
    (h : Host) (a : RoundAnswers) (app : App)
    → IsFed a
    → IsSoundApp app
    → IsOutcome app (handle_event_timer h a app)
unfolding handle_event_timer
handle_event_timer-IsOutcome h a app fed v =
    let cleared = record app { main_events = without_event app.main_events timer } in
    let r =
      if is_connected cleared.ars
      then app_handle_cyclic_data h a cleared
      else record { app = cleared; calls = []; samples = []; reads = [] } in
    let o =
      polled_or_not-IsOutcome h a cleared fed
        (cleared-IsSoundApp app (without_event app.main_events timer) v) in
    let after = (indicate_all r.app a.periodic).0 in
    let q =
      quiet cleared r after o (indicate_all-IsSoundApp r.app a.periodic o.sound)
        (indicate_all-cyclic r.app a.periodic) in
    record {
      sound = q.sound;
      logged = q.logged;
      reads_full = q.reads_full;
      samples_full = q.samples_full;
    }

pub when_timer-IsOutcome :
    (app : App) (flags : EventSet) (h : Host) (a : RoundAnswers) (r : Round)
    → IsFed a
    → IsOutcome app r
    → IsOutcome app (when_timer flags h a r)
unfolding when_timer
when_timer-IsOutcome app flags h a r fed o = elim (Bool-cases (flags timer)) [
  | inr down ↦ rw down o
  | inl up ↦ rw up (
      then-IsOutcome app r (handle_event_timer h a r.app) o
        (handle_event_timer-IsOutcome h a r.app fed o.sound))
]

allow_alarm-IsOutcome :
    (app : App) (flags : EventSet) (r : Round)
    → IsOutcome app r
    → IsOutcome app (allow_alarm flags r)
unfolding allow_alarm
allow_alarm-IsOutcome app flags r o = elim (Bool-cases (flags abort)) [
  | inr down ↦ rw down o
  | inl up ↦ rw up (
      quiet app r (record (r.app) { alarm_allowed = true }) o
        (record {
          tidy = o.sound.tidy;
          gapless = o.sound.gapless;
          sized = o.sound.sized;
          last_fresh = o.sound.last_fresh;
          last_full = o.sound.last_full;
          counted = o.sound.counted;
          distinct = o.sound.distinct;
        })
        refl)
]

-- A round of the main loop leaves the application sound, whatever events are up, whatever P-Net
-- answers and whatever callbacks it calls; and what it logs is what the sampling makes of its reads.
pub loop_round-IsOutcome :
    (h : Host) (a : RoundAnswers) (app : App)
    → IsFed a
    → IsSoundApp app
    → IsOutcome app (loop_round h a app)
unfolding loop_round
loop_round-IsOutcome h a app fed v =
    let flags = app.main_events in
    let o1 = when_flag-IsOutcome app flags ready_for_data _ (start-IsOutcome app v) in
    let o2 = when_flag-IsOutcome app flags alarm _ o1 in
    let o3 = when_timer-IsOutcome app flags h a _ fed o2 in
    let o4 = when_flag-IsOutcome app flags sm_released _ o3 in
    let o5 = when_flag-IsOutcome app flags abort _ o4 in allow_alarm-IsOutcome app flags _ o5
