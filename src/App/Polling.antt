-- ===== src/App/Polling.antt =====
-- What `app_handle_cyclic_data` leaves and logs.
use pnet2csv.Common.{ℕ, ◌≡◌, refl, List, [], arith, All}
use pnet2csv.Host.{Host}
use pnet2csv.AppData.{read_log_data}
use pnet2csv.Cyclic
use pnet2csv.Cyclic.{
  Cyclic, Sample, data_changed, handle_sample, handle_cyclic_data, ticks_update_data,
}
use pnet2csv.Slots.{Slot, Subslot, cyclic_data_poll}
use pnet2csv.Slots.Poll.{cyclic_data_poll-state}
use pnet2csv.Cyclic.Runs.{IsFull, run_one, handle_sample-IsFull, handle_sample-tick_counter}
use pnet2csv.Slots.Tidy.{cyclic_data_poll-IsTidyTable}
use pnet2csv.Device.Process.{Process, InputCall, cyclic_data_callback}
use pnet2csv.Device.Process.Sizes.{IsSized, IsBuffer, cyclic_data_callback-IsSized}
use pnet2csv.App.{App}
use pnet2csv.App.Loop.{RoundAnswers, poll_callback, Round, app_handle_cyclic_data}
use pnet2csv.App.Invariant.{IsSoundApp}

-- P-Net fills the buffer of every subslot with bytes.
abbrev pub IsFed : RoundAnswers → Type 0
IsFed a = (slot subslot : ℕ) → IsBuffer (a.data_of slot subslot)

-- What a step of the main task leaves: the calls of `addLogEntry` are those of `app_handle_cyclic_data`
-- on what was read.
pub record IsOutcome (app : App) (r : Round) : Type 0 where
  pub sound : IsSoundApp r.app
  pub logged : Cyclic.run app.cyclic r.reads ≡ (r.app.cyclic, r.samples)
  pub reads_full : All IsFull r.reads
  pub samples_full : All IsFull r.samples

poll_callback-used :
    (h : Host) (a : RoundAnswers) (s : Process × List InputCall) (x : Subslot)
    → (poll_callback h a s x).1.used ≡ x.used
unfolding poll_callback cyclic_data_callback
poll_callback-used h a s x = ground arith

polled-IsSized :
    (h : Host) (a : RoundAnswers) (p : Process) (slots : List Slot)
    → IsFed a
    → IsSized p.app_data
    → IsSized (cyclic_data_poll (poll_callback h a) (p, []) slots).0.0.app_data
unfolding poll_callback
polled-IsSized h a p slots fed sized =
    cyclic_data_poll-state (poll_callback h a) (λ s. IsSized s.0.app_data)
      (λ s x p.
        cyclic_data_callback-IsSized h (a.data_of x.slot_nbr x.subslot_nbr) s.0 x p
          (fed x.slot_nbr x.subslot_nbr))
      (p, []) slots sized

pub app_handle_cyclic_data-IsOutcome :
    (h : Host) (a : RoundAnswers) (app : App)
    → IsFed a
    → IsSoundApp app
    → IsOutcome app (app_handle_cyclic_data h a app)
unfolding app_handle_cyclic_data read_log_data
app_handle_cyclic_data-IsOutcome h a app fed v =
    let polled = cyclic_data_poll (poll_callback h a) (app.process, []) app.slots in
    let sample = read_log_data polled.0.0.app_data in
    let c = record (app.cyclic) { tick_counter = 0 } in
    let sized = polled-IsSized h a app.process app.slots fed v.sized in
    let read : IsFull sample = record { fresh = sized.fresh; full = sized.full } in
    let (full, last) =
      handle_sample-IsFull c sample read (record { fresh = v.last_fresh; full = v.last_full }) in
    let handled = handle_sample c sample.0 sample.1 in
    rw v.counted (record {
      sound = record {
        tidy =
            cyclic_data_poll-IsTidyTable (poll_callback h a) (poll_callback-used h a)
              (app.process, []) app.slots v.tidy;
        gapless = v.gapless;
        sized = sized;
        last_fresh = last.fresh;
        last_full = last.full;
        counted = handle_sample-tick_counter c sample;
        distinct = v.distinct;
      };
      logged = run_one c sample refl;
      reads_full = (read, tt);
      samples_full = full;
    })
