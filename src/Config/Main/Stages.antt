-- ===== src/Config/Main/Stages.antt =====
-- The stages of `main` behind the network interfaces.
use pnet2csv.Common.{
  ◌≡◌, refl, ap, ◌∙◌, List, [], ◌∷◌, ◌++◌, Bool, true, false, none, some, arith, ltb, if◌then◌else◌,
  ReturnCode, ok, error, map,
}
use pnet2csv.FileLogger.Names.{Text}
use pnet2csv.Config.CommandLine.{Args}
use pnet2csv.App.Init.{app_start, event_create, timer_create, thread_create, timer_start}
use pnet2csv.Config.Main.{
  is_there, MainCall, make_program_dir, make_data_dir, change_mode, init_stack, start,
  StorageAnswers, Storage, cfg_init_storage, Outcome, failure, running, MainAnswers, start_up,
  after_init, after_storage, after_netifs,
}

-- What the system and the command line have to say for the program to run.
pub record IsReady (a : MainAnswers) (args : Args) : Type 0 where
  pub program_dir : is_there a.storage.program_dir ≡ true
  pub data_dir : is_there a.storage.data_dir ≡ true
  pub directory : a.storage.exists args.path_storage_directory ≡ true
  pub keeps_files : args.remove_files ≡ false
  pub stack : a.stack ≡ true
  pub no_reset : args.factory_reset ≡ false
  pub no_show : args.show ≡ 0
  pub event : a.event ≡ true
  pub timer : a.timer ≡ true

-- The calls of a program that runs.
abbrev pub running_calls : List MainCall
running_calls =
    make_program_dir
    ∷ make_data_dir
    ∷ change_mode
    ∷ init_stack
    ∷ map start (event_create ∷ timer_create ∷ thread_create ∷ timer_start ∷ [])

-- `app_pnet_cfg_init_storage` succeeds with both directories and the one that is given.
pub storage-ok :
    (a : StorageAnswers) (args : Args) (before : Text)
    → is_there a.program_dir ≡ true
    → is_there a.data_dir ≡ true
    → a.exists args.path_storage_directory ≡ true
    → cfg_init_storage a args before ≡ record {
      file_directory = args.path_storage_directory;
      calls = make_program_dir ∷ make_data_dir ∷ change_mode ∷ [];
      code = ok;
    }
unfolding cfg_init_storage
storage-ok a args before e1 e2 e3 = rw (e1, e2, e3) refl

ok-storage :
    (a : StorageAnswers) (args : Args) (before : Text)
    → (cfg_init_storage a args before).code ≡ ok
    → (is_there a.program_dir ≡ true)
      × (is_there a.data_dir ≡ true)
      × (a.exists args.path_storage_directory ≡ true)
unfolding cfg_init_storage
ok-storage a args before e = ground arith

start_up-running :
    (a : MainAnswers) → (start_up a).0 ≡ running → (a.event ≡ true) × (a.timer ≡ true)
unfolding start_up app_start
start_up-running a e = ground arith

running-start_up :
    (a : MainAnswers)
    → a.event ≡ true
    → a.timer ≡ true
    → start_up a
      ≡ (running, map start (event_create ∷ timer_create ∷ thread_create ∷ timer_start ∷ []))
unfolding start_up app_start
running-start_up a e1 e2 = rw (e1, e2) refl

after_init-running :
    (a : MainAnswers) (args : Args)
    → (after_init a args).0 ≡ running
    → (args.factory_reset ≡ false) × (args.show ≡ 0) × ((start_up a).0 ≡ running)
unfolding after_init
after_init-running a args e = ground arith

after_storage-running :
    (a : MainAnswers) (args : Args) (d : Text)
    → (after_storage a args d).0 ≡ running
    → (args.remove_files ≡ false) × (a.stack ≡ true) × ((after_init a args).0 ≡ running)
unfolding after_storage
after_storage-running a args d e = ground arith

when_ready :
    (code : ReturnCode) (x y : Outcome × List MainCall)
    → code ≡ ok
    → elim code [ error ↦ x | ok ↦ y ] ≡ y
when_ready ok x y e = refl
when_ready error x y e = absurd (cc e)

pub some-none {ℓ} : {A : Type ℓ} {x : A} → some x ≡ none → ⊥
some-none e = cc e

pub running_failure : running ≡ failure → ⊥
running_failure e = cc e

if_false {ℓ} : {A : Type ℓ} (b : Bool) (x y : A) → b ≡ false → (if b then x else y) ≡ y
if_false false x y e = refl
if_false true x y e = absurd (cc e)

if_true {ℓ} : {A : Type ℓ} (b : Bool) (x y : A) → b ≡ true → (if b then x else y) ≡ x
if_true false x y e = absurd (cc e)
if_true true x y e = refl

running-after_init :
    (a : MainAnswers) (args : Args)
    → args.factory_reset ≡ false
    → args.show ≡ 0
    → after_init a args ≡ start_up a
unfolding after_init
running-after_init a args e1 e2 =
    if_false args.factory_reset _ _ e1 ∙ if_false (ltb 0 args.show) _ _ (rw e2 refl)

running-after_storage :
    (a : MainAnswers) (args : Args) (d : Text)
    → args.remove_files ≡ false
    → a.stack ≡ true
    → after_storage a args d ≡ ((after_init a args).0, init_stack ∷ (after_init a args).1)
unfolding after_storage
running-after_storage a args d e1 e2 = if_false args.remove_files _ _ e1 ∙ if_true a.stack _ _ e2

-- The outcome and the calls once the storage is there.
after_netifs-ok :
    (a : MainAnswers) (args : Args)
    → let s = cfg_init_storage a.storage args [] in
      let r = after_storage a args s.file_directory in
      s.code ≡ ok → after_netifs a args ≡ (r.0, s.calls ++ r.1)
unfolding after_netifs
after_netifs-ok a args e = when_ready (cfg_init_storage a.storage args []).code _ _ e

pub IsReady-running :
    (a : MainAnswers) (args : Args)
    → IsReady a args
    → after_netifs a args ≡ (running, running_calls)
IsReady-running a args r =
    let storage = storage-ok a.storage args [] r.program_dir r.data_dir r.directory in
    after_netifs-ok a args (ap (λ s. s.code) storage)
    ∙ ap
        (λ (s : Storage). (
          (after_storage a args s.file_directory).0,
          s.calls ++ (after_storage a args s.file_directory).1,
        ))
        storage
    ∙ ap
        (λ (x : Outcome × List MainCall).
          (x.0, make_program_dir ∷ make_data_dir ∷ change_mode ∷ x.1))
        (running-after_storage a args args.path_storage_directory r.keeps_files r.stack
          ∙ ap (λ (x : Outcome × List MainCall). (x.0, init_stack ∷ x.1))
              (running-after_init a args r.no_reset r.no_show ∙ running-start_up a r.event r.timer))

when_running :
    (code : ReturnCode) (calls : List MainCall) (y : Outcome × List MainCall)
    → let r : Outcome × List MainCall = elim code [ error ↦ (failure, calls) | ok ↦ y ] in
      r.0 ≡ running → (code ≡ ok) × (y.0 ≡ running)
when_running ok calls y e = (refl, e)
when_running error calls y e = absurd (cc e)

pub running-IsReady :
    (a : MainAnswers) (args : Args) → (after_netifs a args).0 ≡ running → IsReady a args
unfolding after_netifs
running-IsReady a args e =
    let s = cfg_init_storage a.storage args [] in
    let r = after_storage a args s.file_directory in
    let (code, e1) = when_running s.code s.calls (r.0, s.calls ++ r.1) e in
    let (program_dir, data_dir, directory) = ok-storage a.storage args [] code in
    let (keeps_files, stack, e2) = after_storage-running a args s.file_directory e1 in
    let (no_reset, no_show, e3) = after_init-running a args e2 in
    let (event, timer) = start_up-running a e3 in
    record {
      program_dir = program_dir;
      data_dir = data_dir;
      directory = directory;
      keeps_files = keeps_files;
      stack = stack;
      no_reset = no_reset;
      no_show = no_show;
      event = event;
      timer = timer;
    }
