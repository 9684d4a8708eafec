-- ===== src/Log/Changes.antt =====
-- When a change of a status is reported.
use pnet2csv.Common.{ℕ, ◌<◌, ◌≡◌, ◌↔◌, ◌⊎◌, inl, inr, [], arith, Bool-cases, leb, ◌==◌, ==→eq}
use pnet2csv.FileLogger.Names.{Text}
use pnet2csv.Slots.{Subslot}
use pnet2csv.Log.{debug, app_log, print_ioxs_change, ioxs_report}

-- A report is never empty, so that nothing is printed only for want of a change or of the level.
silent :
    (log_level : ℕ) (s : Subslot) (name ioxs_str : Text) (current new : ℕ)
    → print_ioxs_change log_level s name ioxs_str current new ≡ []
    → (current ≡ new) ⊎ (debug < log_level)
unfolding print_ioxs_change app_log ioxs_report
silent log_level s name ioxs_str current new e = elim (Bool-cases (current == new)) [
  | inl same ↦ inl (==→eq current new same)
  | inr differ ↦ elim (Bool-cases (leb log_level debug)) [
    | inl shown ↦ absurd (cc (rw shown at (rw differ at e)))
    | inr hidden ↦ inr (ground arith)
  ]
]

-- app_utils_print_ioxs_change prints nothing exactly if the status stays, or the log level is above DEBUG.
pub print_ioxs_change-nil :
    (log_level : ℕ) (s : Subslot) (name ioxs_str : Text) (ioxs_current ioxs_new : ℕ)
    → (print_ioxs_change log_level s name ioxs_str ioxs_current ioxs_new ≡ [])
      ↔ ((ioxs_current ≡ ioxs_new) ⊎ (debug < log_level))
unfolding print_ioxs_change app_log
print_ioxs_change-nil log_level s name ioxs_str current new = (
  silent log_level s name ioxs_str current new,
  λ h. elim h [ inl same ↦ ground arith | inr above ↦ ground arith ],
)
