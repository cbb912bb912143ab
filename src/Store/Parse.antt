-- ===== src/Store/Parse.antt =====
-- The texts of run statuses, and what is read back from them.
use typemach.Base.{String, Option, none, some, ◌≡◌, ◌↔◌, refl, if◌then◌else◌, inl, inr, ap, ◌∙◌}
use typemach.Base.Eq.{◌=?◌, string_eq, arm-cases}
use typemach.Store.{RunStatus, running, completed, interrupted, cancelled, error, run_status_as_str}

unfoldable pub run_status_parse : String → Option RunStatus
run_status_parse value =
    if value =? "running"
    then some running
    else if value =? "completed"
    then some completed
    else if value =? "interrupted"
    then some interrupted
    else if value =? "cancelled"
    then some cancelled
    else if value =? "error"
    then some error
    else none

status_read :
    (value : String) (status : RunStatus)
    → run_status_parse value ≡ some status
    → value ≡ run_status_as_str status
unfolding run_status_parse run_status_as_str
status_read value status h = elim (arm-cases value "running" running _ h) [
  | inl (same, is) ↦ same ∙ ap run_status_as_str is
  | inr h₁ ↦ elim (arm-cases value "completed" completed _ h₁) [
    | inl (same, is) ↦ same ∙ ap run_status_as_str is
    | inr h₂ ↦ elim (arm-cases value "interrupted" interrupted _ h₂) [
      | inl (same, is) ↦ same ∙ ap run_status_as_str is
      | inr h₃ ↦ elim (arm-cases value "cancelled" cancelled _ h₃) [
        | inl (same, is) ↦ same ∙ ap run_status_as_str is
        | inr h₄ ↦ elim (arm-cases value "error" error _ h₄) [
          | inl (same, is) ↦ same ∙ ap run_status_as_str is
          | inr h₅ ↦ absurd (cc)
        ]
      ]
    ]
  ]
]

status_written :
    (value : String) (status : RunStatus)
    → value ≡ run_status_as_str status
    → run_status_parse value ≡ some status
unfolding run_status_parse run_status_as_str
status_written value running h = rw h refl
status_written value completed h = rw h refl
status_written value interrupted h = rw h refl
status_written value cancelled h = rw h refl
status_written value error h = rw h refl

-- `RunStatus::parse` reads the text that `RunStatus::as_str` writes, and no other text.
pub run_status_parse-as_str :
    (value : String) (status : RunStatus)
    → (run_status_parse value ≡ some status) ↔ (value ≡ run_status_as_str status)
run_status_parse-as_str value status = (status_read value status, status_written value status)
