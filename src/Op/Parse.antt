-- ===== src/Op/Parse.antt =====
-- The texts of visibilities and of statuses, and what is read back from them.
use typemach.Base.{String, Option, none, some, ◌≡◌, ◌↔◌, refl, if◌then◌else◌, inl, inr, ap, ◌∙◌}
use typemach.Base.Eq.{◌=?◌, string_eq, arm-cases}
use typemach.Op.{
  Vis, public, internal, vis_as_str, EffectStatus, reserved, started, done, failed, unknown,
  effect_status_as_str,
}

unfoldable pub vis_parse : String → Option Vis
vis_parse value =
    if value =? "public" then some public else if value =? "internal" then some internal else none

unfoldable pub effect_status_parse : String → Option EffectStatus
effect_status_parse value =
    if value =? "reserved"
    then some reserved
    else if value =? "started"
    then some started
    else if value =? "done"
    then some done
    else if value =? "failed"
    then some failed
    else if value =? "unknown"
    then some unknown
    else none

vis_read : (value : String) (vis : Vis) → vis_parse value ≡ some vis → value ≡ vis_as_str vis
unfolding vis_parse vis_as_str
vis_read value vis h = elim (arm-cases value "public" public _ h) [
  | inl (same, is) ↦ same ∙ ap vis_as_str is
  | inr h₁ ↦ elim (arm-cases value "internal" internal _ h₁) [
    | inl (same, is) ↦ same ∙ ap vis_as_str is
    | inr h₂ ↦ absurd (cc)
  ]
]

vis_written : (value : String) (vis : Vis) → value ≡ vis_as_str vis → vis_parse value ≡ some vis
unfolding vis_parse vis_as_str
vis_written value public h = rw h refl
vis_written value internal h = rw h refl

status_read :
    (value : String) (status : EffectStatus)
    → effect_status_parse value ≡ some status
    → value ≡ effect_status_as_str status
unfolding effect_status_parse effect_status_as_str
status_read value status h = elim (arm-cases value "reserved" reserved _ h) [
  | inl (same, is) ↦ same ∙ ap effect_status_as_str is
  | inr h₁ ↦ elim (arm-cases value "started" started _ h₁) [
    | inl (same, is) ↦ same ∙ ap effect_status_as_str is
    | inr h₂ ↦ elim (arm-cases value "done" done _ h₂) [
      | inl (same, is) ↦ same ∙ ap effect_status_as_str is
      | inr h₃ ↦ elim (arm-cases value "failed" failed _ h₃) [
        | inl (same, is) ↦ same ∙ ap effect_status_as_str is
        | inr h₄ ↦ elim (arm-cases value "unknown" unknown _ h₄) [
          | inl (same, is) ↦ same ∙ ap effect_status_as_str is
          | inr h₅ ↦ absurd (cc)
        ]
      ]
    ]
  ]
]

status_written :
    (value : String) (status : EffectStatus)
    → value ≡ effect_status_as_str status
    → effect_status_parse value ≡ some status
unfolding effect_status_parse effect_status_as_str
status_written value reserved h = rw h refl
status_written value started h = rw h refl
status_written value done h = rw h refl
status_written value failed h = rw h refl
status_written value unknown h = rw h refl

-- `Vis::parse` reads the text that `Vis::as_str` writes, and no other text.
pub vis_parse-as_str :
    (value : String) (vis : Vis) → (vis_parse value ≡ some vis) ↔ (value ≡ vis_as_str vis)
vis_parse-as_str value vis = (vis_read value vis, vis_written value vis)

-- `EffectStatus::parse` reads the text that `EffectStatus::as_str` writes, and no other text.
pub effect_status_parse-as_str :
    (value : String) (status : EffectStatus)
    → (effect_status_parse value ≡ some status) ↔ (value ≡ effect_status_as_str status)
effect_status_parse-as_str value status = (status_read value status, status_written value status)
