-- ===== src/Error.antt =====
-- src/error.rs: `MachineError`, and `Result` with that error. An error that the program boxes or
-- takes from serde is kept as the text that it displays.
use typemach.Base.{ℕ, ◌≡◌, refl, String, Option, none, some, Bool, true, false, ◌⊎◌, inl, inr}
use typemach.Run.{RunId, WorkerId}

pub data MachineError : Type 0 where
  checkpoint_db : String → MachineError
  checkpoint_pool : String → MachineError
  store_db : String → MachineError
  serialization : String → MachineError
  deserialization : String → MachineError
  max_steps_exceeded : ℕ → MachineError
  capacity_exceeded : MachineError
  run_already_active : MachineError
  lease_lost : MachineError
  not_owner : Option WorkerId → MachineError
  thread_busy : Option WorkerId → Option RunId → MachineError
  runtime_op_unavailable : MachineError
  effect_conflict : MachineError
  effect_pending : MachineError
  effect_not_found : MachineError
  item_conflict : MachineError
  entry_conflict : MachineError
  start_conflict : MachineError
  input_conflict : MachineError
  invalid_page_limit : MachineError
  step_timeout : MachineError
  run_timeout : MachineError
  run_not_found : MachineError
  invalid_run_event : String → MachineError
  cancelled : MachineError
  stream_closed : MachineError
  no_checkpoint_state : MachineError
  no_pending_interrupt : MachineError
  no_interrupted_step : MachineError
  invalid_interrupt : String → MachineError
  invalid_step : String → MachineError
  checkpoint_run : RunId → Option RunId → MachineError
  transition : String → MachineError

pub data Result {ℓ} (A : Type ℓ) : Type ℓ where
  err : MachineError → Result A
  ok : A → Result A

module _ {ℓ κ} {A : Type ℓ} {B : Type κ} where
  infixl 5 ◌>>=◌
  -- `?` in front of the rest of a function.
  abbrev pub ◌>>=◌ : Result A → (A → Result B) → Result B
  err reason >>= rest = err reason
  ok value >>= rest = rest value

  -- What a chain that succeeds has passed through.
  pub >>=-eq-ok :
      (first : Result A) (rest : A → Result B) {out : B}
      → (first >>= rest) ≡ ok out
      → (value : A) × (first ≡ ok value) × (rest value ≡ ok out)
  >>=-eq-ok (err reason) rest h = cc
  >>=-eq-ok (ok value) rest h = (value, refl, h)

infixl 5 ◌>>◌
abbrev pub ◌>>◌ {ℓ} : {B : Type ℓ} → Result (Unit {0}) → Result B → Result B
check >> rest = check >>= λ _. rest

-- `if b { return Err(e) }`.
abbrev pub fail_if : Bool → MachineError → Result (Unit {0})
fail_if true e = err e
fail_if false e = ok tt

-- `ok_or(e)?`.
abbrev pub ok_or {ℓ} : {A : Type ℓ} → Option A → MachineError → Result A
ok_or none e = err e
ok_or (some a) e = ok a

-- What serde answers: a value, or the text of its error.
pub data Serde (A : Type 0) : Type 0 where
  written : A → Serde A
  failed : String → Serde A

-- `map_err(MachineError::Serialization)`.
abbrev pub map_serialization : {A : Type 0} → Serde A → Result A
map_serialization (written a) = ok a
map_serialization (failed e) = err (serialization e)

pub Result-cases {ℓ} :
    {A : Type ℓ} (r : Result A) → ((e : MachineError) × (r ≡ err e)) ⊎ ((a : A) × (r ≡ ok a))
Result-cases (ok a) = inr (a, refl)
Result-cases (err e) = inl (e, refl)

-- A test that has been passed, in front of a chain.
pub fail_if-eq-ok {ℓ} :
    {B : Type ℓ} (b : Bool) (e : MachineError) (k : Result B) {x : B}
    → (fail_if b e >> k) ≡ ok x
    → (b ≡ false) × (k ≡ ok x)
fail_if-eq-ok true e k h = cc
fail_if-eq-ok false e k h = (refl, h)

pub fail_if-ok : (b : Bool) (e : MachineError) → fail_if b e ≡ ok tt → b ≡ false
fail_if-ok true e h = cc
fail_if-ok false e h = refl
