-- ===== src/Memory/Tests/Effects.antt =====
-- An effect of the concrete store, reserved and started.
use typemach.Base.{ℕ, String, Option, none, some, Bool, true, false, List, [], ◌∷◌, All, ◌≡◌, refl}
use typemach.Base.Int.{pos}
use typemach.Base.Eq.{string_eq, pair_eq}
use typemach.Base.Map.{get}
use typemach.Error.{ok}
use typemach.Op.{Effect, reserved, started}
use typemach.Memory.State.{Inner, Clock}
use typemach.Memory.Effects.{reserve_effect, start_effect, reserved_effect, started_effect}
use typemach.Memory.Calls.{Call, begins, cancels, reaps, run_calls}
use typemach.Memory.Spared.{settles}
use typemach.Memory.Once.{reserve_effect-once, start_effect-once, is_refused}
use typemach.Memory.Tests.Sample.{Sample, at, expired, opened, history}

abbrev fresh : Effect String
fresh = record {
  run_id = "run";
  key = "key";
  kind = "kind";
  status = reserved;
  request = "request";
  result = none;
  error_code = none;
  error_message = none;
  created_at = pos 1;
  updated_at = pos 1;
}

reserve-made : (reserve_effect (at 1) "run" "scope" none "key" "kind" "request" opened).0 ≡ ok fresh
unfolding reserve_effect typemach.Memory.Effects.effect_run get
    typemach.Memory.Leases.check_memory_lease typemach.Memory.Effects.reserve_open reserved_effect
    typemach.Base.Int.i64_bound
reserve-made = refl

reserve_effect-once_example :
    let t =
      run_calls history
        (reserve_effect (at 1) "run" "scope" none "key" "kind" "request" opened).1 in
    ((now : Effect String) × (get ("run", "key") t.effects ≡ some now)
      × (now.kind ≡ "kind")
      × (now.request ≡ "request"))
    × ((reserve_effect (at 9) "run" "scope" none "key" "other" "question" t).1 ≡ t)
reserve_effect-once_example =
    reserve_effect-once (at 1) (at 9) "run" "scope" none none "key" "kind" "other" "request"
      "question" history opened fresh reserve-made

abbrev held : Inner Sample
held = record opened { effects = (("run", "key"), fresh) ∷ [] }

abbrev begun : Effect String
begun = record fresh { status = started; updated_at = pos 2 }

start-made : (start_effect (at 2) "run" "scope" none "key" held).0 ≡ ok begun
unfolding start_effect typemach.Memory.Effects.effect_run get
    typemach.Memory.Leases.check_memory_lease typemach.Memory.Effects.start_open started_effect
    typemach.Base.Int.i64_bound
start-made = refl

abbrev later_calls : List (Clock × Call Sample)
later_calls =
    (at 4, begins "run" "scope" none "key")
    ∷ (at 5, cancels "run" "scope")
    ∷ (at 6, reaps 5 expired)
    ∷ []

spared : All (λ call. settles "run" "key" call.1 ≡ false) later_calls
unfolding settles
spared = (refl, (refl, (refl, tt)))

held-found : get ("run", "key") held.effects ≡ some fresh
unfolding get
held-found = refl

start_effect-once_example :
    let t = run_calls later_calls (start_effect (at 2) "run" "scope" none "key" held).1 in
    ((now : Effect String) × (get ("run", "key") t.effects ≡ some now) × (now.status ≡ started))
    × ((start_effect (at 7) "run" "scope" none "key" t).1 ≡ t)
    × (is_refused (start_effect (at 7) "run" "scope" none "key" t).0 ≡ true)
start_effect-once_example =
    start_effect-once (at 2) (at 7) "run" "scope" none none "key" later_calls held fresh begun
      held-found refl start-made spared
