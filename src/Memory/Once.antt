-- ===== src/Memory/Once.antt =====
-- `reserve_effect` and `start_effect` on a key that is taken, src/store/memory.rs.
use typemach.Base.{
  All, String, Option, some, Bool, true, false, List, ◌≡◌, refl, sym, ◌∙◌, ap, arith,
}
use typemach.Base.Eq.{string_eq, pair_eq}
use typemach.Base.Map.{get, get-insert_self, get_unique}
use typemach.Run.{RunId, LeaseId}
use typemach.Error.{Result, ok, err}
use typemach.Params.{Params}
use typemach.Op.{
  Effect, is_blocking, is_done, EffectStatus, reserved, started, done, failed, unknown,
}
use typemach.Memory.State.{Inner, Clock, now_ms}
use typemach.Memory.Effects.{reserve_effect, start_effect, reserved_effect, started_effect}
use typemach.Memory.Cases.Effects.{reserve_cases, start_effect_cases}
use typemach.Memory.Calls.{Call, run_calls}
use typemach.Memory.Grows.Calls.{run_calls-Grows}
use typemach.Memory.Spared.{settles, run_calls-Held}

abbrev pub is_refused : {A : Type 0} → Result A → Bool
is_refused (ok a) = false
is_refused (err e) = true

ok-injective : {A : Type 0} {a b : A} → ok a ≡ ok b → a ≡ b
ok-injective h = cc

done_open : {V : Type 0} (e : Effect V) → is_blocking e.status ≡ true → is_done e.status ≡ true → ⊥
done_open e h k = go e.status h k
  where
    go : (s : EffectStatus) → is_blocking s ≡ true → is_done s ≡ true → ⊥
    go reserved h k = cc
    go started h k = cc
    go done h k = cc
    go failed h k = cc
    go unknown h k = cc

module _ {P : Params} where
  -- A key that is taken is not reserved anew.
  taken-reserve :
      (clock : Clock) (run_id : RunId) (scope : P.Scope) (lease : Option LeaseId)
      (key kind : String) (request : P.Value) (t : Inner P) (old : Effect P.Value)
      → get (run_id, key) t.effects ≡ some old
      → (reserve_effect clock run_id scope lease key kind request t).1 ≡ t
  taken-reserve clock run_id scope lease key kind request t old found =
      reserve_cases clock run_id scope lease key kind request t (λ x. x.1 ≡ t) (λ e. refl)
        (λ old found same. refl) λ run admitted fresh. absurd (cc)

  -- What a reservation that succeeds leaves under the key.
  reserve_effect-held :
      (clock : Clock) (run_id : RunId) (scope : P.Scope) (lease : Option LeaseId)
      (key kind : String) (request : P.Value) (s : Inner P) (e : Effect P.Value)
      → (reserve_effect clock run_id scope lease key kind request s).0 ≡ ok e
      → (get (run_id, key) (reserve_effect clock run_id scope lease key kind request s).1.effects
          ≡ some e)
        × (e.kind ≡ kind)
        × (e.request ≡ request)
  unfolding reserved_effect
  reserve_effect-held clock run_id scope lease key kind request s e =
      reserve_cases clock run_id scope lease key kind request s
        (λ x.
          x.0 ≡ ok e
          → (get (run_id, key) x.1.effects ≡ some e) × (e.kind ≡ kind) × (e.request ≡ request))
        (λ d h. absurd (cc))
        (λ old found same h.
          let is : old ≡ e = ok-injective h in
          (
            rw (← is) found,
            rw (← is) (ground (arith, same, (string_eq.beq_iff old.kind kind).0)),
            rw (← is) (ground (arith, same, (P.value_eq.beq_iff old.request request).0)),
          ))
        λ run admitted fresh h.
          let new = reserved_effect (now_ms clock 0) run_id key kind request in
          let is : new ≡ e = ok-injective h in
          (
            get-insert_self (run_id, key) new s.effects ∙ ap some is,
            ap (λ x. x.kind) (sym is),
            ap (λ x. x.request) (sym is),
          )

  -- An effect that was reserved keeps its kind and request, whatever calls follow, and reserving its
  -- key again, with any kind and request, writes nothing.
  pub reserve_effect-once :
      (clock later : Clock) (run_id : RunId) (scope : P.Scope) (lease other : Option LeaseId)
      (key kind kind' : String) (request request' : P.Value) (calls : List (Clock × Call P))
      (s : Inner P) (e : Effect P.Value)
      → (reserve_effect clock run_id scope lease key kind request s).0 ≡ ok e
      → let t = run_calls calls (reserve_effect clock run_id scope lease key kind request s).1 in
        ((now : Effect P.Value) × (get (run_id, key) t.effects ≡ some now)
          × (now.kind ≡ kind)
          × (now.request ≡ request))
        × ((reserve_effect later run_id scope other key kind' request' t).1 ≡ t)
  reserve_effect-once clock later run_id scope lease other key kind kind' request request' calls s e
        h =
      let (found, kinds, requests) =
        reserve_effect-held clock run_id scope lease key kind request s e h in
      let first = (reserve_effect clock run_id scope lease key kind request s).1 in
      let (now, held, grows) = (run_calls-Grows calls first).effects _ _ found in
      (
        (now, held, grows.kind ∙ kinds, grows.request ∙ requests),
        taken-reserve later run_id scope other key kind' request' (run_calls calls first) now held,
      )

  -- A blocked effect is neither started nor written.
  blocked-start :
      (clock : Clock) (run_id : RunId) (scope : P.Scope) (lease : Option LeaseId) (key : String)
      (t : Inner P) (old : Effect P.Value)
      → get (run_id, key) t.effects ≡ some old
      → is_blocking old.status ≡ true
      → (start_effect clock run_id scope lease key t).1 ≡ t
        × is_refused (start_effect clock run_id scope lease key t).0 ≡ true
  blocked-start clock run_id scope lease key t old found blocks =
      start_effect_cases clock run_id scope lease key t (λ x. (x.1 ≡ t) × (is_refused x.0 ≡ true))
        (λ e. (refl, refl))
        (λ e known done. absurd (
          done_open e
            (ap (λ x. is_blocking x.status) (get_unique t.effects known found refl) ∙ blocks) done))
        λ run e admitted known idle fresh. absurd (
          cc
            (ap (λ x. is_blocking x.status) (get_unique t.effects known found refl) ∙ blocks, idle))

  -- A start that succeeds on an effect that was not done leaves it started.
  start_effect-started :
      (clock : Clock) (run_id : RunId) (scope : P.Scope) (lease : Option LeaseId) (key : String)
      (s : Inner P) (old e : Effect P.Value)
      → get (run_id, key) s.effects ≡ some old
      → is_done old.status ≡ false
      → (start_effect clock run_id scope lease key s).0 ≡ ok e
      → (get (run_id, key) (start_effect clock run_id scope lease key s).1.effects ≡ some e)
        × (e.status ≡ started)
  unfolding started_effect
  start_effect-started clock run_id scope lease key s old e there open_still =
      start_effect_cases clock run_id scope lease key s
        (λ x. x.0 ≡ ok e → (get (run_id, key) x.1.effects ≡ some e) × (e.status ≡ started))
        (λ d h. absurd (cc))
        (λ known found done h. absurd (
          cc
            (ap (λ x. is_done x.status) (get_unique s.effects found there refl), done, open_still)))
        λ run known admitted found idle fresh h.
          let is = ok-injective h in
          (
            get-insert_self (run_id, key) (started_effect (now_ms clock 0) known) s.effects
                ∙ ap some is,
            ap (λ x. x.status) (sym is),
          )

  -- An effect is not started a second time: once a start of it has succeeded that was not done
  -- before, it is marked as started and stays so through any calls of which none is a commit that
  -- settles it, and starting it again after them, by whatever caller, is refused and writes nothing.
  pub start_effect-once :
      (clock later : Clock) (run_id : RunId) (scope : P.Scope) (lease other : Option LeaseId)
      (key : String) (calls : List (Clock × Call P)) (s : Inner P) (old e : Effect P.Value)
      → get (run_id, key) s.effects ≡ some old
      → is_done old.status ≡ false
      → (start_effect clock run_id scope lease key s).0 ≡ ok e
      → All (λ call. settles run_id key call.1 ≡ false) calls
      → let t = run_calls calls (start_effect clock run_id scope lease key s).1 in
        ((now : Effect P.Value) × (get (run_id, key) t.effects ≡ some now) × (now.status ≡ started))
        × ((start_effect later run_id scope other key t).1 ≡ t)
        × (is_refused (start_effect later run_id scope other key t).0 ≡ true)
  start_effect-once clock later run_id scope lease other key calls s old e there open_still h
        spare =
      let (found, marked) =
        start_effect-started clock run_id scope lease key s old e there open_still h in
      let blocks : is_blocking e.status ≡ true = ap is_blocking marked in
      let t = run_calls calls (start_effect clock run_id scope lease key s).1 in
      let held =
        run_calls-Held run_id key e calls (start_effect clock run_id scope lease key s).1 blocks
          spare found in
      let (same, refused) = blocked-start later run_id scope other key t e held blocks in
      ((e, held, marked), same, refused)
