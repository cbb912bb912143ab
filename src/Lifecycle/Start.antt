-- ===== src/Lifecycle/Start.antt =====
-- src/lifecycle.rs: `start_run`, `request_cancel` and the calls that go straight to the store.
use typemach.Base.{String, Option, none, some, map_option, if◌then◌else◌}
use typemach.Base.Eq.{string_eq}
use typemach.Run.{RunId, SessionId}
use typemach.Error.{
  Result, ok, err, run_not_found, not_owner, run_already_active, capacity_exceeded,
}
use typemach.Params.{Params}
use typemach.Store.{RunLookup, RunStart, StoreStartResult, created, existing, is_terminal}
use typemach.Store.Interface.{RunStore}
use typemach.Registry.{Channels, RunHandle, try_insert, remove, request_cancel as registry_cancel}
use typemach.Lifecycle.State.{
  RunLifecycle, Call, ◌>>=◌, ◌>>◌, pure, fail, on_store, on_registry, registers,
}

pub data StartRunRejection : Type 0 where
  full : StartRunRejection
  already_active : StartRunRejection

pub data StartRunResult : Type 0 where
  started : StartRunResult
  found_existing : RunLookup → StartRunResult
  not_registered : StartRunRejection → StartRunResult

module _ {P : Params} {S : RunStore P} {C : Channels P.Event} where
  -- A run that is there already: it has to be the same start.
  unfoldable pub same_run : RunStart P → RunLookup → Call S C StartRunResult
  same_run run found = do on_store (S.check_run_start found.run_id run); pure (found_existing found)

  -- The store's answer to a start whose run is in the registry.
  unfoldable pub take_start : RunId → Result StoreStartResult → Call S C StartRunResult
  take_start run_id (ok created) = pure started
  take_start run_id (ok (existing found)) = registers (remove run_id) >> pure (found_existing found)
  take_start run_id (err e) = registers (remove run_id) >> fail e

  unfoldable pub start_stored : RunStart P → Call S C StartRunResult
  start_stored run s =
      let (answer, store) = S.start_run run s.store in
      take_start run.run_id answer (record s { store = store })

  unfoldable pub take_insert : RunStart P → Result (Unit {0}) → Call S C StartRunResult
  take_insert run (ok _) = start_stored run
  take_insert run (err capacity_exceeded) = pure (not_registered full)
  take_insert run (err run_already_active) = pure (not_registered already_active)
  take_insert run (err e) = fail e

  unfoldable pub start_registered :
      RunStart P → RunHandle → Option C.Sender → Call S C StartRunResult
  start_registered run handle sender s =
      let (answer, registry) = try_insert run.run_id handle sender s.max_in_flight s.registry in
      take_insert run answer (record s { registry = registry })

  -- `if let Some(client_run_key) = … && let Some(existing) = …`.
  unfoldable pub find_keyed : RunStart P → Option String → Call S C (Option RunLookup)
  find_keyed run none = pure none
  find_keyed run (some key) = on_store (S.find_idempotent_run run.scope run.session_id key)

  unfoldable pub start_keyed : RunStart P → RunHandle → Option C.Sender → Call S C StartRunResult
  start_keyed run handle sender = do
    keyed ← find_keyed run run.client_run_key
    elim keyed [ some found ↦ same_run run found | none ↦ start_registered run handle sender ]

  unfoldable pub start_run : RunStart P → RunHandle → Option C.Sender → Call S C StartRunResult
  start_run run handle sender = do
    lookup ← on_store (S.lookup_run run.run_id run.scope)
    elim lookup [ some found ↦ same_run run found | none ↦ start_keyed run handle sender ]

  unfoldable pub ensure_session :
      Option SessionId → P.Scope → RunLifecycle S C → Option (Result SessionId × RunLifecycle S C)
  ensure_session session scope s =
      map_option (λ x. (x.0, record s { store = x.1 })) (S.ensure_session session scope s.store)

  unfoldable pub find_idempotent_run : P.Scope → SessionId → String → Call S C (Option RunLookup)
  find_idempotent_run scope session key = on_store (S.find_idempotent_run scope session key)

  unfoldable pub cancel_owned : RunId → P.Scope → RunLookup → Call S C (Option RunHandle)
  cancel_owned run_id scope found = do
    handle ← on_registry (registry_cancel run_id)
    elim handle [
      | none ↦ fail (not_owner found.owner)
      | some held ↦ on_store (S.mark_cancelled run_id scope) >> pure (some held)
    ]

  unfoldable pub request_cancel : RunId → P.Scope → Call S C (Option RunHandle)
  request_cancel run_id scope = do
    lookup ← on_store (S.lookup_run run_id scope)
    elim lookup [
      | none ↦ fail run_not_found
      | some found ↦ if is_terminal found.status then pure none else cancel_owned run_id scope found
    ]
