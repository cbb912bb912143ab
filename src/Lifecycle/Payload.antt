-- ===== src/Lifecycle/Payload.antt =====
-- src/lifecycle.rs: the calls of a lifecycle whose events are envelopes.
use typemach.Base.{ℕ, zero, suc, List, [], ◌∷◌, length}
use typemach.Base.Int.{ℤ}
use typemach.Run.{RunId, SessionId}
use typemach.Event.{RunEventPayload, RunEventEnvelope, envelope_event}
use typemach.Params.{Params}
use typemach.Store.{RunFinish, FinishRunResult, CommitPlan, RunCommitResult}
use typemach.Store.Interface.{RunStore}
use typemach.Registry.{Channels}
use typemach.Lifecycle.State.{Call}
use typemach.Lifecycle.Events.{AppendEventResult, append_with, finish_with, finish_detached_with}
use typemach.Lifecycle.Commit.{commit_with}

-- The parameters of a store of envelopes.
abbrev pub Enveloped : {A : Type 0} → Params → RunEventPayload A → Params
Enveloped {A} P payload = record P { Event = RunEventEnvelope A; event = envelope_event payload }

-- `RunEventEnvelope::new`, told the number last.
abbrev pub envelope : {A : Type 0} → RunId → SessionId → A → ℤ → RunEventEnvelope A
envelope run_id session_id payload seq = record {
  run_id = run_id;
  session_id = session_id;
  seq = seq;
  payload = payload;
}

-- The payload that `payloads.next()` hands out at the k-th call. Past the end, where the
-- program would panic, `missing` stands for one: there are as many calls as payloads.
unfoldable pub payload_at : {A : Type 0} → A → List A → ℕ → A
payload_at missing [] k = missing
payload_at missing (payload ∷ payloads) zero = payload
payload_at missing (payload ∷ payloads) (suc k) = payload_at missing payloads k

module _ {A : Type 0} (P : Params) (payload_event : RunEventPayload A)
    {S : RunStore (Enveloped P payload_event)} {C : Channels (RunEventEnvelope A)} where
  unfoldable pub append_event :
      RunId → SessionId → P.Scope → A → Call S C (AppendEventResult (RunEventEnvelope A))
  append_event run_id session_id scope payload =
      append_with run_id scope (envelope run_id session_id payload)

  unfoldable pub finish_run :
      RunFinish (Enveloped P payload_event) → A → Call S C (FinishRunResult (RunEventEnvelope A))
  finish_run finish payload = finish_with finish (envelope finish.run_id finish.session_id payload)

  unfoldable pub finish_detached :
      RunFinish (Enveloped P payload_event) → A → Call S C (FinishRunResult (RunEventEnvelope A))
  finish_detached finish payload =
      finish_detached_with finish (envelope finish.run_id finish.session_id payload)

  unfoldable pub commit_events :
      A
      → RunId
      → SessionId
      → P.Scope
      → CommitPlan (Enveloped P payload_event)
      → List A
      → Call S C (RunCommitResult (RunEventEnvelope A))
  commit_events missing run_id session_id scope plan payloads =
      commit_with run_id session_id scope (record plan { event_count = length payloads })
        (λ k. envelope run_id session_id (payload_at missing payloads k))
