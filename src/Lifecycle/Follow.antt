-- ===== src/Lifecycle/Follow.antt =====
-- src/lifecycle.rs: `subscribe`, and the tail of a run's events.
use typemach.Base.{ℕ, Option, none, some, List, [], ◌∷◌, last, if◌then◌else◌}
use typemach.Base.Int.{ℤ, leb_ℤ}
use typemach.Run.{RunId}
use typemach.Error.{not_owner}
use typemach.Params.{Params}
use typemach.Op.{Page}
use typemach.Store.{RunStatus, RunLookup}
use typemach.Memory.State.{is_running}
use typemach.Store.Interface.{RunStore}
use typemach.Registry.{Channels, subscribe as registry_subscribe}
use typemach.Lifecycle.State.{Call, ◌>>=◌, pure, fail, on_store, on_registry}

abbrev pub replay_limit : ℕ
replay_limit = 1024

-- `RunCursor` is the number that it wraps. A receiver's queue is given to `next_event`.
pub record RunTail (R : Type 0) : Type 0 where
  pub receiver : R
  pub cursor : ℤ

pub record ReplayPage (E : Type 0) : Type 0 where
  pub events : List E
  pub cursor : ℤ

pub data RunSubscription (E R : Type 0) : Type 0 where
  active : List E → RunTail R → RunSubscription E R
  replays : ReplayPage E → RunSubscription E R
  inactive : RunStatus → List E → RunSubscription E R
  missing : RunSubscription E R

-- `a.max(b)`.
unfoldable pub max_ℤ : ℤ → ℤ → ℤ
max_ℤ a b = if leb_ℤ a b then b else a

module _ (P : Params) where
  -- `next_event`: the queue is what `recv` hands out before the channel is closed or empty.
  unfoldable pub next_event : ℤ → List P.Event → Option (P.Event × List P.Event)
  next_event cursor [] = none
  next_event cursor (event ∷ queue) =
      if leb_ℤ (P.event.seq event) cursor then next_event cursor queue else some (event, queue)

  -- All that a tail hands out of a queue, one `next_event` after the other.
  unfoldable pub follow : ℤ → List P.Event → List P.Event
  follow cursor [] = []
  follow cursor (event ∷ queue) =
      if leb_ℤ (P.event.seq event) cursor
      then follow cursor queue
      else event ∷ follow (P.event.seq event) queue

  -- The number from which a tail goes on after a replay: `replay.last().map(…).unwrap_or(…).max(…)`.
  abbrev pub replay_end : ℤ → Option P.Event → ℤ
  replay_end cursor none = max_ℤ cursor cursor
  replay_end cursor (some event) = max_ℤ (P.event.seq event) cursor

  abbrev pub last_replay_seq : ℤ → List P.Event → ℤ
  last_replay_seq cursor replay = replay_end cursor (last replay)

module _ (P : Params) (C : Channels P.Event) where
  abbrev pub Subscription : Type 0
  Subscription = RunSubscription P.Event C.Receiver

  unfoldable pub active_page : ℤ → C.Receiver → Page P.Event → Subscription
  active_page cursor receiver page = elim page.next [
    | some next ↦ replays (record { events = page.items; cursor = next })
    | none ↦
        active page.items
          (record { receiver = receiver; cursor = last_replay_seq P cursor page.items })
  ]

  unfoldable pub inactive_page : RunStatus → Page P.Event → Subscription
  inactive_page status page = elim page.next [
    | some next ↦ replays (record { events = page.items; cursor = next })
    | none ↦ inactive status page.items
  ]

module _ {P : Params} {S : RunStore P} {C : Channels P.Event} where
  unfoldable pub subscribe_receiver :
      RunId → P.Scope → ℤ → RunLookup → Option C.Receiver → Call S C (Subscription P C)
  subscribe_receiver run_id scope cursor found none = fail (not_owner found.owner)
  subscribe_receiver run_id scope cursor found (some receiver) = do
    page ← on_store (S.list_events run_id scope cursor replay_limit)
    pure (active_page P C cursor receiver page)

  unfoldable pub subscribe_running : RunId → P.Scope → ℤ → RunLookup → Call S C (Subscription P C)
  subscribe_running run_id scope cursor found = do
    receiver ← on_registry (registry_subscribe run_id)
    subscribe_receiver run_id scope cursor found receiver

  unfoldable pub subscribe_ended : RunId → P.Scope → ℤ → RunLookup → Call S C (Subscription P C)
  subscribe_ended run_id scope cursor found = do
    page ← on_store (S.list_events run_id scope cursor replay_limit)
    pure (inactive_page P C found.status page)

  unfoldable pub subscribe : RunId → P.Scope → ℤ → Call S C (Subscription P C)
  subscribe run_id scope cursor = do
    lookup ← on_store (S.lookup_run run_id scope)
    elim lookup [
      | none ↦ pure missing
      | some found ↦
          if is_running found.status
          then subscribe_running run_id scope cursor found
          else subscribe_ended run_id scope cursor found
    ]
