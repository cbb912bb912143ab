-- ===== src/Memory/Queries.antt =====
-- The calls that only read: look-ups, idempotency, and the lists by page.
use typemach.Base.{
  ℕ, ◌-◌, ◌^◌, String, Option, none, some, Bool, true, false, not, ◌&&◌, List, [], ◌∷◌, map, length,
  last, take, ltb, ◌==◌, map_option, if◌then◌else◌,
}
use Prim.Native.String.{compare}
use Prim.Native.Nat.{Ordering}
use typemach.Base.Int.{ℤ, pos, leb_ℤ, ltb_ℤ}
use typemach.Base.Eq.{◌=?◌, string_eq, triple_eq}
use typemach.Base.Map.{get, values}
use typemach.Base.Sort.{sort_by}
use typemach.Run.{RunId, SessionId, ThreadId}
use typemach.Error.{
  Result, ok, err, ◌>>=◌, ◌>>◌, fail_if, run_not_found, start_conflict, invalid_page_limit,
}
use typemach.Checkpoint.{CheckpointRecord}
use typemach.Op.{Vis, vis_beq, Effect, Item, Entry, Page}
use typemach.Params.{Params}
use typemach.Store.{RunStart, RunLookup, start_sig}
use typemach.Memory.State.{Inner, MemoryRun, run_lookup}
use typemach.Memory.Validate.{scope_key}
use typemach.Memory.Start.{idempotent_run}

-- `Iterator::filter` by a Boolean test.
unfoldable pub filter_by : {A : Type 0} → (A → Bool) → List A → List A
filter_by p [] = []
filter_by p (x ∷ xs) = if p x then x ∷ filter_by p xs else filter_by p xs

-- `str::cmp`, which compares bytes: for UTF-8 that is the order of the code points.
unfoldable pub key_le : String → String → Bool
key_le a b = elim (compare a b) [ Ordering.gt ↦ false | _ ↦ true ]

-- Truncation to the limit, with the cursor of the last element if anything was cut off.
unfoldable pub page_of : {A : Type 0} → (A → ℤ) → ℕ → List A → Page A
page_of seq limit xs =
    if ltb limit (length xs)
    then record { items = take limit xs; next = map_option seq (last (take limit xs)) }
    else record { items = xs; next = none }

abbrev pub usize_max : ℕ
usize_max = 2 ^ 64 - 1

-- `is_none_or`: no filter, or one that the value meets.
abbrev pub none_or : {A : Type 0} → Option A → (A → Bool) → Bool
none_or none p = true
none_or (some a) p = p a

-- `Iterator::max_by_key`: the last of the greatest.
unfoldable pub max_by_seq : {V : Type 0} → List (Entry V) → Option (Entry V)
max_by_seq [] = none
max_by_seq (x ∷ xs) = elim (max_by_seq xs) [
  | none ↦ some x
  | some y ↦ if leb_ℤ x.seq y.seq then some y else some x
]

abbrev pub event_le : (P : Params) → P.Event → P.Event → Bool
event_le P a b = leb_ℤ (P.event.seq a) (P.event.seq b)

module _ {P : Params} where
  unfoldable pub scoped_run : RunId → P.Scope → Inner P → Option (MemoryRun P)
  scoped_run run_id scope s = elim (get run_id s.runs) [
    | none ↦ none
    | some run ↦ if P.scope_eq.beq run.start.scope scope then some run else none
  ]

  -- `MemoryRunStore::finish_data`.
  unfoldable pub finish_data_of : RunId → Inner P → Option P.FinishData
  finish_data_of run_id s = elim (get run_id s.runs) [ none ↦ none | some run ↦ run.finish_data ]

  unfoldable pub lookup_run : RunId → P.Scope → Inner P → Option RunLookup
  lookup_run run_id scope s = map_option run_lookup (scoped_run run_id scope s)

  unfoldable pub terminal_event_of : RunId → P.Scope → Inner P → Option P.Event
  terminal_event_of run_id scope s = elim (scoped_run run_id scope s) [
    | none ↦ none
    | some run ↦ run.terminal_event
  ]

  unfoldable pub find_idempotent_run :
      P.Scope → SessionId → String → Inner P → Result (Option RunLookup)
  find_idempotent_run scope session key s = do
    scope_text ← scope_key P scope
    ok (map_option run_lookup (idempotent_run (some (scope_text, session, key)) s))

  unfoldable pub check_run_start : RunId → RunStart P → Inner P → Result (Unit {0})
  check_run_start run_id start s = elim (get run_id s.runs) [
    | none ↦ err run_not_found
    | some run ↦ do
      fail_if (not (P.scope_eq.beq run.start.scope start.scope)) run_not_found
      old ← start_sig run.start
      new ← start_sig start
      fail_if (not (old =? new)) start_conflict
  ]

  unfoldable pub load_checkpoint : ThreadId → Inner P → Option (CheckpointRecord P.Value)
  load_checkpoint thread s = get thread s.checkpoints

  -- The run's events after a number, in the order of their numbers.
  unfoldable pub events_after : ℤ → MemoryRun P → List P.Event
  events_after after run =
      sort_by (event_le P) (filter_by (λ e. ltb_ℤ after (P.event.seq e)) run.events)

  unfoldable pub list_events : RunId → P.Scope → ℤ → ℕ → Inner P → Result (Page P.Event)
  list_events run_id scope after limit s =
      if limit == 0
      then err invalid_page_limit
      else ok (
          page_of P.event.seq limit
            (elim (scoped_run run_id scope s) [ none ↦ [] | some run ↦ events_after after run ]))

  unfoldable pub list_items : RunId → P.Scope → ℕ → Inner P → Result (List (Item P.Value))
  list_items run_id scope limit s =
      if limit == 0 then err invalid_page_limit else elim (scoped_run run_id scope s) [
        | none ↦ ok []
        | some run ↦ ok (
            take limit (
              sort_by (λ a b. key_le a.key b.key)
                (filter_by (λ i. i.run_id =? run_id) (values s.items))))
      ]

  unfoldable pub list_effects : RunId → P.Scope → ℕ → Inner P → Result (List (Effect P.Value))
  list_effects run_id scope limit s =
      if limit == 0 then err invalid_page_limit else elim (scoped_run run_id scope s) [
        | none ↦ ok []
        | some run ↦ ok (
            take limit (
              sort_by (λ a b. key_le a.key b.key)
                (filter_by (λ i. i.run_id =? run_id) (values s.effects))))
      ]

-- `EntryQuery`.
pub record EntryQuery (P : Params) : Type 0 where
  pub scope : P.Scope
  pub session_id : SessionId
  pub thread_id : Option ThreadId
  pub kind : Option String
  pub vis : Option Vis
  pub after_seq : ℤ
  pub limit : ℕ

module _ {P : Params} where
  unfoldable pub matches_query :
      EntryQuery P → String → (String × SessionId × String) × Entry P.Value → Bool
  matches_query q scope ((entry_scope, entry_session, _), entry) =
      entry_scope =? scope
      && entry_session =? q.session_id
      && ltb_ℤ q.after_seq entry.seq
      && none_or q.thread_id (λ t. entry.thread_id =? t)
      && none_or q.kind (λ k. entry.kind =? k)
      && none_or q.vis (λ v. vis_beq entry.vis v)

  unfoldable pub list_entries : EntryQuery P → Inner P → Result (Page (Entry P.Value))
  list_entries q s = do
    fail_if (q.limit == 0) invalid_page_limit
    scope ← scope_key P q.scope
    ok (
        page_of (λ e. e.seq) q.limit
          (sort_by (λ a b. leb_ℤ a.seq b.seq)
            (map (λ e. e.1) (filter_by (matches_query q scope) s.entries))))

  unfoldable pub latest_entry :
      P.Scope
      → SessionId
      → Option ThreadId
      → String
      → Option Vis
      → Inner P
      → Result (Option (Entry P.Value))
  latest_entry scope session thread kind vis s = do
    page ←
        list_entries
          (record {
            scope = scope;
            session_id = session;
            thread_id = thread;
            kind = some kind;
            vis = vis;
            after_seq = pos 0;
            limit = usize_max;
          })
          s
    ok (max_by_seq page.items)
