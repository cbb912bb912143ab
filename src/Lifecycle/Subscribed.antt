-- ===== src/Lifecycle/Subscribed.antt =====
-- `subscribe` and `next_event`, src/lifecycle.rs: what a subscriber is told in all.
use typemach.Base.{
  Option, none, some, Bool, true, false, List, [], ◌∷◌, ◌++◌, ◌≡◌, refl, sym, ap, ◌∙◌, inl, inr,
  Bool-cases, arith,
}
use mathlib.Core.Path.{subst}
use typemach.Base.Int.{ℤ, ◌<ℤ◌, leb_ℤ}
use typemach.Run.{RunId}
use typemach.Error.{Result, ok, err}
use typemach.Op.{Page}
use typemach.Params.{Params}
use typemach.Store.{RunLookup, RunStatus}
use typemach.Memory.State.{MemoryRun, is_running, run_lookup}
use typemach.Memory.Queries.{scoped_run, list_events, lookup_run}
use typemach.Memory.Valid.{Ordered}
use typemach.Memory.Pages.{later, Pages, list_events-Pages}
use typemach.Memory.Store.{memory_store}
use typemach.Registry.{Channels, subscribe as registry_subscribe}
use typemach.Lifecycle.State.{RunLifecycle, on_registry}
use typemach.Lifecycle.Follow.{
  Subscription, active, replays, inactive, missing, follow, next_event, last_replay_seq,
  active_page, inactive_page, subscribe_receiver, subscribe_running, subscribe_ended, subscribe,
  replay_limit,
}
use typemach.Lifecycle.Gapless.{replay-follow}

-- `follow` is `next_event` over and over, each time from the number of the event told last.
abbrev told : (P : Params) → Option (P.Event × List P.Event) → List P.Event
told P none = []
told P (some (event, queue)) = event ∷ follow P (P.event.seq event) queue

pub follow-next_event :
    (P : Params) (n : ℤ) (queue : List P.Event) → follow P n queue ≡ told P (next_event P n queue)
unfolding follow next_event
follow-next_event P n [] = refl
follow-next_event P n (e ∷ queue) = elim (Bool-cases (leb_ℤ (P.event.seq e) n)) [
  | inl old ↦ rw (old, follow, next_event) (follow-next_event P n queue)
  | inr new ↦ rw (new, follow, next_event) refl
]

Ordered-front :
    (P : Params) (before : Option ℤ) (xs ys : List P.Event)
    → Ordered P before (xs ++ ys)
    → Ordered P before xs
Ordered-front P before [] ys o = tt
Ordered-front P before (e ∷ xs) ys o = (o.0, o.1, Ordered-front P (some (P.event.seq e)) xs ys o.2)

module _ (P : Params) (C : Channels P.Event) (live : Bool) (offered : Option C.Receiver)
    (cursor : ℤ) (xs ys rest : List P.Event) where
  -- What a subscriber to the log `xs ++ ys` is told, where the queue of a tail begins with `ys` and
  -- `rest` comes later; `live` says that the run is running, and `offered` is the registry's receiver.
  abbrev pub ToldAll : Result (Subscription P C) → Type 0
  ToldAll (ok (active replay tail)) =
      (live ≡ true)
      × (replay ++ follow P tail.cursor (ys ++ rest) ≡ later P cursor ((xs ++ ys) ++ rest))
  ToldAll (ok (replays page)) =
      (cursor <ℤ page.cursor)
      × (page.events ++ later P page.cursor (xs ++ ys) ≡ later P cursor (xs ++ ys))
  ToldAll (ok (inactive status replay)) = (live ≡ false) × (replay ≡ later P cursor (xs ++ ys))
  ToldAll (ok missing) = ⊥
  ToldAll (err e) = (live ≡ true) × (offered ≡ none)

  active_page-ToldAll :
      (receiver : C.Receiver) (page : Page P.Event)
      → live ≡ true
      → Ordered P none ((xs ++ ys) ++ rest)
      → Pages P cursor replay_limit (xs ++ ys) page
      → ToldAll (ok (active_page P C cursor receiver page))
  unfolding active_page
  active_page-ToldAll receiver page runs o (inl (last_page, items)) =
      rw (last_page, active_page)
        (
          runs,
          ap (λ es. es ++ follow P (last_replay_seq P cursor es) (ys ++ rest)) items
              ∙ replay-follow P cursor xs ys rest o,
        )
  active_page-ToldAll receiver page runs o (inr (n, next, full, past, split)) =
      rw (next, active_page) (past, sym split)

  inactive_page-ToldAll :
      (status : RunStatus) (page : Page P.Event)
      → live ≡ false
      → Pages P cursor replay_limit (xs ++ ys) page
      → ToldAll (ok (inactive_page P C status page))
  unfolding inactive_page
  inactive_page-ToldAll status page over (inl (last_page, items)) =
      rw (last_page, inactive_page) (over, items)
  inactive_page-ToldAll status page over (inr (n, next, full, past, split)) =
      rw (next, inactive_page) (past, sym split)

-- A run of the memory store, with a log in order.
module _ {P : Params} {C : Channels P.Event} (run_id : RunId) (scope : P.Scope) (cursor : ℤ)
    (s : RunLifecycle (memory_store P) C) (run : MemoryRun P) (xs ys rest : List P.Event)
    (found : scoped_run run_id scope s.store.inner ≡ some run) (log : run.events ≡ xs ++ ys)
    (o : Ordered P none ((xs ++ ys) ++ rest)) where
  abbrev offers : Option C.Receiver
  offers = (registry_subscribe run_id s.registry).0

  -- Of an answer to the subscriber.
  abbrev Told : Result (Subscription P C) → Type 0
  Told = ToldAll P C (is_running run.status) offers cursor xs ys rest

  page_listed :
      (page : Page P.Event) × (list_events run_id scope cursor replay_limit s.store.inner ≡ ok page)
      × Pages P cursor replay_limit (xs ++ ys) page
  page_listed =
      let ordered : Ordered P none run.events = rw log (Ordered-front P none (xs ++ ys) rest o) in
      let (page, listed, pages) =
        list_events-Pages run_id scope cursor replay_limit s.store.inner run found ordered
          (omega arith) in
      (page, listed, subst (λ es. Pages P cursor replay_limit es page) log pages)

  receiver-ToldAll :
      (lookup : RunLookup) (receiver : Option C.Receiver)
      → is_running run.status ≡ true
      → offers ≡ receiver
      → let registered = on_registry (registry_subscribe run_id) s in
        Told (subscribe_receiver run_id scope cursor lookup receiver registered.1).0
  unfolding subscribe_receiver
  receiver-ToldAll lookup none runs none_there = (runs, none_there)
  receiver-ToldAll lookup (some receiver) runs there =
      let (page, listed, pages) = page_listed in
      rw (listed, subscribe_receiver)
        (active_page-ToldAll P C (is_running run.status) offers cursor xs ys rest receiver page runs
          o pages)

  ended-ToldAll :
      (lookup : RunLookup)
      → is_running run.status ≡ false
      → Told (subscribe_ended run_id scope cursor lookup s).0
  unfolding subscribe_ended
  ended-ToldAll lookup over =
      let (page, listed, pages) = page_listed in
      rw (listed, subscribe_ended)
        (inactive_page-ToldAll P C (is_running run.status) offers cursor xs ys rest lookup.status
          page over pages)

  running-ToldAll :
      (lookup : RunLookup)
      → is_running run.status ≡ true
      → Told (subscribe_running run_id scope cursor lookup s).0
  unfolding subscribe_running
  running-ToldAll lookup runs = receiver-ToldAll lookup offers runs refl

  -- A subscriber to a run of the memory store is told each event after its cursor once and in order,
  -- for a log in order, `xs ++ ys`, that goes on with `rest`. If it gets a replay and a tail, whose
  -- queue begins anywhere in the log and goes on with the events of later, `ys ++ rest`, the replay
  -- and what `next_event` hands out after it are all the events past the cursor. If it gets a page
  -- and a greater cursor, the page and what is past that cursor are all the log past its own; if it
  -- gets the replay of a run that is not running, that is all of it. It is not told that the run is
  -- missing, and gets an error only for a running run of which the registry offers no receiver.
  pub subscribe-gapless :
      ToldAll P C
        (is_running run.status)
        (registry_subscribe run_id s.registry).0
        cursor
        xs
        ys
        rest
        (subscribe run_id scope cursor s).0
  unfolding subscribe lookup_run run_lookup
  subscribe-gapless =
      let lookup = run_lookup run in
      elim (Bool-cases (is_running run.status)) [
        | inl runs ↦
            let told = running-ToldAll lookup runs in
            subst Told (sym (rw (found, subscribe, lookup_run, run_lookup, runs) refl)) told
        | inr over ↦
            let told = ended-ToldAll lookup over in
            subst Told (sym (rw (found, subscribe, lookup_run, run_lookup, over) refl)) told
      ]
