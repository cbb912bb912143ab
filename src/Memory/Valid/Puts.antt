-- ===== src/Memory/Valid/Puts.antt =====
-- One run of a well-formed store is written.
use typemach.Base.{none, some, true, false, ◌≡◌, refl, inl, inr}
use typemach.Base.Eq.{string_eq}
use typemach.Base.Map.{get, insert, remove, insert-cases}
use typemach.Run.{RunId}
use typemach.Params.{Params}
use typemach.Store.{is_terminal, RunStatus, running, completed, interrupted, cancelled, error}
use typemach.Memory.State.{Inner, MemoryRun, is_running}
use typemach.Memory.Frame.{Frame}
use typemach.Memory.Valid.{Valid, RunValid}
use typemach.Memory.Valid.Leases.{
  Exclusive-put, LeasesValid-same, LeasesValid-unleased, LeasesValid-clear,
}

module _ {P : Params} where
  pub Valid-kept :
      (s t : Inner P) → t.runs ≡ s.runs → t.thread_leases ≡ s.thread_leases → Valid s → Valid t
  Valid-kept s t runs threads v = record {
    runs = λ k r h. v.runs k r (rw (← runs) h);
    exclusive = λ j k q r hq hr. v.exclusive j k q r (rw (← runs) hq) (rw (← runs) hr);
    leases = record {
      of_thread = λ th l h.
          let (r, a, mine) = v.leases.of_thread th l (rw (← threads) h) in
          (
            r,
            a,
            record {
              found = rw runs mine.found;
              live = mine.live;
              on_thread = mine.on_thread;
              leased = mine.leased;
              owner = mine.owner;
              id = mine.id;
            },
          );
      of_run = λ j r a h leased.
          let (l, holds, mine) = v.leases.of_run j r a (rw (← runs) h) leased in
          (l, rw threads holds, mine);
    };
  }

  -- The same runs and leases.
  pub Valid-Frame : (s t : Inner P) → Frame s t → Valid s → Valid t
  Valid-Frame s t f v = Valid-kept s t f.same.runs f.same.thread_leases v

  -- One run is written, and it is well formed.
  pub runs-put :
      (s t : Inner P) (k : RunId) (q : MemoryRun P)
      → t.runs ≡ insert k q s.runs
      → RunValid k q
      → Valid s
      → (j : RunId) (p : MemoryRun P) → get j t.runs ≡ some p
      → RunValid j p
  runs-put s t k q runs fine v j p h = elim (insert-cases k q s.runs j (rw runs at h)) [
    | inl (j_k, p_q) ↦ rw (j_k, p_q) fine
    | inr (other, before) ↦ v.runs j p before
  ]

  -- A run that has not ended holds its lease.
  pub unleased_of :
      (s : Inner P) (k : RunId) (r : MemoryRun P)
      → Valid s
      → get k s.runs ≡ some r
      → is_terminal r.status ≡ true
      → r.lease ≡ none
  unleased_of s k r v found over = ((v.runs k r found).ended over).1.unleased

  -- A run without a lease gets more events, or ends.
  pub Valid-unleased :
      (s t : Inner P) (k : RunId) (r q : MemoryRun P)
      → t.runs ≡ insert k q s.runs
      → t.thread_leases ≡ s.thread_leases
      → get k s.runs ≡ some r
      → q.start ≡ r.start
      → r.lease ≡ none
      → q.lease ≡ none
      → is_terminal r.status ≡ false
      → RunValid k q
      → Valid s
      → Valid t
  Valid-unleased s t k r q runs threads found start free free' live fine v = record {
    runs = runs-put s t k q runs fine v;
    exclusive = Exclusive-put s t k r q runs found start (λ _. live) v.exclusive;
    leases = LeasesValid-unleased s t k r q runs found start threads free free' v.leases;
  }

  -- A run with its lease and its status as they were.
  pub Valid-same :
      (s t : Inner P) (k : RunId) (r q : MemoryRun P)
      → t.runs ≡ insert k q s.runs
      → t.thread_leases ≡ s.thread_leases
      → get k s.runs ≡ some r
      → q.start ≡ r.start
      → q.lease ≡ r.lease
      → q.status ≡ r.status
      → RunValid k q
      → Valid s
      → Valid t
  Valid-same s t k r q runs threads found start lease status fine v = record {
    runs = runs-put s t k q runs fine v;
    exclusive = Exclusive-put s t k r q runs found start (λ live. rw (← status) live) v.exclusive;
    leases = LeasesValid-same s t k r q runs found start threads lease status v.leases;
  }

  pub live_of_running :
      (r : MemoryRun P) → is_running r.status ≡ true → is_terminal r.status ≡ false
  live_of_running r h = go r.status h
    where
      go : (s : RunStatus) → is_running s ≡ true → is_terminal s ≡ false
      go running h = refl
      go completed h = cc
      go interrupted h = cc
      go cancelled h = cc
      go error h = cc

  pub Valid-clear :
      (s t : Inner P) (k : RunId) (r q : MemoryRun P)
      → t.runs ≡ insert k q s.runs
      → t.thread_leases ≡ remove r.start.thread_id s.thread_leases
      → get k s.runs ≡ some r
      → q.start ≡ r.start
      → q.lease ≡ none
      → is_terminal r.status ≡ false
      → RunValid k q
      → Valid s
      → Valid t
  Valid-clear s t k r q runs threads found start free live fine v = record {
    runs = runs-put s t k q runs fine v;
    exclusive = Exclusive-put s t k r q runs found start (λ _. live) v.exclusive;
    leases = LeasesValid-clear s t k r q runs found start threads free live v.exclusive v.leases;
  }
