-- ===== src/Memory/Valid/Leases.antt =====
-- Each way in which the calls change a run together with the lease on its thread.
use typemach.Base.{none, some, false, ◌≡◌, refl, sym, ◌∙◌, ap, ◌≢◌, inl, inr, ◌⊎◌}
use typemach.Base.Eq.{string_eq, eq-cases}
use typemach.Base.Map.{
  get, insert, remove, get-insert_self, get-insert_ne, get-remove_ne, insert-cases, remove-cases,
  get_unique,
}
use mathlib.Core.Option.{some-injective}
use typemach.Run.{RunId, ThreadId}
use typemach.Params.{Params}
use typemach.Store.{is_terminal}
use typemach.Memory.State.{Inner, MemoryRun, MemoryLease, MemoryThreadLease}
use typemach.Memory.Valid.{Exclusive, LeaseOf, LeasesValid}

-- The state `t` has run `q` where `s` has run `r`, on the same thread.
module _ {P : Params} (s t : Inner P) (k : RunId) (r q : MemoryRun P)
    (runs : t.runs ≡ insert k q s.runs) (found : get k s.runs ≡ some r)
    (start : q.start ≡ r.start) where
  at_k : get k t.runs ≡ some q
  at_k = rw runs (get-insert_self k q s.runs)

  elsewhere : (j : RunId) → j ≢ k → get j t.runs ≡ get j s.runs
  elsewhere j other = rw runs (get-insert_ne j k q s.runs other)

  after :
      (j : RunId) {p : MemoryRun P}
      → get j t.runs ≡ some p
      → ((j ≡ k) × (p ≡ q)) ⊎ ((j ≢ k) × (get j s.runs ≡ some p))
  after j h = insert-cases k q s.runs j (rw runs at h)

  thread : q.start.thread_id ≡ r.start.thread_id
  thread = ap (λ x. x.thread_id) start

  -- A lease that another run has is untouched.
  other-LeaseOf :
      (th : ThreadId) (l : MemoryThreadLease) (p : MemoryRun P) (a : MemoryLease)
      → l.run ≢ k
      → LeaseOf s th l p a
      → LeaseOf t th l p a
  other-LeaseOf th l p a other v = record {
    found = rw (elsewhere l.run other) v.found;
    live = v.live;
    on_thread = v.on_thread;
    leased = v.leased;
    owner = v.owner;
    id = v.id;
  }

  -- No run is opened anew.
  pub Exclusive-put :
      (is_terminal q.status ≡ false → is_terminal r.status ≡ false) → Exclusive s → Exclusive t
  Exclusive-put opens ex i j a b hi hj live_a live_b same = elim (after i hi) [
    | inl (i_k, a_q) ↦ elim (after j hj) [
      | inl (j_k, b_q) ↦ i_k ∙ sym j_k
      | inr (other, hj') ↦ i_k ∙ ex k j r b found hj' (opens (rw (← a_q) live_a)) live_b (cc)
    ]
    | inr (other, hi') ↦ elim (after j hj) [
      | inl (j_k, b_q) ↦ ex i k a r hi' found live_a (opens (rw (← b_q) live_b)) (cc) ∙ sym j_k
      | inr (other', hj') ↦ ex i j a b hi' hj' live_a live_b same
    ]
  ]

  -- The lease and the status of the run are as before.
  pub LeasesValid-same :
      t.thread_leases ≡ s.thread_leases
      → q.lease ≡ r.lease
      → q.status ≡ r.status
      → LeasesValid s
      → LeasesValid t
  LeasesValid-same threads lease status v = record {
    of_thread = λ th l h.
        let before : get th s.thread_leases ≡ some l = rw (← threads) h in
        let (p, a, mine) = v.of_thread th l before in
        elim (eq-cases l.run k) [
          | inl (_, at) ↦
              let same : p ≡ r = get_unique s.runs mine.found found at in
              (
                q,
                a,
                record {
                  found = rw at at_k;
                  live = rw (status, ← same) mine.live;
                  on_thread = rw (thread, ← same) mine.on_thread;
                  leased = rw (lease, ← same) mine.leased;
                  owner = mine.owner;
                  id = mine.id;
                },
              )
          | inr (_, other) ↦ (p, a, other-LeaseOf th l p a other mine)
        ];
    of_run = λ j p a h leased. elim (after j h) [
      | inl (j_k, p_q) ↦
          let (l, holds, mine) = v.of_run k r a found (sym lease ∙ rw (← p_q) leased) in
          (l, rw (threads, p_q, thread) holds, mine ∙ sym j_k)
      | inr (other, before) ↦
          let (l, holds, mine) = v.of_run j p a before leased in (l, rw threads holds, mine)
    ];
  }

  -- The run had no lease and has none.
  pub LeasesValid-unleased :
      t.thread_leases ≡ s.thread_leases
      → r.lease ≡ none
      → q.lease ≡ none
      → LeasesValid s
      → LeasesValid t
  LeasesValid-unleased threads had has v = record {
    of_thread = λ th l h.
        let before : get th s.thread_leases ≡ some l = rw (← threads) h in
        let (p, a, mine) = v.of_thread th l before in
        elim (eq-cases l.run k) [
          | inl (_, at) ↦
              let same : p ≡ r = get_unique s.runs mine.found found at in
              absurd (cc (mine.leased, had, same))
          | inr (_, other) ↦ (p, a, other-LeaseOf th l p a other mine)
        ];
    of_run = λ j p a h leased. elim (after j h) [
      | inl (j_k, p_q) ↦ absurd (cc (leased, has, p_q))
      | inr (other, before) ↦
          let (l, holds, mine) = v.of_run j p a before leased in (l, rw threads holds, mine)
    ];
  }

  -- The run gives up its lease, and the thread's lease is removed.
  pub LeasesValid-clear :
      t.thread_leases ≡ remove r.start.thread_id s.thread_leases
      → q.lease ≡ none
      → is_terminal r.status ≡ false
      → Exclusive s
      → LeasesValid s
      → LeasesValid t
  LeasesValid-clear threads has live ex v = record {
    of_thread = λ th l h.
        let left : get th (remove r.start.thread_id s.thread_leases) ≡ some l = rw (← threads) h in
        let (off, before) = remove-cases r.start.thread_id s.thread_leases th left in
        let (p, a, mine) = v.of_thread th l before in
        let other : l.run ≢ k = λ at.
          let same : p ≡ r = get_unique s.runs mine.found found at in
          off (sym mine.on_thread ∙ rw same refl) in
        (p, a, other-LeaseOf th l p a other mine);
    of_run = λ j p a h leased. elim (after j h) [
      | inl (j_k, p_q) ↦ absurd (cc (leased, has, p_q))
      | inr (other, before) ↦
          let (l, holds, mine) = v.of_run j p a before leased in
          let (p', a', owned) = v.of_thread p.start.thread_id l holds in
          let same : p' ≡ p = get_unique s.runs owned.found before mine in
          let off : p.start.thread_id ≢ r.start.thread_id =
            λ on. other (ex j k p r before found (rw (← same) owned.live) live on) in
          (l, rw (threads, get-remove_ne _ _ s.thread_leases off) holds, mine)
    ];
  }

  -- Both leases are extended.
  pub LeasesValid-renew :
      (l m : MemoryThreadLease) (a b : MemoryLease)
      → get r.start.thread_id s.thread_leases ≡ some l
      → t.thread_leases ≡ insert r.start.thread_id m s.thread_leases
      → l.run ≡ k
      → m.run ≡ l.run
      → m.owner ≡ l.owner
      → m.id ≡ l.id
      → r.lease ≡ some a
      → q.lease ≡ some b
      → b.owner ≡ a.owner
      → b.id ≡ a.id
      → q.status ≡ r.status
      → LeasesValid s
      → LeasesValid t
  LeasesValid-renew l m a b holds threads mine run owner id had has owner' id' status v =
      let (p₀, a₀, own) = v.of_thread r.start.thread_id l holds in
      let same₀ : p₀ ≡ r = get_unique s.runs own.found found mine in
      let had₀ : a₀ ≡ a = some-injective a₀ a (sym own.leased ∙ rw same₀ had) in
      let held : get r.start.thread_id t.thread_leases ≡ some m =
        rw threads (get-insert_self _ m s.thread_leases) in
      record {
        of_thread = λ th k' h.
            elim (insert-cases r.start.thread_id m s.thread_leases th (rw threads at h)) [
              | inl (on, is) ↦ (
                q,
                b,
                record {
                  found = rw (is, run, mine) at_k;
                  live = rw (status, ← same₀) own.live;
                  on_thread = thread ∙ sym on;
                  leased = has;
                  owner = owner' ∙ rw (← had₀) own.owner ∙ sym owner ∙ ap (λ x. x.owner) (sym is);
                  id = id' ∙ rw (← had₀) own.id ∙ sym id ∙ ap (λ x. x.id) (sym is);
                },
              )
              | inr (off, before) ↦
                  let (p, c, theirs) = v.of_thread th k' before in
                  let other : k'.run ≢ k = λ at.
                    let same : p ≡ r = get_unique s.runs theirs.found found at in
                    off (sym theirs.on_thread ∙ rw same refl) in
                  (p, c, other-LeaseOf th k' p c other theirs)
            ];
        of_run = λ j p c h leased. elim (after j h) [
          | inl (j_k, p_q) ↦ (m, rw (p_q, thread) held, run ∙ mine ∙ sym j_k)
          | inr (other, before) ↦
              let (l', holds', mine') = v.of_run j p c before leased in
              elim (eq-cases p.start.thread_id r.start.thread_id) [
                | inl (_, on) ↦
                    let same : l' ≡ l = get_unique s.thread_leases holds' holds on in
                    absurd (other (sym mine' ∙ rw same mine))
                | inr (_, off) ↦
                    (l', rw (threads, get-insert_ne _ _ m s.thread_leases off) holds', mine')
              ]
        ];
      }

-- The state `t` has a new run `q`, on a thread on which `s` has no open run.
module _ {P : Params} (s t : Inner P) (k : RunId) (q : MemoryRun P)
    (runs : t.runs ≡ insert k q s.runs) (fresh : get k s.runs ≡ none)
    (idle : (j : RunId) (p : MemoryRun P)
      → get j s.runs ≡ some p
      → is_terminal p.status ≡ false
      → p.start.thread_id ≢ q.start.thread_id) where
  placed :
      (j : RunId) {p : MemoryRun P}
      → get j t.runs ≡ some p
      → ((j ≡ k) × (p ≡ q)) ⊎ ((j ≢ k) × (get j s.runs ≡ some p))
  placed j h = insert-cases k q s.runs j (rw runs at h)

  pub Exclusive-new : Exclusive s → Exclusive t
  Exclusive-new ex i j a b hi hj live_a live_b same = elim (placed i hi) [
    | inl (i_k, a_q) ↦ elim (placed j hj) [
      | inl (j_k, b_q) ↦ i_k ∙ sym j_k
      | inr (other, hj') ↦ absurd (idle j b hj' live_b (sym same ∙ rw a_q refl))
    ]
    | inr (other, hi') ↦ elim (placed j hj) [
      | inl (j_k, b_q) ↦ absurd (idle i a hi' live_a (same ∙ rw b_q refl))
      | inr (other', hj') ↦ ex i j a b hi' hj' live_a live_b same
    ]
  ]

  -- No lease is on a thread without an open run.
  idle-lease :
      LeasesValid s → (l : MemoryThreadLease) → get q.start.thread_id s.thread_leases ≢ some l
  idle-lease v l h =
      let (p, a, mine) = v.of_thread q.start.thread_id l h in
      idle l.run p mine.found mine.live mine.on_thread

  kept-LeaseOf :
      (th : ThreadId) (l : MemoryThreadLease) (p : MemoryRun P) (a : MemoryLease)
      → LeaseOf s th l p a
      → LeaseOf t th l p a
  kept-LeaseOf th l p a v = record {
    found = rw (runs, get-insert_ne l.run k q s.runs (λ at. cc (rw at at v.found))) v.found;
    live = v.live;
    on_thread = v.on_thread;
    leased = v.leased;
    owner = v.owner;
    id = v.id;
  }

  pub LeasesValid-open :
      t.thread_leases ≡ s.thread_leases → q.lease ≡ none → LeasesValid s → LeasesValid t
  LeasesValid-open threads free v = record {
    of_thread = λ th l h.
        let (p, a, mine) = v.of_thread th l (rw (← threads) h) in
        (p, a, kept-LeaseOf th l p a mine);
    of_run = λ j p a h leased. elim (placed j h) [
      | inl (j_k, p_q) ↦ absurd (cc (leased, free, p_q))
      | inr (other, before) ↦
          let (l, holds, mine) = v.of_run j p a before leased in (l, rw threads holds, mine)
    ];
  }

  pub LeasesValid-claim :
      (m : MemoryThreadLease) (a : MemoryLease)
      → t.thread_leases ≡ insert q.start.thread_id m s.thread_leases
      → m.run ≡ k
      → q.lease ≡ some a
      → a.owner ≡ m.owner
      → a.id ≡ m.id
      → is_terminal q.status ≡ false
      → LeasesValid s
      → LeasesValid t
  LeasesValid-claim m a threads run has owner id live v = record {
    of_thread = λ th l h.
        elim (insert-cases q.start.thread_id m s.thread_leases th (rw threads at h)) [
          | inl (on, is) ↦ (
            q,
            a,
            record {
              found = rw (runs, is, run) (get-insert_self k q s.runs);
              live = live;
              on_thread = sym on;
              leased = has;
              owner = owner ∙ ap (λ x. x.owner) (sym is);
              id = id ∙ ap (λ x. x.id) (sym is);
            },
          )
          | inr (off, before) ↦
              let (p, c, mine) = v.of_thread th l before in (p, c, kept-LeaseOf th l p c mine)
        ];
    of_run = λ j p c h leased. elim (placed j h) [
      | inl (j_k, p_q) ↦ (m, rw (threads, p_q) (get-insert_self _ m s.thread_leases), run ∙ sym j_k)
      | inr (other, before) ↦
          let (l, holds, mine) = v.of_run j p c before leased in
          let (p', c', owned) = v.of_thread p.start.thread_id l holds in
          let same : p' ≡ p = get_unique s.runs owned.found before mine in
          let off : p.start.thread_id ≢ q.start.thread_id =
            idle j p before (rw (← same) owned.live) in
          (l, rw (threads, get-insert_ne _ _ m s.thread_leases off) holds, mine)
    ];
  }
