-- ===== src/Registry/Ends.antt =====
-- A run of the registry whose terminal event has been published, src/registry.rs.
use typemach.Base.{
  none, some, true, false, List, [], ◌∷◌, ◌≡◌, refl, sym, ap, ◌∙◌, ◌≢◌, inl, inr, Option-cases,
  Bool-cases,
}
use typemach.Base.Eq.{string_eq, eq-cases}
use typemach.Base.Map.{Map, get, insert, get-insert_self, get-insert_ne, get-remove_ne}
use typemach.Run.{RunId}
use typemach.Registry.{
  Channels, ActiveRun, RunRegistry, Request, removes, serve, serve_all, subscribe, publish,
  publish_terminal, broadcast,
}
use typemach.Registry.Keeps.{Later, change_cases}

module _ {E : Type 0} {C : Channels E} where
  -- No call takes the run out.
  abbrev pub Spares : RunId → List (Request C) → Type 0
  Spares run_id [] = Unit {0}
  Spares run_id (call ∷ calls) = (call ≢ removes run_id) × Spares run_id calls

  record Ended (run_id : RunId) (m : Map RunId (ActiveRun C)) : Type 0 where
    run : ActiveRun C
    found : get run_id m ≡ some run
    ended : run.terminal_published ≡ true

  change-Ended :
      (run_id k : RunId) (old new : ActiveRun C) (m : Map RunId (ActiveRun C))
      → get k m ≡ some old
      → Later old new
      → Ended run_id m
      → Ended run_id (insert k new m)
  change-Ended run_id k old new m found later e = elim (eq-cases run_id k) [
    | inl (_, same) ↦ record {
      run = new;
      found = rw same (get-insert_self k new m);
      ended = later.ended (cc (e.found, e.ended));
    }
    | inr (_, apart) ↦ record {
      run = e.run;
      found = get-insert_ne run_id k new m apart ∙ e.found;
      ended = e.ended;
    }
  ]

  serve-Ended :
      (run_id : RunId) (call : Request C) (s : RunRegistry C)
      → call ≢ removes run_id
      → Ended run_id s.runs
      → Ended run_id (serve call s).runs
  serve-Ended run_id call s spared e =
      change_cases call s (Ended run_id) e
        (λ k old new found later. change-Ended run_id k old new s.runs found later e)
        (λ k h sender max new is absent room. elim (eq-cases run_id k) [
          | inl (_, same) ↦ absurd (cc (e.found))
          | inr (_, apart) ↦ record {
            run = e.run;
            found = get-insert_ne run_id k new s.runs apart ∙ e.found;
            ended = e.ended;
          }
        ])
        λ k is. elim (eq-cases run_id k) [
          | inl (_, same) ↦ absurd (spared (is ∙ sym (ap removes same)))
          | inr (_, apart) ↦ record {
            run = e.run;
            found = get-remove_ne run_id k s.runs apart ∙ e.found;
            ended = e.ended;
          }
        ]

  serve_all-Ended :
      (run_id : RunId) (calls : List (Request C)) (s : RunRegistry C)
      → Spares run_id calls
      → Ended run_id s.runs
      → Ended run_id (serve_all calls s).runs
  unfolding serve_all
  serve_all-Ended run_id [] s spared e = e
  serve_all-Ended run_id (call ∷ calls) s (first, rest) e =
      serve_all-Ended run_id calls (serve call s) rest (serve-Ended run_id call s first e)

  publish_terminal-Ended :
      (run_id : RunId) (event : E) (s : RunRegistry C)
      → (publish_terminal run_id event s).0 ≡ true
      → Ended run_id (publish_terminal run_id event s).1.runs
  unfolding publish_terminal broadcast
  publish_terminal-Ended run_id event s h = elim (Option-cases (get run_id s.runs)) [
    | inl absent ↦ absurd (cc (rw (absent, publish_terminal) at h))
    | inr (run, found) ↦ elim (Bool-cases run.terminal_published) [
      | inl over ↦ absurd (cc (rw (found, over, publish_terminal) at h))
      | inr live ↦
          rw (found, live, publish_terminal)
            (record { run = _; found = get-insert_self run_id _ s.runs; ended = refl })
    ]
  ]

  -- Once a terminal event of a run has been published, and while the run is not taken out of the
  -- registry, no call reaches its channels again: publishing changes nothing, a second terminal
  -- event is refused, and so is a late subscriber. Any other calls may come between.
  pub publish_terminal-final :
      (run_id : RunId) (last event : E) (calls : List (Request C)) (s : RunRegistry C)
      → (publish_terminal run_id last s).0 ≡ true
      → Spares run_id calls
      → let t = serve_all calls (publish_terminal run_id last s).1 in
        (publish run_id event t ≡ t)
        × (publish_terminal run_id event t ≡ (false, t))
        × (subscribe run_id t ≡ (none, t))
  unfolding publish publish_terminal subscribe
  publish_terminal-final run_id last event calls s made spared =
      let t = serve_all calls (publish_terminal run_id last s).1 in
      let e =
        serve_all-Ended run_id calls (publish_terminal run_id last s).1 spared
          (publish_terminal-Ended run_id last s made) in
      (
        rw (e.found, e.ended, publish) refl,
        rw (e.found, e.ended, publish_terminal) refl,
        rw (e.found, e.ended, subscribe) refl,
      )
