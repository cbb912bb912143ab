-- ===== src/Memory/Tests/Reads.antt =====
-- The log of the concrete run, read by pages of two.
use typemach.Base.{ℕ, Bool, false, none, some, List, [], ◌∷◌, ◌≡◌, refl, arith}
use typemach.Base.Int.{pos}
use typemach.Error.{ok}
use typemach.Event.{RunEventEnvelope}
use typemach.Op.{Page}
use typemach.Memory.State.{Inner, MemoryRun}
use typemach.Memory.Queries.{scoped_run, list_events}
use typemach.Memory.Pages.{Pages, list_events-Pages}
use typemach.Memory.Tests.Sample.{Sample, event, run_with, open_with}

abbrev logged_run : MemoryRun Sample
logged_run = record (run_with none none) {
  events = event 1 false ∷ event 3 false ∷ event 4 false ∷ [];
}

abbrev logged : Inner Sample
logged = open_with logged_run []

logged-found : scoped_run "run" "scope" logged ≡ some logged_run
unfolding scoped_run typemach.Base.Map.get
logged-found = refl

list_events-Pages_example :
    (page : Page (RunEventEnvelope Bool)) × (list_events "run" "scope" (pos 0) 2 logged ≡ ok page)
    × Pages Sample (pos 0) 2 logged_run.events page
list_events-Pages_example =
    list_events-Pages "run" "scope" (pos 0) 2 logged logged_run logged-found
      (omega arith, tt, (omega arith, omega arith, (omega arith, omega arith, tt))) (omega arith)
