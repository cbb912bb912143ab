-- ===== src/Memory/Tests/Sessions.antt =====
-- New sessions on the concrete store, which has one session that is not numbered.
use typemach.Base.{ℕ, none, some, ◌≡◌, ◌<◌, arith}
use typemach.Base.Eq.{string_eq}
use typemach.Base.Map.{get, insert}
use typemach.Memory.State.{Inner}
use typemach.Memory.Sessions.{session_name, ensure_session}
use typemach.Memory.Named.{ensure_session-fresh}
use typemach.Memory.Tests.Sample.{Sample, opened}

ensure_session-fresh_example :
    (k : ℕ) × (t : Inner Sample) × (ensure_session none "scope" opened ≡ some (session_name k, t))
    × (get (session_name k) opened.sessions ≡ none)
    × (t.sessions ≡ insert (session_name k) "scope" opened.sessions)
    × (0 < k)
    × (t.next_session ≡ k)
ensure_session-fresh_example = ensure_session-fresh "scope" opened (omega arith)
