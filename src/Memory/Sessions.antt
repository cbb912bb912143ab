-- ===== src/Memory/Sessions.antt =====
-- `ensure_session`: a session by its id, or a new one under the next free name.
use typemach.Base.{ℕ, zero, suc, ◌+◌, ◌^◌, ◌%◌, Option, none, some, length, if◌then◌else◌}
use typemach.Base.Decimal.{decimal}
use typemach.Base.Eq.{string_eq}
use typemach.Base.Map.{Map, contains_key, or_insert}
use typemach.Run.{SessionId}
use typemach.Params.{Params}
use typemach.Memory.State.{Inner}
use Prim.Native.String.{◌++◌}

-- `next_session += 1` on `u64`.
abbrev pub next_number : ℕ → ℕ
next_number n = (n + 1) % 2 ^ 64

-- `format!("session-{}", n)`.
unfoldable pub session_name : ℕ → SessionId
session_name n = "session-" ++ decimal n

-- The loop, from the number in use; `none` says that the fuel did not do.
unfoldable pub next_free : {A : Type 0} → ℕ → ℕ → Map SessionId A → Option (SessionId × ℕ)
next_free zero n m = none
next_free (suc fuel) n m =
    let rest = next_free fuel (next_number n) m in
    if contains_key (session_name (next_number n)) m
    then rest
    else some (session_name (next_number n), next_number n)

module _ {P : Params} where
  -- One more round than there are sessions.
  unfoldable pub pick_session : Option SessionId → Inner P → Option (SessionId × ℕ)
  pick_session (some id) s = some (id, s.next_session)
  pick_session none s = next_free (suc (length s.sessions)) s.next_session s.sessions

  abbrev pub put_session : SessionId → ℕ → P.Scope → Inner P → Inner P
  put_session id n scope s = record s { next_session = n; sessions = or_insert id scope s.sessions }

  -- The session's id, and the state after the call; `none` if the loop does not end.
  unfoldable pub ensure_session :
      Option SessionId → P.Scope → Inner P → Option (SessionId × Inner P)
  ensure_session asked scope s = elim (pick_session asked s) [
    | none ↦ none
    | some (id, n) ↦ some (id, put_session id n scope s)
  ]

  -- The state after the call.
  unfoldable pub ensured : Option SessionId → P.Scope → Inner P → Inner P
  ensured asked scope s = elim (ensure_session asked scope s) [ none ↦ s | some (_, t) ↦ t ]
