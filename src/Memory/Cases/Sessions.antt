-- ===== src/Memory/Cases/Sessions.antt =====
-- The paths through `ensure_session`.
use typemach.Base.{ℕ, Option, inl, inr, Option-cases}
use typemach.Run.{SessionId}
use typemach.Params.{Params}
use typemach.Memory.State.{Inner}
use typemach.Memory.Sessions.{pick_session, put_session, ensure_session, ensured}

module _ {P : Params} where
  pub ensured_cases {ℓ} :
      (asked : Option SessionId) (scope : P.Scope) (s : Inner P) (Q : Inner P → Type ℓ)
      → Q s
      → ((id : SessionId) (n : ℕ) → Q (put_session id n scope s))
      → Q (ensured asked scope s)
  unfolding ensured ensure_session
  ensured_cases asked scope s Q stay write = elim (Option-cases (pick_session asked s)) [
    | inl missing ↦ rw (missing, ensured, ensure_session) stay
    | inr ((id, n), picked) ↦ rw (picked, ensured, ensure_session) (write id n)
  ]
