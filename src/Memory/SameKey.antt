-- ===== src/Memory/SameKey.antt =====
-- Two starts with one client's key, src/store/memory.rs.
use mathlib.Core.Option.{some-injective}
use mathlib.Core.Path.{subst}
use typemach.Base.{
  String, Option, none, some, true, false, List, ◌≡◌, refl, sym, ◌∙◌, ap, map_option,
}
use typemach.Base.Eq.{string_eq, triple_eq}
use typemach.Base.Map.{get, insert, get-insert_self}
use typemach.Run.{SessionId}
use typemach.Error.{Result, ok}
use typemach.Params.{Params}
use typemach.Store.{RunStart, start_sig}
use typemach.Memory.State.{Inner, Clock, now_ms}
use typemach.Memory.Validate.{scope_key}
use typemach.Memory.Start.{
  start_run, start_write, open_session, insert_run, insert_key, new_run, idempotency_key,
}
use typemach.Memory.Frame.{apply_entries-Frame}
use typemach.Memory.Cases.Start.{start_cases, claimed, made}
use typemach.Memory.Calls.{Call, run_calls}
use typemach.Memory.Keyed.{KeyOf, KeyOf-idempotent, run_calls-KeyOf}

same_scope : {x y : String} {r : Result String} → r ≡ ok x → r ≡ ok y → x ≡ y
same_scope p q = cc

module _ {P : Params} where
  insert_key-some :
      (asked : Option (String × SessionId × String)) (key : String × SessionId × String)
      (run : RunStart P) (u : Inner P)
      → asked ≡ some key
      → get key (insert_key asked run.run_id u).idempotency ≡ some run.run_id
  unfolding insert_key
  insert_key-some none key run u h = absurd (cc)
  insert_key-some (some other) key run u h =
      ap (get key) (ap (λ k. insert k run.run_id u.idempotency) (some-injective other key h))
      ∙ get-insert_self key run.run_id u.idempotency

  -- What a start that creates its run leaves under the client's key.
  record Named (client : String) (run : RunStart P) (t : Inner P) : Type 0 where
    scope : String
    scoped : scope_key P run.scope ≡ ok scope
    sig : String
    signed : start_sig run ≡ ok sig
    key_of : KeyOf (scope, run.session_id, client) run t

  start_run-Named :
      (clock : Clock) (client : String) (run : RunStart P) (s : Inner P)
      → run.client_run_key ≡ some client
      → made (start_run clock run s).0 ≡ true
      → Named client run (start_run clock run s).1
  unfolding start_write insert_run new_run idempotency_key
  start_run-Named clock client run s asks =
      start_cases clock run s (λ x. made x.0 ≡ true → Named client run x.1) (λ r no h. absurd (cc))
        λ scope sig passes h.
          let u = claimed clock run run.lease (open_session run.session_id run.scope s) in
          let w = insert_key (idempotency_key scope run) run.run_id u in
          let entries =
            apply_entries-Frame (now_ms clock 0) scope run.run_id run.session_id run.thread_id
              run.entries (insert_run run.run_id (new_run clock run) w) in
          let key : String × SessionId × String = (scope, run.session_id, client) in
          let put =
            insert_key-some (idempotency_key scope run) key run u
              (ap (map_option (λ client_key. (scope, run.session_id, client_key))) asks) in
          record {
            scope = scope;
            scoped = passes.scoped;
            sig = sig;
            signed = passes.signed;
            key_of = record {
              id = run.run_id;
              named = ap (get key) entries.idempotency ∙ put;
              found_run = new_run clock run;
              found = rw entries.same.runs (get-insert_self run.run_id (new_run clock run) w.runs);
              start = refl;
            };
          }

  -- A start that finds a run under its key creates none.
  start_run-keyed :
      (clock : Clock) (client : String) (scope : String) (run again : RunStart P) (t : Inner P)
      → again.client_run_key ≡ some client
      → scope_key P again.scope ≡ ok scope
      → KeyOf (scope, again.session_id, client) run t
      → made (start_run clock again t).0 ≡ false
  unfolding idempotency_key open_session
  start_run-keyed clock client scope run again t asks scoped k =
      start_cases clock again t (λ x. made x.0 ≡ false) (λ r no. no)
        λ found sig passes.
          let key : String × SessionId × String = (scope, again.session_id, client) in
          let opened : KeyOf key run (open_session again.session_id again.scope t) = record {
            id = k.id;
            named = k.named;
            found_run = k.found_run;
            found = k.found;
            start = k.start;
          } in
          let same : found ≡ scope = same_scope passes.scoped scoped in
          let asked : idempotency_key found again ≡ some key =
            ap
              (λ x.
                map_option (λ client_key. (x, again.session_id, client_key)) again.client_run_key)
              same
            ∙ ap (map_option (λ client_key. (scope, again.session_id, client_key))) asks in
          absurd (
            cc (
              KeyOf-idempotent key run (open_session again.session_id again.scope t) opened,
              asked,
              passes.unkeyed,
            ))

  -- After a start with a client's key has created its run, no later start with the same
  -- session, scope and key creates one, whatever its run id is and whatever calls come between.
  pub start_run-one_run :
      (clock later : Clock) (client : String) (run again : RunStart P)
      (calls : List (Clock × Call P)) (s : Inner P)
      → made (start_run clock run s).0 ≡ true
      → run.client_run_key ≡ some client
      → again.client_run_key ≡ some client
      → again.session_id ≡ run.session_id
      → scope_key P again.scope ≡ scope_key P run.scope
      → made (start_run later again (run_calls calls (start_run clock run s).1)).0 ≡ false
  start_run-one_run clock later client run again calls s creates asks asks_again session scopes =
      let left = start_run-Named clock client run s asks creates in
      let key : String × SessionId × String = (left.scope, run.session_id, client) in
      let kept = run_calls-KeyOf calls run key (start_run clock run s).1 left.key_of in
      let t = run_calls calls (start_run clock run s).1 in
      start_run-keyed later client left.scope run again t asks_again (scopes ∙ left.scoped)
        (subst (λ x. KeyOf (left.scope, x, client) run t) (sym session) kept)
