-- ===== src/Memory/Grows.antt =====
-- A relation between a state and the states after it: what a store keeps.
pub mod Writes
pub mod Runs
pub mod Calls
use typemach.Base.{
  ℕ, String, Option, none, some, Bool, true, false, List, [], ◌∷◌, ◌++◌, ◌≡◌, refl, sym, ◌∙◌, arith,
}
use typemach.Base.Eq.{Eq, string_eq, pair_eq, triple_eq}
use typemach.Base.Map.{get}
use typemach.Base.Grow.{MapGrows, MapGrows-refl, MapGrows-trans, Same, Same-trans}
use typemach.Op.{Effect, Item, Entry, is_done}
use typemach.Params.{Params}
use typemach.Store.{is_terminal}
use typemach.Memory.State.{Inner, MemoryRun}
use mathlib.Core.List.{append-nil, append_assoc}

-- A run keeps its start and its log, which only gets longer; once it has ended it keeps everything
-- but the request to cancel.
pub record RunGrows {P : Params} (a b : MemoryRun P) : Type 0 where
  pub start : b.start ≡ a.start
  pub events : (more : List P.Event) × (b.events ≡ a.events ++ more)
  pub status : is_terminal a.status ≡ true → b.status ≡ a.status
  pub log : is_terminal a.status ≡ true → b.events ≡ a.events
  pub terminal_event : is_terminal a.status ≡ true → b.terminal_event ≡ a.terminal_event
  pub finish_reason : is_terminal a.status ≡ true → b.finish_reason ≡ a.finish_reason
  pub finish_data : is_terminal a.status ≡ true → b.finish_data ≡ a.finish_data

-- An effect keeps its request, and once it is done it stays as it is.
pub record EffectGrows {V : Type 0} (a b : Effect V) : Type 0 where
  pub kind : b.kind ≡ a.kind
  pub request : b.request ≡ a.request
  pub created_at : b.created_at ≡ a.created_at
  pub done : is_done a.status ≡ true → b ≡ a

pub record Grows {P : Params} (s t : Inner P) : Type 0 where
  pub sessions : MapGrows Same s.sessions t.sessions
  pub runs : MapGrows RunGrows s.runs t.runs
  pub entries : MapGrows Same s.entries t.entries
  pub effects : MapGrows EffectGrows s.effects t.effects
  pub items : MapGrows Same s.items t.items

module _ {P : Params} where
  pub RunGrows-refl : (a : MemoryRun P) → RunGrows a a
  RunGrows-refl a = record {
    start = refl;
    events = ([], sym (append-nil a.events));
    status = λ _. refl;
    log = λ _. refl;
    terminal_event = λ _. refl;
    finish_reason = λ _. refl;
    finish_data = λ _. refl;
  }

  pub RunGrows-trans : (a b c : MemoryRun P) → RunGrows a b → RunGrows b c → RunGrows a c
  RunGrows-trans a b c f g = record {
    start = g.start ∙ f.start;
    events = (
      f.events.0 ++ g.events.0,
      g.events.1 ∙ rw f.events.1 (append_assoc a.events f.events.0 g.events.0),
    );
    status = λ h. g.status (rw (f.status h) h) ∙ f.status h;
    log = λ h. g.log (rw (f.status h) h) ∙ f.log h;
    terminal_event = λ h. g.terminal_event (rw (f.status h) h) ∙ f.terminal_event h;
    finish_reason = λ h. g.finish_reason (rw (f.status h) h) ∙ f.finish_reason h;
    finish_data = λ h. g.finish_data (rw (f.status h) h) ∙ f.finish_data h;
  }

module _ {V : Type 0} where
  pub EffectGrows-refl : (a : Effect V) → EffectGrows a a
  EffectGrows-refl a = record { kind = refl; request = refl; created_at = refl; done = λ _. refl }

  pub EffectGrows-trans : (a b c : Effect V) → EffectGrows a b → EffectGrows b c → EffectGrows a c
  EffectGrows-trans a b c f g = record {
    kind = g.kind ∙ f.kind;
    request = g.request ∙ f.request;
    created_at = g.created_at ∙ f.created_at;
    done = λ h. g.done (rw (f.done h) h) ∙ f.done h;
  }

module _ {P : Params} where
  pub Grows-refl : (s : Inner P) → Grows s s
  Grows-refl s = record {
    sessions = MapGrows-refl Same (λ _. refl) s.sessions;
    runs = MapGrows-refl RunGrows RunGrows-refl s.runs;
    entries = MapGrows-refl Same (λ _. refl) s.entries;
    effects = MapGrows-refl EffectGrows EffectGrows-refl s.effects;
    items = MapGrows-refl Same (λ _. refl) s.items;
  }

  pub Grows-trans : (s t u : Inner P) → Grows s t → Grows t u → Grows s u
  Grows-trans s t u f g = record {
    sessions = MapGrows-trans Same Same-trans _ _ _ f.sessions g.sessions;
    runs = MapGrows-trans RunGrows RunGrows-trans _ _ _ f.runs g.runs;
    entries = MapGrows-trans Same Same-trans _ _ _ f.entries g.entries;
    effects = MapGrows-trans EffectGrows EffectGrows-trans _ _ _ f.effects g.effects;
    items = MapGrows-trans Same Same-trans _ _ _ f.items g.items;
  }
