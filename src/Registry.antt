-- ===== src/Registry.antt =====
-- src/registry.rs: the runs in flight, their handles and the senders of their streams.
use typemach.Base.{
  ℕ, ◌+◌, ◌-◌, String, Option, none, some, Bool, true, false, List, [], ◌∷◌, ◌++◌, length, ltb, leb,
  map_option, ◌==◌, if◌then◌else◌,
}
use typemach.Base.Int.{ℤ, pos, negsuc, inc, i64_bound, int_beq}
use typemach.Base.Eq.{◌=?◌, string_eq}
use typemach.Base.Map.{Map, get, insert, remove as remove_key, contains_key}
use typemach.Run.{RunId}
use typemach.Error.{Result, ok, err, run_already_active, capacity_exceeded}
-- The unbounded channels of `async_rt::sync::mpsc`, with the state that they live in.
pub mod Keeps
pub mod Ends
pub mod Capacity
pub mod Rewind
pub mod Cancel
mod Checks

pub record Channels (E : Type 0) : Type 1 where
  pub World : Type 0
  pub Sender : Type 0
  pub Receiver : Type 0
  pub unbounded_channel : World → (Sender × Receiver) × World
  -- Whether the message was taken.
  pub send : Sender → E → World → Bool × World

-- `Arc<AtomicBool>`: the number of the flag, which the clones of a handle share.
pub record RunHandle : Type 0 where
  pub token : String
  pub flag : ℕ

-- `stream_sender.into_iter().collect()`.
abbrev pub into_senders : {A : Type 0} → Option A → List A
into_senders none = []
into_senders (some sender) = sender ∷ []

-- `x - 1` on `i64`, which wraps at `i64::MIN`.
unfoldable pub dec : ℤ → ℤ
dec (pos n) = if n == 0 then negsuc 0 else pos (n - 1)
dec (negsuc n) = if ltb (n + 1) i64_bound then negsuc (n + 1) else pos (i64_bound - 1)

module _ {E : Type 0} (C : Channels E) where
  pub record ActiveRun : Type 0 where
    pub handle : RunHandle
    pub current_seq : ℤ
    pub terminal_published : Bool
    pub stream_senders : List C.Sender

  -- The map of the registry, the flags of all handles and the channels. The flags from `fresh` on
  -- belong to no handle yet.
  pub record RunRegistry : Type 0 where
    pub runs : Map RunId ActiveRun
    pub flags : ℕ → Bool
    pub fresh : ℕ
    pub world : C.World

  -- `retain(|sender| sender.send(event.clone()).is_ok())`.
  unfoldable pub send_all : List C.Sender → E → C.World → List C.Sender × C.World
  send_all [] event world = ([], world)
  send_all (sender ∷ senders) event world =
      let (taken, after) = C.send sender event world in
      let (kept, last) = send_all senders event after in
      (if taken then sender ∷ kept else kept, last)

module _ {E : Type 0} {C : Channels E} where
  abbrev pub new : C.World → RunRegistry C
  new world = record { runs = []; flags = λ _. false; fresh = 0; world = world }

  abbrev pub put : RunId → ActiveRun C → RunRegistry C → RunRegistry C
  put run_id run s = record s { runs = insert run_id run s.runs }

  unfoldable pub set_flag : ℕ → Bool → RunRegistry C → RunRegistry C
  set_flag k value s = record s { flags = λ j. if j == k then value else s.flags j }

  -- `RunHandle::new`.
  unfoldable pub new_handle : String → RunRegistry C → RunHandle × RunRegistry C
  new_handle token s = (
    record { token = token; flag = s.fresh },
    set_flag s.fresh false (record s { fresh = s.fresh + 1 }),
  )

  -- `RunHandle::cancel`.
  abbrev pub cancel : RunHandle → RunRegistry C → RunRegistry C
  cancel handle s = set_flag handle.flag true s

  abbrev pub is_cancelled : RunHandle → RunRegistry C → Bool
  is_cancelled handle s = s.flags handle.flag

  unfoldable pub try_insert :
      RunId → RunHandle → Option C.Sender → ℕ → RunRegistry C → Result (Unit {0}) × RunRegistry C
  try_insert run_id handle sender max_in_flight s =
      if contains_key run_id s.runs
      then (err run_already_active, s)
      else if leb max_in_flight (length s.runs)
      then (err capacity_exceeded, s)
      else (
        ok tt,
        put run_id
            (record {
              handle = handle;
              current_seq = pos 0;
              terminal_published = false;
              stream_senders = into_senders sender;
            })
            s,
      )

  unfoldable pub remove : RunId → RunRegistry C → RunRegistry C
  remove run_id s = record s { runs = remove_key run_id s.runs }

  unfoldable pub resolve : RunId → String → RunRegistry C → Option RunHandle
  resolve run_id token s = elim (get run_id s.runs) [
    | none ↦ none
    | some run ↦ if run.handle.token =? token then some run.handle else none
  ]

  unfoldable pub handle : RunId → RunRegistry C → Option RunHandle
  handle run_id s = map_option (λ run. run.handle) (get run_id s.runs)

  unfoldable pub next_seq : RunId → RunRegistry C → Option ℤ × RunRegistry C
  next_seq run_id s = elim (get run_id s.runs) [
    | none ↦ (none, s)
    | some run ↦
        let seq = inc run.current_seq in (some seq, put run_id (record run { current_seq = seq }) s)
  ]

  unfoldable pub rewind_seq : RunId → ℤ → RunRegistry C → Bool × RunRegistry C
  rewind_seq run_id seq s = elim (get run_id s.runs) [
    | none ↦ (false, s)
    | some run ↦
        if int_beq run.current_seq seq
        then (true, put run_id (record run { current_seq = dec run.current_seq }) s)
        else (false, s)
  ]

  unfoldable pub subscribe : RunId → RunRegistry C → Option C.Receiver × RunRegistry C
  subscribe run_id s = elim (get run_id s.runs) [
    | none ↦ (none, s)
    | some run ↦
        if run.terminal_published
        then (none, s)
        else let ((sender, receiver), world) = C.unbounded_channel s.world in
          let senders = run.stream_senders ++ sender ∷ [] in
          (
            some receiver,
            put run_id (record run { stream_senders = senders }) (record s { world = world }),
          )
  ]

  unfoldable pub request_cancel : RunId → RunRegistry C → Option RunHandle × RunRegistry C
  request_cancel run_id s = elim (handle run_id s) [
    | none ↦ (none, s)
    | some found ↦ (some found, cancel found s)
  ]

  abbrev pub len : RunRegistry C → ℕ
  len s = length s.runs

  abbrev pub is_empty : RunRegistry C → Bool
  is_empty s = len s == 0

  -- The sends of an event, after which the run is as given but for its senders.
  unfoldable pub broadcast : RunId → ActiveRun C → E → RunRegistry C → RunRegistry C
  broadcast run_id run event s =
      let (kept, world) = send_all C run.stream_senders event s.world in
      put run_id (record run { stream_senders = kept }) (record s { world = world })

  unfoldable pub publish : RunId → E → RunRegistry C → RunRegistry C
  publish run_id event s = elim (get run_id s.runs) [
    | none ↦ s
    | some run ↦ if run.terminal_published then s else broadcast run_id run event s
  ]

  unfoldable pub publish_terminal : RunId → E → RunRegistry C → Bool × RunRegistry C
  publish_terminal run_id event s = elim (get run_id s.runs) [
    | none ↦ (false, s)
    | some run ↦
        if run.terminal_published
        then (false, s)
        else (true, broadcast run_id (record run { terminal_published = true }) event s)
  ]

-- The calls that change a registry, and what goes on in its channels meanwhile.
pub data Request {E : Type 0} (C : Channels E) : Type 0 where
  opens : String → Request C
  cancels_handle : RunHandle → Request C
  inserts : RunId → RunHandle → Option C.Sender → ℕ → Request C
  removes : RunId → Request C
  sequences : RunId → Request C
  rewinds : RunId → ℤ → Request C
  subscribes : RunId → Request C
  cancels : RunId → Request C
  publishes : RunId → E → Request C
  ends : RunId → E → Request C
  elsewhere : (C.World → C.World) → Request C

module _ {E : Type 0} {C : Channels E} where
  unfoldable pub serve : Request C → RunRegistry C → RunRegistry C
  serve (opens token) s = (new_handle token s).1
  serve (cancels_handle handle) s = cancel handle s
  serve (inserts run_id handle sender max_in_flight) s =
      (try_insert run_id handle sender max_in_flight s).1
  serve (removes run_id) s = remove run_id s
  serve (sequences run_id) s = (next_seq run_id s).1
  serve (rewinds run_id seq) s = (rewind_seq run_id seq s).1
  serve (subscribes run_id) s = (subscribe run_id s).1
  serve (cancels run_id) s = (request_cancel run_id s).1
  serve (publishes run_id event) s = publish run_id event s
  serve (ends run_id event) s = (publish_terminal run_id event s).1
  serve (elsewhere change) s = record s { world = change s.world }

  unfoldable pub serve_all : List (Request C) → RunRegistry C → RunRegistry C
  serve_all [] s = s
  serve_all (call ∷ calls) s = serve_all calls (serve call s)
