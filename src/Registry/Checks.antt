-- ===== src/Registry/Checks.antt =====
-- Registries at concrete runs, with channels that keep a log of what was sent.
use typemach.Base.{ℕ, none, some, true, false, List, [], ◌∷◌, ◌≡◌, ◌≤◌, refl, length, arith}
use typemach.Base.Int.{pos}
use typemach.Base.Eq.{string_eq}
use typemach.Base.Map.{get}
use typemach.Registry.{
  Channels, RunHandle, ActiveRun, RunRegistry, Request, opens, inserts, removes, sequences,
  publishes, ends, subscribes, cancels, serve_all, new, publish, publish_terminal, subscribe,
  next_seq, rewind_seq, request_cancel, is_cancelled,
}
use typemach.Registry.Ends.{publish_terminal-final}
use typemach.Registry.Capacity.{serve_all-capacity}
use typemach.Registry.Cancel.{request_cancel-lasts}

-- Every sender logs what it sends.
abbrev log : Channels ℕ
log = record {
  World = List (ℕ × ℕ);
  Sender = ℕ;
  Receiver = ℕ;
  unbounded_channel = λ world. ((1, 1), world);
  send = λ sender event world. (true, (sender, event) ∷ world);
}

abbrev handle : RunHandle
handle = record { token = "token"; flag = 0 }

abbrev active : ActiveRun log
active = record {
  handle = handle;
  current_seq = pos 2;
  terminal_published = false;
  stream_senders = 1 ∷ 2 ∷ [];
}

-- One run, whose handle is the only one.
abbrev one : RunRegistry log
one = record { runs = ("run", active) ∷ []; flags = λ _. false; fresh = 1; world = [] }

abbrev others : List (Request log)
others =
    opens "other"
    ∷ inserts "other" handle none 4
    ∷ subscribes "run"
    ∷ publishes "run" 5
    ∷ removes "other"
    ∷ []

end-made : (publish_terminal "run" 9 one).0 ≡ true
unfolding publish_terminal get
end-made = refl

publish_terminal-final_example :
    let t = serve_all others (publish_terminal "run" 9 one).1 in
    (publish "run" 7 t ≡ t)
    × (publish_terminal "run" 7 t ≡ (false, t))
    × (subscribe "run" t ≡ (none, t))
publish_terminal-final_example =
    publish_terminal-final "run" 9 7 others one end-made
      ((λ h. cc), ((λ h. cc), ((λ h. cc), ((λ h. cc), ((λ h. cc), tt)))))

-- The terminal event goes to each sender.
publish_terminal-sends : (publish_terminal "run" 9 one).1.world ≡ (2, 9) ∷ (1, 9) ∷ []
unfolding publish_terminal get typemach.Registry.broadcast typemach.Registry.send_all
publish_terminal-sends = refl

abbrev crowd : List (Request log)
crowd = inserts "a" handle none 1 ∷ inserts "b" handle none 1 ∷ sequences "a" ∷ []

serve_all-capacity_example : length (serve_all crowd (new [])).runs ≤ 1
serve_all-capacity_example = serve_all-capacity 1 crowd [] (refl, (refl, (tt, tt)))

cancel-made : (request_cancel "run" one).0 ≡ some handle
unfolding request_cancel typemach.Registry.handle get
cancel-made = refl

request_cancel-lasts_example :
    is_cancelled handle (serve_all others (request_cancel "run" one).1) ≡ true
request_cancel-lasts_example =
    request_cancel-lasts "run" handle others one cancel-made (omega arith)
