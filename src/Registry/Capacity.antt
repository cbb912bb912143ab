-- ===== src/Registry/Capacity.antt =====
-- The number of runs in flight, src/registry.rs.
use mathlib.Core.Path.{subst}
use typemach.Base.{ℕ, none, some, false, List, [], ◌∷◌, ◌≡◌, ◌≤◌, ◌+◌, refl, length, leb, arith}
use typemach.Base.Eq.{Eq, string_eq}
use typemach.Base.Map.{Map, get, insert, remove as remove_key}
use typemach.Registry.{Channels, RunRegistry, Request, inserts, serve, serve_all, new}
use typemach.Registry.Keeps.{change_cases}

module _ {K : Type 0} {V : Type 0} ⦃e : Eq K⦄ where
  length-insert_found :
      (k : K) (v : V) (m : Map K V) (old : V)
      → get k m ≡ some old
      → length (insert k v m) ≡ length m
  unfolding get insert
  length-insert_found k v [] old h = absurd (cc)
  length-insert_found k v ((j, w) ∷ m) old h = ground (arith, length-insert_found k v m old)

  length-insert_absent :
      (k : K) (v : V) (m : Map K V) → get k m ≡ none → length (insert k v m) ≡ length m + 1
  unfolding get insert
  length-insert_absent k v [] h = refl
  length-insert_absent k v ((j, w) ∷ m) h = ground (arith, length-insert_absent k v m)

  length-remove : (k : K) (m : Map K V) → length (remove_key k m) ≤ length m
  unfolding remove_key
  length-remove k [] = ground arith
  length-remove k ((j, w) ∷ m) = ground (arith, length-remove k m)

room_left : (max limit n : ℕ) → max ≡ limit → leb max n ≡ false → n + 1 ≤ limit
room_left max limit n asks room = ground arith

module _ {E : Type 0} {C : Channels E} where
  -- An insertion asks for this capacity.
  abbrev pub Asks : ℕ → Request C → Type 0
  Asks limit (inserts k handle sender max) = max ≡ limit
  Asks limit _ = Unit {0}

  abbrev pub Limited : ℕ → List (Request C) → Type 0
  Limited limit [] = Unit {0}
  Limited limit (call ∷ calls) = Asks limit call × Limited limit calls

  serve-length :
      (limit : ℕ) (call : Request C) (s : RunRegistry C)
      → Asks limit call
      → length s.runs ≤ limit
      → length (serve call s).runs ≤ limit
  serve-length limit call s h fits =
      change_cases call s (λ m. length m ≤ limit) fits
        (λ k old new found later. rw (length-insert_found k new s.runs old found) fits)
        (λ k handle sender max new is absent room.
          let asks : max ≡ limit = subst (Asks limit) is h in
          rw (length-insert_absent k new s.runs absent)
            (room_left max limit (length s.runs) asks room))
        λ k is. omega (arith, length-remove k s.runs, fits)

  serve_all-length :
      (limit : ℕ) (calls : List (Request C)) (s : RunRegistry C)
      → Limited limit calls
      → length s.runs ≤ limit
      → length (serve_all calls s).runs ≤ limit
  unfolding serve_all
  serve_all-length limit [] s h fits = fits
  serve_all-length limit (call ∷ calls) s (asks, rest) fits =
      serve_all-length limit calls (serve call s) rest (serve-length limit call s asks fits)

  -- A registry that starts empty and whose insertions all ask for the same capacity never holds
  -- more runs than that.
  pub serve_all-capacity :
      (limit : ℕ) (calls : List (Request C)) (world : C.World)
      → Limited limit calls
      → length (serve_all calls (new {C = C} world)).runs ≤ limit
  serve_all-capacity limit calls world h = serve_all-length limit calls (new world) h (ground arith)
