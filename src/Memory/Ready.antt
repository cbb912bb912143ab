-- ===== src/Memory/Ready.antt =====
-- Updates of effects that have passed the checks, and their writes.
use typemach.Base.{
  String, none, some, false, List, [], ◌∷◌, ◌≡◌, refl, sym, ap, ◌≢◌, inl, inr, arith, Option-cases,
  Bool-cases, All, any, ◌&&◌, ◌∙◌,
}
use typemach.Base.Int.{ℤ}
use typemach.Base.Eq.{Eq, ◌=?◌, string_eq, pair_eq, triple_eq, ne_of_beq}
use typemach.Base.Map.{get, insert, get-insert_ne}
use typemach.Base.Grow.{MapGrows-refl, MapGrows-insert, Same}
use typemach.Run.{RunId}
use typemach.Op.{Effect, EffectUpdate, is_done}
use typemach.Error.{Result, ok, >>=-eq-ok}
use typemach.Params.{Params}
use typemach.Memory.State.{Inner}
use typemach.Memory.Ops.{
  contradicts, is_unsettled, validate_effect_update, validate_effects_after, updated_effect,
  apply_effect_update, apply_effect_updates,
}
use typemach.Memory.Grows.{
  RunGrows, RunGrows-refl, EffectGrows, EffectGrows-refl, Grows, Grows-refl, Grows-trans,
}

module _ {V : Type 0} where
  abbrev Apart : List (EffectUpdate V) → List (EffectUpdate V) → Type 0
  Apart seen us = All (λ w. any (λ prev. prev.key =? w.key) seen ≡ false) us

  Apart-head :
      (u : EffectUpdate V) (seen us : List (EffectUpdate V))
      → Apart (u ∷ seen) us
      → All (λ w. (u.key =? w.key) ≡ false) us × Apart seen us
  Apart-head u seen [] h = (tt, tt)
  Apart-head u seen (w ∷ us) h =
      let (here, rest) = Apart-head u seen us h.1 in ((ground arith, here), (ground arith, rest))

module _ {V : Type 0} ⦃e : Eq V⦄ where
  -- An update that is not skipped keeps what an effect keeps.
  updated_effect-EffectGrows :
      (now : ℤ) (effect : Effect V) (u : EffectUpdate V)
      → contradicts effect u ≡ false
      → (is_done effect.status && is_done u.status) ≡ false
      → EffectGrows effect (updated_effect now effect u)
  unfolding contradicts updated_effect
  updated_effect-EffectGrows now effect u agrees written = record {
    kind = refl;
    request = refl;
    created_at = refl;
    done = λ d. ground arith;
  }

module _ {P : Params} where
  -- The update fits the effect that is stored.
  abbrev pub Settles : Inner P → RunId → EffectUpdate P.Value → Type 0
  Settles s run_id u =
      (effect : Effect P.Value) × (get (run_id, u.key) s.effects ≡ some effect)
      × (is_unsettled u.status ≡ false)
      × (contradicts ⦃e = P.value_eq⦄ effect u ≡ false)

  -- Each update fits, and no two of them name the same effect.
  abbrev pub Ready : Inner P → RunId → List (EffectUpdate P.Value) → Type 0
  Ready s run_id [] = Unit
  Ready s run_id (u ∷ us) =
      Settles s run_id u × All (λ w. (u.key =? w.key) ≡ false) us × Ready s run_id us

  -- What a check of an update establishes.
  pub Settles-of_ok :
      (s : Inner P) (run_id : RunId) (seen : List (EffectUpdate P.Value)) (u : EffectUpdate P.Value)
      → validate_effect_update s run_id seen u ≡ ok tt
      → Settles s run_id u × (any (λ prev. prev.key =? u.key) seen ≡ false)
  unfolding validate_effect_update
  Settles-of_ok s run_id seen u h = elim (Option-cases (get (run_id, u.key) s.effects)) [
    | inl missing ↦ ground arith
    | inr (effect, found) ↦ ((effect, found, ground arith, ground arith), ground arith)
  ]

  validated :
      (s : Inner P) (run_id : RunId) (seen us : List (EffectUpdate P.Value))
      → validate_effects_after s run_id seen us ≡ ok tt
      → Ready s run_id us × Apart seen us
  unfolding validate_effects_after
  validated s run_id seen [] h = (tt, tt)
  validated s run_id seen (u ∷ us) h =
      let (first, checked, rest) =
        >>=-eq-ok (validate_effect_update s run_id seen u)
          (λ _. validate_effects_after s run_id (u ∷ seen) us) h in
      let (settles, fresh) = Settles-of_ok s run_id seen u checked in
      let (ready, apart) = validated s run_id (u ∷ seen) us rest in
      let (here, below) = Apart-head u seen us apart in ((settles, here, ready), (fresh, below))

  -- What the loop of checks has let through is ready to be written.
  pub Ready-of_ok :
      (s : Inner P) (run_id : RunId) (us : List (EffectUpdate P.Value))
      → validate_effects_after s run_id [] us ≡ ok tt
      → Ready s run_id us
  Ready-of_ok s run_id us h = (validated s run_id [] us h).0

  -- A write under another key leaves an update ready.
  Ready-after_write :
      (s : Inner P) (run_id : RunId) (key : String) (effect : Effect P.Value)
      (us : List (EffectUpdate P.Value))
      → All (λ w. (key =? w.key) ≡ false) us
      → Ready s run_id us
      → Ready (record s { effects = insert (run_id, key) effect s.effects }) run_id us
  Ready-after_write s run_id key effect [] apart ready = tt
  Ready-after_write s run_id key effect (w ∷ us) apart ready =
      let (settled, distinct, rest) = ready in
      let (old, found, unsettled, agrees) = settled in
      let other : (run_id, w.key) ≢ (run_id, key) =
        λ p. ne_of_beq key w.key apart.0 (sym (ap (λ t. t.1) p)) in
      (
        (
          old,
          get-insert_ne (run_id, w.key) (run_id, key) effect s.effects other ∙ found,
          unsettled,
          agrees,
        ),
        distinct,
        Ready-after_write s run_id key effect us apart.1 rest,
      )

  -- A new effect.
  pub put_new-Grows :
      (s : Inner P) (key : RunId × String) (new : Effect P.Value)
      → get key s.effects ≡ none
      → Grows s (record s { effects = insert key new s.effects })
  put_new-Grows s key new fresh = record {
    sessions = MapGrows-refl Same (λ _. refl) s.sessions;
    runs = MapGrows-refl RunGrows RunGrows-refl s.runs;
    entries = MapGrows-refl Same (λ _. refl) s.entries;
    effects = MapGrows-insert EffectGrows EffectGrows-refl key new s.effects (λ v h. absurd (cc));
    items = MapGrows-refl Same (λ _. refl) s.items;
  }

  pub put-Grows :
      (s : Inner P) (key : RunId × String) {old : Effect P.Value} (new : Effect P.Value)
      → get key s.effects ≡ some old
      → EffectGrows old new
      → Grows s (record s { effects = insert key new s.effects })
  put-Grows s key {old} new found grows = record {
    sessions = MapGrows-refl Same (λ _. refl) s.sessions;
    runs = MapGrows-refl RunGrows RunGrows-refl s.runs;
    entries = MapGrows-refl Same (λ _. refl) s.entries;
    effects =
        MapGrows-insert EffectGrows EffectGrows-refl key new s.effects
          (λ v h. let same : v ≡ old = cc in rw same grows);
    items = MapGrows-refl Same (λ _. refl) s.items;
  }

  -- What one write leaves behind.
  abbrev Wrote :
      Inner P → RunId → List (EffectUpdate P.Value) → Result (Unit {0}) × Inner P → Type 0
  Wrote s run_id us (r, t) = (r ≡ ok tt) × Grows s t × Ready t run_id us

  apply_one :
      (now : ℤ) (run_id : RunId) (u : EffectUpdate P.Value) (us : List (EffectUpdate P.Value))
      (s : Inner P)
      → Ready s run_id (u ∷ us)
      → Wrote s run_id us (apply_effect_update now run_id u s)
  unfolding apply_effect_update
  apply_one now run_id u us s ((old, found, unsettled, agrees), distinct, rest) =
      elim (Bool-cases (is_done old.status && is_done u.status)) [
        | inl again ↦ rw (found, apply_effect_update, again) (refl, Grows-refl s, rest)
        | inr fresh ↦
            rw (found, apply_effect_update, fresh)
              (
                refl,
                put-Grows s (run_id, u.key) _ found
                    (updated_effect-EffectGrows ⦃e = P.value_eq⦄ now old u agrees fresh),
                Ready-after_write s run_id u.key _ us distinct rest,
              )
      ]

  -- Updates that are ready are written to the end, and take nothing back.
  pub apply_effect_updates-Ready :
      (now : ℤ) (run_id : RunId) (us : List (EffectUpdate P.Value)) (s : Inner P)
      → Ready s run_id us
      → let (r, t) = apply_effect_updates now run_id us s in (r ≡ ok tt) × Grows s t
  unfolding apply_effect_updates
  apply_effect_updates-Ready now run_id [] s ready = (refl, Grows-refl s)
  apply_effect_updates-Ready now run_id (u ∷ us) s ready =
      let (r, t) = apply_effect_update now run_id u s in
      let (passed, grows, rest) = apply_one now run_id u us s ready in
      let (done, grown) = apply_effect_updates-Ready now run_id us t rest in
      rw (passed, apply_effect_updates) (done, Grows-trans s t _ grows grown)
