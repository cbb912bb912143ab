-- ===== src/Memory/Fits.antt =====
-- What stands in the store of an effect, an item or an entry that a commit has written,
-- src/store/memory/op.rs.
use mathlib.Core.Path.{subst}
use typemach.Base.{
  String, Option, none, some, true, false, List, ◌∷◌, All, any, ◌&&◌, ◌≡◌, ◌≢◌, refl, sym, ap, inl,
  inr, Bool-cases, Option-cases, arith,
}
use typemach.Base.Int.{ℤ}
use typemach.Base.Eq.{Eq, ◌=?◌, string_eq, pair_eq, triple_eq, option_beq_iff}
use typemach.Base.Map.{get, get-insert_self, get-insert_ne}
use typemach.Run.{RunId, SessionId, ThreadId}
use typemach.Error.{ok, >>=-eq-ok}
use typemach.Op.{
  EffectStatus, reserved, started, done, failed, unknown, is_done, Effect, EffectUpdate, Item,
  ItemWrite, Entry, EntryWrite, Vis, vis_beq, public, internal,
}
use typemach.Params.{Params}
use typemach.Memory.State.{Inner}
use typemach.Memory.Ops.{
  contradicts, item_agrees, entry_agrees, validate_effect_update, validate_effects_after,
  validate_effect_updates, validate_items_after, validate_items, validate_entries_after,
  validate_entries, updated_effect, new_item, new_entry, apply_effect_update, apply_effect_updates,
  apply_item, apply_items, apply_entry, apply_entries,
}
use typemach.Memory.Ready.{Settles-of_ok}
use typemach.Memory.Spared.{apply_effect_update-apart}
use typemach.Memory.Writes.{write_all_lem, loop-passes}

done-same : (a b : EffectStatus) → is_done a ≡ true → is_done b ≡ true → a ≡ b
done-same done done h k = refl
done-same done reserved h k = cc
done-same done started h k = cc
done-same done failed h k = cc
done-same done unknown h k = cc
done-same reserved b h k = cc
done-same started b h k = cc
done-same failed b h k = cc
done-same unknown b h k = cc

vis-same : (a b : Vis) → vis_beq a b ≡ true → a ≡ b
vis-same public public h = refl
vis-same public internal h = cc
vis-same internal public h = cc
vis-same internal internal h = refl

module _ {V : Type 0} where
  -- The effect has the status and the result of the update.
  abbrev pub EffectFits : EffectUpdate V → Option (Effect V) → Type 0
  EffectFits u none = ⊥
  EffectFits u (some effect) = (effect.status ≡ u.status) × (effect.result ≡ u.result)

  abbrev pub ItemFits : ItemWrite V → Option (Item V) → Type 0
  ItemFits w none = ⊥
  ItemFits w (some item) = (item.kind ≡ w.kind) × (item.body ≡ w.body)

  abbrev pub EntryFits : EntryWrite V → Option (Entry V) → Type 0
  EntryFits w none = ⊥
  EntryFits w (some entry) = (entry.kind ≡ w.kind) × (entry.vis ≡ w.vis) × (entry.body ≡ w.body)

module _ {V : Type 0} ⦃e : Eq V⦄ where
  -- The stored effect is one that the update may settle.
  abbrev EffectAgrees : EffectUpdate V → Option (Effect V) → Type 0
  EffectAgrees u none = ⊥
  EffectAgrees u (some effect) = contradicts effect u ≡ false

  abbrev ItemAgrees : ItemWrite V → Option (Item V) → Type 0
  ItemAgrees w o = item_agrees w o ≡ true

  abbrev EntryAgrees : EntryWrite V → Option (Entry V) → Type 0
  EntryAgrees w o = entry_agrees w o ≡ true

module _ {P : Params} where
  effect-own :
      (now : ℤ) (run_id : RunId) (u : EffectUpdate P.Value) (s : Inner P)
      → EffectAgrees ⦃e = P.value_eq⦄ u (get (run_id, u.key) s.effects)
      → EffectFits u (get (run_id, u.key) (apply_effect_update now run_id u s).1.effects)
  unfolding apply_effect_update updated_effect contradicts
  effect-own now run_id u s agrees = elim (Option-cases (get (run_id, u.key) s.effects)) [
    | inl missing ↦ absurd (rw missing at agrees)
    | inr (old, found) ↦
        let same : contradicts ⦃e = P.value_eq⦄ old u ≡ false = rw found at agrees in
        elim (Bool-cases (is_done old.status && is_done u.status)) [
          | inl again ↦
              let first : is_done old.status ≡ true = ground arith in
              let second : is_done u.status ≡ true = ground arith in
              let result = (option_beq_iff ⦃a = P.value_eq⦄ old.result u.result).0 (ground arith) in
              rw (found, apply_effect_update, again)
                (rw found (done-same old.status u.status first second, result))
          | inr fresh ↦
              rw (found, apply_effect_update, fresh)
                (rw (get-insert_self (run_id, u.key) (updated_effect now old u) s.effects)
                  (refl, refl))
        ]
  ]

  item-own :
      (now : ℤ) (run_id : RunId) (w : ItemWrite P.Value) (s : Inner P)
      → ItemAgrees ⦃e = P.value_eq⦄ w (get (run_id, w.key) s.items)
      → ItemFits w (get (run_id, w.key) (apply_item now run_id w s).items)
  unfolding apply_item new_item item_agrees
  item-own now run_id w s agrees = elim (Option-cases (get (run_id, w.key) s.items)) [
    | inl missing ↦
        rw (missing, apply_item)
          (rw (get-insert_self (run_id, w.key) (new_item now run_id w) s.items) (refl, refl))
    | inr (old, found) ↦
        let same : item_agrees ⦃e = P.value_eq⦄ w (some old) ≡ true = rw found at agrees in
        rw (found, apply_item)
          (rw found (
            (string_eq.beq_iff old.kind w.kind).0 (ground arith),
            (P.value_eq.beq_iff old.body w.body).0 (ground arith),
          ))
  ]

  entry-own :
      (now : ℤ) (scope : String) (run_id : RunId) (session : SessionId) (thread : ThreadId)
      (w : EntryWrite P.Value) (s : Inner P)
      → EntryAgrees ⦃e = P.value_eq⦄ w (get (scope, session, w.key) s.entries)
      → EntryFits w
          (get (scope, session, w.key) (apply_entry now scope run_id session thread w s).entries)
  unfolding apply_entry new_entry entry_agrees
  entry-own now scope run_id session thread w s agrees =
      elim (Option-cases (get (scope, session, w.key) s.entries)) [
        | inl missing ↦
            rw (missing, apply_entry)
              (rw
                (get-insert_self (scope, session, w.key) (new_entry now run_id session thread _ w)
                  s.entries)
                (refl, refl, refl))
        | inr (old, found) ↦
            let same : entry_agrees ⦃e = P.value_eq⦄ w (some old) ≡ true = rw found at agrees in
            rw (found, apply_entry)
              (rw found (
                (string_eq.beq_iff old.kind w.kind).0 (ground arith),
                vis-same old.vis w.vis (ground arith),
                (P.value_eq.beq_iff old.body w.body).0 (ground arith),
              ))
      ]

  item-others :
      (now : ℤ) (run_id : RunId) (w : ItemWrite P.Value) (s : Inner P) (k : RunId × String)
      → k ≢ (run_id, w.key)
      → get k (apply_item now run_id w s).items ≡ get k s.items
  unfolding apply_item
  item-others now run_id w s k other = elim (Option-cases (get (run_id, w.key) s.items)) [
    | inl missing ↦ rw (missing, apply_item) (get-insert_ne k (run_id, w.key) _ s.items other)
    | inr (old, found) ↦ rw (found, apply_item) refl
  ]

  entry-others :
      (now : ℤ) (scope : String) (run_id : RunId) (session : SessionId) (thread : ThreadId)
      (w : EntryWrite P.Value) (s : Inner P) (k : String × SessionId × String)
      → k ≢ (scope, session, w.key)
      → get k (apply_entry now scope run_id session thread w s).entries ≡ get k s.entries
  unfolding apply_entry
  entry-others now scope run_id session thread w s k other =
      elim (Option-cases (get (scope, session, w.key) s.entries)) [
        | inl missing ↦
            rw (missing, apply_entry) (get-insert_ne k (scope, session, w.key) _ s.entries other)
        | inr (old, found) ↦ rw (found, apply_entry) refl
      ]

  effect-passes :
      (now : ℤ) (run_id : RunId) (u : EffectUpdate P.Value) (s : Inner P)
      → EffectAgrees ⦃e = P.value_eq⦄ u (get (run_id, u.key) s.effects)
      → (apply_effect_update now run_id u s).0 ≡ ok tt
  unfolding apply_effect_update
  effect-passes now run_id u s agrees = elim (Option-cases (get (run_id, u.key) s.effects)) [
    | inl missing ↦ absurd (rw missing at agrees)
    | inr (old, found) ↦ elim (Bool-cases (is_done old.status && is_done u.status)) [
      | inl again ↦ rw (found, apply_effect_update, again) refl
      | inr fresh ↦ rw (found, apply_effect_update, fresh) refl
    ]
  ]

  effects-next :
      (now : ℤ) (run_id : RunId) (u : EffectUpdate P.Value) (us : List (EffectUpdate P.Value))
      (s : Inner P)
      → EffectAgrees ⦃e = P.value_eq⦄ u (get (run_id, u.key) s.effects)
      → (apply_effect_updates now run_id (u ∷ us) s).1
        ≡ (apply_effect_updates now run_id us (apply_effect_update now run_id u s).1).1
  unfolding apply_effect_updates
  effects-next now run_id u us s agrees =
      rw (effect-passes now run_id u s agrees, apply_effect_updates) refl

  -- What a round of the checks establishes.
  effect-round :
      (s : Inner P) (run_id : RunId) (seen : List (EffectUpdate P.Value)) (u : EffectUpdate P.Value)
      (us : List (EffectUpdate P.Value))
      → validate_effects_after s run_id seen (u ∷ us) ≡ ok tt
      → (any (λ prev. prev.key =? u.key) seen ≡ false)
        × EffectAgrees ⦃e = P.value_eq⦄ u (get (run_id, u.key) s.effects)
        × (validate_effects_after s run_id (u ∷ seen) us ≡ ok tt)
  unfolding validate_effects_after
  effect-round s run_id seen u us h =
      let (_, checked, more) = >>=-eq-ok (validate_effect_update s run_id seen u) _ h in
      let ((old, found, _, agrees), fresh) = Settles-of_ok s run_id seen u checked in
      (fresh, rw found agrees, more)

  item-round :
      (s : Inner P) (run_id : RunId) (seen : List (ItemWrite P.Value)) (w : ItemWrite P.Value)
      (ws : List (ItemWrite P.Value))
      → validate_items_after s run_id seen (w ∷ ws) ≡ ok tt
      → (any (λ prev. prev.key =? w.key) seen ≡ false)
        × ItemAgrees ⦃e = P.value_eq⦄ w (get (run_id, w.key) s.items)
        × (validate_items_after s run_id (w ∷ seen) ws ≡ ok tt)
  unfolding validate_items_after
  item-round s run_id seen w ws h = (ground arith, ground arith, ground arith)

  entry-round :
      (s : Inner P) (scope : String) (session : SessionId) (seen : List (EntryWrite P.Value))
      (w : EntryWrite P.Value) (ws : List (EntryWrite P.Value))
      → validate_entries_after s scope session seen (w ∷ ws) ≡ ok tt
      → (any (λ prev. prev.key =? w.key) seen ≡ false)
        × EntryAgrees ⦃e = P.value_eq⦄ w (get (scope, session, w.key) s.entries)
        × (validate_entries_after s scope session (w ∷ seen) ws ≡ ok tt)
  unfolding validate_entries_after
  entry-round s scope session seen w ws h = (ground arith, ground arith, ground arith)

  pub effects-fit :
      (now : ℤ) (run_id : RunId) (us : List (EffectUpdate P.Value)) (s t : Inner P)
      → validate_effect_updates s run_id us ≡ ok tt
      → t.effects ≡ s.effects
      → All
          (λ u. EffectFits u (get (run_id, u.key) (apply_effect_updates now run_id us t).1.effects))
          us
  unfolding apply_effect_updates validate_effects_after
  effects-fit now run_id us s t h same =
      let key : EffectUpdate P.Value → RunId × String = λ u. (run_id, u.key) in
      let (agree, distinct) =
        loop-passes key (λ u. u.key) (λ u v p. ap (λ k. k.1) p) (validate_effects_after s run_id)
          (λ u. EffectAgrees ⦃e = P.value_eq⦄ u (get (run_id, u.key) s.effects))
          (effect-round s run_id) us h in
      let still =
        subst (λ m. All (λ u. EffectAgrees ⦃e = P.value_eq⦄ u (get (run_id, u.key) m)) us)
          (sym same) agree in
      write_all_lem (λ k q. get k q.effects) key (λ u q. (apply_effect_update now run_id u q).1)
        (λ vs q. (apply_effect_updates now run_id vs q).1) (EffectAgrees ⦃e = P.value_eq⦄)
        EffectFits (λ q. refl) (effects-next now run_id) (effect-own now run_id)
        (apply_effect_update-apart now run_id) us t distinct still

  pub items-fit :
      (now : ℤ) (run_id : RunId) (ws : List (ItemWrite P.Value)) (s t : Inner P)
      → validate_items s run_id ws ≡ ok tt
      → t.items ≡ s.items
      → All (λ w. ItemFits w (get (run_id, w.key) (apply_items now run_id ws t).items)) ws
  unfolding apply_items validate_items_after
  items-fit now run_id ws s t h same =
      let key : ItemWrite P.Value → RunId × String = λ w. (run_id, w.key) in
      let (agree, distinct) =
        loop-passes key (λ w. w.key) (λ w v p. ap (λ k. k.1) p) (validate_items_after s run_id)
          (λ w. ItemAgrees ⦃e = P.value_eq⦄ w (get (run_id, w.key) s.items)) (item-round s run_id)
          ws h in
      let still =
        subst (λ m. All (λ w. ItemAgrees ⦃e = P.value_eq⦄ w (get (run_id, w.key) m)) ws) (sym same)
          agree in
      write_all_lem (λ k q. get k q.items) key (apply_item now run_id) (apply_items now run_id)
        (ItemAgrees ⦃e = P.value_eq⦄) ItemFits (λ q. refl) (λ w vs q _. refl) (item-own now run_id)
        (item-others now run_id) ws t distinct still

  pub entries-fit :
      (now : ℤ) (scope : String) (run_id : RunId) (session : SessionId) (thread : ThreadId)
      (ws : List (EntryWrite P.Value)) (s t : Inner P)
      → validate_entries s scope session ws ≡ ok tt
      → t.entries ≡ s.entries
      → All
          (λ w. EntryFits w (
            get
              (scope, session, w.key)
              (apply_entries now scope run_id session thread ws t).entries))
          ws
  unfolding apply_entries validate_entries_after
  entries-fit now scope run_id session thread ws s t h same =
      let key : EntryWrite P.Value → String × SessionId × String = λ w. (scope, session, w.key) in
      let (agree, distinct) =
        loop-passes key (λ w. w.key) (λ w v p. ap (λ k. k.2) p)
          (validate_entries_after s scope session)
          (λ w. EntryAgrees ⦃e = P.value_eq⦄ w (get (scope, session, w.key) s.entries))
          (entry-round s scope session) ws h in
      let still =
        subst (λ m. All (λ w. EntryAgrees ⦃e = P.value_eq⦄ w (get (scope, session, w.key) m)) ws)
          (sym same) agree in
      write_all_lem (λ k q. get k q.entries) key (apply_entry now scope run_id session thread)
        (apply_entries now scope run_id session thread) (EntryAgrees ⦃e = P.value_eq⦄) EntryFits
        (λ q. refl) (λ w vs q _. refl) (entry-own now scope run_id session thread)
        (entry-others now scope run_id session thread) ws t distinct still
