-- ===== src/Runtime/Tidy.antt =====
-- What the operations of a run leave pending, src/runtime/tx/op.rs.
use typemach.Base.{true, List, [], ◌∷◌, ◌≡◌, refl, sym, ap, ◌∙◌, inl, inr}
use mathlib.Core.Path.{subst}
use typemach.Base.Eq.{Eq, string_eq, beq_refl, option_eq}
use typemach.Run.{RunId}
use typemach.Error.{
  Result, ok, err, Result-cases, MachineError, effect_conflict, item_conflict, entry_conflict,
}
use typemach.Params.{Params}
use typemach.Op.{EffectUpdate, effect_status_as_str}
use typemach.Store.Interface.{RunStore}
use typemach.Runtime.Pending.{PendingOps, push, update_beq, item_beq, entry_beq}
use typemach.Runtime.Ops.{
  TxRunOps, Pending, pushes_effect, pushes_item, pushes_entry, pushes_live_entry, takes,
  push_effect, push_item, push_entry, push_live_entry, take, check_run, serve_op, serve_ops,
}
use typemach.Runtime.Keyed.{Distinct, push-Distinct, push-again}

-- Of each kind, no key has two writes pending.
abbrev pub Tidy : {V : Type 0} → PendingOps V → Type 0
Tidy p =
    Distinct (λ u. u.key) p.effects
    × Distinct (λ i. i.key) p.items
    × Distinct (λ e. e.key) p.entries

module _ {V : Type 0} ⦃e : Eq V⦄ where
  update_beq_refl : (u : EffectUpdate V) → update_beq u u ≡ true
  unfolding update_beq
  update_beq_refl u =
      rw
        (
          update_beq,
          beq_refl u.key,
          beq_refl (effect_status_as_str u.status),
          beq_refl u.result,
          beq_refl u.error_code,
          beq_refl u.error_message,
        )
        refl

module _ {P : Params} {S : RunStore P} where
  serve_op-Tidy :
      (call : Pending P) (s : TxRunOps S) → Tidy s.pending → Tidy (serve_op call s).1.pending
  unfolding serve_op push_effect push_item push_entry push_live_entry take
  serve_op-Tidy (pushes_effect run_id update) s (effects, items, entries) =
      elim (Result-cases (check_run run_id s)) [
        | inl (e, other) ↦ rw (other, serve_op, push_effect) (effects, items, entries)
        | inr (_, own) ↦
            rw (own, serve_op, push_effect)
              (
                push-Distinct (λ u. u.key) (update_beq ⦃e = P.value_eq⦄) effect_conflict update
                    s.pending.effects effects,
                items,
                entries,
              )
      ]
  serve_op-Tidy (pushes_item run_id item) s (effects, items, entries) =
      elim (Result-cases (check_run run_id s)) [
        | inl (e, other) ↦ rw (other, serve_op, push_item) (effects, items, entries)
        | inr (_, own) ↦
            rw (own, serve_op, push_item)
              (
                effects,
                push-Distinct (λ i. i.key) (item_beq ⦃e = P.value_eq⦄) item_conflict item
                    s.pending.items items,
                entries,
              )
      ]
  serve_op-Tidy (pushes_entry run_id entry) s (effects, items, entries) =
      elim (Result-cases (check_run run_id s)) [
        | inl (e, other) ↦ rw (other, serve_op, push_entry) (effects, items, entries)
        | inr (_, own) ↦
            rw (own, serve_op, push_entry)
              (
                effects,
                items,
                push-Distinct (λ e. e.key) (entry_beq ⦃e = P.value_eq⦄) entry_conflict entry
                    s.pending.entries entries,
              )
      ]
  serve_op-Tidy (pushes_live_entry run_id entry) s tidy = elim (Result-cases (check_run run_id s)) [
    | inl (e, other) ↦ rw (other, serve_op, push_live_entry) tidy
    | inr (_, own) ↦ rw (own, serve_op, push_live_entry) tidy
  ]
  serve_op-Tidy takes s tidy = (tt, tt, tt)

  -- Whatever a step asks for, and whenever its commit takes it, no key of an effect, an item or an
  -- entry is pending twice, if none was when the run began.
  pub serve_ops-Tidy :
      (calls : List (Pending P)) (s : TxRunOps S)
      → Tidy s.pending
      → Tidy (serve_ops calls s).pending
  unfolding serve_ops
  serve_ops-Tidy [] s tidy = tidy
  serve_ops-Tidy (call ∷ calls) s tidy =
      serve_ops-Tidy calls (serve_op call s).1 (serve_op-Tidy call s tidy)

  abbrev pushed :
      EffectUpdate P.Value → TxRunOps S → Result (Unit {0}) × List (EffectUpdate P.Value)
  pushed update s =
      push (λ u. u.key) (update_beq ⦃e = P.value_eq⦄) effect_conflict update s.pending.effects

  push_effect-own :
      (run_id : RunId) (update : EffectUpdate P.Value) (s : TxRunOps S)
      → check_run run_id s ≡ ok tt
      → push_effect run_id update s ≡ (
        (pushed update s).0,
        record s { pending = record s.pending { effects = (pushed update s).1 } },
      )
  unfolding push_effect
  push_effect-own run_id update s own = rw (own, push_effect) refl

  push_effect-other :
      (run_id : RunId) (update : EffectUpdate P.Value) (s : TxRunOps S) (e : MachineError)
      → check_run run_id s ≡ err e
      → (push_effect run_id update s).0 ≡ err e
  unfolding push_effect
  push_effect-other run_id update s e other = rw (other, push_effect) refl

  -- An effect update that has been taken may be pushed again: it is taken, and nothing changes.
  pub push_effect-again :
      (run_id : RunId) (update : EffectUpdate P.Value) (s : TxRunOps S)
      → (push_effect run_id update s).0 ≡ ok tt
      → push_effect run_id update (push_effect run_id update s).1
        ≡ (ok tt, (push_effect run_id update s).1)
  unfolding check_run
  push_effect-again run_id update s taken = elim (Result-cases (check_run run_id s)) [
    | inl (e, other) ↦ absurd (cc (push_effect-other run_id update s e other))
    | inr (_, own) ↦
        let first = push_effect-own run_id update s own in
        let s' = record s { pending = record s.pending { effects = (pushed update s).1 } } in
        let settled =
          push-again (λ u. u.key) (update_beq ⦃e = P.value_eq⦄) effect_conflict update
            s.pending.effects (update_beq_refl ⦃e = P.value_eq⦄ update)
            (sym (ap (λ y. y.0) first) ∙ taken) in
        subst (λ y. push_effect run_id update y.1 ≡ (ok tt, y.1)) (sym first)
          (push_effect-own run_id update s' own
            ∙ ap (λ y. (y.0, record s { pending = record s.pending { effects = y.1 } })) settled)
  ]
