-- ===== src/Procurement/Sound.antt =====
-- The invariant of a request: its version counts its events, its events tell its status, and it has
-- a receipt exactly when it is completed.
use mathlib.Core.Path.{subst}
use dc_inventory.Prelude.{◌+◌, ◌≡◌, sym, ap, ◌∙◌, inl, inr, false, none, some, List, [], ◌∷◌, arith}
use dc_inventory.Prelude.Tests.{is_some}
use dc_inventory.Prelude.Lists.{length}
use dc_inventory.Procurement.Tables.{ProcurementRequest, ProcurementEvent, ProcurementStatus}
use dc_inventory.Procurement.StateMachine.{is_completed}
use dc_inventory.Procurement.Progress.{Advanced, Logged, Stamp}

-- The events, newest first, lead from the status of a new request to `s`, each by a transition that
-- the state machine allows or by none, and never out of the completed state.
abbrev pub Trail : List ProcurementEvent → ProcurementStatus → Type 0
Trail [] s = ⊥
Trail (e ∷ []) s =
    (e.from_status ≡ none)
    × (e.to_status ≡ some s)
    × (s ≡ ProcurementStatus.agreement_pending_manager)
Trail (e ∷ f ∷ es) s =
    (a : ProcurementStatus) × Logged e a s × (is_completed a ≡ false) × Trail (f ∷ es) a

pub record IsSound (r : ProcurementRequest) : Type 0 where
  pub version : r.state_version ≡ length r.events
  pub trail : Trail r.events r.status
  pub receipt : is_some r.final_movement_id ≡ is_completed r.status

Trail-cons :
    (e : ProcurementEvent) (es : List ProcurementEvent) (a b : ProcurementStatus)
    → Trail es a
    → Logged e a b
    → is_completed a ≡ false
    → Trail (e ∷ es) b
Trail-cons e [] a b t l c = absurd t
Trail-cons e (f ∷ es) a b t l c = (a, l, c, t)

pub Advanced-IsSound :
    (s : Stamp) (r r' : ProcurementRequest) → Advanced s r r' → IsSound r → IsSound r'
Advanced-IsSound s r r' a v = record {
  version =
      a.version ∙ ap (λ n. n + 1) v.version ∙ counted a.event r.events ∙ ap length (sym a.events);
  trail =
      subst (λ es. Trail es r'.status) (sym a.events)
        (Trail-cons a.event r.events r.status r'.status v.trail a.logged a.not_completed);
  receipt = elim a.receipt [
    | inl (same, active) ↦ ap is_some same ∙ v.receipt ∙ a.not_completed ∙ sym active
    | inr (final, completed) ↦ final ∙ sym completed
  ];
}
  where
    counted : (e : ProcurementEvent) (es : List ProcurementEvent) → length es + 1 ≡ length (e ∷ es)
    counted e es = omega arith
