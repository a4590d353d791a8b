-- ===== src/System/Audited.antt =====
-- Whatever call is made, the events of the users account for their roles and their access.
use mathlib.Core.Path.{subst}
use dc_inventory.Prelude.{ℕ, ◌≡◌, refl, sym, ap, inl, inr}
use dc_inventory.Database.{Database}
use dc_inventory.Identity.Audit.{IsAudited, same-IsAudited}
use dc_inventory.Identity.Audit.Operations.{administer-IsAudited}
use dc_inventory.Identity.Audit.Logins.{
  authenticate-IsAudited, recover_owner-IsAudited, ask-IsAudited,
}
use dc_inventory.Identity.Tables.{IdentityTables}
use dc_inventory.Identity.Sessions.{revoke_auth_session}
use dc_inventory.Procurement.Payload.{Platform}
use dc_inventory.Warehouse.Movement.Create.{reversal_payload}
use dc_inventory.Warehouse.Movement.Create.Steps.{reverse_steps}
use dc_inventory.Warehouse.Effect.Frame.{create_is, create'-identity}
use dc_inventory.System.{Step}
use dc_inventory.System.Keeps.{run_keeps}
use dc_inventory.System.Invariant.{create_request_steps}

identity-IsAudited : {t t' : IdentityTables} → t' ≡ t → IsAudited t → IsAudited t'
identity-IsAudited same v = subst IsAudited (sym same) v

logout-IsAudited :
    (session_id now : ℕ) (t : IdentityTables)
    → IsAudited t
    → IsAudited (revoke_auth_session session_id now t)
unfolding revoke_auth_session
logout-IsAudited session_id now t v = same-IsAudited (λ k. refl) refl refl v

-- If the events of every user, newest first, lead to the user's role and access status, each event
-- from another value than the one it leads to, then they do after any call of the program: a
-- movement, a reversal, an operation on a purchase, a call of the administration, a login, the
-- recovery of the owner, a request for access or a logout.
pub step-IsAudited :
    (hash_session_token : ℕ → ℕ) (x : Platform) (db db' : Database)
    → IsAudited db.identity
    → Step hash_session_token x db db'
    → IsAudited db'.identity
step-IsAudited hash x db db' v (Step.moved p c r h) =
    identity-IsAudited
      (create'-identity x.canonical_fingerprint db p c (create_is x.canonical_fingerprint db p c h))
      v
step-IsAudited hash x db db' v (Step.reversed original_id request_id c r h) =
    let (o, _, made) = reverse_steps x.canonical_fingerprint db original_id request_id c h in
    identity-IsAudited
      (create'-identity x.canonical_fingerprint db (reversal_payload o request_id) _ made) v
step-IsAudited hash x db db' v (Step.requested actor p request_id h) =
    elim (create_request_steps x actor p request_id db h) [
      | inl same ↦ identity-IsAudited (ap (λ (d : Database). d.identity) same) v
      | inr (_, _, _, _, _, _, _, _, users) ↦ identity-IsAudited users v
    ]
step-IsAudited hash x db db' v (Step.operated actor o request_id h) =
    run_keeps (λ d. IsAudited d.identity) x (λ d d' same. identity-IsAudited same.1)
      (λ d d' order c result made.
        identity-IsAudited (create'-identity x.canonical_fingerprint d order c made))
      actor o request_id db v h
step-IsAudited hash x db db' v (Step.administered op a k recovery now h) =
    administer-IsAudited op a k recovery now db db' v h
step-IsAudited hash x db db' v (Step.logged_in c h) = authenticate-IsAudited hash c db db' v h
step-IsAudited hash x db db' v (Step.recovered u i recovery now h) =
    recover_owner-IsAudited u i recovery now db db' v h
step-IsAudited hash x db db' v (Step.asked user_id request_id now r t h same) =
    subst (λ (d : Database). IsAudited d.identity) (sym same)
      (ask-IsAudited user_id request_id now db.identity r t v h)
step-IsAudited hash x db db' v (Step.logged_out session_id now same) =
    subst (λ (d : Database). IsAudited d.identity) (sym same)
      (logout-IsAudited session_id now db.identity v)
