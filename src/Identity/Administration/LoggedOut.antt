-- ===== src/Identity/Administration/LoggedOut.antt =====
-- Whoever is blocked or reset is logged out everywhere.
use mathlib.Core.Path.{subst}
use dc_inventory.Prelude.{
  ℕ, ◌≡◌, sym, ap, ◌∙◌, ◌⊎◌, inl, inr, Bool, true, false, ◌&&◌, Option, some, List, [], ◌∷◌, arith,
}
use dc_inventory.Prelude.Tests.{◌==◌}
use dc_inventory.Prelude.Lists.{find}
use dc_inventory.Prelude.Result.{ok}
use dc_inventory.Identity.Policy.{UserAccessStatus, status_eq}
use dc_inventory.Identity.Tables.{AuthSession, IdentityTables, find_user}
use dc_inventory.Identity.Lifecycle.{transition_user_access, change_role}
use dc_inventory.Identity.Lifecycle.Rows.{find_user_id}
use dc_inventory.Identity.Admin.Guards.{Locked, find_identity}
use dc_inventory.Identity.Admin.{revoke_sessions, access_changed}
use dc_inventory.Identity.Admin.Steps.{IsLocked, update_user_access_steps}
use dc_inventory.Identity.Administration.{Administration, administer}
use dc_inventory.Identity.Reset.{detached}
use dc_inventory.Identity.Reset.Steps.{account_steps}
use dc_inventory.Identity.Sessions.{AuthenticatedContext, is_live, load_auth_context}
use dc_inventory.Database.{Database}

live_session :
    (hash k now later : ℕ) (ss : List AuthSession) (s : AuthSession)
    → find (λ s. s.token_hash == hash && is_live later s) (revoke_sessions k now ss) ≡ some s
    → (s.user_id == k) ≡ false
unfolding revoke_sessions
live_session hash k now later [] s h = cc
live_session hash k now later (x ∷ xs) s h = ground (arith, live_session hash k now later xs s)

pub load_steps :
    (hash_session_token : ℕ → ℕ) (raw_token now : ℕ) (t : IdentityTables) (c : AuthenticatedContext)
    → load_auth_context hash_session_token raw_token now t ≡ some c
    → (find (λ s. s.token_hash == hash_session_token raw_token && is_live now s) t.auth_sessions
        ≡ some c.session)
      × (find_user c.session.user_id t.users ≡ some c.user)
      × (find_identity c.session.user_id t.identities ≡ some c.identity)
unfolding load_auth_context
load_steps hash_session_token raw_token now t c h = (ground arith, ground arith, ground arith)

-- No token speaks for the user.
pub record LoggedOut (k : ℕ) (t : IdentityTables) : Type 0 where
  pub closed :
      (hash_session_token : ℕ → ℕ) (raw_token now : ℕ) (c : AuthenticatedContext)
      → load_auth_context hash_session_token raw_token now t ≡ some c
      → (c.user.id == k) ≡ false

revoked-LoggedOut :
    (k now : ℕ) (ss : List AuthSession) (t : IdentityTables)
    → t.auth_sessions ≡ revoke_sessions k now ss
    → LoggedOut k t
revoked-LoggedOut k now ss t same = record {
  closed = λ hash_session_token raw_token later c h.
      let (found, user, _) = load_steps hash_session_token raw_token later t c h in
      ap (λ j. j == k) (find_user_id c.session.user_id t.users c.user user)
      ∙ live_session (hash_session_token raw_token) k now later ss c.session (
          ap (find (λ s. s.token_hash == hash_session_token raw_token && is_live later s))
            (sym same)
          ∙ found);
}

blocked_sessions :
    (l : Locked) (now : ℕ) (t : IdentityTables)
    → (access_changed l UserAccessStatus.blocked now t).auth_sessions
      ≡ revoke_sessions l.target.id now t.auth_sessions
unfolding transition_user_access
blocked_sessions l now t = ground arith

detached_sessions :
    (l : Locked) (now : ℕ) (t : IdentityTables)
    → (detached l now t).auth_sessions ≡ revoke_sessions l.target.id now t.auth_sessions
unfolding transition_user_access change_role
detached_sessions l now t = ground arith

-- The calls that take the access of a user away.
abbrev pub is_removal : Administration → Bool
is_removal (Administration.access s) = status_eq s UserAccessStatus.blocked
is_removal (Administration.reset admin_key before expected) = true
is_removal _ = false

removed_sessions :
    (l : Locked) (k now : ℕ) (db db' : Database)
    → find_user k db.identity.users ≡ some l.target
    → db'.identity.auth_sessions ≡ revoke_sessions l.target.id now db.identity.auth_sessions
    → LoggedOut k db'.identity
removed_sessions l k now db db' found same =
    subst (λ j. LoggedOut j db'.identity) (find_user_id k db.identity.users l.target found)
      (revoked-LoggedOut l.target.id now db.identity.auth_sessions db'.identity same)

-- A successful call that blocks a user or resets an account found the user blocked and changed
-- nothing, or logs the user out: after it no token loads a context with that user.
pub removed-LoggedOut :
    (op : Administration) (actor_user_id target_user_id : ℕ) (recovery : Option ℕ) (now : ℕ)
    (db db' : Database)
    → is_removal op ≡ true
    → administer op actor_user_id target_user_id recovery now db ≡ ok db'
    → (l : Locked) × IsLocked actor_user_id target_user_id db.identity.users l
      × ((db' ≡ db) × (status_eq UserAccessStatus.blocked l.target.access_status ≡ true)
          ⊎ LoggedOut target_user_id db'.identity)
unfolding administer
removed-LoggedOut (Administration.access UserAccessStatus.blocked) a k recovery now db db' _ h =
    let (l, locked, how) =
      update_user_access_steps a k UserAccessStatus.blocked recovery now db db' h in
    (
      l,
      locked,
      elim how [
        | inl idle ↦ inl idle
        | inr (_, same) ↦ inr (
            removed_sessions l k now db db' locked.target_found (
              ap (λ (d : Database). d.identity.auth_sessions) same
              ∙ blocked_sessions l now db.identity))
      ],
    )
removed-LoggedOut (Administration.access UserAccessStatus.pending) a k recovery now db db' r h =
    absurd (ground (arith, r))
removed-LoggedOut (Administration.access UserAccessStatus.approved) a k recovery now db db' r h =
    absurd (ground (arith, r))
removed-LoggedOut (Administration.access UserAccessStatus.rejected) a k recovery now db db' r h =
    absurd (ground (arith, r))
removed-LoggedOut (Administration.decide d) a k recovery now db db' r h = absurd (ground (arith, r))
removed-LoggedOut (Administration.role d) a k recovery now db db' r h = absurd (ground (arith, r))
removed-LoggedOut (Administration.reset admin_key before expected) a k recovery now db db' _ h =
    let (l, locked, _, same) = account_steps admin_key before a k expected recovery now db db' h in
    (
      l,
      locked,
      inr (
          removed_sessions l k now db db' locked.target_found (
            ap (λ (d : Database). d.identity.auth_sessions) same
            ∙ detached_sessions l now db.identity)),
    )
