-- ===== src/Maintenance.antt =====
-- app/maintenance/technical_retention.py: the deletion of old sessions in batches.
pub mod Kept
use dc_inventory.Prelude.{
  ℕ, ◌-◌, ◌*◌, min, Bool, true, false, ◌&&◌, ◌||◌, not, Option, none, some, List, [], ◌∷◌,
}
use dc_inventory.Prelude.Tests.{◌==◌, ltb, if◌then◌else◌}
use dc_inventory.Prelude.Lists.{select, take, contains}
use dc_inventory.Identity.Tables.{AuthSession, IdentityTables}
use dc_inventory.Identity.Sessions.{session_ids}

-- `revoked_at IS NOT NULL AND revoked_at < cutoff`
abbrev pub is_revoked_before : ℕ → Option ℕ → Bool
is_revoked_before cutoff none = false
is_revoked_before cutoff (some revoked_at) = ltb revoked_at cutoff

unfoldable pub is_expired : ℕ → AuthSession → Bool
is_expired cutoff s = ltb s.expires_at cutoff || is_revoked_before cutoff s.revoked_at

-- `LEAST(expires_at, COALESCE(revoked_at, expires_at))`
abbrev pub ended_at : AuthSession → ℕ
ended_at s = elim s.revoked_at [
  | none ↦ s.expires_at
  | some revoked_at ↦ min s.expires_at revoked_at
]

abbrev pub ended_before : AuthSession → AuthSession → Bool
ended_before s t = ltb (ended_at s) (ended_at t) || (ended_at s == ended_at t && ltb s.id t.id)

unfoldable pub insert_ended : AuthSession → List AuthSession → List AuthSession
insert_ended s [] = s ∷ []
insert_ended s (t ∷ ts) = if ended_before s t then s ∷ t ∷ ts else t ∷ insert_ended s ts

unfoldable pub by_end : List AuthSession → List AuthSession
by_end [] = []
by_end (s ∷ ss) = insert_ended s (by_end ss)

unfoldable pub retention_candidates : ℕ → ℕ → List AuthSession → List AuthSession
retention_candidates cutoff batch_size ss = take batch_size (by_end (select (is_expired cutoff) ss))

-- `DELETE FROM auth_sessions USING candidates`
unfoldable pub delete_sessions : ℕ → ℕ → List AuthSession → List AuthSession
delete_sessions cutoff batch_size ss =
    let ids = session_ids (retention_candidates cutoff batch_size ss) in
    select (λ s. not (contains s.id ids)) ss

-- The part of `run_technical_retention_once` that deletes sessions; a day has 86400 seconds.
unfoldable pub retain_sessions : ℕ → ℕ → ℕ → IdentityTables → IdentityTables
retain_sessions retention_days batch_size now t = record t {
  auth_sessions = delete_sessions (now - retention_days * 86400) batch_size t.auth_sessions;
}
