-- ===== src/Identity/Tables.antt =====
-- backend/app/modules/identity/models.py and auth/models.py: the rows of the identity tables.
-- Identifiers and times are numbers.
use dc_inventory.Prelude.{ℕ, Option, List}
use dc_inventory.Prelude.Tests.{◌==◌}
use dc_inventory.Prelude.Lists.{find}
use dc_inventory.Identity.Policy.{UserRole, UserAccessStatus, AccessRequestStatus}

pub record User : Type 0 where
  pub id : ℕ
  pub role : UserRole
  pub access_status : UserAccessStatus
  pub approved_at : Option ℕ
  pub approved_by_user_id : Option ℕ

pub record TelegramIdentity : Type 0 where
  pub user_id : ℕ
  pub telegram_user_id : ℕ

-- "Access management web console", "Telegram inline callback" and "configured recovery owner".
pub data DecisionNote : Type 0 where
  web_console telegram_callback recovery_owner : DecisionNote

pub record AccessRequest : Type 0 where
  pub id : ℕ
  pub user_id : ℕ
  pub status : AccessRequestStatus
  pub requested_at : ℕ
  pub decided_at : Option ℕ
  pub decided_by_user_id : Option ℕ
  pub decision_note : Option DecisionNote

pub record UserAccessEvent : Type 0 where
  pub actor_user_id : ℕ
  pub target_user_id : ℕ
  pub before_access_status : UserAccessStatus
  pub after_access_status : UserAccessStatus
  pub occurred_at : ℕ

pub record UserRoleEvent : Type 0 where
  pub actor_user_id : ℕ
  pub target_user_id : ℕ
  pub before_role : UserRole
  pub after_role : UserRole
  pub occurred_at : ℕ

pub record AuthSession : Type 0 where
  pub id : ℕ
  pub user_id : ℕ
  pub token_hash : ℕ
  pub created_at : ℕ
  pub expires_at : ℕ
  pub revoked_at : Option ℕ

-- The events are listed newest first.
pub record IdentityTables : Type 0 where
  pub users : List User
  pub identities : List TelegramIdentity
  pub access_requests : List AccessRequest
  pub access_events : List UserAccessEvent
  pub role_events : List UserRoleEvent
  pub auth_sessions : List AuthSession

-- `SELECT … FROM users WHERE id = …`
abbrev pub find_user : ℕ → List User → Option User
find_user k = find λ u. u.id == k
