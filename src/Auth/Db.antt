-- ===== src/Auth/Db.antt =====
-- The database of the authentication service, apps/auth/src/migrations/20240101000000_init.sql,
-- with the row types of sessions/sessions.repository.ts, users/users.repository.ts and
-- audit/audit.module.ts. Texts that are only compared (ids, emails, hashes) are numbers.
use technical_assignment.Common.{ℕ, Bool, true, false, ◌&&◌, Option, none, some, List, ◌==◌}
use technical_assignment.Contracts.{TraceId}

pub record UserRow : Type 0 where
  pub id : ℕ
  pub email : ℕ
  pub password_hash : ℕ
  pub token_version : ℕ
  pub created_at : ℕ

pub record RefreshTokenRow : Type 0 where
  pub id : ℕ
  pub user_id : ℕ
  pub family_id : ℕ
  pub token_hash : ℕ
  pub rotated_to : Option ℕ
  pub revoked_at : Option ℕ
  pub expires_at : ℕ
  pub grace_until : Option ℕ
  pub created_at : ℕ

pub data AuditAction : Type 0 where
  login logout logout_all refresh session_revoke register : AuditAction

-- AuditMeta: the keys that the controller sets.
pub record AuditMeta : Type 0 where
  pub trace_id : TraceId
  pub ip : Option ℕ
  pub accepted : Option Bool
  pub grace : Option Bool
  pub reuse_detected : Bool

pub record AuditRow : Type 0 where
  pub user_id : Option ℕ
  pub action : AuditAction
  pub meta : AuditMeta
  pub at : ℕ

pub record Db : Type 0 where
  pub users : List UserRow
  pub tokens : List RefreshTokenRow
  pub audit_log : List AuditRow

abbrev pub is_unrevoked : Option ℕ → Bool
is_unrevoked none = true
is_unrevoked (some t) = false

-- family_id = $1 AND revoked_at IS NULL
abbrev pub live_in_family : ℕ → RefreshTokenRow → Bool
live_in_family family t = (t.family_id == family) && is_unrevoked t.revoked_at

-- user_id = $1 AND revoked_at IS NULL
abbrev pub live_of_user : ℕ → RefreshTokenRow → Bool
live_of_user user t = (t.user_id == user) && is_unrevoked t.revoked_at

abbrev pub with_hash : ℕ → RefreshTokenRow → Bool
with_hash hash t = t.token_hash == hash

abbrev pub with_token_id : ℕ → RefreshTokenRow → Bool
with_token_id id t = t.id == id

abbrev pub with_user_id : ℕ → UserRow → Bool
with_user_id id u = u.id == id

abbrev pub revoked_row : ℕ → RefreshTokenRow → RefreshTokenRow
revoked_row now t = record t { revoked_at = some now }
