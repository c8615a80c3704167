-- ===== src/Auth/Users.antt =====
-- apps/auth/src/users/users.repository.ts: `UsersRepository`, and `AuditService.record` of
-- audit/audit.module.ts.
use technical_assignment.Auth.Password.{Host, hash_password}
use technical_assignment.Common.{
  ℕ, Option, none, some, Link, Result, first_row, Answer, if◌then◌else◌, select, run_query, query,
  exists_where, violates, rows, update_where, ◌==◌, unique_violation, ◌++◌, suc, primary_key, ◌∷◌,
  [], email_key, Text, err, argon2_rejected,
}
use technical_assignment.Auth.Db.{Db, UserRow, AuditAction, AuditMeta, with_user_id}

abbrev pub email_row : Host → ℕ → Db → Option UserRow
email_row host email d = first_row (select (λ u. u.email == host.to_lower_case email) d.users)

unfoldable pub find_by_email : Host → ℕ → Link → Db → Result (Option UserRow) × Db
find_by_email host email = run_query (query (λ d. rows (email_row host email d) d))

abbrev pub user_row : ℕ → Db → Option UserRow
user_row id d = first_row (select (with_user_id id) d.users)

unfoldable pub find_by_id : ℕ → Link → Db → Result (Option UserRow) × Db
find_by_id id = run_query (query (λ d. rows (user_row id d) d))

abbrev pub insert_user : UserRow → Db → Answer Db UserRow
insert_user u d =
    if exists_where (with_user_id u.id) d.users
    then violates (unique_violation primary_key)
    else if exists_where (λ v. v.email == u.email) d.users
    then violates (unique_violation email_key)
    else rows u (record d { users = d.users ++ u ∷ [] })

-- What is inserted once the password has been hashed; a rejection of argon2 is thrown.
insert_hashed : Host → ℕ → ℕ → ℕ → Option ℕ → Link → Db → Result UserRow × Db
insert_hashed host email id now none l d = (err argon2_rejected, d)
insert_hashed host email id now (some hash) l d =
    run_query
      (query (
        insert_user (record {
          id = id;
          email = host.to_lower_case email;
          password_hash = hash;
          token_version = 0;
          created_at = now;
        })))
      l d

unfoldable pub create : Host → ℕ → Text → ℕ → ℕ → ℕ → Link → Db → Result UserRow × Db
unfolding insert_hashed
create host email password salt id now =
    insert_hashed host email id now (hash_password host salt password)

unfoldable pub bump_token_version : ℕ → Link → Db → Result (Unit {0}) × Db
bump_token_version id = run_query (
    query (λ d. rows tt (record d {
      users =
          update_where (with_user_id id) (λ u. record u { token_version = suc u.token_version })
            d.users;
    })))

unfoldable pub record_audit :
    Option ℕ → AuditAction → AuditMeta → ℕ → Link → Db → Result (Unit {0}) × Db
record_audit user action meta now = run_query (
    query (λ d. rows tt (record d {
      audit_log =
          d.audit_log ++ record { user_id = user; action = action; meta = meta; at = now } ∷ [];
    })))
