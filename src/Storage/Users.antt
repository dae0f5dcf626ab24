-- ===== src/Storage/Users.antt =====
-- storage.rs: users. A user name that is taken (it is UNIQUE) is an error of the INSERT.
pub mod Admins
pub mod LastAdmin
use simple_alert_proxy.Prelude.{
  ℕ, ◌+◌, String, Bool, true, false, ◌&&◌, ◌||◌, Option, none, some, List, [], ◌∷◌, ◌==◌, str_eq,
  leb, not, any, keep, if◌then◌else◌, length,
}
use simple_alert_proxy.Prelude.Int.{ℤ, leb_ℤ}
use simple_alert_proxy.Prelude.Text.{trim, is_empty}
use simple_alert_proxy.Table
use simple_alert_proxy.Table.{Table, find, update_where, exists_where, count_where, with_rows, at}
use simple_alert_proxy.Storage.{
  Db, UserRow, UserStatus, TeamRow, MembershipRow, SessionRow, AuditActor, Action, Result, ok, err,
  user_not_found, team_not_found, constraint_failed, empty_username, empty_display_name,
  empty_team_name, invalid_global_role, invalid_team_role,
}
use simple_alert_proxy.Storage.Groups.{insert_audit}

-- `validate_global_role`
unfoldable pub is_global_role : String → Bool
is_global_role role =
    str_eq role "admin" || str_eq role "operator" || str_eq role "viewer" || str_eq role "scoped"

unfoldable pub user_count : Db → ℕ
user_count db = count_where (λ _ _. true) db.users.rows

abbrev pub new_user : String → String → String → String → ℤ → UserRow
new_user username display_name password_hash global_role now = record {
  username = username;
  display_name = display_name;
  password_hash = password_hash;
  global_role = global_role;
  status = UserStatus.active;
  created_at = now;
  updated_at = now;
  last_login_at = none;
}

-- Returns the id and the row of the new user.
unfoldable pub create_user : ℤ → String → String → String → String → Action (ℕ × UserRow)
unfolding is_global_role Table.insert
create_user now username display_name password_hash global_role db =
    let name = trim username in
    let shown = trim display_name in
    if is_empty name
    then (err empty_username, db)
    else if is_empty shown
    then (err empty_display_name, db)
    else if not (is_global_role global_role)
    then (err invalid_global_role, db)
    else if exists_where (λ _ u. str_eq u.username name) db.users.rows
    then (err constraint_failed, db)
    else (
      ok (db.users.seq + 1, new_user name shown password_hash global_role now),
      record db {
        users = Table.insert (new_user name shown password_hash global_role now) db.users;
      },
    )

unfoldable pub find_user : String → List (ℕ × UserRow) → Option (ℕ × UserRow)
find_user name [] = none
find_user name ((i, u) ∷ rest) = if str_eq u.username name then some (i, u) else find_user name rest

unfoldable pub authenticate_user : String → Db → Option (ℕ × UserRow)
unfolding find_user
authenticate_user username db = find_user (trim username) db.users.rows

abbrev pub update_user : ℕ → (UserRow → UserRow) → Db → Db
update_user id f db = record db {
  users = with_rows db.users (update_where (at id) f db.users.rows);
}

-- `update_user_exists`
abbrev pub user_exists : Db → ℕ → Bool
user_exists db id = exists_where (at id) db.users.rows

unfoldable pub update_last_login : ℤ → ℕ → Db → Db
update_last_login now id =
    update_user id (λ u. record u { last_login_at = some now; updated_at = now })

-- DELETE FROM auth_sessions WHERE user_id = …
unfoldable pub delete_user_sessions : ℕ → Db → Db
delete_user_sessions id db = record db { sessions = keep (λ s. not (s.user_id == id)) db.sessions }

-- `changed` and `disabled` print the detail of the audit entry.
unfoldable pub update_user_password : (ℕ → String) → ℤ → ℕ → String → AuditActor → Action (Unit {0})
unfolding delete_user_sessions insert_audit
update_user_password changed now id password_hash actor db =
    if user_exists db id
    then (
      ok tt,
      insert_audit none none actor "change_password" (some (changed id)) now (
          delete_user_sessions id (
            update_user id (λ u. record u { password_hash = password_hash; updated_at = now }) db)),
    )
    else (err user_not_found, db)

pub data DisableUserOutcome : Type 0 where
  disabled last_active_admin : DisableUserOutcome

abbrev pub is_active : UserStatus → Bool
is_active UserStatus.active = true
is_active UserStatus.disabled = false

-- WHERE status = 'active' AND global_role = 'admin'
abbrev pub admin_row : ℕ → UserRow → Bool
admin_row _ u = is_active u.status && str_eq u.global_role "admin"

unfoldable pub is_active_admin : Db → ℕ → Bool
is_active_admin db id = exists_where (λ i u. i == id && admin_row i u) db.users.rows

unfoldable pub active_admin_count : Db → ℕ
active_admin_count db = count_where admin_row db.users.rows

unfoldable pub disable_user : (ℕ → String) → ℤ → ℕ → AuditActor → Action DisableUserOutcome
unfolding delete_user_sessions insert_audit is_active_admin active_admin_count
disable_user shown now id actor db =
    if not (user_exists db id)
    then (err user_not_found, db)
    else if is_active_admin db id && leb (active_admin_count db) 1
    then (ok last_active_admin, db)
    else (
      ok disabled,
      insert_audit none none actor "disable_user" (some (shown id)) now (
          delete_user_sessions id
            (update_user id (λ u. record u { status = UserStatus.disabled; updated_at = now }) db)),
    )
