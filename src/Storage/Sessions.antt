-- ===== src/Storage/Sessions.antt =====
-- storage.rs: login sessions.
pub mod Validity
use simple_alert_proxy.Prelude.{
  ℕ, ◌+◌, String, Bool, true, false, ◌&&◌, ◌||◌, Option, none, some, List, [], ◌∷◌, ◌==◌, str_eq,
  leb, not, any, keep, if◌then◌else◌, length,
}
use simple_alert_proxy.Prelude.Int.{ℤ, leb_ℤ}
use simple_alert_proxy.Prelude.Text.{trim, is_empty}
use simple_alert_proxy.Table
use simple_alert_proxy.Table.{Table, find, update_where, exists_where, count_where, with_rows, at}
use simple_alert_proxy.Storage.{
  Db, UserRow, UserStatus, TeamRow, MembershipRow, SessionRow, AuditActor, Action, Result, ok, err,
  user_not_found, team_not_found, constraint_failed, empty_username, empty_display_name,
  empty_team_name, invalid_global_role, invalid_team_role,
}
use simple_alert_proxy.Storage.Groups.{insert_audit}
use simple_alert_proxy.Storage.Users.{is_active}

unfoldable pub create_session : ℤ → String → ℕ → String → ℤ → Action (Unit {0})
create_session now token_hash user csrf_token expires_at db =
    if any (λ s. str_eq s.token_hash token_hash) db.sessions then (err constraint_failed, db) else (
      ok tt,
      record db {
        sessions =
            record {
              token_hash = token_hash;
              user_id = user;
              csrf_token = csrf_token;
              expires_at = expires_at;
              created_at = now;
              last_seen_at = now;
            }
            ∷ db.sessions;
      },
    )

unfoldable pub delete_expired_sessions : ℤ → Db → Db
delete_expired_sessions now db = record db {
  sessions = keep (λ s. not (leb_ℤ s.expires_at now)) db.sessions;
}

unfoldable pub delete_session : String → Db → Db
delete_session token_hash db = record db {
  sessions = keep (λ s. not (str_eq s.token_hash token_hash)) db.sessions;
}

unfoldable pub find_session : String → List SessionRow → Option SessionRow
find_session token_hash [] = none
find_session token_hash (s ∷ rest) =
    if str_eq s.token_hash token_hash then some s else find_session token_hash rest

pub record SessionUserRecord : Type 0 where
  pub id : ℕ
  pub username : String
  pub display_name : String
  pub global_role : String
  pub status : UserStatus
  pub csrf_token : String
  pub expires_at : ℤ

abbrev pub session_record : SessionRow → UserRow → SessionUserRecord
session_record s u = record {
  id = s.user_id;
  username = u.username;
  display_name = u.display_name;
  global_role = u.global_role;
  status = u.status;
  csrf_token = s.csrf_token;
  expires_at = s.expires_at;
}

abbrev pub touch_session : ℤ → String → List SessionRow → List SessionRow
touch_session now token_hash [] = []
touch_session now token_hash (s ∷ rest) =
    (if str_eq s.token_hash token_hash then record s { last_seen_at = now } else s)
    ∷ touch_session now token_hash rest

unfoldable pub session_user : ℤ → String → Db → Option SessionUserRecord × Db
unfolding find_session delete_session
session_user now token_hash db = elim (find_session token_hash db.sessions) [
  | none ↦ (none, db)
  | some s ↦ elim (find s.user_id db.users.rows) [
    | none ↦ (none, db)
    | some u ↦
        if leb_ℤ s.expires_at now || not (is_active u.status)
        then (none, delete_session token_hash db)
        else (
          some (session_record s u),
          record db { sessions = touch_session now token_hash db.sessions },
        )
  ]
]
