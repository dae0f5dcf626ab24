-- ===== src/Examples/Accounts.antt =====
-- Examples of users, sessions, logins and access.
use simple_alert_proxy.Prelude.{
  str_eq_iff, false, ℕ, ◌+◌, ◌≤◌, String, true, ◌&&◌, none, some, List, [], ◌∷◌, ◌≡◌, ◌≢◌, ◌↔◌,
  refl, arith, All, not, ltb, leb, length, ◌==◌,
}
use simple_alert_proxy.Prelude.Int.{pos, leb_ℤ}
use simple_alert_proxy.Prelude.Text.{trim}
use simple_alert_proxy.Table
use simple_alert_proxy.Table.{find}
use simple_alert_proxy.Table.Laws.{IsFresh}
use simple_alert_proxy.Storage.{empty, GroupRow, UserRow, UserStatus, SessionRow, ok}
use simple_alert_proxy.Storage.Users.{
  active_admin_count, is_active_admin, disable_user, disabled, last_active_admin,
  update_user_password, user_exists,
}
use simple_alert_proxy.Storage.Users.Admins.{disable_user-disabled, disable_user-keeps_admin}
use simple_alert_proxy.Storage.Users.LastAdmin.{IsLastAdmin, disable_user-IsLastAdmin}
use simple_alert_proxy.Storage.Sessions.{
  SessionUserRecord, session_user, find_session, session_record,
}
use simple_alert_proxy.Storage.Sessions.Validity.{
  session_user-valid, session_user-removes, update_user_password-revokes,
}
use simple_alert_proxy.Login.{
  new, check_allowed, login_failure_limit, login_lockout_millis, login_attempt_key,
}
use simple_alert_proxy.Login.Lockout.{Fits, failures, check_allowed-locked, check_allowed-freed}
use simple_alert_proxy.Access
use simple_alert_proxy.Access.{
  legacy_loopback, unauthorized, can_read_everything, visible_alert_groups, ManagementPrincipal,
  scoped, bearer, session, AccessConfig, Credentials, unnamed_admin, authenticate_management,
  principal_from_session_user, require_csrf, require_group_operation,
}
use simple_alert_proxy.Access.Admission.{Admitted, authenticate_management-Admitted}
use simple_alert_proxy.Access.Rules.{
  Visible, visible_alert_groups-Visible, MayOperate, require_csrf-principal_from_session_user,
  require_group_operation-permitted,
}
use simple_alert_proxy.Examples.{bob, user_db, by_ada, session_of, group_db}

abbrev shown : ℕ → String
shown n = "user"

user_db-IsFresh : IsFresh user_db.users
user_db-IsFresh = (omega arith, omega arith, (omega arith, omega arith, tt))

one_admin : 1 ≤ active_admin_count user_db
unfolding active_admin_count Table.count_where
one_admin = omega arith

disable_user-keeps_admin_example :
    1 ≤ active_admin_count (disable_user shown (pos 5) 1 by_ada user_db).1
disable_user-keeps_admin_example =
    disable_user-keeps_admin shown (pos 5) 1 by_ada user_db user_db-IsFresh one_admin

bob_exists : user_exists user_db 2 ≡ true
unfolding Table.exists_where
bob_exists = refl

disable_user-IsLastAdmin_example :
    ((disable_user shown (pos 5) 1 by_ada user_db).0 ≡ ok last_active_admin) ↔ IsLastAdmin 1 user_db
disable_user-IsLastAdmin_example =
    disable_user-IsLastAdmin shown (pos 5) 1 by_ada user_db user_db-IsFresh

bob_disabled : (disable_user shown (pos 5) 2 by_ada user_db).0 ≡ ok disabled
unfolding disable_user is_active_admin active_admin_count Table.exists_where Table.count_where
bob_disabled = refl

disable_user-disabled_example :
    ((u : UserRow) × (find 2 (disable_user shown (pos 5) 2 by_ada user_db).1.users.rows ≡ some u)
      × (u.status ≡ UserStatus.disabled))
    × All (λ s. (s.user_id == 2) ≡ false) (disable_user shown (pos 5) 2 by_ada user_db).1.sessions
disable_user-disabled_example =
    disable_user-disabled shown (pos 5) 2 by_ada user_db user_db-IsFresh bob_exists bob_disabled

abbrev bob_session : SessionUserRecord
bob_session = session_record (session_of 2 "b") bob

abbrev ada_id : ℕ
ada_id = 1

bob_accepted : (session_user (pos 50) "b" user_db).0 ≡ some (session_record (session_of 2 "b") bob)
unfolding session_user find_session find
bob_accepted = refl

session_user-valid_example :
    (s : SessionRow) × (u : UserRow) × (find_session "b" user_db.sessions ≡ some s)
    × (find s.user_id user_db.users.rows ≡ some u)
    × (leb_ℤ s.expires_at (pos 50) ≡ false)
    × (u.status ≡ UserStatus.active)
    × (2 ≡ s.user_id)
    × ("csrf" ≡ s.csrf_token)
    × ("scoped" ≡ u.global_role)
session_user-valid_example =
    session_user-valid (pos 50) "b" user_db (session_record (session_of 2 "b") bob) bob_accepted

session_found : find_session "b" user_db.sessions ≡ some (session_of 2 "b")
unfolding find_session
session_found = refl

bob_found : find 2 user_db.users.rows ≡ some bob
unfolding find
bob_found = refl

too_late : (session_user (pos 100) "b" user_db).0 ≡ none
unfolding session_user find_session find
too_late = refl

session_user-removes_example :
    find_session "b" (session_user (pos 100) "b" user_db).1.sessions ≡ none
session_user-removes_example =
    session_user-removes (pos 100) "b" user_db (session_of 2 "b") bob session_found bob_found
      too_late

ada_exists : user_exists user_db 1 ≡ true
unfolding Table.exists_where
ada_exists = refl

bob_still_accepted :
    (session_user (pos 50) "b" (update_user_password shown (pos 40) 1 "new" by_ada user_db).1).0
    ≡ some (session_record (session_of 2 "b") bob)
unfolding session_user find_session find update_user_password Table.exists_where Table.update_where
bob_still_accepted = refl

update_user_password-revokes_example : bob_session.id ≢ ada_id
update_user_password-revokes_example =
    update_user_password-revokes shown (pos 40) (pos 50) 1 "new" "b" by_ada user_db
      (session_record (session_of 2 "b") bob) ada_exists bob_still_accepted

abbrev earlier : List ℕ
earlier = 80 ∷ 70 ∷ 60 ∷ 50 ∷ []

earlier-Fits : All Fits (90 ∷ earlier)
earlier-Fits = (omega arith, (omega arith, (omega arith, (omega arith, (omega arith, tt)))))

check_allowed-locked_example :
    (check_allowed (pos 100) "ada" (failures "ada" (90 ∷ earlier) new)).0
    ≡ not (leb login_failure_limit (length earlier + 1) && ltb 100 (90 + login_lockout_millis))
check_allowed-locked_example =
    check_allowed-locked 100 90 earlier "ada" new refl (omega arith) earlier-Fits

check_allowed-freed_example :
    (check_allowed (pos 1000000) "ada" (failures "ada" (90 ∷ earlier) new)).1
      (login_attempt_key "ada")
    ≡ none
check_allowed-freed_example =
    check_allowed-freed 1000000 90 earlier "ada" new refl (omega arith) (omega arith) earlier-Fits
      (omega arith)

abbrev with_token : AccessConfig
with_token = record {
  management_token = some "secret";
  server_token = none;
  allow_unauthenticated = false;
  local_users = true;
  loopback = some true;
}

abbrev presenting : Credentials
presenting = record {
  bearer_token = some "secret";
  session_token = none;
  csrf_header = some "csrf";
}

-- A server on a loopback address, before there is a token or a user.
abbrev fresh_server : AccessConfig
fresh_server = record with_token { management_token = none }

abbrev anyone : Credentials
anyone = record { bearer_token = none; session_token = none; csrf_header = none }

loopback_accepted :
    (authenticate_management fresh_server (pos 50) anyone empty).0
    ≡ Access.ok (unnamed_admin legacy_loopback)
unfolding authenticate_management Table.count_where
loopback_accepted = refl

-- With a user there, the same request is refused.
loopback_refused :
    (authenticate_management fresh_server (pos 50) anyone user_db).0 ≡ Access.err unauthorized
unfolding authenticate_management Table.count_where
loopback_refused = refl

authenticate_management-Admitted_example :
    Admitted fresh_server (pos 50) anyone empty (unnamed_admin legacy_loopback)
authenticate_management-Admitted_example =
    authenticate_management-Admitted fresh_server (pos 50) anyone empty
      (unnamed_admin legacy_loopback) loopback_accepted

require_csrf-principal_from_session_user_example :
    (require_csrf (principal_from_session_user bob_session []) presenting ≡ Access.ok tt)
    ↔ (presenting.csrf_header ≡ some bob_session.csrf_token)
require_csrf-principal_from_session_user_example =
    require_csrf-principal_from_session_user bob_session [] presenting

-- An operator of team 1.
abbrev team_operator : ManagementPrincipal
team_operator = record {
  role = scoped;
  user = none;
  team_memberships =
      record {
        user_id = 2;
        username = "bob";
        team_id = 1;
        team_name = "db";
        team_role = "operator";
        created_at = pos 1;
      }
      ∷ [];
  csrf_token = none;
  auth_kind = session;
}

operator_permitted : require_group_operation team_operator 1 group_db ≡ Access.ok (some 1)
unfolding require_group_operation find
operator_permitted = refl

require_group_operation-permitted_example :
    (g : GroupRow) × (find 1 group_db.groups.rows ≡ some g)
    × (g.team_id ≡ some 1)
    × MayOperate team_operator (some 1)
require_group_operation-permitted_example =
    require_group_operation-permitted team_operator 1 group_db (some 1) operator_permitted

bob_limited : can_read_everything team_operator ≡ false
unfolding can_read_everything
bob_limited = refl

visible_alert_groups-Visible_example :
    All (λ g. Visible team_operator g.1) (visible_alert_groups team_operator group_db.groups.rows)
visible_alert_groups-Visible_example =
    visible_alert_groups-Visible team_operator group_db.groups.rows bob_limited

abbrev bob_key : String
bob_key = "bob"

other_key : bob_key ≢ login_attempt_key "ada"
unfolding login_attempt_key trim
other_key e = let q : false ≡ true = (str_eq_iff "bob" "ada").1 e in absurd (cc)
