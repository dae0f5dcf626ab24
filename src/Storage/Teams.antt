-- ===== src/Storage/Teams.antt =====
-- storage.rs: teams and memberships.
use simple_alert_proxy.Prelude.{
  ℕ, ◌+◌, String, Bool, ◌&&◌, ◌||◌, none, some, List, [], ◌∷◌, ◌==◌, str_eq, not, any, keep,
  if◌then◌else◌,
}
use simple_alert_proxy.Prelude.Int.{ℤ}
use simple_alert_proxy.Prelude.Text.{trim, is_empty}
use simple_alert_proxy.Table
use simple_alert_proxy.Table.{Table, find, update_where, exists_where, count_where, with_rows, at}
use simple_alert_proxy.Storage.{
  Db, TeamRow, MembershipRow, Action, ok, err, user_not_found, team_not_found, constraint_failed,
  empty_team_name, invalid_team_role,
}
use simple_alert_proxy.Storage.Users.{user_exists}

-- `validate_team_role`
unfoldable pub is_team_role : String → Bool
is_team_role role = str_eq role "owner" || str_eq role "operator" || str_eq role "viewer"

unfoldable pub create_team : ℤ → String → String → Action (ℕ × TeamRow)
unfolding Table.insert
create_team now name description db =
    let row : TeamRow = record {
      name = trim name;
      description = trim description;
      created_at = now;
      updated_at = now;
    } in
    if is_empty (trim name)
    then (err empty_team_name, db)
    else if exists_where (λ _ t. str_eq t.name (trim name)) db.teams.rows
    then (err constraint_failed, db)
    else (ok (db.teams.seq + 1, row), record db { teams = Table.insert row db.teams })

abbrev pub is_membership : ℕ → ℕ → MembershipRow → Bool
is_membership user team m = m.user_id == user && m.team_id == team

abbrev pub set_role : ℕ → ℕ → String → List MembershipRow → List MembershipRow
set_role user team role [] = []
set_role user team role (m ∷ rest) =
    (if is_membership user team m then record m { team_role = role } else m)
    ∷ set_role user team role rest

-- INSERT … ON CONFLICT(user_id, team_id) DO UPDATE SET team_role
unfoldable pub set_team_membership : ℤ → ℕ → ℕ → String → Action (Unit {0})
unfolding is_team_role
set_team_membership now team user role db =
    if not (is_team_role role)
    then (err invalid_team_role, db)
    else if not (exists_where (at team) db.teams.rows)
    then (err team_not_found, db)
    else if not (user_exists db user)
    then (err user_not_found, db)
    else if any (is_membership user team) db.memberships
    then (ok tt, record db { memberships = set_role user team role db.memberships })
    else (
      ok tt,
      record db {
        memberships =
            record { user_id = user; team_id = team; team_role = role; created_at = now }
            ∷ db.memberships;
      },
    )

unfoldable pub remove_team_membership : ℕ → ℕ → Db → Db
remove_team_membership team user db = record db {
  memberships = keep (λ m. not (is_membership user team m)) db.memberships;
}

-- A membership with the names that the query joins to it.
pub record TeamMembershipRecord : Type 0 where
  pub user_id : ℕ
  pub username : String
  pub team_id : ℕ
  pub team_name : String
  pub team_role : String
  pub created_at : ℤ

-- `list_team_memberships_for_user`, without its order by team name.
unfoldable pub list_team_memberships_for_user :
    ℕ → Db → List MembershipRow → List TeamMembershipRecord
list_team_memberships_for_user user db [] = []
list_team_memberships_for_user user db (m ∷ rest) =
    let others = list_team_memberships_for_user user db rest in
    if m.user_id == user
    then elim (find m.user_id db.users.rows) [
      | none ↦ others
      | some u ↦ elim (find m.team_id db.teams.rows) [
        | none ↦ others
        | some t ↦
            record {
              user_id = m.user_id;
              username = u.username;
              team_id = m.team_id;
              team_name = t.name;
              team_role = m.team_role;
              created_at = m.created_at;
            }
            ∷ others
      ]
    ]
    else others
