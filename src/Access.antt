-- ===== src/Access.antt =====
-- main.rs: roles, principals, and the checks of the management API.
pub mod Admission
pub mod Rules
use simple_alert_proxy.Prelude.{
  ℕ, String, Bool, true, false, ◌&&◌, ◌||◌, Option, none, some, List, [], ◌∷◌, map, ◌==◌, str_eq,
  not, any, keep, or_else, is_some, if◌then◌else◌, ltb,
}
use simple_alert_proxy.Prelude.Int.{ℤ}
use simple_alert_proxy.Table.{find}
use simple_alert_proxy.Storage.{Db, GroupRow, UserStatus, AuditActor, no_actor}
use simple_alert_proxy.Storage.Users.{user_count}
use simple_alert_proxy.Storage.Sessions.{SessionUserRecord, session_user}
use simple_alert_proxy.Storage.Teams.{TeamMembershipRecord, list_team_memberships_for_user}

pub data Permission : Type 0 where
  read operate admin : Permission

pub data ManagementRole : Type 0 where
  admin operator viewer scoped : ManagementRole

-- `ManagementRole::from_str` and `as_str`
unfoldable pub role_from_str : String → ManagementRole
role_from_str value =
    if str_eq value "admin"
    then ManagementRole.admin
    else if str_eq value "operator"
    then operator
    else if str_eq value "scoped"
    then scoped
    else viewer

unfoldable pub role_as_str : ManagementRole → String
role_as_str ManagementRole.admin = "admin"
role_as_str operator = "operator"
role_as_str viewer = "viewer"
role_as_str scoped = "scoped"

unfoldable pub allows : ManagementRole → Permission → Bool
allows ManagementRole.admin p = true
allows operator read = true
allows operator operate = true
allows viewer read = true
allows _ _ = false

pub data AuthKind : Type 0 where
  anonymous bearer session legacy_loopback : AuthKind

-- Of the user's public record, the fields that the checks read.
pub record PrincipalUser : Type 0 where
  pub id : ℕ
  pub display_name : String

pub record ManagementPrincipal : Type 0 where
  pub role : ManagementRole
  pub user : Option PrincipalUser
  pub team_memberships : List TeamMembershipRecord
  pub csrf_token : Option String
  pub auth_kind : AuthKind

unfoldable pub audit_actor : ManagementPrincipal → Option ℕ → AuditActor
audit_actor p team = elim p.user [
  | none ↦ no_actor
  | some u ↦ record { user_id = some u.id; display_name = some u.display_name; team_id = team }
]

unfoldable pub can_read_everything : ManagementPrincipal → Bool
unfolding allows
can_read_everything p = allows p.role read

unfoldable pub can_operate_everything : ManagementPrincipal → Bool
unfolding allows
can_operate_everything p = allows p.role operate

abbrev pub operates : TeamMembershipRecord → Bool
operates m = str_eq m.team_role "owner" || str_eq m.team_role "operator"

unfoldable pub can_operate_any_team : ManagementPrincipal → Bool
can_operate_any_team p = any operates p.team_memberships

unfoldable pub can_read_any_team : ManagementPrincipal → Bool
can_read_any_team p = elim p.team_memberships [ [] ↦ false | m ∷ rest ↦ true ]

unfoldable pub readable_team_ids : ManagementPrincipal → List ℕ
readable_team_ids p = map (λ m. m.team_id) p.team_memberships

unfoldable pub can_operate_team : ManagementPrincipal → Option ℕ → Bool
unfolding can_operate_everything
can_operate_team p team = if can_operate_everything p then true else elim team [
  | none ↦ false
  | some id ↦ any (λ m. m.team_id == id && operates m) p.team_memberships
]

pub data AccessError : Type 0 where
  unauthorized forbidden not_found bad_bind : AccessError

pub data Checked {ℓ} (A : Type ℓ) : Type ℓ where
  ok : A → Checked A
  err : AccessError → Checked A

-- `AppConfig::management_auth` and the settings that the checks read. `loopback` is what parsing
-- `server.bind` gives: `none` if it is no address, else whether it is a loopback address.
pub record AccessConfig : Type 0 where
  pub management_token : Option String
  pub server_token : Option String
  pub allow_unauthenticated : Bool
  pub local_users : Bool
  pub loopback : Option Bool

unfoldable pub management_auth : AccessConfig → Option String
management_auth config = or_else config.management_token config.server_token

-- What the checks read of a request: the token of its `Authorization: Bearer` header, that of its
-- session cookie (hashed), and its CSRF header.
pub record Credentials : Type 0 where
  pub bearer_token : Option String
  pub session_token : Option String
  pub csrf_header : Option String

-- `authorize_required`, over the bearer token that `parse_bearer_token` found
unfoldable pub authorize_required : Option String → Credentials → Bool
authorize_required none request = false
authorize_required (some expected) request = elim request.bearer_token [
  | none ↦ false
  | some presented ↦ str_eq presented expected
]

-- `authorize`: without a configured token every request passes.
unfoldable pub authorize : Option String → Credentials → Bool
unfolding authorize_required
authorize none request = true
authorize (some expected) request = authorize_required (some expected) request

unfoldable pub principal_from_session_user :
    SessionUserRecord → List TeamMembershipRecord → ManagementPrincipal
unfolding role_from_str
principal_from_session_user u memberships = record {
  role = role_from_str u.global_role;
  user = some (record { id = u.id; display_name = u.display_name });
  team_memberships = memberships;
  csrf_token = some u.csrf_token;
  auth_kind = session;
}

unfoldable pub authenticate_session :
    AccessConfig → ℤ → Credentials → Db → Option ManagementPrincipal × Db
unfolding session_user principal_from_session_user list_team_memberships_for_user
authenticate_session config now request db =
    if config.local_users
    then elim request.session_token [
      | none ↦ (none, db)
      | some token ↦
          let (found, db') = session_user now token db in
          elim found [
            | none ↦ (none, db')
            | some u ↦ (
              some (
                  principal_from_session_user u
                    (list_team_memberships_for_user u.id db' db'.memberships)),
              db',
            )
          ]
    ]
    else (none, db)

unfoldable pub legacy_loopback_management_open : AccessConfig → Db → Checked Bool
unfolding management_auth user_count
legacy_loopback_management_open config db =
    if is_some (management_auth config) || config.local_users && ltb 0 (user_count db)
    then ok false
    else elim config.loopback [ none ↦ err bad_bind | some local ↦ ok local ]

abbrev pub unnamed_admin : AuthKind → ManagementPrincipal
unnamed_admin kind = record {
  role = ManagementRole.admin;
  user = none;
  team_memberships = [];
  csrf_token = none;
  auth_kind = kind;
}

-- `authenticate_management`
unfoldable pub authenticate_management :
    AccessConfig → ℤ → Credentials → Db → Checked ManagementPrincipal × Db
unfolding management_auth authorize_required authenticate_session legacy_loopback_management_open
authenticate_management config now request db =
    if config.allow_unauthenticated
    then (ok (unnamed_admin anonymous), db)
    else if authorize_required (management_auth config) request
    then (ok (unnamed_admin bearer), db)
    else let (found, db') = authenticate_session config now request db in
      elim found [
        | some principal ↦ (ok principal, db')
        | none ↦ elim (legacy_loopback_management_open config db') [
          | err e ↦ (err e, db')
          | ok true ↦ (ok (unnamed_admin legacy_loopback), db')
          | ok false ↦ (err unauthorized, db')
        ]
      ]

abbrev pub admit :
    (ManagementPrincipal → Bool)
    → Checked ManagementPrincipal × Db
    → Checked ManagementPrincipal × Db
admit test (err e, db) = (err e, db)
admit test (ok principal, db) = if test principal then (ok principal, db) else (err forbidden, db)

unfoldable pub require_management :
    AccessConfig → ℤ → Credentials → Permission → Db → Checked ManagementPrincipal × Db
unfolding authenticate_management allows
require_management config now request permission db =
    admit (λ p. allows p.role permission) (authenticate_management config now request db)

unfoldable pub require_lifecycle_management :
    AccessConfig → ℤ → Credentials → Db → Checked ManagementPrincipal × Db
unfolding authenticate_management can_operate_everything can_operate_any_team
require_lifecycle_management config now request db =
    admit (λ p. can_operate_everything p || can_operate_any_team p)
      (authenticate_management config now request db)

unfoldable pub require_read_management :
    AccessConfig → ℤ → Credentials → Db → Checked ManagementPrincipal × Db
unfolding authenticate_management can_read_everything can_read_any_team
require_read_management config now request db =
    admit (λ p. can_read_everything p || can_read_any_team p)
      (authenticate_management config now request db)

abbrev pub is_session : AuthKind → Bool
is_session session = true
is_session _ = false

unfoldable pub require_csrf : ManagementPrincipal → Credentials → Checked (Unit {0})
require_csrf principal request =
    if not (is_session principal.auth_kind) then ok tt else elim principal.csrf_token [
      | none ↦ err unauthorized
      | some expected ↦ elim request.csrf_header [
        | none ↦ err unauthorized
        | some presented ↦ if str_eq presented expected then ok tt else err unauthorized
      ]
    ]

-- `list_alert_groups_for_teams`, over the groups that `list_alert_groups` gives
unfoldable pub list_alert_groups_for_teams : List ℕ → List (ℕ × GroupRow) → List (ℕ × GroupRow)
list_alert_groups_for_teams teams =
    keep (λ g. elim g.1.team_id [ none ↦ true | some team ↦ any (λ t. t == team) teams ])

unfoldable pub visible_alert_groups :
    ManagementPrincipal → List (ℕ × GroupRow) → List (ℕ × GroupRow)
unfolding can_read_everything list_alert_groups_for_teams readable_team_ids
visible_alert_groups p groups =
    if can_read_everything p
    then groups
    else list_alert_groups_for_teams (readable_team_ids p) groups

unfoldable pub require_group_operation : ManagementPrincipal → ℕ → Db → Checked (Option ℕ)
unfolding can_operate_team
require_group_operation p id db = elim (find id db.groups.rows) [
  | none ↦ err not_found
  | some g ↦ if can_operate_team p g.team_id then ok g.team_id else err forbidden
]

-- The team of a delivery's group; the group is joined from the left, so it may be absent.
abbrev pub event_team : Db → Option ℕ → Option ℕ
event_team db none = none
event_team db (some group) = elim (find group db.groups.rows) [ none ↦ none | some g ↦ g.team_id ]

unfoldable pub require_delivery_operation : ManagementPrincipal → ℕ → Db → Checked (Unit {0})
unfolding can_operate_team
require_delivery_operation p id db = elim (find id db.deliveries.rows) [
  | none ↦ err not_found
  | some d ↦ elim (find d.alert_event_id db.events.rows) [
    | none ↦ err not_found
    | some e ↦ if can_operate_team p (event_team db e.alert_group_id) then ok tt else err forbidden
  ]
]
