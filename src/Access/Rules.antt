-- ===== src/Access/Rules.antt =====
-- What a principal may see and do.
use simple_alert_proxy.Prelude.{
  All, All-mono, All-keep, any, map, ap, ◌==◌, ℕ, Bool, true, false, ◌&&◌, Option, none, some, List,
  [], ◌∷◌, str_eq, str_eq_iff, ◌≡◌, refl, subst, arith, inl, inr, ◌⊎◌, ◌↔◌, suc, get_elem?,
  Bool-cases, Option-cases,
}
use simple_alert_proxy.Table.{find}
use simple_alert_proxy.Storage.{Db, GroupRow}
use simple_alert_proxy.Storage.Sessions.{SessionUserRecord}
use simple_alert_proxy.Storage.Teams.{TeamMembershipRecord}
use simple_alert_proxy.Access.{
  visible_alert_groups, list_alert_groups_for_teams, readable_team_ids, can_read_everything,
  ManagementRole, operator, viewer, scoped, allows, operate, ManagementPrincipal,
  can_operate_everything, operates, can_operate_team, ok, Credentials, principal_from_session_user,
  require_csrf, require_group_operation,
}

-- The CSRF check of a principal that came by a session passes exactly when the request repeats the
-- CSRF token of that session.
pub require_csrf-principal_from_session_user :
    (u : SessionUserRecord) (memberships : List TeamMembershipRecord) (request : Credentials)
    → (require_csrf (principal_from_session_user u memberships) request ≡ ok tt)
      ↔ (request.csrf_header ≡ some u.csrf_token)
unfolding require_csrf principal_from_session_user
require_csrf-principal_from_session_user u memberships request = (
  λ h. elim (Option-cases request.csrf_header) [
    | inl e ↦ absurd (ground arith)
    | inr (t, e) ↦ elim (Bool-cases (str_eq t u.csrf_token)) [
      | inl q ↦ ground (arith, (str_eq_iff t u.csrf_token).0 q)
      | inr q ↦ absurd (ground arith)
    ]
  ],
  λ h. ground (arith, (str_eq_iff u.csrf_token u.csrf_token).1 refl),
)

-- A membership that lets its user operate the team.
pub record Operates (team : ℕ) (m : TeamMembershipRecord) : Type 0 where
  pub of_team : m.team_id ≡ team
  pub role : (m.team_role ≡ "owner") ⊎ (m.team_role ≡ "operator")

any_member :
    (f : TeamMembershipRecord → Bool) (l : List TeamMembershipRecord)
    → any f l ≡ true
    → (i : ℕ) × (m : TeamMembershipRecord) × (get_elem? l i ≡ some m) × (f m ≡ true)
any_member f [] h = absurd (cc)
any_member f (m ∷ rest) h = elim (Bool-cases (f m)) [
  | inl e ↦ (0, m, refl, e)
  | inr e ↦ let (i, x, g, k) = any_member f rest (ground arith) in (suc i, x, g, k)
]

-- Whether the role of a principal lets it operate every team.
abbrev pub OperatesAll : ManagementRole → Type 0
OperatesAll r = (r ≡ ManagementRole.admin) ⊎ (r ≡ operator)

role_operates : (r : ManagementRole) → allows r operate ≡ true → OperatesAll r
unfolding allows
role_operates ManagementRole.admin h = inl refl
role_operates operator h = inr refl
role_operates viewer h = absurd (cc)
role_operates scoped h = absurd (cc)

-- The principal may operate every team, or this one by a membership.
abbrev pub MayOperate : ManagementPrincipal → Option ℕ → Type 0
MayOperate p team =
    OperatesAll p.role
    ⊎ ((t : ℕ) × (i : ℕ) × (m : TeamMembershipRecord) × (team ≡ some t)
        × (get_elem? p.team_memberships i ≡ some m)
        × Operates t m)

operates-Operates :
    (t : ℕ) (m : TeamMembershipRecord) → (m.team_id == t && operates m) ≡ true → Operates t m
operates-Operates t m h = record {
  of_team = ground arith;
  role = elim (Bool-cases (str_eq m.team_role "owner")) [
    | inl e ↦ inl ((str_eq_iff m.team_role "owner").0 e)
    | inr e ↦ inr ((str_eq_iff m.team_role "operator").0 (ground arith))
  ];
}

can_operate_team-MayOperate :
    (p : ManagementPrincipal) (team : Option ℕ) → can_operate_team p team ≡ true → MayOperate p team
unfolding can_operate_team can_operate_everything
can_operate_team-MayOperate p none h = inl (role_operates p.role (ground arith))
can_operate_team-MayOperate p (some t) h = elim (Bool-cases (allows p.role operate)) [
  | inl e ↦ inl (role_operates p.role e)
  | inr e ↦
      let (i, m, g, k) =
        any_member (λ m. m.team_id == t && operates m) p.team_memberships (ground arith) in
      inr (t, i, m, refl, g, operates-Operates t m k)
]

-- An operation on a group that is let through is on a group that exists, and the principal is an
-- admin or operator, or else the group has a team and the principal is its owner or operator.
pub require_group_operation-permitted :
    (p : ManagementPrincipal) (id : ℕ) (db : Db) (team : Option ℕ)
    → require_group_operation p id db ≡ ok team
    → (g : GroupRow) × (find id db.groups.rows ≡ some g) × (g.team_id ≡ team) × MayOperate p team
unfolding require_group_operation
require_group_operation-permitted p id db team h = elim (Option-cases (find id db.groups.rows)) [
  | inl e ↦ absurd (ground arith)
  | inr (g, e) ↦ elim (Bool-cases (can_operate_team p g.team_id)) [
    | inr c ↦ absurd (ground arith)
    | inl c ↦ (
      g,
      e,
      ground arith,
      subst (λ o. MayOperate p o) (ground arith) (can_operate_team-MayOperate p g.team_id c),
    )
  ]
]

-- The group has no team, or is of a team that the principal is a member of.
abbrev pub Visible : ManagementPrincipal → GroupRow → Type 0
Visible p g =
    (g.team_id ≡ none)
    ⊎ ((i : ℕ) × (m : TeamMembershipRecord) × (get_elem? p.team_memberships i ≡ some m)
        × (g.team_id ≡ some m.team_id))

any_team :
    (t : ℕ) (l : List TeamMembershipRecord)
    → any (λ x. x == t) (map (λ m. m.team_id) l) ≡ true
    → (i : ℕ) × (m : TeamMembershipRecord) × (get_elem? l i ≡ some m) × (t ≡ m.team_id)
any_team t [] h = absurd (cc)
any_team t (m ∷ rest) h = elim (Bool-cases (m.team_id == t)) [
  | inl e ↦ (0, m, refl, ground arith)
  | inr e ↦ let (i, x, g, k) = any_team t rest (ground arith) in (suc i, x, g, k)
]

-- A principal whose role does not let him read everything sees only groups without a team and
-- groups of his teams.
pub visible_alert_groups-Visible :
    (p : ManagementPrincipal) (groups : List (ℕ × GroupRow))
    → can_read_everything p ≡ false
    → All (λ g. Visible p g.1) (visible_alert_groups p groups)
unfolding visible_alert_groups list_alert_groups_for_teams readable_team_ids
visible_alert_groups-Visible p groups limited =
    rw limited
      (All-mono _ (λ g. Visible p g.1) (λ g h. seen g.1 g.1.team_id refl h) _ (All-keep _ groups))
  where
    seen :
        (g : GroupRow) (o : Option ℕ)
        → g.team_id ≡ o
        → elim o [
          | none ↦ true
          | some team ↦ any (λ t. t == team) (map (λ m. m.team_id) p.team_memberships)
        ]
          ≡ true
        → Visible p g
    seen g none e h = inl e
    seen g (some team) e h =
        let (i, m, q, k) = any_team team p.team_memberships h in inr (i, m, q, rw e (ap some k))
