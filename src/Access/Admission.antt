-- ===== src/Access/Admission.antt =====
-- Who is admitted to the management API, and as what.
use simple_alert_proxy.Prelude.{
  ℕ, String, Bool, true, false, ◌&&◌, ◌||◌, Option, none, some, List, [], ◌∷◌, is_some, ltb, ◌≡◌,
  refl, subst, arith, inl, inr, ◌⊎◌, Bool-cases, Option-cases,
}
use simple_alert_proxy.Prelude.Int.{ℤ}
use simple_alert_proxy.Table.{Table, find, count_where}
use simple_alert_proxy.Storage.{Db, UserRow}
use simple_alert_proxy.Storage.Users.{user_count}
use simple_alert_proxy.Storage.Sessions.{
  SessionUserRecord, session_user, find_session, delete_session,
}
use simple_alert_proxy.Storage.Teams.{list_team_memberships_for_user}
use simple_alert_proxy.Access.{
  anonymous, bearer, legacy_loopback, ManagementPrincipal, AccessError, Checked, ok, err,
  AccessConfig, management_auth, Credentials, authorize_required, authenticate_session,
  principal_from_session_user, legacy_loopback_management_open, unnamed_admin,
  authenticate_management,
}

-- Whether the request presents the management token.
abbrev pub presents_token : AccessConfig → Credentials → Bool
presents_token config request = authorize_required (management_auth config) request

-- `users_exist`, as `legacy_loopback_management_open` asks it.
abbrev has_users : AccessConfig → Db → Bool
has_users config db = config.local_users && ltb 0 (user_count db)

-- How a request may come to be admitted, and as what.
pub data Admitted (config : AccessConfig) (now : ℤ) (request : Credentials) (db : Db)
    : ManagementPrincipal → Type 0 where
  open_access :
      config.allow_unauthenticated ≡ true → Admitted config now request db (unnamed_admin anonymous)
  by_token :
      presents_token config request ≡ true → Admitted config now request db (unnamed_admin bearer)
  by_session :
      (token : String) (u : SessionUserRecord)
      → config.local_users ≡ true
      → request.session_token ≡ some token
      → (session_user now token db).0 ≡ some u
      → Admitted config now request db (
          principal_from_session_user u (
            list_team_memberships_for_user u.id
              (session_user now token db).1
              (session_user now token db).1.memberships))
  on_loopback :
      config.loopback ≡ some true
      → management_auth config ≡ none
      → (config.local_users ≡ true → db.users.rows ≡ [])
      → Admitted config now request db (unnamed_admin legacy_loopback)

session_admits :
    (config : AccessConfig) (now : ℤ) (request : Credentials) (db : Db) (p : ManagementPrincipal)
    → (authenticate_session config now request db).0 ≡ some p
    → Admitted config now request db p
unfolding authenticate_session
session_admits config now request db p h = elim (Bool-cases config.local_users) [
  | inr e ↦ absurd (ground arith)
  | inl e ↦ elim (Option-cases request.session_token) [
    | inl q ↦ absurd (ground arith)
    | inr (token, q) ↦ elim (Option-cases (session_user now token db).0) [
      | inl r ↦ absurd (ground arith)
      | inr (u, r) ↦
          subst (λ x. Admitted config now request db x) (ground arith) (by_session token u e q r)
    ]
  ]
]

loopback_opens :
    (config : AccessConfig) (db : Db)
    → legacy_loopback_management_open config db ≡ ok true
    → (config.loopback ≡ some true)
      × (management_auth config ≡ none)
      × (has_users config db ≡ false)
unfolding legacy_loopback_management_open
loopback_opens config db h =
    elim (Bool-cases (is_some (management_auth config) || has_users config db)) [
      | inl e ↦ absurd (ground arith)
      | inr e ↦ elim (Option-cases config.loopback) [
        | inl q ↦ absurd (ground arith)
        | inr (local, q) ↦ elim (Bool-cases local) [
          | inl r ↦ (ground arith, no_token (management_auth config) (ground arith), ground arith)
          | inr r ↦ absurd (ground arith)
        ]
      ]
    ]
  where
    no_token : (o : Option String) → is_some o ≡ false → o ≡ none
    no_token none e = refl
    no_token (some t) e = absurd (cc)

-- No user is counted only if there is no row.
no_rows : (l : List (ℕ × UserRow)) → ltb 0 (count_where (λ _ _. true) l) ≡ false → l ≡ []
unfolding count_where
no_rows [] h = refl
no_rows (x ∷ rest) h = absurd (ground arith)

session_user-users :
    (now : ℤ) (token : String) (db : Db) → (session_user now token db).1.users ≡ db.users
unfolding session_user delete_session
session_user-users now token db = elim (Option-cases (find_session token db.sessions)) [
  | inl e ↦ ground (arith, e)
  | inr (s, e) ↦ elim (Option-cases (find s.user_id db.users.rows)) [
    | inl f ↦ ground (arith, e, f)
    | inr (u, f) ↦ ground (arith, e, f)
  ]
]

-- Looking for a session changes no user.
authenticate_session-users :
    (config : AccessConfig) (now : ℤ) (request : Credentials) (db : Db)
    → (authenticate_session config now request db).1.users ≡ db.users
unfolding authenticate_session
authenticate_session-users config now request db = elim (Bool-cases config.local_users) [
  | inr e ↦ rw e refl
  | inl e ↦ elim (Option-cases request.session_token) [
    | inl q ↦ rw (e, q) refl
    | inr (token, q) ↦ elim (Option-cases (session_user now token db).0) [
      | inl r ↦ ground (arith, e, q, r, session_user-users now token db)
      | inr (u, r) ↦ ground (arith, e, q, r, session_user-users now token db)
    ]
  ]
]

no_users :
    (config : AccessConfig) (now : ℤ) (request : Credentials) (db : Db)
    → has_users config (authenticate_session config now request db).1 ≡ false
    → config.local_users ≡ true
    → db.users.rows ≡ []
unfolding user_count
no_users config now request db none_counted local =
    subst (λ (t : Table UserRow). t.rows ≡ []) (authenticate_session-users config now request db)
      (no_rows (authenticate_session config now request db).1.users.rows (ground arith))

Checked-cases :
    {A : Type 0} (r : Checked A) → ((a : A) × (r ≡ ok a)) ⊎ ((e : AccessError) × (r ≡ err e))
Checked-cases (ok a) = inl (a, refl)
Checked-cases (err e) = inr (e, refl)

-- The principal of a request, when it is authenticated, comes by one of four ways: the settings open
-- the API to all; the request presents the management token; its session cookie is that of a valid
-- session; or the server is bound to a loopback address, no token is set, and local users are off or
-- the database of the request has none.
pub authenticate_management-Admitted :
    (config : AccessConfig) (now : ℤ) (request : Credentials) (db : Db) (p : ManagementPrincipal)
    → (authenticate_management config now request db).0 ≡ ok p
    → Admitted config now request db p
unfolding authenticate_management
authenticate_management-Admitted config now request db p h =
    elim (Bool-cases config.allow_unauthenticated) [
      | inl e ↦ subst (λ x. Admitted config now request db x) (ground arith) (open_access e)
      | inr e ↦ elim (Bool-cases (presents_token config request)) [
        | inl q ↦ subst (λ x. Admitted config now request db x) (ground arith) (by_token q)
        | inr q ↦ elim (Option-cases (authenticate_session config now request db).0) [
          | inr (u, r) ↦ session_admits config now request db p (ground arith)
          | inl r ↦
              elim (Checked-cases (
                legacy_loopback_management_open config
                  (authenticate_session config now request db).1)) [
                    | inr (x, w) ↦ absurd (ground arith)
                    | inl (local, w) ↦ elim (Bool-cases local) [
                      | inr n ↦ absurd (ground arith)
                      | inl y ↦
                          let (l, t, u) =
                            loopback_opens config (authenticate_session config now request db).1
                              (rw w (ground arith)) in
                          subst (λ x. Admitted config now request db x) (ground arith)
                            (on_loopback l t (no_users config now request db u))
                    ]
                  ]
        ]
      ]
    ]
