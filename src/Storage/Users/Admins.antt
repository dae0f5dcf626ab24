-- ===== src/Storage/Users/Admins.antt =====
-- storage.rs, `disable_user`: active admins, and the row and sessions of the user.
use simple_alert_proxy.Prelude.{
  ℕ, ◌+◌, ◌-◌, ◌≤◌, ◌<◌, String, Bool, true, false, ◌&&◌, Option, none, some, List, [], ◌∷◌, ◌==◌,
  leb, not, keep, All, All-keep, All-mono, if◌then◌else◌, ◌≡◌, ◌⊎◌, refl, ap, arith, Bool-cases,
  inl, inr, ==_refl,
}
use simple_alert_proxy.Prelude.Int.{ℤ}
use simple_alert_proxy.Table.{Table, find, update_where, exists_where, count_where, at}
use simple_alert_proxy.Table.Laws.{IsFresh, Fresh, find-update_at, count-update_at}
use simple_alert_proxy.Storage.{
  Db, UserRow, UserStatus, AuditActor, Result, ok, err, user_not_found,
}
use simple_alert_proxy.Storage.Users.{
  update_user, user_exists, DisableUserOutcome, disabled, last_active_admin, admin_row,
  is_active_admin, active_admin_count, disable_user,
}

-- Whether the row of an id is an active admin's.
abbrev pub admin_at : ℕ → Option UserRow → Bool
admin_at id none = false
admin_at id (some u) = admin_row id u

is_active_admin-none :
    (n id : ℕ) (l : List (ℕ × UserRow))
    → Fresh n l
    → n < id
    → exists_where (λ i u. i == id && admin_row i u) l ≡ false
unfolding exists_where
is_active_admin-none n id [] f h = refl
is_active_admin-none n id ((i, u) ∷ rest) f h =
    ground (arith, is_active_admin-none (i - 1) id rest f.2)

-- With distinct ids, EXISTS at an id looks at the one row.
pub is_active_admin-find :
    (n id : ℕ) (l : List (ℕ × UserRow))
    → Fresh n l
    → exists_where (λ i u. i == id && admin_row i u) l ≡ admin_at id (find id l)
unfolding exists_where find admin_at
is_active_admin-find n id [] f = refl
is_active_admin-find n id ((i, u) ∷ rest) f =
    ground
      (arith, is_active_admin-find (i - 1) id rest f.2, is_active_admin-none (i - 1) id rest f.2)

exists-find :
    (id : ℕ) (l : List (ℕ × UserRow))
    → exists_where (at id) l ≡ true
    → (u : UserRow) × (find id l ≡ some u)
unfolding exists_where find
exists-find id [] e = absurd (ground arith)
exists-find id ((i, u) ∷ rest) e = elim (Bool-cases (i == id)) [
  | inl q ↦ rw q (u, refl)
  | inr q ↦ rw q (exists-find id rest (ground arith))
]

module _ (shown : ℕ → String) (now : ℤ) (id : ℕ) (actor : AuditActor) (db : Db) where
  abbrev pub after : Result DisableUserOutcome × Db
  after = disable_user shown now id actor db

  -- The three ends of `disable_user`.
  pub disable_cases :
      ((after ≡ (err user_not_found, db)) × (user_exists db id ≡ false))
      ⊎ ((after ≡ (ok last_active_admin, db))
          × (user_exists db id ≡ true)
          × (is_active_admin db id ≡ true)
          × (active_admin_count db ≤ 1))
      ⊎ ((after.0 ≡ ok disabled)
          × (user_exists db id ≡ true)
          × (after.1.users
              ≡ (update_user id
                  (λ u. record u { status = UserStatus.disabled; updated_at = now })
                  db).users)
          × (after.1.sessions ≡ keep (λ s. not (s.user_id == id)) db.sessions)
          × ((is_active_admin db id ≡ false) ⊎ (1 < active_admin_count db)))
  unfolding disable_user
  disable_cases = elim (Bool-cases (user_exists db id)) [
    | inr missing ↦ inl (ground arith, missing)
    | inl known ↦ elim (Bool-cases (is_active_admin db id && leb (active_admin_count db) 1)) [
      | inl last ↦ inr (inl (ground arith, known, ground arith, ground arith))
      | inr free ↦ inr (inr (ground arith, known, ground arith, ground arith, ground arith))
    ]
  ]

  count_after :
      IsFresh db.users
      → user_exists db id ≡ true
      → count_where admin_row (
            update_where
              (at id)
              (λ u. record u { status = UserStatus.disabled; updated_at = now })
              db.users.rows)
          + (if is_active_admin db id then 1 else 0)
        ≡ active_admin_count db
  unfolding active_admin_count is_active_admin admin_at
  count_after fresh known =
      let (u, found) = exists-find id db.users.rows known in
      let c =
        count-update_at db.users.seq id admin_row
          (λ x. record x { status = UserStatus.disabled; updated_at = now }) db.users.rows {a = u}
          fresh found in
      rw (is_active_admin-find db.users.seq id db.users.rows fresh, found) (omega (arith, c))

  -- Where user ids are unique and some active admin is there, some is there after `disable_user`
  -- too.
  pub disable_user-keeps_admin :
      IsFresh db.users → 1 ≤ active_admin_count db → 1 ≤ active_admin_count after.1
  disable_user-keeps_admin fresh some_admin = elim disable_cases [
    | inl (e, _) ↦ rw e some_admin
    | inr (inl (e, _, _, _)) ↦ rw e some_admin
    | inr (inr (e, known, users, sessions, free)) ↦
        let c = count_after fresh known in keeps c (users_count users) free
  ]
    where
      disabled_count : ℕ
      disabled_count = count_where admin_row (
          update_where (at id) (λ u. record u { status = UserStatus.disabled; updated_at = now })
            db.users.rows)

      users_count :
          after.1.users
            ≡ (update_user id
                (λ u. record u { status = UserStatus.disabled; updated_at = now })
                db).users
          → active_admin_count after.1 ≡ disabled_count
      users_count e =
          unfold active_admin_count in ap (λ (t : Table UserRow). count_where admin_row t.rows) e

      keeps :
          disabled_count + (if is_active_admin db id then 1 else 0) ≡ active_admin_count db
          → active_admin_count after.1 ≡ disabled_count
          → (is_active_admin db id ≡ false) ⊎ (1 < active_admin_count db)
          → 1 ≤ active_admin_count after.1
      keeps c e (inl not_admin) = ground arith
      keeps c e (inr more) = ground arith

  -- Where user ids are unique and the user exists, when `disable_user` answers `disabled` the
  -- user's row is disabled, and no session of his is left.
  pub disable_user-disabled :
      IsFresh db.users
      → user_exists db id ≡ true
      → after.0 ≡ ok disabled
      → ((u : UserRow) × (find id after.1.users.rows ≡ some u) × (u.status ≡ UserStatus.disabled))
        × All (λ s. (s.user_id == id) ≡ false) after.1.sessions
  disable_user-disabled fresh known answer = elim disable_cases [
    | inl (e, m) ↦ cc
    | inr (inl (e, _, admin, last)) ↦ absurd (ground (arith, e))
    | inr (inr (e, _, users, sessions, free)) ↦ (disabled_row users, no_sessions sessions)
  ]
    where
      disabled_row :
          after.1.users
            ≡ (update_user id
                (λ u. record u { status = UserStatus.disabled; updated_at = now })
                db).users
          → (u : UserRow) × (find id after.1.users.rows ≡ some u) × (u.status ≡ UserStatus.disabled)
      disabled_row e =
          let (u, found) = exists-find id db.users.rows known in
          (
            record u { status = UserStatus.disabled; updated_at = now },
            rw e (rw (find-update_at id id _ db.users.rows, ==_refl id, found)),
            refl,
          )

      no_sessions :
          after.1.sessions ≡ keep (λ s. not (s.user_id == id)) db.sessions
          → All (λ s. (s.user_id == id) ≡ false) after.1.sessions
      no_sessions e = rw e (All-mono _ _ (λ s h. ground arith) _ (All-keep _ db.sessions))
