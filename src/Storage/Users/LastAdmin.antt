-- ===== src/Storage/Users/LastAdmin.antt =====
-- storage.rs, `disable_user`: who the last active admin is.
use simple_alert_proxy.Prelude.{
  ℕ, ◌-◌, ◌≤◌, String, Bool, true, false, ◌&&◌, some, List, [], ◌∷◌, ◌==◌, ◌≡◌, refl, ◌↔◌, arith,
  Option-cases, Bool-cases, inl, inr, str_eq, str_eq_iff,
}
use simple_alert_proxy.Prelude.Int.{ℤ}
use simple_alert_proxy.Table.{find, count_where, exists_where, at}
use simple_alert_proxy.Table.Laws.{
  IsFresh, Fresh, Fresh-found, Fresh-AllRows, AllRows, AllRows-mono, AllRows-and,
  count-zero_of_AllRows,
}
use simple_alert_proxy.Storage.{Db, UserRow, UserStatus, AuditActor, ok}
use simple_alert_proxy.Storage.Users.{
  user_exists, is_active, last_active_admin, admin_row, is_active_admin, active_admin_count,
  disable_user,
}
use simple_alert_proxy.Storage.Users.Admins.{admin_at, is_active_admin-find, disable_cases}

module _ {A : Type 0} (q : ℕ → A → Bool) where
  count-found :
      (k : ℕ) (l : List (ℕ × A)) {a : A} → find k l ≡ some a → q k a ≡ true → 1 ≤ count_where q l
  unfolding find count_where
  count-found k [] e t = absurd (cc)
  count-found k ((i, b) ∷ rest) {a} e t = elim (Bool-cases (i == k)) [
    | inl w ↦
        let same : i ≡ k = ground arith in
        let here : b ≡ a = ground arith in
        let counted : q i b ≡ true = rw (same, here) t in ground (arith, counted)
    | inr w ↦ ground (arith, count-found k rest {a = a} (ground arith) t)
  ]

  -- Two rows of different ids are counted twice.
  count-two :
      (j k : ℕ) (l : List (ℕ × A)) {a b : A}
      → find j l ≡ some a
      → find k l ≡ some b
      → q j a ≡ true
      → q k b ≡ true
      → (j == k) ≡ false
      → 2 ≤ count_where q l
  unfolding find count_where
  count-two j k [] e f t u ne = absurd (cc)
  count-two j k ((i, x) ∷ rest) {a} {b} e f t u ne = elim (Bool-cases (i == j)) [
    | inl w ↦
        let same : i ≡ j = ground arith in
        let here : x ≡ a = ground arith in
        let counted : q i x ≡ true = rw (same, here) t in
        let apart : (i == k) ≡ false = ground arith in
        ground (arith, counted, count-found k rest {a = b} (ground arith) u)
    | inr w ↦ elim (Bool-cases (i == k)) [
      | inl v ↦
          let same : i ≡ k = ground arith in
          let here : x ≡ b = ground arith in
          let counted : q i x ≡ true = rw (same, here) u in
          ground (arith, counted, count-found j rest {a = a} (ground arith) t)
      | inr v ↦
          ground (arith, count-two j k rest {a = a} {b = b} (ground arith) (ground arith) t u ne)
    ]
  ]

  -- Where ids are distinct and only the row of one id passes, at most one is counted.
  count-only :
      (n k : ℕ) (l : List (ℕ × A))
      → Fresh n l
      → AllRows (λ i a. q i a ≡ true → i ≡ k) l
      → count_where q l ≤ 1
  unfolding count_where
  count-only n k [] h only = omega arith
  count-only n k ((i, a) ∷ rest) h only = elim (Bool-cases (q i a)) [
    | inr e ↦ ground (arith, e, count-only (i - 1) k rest h.2 only.1)
    | inl e ↦
        let none_else : AllRows (λ j b. q j b ≡ false) rest =
          AllRows-mono _ (λ j b. q j b ≡ false)
            (λ j b both. elim (Bool-cases (q j b)) [
              | inr f ↦ f
              | inl f ↦
                  let one = only.0 e in
                  let other = both.1 f in absurd (omega (arith, both.0, one, other, h.0))
            ])
            rest (AllRows-and _ _ rest (Fresh-AllRows (i - 1) rest h.2) only.1) in
        ground (arith, e, count-zero_of_AllRows q rest none_else)
  ]

-- A row that is found exists.
find-exists :
    {A : Type 0} (k : ℕ) (l : List (ℕ × A)) {a : A}
    → find k l ≡ some a
    → exists_where (at k) l ≡ true
unfolding find exists_where
find-exists k [] e = absurd (cc)
find-exists k ((i, b) ∷ rest) {a} e = elim (Bool-cases (i == k)) [
  | inl q ↦ ground arith
  | inr q ↦ ground (arith, find-exists k rest {a = a} (ground arith))
]

-- An active user of the global role "admin".
abbrev pub IsActiveAdmin : UserRow → Type 0
IsActiveAdmin u = (u.status ≡ UserStatus.active) × (u.global_role ≡ "admin")

admin_row-IsActiveAdmin : (id : ℕ) (u : UserRow) → IsActiveAdmin u → admin_row id u ≡ true
admin_row-IsActiveAdmin id u h =
    let role : str_eq u.global_role "admin" ≡ true = (str_eq_iff u.global_role "admin").1 h.1 in
    rw (h.0, role) refl

IsActiveAdmin-admin_row : (id : ℕ) (u : UserRow) → admin_row id u ≡ true → IsActiveAdmin u
IsActiveAdmin-admin_row id u h =
    (active_status u.status (ground arith), (str_eq_iff u.global_role "admin").0 (ground arith))
  where
    active_status : (s : UserStatus) → is_active s ≡ true → s ≡ UserStatus.active
    active_status UserStatus.active e = refl
    active_status UserStatus.disabled e = absurd (cc)

-- The user of `id` is an active admin, and whoever is one is that user.
abbrev pub IsLastAdmin : ℕ → Db → Type 0
IsLastAdmin id db =
    ((u : UserRow) × (find id db.users.rows ≡ some u) × IsActiveAdmin u)
    × ((j : ℕ) (v : UserRow) → find j db.users.rows ≡ some v → IsActiveAdmin v → j ≡ id)

module _ (id : ℕ) (db : Db) (fresh : IsFresh db.users) where
  guard-IsLastAdmin : is_active_admin db id ≡ true → active_admin_count db ≤ 1 → IsLastAdmin id db
  unfolding is_active_admin active_admin_count
  guard-IsLastAdmin admin few = (row, only)
    where
      found :
          exists_where (λ i u. i == id && admin_row i u) db.users.rows
          ≡ admin_at id (find id db.users.rows)
      found = is_active_admin-find db.users.seq id db.users.rows fresh

      row : (u : UserRow) × (find id db.users.rows ≡ some u) × IsActiveAdmin u
      row = elim (Option-cases (find id db.users.rows)) [
        | inl e ↦ absurd (ground (arith, found, e))
        | inr (u, e) ↦ (u, e, IsActiveAdmin-admin_row id u (ground (arith, found, e)))
      ]

      only : (j : ℕ) (v : UserRow) → find j db.users.rows ≡ some v → IsActiveAdmin v → j ≡ id
      only j v e h = elim (Bool-cases (j == id)) [
        | inl q ↦ ground arith
        | inr q ↦
            let (u, f, a) = row in
            let two =
              count-two admin_row j id db.users.rows {a = v} {b = u} e f
                (admin_row-IsActiveAdmin j v h) (admin_row-IsActiveAdmin id u a) q in
            absurd (omega (arith, two, few))
      ]

  IsLastAdmin-guard :
      IsLastAdmin id db → (is_active_admin db id ≡ true) × (active_admin_count db ≤ 1)
  unfolding is_active_admin active_admin_count
  IsLastAdmin-guard ((u, e, a), only) = (
    ground (
      arith,
      is_active_admin-find db.users.seq id db.users.rows fresh,
      e,
      admin_row-IsActiveAdmin id u a,
    ),
    count-only admin_row db.users.seq id db.users.rows fresh (
        AllRows-mono _ (λ i v. admin_row i v ≡ true → i ≡ id)
          (λ i v f t. only i v f (IsActiveAdmin-admin_row i v t)) db.users.rows
          (Fresh-found db.users.seq db.users.rows fresh)),
  )

-- Where user ids are unique, `disable_user` answers that the user is the last active admin exactly
-- when he is an active user with the role "admin" and no user of another id is.
pub disable_user-IsLastAdmin :
    (shown : ℕ → String) (now : ℤ) (id : ℕ) (actor : AuditActor) (db : Db)
    → IsFresh db.users
    → ((disable_user shown now id actor db).0 ≡ ok last_active_admin) ↔ IsLastAdmin id db
disable_user-IsLastAdmin shown now id actor db fresh = elim (disable_cases shown now id actor db) [
  | inl (e, m) ↦ ((λ q. absurd (ground (arith, e))), (λ q. absurd (unknown q m)))
  | inr (inl (e, _, admin, last)) ↦
      ((λ _. guard-IsLastAdmin id db fresh admin last), (λ _. rw e refl))
  | inr (inr (e, _, users, sessions, free)) ↦ (
    (λ q. absurd (ground arith)),
    (λ q.
        let g = IsLastAdmin-guard id db fresh q in
        absurd (elim free [ inl x ↦ ground (arith, g.0, x) | inr x ↦ omega (arith, g.1) ])),
  )
]
  where
    unknown : IsLastAdmin id db → user_exists db id ≡ false → ⊥
    unknown q m = let ((u, e, a), only) = q in ground (arith, find-exists id db.users.rows e)
