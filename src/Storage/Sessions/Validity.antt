-- ===== src/Storage/Sessions/Validity.antt =====
-- Which tokens are accepted.
use simple_alert_proxy.Prelude.{
  ℕ, String, true, false, none, some, List, [], ◌∷◌, ◌==◌, str_eq, not, keep, All, All-keep,
  All-mono, ◌≡◌, ◌≢◌, refl, arith, Option-cases, Bool-cases, inl, inr, ==_refl, subst,
}
use simple_alert_proxy.Prelude.Int.{ℤ, leb_ℤ}
use simple_alert_proxy.Table.{find}
use simple_alert_proxy.Storage.{Db, UserRow, UserStatus, SessionRow, AuditActor}
use simple_alert_proxy.Storage.Users.{update_user_password, user_exists}
use simple_alert_proxy.Storage.Sessions.{
  find_session, session_user, SessionUserRecord, delete_session,
}

find_session-All :
    (P : SessionRow → Type 0) (token : String) (l : List SessionRow) {s : SessionRow}
    → All P l
    → find_session token l ≡ some s
    → P s
unfolding find_session
find_session-All P token [] h e = absurd (ground arith)
find_session-All P token (x ∷ rest) {s} h e = elim (Bool-cases (str_eq x.token_hash token)) [
  | inl t ↦ let q : x ≡ s = ground arith in subst P q h.0
  | inr t ↦ find_session-All P token rest h.1 (ground arith)
]

-- A token that is accepted is that of a stored session, which is not past its end and belongs to an
-- active user, and the answer names that user with the session's CSRF token.
pub session_user-valid :
    (now : ℤ) (token : String) (db : Db) (r : SessionUserRecord)
    → (session_user now token db).0 ≡ some r
    → (s : SessionRow) × (u : UserRow) × (find_session token db.sessions ≡ some s)
      × (find s.user_id db.users.rows ≡ some u)
      × (leb_ℤ s.expires_at now ≡ false)
      × (u.status ≡ UserStatus.active)
      × (r.id ≡ s.user_id)
      × (r.csrf_token ≡ s.csrf_token)
      × (r.global_role ≡ u.global_role)
unfolding session_user
session_user-valid now token db r h = elim (Option-cases (find_session token db.sessions)) [
  | inl e ↦ absurd (ground arith)
  | inr (s, e) ↦ elim (Option-cases (find s.user_id db.users.rows)) [
    | inl f ↦ absurd (ground arith)
    | inr (u, f) ↦
        (s, u, e, f, ground arith, ground arith, ground arith, ground arith, ground arith)
  ]
]

find_session-keep :
    (token : String) (l : List SessionRow)
    → find_session token (keep (λ s. not (str_eq s.token_hash token)) l) ≡ none
unfolding find_session
find_session-keep token [] = refl
find_session-keep token (s ∷ rest) = elim (Bool-cases (str_eq s.token_hash token)) [
  | inl t ↦ rw t (find_session-keep token rest)
  | inr t ↦ rw t (rw t (find_session-keep token rest))
]

-- A token that is rejected has no session afterwards, if its session has a user: an expired session
-- and one of a disabled user are removed.
pub session_user-removes :
    (now : ℤ) (token : String) (db : Db) (s : SessionRow) (u : UserRow)
    → find_session token db.sessions ≡ some s
    → find s.user_id db.users.rows ≡ some u
    → (session_user now token db).0 ≡ none
    → find_session token (session_user now token db).1.sessions ≡ none
unfolding session_user delete_session
session_user-removes now token db s u e f h = ground (arith, find_session-keep token db.sessions)

password_sessions :
    (shown : ℕ → String) (now : ℤ) (id : ℕ) (hash : String) (actor : AuditActor) (db : Db)
    → user_exists db id ≡ true
    → (update_user_password shown now id hash actor db).1.sessions
      ≡ keep (λ s. not (s.user_id == id)) db.sessions
unfolding update_user_password
password_sessions shown now id hash actor db known = rw known

-- After a change of the password of a user who exists, every token that is accepted, at whatever
-- time, is another user's.
pub update_user_password-revokes :
    (shown : ℕ → String) (now later : ℤ) (id : ℕ) (hash token : String) (actor : AuditActor)
    (db : Db) (r : SessionUserRecord)
    → user_exists db id ≡ true
    → (session_user later token (update_user_password shown now id hash actor db).1).0 ≡ some r
    → r.id ≢ id
update_user_password-revokes shown now later id hash token actor db r known h =
    let after = (update_user_password shown now id hash actor db).1 in
    let (s, u, e, _, _, _, same, _, _) = session_user-valid later token after r h in
    let others : All (λ x. (x.user_id == id) ≡ false) after.sessions =
      rw (password_sessions shown now id hash actor db known)
        (All-mono _ _ (λ x k. ground arith) _ (All-keep _ db.sessions)) in
    let other : (s.user_id == id) ≡ false =
      find_session-All (λ x. (x.user_id == id) ≡ false) token after.sessions others e in
    λ q. ground (arith, ==_refl id)
