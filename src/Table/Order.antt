-- ===== src/Table/Order.antt =====
-- SELECT … ORDER BY … LIMIT 1 returns a first row, if its order is one.
use simple_alert_proxy.Prelude.{
  ℕ, Bool, true, false, Option, none, some, List, [], ◌∷◌, ◌≡◌, arith, inl, inr, Bool-cases,
}
use simple_alert_proxy.Table.{pick, select_first}
use simple_alert_proxy.Table.Laws.{AllRows, AllRows-mono}

-- `R x y` says that `x` may come before `y`.
module _ {ℓ} {A : Type ℓ} (R : ℕ × A → ℕ × A → Type 0) (p : ℕ → A → Bool)
    (before : ℕ × A → ℕ × A → Bool) where
  abbrev pub Leads : Option (ℕ × A) → List (ℕ × A) → Type 0
  Leads none l = AllRows (λ i a. p i a ≡ false) l
  Leads (some x) l = AllRows (λ i a. p i a ≡ true → R x (i, a)) l

  module _ (same : (x : ℕ × A) → R x x) (trans : (x y z : ℕ × A) → R x y → R y z → R x z)
      (kept : (x y : ℕ × A) → before x y ≡ true → R x y)
      (passed : (x y : ℕ × A) → before x y ≡ false → R y x) where
    hit :
        (i : ℕ) (a : A) (rest : List (ℕ × A)) (o : Option (ℕ × A))
        → p i a ≡ true
        → Leads o rest
        → Leads (pick before (some (i, a)) o) ((i, a) ∷ rest)
    hit i a rest none t h =
        (λ _. same (i, a), AllRows-mono _ _ (λ j b f q. absurd (ground arith)) rest h)
    hit i a rest (some y) t h = elim (Bool-cases (before (i, a) y)) [
      | inl e ↦ rw e (
        λ _. same (i, a),
        AllRows-mono _ _ (λ j b f q. trans (i, a) y (j, b) (kept (i, a) y e) (f q)) rest h,
      )
      | inr e ↦ rw e (λ _. passed (i, a) y e, h)
    ]

    miss :
        (i : ℕ) (a : A) (rest : List (ℕ × A)) (o : Option (ℕ × A))
        → p i a ≡ false
        → Leads o rest
        → Leads o ((i, a) ∷ rest)
    miss i a rest none t h = (t, h)
    miss i a rest (some y) t h = (λ q. absurd (ground arith), h)

    -- What is selected comes before every other row that the WHERE clause lets through, and nothing
    -- is selected only if it lets none through.
    pub select_first-Leads : (l : List (ℕ × A)) → Leads (select_first p before l) l
    unfolding select_first
    select_first-Leads [] = tt
    select_first-Leads ((i, a) ∷ rest) = elim (Bool-cases (p i a)) [
      | inl t ↦ rw t (hit i a rest (select_first p before rest) t (select_first-Leads rest))
      | inr t ↦ rw t (miss i a rest (select_first p before rest) t (select_first-Leads rest))
    ]
