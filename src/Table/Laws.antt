-- ===== src/Table/Laws.antt =====
-- Laws of the table operations.
use simple_alert_proxy.Prelude.{
  subst, ◌⊎◌, ℕ, ◌+◌, ◌-◌, ◌≤◌, ◌<◌, Bool, true, false, Option, none, some, List, [], ◌∷◌, ◌==◌,
  ==_iff, ==_refl, ap, if◌then◌else◌, ◌≡◌, refl, arith, Bool-cases, inl, inr,
}
use simple_alert_proxy.Table.{
  Table, insert, find, update_where, delete_where, count_where, pick, select_first, at,
}

-- The ids are distinct and at most `n`.
abbrev pub Fresh {ℓ} : {A : Type ℓ} → ℕ → List (ℕ × A) → Type 0
Fresh n [] = Unit
Fresh n ((i, a) ∷ rest) = (1 ≤ i) × (i ≤ n) × Fresh (i - 1) rest

abbrev pub IsFresh {ℓ} : {A : Type ℓ} → Table A → Type 0
IsFresh t = Fresh t.seq t.rows

-- Every row with its id satisfies `P`.
abbrev pub AllRows {ℓ κ} : {A : Type ℓ} → (ℕ → A → Type κ) → List (ℕ × A) → Type κ
AllRows P [] = Unit
AllRows P ((i, a) ∷ rest) = P i a × AllRows P rest

module _ {ℓ} {A : Type ℓ} where
  pub Fresh-mono : (n m : ℕ) (l : List (ℕ × A)) → n ≤ m → Fresh n l → Fresh m l
  Fresh-mono n m [] h f = f
  Fresh-mono n m ((i, a) ∷ rest) h f = (f.0, omega arith, f.2)

  pub Fresh-update_where :
      (n : ℕ) (p : ℕ → A → Bool) (g : A → A) (l : List (ℕ × A))
      → Fresh n l
      → Fresh n (update_where p g l)
  unfolding update_where
  Fresh-update_where n p g [] f = f
  Fresh-update_where n p g ((i, a) ∷ rest) f = (f.0, f.1, Fresh-update_where (i - 1) p g rest f.2)

  pub Fresh-delete_where :
      (n : ℕ) (p : ℕ → A → Bool) (l : List (ℕ × A)) → Fresh n l → Fresh n (delete_where p l)
  unfolding delete_where
  Fresh-delete_where n p [] f = f
  Fresh-delete_where n p ((i, a) ∷ rest) f = elim (Bool-cases (p i a)) [
    | inl e ↦ rw e (Fresh-mono (i - 1) n _ (omega arith) (Fresh-delete_where (i - 1) p rest f.2))
    | inr e ↦ rw e (f.0, f.1, Fresh-delete_where (i - 1) p rest f.2)
  ]

  pub insert-IsFresh : (a : A) (t : Table A) → IsFresh t → IsFresh (insert a t)
  unfolding insert
  insert-IsFresh a t f =
      (omega arith, omega arith, Fresh-mono t.seq (t.seq + 1 - 1) t.rows (omega arith) f)

  pub find-none_of_Fresh : (n k : ℕ) (l : List (ℕ × A)) → Fresh n l → n < k → find k l ≡ none
  unfolding find
  find-none_of_Fresh n k [] f h = refl
  find-none_of_Fresh n k ((i, a) ∷ rest) f h =
      ground (arith, find-none_of_Fresh (i - 1) k rest f.2 (omega arith))

  -- An UPDATE at one id changes that row and no other.
  pub find-update_at :
      (k j : ℕ) (g : A → A) (l : List (ℕ × A))
      → find j (update_where (at k) g l)
        ≡ (if k == j then elim (find j l) [ none ↦ none | some a ↦ some (g a) ] else find j l)
  unfolding find update_where
  find-update_at k j g [] = ground arith
  find-update_at k j g ((i, a) ∷ rest) = ground (arith, find-update_at k j g rest)

  -- What an UPDATE leaves alone, row by row.
  pub find-update_where_cases :
      (p : ℕ → A → Bool) (g : A → A) (j : ℕ) (l : List (ℕ × A))
      → find j (update_where p g l)
        ≡ elim (find j l) [ none ↦ none | some a ↦ some (if p j a then g a else a) ]
  unfolding find update_where
  find-update_where_cases p g j [] = refl
  find-update_where_cases p g j ((i, a) ∷ rest) = elim (Bool-cases (i == j)) [
    | inl e ↦ rw e (let q : i ≡ j = ground arith in rw q refl)
    | inr e ↦ rw e (find-update_where_cases p g j rest)
  ]

  -- A count does not see an UPDATE that keeps its test.
  pub count-update_where :
      (q p : ℕ → A → Bool) (g : A → A) (l : List (ℕ × A))
      → ((i : ℕ) (a : A) → q i (g a) ≡ q i a)
      → count_where q (update_where p g l) ≡ count_where q l
  unfolding count_where update_where
  count-update_where q p g [] h = refl
  count-update_where q p g ((i, a) ∷ rest) h =
      ground (arith, h i a, count-update_where q p g rest h)

  pub AllRows-mono {κ μ} :
      (P : ℕ → A → Type κ) (Q : ℕ → A → Type μ)
      → ((i : ℕ) (a : A) → P i a → Q i a)
      → (l : List (ℕ × A)) → AllRows P l
      → AllRows Q l
  AllRows-mono P Q f [] h = tt
  AllRows-mono P Q f ((i, a) ∷ rest) h = (f i a h.0, AllRows-mono P Q f rest h.1)

  pub AllRows-update_where {κ} :
      (P : ℕ → A → Type κ) (p : ℕ → A → Bool) (g : A → A)
      → ((i : ℕ) (a : A) → p i a ≡ true → P i a → P i (g a))
      → (l : List (ℕ × A)) → AllRows P l
      → AllRows P (update_where p g l)
  unfolding update_where
  AllRows-update_where P p g f [] h = h
  AllRows-update_where P p g f ((i, a) ∷ rest) h = elim (Bool-cases (p i a)) [
    | inl e ↦ rw e (f i a e h.0, AllRows-update_where P p g f rest h.1)
    | inr e ↦ rw e (h.0, AllRows-update_where P p g f rest h.1)
  ]

  pub AllRows-delete_where {κ} :
      (P : ℕ → A → Type κ) (p : ℕ → A → Bool) (l : List (ℕ × A))
      → AllRows P l
      → AllRows P (delete_where p l)
  unfolding delete_where
  AllRows-delete_where P p [] h = h
  AllRows-delete_where P p ((i, a) ∷ rest) h = elim (Bool-cases (p i a)) [
    | inl e ↦ rw e (AllRows-delete_where P p rest h.1)
    | inr e ↦ rw e (h.0, AllRows-delete_where P p rest h.1)
  ]

  -- After a DELETE no row satisfies its test.
  pub delete_where-gone :
      (p : ℕ → A → Bool) (l : List (ℕ × A)) → AllRows (λ i a. p i a ≡ false) (delete_where p l)
  unfolding delete_where
  delete_where-gone p [] = tt
  delete_where-gone p ((i, a) ∷ rest) = elim (Bool-cases (p i a)) [
    | inl e ↦ rw e (delete_where-gone p rest)
    | inr e ↦ rw e (e, delete_where-gone p rest)
  ]

  pub find-AllRows {κ} :
      (P : ℕ → A → Type κ) (k : ℕ) (l : List (ℕ × A)) {a : A}
      → AllRows P l
      → find k l ≡ some a
      → P k a
  unfolding find
  find-AllRows P k [] h e = absurd (cc)
  find-AllRows P k ((i, b) ∷ rest) {a} h e = elim (Bool-cases (i == k)) [
    | inl q ↦
        let ik : i ≡ k = ground arith in
        let ba : b ≡ a = ground arith in subst (λ x. P x a) ik (subst (λ x. P i x) ba h.0)
    | inr q ↦ find-AllRows P k rest h.1 (ground arith)
  ]

  -- What a SELECT … LIMIT 1 returns satisfies its WHERE clause and whatever all rows satisfy.
  pub select_first_sound {κ} :
      (P : ℕ → A → Type κ) (p : ℕ → A → Bool) (before : ℕ × A → ℕ × A → Bool) (l : List (ℕ × A))
      {x : ℕ × A}
      → AllRows P l
      → select_first p before l ≡ some x
      → P x.0 x.1 × (p x.0 x.1 ≡ true)
  unfolding select_first
  select_first_sound P p before [] h e = absurd (cc)
  select_first_sound P p before ((i, a) ∷ rest) {x} h e =
      step (select_first p before rest) (λ y q. select_first_sound P p before rest h.1 q)
        (Bool-cases (p i a)) e
    where
      step :
          (o : Option (ℕ × A))
          → ((y : ℕ × A) → o ≡ some y → P y.0 y.1 × (p y.0 y.1 ≡ true))
          → (p i a ≡ true) ⊎ (p i a ≡ false)
          → pick before (if p i a then some (i, a) else none) o ≡ some x
          → P x.0 x.1 × (p x.0 x.1 ≡ true)
      step none ih (inl t) q =
          let e' : (i, a) ≡ x = ground arith in
          subst (λ y. P y.0 y.1 × (p y.0 y.1 ≡ true)) e' (h.0, t)
      step (some y) ih (inl t) q = elim (Bool-cases (before (i, a) y)) [
        | inl b ↦
            let e' : (i, a) ≡ x = ground arith in
            subst (λ y. P y.0 y.1 × (p y.0 y.1 ≡ true)) e' (h.0, t)
        | inr b ↦ ih x (ground arith)
      ]
      step o ih (inr t) q = ih x (ground arith)

module _ {ℓ} {A : Type ℓ} where
  -- An UPDATE turns one property of all rows into another.
  pub AllRows-update_where_into {κ μ} :
      (P : ℕ → A → Type κ) (Q : ℕ → A → Type μ) (p : ℕ → A → Bool) (g : A → A)
      → ((i : ℕ) (a : A) → P i a → Q i (if p i a then g a else a))
      → (l : List (ℕ × A)) → AllRows P l
      → AllRows Q (update_where p g l)
  unfolding update_where
  AllRows-update_where_into P Q p g f [] h = tt
  AllRows-update_where_into P Q p g f ((i, a) ∷ rest) h =
      (f i a h.0, AllRows-update_where_into P Q p g f rest h.1)

  pub AllRows-and {κ μ} :
      (P : ℕ → A → Type κ) (Q : ℕ → A → Type μ) (l : List (ℕ × A))
      → AllRows P l
      → AllRows Q l
      → AllRows (λ i a. P i a × Q i a) l
  AllRows-and P Q [] h k = tt
  AllRows-and P Q ((i, a) ∷ rest) h k = ((h.0, k.0), AllRows-and P Q rest h.1 k.1)

  pub Fresh-AllRows : (n : ℕ) (l : List (ℕ × A)) → Fresh n l → AllRows (λ i _. (1 ≤ i) × (i ≤ n)) l
  Fresh-AllRows n [] f = tt
  Fresh-AllRows n ((i, a) ∷ rest) f =
      ((f.0, f.1), AllRows-mono _ _ (λ j _ h. omega arith) rest (Fresh-AllRows (i - 1) rest f.2))

  pub count-zero_of_AllRows :
      (p : ℕ → A → Bool) (l : List (ℕ × A)) → AllRows (λ i a. p i a ≡ false) l → count_where p l ≡ 0
  unfolding count_where
  count-zero_of_AllRows p [] h = refl
  count-zero_of_AllRows p ((i, a) ∷ rest) h = ground (arith, count-zero_of_AllRows p rest h.1)

module _ {ℓ} {A : Type ℓ} where
  -- Where ids are distinct, `find` returns the only row with its id.
  pub find_unique :
      (n k : ℕ) (l : List (ℕ × A)) {a : A}
      → Fresh n l
      → find k l ≡ some a
      → AllRows (λ i b. i ≡ k → b ≡ a) l
  unfolding find
  find_unique n k [] f e = tt
  find_unique n k ((i, b) ∷ rest) {a} f e = elim (Bool-cases (i == k)) [
    | inl q ↦ (
      λ _. ground arith,
      AllRows-mono _ _ (λ j c h p. absurd (omega (arith, h.1, (==_iff i k).0 q))) rest
          (Fresh-AllRows (i - 1) rest f.2),
    )
    | inr q ↦ (λ p. absurd (ground arith), find_unique (i - 1) k rest f.2 (ground arith))
  ]

  -- Where ids are distinct, every row is found under its id.
  pub Fresh-found : (n : ℕ) (l : List (ℕ × A)) → Fresh n l → AllRows (λ i a. find i l ≡ some a) l
  unfolding find
  Fresh-found n [] f = tt
  Fresh-found n ((j, b) ∷ rest) f = (
    rw (==_refl j),
    AllRows-mono _ _ (λ i a h. ground (arith, h.0, h.1)) rest
        (AllRows-and _ _ rest (Fresh-AllRows (j - 1) rest f.2) (Fresh-found (j - 1) rest f.2)),
  )

  pub select_first-find :
      (n : ℕ) (p : ℕ → A → Bool) (before : ℕ × A → ℕ × A → Bool) (l : List (ℕ × A)) {x : ℕ × A}
      → Fresh n l
      → select_first p before l ≡ some x
      → find x.0 l ≡ some x.1
  select_first-find n p before l {x} f e =
      (select_first_sound (λ i a. find i l ≡ some a) p before l {x = x} (Fresh-found n l f) e).0

module _ {ℓ} {A : Type ℓ} where
  -- An UPDATE at an id that no row has changes nothing.
  pub update_at-none :
      (k : ℕ) (g : A → A) (l : List (ℕ × A)) → find k l ≡ none → update_where (at k) g l ≡ l
  unfolding find update_where
  update_at-none k g [] e = refl
  update_at-none k g ((i, a) ∷ rest) e = elim (Bool-cases (i == k)) [
    | inl q ↦ absurd (ground arith)
    | inr q ↦ rw q (ap (◌∷◌ (i, a)) (update_at-none k g rest (ground arith)))
  ]

  -- How an UPDATE at one id changes a count.
  pub count-update_at :
      (n k : ℕ) (q : ℕ → A → Bool) (g : A → A) (l : List (ℕ × A)) {a : A}
      → Fresh n l
      → find k l ≡ some a
      → count_where q (update_where (at k) g l) + (if q k a then 1 else 0)
        ≡ count_where q l + (if q k (g a) then 1 else 0)
  unfolding find update_where count_where
  count-update_at n k q g [] f e = absurd (cc)
  count-update_at n k q g ((i, b) ∷ rest) {a} f e = elim (Bool-cases (i == k)) [
    | inl t ↦
        let ik : k ≡ i = ground arith in
        let ba : a ≡ b = ground arith in
        let same : update_where (at k) g rest ≡ rest =
          update_at-none k g rest
            (find-none_of_Fresh (i - 1) k rest f.2 (omega (arith, (==_iff i k).0 t, f.0))) in
        rw t (rw same (rw (ik, ba) (omega arith)))
    | inr t ↦ rw t (omega (arith, count-update_at (i - 1) k q g rest {a = a} f.2 (ground arith)))
  ]
