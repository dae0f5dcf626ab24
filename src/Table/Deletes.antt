-- ===== src/Table/Deletes.antt =====
-- SQL tables: DELETE against COUNT, SUM and SELECT, and an UPDATE by id.
use simple_alert_proxy.Prelude.{
  ℕ, ◌-◌, ◌≤◌, Bool, true, false, ◌&&◌, none, some, List, [], ◌∷◌, ◌==◌, if◌then◌else◌, ◌≡◌, refl,
  arith, Bool-cases, inl, inr,
}
use simple_alert_proxy.Table.{find, update_with, delete_where, count_where, sum_where, exists_where}
use simple_alert_proxy.Table.Laws.{Fresh, AllRows, find-none_of_Fresh}

module _ {ℓ} {A : Type ℓ} where
  pub Fresh-update_with :
      (n : ℕ) (p : ℕ → A → Bool) (f : ℕ → A → A) (l : List (ℕ × A))
      → Fresh n l
      → Fresh n (update_with p f l)
  unfolding update_with
  Fresh-update_with n p f [] h = h
  Fresh-update_with n p f ((i, a) ∷ rest) h = (h.0, h.1, Fresh-update_with (i - 1) p f rest h.2)

  pub AllRows-update_with {κ μ} :
      (P : ℕ → A → Type κ) (Q : ℕ → A → Type μ) (p : ℕ → A → Bool) (f : ℕ → A → A)
      → ((i : ℕ) (a : A) → P i a → Q i (if p i a then f i a else a))
      → (l : List (ℕ × A)) → AllRows P l
      → AllRows Q (update_with p f l)
  unfolding update_with
  AllRows-update_with P Q p f g [] h = tt
  AllRows-update_with P Q p f g ((i, a) ∷ rest) h =
      (g i a h.0, AllRows-update_with P Q p f g rest h.1)

  -- A DELETE of other rows keeps a COUNT and a SUM, and every DELETE makes them no larger.
  pub count-delete_where :
      (q p : ℕ → A → Bool) (l : List (ℕ × A))
      → AllRows (λ i a. q i a ≡ true → p i a ≡ false) l
      → count_where q (delete_where p l) ≡ count_where q l
  unfolding count_where delete_where
  count-delete_where q p [] h = refl
  count-delete_where q p ((i, a) ∷ rest) h = elim (Bool-cases (p i a)) [
    | inl e ↦ ground (arith, h.0, count-delete_where q p rest h.1)
    | inr e ↦ ground (arith, count-delete_where q p rest h.1)
  ]

  pub sum-delete_where :
      (q p : ℕ → A → Bool) (value : A → ℕ) (l : List (ℕ × A))
      → AllRows (λ i a. q i a ≡ true → p i a ≡ false) l
      → sum_where q value (delete_where p l) ≡ sum_where q value l
  unfolding sum_where delete_where
  sum-delete_where q p value [] h = refl
  sum-delete_where q p value ((i, a) ∷ rest) h = elim (Bool-cases (p i a)) [
    | inl e ↦ ground (arith, h.0, sum-delete_where q p value rest h.1)
    | inr e ↦ ground (arith, sum-delete_where q p value rest h.1)
  ]

  pub count-delete_where_le :
      (q p : ℕ → A → Bool) (l : List (ℕ × A)) → count_where q (delete_where p l) ≤ count_where q l
  unfolding count_where delete_where
  count-delete_where_le q p [] = omega arith
  count-delete_where_le q p ((i, a) ∷ rest) = ground (arith, count-delete_where_le q p rest)

  pub sum-delete_where_le :
      (q p : ℕ → A → Bool) (value : A → ℕ) (l : List (ℕ × A))
      → sum_where q value (delete_where p l) ≤ sum_where q value l
  unfolding sum_where delete_where
  sum-delete_where_le q p value [] = omega arith
  sum-delete_where_le q p value ((i, a) ∷ rest) = ground (arith, sum-delete_where_le q p value rest)

  -- `k IN (SELECT id … WHERE q)`, where ids are distinct.
  pub exists-id :
      (n k : ℕ) (q : ℕ → A → Bool) (l : List (ℕ × A))
      → Fresh n l
      → exists_where (λ i a. i == k && q i a) l ≡ elim (find k l) [ none ↦ false | some a ↦ q k a ]
  unfolding exists_where find
  exists-id n k q [] h = refl
  exists-id n k q ((i, a) ∷ rest) h = elim (Bool-cases (i == k)) [
    | inl e ↦ ground (arith, exists-id (i - 1) k q rest h.2, find-none_of_Fresh (i - 1) k rest h.2)
    | inr e ↦ ground (arith, exists-id (i - 1) k q rest h.2)
  ]

module _ {A : Type 0} where
  -- Where ids are distinct, a DELETE removes the rows of its test and no other.
  pub find-delete_where :
      (n k : ℕ) (p : ℕ → A → Bool) (l : List (ℕ × A))
      → Fresh n l
      → find k (delete_where p l)
        ≡ elim (find k l) [ none ↦ none | some a ↦ if p k a then none else some a ]
  unfolding find delete_where
  find-delete_where n k p [] h = refl
  find-delete_where n k p ((i, a) ∷ rest) h = elim (Bool-cases (i == k)) [
    | inl e ↦ elim (Bool-cases (p i a)) [
      | inl q ↦
          ground
            (arith, find-delete_where (i - 1) k p rest h.2, find-none_of_Fresh (i - 1) k rest h.2)
      | inr q ↦ ground arith
    ]
    | inr e ↦ elim (Bool-cases (p i a)) [
      | inl q ↦ ground (arith, find-delete_where (i - 1) k p rest h.2)
      | inr q ↦ ground (arith, find-delete_where (i - 1) k p rest h.2)
    ]
  ]

module _ {ℓ} {A : Type ℓ} where
  -- What an UPDATE that reads the id makes of a row.
  pub find-update_with :
      (p : ℕ → A → Bool) (f : ℕ → A → A) (j : ℕ) (l : List (ℕ × A))
      → find j (update_with p f l)
        ≡ elim (find j l) [ none ↦ none | some a ↦ some (if p j a then f j a else a) ]
  unfolding find update_with
  find-update_with p f j [] = refl
  find-update_with p f j ((i, a) ∷ rest) = elim (Bool-cases (i == j)) [
    | inl e ↦ rw e (let q : i ≡ j = ground arith in rw q refl)
    | inr e ↦ rw e (find-update_with p f j rest)
  ]
