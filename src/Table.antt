-- ===== src/Table.antt =====
-- SQL tables, as storage.rs uses them: rows under the ids of an AUTOINCREMENT key, newest first.
-- `seq` is the last id given out. The statements that the program sends are these functions:
-- INSERT, SELECT by id, UPDATE and DELETE with a WHERE clause, COUNT, SUM, and a SELECT with
-- ORDER BY and LIMIT 1. Ids are unbounded (SQLite's end at 2 ^ 63 - 1).
pub mod Laws
pub mod Order
pub mod Deletes
use simple_alert_proxy.Prelude.{
  ℕ, ◌+◌, Bool, true, false, ◌&&◌, Option, none, some, List, [], ◌∷◌, ◌==◌, if◌then◌else◌,
}

pub record Table {ℓ} (A : Type ℓ) : Type ℓ where
  pub seq : ℕ
  pub rows : List (ℕ × A)

abbrev pub empty {ℓ} : {A : Type ℓ} → Table A
empty = record { seq = 0; rows = [] }

module _ {ℓ} {A : Type ℓ} where
  unfoldable pub insert : A → Table A → Table A
  insert a t = record { seq = t.seq + 1; rows = (t.seq + 1, a) ∷ t.rows }

  -- WHERE id = k
  unfoldable pub find : ℕ → List (ℕ × A) → Option A
  find k [] = none
  find k ((i, a) ∷ rest) = if i == k then some a else find k rest

  unfoldable pub update_where : (ℕ → A → Bool) → (A → A) → List (ℕ × A) → List (ℕ × A)
  update_where p f [] = []
  update_where p f ((i, a) ∷ rest) = (i, if p i a then f a else a) ∷ update_where p f rest

  -- An UPDATE whose new values depend on the row's id.
  unfoldable pub update_with : (ℕ → A → Bool) → (ℕ → A → A) → List (ℕ × A) → List (ℕ × A)
  update_with p f [] = []
  update_with p f ((i, a) ∷ rest) = (i, if p i a then f i a else a) ∷ update_with p f rest

  unfoldable pub delete_where : (ℕ → A → Bool) → List (ℕ × A) → List (ℕ × A)
  delete_where p [] = []
  delete_where p ((i, a) ∷ rest) =
      let others = delete_where p rest in if p i a then others else (i, a) ∷ others

  unfoldable pub count_where : (ℕ → A → Bool) → List (ℕ × A) → ℕ
  count_where p [] = 0
  count_where p ((i, a) ∷ rest) = (if p i a then 1 else 0) + count_where p rest

  unfoldable pub sum_where : (ℕ → A → Bool) → (A → ℕ) → List (ℕ × A) → ℕ
  sum_where p value [] = 0
  sum_where p value ((i, a) ∷ rest) = (if p i a then value a else 0) + sum_where p value rest

  unfoldable pub exists_where : (ℕ → A → Bool) → List (ℕ × A) → Bool
  exists_where p [] = false
  exists_where p ((i, a) ∷ rest) = if p i a then true else exists_where p rest

  -- The better of two candidates, by an order that says which row comes before which.
  abbrev pub pick : (ℕ × A → ℕ × A → Bool) → Option (ℕ × A) → Option (ℕ × A) → Option (ℕ × A)
  pick before none o = o
  pick before (some x) none = some x
  pick before (some x) (some y) = if before x y then some x else some y

  -- WHERE p ORDER BY before LIMIT 1
  unfoldable pub select_first :
      (ℕ → A → Bool) → (ℕ × A → ℕ × A → Bool) → List (ℕ × A) → Option (ℕ × A)
  select_first p before [] = none
  select_first p before ((i, a) ∷ rest) =
      pick before (if p i a then some (i, a) else none) (select_first p before rest)

  abbrev pub with_rows : Table A → List (ℕ × A) → Table A
  with_rows t rows = record { seq = t.seq; rows = rows }

-- WHERE id = k
abbrev pub at {ℓ} : {A : Type ℓ} → ℕ → ℕ → A → Bool
at k i a = i == k
