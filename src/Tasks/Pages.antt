-- ===== src/Tasks/Pages.antt =====
-- Paging through tasks: server/core/src/db/tasks.ts and server/runtime/src/routes/pagination.ts.
use mathlib.Core.List.{map-append}
use pmeow.Prelude.{
  ℕ, zero, suc, ◌+◌, ◌-◌, ◌*◌, List, [], ◌∷◌, ◌++◌, map, none, some, ◌≡◌, refl, sym, ap, ap₂, ◌∙◌,
  arith, select, sort, insert_sorted, length, Bool,
}
use pmeow.Persons.Bindings.{BindingDb}
use pmeow.Servers.{ServerRecord}
use pmeow.Tasks.Store.{TaskRow}
use pmeow.Tasks.Queries.{
  TaskQueryFilter, TaskRecord, take, drop, build_task_query, map_task_row, newest_first, get_tasks,
  count_tasks,
}

module _ {ℓ} {A : Type ℓ} where
  take-add : (m n : ℕ) (xs : List A) → take (m + n) xs ≡ take m xs ++ take n (drop m xs)
  take-add zero n xs = ap (λ k. take k xs) {x = zero + n} {y = n} (omega arith)
  take-add (suc m) n [] =
      ap (λ k. take k []) {x = suc m + n} {y = suc (m + n)} (omega arith) ∙ nothing (m + n) n
    where
      nothing : (j k : ℕ) → take {A = A} (suc j) [] ≡ [] ++ take k []
      nothing j zero = refl
      nothing j (suc k) = refl
  take-add (suc m) n (x ∷ xs) =
      ap (λ k. take k (x ∷ xs)) {x = suc m + n} {y = suc (m + n)} (omega arith)
      ∙ ap (λ l. x ∷ l) (take-add m n xs)

  map-take {κ} :
      {B : Type κ} (f : A → B) (n : ℕ) (xs : List A) → map f (take n xs) ≡ take n (map f xs)
  map-take f zero xs = refl
  map-take f (suc n) [] = refl
  map-take f (suc n) (x ∷ xs) = ap (λ l. f x ∷ l) (map-take f n xs)

  length-map {κ} : {B : Type κ} (f : A → B) (xs : List A) → length (map f xs) ≡ length xs
  length-map f [] = refl
  length-map f (x ∷ xs) = omega (arith, length-map f xs)

  length-insert_sorted :
      (before : A → A → Bool) (x : A) (xs : List A)
      → length (insert_sorted before x xs) ≡ suc (length xs)
  unfolding insert_sorted
  length-insert_sorted before x [] = refl
  length-insert_sorted before x (y ∷ ys) = ground (arith, length-insert_sorted before x ys)

  length-sort : (before : A → A → Bool) (xs : List A) → length (sort before xs) ≡ length xs
  unfolding sort
  length-sort before [] = refl
  length-sort before (x ∷ xs) =
      length-insert_sorted before x (sort before xs) ∙ ap suc (length-sort before xs)

abbrev pub unlimited : TaskQueryFilter → TaskQueryFilter
unlimited filter = record filter { limit = none; offset = none }

-- The filter that the routes make for a page.
abbrev pub page_of : ℕ → ℕ → TaskQueryFilter → TaskQueryFilter
page_of page limit filter = record filter { limit = some limit; offset = some ((page - 1) * limit) }

module _ (now : ℕ) (servers : List ServerRecord) (db : BindingDb) (rows : List TaskRow) where
  -- The first pages, one after the other.
  abbrev pub first_pages : ℕ → ℕ → TaskQueryFilter → List TaskRecord
  first_pages zero limit filter = []
  first_pages (suc k) limit filter =
      first_pages k limit filter ++ get_tasks now servers db rows (page_of (suc k) limit filter)

  sorted : TaskQueryFilter → List TaskRow
  sorted filter = sort newest_first (select (build_task_query now db filter) rows)

  get_tasks-page :
      (k limit : ℕ) (filter : TaskQueryFilter)
      → get_tasks now servers db rows (page_of (suc k) limit filter)
        ≡ map (map_task_row servers) (take limit (drop (k * limit) (sorted filter)))
  unfolding get_tasks sorted build_task_query
  get_tasks-page k limit filter =
      ap (λ j. map (map_task_row servers) (take limit (drop j (sorted filter))))
        (ap (λ j. j * limit) {x = suc k - 1} {y = k} (omega arith))

  first_pages-sorted :
      (k limit : ℕ) (filter : TaskQueryFilter)
      → first_pages k limit filter ≡ map (map_task_row servers) (take (k * limit) (sorted filter))
  first_pages-sorted zero limit filter =
      ap (λ j. map (map_task_row servers) (take j (sorted filter))) {x = 0} {y = zero * limit}
        (omega arith)
  first_pages-sorted (suc k) limit filter =
      ap₂ ◌++◌ (first_pages-sorted k limit filter) (get_tasks-page k limit filter)
      ∙ sym (
          ap (λ j. map (map_task_row servers) (take j (sorted filter))) {x = suc k * limit}
            {y = k * limit + limit} (omega arith)
          ∙ ap (map (map_task_row servers)) (take-add (k * limit) limit (sorted filter))
          ∙ map-append _ (take (k * limit) (sorted filter)) _)

  -- The first k pages of a task query, one after the other, are the first k times the limit of the
  -- tasks that the query without a limit gives, and their number is what countTasks says.
  pub first_pages-get_tasks :
      (k limit : ℕ) (filter : TaskQueryFilter)
      → (first_pages k limit filter
          ≡ take (k * limit) (get_tasks now servers db rows (unlimited filter)))
        × (length (get_tasks now servers db rows (unlimited filter))
            ≡ count_tasks now servers db rows filter)
  unfolding get_tasks count_tasks sorted build_task_query
  first_pages-get_tasks k limit filter = (
    first_pages-sorted k limit filter ∙ map-take (map_task_row servers) (k * limit) (sorted filter),
    length-map (map_task_row servers) (sorted filter)
        ∙ length-sort newest_first (select (build_task_query now db filter) rows),
  )
