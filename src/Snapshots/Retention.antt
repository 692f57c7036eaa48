-- ===== src/Snapshots/Retention.antt =====
-- What the retention of snapshots keeps: `deleteOldRecentSnapshots` of server/core/src/db/snapshots.ts.
use pmeow.Prelude.{
  ℕ, zero, suc, ◌≤◌, String, true, not, List, [], ◌∷◌, ◌==◌, nat_eq, string_eq, eq_iff, ◌≡◌, ◌≢◌,
  refl, arith, inl, inr, Bool-cases, any, select, sort, length, All, All-weaken, Distinct,
  Distinct-select,
}
use pmeow.Snapshots.Store.{
  SnapshotRow, SnapshotDb, is_recent_of, newest_first, take_ids, newest_ids, is_left,
  delete_old_recent_snapshots,
}

module _ {R : Type 0} where
  abbrev id_of : SnapshotRow R → ℕ
  id_of r = r.id

  -- All rows but those with an id.
  abbrev without : ℕ → List (SnapshotRow R) → List (SnapshotRow R)
  without i rows = select (λ r. not (r.id == i)) rows

  without_absent :
      (i : ℕ) (rows : List (SnapshotRow R)) → All (λ r. i ≢ r.id) rows → without i rows ≡ rows
  without_absent i [] h = refl
  without_absent i (r ∷ rows) (h, hs) = ground (arith, without_absent i rows hs, eq_iff r.id i)

  length-without :
      (i : ℕ) (rows : List (SnapshotRow R))
      → Distinct id_of rows
      → length rows ≤ suc (length (without i rows))
  length-without i [] d = ground arith
  length-without i (r ∷ rows) (d, ds) = elim (Bool-cases (r.id == i)) [
    | inl t ↦ rw t (
        ground (
          arith,
          without_absent i rows
              (All-weaken (λ y. r.id ≢ y.id) (λ y. i ≢ y.id) rows (λ y k e. k (ground arith)) d),
        ))
    | inr f ↦ rw f (ground (arith, length-without i rows ds))
  ]

  within-without :
      (i : ℕ) (ids : List ℕ) (rows : List (SnapshotRow R))
      → All (λ r. any (λ j. j == r.id) (i ∷ ids) ≡ true) rows
      → All (λ r. any (λ j. j == r.id) ids ≡ true) (without i rows)
  within-without i ids [] h = tt
  within-without i ids (r ∷ rows) (h, hs) = elim (Bool-cases (r.id == i)) [
    | inl t ↦ rw t (within-without i ids rows hs)
    | inr f ↦ rw f (ground (arith, h, eq_iff i r.id, eq_iff r.id i), within-without i ids rows hs)
  ]

  -- Rows with distinct ids from a list are no more than the list.
  length-within :
      (ids : List ℕ) (rows : List (SnapshotRow R))
      → Distinct id_of rows
      → All (λ r. any (λ j. j == r.id) ids ≡ true) rows
      → length rows ≤ length ids
  length-within [] [] d h = ground arith
  length-within [] (r ∷ rows) d (h, hs) = absurd (cc (h))
  length-within (i ∷ ids) rows d h = ground (
    arith,
    length-without i rows d,
    length-within ids (without i rows) (Distinct-select id_of (λ r. not (r.id == i)) rows d)
        (within-without i ids rows h),
  )

  length-take_ids : (n : ℕ) (rows : List (SnapshotRow R)) → length (take_ids n rows) ≤ n
  length-take_ids zero rows = ground arith
  length-take_ids (suc n) [] = ground arith
  length-take_ids (suc n) (r ∷ rows) = ground (arith, length-take_ids n rows)

  recent_left :
      (sid : String) (newest : List ℕ) (rows : List (SnapshotRow R))
      → All
          (λ r. any (λ j. j == r.id) newest ≡ true)
          (select (is_recent_of sid) (select (is_left sid newest) rows))
  recent_left sid newest [] = tt
  recent_left sid newest (r ∷ rows) = elim (Bool-cases (is_left sid newest r)) [
    | inr f ↦ rw f (recent_left sid newest rows)
    | inl t ↦ rw t (elim (Bool-cases (is_recent_of sid r)) [
      | inl u ↦ rw u (ground arith, recent_left sid newest rows)
      | inr u ↦ rw u (recent_left sid newest rows)
    ])
  ]

-- With distinct ids, the retention leaves at most `keep` recent snapshots of the server, and it leaves
-- the very rows of every other server and of the archive.
pub delete_old_recent_snapshots-bounds :
    {R G : Type 0} (sid : String) (keep : ℕ) (db : SnapshotDb R G)
    → Distinct (λ r. r.id) db.snapshots
    → (length (select (is_recent_of sid) (delete_old_recent_snapshots sid keep db).snapshots)
        ≤ keep)
      × (select (λ r. not (is_recent_of sid r)) (delete_old_recent_snapshots sid keep db).snapshots
          ≡ select (λ r. not (is_recent_of sid r)) db.snapshots)
unfolding delete_old_recent_snapshots newest_ids
delete_old_recent_snapshots-bounds {R} sid keep db d =
    let newest = newest_ids sid keep db.snapshots in
    let left = select (is_left sid newest) db.snapshots in
    (
      ground (
        arith,
        length-take_ids keep (sort newest_first (select (is_recent_of sid) db.snapshots)),
        length-within newest (select (is_recent_of sid) left)
            (Distinct-select id_of (is_recent_of sid) left
              (Distinct-select id_of (is_left sid newest) db.snapshots d))
            (recent_left sid newest db.snapshots),
      ),
      others newest db.snapshots,
    )
  where
    others :
        (newest : List ℕ) (rows : List (SnapshotRow R))
        → select (λ r. not (is_recent_of sid r)) (select (is_left sid newest) rows)
          ≡ select (λ r. not (is_recent_of sid r)) rows
    others newest [] = refl
    others newest (r ∷ rows) = ground (arith, others newest rows)
