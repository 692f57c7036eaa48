-- ===== src/Snapshots/Store.antt =====
-- The tables of snapshots: server/core/src/db/snapshots.ts. The resources `R` and the cards `G` are
-- columns that the server stores and reads back as a whole.
use pmeow.Prelude.{
  ℕ, zero, suc, String, Bool, true, false, not, ◌&&◌, List, [], ◌∷◌, ◌++◌, map, Option, none, some,
  ◌==◌, nat_eq, string_eq, leb, any, select, sort,
}

pub data Tier : Type 0 where
  recent archive : Tier

abbrev pub is_recent : Tier → Bool
is_recent recent = true
is_recent archive = false

abbrev pub same_tier : Tier → Tier → Bool
same_tier recent t = is_recent t
same_tier archive t = not (is_recent t)

pub record SnapshotRow (R : Type 0) : Type 0 where
  pub id : ℕ
  pub server_id : String
  pub timestamp : ℕ
  pub tier : Tier
  pub seq : Option ℕ
  pub resources : R

pub record GpuSnapshotRow (G : Type 0) : Type 0 where
  pub id : ℕ
  pub snapshot_id : ℕ
  pub server_id : String
  pub card : G

pub record SnapshotDb (R G : Type 0) : Type 0 where
  pub snapshots : List (SnapshotRow R)
  pub next_id : ℕ
  pub gpu_snapshots : List (GpuSnapshotRow G)
  pub next_gpu_id : ℕ

-- A snapshot as it is read: the row, and its cards.
pub record SnapshotWithGpus (R G : Type 0) : Type 0 where
  pub snapshot : SnapshotRow R
  pub gpu_snapshots : List (GpuSnapshotRow G)

module _ {R : Type 0} where
  abbrev pub is_recent_of : String → SnapshotRow R → Bool
  is_recent_of sid r = r.server_id == sid && is_recent r.tier

  abbrev pub newest_first : SnapshotRow R → SnapshotRow R → Bool
  newest_first a b = leb b.timestamp a.timestamp

  abbrev pub oldest_first : SnapshotRow R → SnapshotRow R → Bool
  oldest_first a b = leb a.timestamp b.timestamp

  -- The ids that LIMIT leaves.
  abbrev pub take_ids : ℕ → List (SnapshotRow R) → List ℕ
  take_ids zero rows = []
  take_ids (suc n) [] = []
  take_ids (suc n) (r ∷ rows) = r.id ∷ take_ids n rows

  unfoldable pub newest_ids : String → ℕ → List (SnapshotRow R) → List ℕ
  unfolding sort
  newest_ids sid keep rows = take_ids keep (sort newest_first (select (is_recent_of sid) rows))

  -- A row that the DELETE leaves.
  abbrev pub is_left : String → List ℕ → SnapshotRow R → Bool
  is_left sid newest r = not (is_recent_of sid r && not (any (λ i. i == r.id) newest))

  abbrev pub in_tier : Option Tier → SnapshotRow R → Bool
  in_tier none r = true
  in_tier (some t) r = same_tier t r.tier

module _ {R G : Type 0} where
  -- The loop over the cards.
  unfoldable pub insert_cards : ℕ → String → List G → SnapshotDb R G → SnapshotDb R G
  insert_cards snapshot_id sid [] db = db
  insert_cards snapshot_id sid (card ∷ rest) db = insert_cards snapshot_id sid rest (record db {
    gpu_snapshots =
        db.gpu_snapshots
        ++ record { id = db.next_gpu_id; snapshot_id = snapshot_id; server_id = sid; card = card }
          ∷ [];
    next_gpu_id = suc db.next_gpu_id;
  })

  unfoldable pub save_snapshot :
      String → ℕ → R → List G → Tier → Option ℕ → SnapshotDb R G → SnapshotDb R G × ℕ
  unfolding insert_cards
  save_snapshot sid timestamp resources cards tier seq db =
      let row : SnapshotRow R = record {
        id = db.next_id;
        server_id = sid;
        timestamp = timestamp;
        tier = tier;
        seq = seq;
        resources = resources;
      } in
      (
        insert_cards db.next_id sid cards
            (record db { snapshots = db.snapshots ++ row ∷ []; next_id = suc db.next_id }),
        db.next_id,
      )

  abbrev pub has_snapshot : List (SnapshotRow R) → GpuSnapshotRow G → Bool
  has_snapshot rows g = any (λ r. r.id == g.snapshot_id) rows

  -- The cards of deleted snapshots go with them (ON DELETE CASCADE).
  unfoldable pub delete_old_recent_snapshots : String → ℕ → SnapshotDb R G → SnapshotDb R G
  unfolding newest_ids
  delete_old_recent_snapshots sid keep db =
      let left = select (is_left sid (newest_ids sid keep db.snapshots)) db.snapshots in
      record db { snapshots = left; gpu_snapshots = select (has_snapshot left) db.gpu_snapshots }

  abbrev pub with_gpus : SnapshotDb R G → SnapshotRow R → SnapshotWithGpus R G
  with_gpus db s = record {
    snapshot = s;
    gpu_snapshots = select (λ g. g.snapshot_id == s.id) db.gpu_snapshots;
  }

  unfoldable pub get_snapshot_history :
      String → ℕ → ℕ → Option Tier → SnapshotDb R G → List (SnapshotWithGpus R G)
  unfolding sort
  get_snapshot_history sid from to tier db = map (with_gpus db) (
      sort oldest_first (
        select
          (λ r.
            (r.server_id == sid && (leb from r.timestamp && leb r.timestamp to)) && in_tier tier r)
          db.snapshots))

  abbrev pub first_with_gpus : SnapshotDb R G → List (SnapshotRow R) → Option (SnapshotWithGpus R G)
  first_with_gpus db [] = none
  first_with_gpus db (s ∷ rest) = some (with_gpus db s)

  unfoldable pub get_latest_snapshot : String → SnapshotDb R G → Option (SnapshotWithGpus R G)
  unfolding sort
  get_latest_snapshot sid db =
      first_with_gpus db (sort newest_first (select (λ r. r.server_id == sid) db.snapshots))
