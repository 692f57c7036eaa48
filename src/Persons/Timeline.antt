-- ===== src/Persons/Timeline.antt =====
-- What a person has used: `getPersonTimeline` of server/core/src/person/service.ts.
use pmeow.Prelude.{ℕ, String, List, [], ◌∷◌, ◌++◌, none, ◌==◌, string_eq, if◌then◌else◌, leb, sort}
use pmeow.Persons.Bindings.{PersonBindingRecord, BindingDb}
use pmeow.Persons.Scope.{get_bindings_by_person_id}
use pmeow.Persons.Directory.{Numbers}
use pmeow.Snapshots.Store.{SnapshotDb, SnapshotWithGpus, GpuSnapshotRow, get_snapshot_history}

pub record PersonTimelinePoint (V : Type 0) : Type 0 where
  pub timestamp : ℕ
  pub vram_mb : V
  pub server_id : String
  pub gpu_index : ℕ

-- `user_processes` reads the processes of a stored card, with the memory of each, and `gpu_index` its
-- index.
module _ {V : Type 0} (n : Numbers V) where
  abbrev pub vram_of : String → List (String × V) → V → V
  vram_of user [] sum = sum
  vram_of user ((u, v) ∷ rest) sum = vram_of user rest (if u == user then n.add sum v else sum)

module _ {V G : Type 0} (n : Numbers V) (user_processes : G → List (String × V))
    (gpu_index : G → ℕ) where
  abbrev pub card_points :
      PersonBindingRecord → ℕ → List (GpuSnapshotRow G) → List (PersonTimelinePoint V)
  card_points b timestamp [] = []
  card_points b timestamp (g ∷ rest) =
      let vram = vram_of n b.system_user (user_processes g.card) n.zero in
      let later = card_points b timestamp rest in
      if n.less n.zero vram
      then record {
        timestamp = timestamp;
        vram_mb = vram;
        server_id = b.server_id;
        gpu_index = gpu_index g.card;
      }
        ∷ later
      else later

module _ {V R G : Type 0} (n : Numbers V) (user_processes : G → List (String × V))
    (gpu_index : G → ℕ) where
  abbrev pub snapshot_points :
      PersonBindingRecord → List (SnapshotWithGpus R G) → List (PersonTimelinePoint V)
  snapshot_points b [] = []
  snapshot_points b (s ∷ rest) =
      card_points n user_processes gpu_index b s.snapshot.timestamp s.gpu_snapshots
      ++ snapshot_points b rest

  abbrev pub binding_points :
      ℕ → ℕ → SnapshotDb R G → List PersonBindingRecord → List (PersonTimelinePoint V)
  binding_points from to db [] = []
  binding_points from to db (b ∷ rest) =
      snapshot_points b (get_snapshot_history b.server_id from to none db)
      ++ binding_points from to db rest

  unfoldable pub get_person_timeline :
      String → ℕ → ℕ → BindingDb → SnapshotDb R G → List (PersonTimelinePoint V)
  unfolding sort get_bindings_by_person_id get_snapshot_history
  get_person_timeline id from to bindings db =
      sort (λ a b. leb a.timestamp b.timestamp)
        (binding_points from to db (get_bindings_by_person_id id bindings))
