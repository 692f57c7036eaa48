-- ===== src/Protocol/Typed.antt =====
-- What a parsed report is known to hold: server/contracts/src/protocol.ts.
use pmeow.Prelude.{String, Bool, true, false, ◌&&◌, ◌||◌, Option, some, string_eq, ◌≡◌}
use pmeow.Protocol.Json.{
  Json, Items, Fields, null, bool, object, no_fields, field, get, get_in, is_text, is_number,
  is_null, is_the_text, items_of, every,
}
use pmeow.Protocol.Tasks.{is_number_or_null, is_finite_number}

module _ {V : Type 0} where
  abbrev is_bool : Option (Json V) → Bool
  is_bool (some (bool b)) = true
  is_bool _ = false

  abbrev every_value : (Json V → Bool) → Fields V → Bool
  every_value p no_fields = true
  every_value p (field k v fs) = p v && every_value p fs

  -- `null`, or an object whose values all pass the test.
  abbrev is_map_of : (Json V → Bool) → Option (Json V) → Bool
  is_map_of p (some null) = true
  is_map_of p (some (object fs)) = every_value p fs
  is_map_of p _ = false

  -- The properties that a task of a parsed report is sure to have, by their types.
  abbrev pub has_task_types : (V → Bool) → (String → Option (Json V)) → Bool
  has_task_types is_finite task =
      (is_text (task "taskId")
        && (is_text (task "status")
            && (is_text (task "command")
                && (is_text (task "cwd")
                    && (is_text (task "user") && is_text (task "launchMode"))))))
      && ((is_number (task "requireVramMb")
            && (is_number_or_null (task "requestedVramMb")
                && (is_the_text "exclusive_auto" (task "vramMode")
                    || is_the_text "shared" (task "vramMode"))))
          && ((is_number (task "requireGpuCount")
                && (is_number (task "priority") && is_number (task "createdAt")))
              && (is_map_of (is_finite_number is_finite) (task "autoPeakVramByGpuMb")
                  && (is_map_of (λ v. is_null v || is_finite_number is_finite v)
                        (task "autoReclaimedVramByGpuMb")
                      && is_bool (task "autoReclaimDone")))))

  abbrev pub is_normal_task : (V → Bool) → Json V → Bool
  is_normal_task is_finite task = has_task_types is_finite (λ key. get key task)

  -- The tasks of one part of a report's queue.
  abbrev pub tasks_in : String → Json V → Items V
  tasks_in part report = items_of (get_in part (get "taskQueue" report))

  abbrev pub AllNormal : (V → Bool) → Json V → Type 0
  AllNormal is_finite r =
      (every (is_normal_task is_finite) (tasks_in "queued" r) ≡ true)
      × ((every (is_normal_task is_finite) (tasks_in "running" r) ≡ true)
          × (every (is_normal_task is_finite) (tasks_in "recentlyEnded" r) ≡ true))
