-- ===== src/Protocol/Tasks.antt =====
-- `normalizeTaskInfo` and its helpers: server/contracts/src/protocol.ts. `is_finite` is
-- `Number.isFinite`.
use pmeow.Prelude.{
  String, Bool, true, false, ◌||◌, List, [], ◌∷◌, Option, some, string_eq, if◌then◌else◌,
}
use pmeow.Protocol.Json.{
  Json, Fields, null, bool, number, object, no_fields, field, get, defined, or_nullish, or_null,
  is_null, is_the_text,
}

module _ {V : Type 0} where
  -- A number, or `null` that was written as such.
  abbrev pub is_number_or_null : Option (Json V) → Bool
  is_number_or_null (some null) = true
  is_number_or_null (some (number n)) = true
  is_number_or_null _ = false

  unfoldable pub normalize_requested_vram_mb : Json V → Option (Json V)
  normalize_requested_vram_mb task =
      if is_number_or_null (get "requestedVramMb" task)
      then get "requestedVramMb" task
      else if is_number_or_null (get "requestedVramMB" task)
      then get "requestedVramMB" task
      else if is_the_text "exclusive_auto" (get "vramMode" task)
      then some null
      else get "requireVramMB" task

  abbrev pub normalize_vram_mode : Json V → Option (Json V)
  normalize_vram_mode task = get "vramMode" task

  abbrev pub or_null_if_empty : Fields V → Json V
  or_null_if_empty no_fields = null
  or_null_if_empty (field k v fs) = object (field k v fs)

  abbrev pub is_true : Option (Json V) → Bool
  is_true (some (bool b)) = b
  is_true _ = false

  module _ (is_finite : V → Bool) where
    abbrev pub is_finite_number : Json V → Bool
    is_finite_number (number n) = is_finite n
    is_finite_number _ = false

    abbrev pub select_fields : (Json V → Bool) → Fields V → Fields V
    select_fields p no_fields = no_fields
    select_fields p (field k v fs) =
        let rest = select_fields p fs in if p v then field k v rest else rest

    -- The two map normalizers, by the entries that they keep.
    unfoldable pub normalize_map : (Json V → Bool) → Option (Json V) → Json V
    normalize_map p (some (object fs)) = or_null_if_empty (select_fields p fs)
    normalize_map p _ = null

    abbrev pub normalize_number_map : Option (Json V) → Json V
    normalize_number_map = normalize_map is_finite_number

    abbrev pub normalize_nullable_number_map : Option (Json V) → Json V
    normalize_nullable_number_map = normalize_map (λ v. is_null v || is_finite_number v)

    -- The properties of the result, in the order of the source.
    unfoldable pub normal_properties : Json V → List (String × Option (Json V))
    unfolding normalize_requested_vram_mb normalize_map
    normal_properties task =
        ("taskId", get "taskId" task)
        ∷ ("status", get "status" task)
        ∷ ("command", get "command" task)
        ∷ ("cwd", get "cwd" task)
        ∷ ("user", get "user" task)
        ∷ ("launchMode", get "launchMode" task)
        ∷ ("requireVramMb", get "requireVramMB" task)
        ∷ ("requestedVramMb", normalize_requested_vram_mb task)
        ∷ ("vramMode", normalize_vram_mode task)
        ∷ ("requireGpuCount", get "requireGpuCount" task)
        ∷ ("gpuIds", get "gpuIds" task)
        ∷ ("priority", get "priority" task)
        ∷ ("createdAt", get "createdAt" task)
        ∷ ("startedAt", get "startedAt" task)
        ∷ ("pid", get "pid" task)
        ∷ ("assignedGpus", get "assignedGpus" task)
        ∷ ("declaredVramPerGpu", get "declaredVramPerGpu" task)
        ∷ ("autoObserveWindowSec", some (or_null (get "autoObserveWindowSec" task)))
        ∷ (
          "autoPeakVramByGpuMb",
          some (
              normalize_number_map
                (or_nullish (get "autoPeakVramByGpuMb" task) (get "autoPeakVramByGpuMB" task))),
        )
        ∷ (
          "autoReclaimedVramByGpuMb",
          some (
              normalize_nullable_number_map (
                or_nullish (get "autoReclaimedVramByGpuMb" task)
                  (get "autoReclaimedVramByGpuMB" task))),
        )
        ∷ ("autoReclaimDone", some (bool (is_true (get "autoReclaimDone" task))))
        ∷ ("scheduleHistory", get "scheduleHistory" task)
        ∷ ("finishedAt", some (or_null (get "finishedAt" task)))
        ∷ ("exitCode", some (or_null (get "exitCode" task)))
        ∷ ("endReason", some (or_null (get "endReason" task)))
        ∷ []

    unfoldable pub normalize_task_info : Json V → Json V
    unfolding normal_properties
    normalize_task_info task = object (defined (normal_properties task))
