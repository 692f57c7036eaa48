-- ===== src/Tasks/Stored.antt =====
-- The JSON columns of a task as the server reads them back: server/core/src/db/tasks.ts. `parse` is
-- `JSON.parse`, none where it throws, and `is_finite` is `Number.isFinite`.
use pmeow.Prelude.{
  String, Bool, true, false, ◌||◌, List, [], ◌∷◌, ◌++◌, Option, none, some, ◌==◌, string_eq,
  if◌then◌else◌,
}
use mathlib.Core.Option
use pmeow.Protocol.Json.{
  Json, Items, Fields, null, number, text, array, object, no_items, item, no_fields, field, get,
}

-- `timestamp` and `gpuSnapshot` as they are.
pub record StoredEvaluation (V : Type 0) : Type 0 where
  pub timestamp : V
  pub result : String
  pub gpu_snapshot : Json V
  pub detail : String

module _ {V : Type 0} where
  -- `candidate.gpuSnapshot ?? {}`
  abbrev pub snapshot_or_empty : Option (Json V) → Json V
  snapshot_or_empty none = object no_fields
  snapshot_or_empty (some null) = object no_fields
  snapshot_or_empty (some v) = v

  abbrev pub evaluation_of :
      Option (Json V)
      → Option (Json V)
      → Option (Json V)
      → Option (Json V)
      → Option (StoredEvaluation V)
  evaluation_of (some (number t)) (some (text r)) (some (text d)) s =
      some (record { timestamp = t; result = r; gpu_snapshot = snapshot_or_empty s; detail = d })
  evaluation_of _ _ _ _ = none

  -- A property of an array or of a value that is no object is missing.
  unfoldable pub normalize_schedule_evaluation : Json V → Option (StoredEvaluation V)
  normalize_schedule_evaluation v =
      evaluation_of (get "timestamp" v) (get "result" v) (get "detail" v) (get "gpuSnapshot" v)

  abbrev pub to_list : Option (StoredEvaluation V) → List (StoredEvaluation V)
  to_list none = []
  to_list (some e) = e ∷ []

  abbrev pub evaluations : Items V → List (StoredEvaluation V)
  evaluations no_items = []
  evaluations (item v vs) = to_list (normalize_schedule_evaluation v) ++ evaluations vs

  abbrev pub evaluations_in : Option (Json V) → List (StoredEvaluation V)
  evaluations_in (some (array vs)) = evaluations vs
  evaluations_in _ = []

  abbrev pub fields_of : Option (Json V) → Option (Fields V)
  fields_of (some (object fs)) = some fs
  fields_of _ = none

  abbrev pub keep_fields : (Json V → Bool) → Fields V → Fields V
  keep_fields keep no_fields = no_fields
  keep_fields keep (field key v rest) =
      if keep v then field key v (keep_fields keep rest) else keep_fields keep rest

  abbrev pub unless_empty : Fields V → Option (Fields V)
  unless_empty no_fields = none
  unless_empty (field key v rest) = some (field key v rest)

  abbrev pub is_null : Json V → Bool
  is_null null = true
  is_null _ = false

  module _ (parse : String → Option (Json V)) where
    unfoldable pub parse_schedule_history : Option String → List (StoredEvaluation V)
    unfolding normalize_schedule_evaluation
    parse_schedule_history none = []
    parse_schedule_history (some raw) = if raw == "" then [] else evaluations_in (parse raw)

    unfoldable pub parse_schedule_evaluation : String → Option (StoredEvaluation V)
    unfolding normalize_schedule_evaluation
    parse_schedule_evaluation raw = Option.bind (parse raw) normalize_schedule_evaluation

    abbrev pub parse_map : (Json V → Bool) → Option String → Option (Fields V)
    parse_map keep none = none
    parse_map keep (some raw) =
        if raw == ""
        then none
        else Option.bind (fields_of (parse raw)) (λ fs. unless_empty (keep_fields keep fs))

    module _ (is_finite : V → Bool) where
      abbrev pub is_finite_number : Json V → Bool
      is_finite_number (number n) = is_finite n
      is_finite_number _ = false

      unfoldable pub parse_number_map : Option String → Option (Fields V)
      parse_number_map = parse_map is_finite_number

      unfoldable pub parse_nullable_number_map : Option String → Option (Fields V)
      parse_nullable_number_map = parse_map (λ v. is_null v || is_finite_number v)
