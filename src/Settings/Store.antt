-- ===== src/Settings/Store.antt =====
-- The table of settings: server/core/src/db/settings.ts. A row holds the value that its JSON text parses to; the
-- settings are an object, since a row may have any key.
use pmeow.Prelude.{ℕ, String, List, [], ◌∷◌, ◌==◌, string_eq, if◌then◌else◌, map_set}
use pmeow.Protocol.Json.{
  Json, Items, Fields, number, text, array, no_items, item, no_fields, field, put,
}

abbrev pub SettingRows : Type 0 → Type 0
SettingRows V = List (String × Json V)

abbrev pub texts : {V : Type 0} → List String → Items V
texts [] = no_items
texts (s ∷ ss) = item (text s) (texts ss)

module _ {V : Type 0} where
  -- `of` makes a number of a literal.
  abbrev pub default_settings : (ℕ → V) → Fields V
  default_settings of = field "alertCpuThreshold" (number (of 90)) (
      field "alertMemoryThreshold" (number (of 90)) (
        field "alertDiskThreshold" (number (of 90)) (
          field "alertGpuTempThreshold" (number (of 85)) (
            field "alertThresholdDurationSeconds" (number (of 60)) (
              field "alertOfflineSeconds" (number (of 30)) (
                field "alertGpuIdleMemoryPercent" (number (of 20)) (
                  field "alertGpuIdleUtilizationPercent" (number (of 5)) (
                    field "alertGpuIdleDurationSeconds" (number (of 60)) (
                      field "alertDiskMountPoints" (array (texts ("/" ∷ []))) (
                        field "alertSuppressDefaultDays" (number (of 7)) (
                          field "securityMiningKeywords"
                            (array (texts ("xmrig" ∷ "ethminer" ∷ "nbminer" ∷ [])))
                            (field "securityUnownedGpuMinutes" (number (of 30)) (
                              field "snapshotRecentIntervalSeconds" (number (of 60)) (
                                field "snapshotArchiveIntervalSeconds" (number (of 1800)) (
                                  field "snapshotRecentKeepCount" (number (of 120))
                                    (field "password" (text "") no_fields))))))))))))))))

  -- The loop over the rows.
  unfoldable pub overlay : SettingRows V → Fields V → Fields V
  overlay [] fs = fs
  overlay ((key, value) ∷ rows) fs = overlay rows (put key value fs)

  unfoldable pub get_settings : (ℕ → V) → SettingRows V → Fields V
  unfolding overlay
  get_settings of rows = overlay rows (default_settings of)

  unfoldable pub save_setting : String → Json V → SettingRows V → SettingRows V
  save_setting key value rows = map_set key value rows

  unfoldable pub save_settings : Fields V → SettingRows V → SettingRows V
  unfolding save_setting
  save_settings no_fields rows = rows
  save_settings (field key value rest) rows = save_settings rest (save_setting key value rows)

  -- `delete fields[key]`
  unfoldable pub remove : String → Fields V → Fields V
  remove key no_fields = no_fields
  remove key (field k v fs) = let rest = remove key fs in if k == key then rest else field k v rest
