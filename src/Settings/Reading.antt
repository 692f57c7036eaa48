-- ===== src/Settings/Reading.antt =====
-- What is read back from the settings: server/core/src/db/settings.ts.
use pmeow.Prelude.{
  ℕ, String, true, false, [], ◌∷◌, Option, none, some, ◌==◌, string_eq, eq_iff, if◌then◌else◌, ◌≡◌,
  ◌≢◌, refl, arith, ◌∙◌, inl, inr, Bool-cases, map_get, map_set, map_get-map_set, All, Distinct,
}
use pmeow.Protocol.Json.{Json, Fields, no_fields, field, read, put, read-put, or_else}
use pmeow.Settings.Store.{
  SettingRows, default_settings, overlay, get_settings, save_setting, save_settings,
}

module _ {V : Type 0} where
  -- The last value that is given to a key.
  abbrev pub given : String → Fields V → Option (Json V)
  given key no_fields = none
  given key (field k v fs) = or_else (given key fs) (if k == key then some v else none)

  absent-map_get :
      (key k : String) (rows : SettingRows V)
      → All (λ e. k ≢ e.0) rows
      → (k == key) ≡ true
      → map_get key rows ≡ none
  absent-map_get key k [] h e = refl
  absent-map_get key k (r ∷ rows) (h, hs) e =
      ground (arith, h, absent-map_get key k rows hs e, eq_iff k key, eq_iff r.0 key)

  read-overlay :
      (key : String) (rows : SettingRows V) (fs : Fields V)
      → Distinct (λ e. e.0) rows
      → read key (overlay rows fs) ≡ or_else (map_get key rows) (read key fs)
  unfolding overlay
  read-overlay key [] fs d = refl
  read-overlay key ((k, v) ∷ rows) fs (d, ds) =
      read-overlay key rows (put k v fs) ds ∙ (elim (Bool-cases (k == key)) [
        | inl t ↦ rw (t, absent-map_get key k rows d t, read-put key k v fs) (ground (arith, t))
        | inr f ↦ rw (f, read-put key k v fs) (ground (arith, f))
      ])

  map_set-Distinct :
      (key : String) (v : Json V) (rows : SettingRows V)
      → Distinct (λ e. e.0) rows
      → Distinct (λ e. e.0) (map_set key v rows)
  map_set-Distinct key v [] d = (tt, tt)
  map_set-Distinct key v ((k, w) ∷ rows) (d, ds) = elim (Bool-cases (k == key)) [
    | inl t ↦ rw t (d, ds)
    | inr f ↦ rw f (apart f rows d, map_set-Distinct key v rows ds)
  ]
    where
      apart :
          (k == key) ≡ false
          → (xs : SettingRows V) → All (λ e. k ≢ e.0) xs
          → All (λ e. k ≢ e.0) (map_set key v xs)
      apart f [] h = ((λ e. ground (arith, f, eq_iff k key)), tt)
      apart f (x ∷ xs) (h, hs) = elim (Bool-cases (x.0 == key)) [
        | inl t ↦ rw t (h, hs)
        | inr g ↦ rw g (h, apart f xs hs)
      ]

  save_settings-Distinct :
      (updates : Fields V) (rows : SettingRows V)
      → Distinct (λ e. e.0) rows
      → Distinct (λ e. e.0) (save_settings updates rows)
  unfolding save_settings save_setting
  save_settings-Distinct no_fields rows d = d
  save_settings-Distinct (field k v rest) rows d =
      save_settings-Distinct rest (map_set k v rows) (map_set-Distinct k v rows d)

  map_get-save_settings :
      (key : String) (updates : Fields V) (rows : SettingRows V)
      → map_get key (save_settings updates rows) ≡ or_else (given key updates) (map_get key rows)
  unfolding save_settings save_setting
  map_get-save_settings key no_fields rows = refl
  map_get-save_settings key (field k v rest) rows =
      map_get-save_settings key rest (map_set k v rows)
      ∙ ground (arith, map_get-map_set k key v rows)

  or_else_assoc : (a b c : Option (Json V)) → or_else (or_else a b) c ≡ or_else a (or_else b c)
  or_else_assoc none b c = refl
  or_else_assoc (some a) b c = refl

  module _ (of : ℕ → V) where
    -- After settings are saved, a key reads as the last value that the update gives it, and a key
    -- that the update does not give reads as before, defaults included.
    pub get_settings-save_settings :
        (key : String) (updates : Fields V) (rows : SettingRows V)
        → Distinct (λ e. e.0) rows
        → read key (get_settings of (save_settings updates rows))
          ≡ or_else (given key updates) (read key (get_settings of rows))
    unfolding get_settings
    get_settings-save_settings key updates rows d =
        rw
          (
            read-overlay key (save_settings updates rows) (default_settings of)
                (save_settings-Distinct updates rows d),
            read-overlay key rows (default_settings of) d,
            map_get-save_settings key updates rows,
          )
          (or_else_assoc (given key updates) (map_get key rows) (read key (default_settings of)))
