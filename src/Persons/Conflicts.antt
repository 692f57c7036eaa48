-- ===== src/Persons/Conflicts.antt =====
-- When the wizard refuses: server/core/src/person/service.ts.
use Prim.Native.String
use text.Mathlib.TextLemmas.{append_assoc, append_cancel_left}
use pmeow.Prelude.{
  ℕ, String, Bool, true, false, not, ◌&&◌, ◌||◌, List, [], ◌∷◌, map, ◌==◌, string_eq, eq_iff,
  if◌then◌else◌, ◌≡◌, refl, sym, ap, ap₂, ◌∙◌, arith, ◌⊎◌, inl, inr, Bool-cases, Option-cases, any,
  is_some, All, NoColon, before_colon, before_colon-append, subst,
}
use pmeow.Persons.Bindings.{get_active_binding}
use pmeow.Persons.Wizard.{
  WizardBinding, PersonBindingConflict, CreatePersonWizardInput, PersonDb, WizardAnswer,
  conflicting, created, binding_key, dedupe_from, dedupe_bindings, conflicts_of, deactivate_all,
  create_all, create_person_row, transfer, create_person_from_wizard, is_empty,
}

two_colons :
    (s u : String)
    → String.◌++◌ s (String.◌++◌ "::" u) ≡ String.◌++◌ s (String.◌++◌ ":" (String.◌++◌ ":" u))
two_colons s u = ap (String.◌++◌ s) (append_assoc ":" ":" u)

binding_key_injective :
    (a b : WizardBinding)
    → NoColon a.server_id
    → NoColon b.server_id
    → binding_key a ≡ binding_key b
    → (a.server_id ≡ b.server_id) × (a.system_user ≡ b.system_user)
binding_key_injective a b no_a no_b e = (
  same,
  append_cancel_left "::" _ _ (
      append_cancel_left b.server_id _ _
        (subst (λ s. String.◌++◌ s (String.◌++◌ "::" a.system_user) ≡ binding_key b) same e)),
)
  where
    same : a.server_id ≡ b.server_id
    same =
        sym (before_colon-append a.server_id _ no_a)
        ∙ ap before_colon
            (sym (two_colons a.server_id a.system_user) ∙ e ∙ two_colons b.server_id b.system_user)
        ∙ before_colon-append b.server_id _ no_b

skipped :
    (s d r x : Bool) → (s || d) ≡ (s || r) → (x ≡ true → s ≡ true) → (s || d) ≡ (s || (x || r))
skipped s d r x h k = ground (arith, h, k)

kept : (s d r x : Bool) → ((x || s) || d) ≡ ((x || s) || r) → (s || (x || d)) ≡ (s || (x || r))
kept s d r x h = ground (arith, h)

module _ (now : ℕ) (db : PersonDb) where
  -- Whether the account is bound now.
  abbrev pub is_bound : WizardBinding → Bool
  is_bound b = is_some (get_active_binding now b.server_id b.system_user db.bindings)

  is_empty-conflicts_of :
      (bs : List WizardBinding) → is_empty (conflicts_of now db bs) ≡ not (any is_bound bs)
  unfolding conflicts_of
  is_empty-conflicts_of [] = refl
  is_empty-conflicts_of (b ∷ bs) =
      elim (Option-cases (get_active_binding now b.server_id b.system_user db.bindings)) [
        | inl e ↦ rw (e, conflicts_of) (is_empty-conflicts_of bs)
        | inr (r, e) ↦ rw (e, conflicts_of) refl
      ]

  NoColons : List WizardBinding → Type 0
  NoColons bs = All (λ b. NoColon b.server_id) bs

  is_bound-key :
      (a b : WizardBinding)
      → NoColon a.server_id
      → NoColon b.server_id
      → binding_key a ≡ binding_key b
      → is_bound a ≡ is_bound b
  is_bound-key a b no_a no_b e =
      let (s, u) = binding_key_injective a b no_a no_b e in
      ap₂ (λ x y. is_some (get_active_binding now x y db.bindings)) s u

  seen_bound :
      (b : WizardBinding) (seen : List WizardBinding)
      → NoColon b.server_id
      → All (λ s. NoColon s.server_id) seen
      → any (λ k. k == binding_key b) (map binding_key seen) ≡ true
      → is_bound b ≡ true
      → any is_bound seen ≡ true
  seen_bound b [] no_b no_seen h k = h
  seen_bound b (s ∷ seen) no_b (no_s, no_seen) h k =
      elim (Bool-cases (binding_key s == binding_key b)) [
        | inl t ↦
            ground
              (arith, is_bound-key s b no_s no_b ((eq_iff (binding_key s) (binding_key b)).0 t), k)
        | inr f ↦ ground (arith, seen_bound b seen no_b no_seen, h, k, f)
      ]

  any-dedupe_from :
      (seen bs : List WizardBinding)
      → All (λ s. NoColon s.server_id) seen
      → All (λ b. NoColon b.server_id) bs
      → (any is_bound seen || any is_bound (dedupe_from (map binding_key seen) bs))
        ≡ (any is_bound seen || any is_bound bs)
  unfolding dedupe_from
  any-dedupe_from seen [] no_seen no_bs = refl
  any-dedupe_from seen (b ∷ bs) no_seen (no_b, no_bs) =
      elim (Bool-cases (any (λ k. k == binding_key b) (map binding_key seen))) [
        | inl t ↦ rw t (
            skipped (any is_bound seen) _ (any is_bound bs) (is_bound b)
              (any-dedupe_from seen bs no_seen no_bs) (seen_bound b seen no_b no_seen t))
        | inr f ↦ rw f (
            kept (any is_bound seen) _ (any is_bound bs) (is_bound b)
              (any-dedupe_from (b ∷ seen) bs (no_b, no_seen) no_bs))
      ]

  is_empty-dedupe_bindings :
      (bs : List WizardBinding)
      → All (λ b. NoColon b.server_id) bs
      → is_empty (conflicts_of now db (dedupe_bindings bs)) ≡ not (any is_bound bs)
  unfolding dedupe_bindings
  is_empty-dedupe_bindings bs no_colons =
      is_empty-conflicts_of (dedupe_from [] bs) ∙ ap not (any-dedupe_from [] bs tt no_colons)

abbrev pub is_conflicting : WizardAnswer → Bool
is_conflicting (conflicting cs) = true
is_conflicting _ = false

abbrev pub is_created : WizardAnswer → Bool
is_created (created r) = true
is_created _ = false

abbrev Unchanged : PersonDb → PersonDb × WizardAnswer → Type 0
Unchanged db r = (is_created r.1 ≡ true) ⊎ (r.0 ≡ db)

-- The test on the conflicts, before a transaction that refuses nothing.
refused_or :
    (db : PersonDb) (cs : List PersonBindingConflict) (t : PersonDb × WizardAnswer) (e c a : Bool)
    → (is_conflicting t.1 ≡ false) × Unchanged db t
    → e ≡ not a
    → (is_conflicting (if not e && not c then (db, conflicting cs) else t).1 ≡ (a && not c))
      × Unchanged db (if not e && not c then (db, conflicting cs) else t)
refused_or db cs t true true a h k = (ground (arith, h.0, k), h.1)
refused_or db cs t true false a h k = (ground (arith, h.0, k), h.1)
refused_or db cs t false true a h k = (ground (arith, h.0, k), h.1)
refused_or db cs t false false a h k = (ground (arith, k), inr refl)

module _ (trim : String → String) where
  transfer-answer :
      (now : ℕ) (id : String) (input : CreatePersonWizardInput) (bs : List WizardBinding)
      (db : PersonDb)
      → (is_conflicting (transfer trim now id input bs (conflicts_of now db bs) db).1 ≡ false)
        × ((is_created (transfer trim now id input bs (conflicts_of now db bs) db).1 ≡ true)
            ⊎ ((transfer trim now id input bs (conflicts_of now db bs) db).0 ≡ db))
  unfolding transfer
  transfer-answer now id input bs db =
      elim (Option-cases (
        deactivate_all now (create_person_row trim now id input db.persons) (conflicts_of now db bs)
          db.bindings)) [
            | inl e ↦ rw (e, transfer) (refl, inr refl)
            | inr (ended, e) ↦
                elim (Option-cases (
                  create_all now (create_person_row trim now id input db.persons) input.mode id bs
                    ended)) [
                      | inl f ↦ rw (e, f, transfer) (refl, inr refl)
                      | inr (made, f) ↦ rw (e, f, transfer) (refl, inl refl)
                    ]
          ]

  -- Where no server id of the input has a colon, the wizard answers with a conflict exactly when
  -- the trimmed name is not empty, some asked account is actively bound and the transfer is not
  -- confirmed; and unless it creates the person, the tables stay as they were.
  pub create_person_from_wizard-conflicting :
      (now : ℕ) (id : String) (input : CreatePersonWizardInput) (db : PersonDb)
      → All (λ b. NoColon b.server_id) input.bindings
      → (is_conflicting (create_person_from_wizard trim now id input db).1 ≡ (
          not (trim input.display_name == "")
          && (any (is_bound now db) input.bindings && not input.confirm_transfer)))
        × ((is_created (create_person_from_wizard trim now id input db).1 ≡ true)
            ⊎ ((create_person_from_wizard trim now id input db).0 ≡ db))
  unfolding create_person_from_wizard
  create_person_from_wizard-conflicting now id input db no_colons =
      elim (Bool-cases (trim input.display_name == "")) [
        | inl t ↦ rw t (refl, inr refl)
        | inr f ↦ rw f (
            refused_or db (conflicts_of now db (dedupe_bindings input.bindings))
              (transfer trim now id input (dedupe_bindings input.bindings)
                (conflicts_of now db (dedupe_bindings input.bindings)) db)
              _ input.confirm_transfer (any (is_bound now db) input.bindings)
              (transfer-answer now id input (dedupe_bindings input.bindings) db)
              (is_empty-dedupe_bindings now db input.bindings no_colons))
      ]
