-- ===== src/Persons/AutoAdded.antt =====
-- What the automatic binding of accounts reports: server/core/src/person/service.ts.
use mathlib.Core.Option
use mathlib.Core.List.{map-append, append-nil, append_assoc}
use pmeow.Prelude.{
  ℕ, suc, ◌+◌, String, Bool, List, [], ◌∷◌, ◌++◌, map, Option, none, some, ◌==◌, string_eq, ◌≡◌,
  refl, sym, ap, ◌∙◌, arith, subst, length, inl, inr, Bool-cases, Option-cases,
}
use pmeow.Persons.Records.{PersonRecord, create_person, new_person}
use pmeow.Persons.Resolve.{PersonBindingCandidate}
use pmeow.Persons.Wizard.{PersonDb}
use pmeow.Persons.AutoAdd.{
  AutoAddAction, AutoAddReportEntry, AutoAddReport, AutoAddState, skip, skipped_ambiguous,
  skipped_bound, skipped_root, entry, only_name, same_name_persons, bind_account, reuse, create,
  by_name, add_candidate, add_all, auto_add_unassigned_users,
}

abbrev pub total : AutoAddReport → ℕ
total r = r.created_count + r.reused_count + r.skipped_count

abbrev pub account : AutoAddReportEntry → String × String
account e = (e.server_id, e.system_user)

abbrev pub candidate_account : PersonBindingCandidate → String × String
candidate_account c = (c.server_id, c.system_user)

length-append_one {ℓ} : {A : Type ℓ} (xs : List A) (x : A) → length (xs ++ x ∷ []) ≡ suc (length xs)
length-append_one [] x = refl
length-append_one (y ∷ xs) x = ap suc (length-append_one xs x)

-- The state after the candidates, whose accounts and number are given.
abbrev Grows : List (String × String) → ℕ → AutoAddState → AutoAddState → Type 0
Grows accounts n s s' =
    (map account s'.report.entries ≡ map account s.report.entries ++ accounts)
    × (total s'.report ≡ total s.report + n)
    × (length s'.db.persons + s.report.created_count
        ≡ length s.db.persons + s'.report.created_count)

one_entry :
    (es : List AutoAddReportEntry) (c : PersonBindingCandidate) (a : AutoAddAction)
    (p : Option PersonRecord)
    → map account (es ++ entry c a p ∷ []) ≡ map account es ++ candidate_account c ∷ []
one_entry es c a p = map-append account es (entry c a p ∷ [])

skip-Grows :
    (c : PersonBindingCandidate) (a : AutoAddAction) (s : AutoAddState)
    → Grows (candidate_account c ∷ []) 1 s (skip c a s)
skip-Grows c a s = (one_entry s.report.entries c a none, omega arith, omega arith)

Grows-add :
    (xs ys : List (String × String)) (m n : ℕ) (s t u : AutoAddState)
    → Grows xs m s t
    → Grows ys n t u
    → Grows (xs ++ ys) (m + n) s u
Grows-add xs ys m n s t u (e, c, p) (f, d, q) = (
  f ∙ ap (λ l. l ++ ys) e ∙ append_assoc (map account s.report.entries) xs ys,
  omega arith,
  omega arith,
)

abbrev start : PersonDb → AutoAddState
start db = record {
  db = db;
  drawn = 0;
  report = record { entries = []; created_count = 0; reused_count = 0; skipped_count = 0 };
}

module _ (name_before : String → String → Bool) (now : ℕ) (new_id : ℕ → String) where
  reuse-Grows :
      (c : PersonBindingCandidate) (p : PersonRecord) (s s' : AutoAddState)
      → reuse name_before now new_id c p s ≡ some s'
      → Grows (candidate_account c ∷ []) 1 s s'
  unfolding reuse
  reuse-Grows c p s s' h =
      elim (Option-cases (bind_account name_before now new_id c p s.db.persons s.db.bindings)) [
        | inl e ↦ absurd (cc (rw e at h))
        | inr (after, e) ↦
            subst (Grows (candidate_account c ∷ []) 1 s) (Option.some-injective _ _ (rw e at h))
              (one_entry s.report.entries c _ (some p), omega arith, omega arith)
      ]

  create-Grows :
      (c : PersonBindingCandidate) (s s' : AutoAddState)
      → create name_before now new_id c s ≡ some s'
      → Grows (candidate_account c ∷ []) 1 s s'
  unfolding create create_person
  create-Grows c s s' h =
      let p = new_person now (new_id s.drawn) (only_name c.system_user) in
      elim (Option-cases (
        bind_account name_before now new_id c p
          (create_person now (new_id s.drawn) (only_name c.system_user) s.db.persons)
          s.db.bindings)) [
            | inl e ↦ absurd (cc (rw e at h))
            | inr (after, e) ↦
                subst (Grows (candidate_account c ∷ []) 1 s) (Option.some-injective _ _ (rw e at h))
                  (
                    one_entry s.report.entries c _ (some p),
                    omega arith,
                    omega (arith, length-append_one s.db.persons p),
                  )
          ]

  by_name-Grows :
      (c : PersonBindingCandidate) (ps : List PersonRecord) (s s' : AutoAddState)
      → by_name name_before now new_id c ps s ≡ some s'
      → Grows (candidate_account c ∷ []) 1 s s'
  by_name-Grows c [] s s' h = create-Grows c s s' h
  by_name-Grows c (p ∷ []) s s' h = reuse-Grows c p s s' h
  by_name-Grows c (p ∷ q ∷ rest) s s' h =
      subst (Grows (candidate_account c ∷ []) 1 s) (Option.some-injective _ _ h)
        (skip-Grows c skipped_ambiguous s)

  add_candidate-Grows :
      (c : PersonBindingCandidate) (s s' : AutoAddState)
      → add_candidate name_before now new_id c s ≡ some s'
      → Grows (candidate_account c ∷ []) 1 s s'
  unfolding add_candidate
  add_candidate-Grows c s s' h = elim (Option-cases c.active_binding) [
    | inr (b, e) ↦
        subst (Grows (candidate_account c ∷ []) 1 s)
          (Option.some-injective _ _ (rw (e, add_candidate) at h)) (skip-Grows c skipped_bound s)
    | inl e ↦ elim (Bool-cases (c.system_user == "root")) [
      | inl t ↦
          subst (Grows (candidate_account c ∷ []) 1 s)
            (Option.some-injective _ _ (rw (e, t, add_candidate) at h))
            (skip-Grows c skipped_root s)
      | inr f ↦
          by_name-Grows c (same_name_persons name_before now new_id c.system_user s.db) s s'
            (rw (e, f, add_candidate) at h)
    ]
  ]

  add_all-Grows :
      (cs : List PersonBindingCandidate) (s s' : AutoAddState)
      → add_all name_before now new_id cs s ≡ some s'
      → Grows (map candidate_account cs) (length cs) s s'
  unfolding add_all
  add_all-Grows [] s s' h =
      subst (Grows [] 0 s) (Option.some-injective _ _ h)
        (sym (append-nil (map account s.report.entries)), omega arith, refl)
  add_all-Grows (c ∷ cs) s s' h = elim (Option-cases (add_candidate name_before now new_id c s)) [
    | inl e ↦ absurd (cc (rw (e, add_all) at h))
    | inr (t, e) ↦
        subst (λ n. Grows (map candidate_account (c ∷ cs)) n s s') {x = 1 + length cs} (omega arith)
          (Grows-add (candidate_account c ∷ []) (map candidate_account cs) 1 (length cs) s t s'
            (add_candidate-Grows c s t e) (add_all-Grows cs t s' (rw (e, add_all) at h)))
  ]

  -- An automatic binding that does not throw reports every candidate once, in order, its three
  -- counts add up to the number of candidates, and the table of persons grows by the number of
  -- created ones.
  pub auto_add_unassigned_users-entries :
      (cs : List PersonBindingCandidate) (db after : PersonDb) (report : AutoAddReport)
      → auto_add_unassigned_users name_before now new_id cs db ≡ some (after, report)
      → (map account report.entries ≡ map candidate_account cs)
        × (total report ≡ length cs)
        × (length after.persons ≡ length db.persons + report.created_count)
  unfolding auto_add_unassigned_users
  auto_add_unassigned_users-entries cs db after report h =
      elim (Option-cases (add_all name_before now new_id cs (start db))) [
        | inl e ↦ absurd (cc (rw e at h))
        | inr (s, e) ↦
            let (entries, count, persons) = add_all-Grows cs (start db) s e in
            let same : (s.db, s.report) ≡ (after, report) = Option.some-injective _ _ (rw e at h) in
            (
              ap (λ (p : PersonDb × AutoAddReport). map account p.1.entries) (sym same) ∙ entries,
              omega (arith, ap (λ (p : PersonDb × AutoAddReport). total p.1) same, count),
              omega (
                arith,
                persons,
                ap (λ (p : PersonDb × AutoAddReport). length p.0.persons) same,
                ap (λ (p : PersonDb × AutoAddReport). p.1.created_count) same,
              ),
            )
      ]
