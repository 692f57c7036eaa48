-- ===== src/Security/OneOpen.antt =====
-- At most one open event per server, kind and fingerprint: the invariant of
-- server/core/src/db/security-events.ts that `processSecurityCheck` and its callers rely on.
use pmeow.Prelude.{
  ℕ, suc, ◌<◌, String, Bool, false, not, ◌&&◌, List, [], ◌∷◌, ◌++◌, map, none, some, ◌==◌, nat_eq,
  string_eq, eq_iff, if◌then◌else◌, ◌≡◌, ◌≢◌, refl, arith, inl, inr, Bool-cases, Option-cases,
  find_holds, find_only, update_where, All, Distinct, All-of_find-none, All-weaken, All-append_one,
  All-map, All-both, Distinct-map, Distinct-append_one, subst, sym,
}
use pmeow.Security.Types.{
  marked_safe, unresolve, event_name, SecurityFinding, SecurityEventRecord, SecurityDb, Platform,
}
use pmeow.Security.Store.{
  get_security_event_by_id, new_event, create_security_event, is_open, find_open_security_event,
  close, reopen, update_id, is_audit, audit_of, write_audit, mark_security_event_safe,
  unresolve_security_event,
}

-- Two open events of the same server, kind and fingerprint.
abbrev pub clash : SecurityEventRecord → SecurityEventRecord → Bool
clash r s = is_open r.server_id r.event_type r.fingerprint s && not r.resolved

abbrev pub OneOpen : List SecurityEventRecord → Type 0
OneOpen [] = Unit {0}
OneOpen (r ∷ rs) = All (λ s. clash r s ≡ false) rs × OneOpen rs

pub record IsValid (db : SecurityDb) : Type 0 where
  pub below : All (λ r. r.id < db.next_id) db.rows
  pub distinct : Distinct (λ r. r.id) db.rows
  pub one_open : OneOpen db.rows

abbrev id_of : SecurityEventRecord → ℕ
id_of r = r.id

OneOpen-append_one :
    (xs : List SecurityEventRecord) (x : SecurityEventRecord)
    → OneOpen xs
    → All (λ y. clash y x ≡ false) xs
    → OneOpen (xs ++ x ∷ [])
OneOpen-append_one [] x h k = (tt, tt)
OneOpen-append_one (y ∷ xs) x (h, hs) (k, ks) =
    (All-append_one (λ s. clash y s ≡ false) xs x h k, OneOpen-append_one xs x hs ks)

-- Rows that are rewritten without new clashes.
OneOpen-map :
    (P : SecurityEventRecord → Type 0) (f : SecurityEventRecord → SecurityEventRecord)
    (xs : List SecurityEventRecord)
    → ((r s : SecurityEventRecord)
        → P r
        → P s
        → r.id ≢ s.id
        → clash r s ≡ false
        → clash (f r) (f s) ≡ false)
    → All P xs
    → Distinct id_of xs
    → OneOpen xs
    → OneOpen (map f xs)
OneOpen-map P f [] h p d o = tt
OneOpen-map P f (x ∷ xs) h (p, ps) (d, ds) (o, os) = (
  All-map (λ s. (P s × (x.id ≢ s.id)) × (clash x s ≡ false)) (λ s. clash (f x) s ≡ false) f xs
      (λ s k. h x s p k.0.0 k.0.1 k.1)
      (All-both (λ s. P s × (x.id ≢ s.id)) (λ s. clash x s ≡ false) xs
        (All-both P (λ s. x.id ≢ s.id) xs ps d) o),
  OneOpen-map P f xs h ps ds os,
)

pub create_security_event-IsValid :
    (now : ℕ) (input : SecurityFinding) (db : SecurityDb)
    → IsValid db
    → find_open_security_event input.server_id input.event_type input.fingerprint db ≡ none
    → IsValid (create_security_event now input db).0
unfolding create_security_event find_open_security_event
create_security_event-IsValid now input db v e =
    let row = new_event db.next_id now input in
    record {
      below =
          All-append_one (λ r. r.id < suc db.next_id) db.rows row
            (All-weaken (λ r. r.id < db.next_id) (λ r. r.id < suc db.next_id) db.rows
              (λ r k. ground arith) v.below)
            (ground arith);
      distinct = Distinct-append_one id_of db.rows row v.distinct (
          All-weaken (λ r. r.id < db.next_id) (λ r. r.id ≢ db.next_id) db.rows
            (λ r k m. ground arith) v.below);
      one_open = OneOpen-append_one db.rows row v.one_open (
          All-weaken (λ y. is_open input.server_id input.event_type input.fingerprint y ≡ false)
            (λ y. clash y row ≡ false) db.rows
            (λ y k. ground (
              arith,
              eq_iff y.server_id input.server_id,
              eq_iff input.server_id y.server_id,
              eq_iff (event_name y.event_type) (event_name input.event_type),
              eq_iff (event_name input.event_type) (event_name y.event_type),
              eq_iff y.fingerprint input.fingerprint,
              eq_iff input.fingerprint y.fingerprint,
            ))
            (All-of_find-none (is_open input.server_id input.event_type input.fingerprint) db.rows
              e));
    }

-- A row that is rewritten by its id, where the rewriting makes no clash.
update_id-IsValid :
    (P : SecurityEventRecord → Type 0) (id : ℕ) (f : SecurityEventRecord → SecurityEventRecord)
    (db : SecurityDb)
    → ((r : SecurityEventRecord) → (f r).id ≡ r.id)
    → ((r s : SecurityEventRecord)
        → P r
        → P s
        → r.id ≢ s.id
        → clash r s ≡ false
        → clash (if r.id == id then f r else r) (if s.id == id then f s else s) ≡ false)
    → All P db.rows
    → IsValid db
    → IsValid (update_id id f db)
update_id-IsValid P id f db keep h p v =
    let g = λ (r : SecurityEventRecord). if r.id == id then f r else r in
    let same : (r : SecurityEventRecord) → (g r).id ≡ r.id = λ r. ground (arith, keep r) in
    record {
      below =
          All-map (λ r. r.id < db.next_id) (λ r. r.id < db.next_id) g db.rows
            (λ r k. subst (λ n. n < db.next_id) (sym (same r)) k) v.below;
      distinct = Distinct-map id_of g db.rows same v.distinct;
      one_open = OneOpen-map P g db.rows h p v.distinct v.one_open;
    }

update_last :
    (n : ℕ) (f : SecurityEventRecord → SecurityEventRecord) (xs : List SecurityEventRecord)
    (x : SecurityEventRecord)
    → All (λ r. r.id < n) xs
    → x.id ≡ n
    → update_where (λ r. r.id == n) f (xs ++ x ∷ []) ≡ xs ++ f x ∷ []
update_last n f [] x h e = ground (arith, eq_iff x.id n)
update_last n f (y ∷ xs) x (h, hs) e = ground (arith, update_last n f xs x hs e, eq_iff y.id n)

-- An event that was free to open clashes with no other, whichever of the two was written first.
free-clash :
    (r x : SecurityEventRecord)
    → is_open r.server_id r.event_type r.fingerprint x ≡ false
    → clash x (reopen r) ≡ false
free-clash r x h = ground (
  arith,
  eq_iff x.server_id r.server_id,
  eq_iff r.server_id x.server_id,
  eq_iff (event_name x.event_type) (event_name r.event_type),
  eq_iff (event_name r.event_type) (event_name x.event_type),
  eq_iff x.fingerprint r.fingerprint,
  eq_iff r.fingerprint x.fingerprint,
)

reopened-apart :
    (id : ℕ) (r x y : SecurityEventRecord)
    → r.id ≡ id
    → x.id ≢ y.id
    → (x.id ≡ r.id → x ≡ r) × (is_open r.server_id r.event_type r.fingerprint x ≡ false)
    → (y.id ≡ r.id → y ≡ r) × (is_open r.server_id r.event_type r.fingerprint y ≡ false)
    → clash x y ≡ false
    → clash (if x.id == id then reopen x else x) (if y.id == id then reopen y else y) ≡ false
reopened-apart id r x y e apart p q k = elim (Bool-cases (x.id == id)) [
  | inl t ↦ elim (Bool-cases (y.id == id)) [
    | inl u ↦ absurd (apart (ground arith))
    | inr u ↦
        rw (t, u)
          (subst (λ z. clash (reopen z) y ≡ false) (sym (p.0 (ground arith))) (ground (arith, q.1)))
  ]
  | inr t ↦ elim (Bool-cases (y.id == id)) [
    | inl u ↦
        rw (t, u)
          (subst (λ z. clash x (reopen z) ≡ false) (sym (q.0 (ground arith))) (free-clash r x p.1))
    | inr u ↦ rw (t, u) k
  ]
]

module _ (now : ℕ) (by : String) where
  write_audit-IsValid :
      (input : SecurityFinding) (db : SecurityDb)
      → IsValid db
      → IsValid (write_audit now by input db)
  unfolding write_audit create_security_event
  write_audit-IsValid input db v =
      let row = new_event db.next_id now input in
      let rows = update_last db.next_id (close now by) db.rows row v.below refl in
      record {
        below = subst (All (λ r. r.id < suc db.next_id)) (sym rows) (
            All-append_one (λ r. r.id < suc db.next_id) db.rows (close now by row)
              (All-weaken (λ r. r.id < db.next_id) (λ r. r.id < suc db.next_id) db.rows
                (λ r k. ground arith) v.below)
              (ground arith));
        distinct = subst (Distinct id_of) (sym rows) (
            Distinct-append_one id_of db.rows (close now by row) v.distinct (
              All-weaken (λ r. r.id < db.next_id) (λ r. r.id ≢ db.next_id) db.rows
                (λ r k m. ground arith) v.below));
        one_open = subst OneOpen (sym rows) (
            OneOpen-append_one db.rows (close now by row) v.one_open (
              All-weaken (λ r. r.id < db.next_id) (λ y. clash y (close now by row) ≡ false) db.rows
                (λ y k. ground arith) v.below));
      }

  module _ (js : Platform) (id : ℕ) (reason : String) (db : SecurityDb) where
    -- The table that marking an event as safe leaves.
    abbrev pub marked : SecurityDb
    marked = elim (mark_security_event_safe js now id by reason db) [
      | none ↦ db
      | some after ↦ after
    ]

    close-IsValid : IsValid db → IsValid (update_id id (close now by) db)
    close-IsValid v =
        update_id-IsValid (λ r. r.id < db.next_id) id (close now by) db (λ r. refl)
          (λ r s p q apart k. ground arith) v.below v

    pub marked-IsValid : IsValid db → IsValid marked
    unfolding mark_security_event_safe
    marked-IsValid v = elim (Option-cases (get_security_event_by_id id db)) [
      | inl e ↦ rw (e, marked, mark_security_event_safe) v
      | inr (r, e) ↦
          rw (e, marked, mark_security_event_safe)
            (elim (Bool-cases r.resolved) [
              | inl t ↦ rw t v
              | inr f ↦
                  rw f
                    (write_audit-IsValid (audit_of js marked_safe r now reason) _ (close-IsValid v))
            ])
    ]

    reopen-IsValid :
        (r : SecurityEventRecord)
        → IsValid db
        → get_security_event_by_id id db ≡ some r
        → find_open_security_event r.server_id r.event_type r.fingerprint db ≡ none
        → IsValid (update_id id reopen db)
    unfolding get_security_event_by_id find_open_security_event
    reopen-IsValid r v found free =
        update_id-IsValid
          (λ x. (x.id ≡ r.id → x ≡ r) × (is_open r.server_id r.event_type r.fingerprint x ≡ false))
          id reopen db (λ x. refl)
          (λ x y p q apart k.
            reopened-apart id r x y
              ((eq_iff r.id id).0 (find_holds (λ z. z.id == id) db.rows r found)) apart p q k)
          (All-both (λ x. x.id ≡ r.id → x ≡ r)
            (λ x. is_open r.server_id r.event_type r.fingerprint x ≡ false) db.rows
            (find_only id_of (λ x. x.id == id) db.rows r v.distinct found)
            (All-of_find-none (is_open r.server_id r.event_type r.fingerprint) db.rows free))
          v

    pub unresolve-IsValid : IsValid db → IsValid (unresolve_security_event js now id by reason db).0
    unfolding unresolve_security_event
    unresolve-IsValid v = elim (Option-cases (get_security_event_by_id id db)) [
      | inl e ↦ rw (e, unresolve_security_event) v
      | inr (r, e) ↦
          rw (e, unresolve_security_event)
            (elim (Bool-cases (is_audit r.event_type)) [
              | inl t ↦ rw t v
              | inr f ↦ rw f (elim (Bool-cases r.resolved) [
                | inr g ↦ rw g v
                | inl g ↦
                    rw g
                      (elim (Option-cases
                        (find_open_security_event r.server_id r.event_type r.fingerprint db)) [
                          | inr (o, h) ↦ rw h v
                          | inl h ↦ rw h (
                              write_audit-IsValid (audit_of js unresolve r now reason) _
                                (reopen-IsValid r v e h))
                        ])
              ])
            ])
    ]
