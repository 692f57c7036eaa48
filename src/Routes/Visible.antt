-- ===== src/Routes/Visible.antt =====
-- What a principal sees through server/runtime/src/routes/server-routes.ts and metrics-routes.ts.
use pmeow.Prelude.{
  ℕ, String, Bool, true, false, not, ◌&&◌, List, [], ◌∷◌, map, Option, some, ◌==◌, string_eq,
  eq_iff, ◌≡◌, refl, sym, ap, ap₂, ◌∙◌, arith, inl, inr, Bool-cases, select, contains, any,
  any-sort,
}
use pmeow.Nodes.{AgentSessionRegistry}
use pmeow.Persons.Bindings.{Principal, BindingDb, can_access_server}
use pmeow.Persons.Scope.{
  get_accessible_server_ids, is_accessible, get_accessible_server_ids-can_access_server,
}
use pmeow.Servers.{ServerRecord}
use pmeow.Snapshots.Store.{Tier}
use pmeow.Ingest.Pipeline.{IngestPipeline}
use pmeow.Tasks.Service.{RouteAnswer, status, answered}
use pmeow.Routes.Machines.{
  get_all_servers, get_servers_route, get_statuses_route, get_latest_route, get_history_route,
  status_entry,
}

-- The rows of an answer, none where it is an error.
abbrev pub rows_of {ℓ} : {A : Type ℓ} → RouteAnswer (List A) → List A
rows_of (status code) = []
rows_of (answered xs) = xs

abbrev pub is_refused {ℓ} : {A : Type ℓ} → RouteAnswer A → Bool
is_refused (status code) = true
is_refused (answered a) = false

contains-select {ℓ} :
    {A : Type ℓ} (key : A → String) (k : String → Bool) (x : String) (xs : List A)
    → contains x (map key (select (λ a. k (key a)) xs)) ≡ (contains x (map key xs) && k x)
contains-select key k x [] = refl
contains-select key k x (a ∷ xs) = elim (Bool-cases (key a == x)) [
  | inl t ↦
      let e = (eq_iff (key a) x).0 t in
      elim (Bool-cases (k (key a))) [
        | inl b ↦ ground (arith, ap k e)
        | inr b ↦ ground (arith, ap k e, contains-select key k x xs)
      ]
  | inr f ↦ ground (arith, contains-select key k x xs)
]

any-map {ℓ} :
    {A : Type ℓ} (f : A → String) (q : String → Bool) (xs : List A)
    → any q (map f xs) ≡ any (λ a. q (f a)) xs
any-map f q [] = refl
any-map f q (a ∷ xs) = ground (arith, any-map f q xs)

status_ids :
    (registry : AgentSessionRegistry) (servers : List ServerRecord)
    → map (λ e. e.0) (map (status_entry registry) servers) ≡ map (λ s. s.id) servers
status_ids registry [] = refl
status_ids registry (s ∷ servers) = ap (λ r. s.id ∷ r) (status_ids registry servers)

module _ (trim : String → String) (name_before : String → String → Bool) where
  contains-get_all_servers :
      (x : String) (servers : List ServerRecord)
      → contains x (map (λ s. s.id) (get_all_servers name_before servers))
        ≡ contains x (map (λ s. s.id) servers)
  unfolding get_all_servers
  contains-get_all_servers x servers =
      any-map (λ (s : ServerRecord). s.id) (λ i. i == x) _
      ∙ any-sort (λ a b. name_before a.name b.name) (λ (s : ServerRecord). s.id == x) servers
      ∙ sym (any-map (λ (s : ServerRecord). s.id) (λ i. i == x) servers)

  visible :
      (p : Principal) (x : String) (servers : List ServerRecord) (db : BindingDb)
      → contains x (
          map
            (λ s. s.id)
            (select
              (λ s. is_accessible s.id (get_accessible_server_ids p db))
              (get_all_servers name_before servers)))
        ≡ (contains x (map (λ s. s.id) servers) && can_access_server p x db)
  visible p x servers db =
      contains-select (λ (s : ServerRecord). s.id)
        (λ i. is_accessible i (get_accessible_server_ids p db)) x
        (get_all_servers name_before servers)
      ∙ ap₂ (λ a b. a && b) (contains-get_all_servers x servers)
          (get_accessible_server_ids-can_access_server p x db)

  -- For a principal, a server is in the answers of the routes of servers and of statuses exactly
  -- when it is in the table and the principal can access it, it is in the latest metrics exactly
  -- when it has a latest report and the principal can access it, and its history is refused
  -- exactly when the principal cannot.
  pub machine_routes-can_access_server :
      {V R G : Type 0} (p : Principal) (sid : String) (now : ℕ) (from to : Option ℕ)
      (tier : Option Tier) (registry : AgentSessionRegistry) (servers : List ServerRecord)
      (db : BindingDb) (pipeline : IngestPipeline V R G)
      → (contains sid
            (map (λ s. s.id) (rows_of (get_servers_route trim name_before (some p) servers db)))
          ≡ (contains sid (map (λ s. s.id) servers) && can_access_server p sid db))
        × (contains sid (
              map
                (λ e. e.0)
                (rows_of (get_statuses_route trim name_before (some p) registry servers db)))
            ≡ (contains sid (map (λ s. s.id) servers) && can_access_server p sid db))
        × (contains sid (map (λ e. e.0) (rows_of (get_latest_route (some p) pipeline db)))
            ≡ (contains sid (map (λ e. e.0) pipeline.latest_reports) && can_access_server p sid db))
        × (is_refused (get_history_route (some p) now sid from to tier pipeline db)
            ≡ not (can_access_server p sid db))
  unfolding get_servers_route get_statuses_route get_latest_route get_history_route
  machine_routes-can_access_server p sid now from to tier registry servers db pipeline = (
    visible p sid servers db,
    ap (contains sid) (status_ids registry _) ∙ visible p sid servers db,
    contains-select (λ e. e.0) (λ i. is_accessible i (get_accessible_server_ids p db)) sid
          pipeline.latest_reports
        ∙ ap (λ b. contains sid (map (λ e. e.0) pipeline.latest_reports) && b)
            (get_accessible_server_ids-can_access_server p sid db),
    elim (Bool-cases (can_access_server p sid db)) [ inl t ↦ rw t refl | inr f ↦ rw f refl ],
  )
