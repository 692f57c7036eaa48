-- ===== src/Realtime/Broadcast.antt =====
-- `createUIBroadcast`: server/runtime/src/realtime.ts. A socket is its number with the principal that the
-- handshake gave it; a broadcast is the list of the sockets that it reaches.
use pmeow.Prelude.{
  contains, All, All-weaken, eq_refl, ℕ, String, Bool, true, false, ◌&&◌, List, [], ◌∷◌, Option,
  none, some, ◌==◌, string_eq, nat_eq, if◌then◌else◌, any, select, ◌≡◌, refl, arith,
}
use pmeow.Persons.Bindings.{
  PersonBindingRecord, BindingDb, Principal, admin, person, can_access_server, can_access_task,
}

pub record UiSocket : Type 0 where
  pub socket : ℕ
  pub principal : Option Principal

abbrev pub is_admin : Principal → Bool
is_admin admin = true
is_admin (person id) = false

abbrev pub allows : (Principal → Bool) → Option Principal → Bool
allows may none = false
allows may (some p) = may p

-- `forEachSocket`, with the test that each broadcast makes first.
unfoldable pub for_each_socket : (Principal → Bool) → List UiSocket → List ℕ
for_each_socket may [] = []
for_each_socket may (s ∷ rest) =
    let later = for_each_socket may rest in
    if allows may s.principal then s.socket ∷ later else later

module _ (db : BindingDb) (sockets : List UiSocket) where
  abbrev pub metrics_update : String → List ℕ
  metrics_update sid = for_each_socket (λ p. can_access_server p sid db) sockets

  abbrev pub task_event : String → String → List ℕ
  task_event sid user = for_each_socket (λ p. can_access_task p sid user db) sockets

  abbrev pub alert_state_change : List ℕ
  alert_state_change = for_each_socket is_admin sockets

  abbrev pub security_event : List ℕ
  security_event = for_each_socket is_admin sockets

  abbrev pub server_status : String → List ℕ
  server_status sid = for_each_socket (λ p. can_access_server p sid db) sockets

any_weaken :
    (p q : PersonBindingRecord → Bool) (xs : List PersonBindingRecord)
    → ((x : PersonBindingRecord) → p x ≡ true → q x ≡ true)
    → any p xs ≡ true
    → any q xs ≡ true
any_weaken p q [] f h = cc
any_weaken p q (x ∷ xs) f h = ground (arith, any_weaken p q xs f, f x)

can_access_task-server :
    (p : Principal) (sid user : String) (db : BindingDb)
    → can_access_task p sid user db ≡ true
    → can_access_server p sid db ≡ true
unfolding can_access_task can_access_server
can_access_task-server admin sid user db h = refl
can_access_task-server (person id) sid user db h =
    any_weaken (λ b. b.server_id == sid && (b.system_user == user && b.enabled))
      (λ b. b.server_id == sid && b.enabled) (select (λ b. b.person_id == id) db.bindings)
      (λ b k. ground arith) h

allows_mono :
    (may can : Principal → Bool) (o : Option Principal)
    → ((p : Principal) → may p ≡ true → can p ≡ true)
    → allows may o ≡ true
    → allows can o ≡ true
allows_mono may can none f h = cc
allows_mono may can (some p) f h = f p h

is_admin-task :
    (p : Principal) (sid user : String) (db : BindingDb)
    → is_admin p ≡ true
    → can_access_task p sid user db ≡ true
unfolding can_access_task
is_admin-task admin sid user db h = refl
is_admin-task (person id) sid user db h = cc

reaches_mono :
    (may can : Principal → Bool) (n : ℕ) (sockets : List UiSocket)
    → ((p : Principal) → may p ≡ true → can p ≡ true)
    → any (λ s. s == n) (for_each_socket may sockets) ≡ true
    → any (λ s. s == n) (for_each_socket can sockets) ≡ true
unfolding for_each_socket
reaches_mono may can n [] f h = cc
reaches_mono may can n (s ∷ rest) f h =
    ground (arith, reaches_mono may can n rest f, allows_mono may can s.principal f)

contains_self : (xs : List ℕ) → All (λ n. contains n xs ≡ true) xs
contains_self [] = tt
contains_self (x ∷ xs) = (
  ground (arith, eq_refl x),
  All-weaken (λ n. contains n xs ≡ true) (λ n. contains n (x ∷ xs) ≡ true) xs
      (λ n h. ground (arith, h)) (contains_self xs),
)

-- Every socket that is told of alerts is told of every task's change, and every socket that is
-- told of a task's change is told of its server's metrics.
pub broadcasts_nest :
    (db : BindingDb) (sockets : List UiSocket) (sid user : String)
    → All (λ n. contains n (task_event db sockets sid user) ≡ true) (alert_state_change db sockets)
      × All
          (λ n. contains n (metrics_update db sockets sid) ≡ true)
          (task_event db sockets sid user)
broadcasts_nest db sockets sid user = (
  All-weaken _ _ (alert_state_change db sockets)
      (λ n.
        reaches_mono is_admin (λ p. can_access_task p sid user db) n sockets
          (λ p h. is_admin-task p sid user db h))
      (contains_self (alert_state_change db sockets)),
  All-weaken _ _ (task_event db sockets sid user)
      (λ n.
        reaches_mono (λ p. can_access_task p sid user db) (λ p. can_access_server p sid db) n
          sockets (λ p h. can_access_task-server p sid user db h))
      (contains_self (task_event db sockets sid user)),
)
