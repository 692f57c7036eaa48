-- ===== src/Persons/Resolve.antt =====
-- Who stands behind an account: `resolveRawUserPerson` of server/core/src/person/resolve.ts, and
-- `listBindingCandidates` of server/core/src/db/person-bindings.ts. A query runs at one `now`.
use mathlib.Core.Option
use pmeow.Prelude.{
  ℕ, String, Bool, true, not, ◌&&◌, List, [], ◌∷◌, ◌++◌, map, Option, none, some, ◌==◌, nat_eq,
  string_eq, if◌then◌else◌, ltb, any, select,
}
use pmeow.Persons.Records.{PersonRecord, get_person_by_id}
use pmeow.Persons.Bindings.{PersonBindingRecord, BindingDb, get_active_binding}
use pmeow.Servers.{ServerRecord, get_server_by_id}
use pmeow.Snapshots.Store.{SnapshotRow}

pub record ResolvedPersonSummary : Type 0 where
  pub id : String
  pub display_name : String
  pub email : Option String
  pub qq : Option String

pub data PersonResolutionSource : Type 0 where
  binding unassigned unknown : PersonResolutionSource

abbrev pub summary_of : PersonRecord → ResolvedPersonSummary
summary_of p = record { id = p.id; display_name = p.display_name; email = p.email; qq = p.qq }

-- `!rawUser`
abbrev pub is_missing : Option String → Bool
is_missing none = true
is_missing (some u) = u == ""

abbrev pub person_of : List PersonRecord → PersonBindingRecord → Option ResolvedPersonSummary
person_of persons b = Option.map summary_of (get_person_by_id b.person_id persons)

abbrev pub by_person :
    Option ResolvedPersonSummary → Option ResolvedPersonSummary × PersonResolutionSource
by_person none = (none, unassigned)
by_person (some p) = (some p, binding)

abbrev pub by_binding :
    List PersonRecord
    → Option PersonBindingRecord
    → Option ResolvedPersonSummary × PersonResolutionSource
by_binding persons none = (none, unassigned)
by_binding persons (some b) = by_person (person_of persons b)

unfoldable pub resolve_raw_user_person :
    ℕ
    → String
    → Option String
    → List PersonRecord
    → BindingDb
    → Option ResolvedPersonSummary × PersonResolutionSource
unfolding get_active_binding
resolve_raw_user_person now sid none persons db = (none, unknown)
resolve_raw_user_person now sid (some user) persons db =
    if user == "" then (none, unknown) else by_binding persons (get_active_binding now sid user db)

pub record PersonBindingCandidate : Type 0 where
  pub server_id : String
  pub server_name : String
  pub system_user : String
  pub active_binding : Option PersonBindingRecord
  pub active_person : Option ResolvedPersonSummary

-- An account that the latest snapshot of a server lists.
pub record Account : Type 0 where
  pub server_id : String
  pub server_name : String
  pub system_user : String

abbrev pub same_account : Account → Account → Bool
same_account a b =
    a.server_id == b.server_id && (a.server_name == b.server_name && a.system_user == b.system_user)

-- SELECT DISTINCT
abbrev pub distinct_accounts : List Account → List Account
distinct_accounts [] = []
distinct_accounts (a ∷ rest) = a ∷ select (λ b. not (same_account a b)) (distinct_accounts rest)

abbrev pub account_of : ServerRecord → String → Account
account_of s user = record { server_id = s.id; server_name = s.name; system_user = user }

abbrev pub accounts_on : Option ServerRecord → List String → List Account
accounts_on none users = []
accounts_on (some s) users = map (account_of s) users

-- `local_users` reads the column of that name, a list of texts.
module _ {R : Type 0} (local_users : R → List String) where
  -- Whether the row has the greatest id of its server.
  abbrev pub is_latest : List (SnapshotRow R) → SnapshotRow R → Bool
  is_latest rows r = not (any (λ q. q.server_id == r.server_id && ltb r.id q.id) rows)

  abbrev pub accounts_in : List ServerRecord → List (SnapshotRow R) → List Account
  accounts_in servers [] = []
  accounts_in servers (r ∷ rest) =
      accounts_on (get_server_by_id r.server_id servers) (local_users r.resources)
      ++ accounts_in servers rest

  abbrev pub candidate : ℕ → List PersonRecord → BindingDb → Account → PersonBindingCandidate
  candidate now persons db a =
      let active = get_active_binding now a.server_id a.system_user db in
      record {
        server_id = a.server_id;
        server_name = a.server_name;
        system_user = a.system_user;
        active_binding = active;
        active_person = Option.bind active (person_of persons);
      }

  unfoldable pub list_binding_candidates :
      ℕ
      → List ServerRecord
      → List (SnapshotRow R)
      → List PersonRecord
      → BindingDb
      → List PersonBindingCandidate
  unfolding get_active_binding get_server_by_id
  list_binding_candidates now servers rows persons db =
      map (candidate now persons db)
        (distinct_accounts (accounts_in servers (select (is_latest rows) rows)))
