-- ===== src/Persons/Examples.antt =====
-- The rotation of a token at a concrete table.
use Prim.Native.String
use pmeow.Prelude.{
  is_some, sort, true, some, List, ℕ, String, false, [], ◌∷◌, none, ◌≡◌, ◌≢◌, arith, eq_iff, refl,
  string_eq, nat_eq, ◌==◌,
}
use pmeow.Persons.Bindings.{
  PersonBindingRecord, BindingDb, BindingInput, manual, create_binding, get_active_binding,
}
use pmeow.Persons.Records.{PersonRecord, new_person, get_person_by_id}
use pmeow.Persons.Throwing.{create_binding-is_some}
use pmeow.Persons.Tokens.{
  PersonTokenRecord, TokenDb, active, rotate_person_token, get_person_token_by_id,
}
use pmeow.Persons.Rotation.{verified, rotate_person_token-verified}

-- A hash for runs.
abbrev marked_text : String → String
marked_text s = String.◌++◌ "h" s

differ : (a b : String) → (a == b) ≡ false → a ≢ b
differ a b h e = ground (arith, eq_iff a b)

abbrev token : ℕ → String → String → PersonTokenRecord
token id person hash = record {
  id = id;
  person_id = person;
  token_hash = hash;
  status = active;
  note = none;
  created_at = 1;
  last_used_at = none;
}

abbrev two_tokens : TokenDb
two_tokens = record { tokens = token 1 "ann" "hx" ∷ token 2 "bob" "hy" ∷ []; next_id = 3 }

rotate_person_token-verified_example :
    verified marked_text 9 "x" (rotate_person_token marked_text 8 "z" 1 none two_tokens).0 ≡ none
unfolding get_person_token_by_id
rotate_person_token-verified_example =
    rotate_person_token-verified marked_text 8 9 "z" "x" 1 none two_tokens (token 1 "ann" "hx")
      (record {
        ids = (((λ e. cc), tt), (tt, tt));
        hashes = ((differ "hx" "hy" refl, tt), (tt, tt));
      })
      refl (differ "hx" "hz" refl, (differ "hy" "hz" refl, tt))

abbrev lapsed : PersonBindingRecord
lapsed = record {
  id = 1;
  person_id = "ann";
  server_id = "s";
  system_user = "root";
  source = manual;
  enabled = true;
  effective_from = none;
  effective_to = some 50;
  created_at = 1;
  updated_at = 1;
}

abbrev one_lapsed : BindingDb
one_lapsed = record { bindings = lapsed ∷ []; next_id = 2 }

abbrev bind_again : BindingInput
bind_again = record {
  person_id = "ann";
  server_id = "s";
  system_user = "root";
  source = manual;
  enabled = none;
  effective_from = none;
  effective_to = none;
}

abbrev only_ann : List PersonRecord
only_ann =
    new_person 1 "ann"
      (record { display_name = "Ann"; email = none; qq = none; note = none; custom_fields = none })
    ∷ []

-- The binding of "ann" is over at 50, and at 60 it cannot be made again.
create_binding-is_some_example : is_some (create_binding 60 only_ann bind_again one_lapsed) ≡ false
unfolding get_active_binding get_person_by_id sort
create_binding-is_some_example =
    create_binding-is_some 60 bind_again only_ann one_lapsed
      (record { ids = (tt, tt); exclusive = ((λ e. refl), tt); owned = (refl, tt) })

-- A person who is not there cannot be bound.
unknown_person :
    create_binding 60 only_ann
      (record bind_again { person_id = "eve"; system_user = "eve" })
      one_lapsed
    ≡ none
unfolding create_binding
unknown_person = refl
