-- ===== src/Auth/Middleware.antt =====
-- `authMiddleware`, `adminOnly` and `socketAuthMiddleware`: server/runtime/src/auth.ts.
use Prim.Native.String
use Prim.Native.Char.{code}
use text.Mathlib.TextLemmas.{nil-append, cons-append}
use pmeow.Prelude.{
  ℕ, String, Option, none, some, ◌==◌, string_eq, nat_eq, eq_refl, if◌then◌else◌, ◌≡◌, refl, arith,
}
use pmeow.Persons.Tokens.{verify_person_token}
use pmeow.Persons.Bindings.{Principal, admin, person}
use pmeow.Auth.Login.{AuthPlatform, AuthDb, with_tokens, active_person}

-- What follows the prefix, where the text starts with it: `startsWith` and `slice`.
unfoldable pub after_prefix : String → String → Option String
after_prefix String.[] s = some s
after_prefix (String.◌∷◌ c p) String.[] = none
after_prefix (String.◌∷◌ c p) (String.◌∷◌ d s) = if code c == code d then after_prefix p s else none

pub after_prefix-append : (p s : String) → after_prefix p (String.◌++◌ p s) ≡ some s
unfolding after_prefix
after_prefix-append String.[] s = rw nil-append refl
after_prefix-append (String.◌∷◌ c p) s =
    rw cons-append (ground (arith, eq_refl (code c), after_prefix-append p s))

-- What a middleware makes of a request: an error of this HTTP status, or the next handler with this
-- principal.
pub data Checked : Type 0 where
  rejected : ℕ → Checked
  next : Principal → Checked

module _ {V : Type 0} (js : AuthPlatform V) where
  -- The block on the person's token, which both middlewares have.
  unfoldable pub try_person_token : ℕ → String → AuthDb V → AuthDb V × Option Principal
  unfolding verify_person_token
  try_person_token now token db =
      let checked = verify_person_token js.hash_token now token db.tokens in
      let after = with_tokens db checked.0 in
      elim checked.1 [
        | none ↦ (after, none)
        | some row ↦ elim (active_person row.person_id after.persons) [
          | none ↦ (after, none)
          | some p ↦ (after, some (person p.id))
        ]
      ]

  abbrev pub or_rejected : Option Principal → Checked
  or_rejected none = rejected 401
  or_rejected (some p) = next p

  -- The argument is the header `authorization`.
  unfoldable pub auth_middleware : ℕ → Option String → AuthDb V → AuthDb V × Checked
  unfolding after_prefix try_person_token
  auth_middleware now none db = (db, rejected 401)
  auth_middleware now (some auth) db = elim (after_prefix "Bearer " auth) [
    | none ↦ (db, rejected 401)
    | some token ↦
        if js.verify_token now token
        then (db, next admin)
        else (let tried = try_person_token now token db in (tried.0, or_rejected tried.1))
  ]

  -- The argument is the token of the handshake. None is an error to `next`.
  unfoldable pub socket_auth_middleware : ℕ → Option String → AuthDb V → AuthDb V × Option Principal
  unfolding try_person_token
  socket_auth_middleware now none db = (db, none)
  socket_auth_middleware now (some token) db =
      if token == ""
      then (db, none)
      else if js.verify_token now token
      then (db, some admin)
      else try_person_token now token db

abbrev pub admin_only : Option Principal → Checked
admin_only (some admin) = next admin
admin_only _ = rejected 403
