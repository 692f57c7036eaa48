-- ===== src/Auth/Accepted.antt =====
-- What a login gives is accepted afterwards: server/runtime/src/auth.ts.
use Prim.Native.String
use pmeow.Prelude.{
  ℕ, String, true, false, not, some, ◌==◌, string_eq, nat_eq, eq_iff, if◌then◌else◌, ◌≡◌, ◌≢◌, refl,
  sym, ap, ◌∙◌, arith, inl, inr, Bool-cases, Option-cases, find, update_where,
}
use pmeow.Protocol.Json.{Json, get, read}
use pmeow.Persons.Records.{PersonRecord}
use pmeow.Persons.Tokens.{PersonTokenRecord, accepts, use_at, verify_person_token}
use pmeow.Persons.Bindings.{admin, person}
use pmeow.Settings.Store.{get_settings}
use pmeow.Auth.Login.{
  AuthPlatform, AuthDb, SessionResponse, accepted, StoredPassword, unset, unusable, hashed,
  with_tokens, active_person, text_in, stored_password, log_in_with_token, log_in_with_password,
  log_in, build_session_response,
}
use pmeow.Auth.Middleware.{
  next, after_prefix-append, try_person_token, auth_middleware, socket_auth_middleware, or_rejected,
}
use pmeow.Auth.Verified.{
  used, used_person, verify_person_token-find, find_of_verified, verified_again,
}

abbrev pub bearer : String → String
bearer token = String.◌++◌ "Bearer " token

accepted_inj :
    (t u : String) (r s : SessionResponse) → accepted t r ≡ accepted u s → (t ≡ u) × (r ≡ s)
accepted_inj t u r s e = (cc e, cc e)

module _ {V : Type 0} (js : AuthPlatform V) where
  -- The state after a token's use has been written.
  abbrev after_use : ℕ → PersonTokenRecord → AuthDb V → AuthDb V
  after_use now row db = with_tokens db (record (db.tokens) {
    tokens = update_where (λ r. r.id == row.id) (use_at now) db.tokens.tokens;
  })

  try_person_token-found :
      (now : ℕ) (token : String) (db : AuthDb V) (row : PersonTokenRecord) (p : PersonRecord)
      → (verify_person_token js.hash_token now token db.tokens).1 ≡ some row
      → active_person row.person_id db.persons ≡ some p
      → (try_person_token js now token db).1 ≡ some (person p.id)
  unfolding try_person_token
  try_person_token-found now token db row p e a =
      rw (e, try_person_token) (rw (a, try_person_token) refl)

  try_person_token-again :
      (now later : ℕ) (token : String) (db : AuthDb V) (row : PersonTokenRecord) (p : PersonRecord)
      → find (accepts (js.hash_token token)) db.tokens.tokens ≡ some row
      → active_person row.person_id db.persons ≡ some p
      → (try_person_token js later token (after_use now row db)).1 ≡ some (person p.id)
  try_person_token-again now later token db row p e a =
      try_person_token-found later token (after_use now row db) (used now row.id row) p
        (verified_again js.hash_token now later token db.tokens row e)
        (rw (used_person now row.id row) a)

  -- What an accepted access token shows.
  abbrev FromToken : ℕ → String → AuthDb V → AuthDb V → String → SessionResponse → Type 0
  FromToken now token db after t s =
      (row : PersonTokenRecord) × (p : PersonRecord) × (find (accepts (js.hash_token token))
          db.tokens.tokens
        ≡ some row)
      × (active_person row.person_id db.persons ≡ some p)
      × (t ≡ token)
      × (s.principal ≡ person p.id)
      × (after ≡ after_use now row db)

  log_in_with_token-accepted :
      (now : ℕ) (token t : String) (s : SessionResponse) (db : AuthDb V)
      → (log_in_with_token js now token db).1 ≡ accepted t s
      → FromToken now token db (log_in_with_token js now token db).0 t s
  unfolding log_in_with_token build_session_response
  log_in_with_token-accepted now token t s db h =
      elim (Option-cases (verify_person_token js.hash_token now token db.tokens).1) [
        | inl e ↦ absurd (cc (rw (e, log_in_with_token) at h))
        | inr (row, e) ↦
            let found = find_of_verified js.hash_token now token db.tokens row e in
            let verified = verify_person_token-find js.hash_token now token db.tokens row found in
            elim (Option-cases (active_person row.person_id db.persons)) [
              | inl a ↦ absurd (cc (rw (verified, a, log_in_with_token) at h))
              | inr (p, a) ↦
                  let same = accepted_inj token t _ s (rw (verified, a, log_in_with_token) at h) in
                  (
                    row,
                    p,
                    found,
                    a,
                    sym same.0,
                    sym (ap (λ r. r.principal) same.1),
                    rw (e, a, log_in_with_token) (ap (λ v. with_tokens db v.0) verified),
                  )
            ]
      ]

  -- The administrator's token, or a person's.
  data Given (now : ℕ) (db after : AuthDb V) (t : String) (s : SessionResponse) : Type 0 where
    of_admin : t ≡ js.sign_token now → s.principal ≡ admin → Given now db after t s
    of_token : (token : String) → FromToken now token db after t s → Given now db after t s

  log_in_with_password-accepted :
      (now : ℕ) (password t : String) (s : SessionResponse) (db : AuthDb V)
      → (log_in_with_password js now password db).1 ≡ accepted t s
      → (t ≡ js.sign_token now) × (s.principal ≡ admin)
  unfolding log_in_with_password build_session_response
  log_in_with_password-accepted now password t s db h =
      go (stored_password js (read "password" (get_settings js.of db.settings))) refl
    where
      go :
          (o : StoredPassword)
          → stored_password js (read "password" (get_settings js.of db.settings)) ≡ o
          → (t ≡ js.sign_token now) × (s.principal ≡ admin)
      go unset e =
          let same = accepted_inj _ t _ s (rw (e, log_in_with_password) at h) in
          (sym same.0, sym (ap (λ r. r.principal) same.1))
      go unusable e = absurd (cc (rw (e, log_in_with_password) at h))
      go (hashed x) e = elim (Bool-cases (js.verify_password password x)) [
        | inl v ↦
            let same = accepted_inj _ t _ s (rw (e, v, log_in_with_password) at h) in
            (sym same.0, sym (ap (λ r. r.principal) same.1))
        | inr v ↦ absurd (cc (rw (e, v, log_in_with_password) at h))
      ]

  log_in-accepted :
      (now : ℕ) (body : Json V) (t : String) (s : SessionResponse) (db : AuthDb V)
      → (log_in js now body db).1 ≡ accepted t s
      → Given now db (log_in js now body db).0 t s
  unfolding log_in
  log_in-accepted now body t s db h =
      elim (Option-cases (text_in (λ x. not (js.trim x == "")) (get "token" body))) [
        | inr (token, e) ↦
            rw (e, log_in)
              (of_token token (log_in_with_token-accepted now token t s db (rw (e, log_in) at h)))
        | inl e ↦ elim (Option-cases (text_in (λ x. not (x == "")) (get "password" body))) [
          | inl n ↦ absurd (cc (rw (e, n, log_in) at h))
          | inr (password, n) ↦
              let given =
                log_in_with_password-accepted now password t s db (rw (e, n, log_in) at h) in
              of_admin given.0 given.1
        ]
      ]

  auth_middleware-bearer :
      (now : ℕ) (token : String) (db : AuthDb V)
      → (auth_middleware js now (some (bearer token)) db).1 ≡ (
          if js.verify_token now token
          then next admin
          else or_rejected js (try_person_token js now token db).1)
  unfolding auth_middleware
  auth_middleware-bearer now token db =
      rw (after_prefix-append "Bearer " token, auth_middleware)
        (elim (Bool-cases (js.verify_token now token)) [ inl v ↦ rw v refl | inr v ↦ rw v refl ])

  -- A token that a login answers with is accepted by the next request and gives it the principal
  -- of the login, where the administrator's signed token is still valid then and a person's token
  -- is not a valid signed token.
  pub log_in-auth_middleware :
      (now later : ℕ) (body : Json V) (token : String) (s : SessionResponse) (db : AuthDb V)
      → js.verify_token later (js.sign_token now) ≡ true
      → ((id : String) → s.principal ≡ person id → js.verify_token later token ≡ false)
      → (log_in js now body db).1 ≡ accepted token s
      → (auth_middleware js later (some (bearer token)) (log_in js now body db).0).1
        ≡ next s.principal
  log_in-auth_middleware now later body token s db signed plain h =
      auth_middleware-bearer later token (log_in js now body db).0
      ∙ go (log_in-accepted now body token s db h)
    where
      go :
          Given now db (log_in js now body db).0 token s
          → (if js.verify_token later token
              then next admin
              else or_rejected js (try_person_token js later token (log_in js now body db).0).1)
            ≡ next s.principal
      go (of_admin t a) = rw (t, signed, a) refl
      go (of_token u (row, p, found, alive, t, a, after)) =
          rw (plain p.id a, after, a, t)
            (ap (or_rejected js) (try_person_token-again now later u db row p found alive))

  -- A token that is not empty gives a request with it as its bearer and a socket with it in its
  -- handshake the same principal, or neither any.
  pub socket_auth_middleware-auth_middleware :
      (now : ℕ) (token : String) (db : AuthDb V)
      → token ≢ ""
      → (auth_middleware js now (some (bearer token)) db).1
        ≡ or_rejected js (socket_auth_middleware js now (some token) db).1
  unfolding socket_auth_middleware
  socket_auth_middleware-auth_middleware now token db h =
      auth_middleware-bearer now token db ∙ (elim (Bool-cases (js.verify_token now token)) [
        | inl v ↦ rw v (ground (arith, v, h, eq_iff token ""))
        | inr v ↦ rw v (ground (arith, v, h, eq_iff token ""))
      ])
