-- ===== src/Accounts/Entry.antt =====
-- Who gets a token, and what it opens.
use vaultflix.Base.{
  ℕ, Str, eq_str, eq_str_iff, true, Bool-cases, Option-cases, Option, none, some, [], ◌≡◌, ◌≢◌, ◌⊎◌,
  inl, inr, arith, refl, ap, sym, ◌∙◌,
}
use vaultflix.Errors.{Sentinel, Error, Result, ok, Result-cases}
use vaultflix.Access.{Claims, User, Route, Request, Caller, next, token_of, role_admin, serve}
use vaultflix.Access.Guarded.{serve-Admitted}
use vaultflix.Accounts.{
  Account, Users, session_claims, Secrets, sign_in, login, disable, stream_claims,
  generate_stream_token,
}

sign_in_sound :
    (secrets : Secrets) (password token : Str) (user : Account)
    → sign_in secrets password user ≡ ok token
    → (secrets.compare_hash_and_password user.password_hash password ≡ none)
      × (secrets.sign (session_claims user) ≡ ok token)
unfolding sign_in
sign_in_sound secrets password token user h =
    elim (Option-cases (secrets.compare_hash_and_password user.password_hash password)) [
      | inl e ↦ elim (Result-cases (secrets.sign (session_claims user))) [
        | inl (f, q) ↦ ground arith
        | inr (t, q) ↦ ground arith
      ]
      | inr (f, e) ↦ ground arith
    ]

module _ {D : Type 0} (users : Users D) where
  -- A login that succeeds is of a user that exists, is not disabled and has that password, and its
  -- token is that user's.
  login_sound :
      (secrets : Secrets) (username password token : Str) (d : D)
      → login users secrets username password d ≡ ok token
      → (user : Account) × (users.get_by_username username d ≡ ok user)
        × (user.disabled_at ≡ none)
        × (secrets.compare_hash_and_password user.password_hash password ≡ none)
        × (secrets.sign (session_claims user) ≡ ok token)
  unfolding login
  login_sound secrets username password token d h =
      elim (Result-cases (users.get_by_username username d)) [
        | inl (e, q) ↦ ground arith
        | inr (user, q) ↦ elim (Option-cases user.disabled_at) [
          | inl p ↦
              let (k, s) = sign_in_sound secrets password token user (ground arith) in
              (user, q, p, k, s)
          | inr (t, p) ↦ ground arith
        ]
      ]

  -- Disabling never reaches an admin: either nothing changes and an error is returned, or the user
  -- of that id exists and is not an admin.
  pub disable-admin :
      (id : Str) (d : D)
      → let out = disable users id d in
        ((out.0 ≡ d) × ((e : Error) × (out.1 ≡ some e)))
        ⊎ ((user : Account) × (users.get_by_id id d ≡ ok user) × (user.role ≢ role_admin))
  unfolding disable
  disable-admin id d = elim (Result-cases (users.get_by_id id d)) [
    | inl (e, q) ↦ inl (rw (disable, q) refl, (Error.wrap e, rw (disable, q) refl))
    | inr (user, q) ↦ elim (Bool-cases (eq_str user.role role_admin)) [
      | inl p ↦ inl (
        rw (disable, q, p) refl,
        (Error.sentinel Sentinel.cannot_disable_admin, rw (disable, q, p) refl),
      )
      | inr p ↦ inr (user, q, λ e. ground (arith, (eq_str_iff user.role role_admin).1 e))
    ]
  ]

-- A Stream Token that was issued for a Video opens nothing but that Video, on a route for streams:
-- whenever a request that carries it is let through. `parse` reads the claims that were signed.
pub stream_token_opens :
    (secrets : Secrets) (parse : Str → Option Claims) (get_by_id : Str → Result (Option User))
    (mins : ℕ) (user_id username role video_id token : Str) (seconds : ℕ) (route : Route)
    (r : Request) (c : Caller)
    → ((claims : Claims) (t : Str) → secrets.sign claims ≡ ok t → parse t ≡ some claims)
    → generate_stream_token secrets mins user_id username role video_id ≡ ok (token, seconds)
    → token_of r ≡ token
    → serve parse get_by_id route r ≡ next c
    → (route.stream_token ≡ true) × (r.param_id ≡ video_id)
unfolding generate_stream_token
stream_token_opens secrets parse get_by_id mins user_id username role video_id token seconds route r
      c law g t h =
    elim (Result-cases (secrets.sign (stream_claims user_id username role video_id))) [
      | inl (e, q) ↦ ground arith
      | inr (t', q) ↦
          let a = serve-Admitted parse get_by_id route r c h in
          let same : some (stream_claims user_id username role video_id) ≡ some a.claims =
            sym (law _ t' q) ∙ ap parse (ground arith) ∙ a.token_valid in
          let (p, _, m) = a.allowed.by_token (a.scope ∙ ground arith) in
          (p, sym m ∙ a.video ∙ ground arith)
    ]

-- A login that succeeds is of a user that exists, is not disabled and has that password, and
-- whenever a request that carries its token is let through, the caller has the id and the role of
-- that user, and neither a scope nor a Video. `parse` reads the claims that were signed.
pub login_opens :
    {D : Type 0} (users : Users D) (secrets : Secrets) (parse : Str → Option Claims)
    (get_by_id : Str → Result (Option User)) (username password token : Str) (d : D) (route : Route)
    (r : Request) (c : Caller)
    → ((claims : Claims) (t : Str) → secrets.sign claims ≡ ok t → parse t ≡ some claims)
    → login users secrets username password d ≡ ok token
    → token_of r ≡ token
    → serve parse get_by_id route r ≡ next c
    → (user : Account) × (users.get_by_username username d ≡ ok user)
      × (user.disabled_at ≡ none)
      × (secrets.compare_hash_and_password user.password_hash password ≡ none)
      × (c.user_id ≡ user.id)
      × (c.role ≡ user.role)
      × (c.scope ≡ [])
      × (c.video_id ≡ [])
login_opens users secrets parse get_by_id username password token d route r c law g t h =
    let (user, found, active, known, signed) =
      login_sound users secrets username password token d g in
    let a = serve-Admitted parse get_by_id route r c h in
    let same : some (session_claims user) ≡ some a.claims =
      sym (law _ token signed) ∙ ap parse (sym t) ∙ a.token_valid in
    (
      user,
      found,
      active,
      known,
      a.subject ∙ ground arith,
      a.role ∙ ground arith,
      a.scope ∙ ground arith,
      a.video ∙ ground arith,
    )
