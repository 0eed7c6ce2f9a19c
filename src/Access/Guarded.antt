-- ===== src/Access/Guarded.antt =====
-- Who gets past the middleware.
use vaultflix.Base.{
  Str, eq_str_iff, is_empty_iff, true, false, Option, some, [], ◌≡◌, ◌≢◌, ◌⊎◌, ◌↔◌, inl, inr, arith,
  refl, Option-cases, sym,
}
use mathlib.Core.Path.{subst}
use vaultflix.Errors.{Result, ok}
use vaultflix.Access.{
  Claims, User, Route, Request, Caller, Verdict, next, abort, token_of, jwt_auth,
  require_active_user, guard, serve, ◌>>=◌, stream_scope, role_admin, role_viewer,
}

-- The two rules of the guard, stated without its tests.
pub record Allows (r : Route) (param_id : Str) (c : Caller) : Type 0 where
  pub by_token :
      c.scope ≡ stream_scope → (r.stream_token ≡ true) × (c.video_id ≢ []) × (c.video_id ≡ param_id)
  pub by_role : (c.role ≡ role_admin) ⊎ (c.role ≡ role_viewer) × (r.viewer ≡ true)

guard_sound :
    (r : Route) (p : Str) (c : Caller) {c' : Caller} → guard r p c ≡ next c' → Allows r p c
unfolding guard
guard_sound r p c h = record {
  by_token = λ e.
      ground
        (arith, eq_str_iff c.scope stream_scope, is_empty_iff c.video_id, eq_str_iff c.video_id p);
  by_role = ground (arith, eq_str_iff c.role role_admin, eq_str_iff c.role role_viewer);
}

guard_same : (r : Route) (p : Str) (c : Caller) {c' : Caller} → guard r p c ≡ next c' → c' ≡ c
unfolding guard
guard_same r p c h = ground arith

>>=-eq-next {ℓ κ} :
    {A : Type ℓ} {B : Type κ} (m : Verdict A) (f : A → Verdict B) {b : B}
    → (m >>= f) ≡ next b
    → (a : A) × (m ≡ next a) × (f a ≡ next b)
>>=-eq-next (next a) f h = (a, refl, h)
>>=-eq-next (abort n) f h = cc

guard_complete : (r : Route) (p : Str) (c : Caller) → Allows r p c → guard r p c ≡ next c
unfolding guard
guard_complete r p c a = ground (
  arith,
  eq_str_iff c.scope stream_scope,
  is_empty_iff c.video_id,
  eq_str_iff c.video_id p,
  eq_str_iff c.role role_admin,
  eq_str_iff c.role role_viewer,
  a.by_token,
)

-- The guard lets a caller through, unchanged, exactly when both rules allow it: a Stream Token
-- only on a stream route and only for the Video that it names, which is the route's `:id`; an
-- admin on every route, a viewer on the viewer routes, and no other role.
pub guard_iff : (r : Route) (p : Str) (c : Caller) → (guard r p c ≡ next c) ↔ Allows r p c
guard_iff r p c = (guard_sound r p c, guard_complete r p c)

module _ (parse : Str → Option Claims) (get_by_id : Str → Result (Option User)) where
  -- What a request that reaches its handler has shown.
  pub record Admitted (route : Route) (r : Request) (c : Caller) : Type 0 where
    pub claims : Claims
    pub token_valid : parse (token_of r) ≡ some claims
    pub subject : c.user_id ≡ claims.user_id
    pub scope : c.scope ≡ claims.scope
    pub video : c.video_id ≡ claims.video_id
    pub role : c.role ≡ claims.role
    pub user : User
    pub user_found : get_by_id c.user_id ≡ ok (some user)
    pub user_active : user.disabled ≡ false
    pub allowed : Allows route r.param_id c

  jwt_auth_sound :
      (r : Request) {c : Caller}
      → jwt_auth parse r ≡ next c
      → (k : Claims) × (parse (token_of r) ≡ some k)
        × (c
            ≡ record { scope = k.scope; video_id = k.video_id; user_id = k.user_id; role = k.role })
  unfolding jwt_auth
  jwt_auth_sound r h = elim (Option-cases (parse (token_of r))) [
    | inl e ↦ absurd (ground arith)
    | inr (k, e) ↦ (k, e, ground arith)
  ]

  require_active_user_sound :
      (c : Caller) {c' : Caller}
      → require_active_user get_by_id c ≡ next c'
      → (u : User) × (get_by_id c.user_id ≡ ok (some u)) × (u.disabled ≡ false) × (c' ≡ c)
  unfolding require_active_user
  require_active_user_sound c h = ground arith

  -- A request reaches the handler of a route only with a token that the server signed, for a user
  -- who still exists and is not disabled, and within the two rules of the guard.
  pub serve-Admitted :
      (route : Route) (r : Request) (c : Caller)
      → serve parse get_by_id route r ≡ next c
      → Admitted route r c
  unfolding serve
  serve-Admitted route r c h =
      let (c₁, h₁, rest) = >>=-eq-next (jwt_auth parse r) _ h in
      let (c₂, h₂, h₃) = >>=-eq-next (require_active_user get_by_id c₁) _ rest in
      let (k, valid, e₁) = jwt_auth_sound r h₁ in
      let (u, found, active, e₂) = require_active_user_sound c₁ h₂ in
      let e₃ = guard_same route r.param_id c₂ h₃ in
      record {
        claims = k;
        token_valid = valid;
        subject = cc;
        scope = cc;
        video = cc;
        role = cc;
        user = u;
        user_found = cc;
        user_active = active;
        allowed = subst (Allows route r.param_id) (sym e₃) (guard_sound route r.param_id c₂ h₃);
      }
