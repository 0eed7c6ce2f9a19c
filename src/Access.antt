-- ===== src/Access.antt =====
-- Who may call what: `JWTAuth` (internal/middleware/auth.go), `RequireActiveUser`
-- (internal/middleware/active_user.go) and the route guard (internal/middleware/routes.go), in the
-- order in which cmd/server/main.go puts them before every route of the table.
pub mod Routes
pub mod Guarded
pub mod Table
use vaultflix.Base.{
  ℕ, Str, codes, eq_str, has_prefix, is_empty, Bool, true, false, not, ◌||◌, ◌&&◌, if◌then◌else◌,
  Option, none, some, List, [], ◌∷◌, suc, zero,
}
use vaultflix.Errors.{Result, ok, err}

-- What the claims of a token hold of the keys that are read; a claim that is missing or that is
-- not a string reads as "" (`c.GetString`).
pub record Claims : Type 0 where
  pub scope : Str
  pub video_id : Str
  pub user_id : Str
  pub username : Str
  pub role : Str

-- `model.User`, as far as access reads it.
pub record User : Type 0 where
  pub id : Str
  pub role : Str
  pub disabled : Bool

-- `middleware.Route`; the handler is its name.
pub record Route : Type 0 where
  pub method : Str
  pub path : Str
  pub handler : Str
  pub viewer : Bool
  pub stream_token : Bool

-- What the middleware reads of a request: the header, the query, and the route's `:id`.
pub record Request : Type 0 where
  pub authorization : Str
  pub query_token : Str
  pub param_id : Str

-- The context after `JWTAuth`: the keys that it sets.
pub record Caller : Type 0 where
  pub scope : Str
  pub video_id : Str
  pub user_id : Str
  pub role : Str

-- `c.Next()`, or `AbortWithStatusJSON` with the status.
pub data Verdict {ℓ} (A : Type ℓ) : Type ℓ where
  next : A → Verdict A
  abort : ℕ → Verdict A

infixl 5 ◌>>=◌
abbrev pub ◌>>=◌ {ℓ κ} : {A : Type ℓ} {B : Type κ} → Verdict A → (A → Verdict B) → Verdict B
next a >>= f = f a
abort status >>= f = abort status

drop : ℕ → Str → Str
drop zero s = s
drop (suc n) [] = []
drop (suc n) (c ∷ s) = drop n s

-- The `Authorization` header first, the query parameter as the fallback.
unfoldable pub token_of : Request → Str
unfolding has_prefix is_empty drop
token_of r =
    let bearer =
      if has_prefix (codes "Bearer ") r.authorization then drop 7 r.authorization else [] in
    if is_empty bearer then r.query_token else bearer

-- `parse` is `jwt.Parse` with the key function of the source: the claims of a token that is valid
-- and signed by HMAC with the server's secret.
unfoldable pub jwt_auth : (Str → Option Claims) → Request → Verdict Caller
unfolding token_of is_empty
jwt_auth parse r = if is_empty (token_of r) then abort 401 else elim (parse (token_of r)) [
  | none ↦ abort 401
  | some c ↦
      next (record { scope = c.scope; video_id = c.video_id; user_id = c.user_id; role = c.role })
]

-- `get_by_id` is the lookup of the user repository; `ok none` is a nil user.
unfoldable pub require_active_user : (Str → Result (Option User)) → Caller → Verdict Caller
unfolding is_empty
require_active_user get_by_id c =
    if is_empty c.user_id then abort 401 else elim (get_by_id c.user_id) [
      | err _ ↦ abort 401
      | ok none ↦ abort 401
      | ok (some u) ↦ if u.disabled then abort 401 else next c
    ]

abbrev pub stream_scope : Str
stream_scope = codes "stream"

abbrev pub role_admin : Str
role_admin = codes "admin"

abbrev pub role_viewer : Str
role_viewer = codes "viewer"

unfoldable pub guard : Route → Str → Caller → Verdict Caller
unfolding is_empty eq_str
guard r param_id c =
    if eq_str c.scope stream_scope
      && (not r.stream_token || is_empty c.video_id || not (eq_str c.video_id param_id))
    then abort 403
    else if eq_str c.role role_admin
    then next c
    else if eq_str c.role role_viewer
    then (if r.viewer then next c else abort 403)
    else abort 403

-- The middleware of `/api`, in order.
unfoldable pub serve :
    (Str → Option Claims) → (Str → Result (Option User)) → Route → Request → Verdict Caller
unfolding jwt_auth require_active_user guard
serve parse get_by_id route r = do
  c ← jwt_auth parse r
  c' ← require_active_user get_by_id c
  guard route r.param_id c'
