-- ===== src/Examples/Access.antt =====
-- A Stream Token that is let through, and a login.
use vaultflix.Base.{
  ℕ, Str, codes, eq_str, eq_str_iff, has_prefix, is_empty, true, false, ◌&&◌, if◌then◌else◌, arith,
  Option, none, some, [], ◌≡◌, ◌⊎◌, refl,
}
use mathlib.Core.List.{Memᴰ}
use vaultflix.Errors.{Error, Result, ok, err}
use vaultflix.Access.{
  Claims, User, Route, Request, Caller, next, token_of, jwt_auth, require_active_user, guard, serve,
  stream_scope, role_viewer,
}
use vaultflix.Access.Routes.{route, viewer_and_stream_token, api_routes}
use vaultflix.Access.Guarded.{Admitted, serve-Admitted}
use vaultflix.Access.Table.{IsStreamPath, OwnData, stream_token_confined, viewer_reads_only}
use vaultflix.Accounts.{
  Account, Users, Secrets, session_claims, sign_in, login, stream_claims, generate_stream_token,
}
use vaultflix.Accounts.Entry.{login_opens, stream_token_opens}

abbrev claims : Claims
claims = stream_claims (codes "u1") (codes "ann") role_viewer (codes "v1")

abbrev parse : Str → Option Claims
parse t = some claims

abbrev get_by_id : Str → Result (Option User)
get_by_id _ = ok (some (record { id = codes "u1"; role = role_viewer; disabled = false }))

abbrev request : Request
request = record { authorization = []; query_token = codes "t"; param_id = codes "v1" }

abbrev caller : Caller
caller = record {
  scope = stream_scope;
  video_id = codes "v1";
  user_id = codes "u1";
  role = role_viewer;
}

abbrev stream : Route
stream = route "GET" "/videos/:id/stream" "video.Stream" viewer_and_stream_token

in_table : Memᴰ stream api_routes
in_table = Memᴰ.tail (
    Memᴰ.tail (
      Memᴰ.tail (
        Memᴰ.tail (
          Memᴰ.tail (
            Memᴰ.tail (
              Memᴰ.tail (
                Memᴰ.tail (
                  Memᴰ.tail (Memᴰ.tail (Memᴰ.tail (Memᴰ.tail (Memᴰ.tail (Memᴰ.head refl)))))))))))))

passes : serve parse get_by_id stream request ≡ next caller
unfolding serve jwt_auth require_active_user guard token_of is_empty eq_str has_prefix
passes = refl

serve-Admitted_example : Admitted parse get_by_id stream request caller
serve-Admitted_example = serve-Admitted parse get_by_id stream request caller passes

stream_token_confined_example : IsStreamPath stream.path × (caller.video_id ≡ request.param_id)
stream_token_confined_example =
    stream_token_confined parse get_by_id stream request caller in_table passes refl

viewer_reads_only_example : (stream.method ≡ codes "GET") ⊎ OwnData stream.path
viewer_reads_only_example =
    viewer_reads_only parse get_by_id stream request caller in_table passes refl

abbrev secrets : Secrets
secrets = record {
  generate_from_password = λ p. ok p;
  compare_hash_and_password = λ _ _. none;
  sign = λ c. ok (c.user_id);
}

abbrev ann : Account
ann = record {
  id = codes "u1";
  username = codes "ann";
  password_hash = codes "h";
  role = role_viewer;
  disabled_at = none;
}

abbrev users : Users ℕ
users = record {
  get_by_username = λ _ _. ok ann;
  get_by_id = λ _ _. ok ann;
  create = λ a d. (d, ok a);
  update_password = λ _ _ d. (d, none);
  disable_user = λ _ d. (d, none);
  enable_user = λ _ d. (d, none);
}

-- A signing that knows one set of claims.
abbrev signs : Claims → Claims → Result Str
signs k c =
    if eq_str c.scope k.scope
      && eq_str c.video_id k.video_id
      && eq_str c.user_id k.user_id
      && eq_str c.username k.username
      && eq_str c.role k.role
    then ok (codes "t")
    else err Error.plain

signs_lem : (k c : Claims) (t : Str) → signs k c ≡ ok t → some k ≡ some c
signs_lem k c t h = ground (
  arith,
  eq_str_iff c.scope k.scope,
  eq_str_iff c.video_id k.video_id,
  eq_str_iff c.user_id k.user_id,
  eq_str_iff c.username k.username,
  eq_str_iff c.role k.role,
)

abbrev session_caller : Caller
session_caller = record { scope = []; video_id = []; user_id = codes "u1"; role = role_viewer }

login_opens_example :
    (user : Account) × (users.get_by_username (codes "ann") 0 ≡ ok user)
    × (user.disabled_at ≡ none)
    × (secrets.compare_hash_and_password user.password_hash (codes "pw") ≡ none)
    × (session_caller.user_id ≡ user.id)
    × (session_caller.role ≡ user.role)
    × (session_caller.scope ≡ [])
    × (session_caller.video_id ≡ [])
unfolding login sign_in serve jwt_auth require_active_user guard token_of is_empty eq_str has_prefix
login_opens_example =
    login_opens users (record secrets { sign = signs (session_claims ann) })
      (λ _. some (session_claims ann)) get_by_id (codes "ann") (codes "pw") (codes "t") 0 stream
      request session_caller (signs_lem (session_claims ann)) refl refl refl

stream_token_opens_example : (stream.stream_token ≡ true) × (request.param_id ≡ codes "v1")
unfolding generate_stream_token eq_str token_of is_empty has_prefix
stream_token_opens_example =
    stream_token_opens (record secrets { sign = signs claims }) parse get_by_id 30 (codes "u1")
      (codes "ann") role_viewer (codes "v1") (codes "t") 1800 stream request caller
      (signs_lem claims) refl refl passes
