-- ===== src/Accounts.antt =====
-- Accounts: `AuthService` (internal/service/auth_service.go) and `UserService`
-- (internal/service/user_service.go). The user repository, over a database `D`, bcrypt and the
-- signing of a token are arguments; the claims `exp` and `iat` are left to the signing.
pub mod Entry
use vaultflix.Base.{
  ℕ, ◌*◌, Str, eq_str, Bool, true, false, if◌then◌else◌, Option, none, some, List, [],
}
use vaultflix.Errors.{Sentinel, Error, is, Result, ok, err}
use vaultflix.Access.{Claims, role_admin, stream_scope}

-- `model.User`
pub record Account : Type 0 where
  pub id : Str
  pub username : Str
  pub password_hash : Str
  pub role : Str
  pub disabled_at : Option ℕ

-- `repository.UserRepository`, what the two services call of it.
pub record Users (D : Type 0) : Type 0 where
  pub get_by_username : Str → D → Result Account
  pub get_by_id : Str → D → Result Account
  pub create : Account → D → D × Result Account
  pub update_password : Str → Str → D → D × Option Error
  pub disable_user : Str → D → D × Option Error
  pub enable_user : Str → D → D × Option Error

-- bcrypt and JWT
pub record Secrets : Type 0 where
  pub generate_from_password : Str → Result Str
  pub compare_hash_and_password : Str → Str → Option Error
  pub sign : Claims → Result Str

abbrev pub wrapped {ℓ} : {D : Type ℓ} → D × Option Error → D × Option Error
wrapped (d, none) = (d, none)
wrapped (d, some e) = (d, some (Error.wrap e))

abbrev wrapped_result {ℓ} : {D : Type ℓ} → D × Result Account → D × Result Account
wrapped_result (d, ok a) = (d, ok a)
wrapped_result (d, err e) = (d, err (Error.wrap e))

-- the user that is to be stored, whose id the database fills in
abbrev pub new_account : Str → Str → Str → Account
new_account username hash role = record {
  id = [];
  username = username;
  password_hash = hash;
  role = role;
  disabled_at = none;
}

abbrev pub session_claims : Account → Claims
session_claims user = record {
  scope = [];
  video_id = [];
  user_id = user.id;
  username = user.username;
  role = user.role;
}

abbrev wrapped_token : Result Str → Result Str
wrapped_token (ok t) = ok t
wrapped_token (err e) = err (Error.wrap e)

-- `Login`, from the password on
unfoldable pub sign_in : Secrets → Str → Account → Result Str
sign_in secrets password user =
    elim (secrets.compare_hash_and_password user.password_hash password) [
      | some _ ↦ err (Error.sentinel Sentinel.invalid_credentials)
      | none ↦ wrapped_token (secrets.sign (session_claims user))
    ]

module _ {D : Type 0} where
  -- `AuthService.Register`, and `UserService.Create`, which is the same code.
  unfoldable pub register : Users D → (Str → Result Str) → Str → Str → Str → D → D × Result Account
  register users hash_of username password role d = elim (users.get_by_username username d) [
    | ok _ ↦ (d, err (Error.sentinel Sentinel.username_already_exists))
    | err e ↦
        if is Sentinel.not_found e
        then elim (hash_of password) [
          | err f ↦ (d, err (Error.wrap f))
          | ok hash ↦ wrapped_result (users.create (new_account username hash role) d)
        ]
        else (d, err (Error.wrap e))
  ]

  unfoldable pub login : Users D → Secrets → Str → Str → D → Result Str
  login users secrets username password d = elim (users.get_by_username username d) [
    | err e ↦
        if is Sentinel.not_found e
        then err (Error.sentinel Sentinel.invalid_credentials)
        else err (Error.wrap e)
    | ok user ↦ elim user.disabled_at [
      | some _ ↦ err (Error.sentinel Sentinel.account_disabled)
      | none ↦ sign_in secrets password user
    ]
  ]

  -- `AuthService.ResetPassword`, which finds the user by name.
  unfoldable pub reset_password_by_name :
      Users D → (Str → Result Str) → Str → Str → D → D × Option Error
  reset_password_by_name users hash_of username password d =
      elim (users.get_by_username username d) [
        | err e ↦ (d, some (Error.wrap e))
        | ok user ↦ elim (hash_of password) [
          | err e ↦ (d, some (Error.wrap e))
          | ok hash ↦ wrapped (users.update_password user.id hash d)
        ]
      ]

  -- `UserService.ResetPassword`
  unfoldable pub reset_password : Users D → (Str → Result Str) → Str → Str → D → D × Option Error
  reset_password users hash_of id password d = elim (users.get_by_id id d) [
    | err e ↦ (d, some (Error.wrap e))
    | ok _ ↦ elim (hash_of password) [
      | err e ↦ (d, some (Error.wrap e))
      | ok hash ↦ wrapped (users.update_password id hash d)
    ]
  ]

  unfoldable pub disable : Users D → Str → D → D × Option Error
  unfolding eq_str
  disable users id d = elim (users.get_by_id id d) [
    | err e ↦ (d, some (Error.wrap e))
    | ok user ↦
        if eq_str user.role role_admin
        then (d, some (Error.sentinel Sentinel.cannot_disable_admin))
        else wrapped (users.disable_user id d)
  ]

  unfoldable pub enable : Users D → Str → D → D × Option Error
  enable users id d = elim (users.get_by_id id d) [
    | err e ↦ (d, some (Error.wrap e))
    | ok _ ↦ wrapped (users.enable_user id d)
  ]

-- the claims of a Stream Token
abbrev pub stream_claims : Str → Str → Str → Str → Claims
stream_claims user_id username role video_id = record {
  scope = stream_scope;
  video_id = video_id;
  user_id = user_id;
  username = username;
  role = role;
}

-- `GenerateStreamToken`: the token and the seconds that it lasts.
unfoldable pub generate_stream_token : Secrets → ℕ → Str → Str → Str → Str → Result (Str × ℕ)
generate_stream_token secrets stream_exp_mins user_id username role video_id =
    elim (secrets.sign (stream_claims user_id username role video_id)) [
      | err e ↦ err (Error.wrap e)
      | ok token ↦ ok (token, stream_exp_mins * 60)
    ]
