-- ===== src/Errors.antt =====
-- Go errors as the services build them (internal/model/errors.go): sentinel values, the three
-- error types that carry data, and the chains that `fmt.Errorf` builds. An error is what
-- `errors.Is` and `errors.As` see of it; the words of a wrap are left out, and an error wrapped
-- by `%v`, or made with no `%w`, is `plain`.
pub mod Http
pub mod Answers
use vaultflix.Base.{
  ℕ, Str, Bool, false, ◌||◌, ◌==◌, Option, none, some, ◌≡◌, ◌⊎◌, inl, inr, refl, arith,
}

-- The package variables made by `errors.New`; the last five are those of the services and of the
-- standard library.
pub data Sentinel : Type 0 where
  not_found already_exists conflict account_disabled cannot_disable_admin : Sentinel
  path_not_allowed path_not_exist invalid_input stream_preparing : Sentinel
  keyframe_index_failed not_remux media_source_disabled code_not_found : Sentinel
  source_unavailable scrape_blocked job_item_skipped : Sentinel
  username_already_exists invalid_credentials unindexable canceled file_not_exist : Sentinel

pub data Error : Type 0 where
  sentinel : Sentinel → Error
  plain : Error
  invalid_param : Str → Error
  missing_resource : Str → Error
  lane_busy : Str → Error
  wrap : Error → Error
  wrap_both : Error → Error → Error

-- Sentinels are compared by identity.
abbrev pub rank : Sentinel → ℕ
rank not_found = 0
rank already_exists = 1
rank conflict = 2
rank account_disabled = 3
rank cannot_disable_admin = 4
rank path_not_allowed = 5
rank path_not_exist = 6
rank invalid_input = 7
rank stream_preparing = 8
rank keyframe_index_failed = 9
rank not_remux = 10
rank media_source_disabled = 11
rank code_not_found = 12
rank source_unavailable = 13
rank job_item_skipped = 14
rank username_already_exists = 15
rank invalid_credentials = 16
rank unindexable = 17
rank canceled = 18
rank file_not_exist = 19
rank scrape_blocked = 20

-- `errors.Is(err, target)`, the target first: the `Unwrap` methods of the typed errors are part
-- of the walk.
unfoldable pub is : Sentinel → Error → Bool
is s (sentinel t) = rank t == rank s
is s plain = false
is s (invalid_param _) = rank invalid_input == rank s
is s (missing_resource _) = rank not_found == rank s
is s (lane_busy _) = rank conflict == rank s
is s (wrap e) = is s e
is s (wrap_both e f) = is s e || is s f

abbrev or_else {ℓ} : {A : Type ℓ} → Option A → Option A → Option A
or_else none o = o
or_else (some a) _ = some a

-- `errors.As` at each of the three error types.
unfoldable pub as_lane_busy : Error → Option Str
as_lane_busy (lane_busy kind) = some kind
as_lane_busy (wrap e) = as_lane_busy e
as_lane_busy (wrap_both e f) = or_else (as_lane_busy e) (as_lane_busy f)
as_lane_busy _ = none

unfoldable pub as_invalid_param : Error → Option Str
as_invalid_param (invalid_param m) = some m
as_invalid_param (wrap e) = as_invalid_param e
as_invalid_param (wrap_both e f) = or_else (as_invalid_param e) (as_invalid_param f)
as_invalid_param _ = none

unfoldable pub as_missing_resource : Error → Option Str
as_missing_resource (missing_resource w) = some w
as_missing_resource (wrap e) = as_missing_resource e
as_missing_resource (wrap_both e f) = or_else (as_missing_resource e) (as_missing_resource f)
as_missing_resource _ = none

-- `(A, error)`
pub data Result {ℓ} (A : Type ℓ) : Type ℓ where
  ok : A → Result A
  err : Error → Result A

pub Result-cases {ℓ} :
    {A : Type ℓ} (r : Result A) → ((e : Error) × (r ≡ err e)) ⊎ ((a : A) × (r ≡ ok a))
Result-cases (ok a) = inr (a, refl)
Result-cases (err e) = inl (e, refl)

infixl 5 ◌>>=◌
abbrev pub ◌>>=◌ {ℓ κ} : {A : Type ℓ} {B : Type κ} → Result A → (A → Result B) → Result B
ok a >>= f = f a
err e >>= f = err e

-- `if err != nil { return fmt.Errorf("…: %w", err) }`
abbrev pub wrapping {ℓ} : {A : Type ℓ} → Result A → Result A
wrapping (ok a) = ok a
wrapping (err e) = err (wrap e)

-- `if err := …; err != nil { return fmt.Errorf("…: %w", err) }; return nil`
abbrev pub wrapped_write {ℓ} : {D : Type ℓ} → D × Option Error → D × Option Error
wrapped_write (d, none) = (d, none)
wrapped_write (d, some e) = (d, some (Error.wrap e))
