-- ===== src/Errors/Http.antt =====
-- Errors as HTTP answers: `httpErrorFor`, `authOrStreamError` and `writeError` of
-- internal/handler/errors.go, `jobLaneBusyMessage` of internal/handler/job_lane.go.
use vaultflix.Base.{
  ℕ, Str, codes, Bool, true, false, ◌||◌, if◌then◌else◌, Option, none, some, ◌++◌, eq_str,
}
use vaultflix.Errors.{Sentinel, Error, is, as_lane_busy, as_invalid_param, as_missing_resource}

-- The constants of internal/model/error_codes.go that an answer can carry.
pub data Code : Type 0 where
  bad_request unauthorized forbidden not_found file_not_found path_not_allowed : Code
  already_exists username_taken conflict job_lane_busy source_disabled : Code
  cannot_disable_admin no_code keyframe_index_failed stream_not_ready internal path_not_exist : Code

pub record HttpError : Type 0 where
  pub status : ℕ
  pub code : Code
  pub reason : Str

-- `ErrorResponse` with its status.
pub record Answer : Type 0 where
  pub status : ℕ
  pub code : Code
  pub message : Str

unfoldable pub job_lane_busy_message : Error → Str
unfolding eq_str
job_lane_busy_message e = elim (as_lane_busy e) [
  | some kind ↦
      if eq_str kind (codes "import")
      then codes "匯入正在執行，完成或取消後再試"
      else if eq_str kind (codes "backfill")
      then codes "補齊正在執行，完成或取消後再試"
      else if eq_str kind (codes "enrichment")
      then codes "資料補全正在執行，完成或取消後再試"
      else codes "已有作業正在執行，完成後再試"
  | none ↦ codes "已有作業正在執行，完成後再試"
]

abbrev pub is_some {ℓ} : {A : Type ℓ} → Option A → Bool
is_some none = false
is_some (some _) = true

answer : ℕ → Code → Str → Option HttpError
answer status code reason = some (record { status = status; code = code; reason = reason })

unfoldable pub auth_or_stream_error : Error → Option HttpError
unfolding answer
auth_or_stream_error e =
    if is Sentinel.invalid_credentials e
    then answer 401 unauthorized (codes "invalid username or password")
    else if is Sentinel.account_disabled e
    then answer 403 forbidden (codes "account is disabled")
    else if is Sentinel.code_not_found e
    then answer 422 no_code (codes "no code in filename")
    else if is Sentinel.keyframe_index_failed e
    then answer 422 keyframe_index_failed (codes "the keyframe index could not be built")
    else if is Sentinel.stream_preparing e
    then answer 503 stream_not_ready (codes "preparing the stream, retry shortly")
    else none

-- `none` is `ok == false`.
unfoldable pub http_error_for : Error → Option HttpError
unfolding answer auth_or_stream_error
http_error_for e =
    if is_some (as_lane_busy e)
    then answer 409 job_lane_busy (job_lane_busy_message e)
    else if is Sentinel.username_already_exists e
    then answer 409 username_taken (codes "username already exists")
    else if is Sentinel.already_exists e
    then answer 409 already_exists (codes "already exists")
    else if is Sentinel.media_source_disabled e
    then answer 409 source_disabled (codes "media source is disabled")
    else if is Sentinel.conflict e
    then answer 409 conflict (codes "conflicts with the current state")
    else if is Sentinel.path_not_exist e
    then answer 404 file_not_found (codes "file not found")
    else if is Sentinel.not_found e || is Sentinel.not_remux e
    then answer 404 not_found (codes "not found")
    else if is Sentinel.path_not_allowed e
    then answer 403 path_not_allowed (codes "path outside the allowed area")
    else if is Sentinel.invalid_input e
    then answer 400 bad_request (codes "invalid input")
    else if is Sentinel.cannot_disable_admin e
    then answer 400 cannot_disable_admin (codes "cannot disable an admin account")
    else auth_or_stream_error e

abbrev is_lane_busy : Code → Bool
is_lane_busy job_lane_busy = true
is_lane_busy _ = false

-- The `switch` over the typed errors.
message : Error → Str → HttpError → Str
message e op h = elim (as_invalid_param e) [
  | some m ↦ m
  | none ↦ elim (as_missing_resource e) [
    | some what ↦ op ++ (codes ": " ++ (what ++ codes " not found"))
    | none ↦ if is_lane_busy h.code then h.reason else op ++ (codes ": " ++ h.reason)
  ]
]

unfoldable pub write_error : Error → Str → Answer
unfolding http_error_for message
write_error e op = elim (http_error_for e) [
  | none ↦ record { status = 500; code = internal; message = op ++ codes " failed" }
  | some h ↦ record { status = h.status; code = h.code; message = message e op h }
]
