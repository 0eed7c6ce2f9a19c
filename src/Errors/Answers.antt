-- ===== src/Errors/Answers.antt =====
-- What an HTTP answer says of the error that it answers.
use vaultflix.Base.{ℕ, zero, suc, Str, true, false, ◌≡◌, ◌⊎◌, arith, refl, ◌∙◌, Option}
use vaultflix.Errors.{Sentinel, Error, is, as_lane_busy, as_invalid_param, as_missing_resource}
use vaultflix.Errors.Http.{http_error_for, auth_or_stream_error, write_error, job_lane_busy_message}

-- An answer 503 means that the chain holds `ErrStreamPreparing`, and that it holds none of
-- `ErrKeyframeIndexFailed`, `ErrNotFound` and `ErrMediaSourceDisabled`: the player polls on 503.
pub preparing_of_503 :
    (e : Error) (op : Str)
    → (write_error e op).status ≡ 503
    → (is Sentinel.stream_preparing e ≡ true)
      × (is Sentinel.keyframe_index_failed e ≡ false)
      × (is Sentinel.not_found e ≡ false)
      × (is Sentinel.media_source_disabled e ≡ false)
unfolding write_error http_error_for auth_or_stream_error
preparing_of_503 e op h = ground arith

-- `fmt.Errorf("…: %w", err)`, n times
unfoldable pub wraps : ℕ → Error → Error
wraps zero e = e
wraps (suc n) e = Error.wrap (wraps n e)

write_error-wrap : (e : Error) (op : Str) → write_error (Error.wrap e) op ≡ write_error e op
unfolding write_error http_error_for auth_or_stream_error job_lane_busy_message is as_lane_busy
    as_invalid_param as_missing_resource
write_error-wrap e op = refl

-- However often the services wrap an error with `%w`, the answer is that of the error itself.
pub write_error-wraps :
    (n : ℕ) (e : Error) (op : Str) → write_error (wraps n e) op ≡ write_error e op
unfolding wraps
write_error-wraps zero e op = refl
write_error-wraps (suc n) e op = write_error-wrap (wraps n e) op ∙ write_error-wraps n e op

-- The sentinels that no rule of the table names.
abbrev pub IsInternal : Sentinel → Type 0
IsInternal s =
    (s ≡ Sentinel.source_unavailable)
    ⊎ (s ≡ Sentinel.job_item_skipped)
    ⊎ (s ≡ Sentinel.unindexable)
    ⊎ (s ≡ Sentinel.canceled)
    ⊎ (s ≡ Sentinel.file_not_exist)
    ⊎ (s ≡ Sentinel.scrape_blocked)

-- An answer is 500 only if every sentinel in the chain is one that no rule of the table names, and
-- no busy Job Lane is in it.
pub write_error-IsInternal :
    (e : Error) (op : Str)
    → (write_error e op).status ≡ 500
    → (as_lane_busy e ≡ Option.none) × ((s : Sentinel) → is s e ≡ true → IsInternal s)
unfolding write_error http_error_for auth_or_stream_error
write_error-IsInternal e op h = (ground arith, known e op h)
  where
    known :
        (e : Error) (op : Str)
        → (write_error e op).status ≡ 500
        → (s : Sentinel) → is s e ≡ true
        → IsInternal s
    known e op h Sentinel.not_found k = ground arith
    known e op h _ k = ground arith
