-- ===== src/Watching.antt =====
-- What the player reports while a Video is watched: progress (`SaveProgress`,
-- internal/service/history_service.go), heartbeats (internal/service/watch_session_service.go) and
-- the quality summary (internal/service/playback_telemetry_service.go). The repositories are
-- arguments, over a database `D`.
pub mod Clamps
use vaultflix.Base.{
  ℕ, ◌+◌, ◌*◌, ◌≤◌, Str, codes, eq_str, is_empty, Bool, true, false, ◌&&◌, ◌||◌, not, ltb, leb,
  if◌then◌else◌, Option, none, some, List, [], ◌∷◌, ◌++◌,
}
use vaultflix.Base.Int.{ℤ, pos, negsuc, ltb_ℤ, pos_part, neg_part}
use vaultflix.Errors.{Sentinel, Error, is, Result, ok, err, wrapped_write}
use vaultflix.Model.{Video}

-- `model.WatchHistory`, as `SaveProgress` writes it
pub record WatchHistory : Type 0 where
  pub user_id : Str
  pub video_id : Str
  pub progress_seconds : ℕ
  pub completed : Bool

-- `progress >= duration * 0.9`, in tenths.
unfoldable pub is_completed : ℕ → ℕ → Bool
is_completed progress duration = ltb 0 duration && leb (9 * duration) (10 * progress)

module _ {D : Type 0} where
  unfoldable pub save_progress :
      (Str → Result Video)
      → (WatchHistory → D → D × Option Error)
      → Str
      → Str
      → ℕ
      → D
      → D × Option Error
  unfolding is_completed
  save_progress get_by_id upsert user_id video_id progress d = elim (get_by_id video_id) [
    | err e ↦ (d, some (Error.wrap e))
    | ok video ↦ wrapped_write (
        upsert
          (record {
            user_id = user_id;
            video_id = video_id;
            progress_seconds = progress;
            completed = is_completed progress video.duration_seconds;
          })
          d)
  ]

-- `GetProgress`: 0 when the user has never watched the Video.
unfoldable pub get_progress : (Str → Str → Result WatchHistory) → Str → Str → Result ℕ
get_progress get_by_user_and_video user_id video_id =
    elim (get_by_user_and_video user_id video_id) [
      | ok record_ ↦ ok record_.progress_seconds
      | err e ↦ if is Sentinel.not_found e then ok 0 else err (Error.wrap e)
    ]

-- `model.HeartbeatInput`: the two numbers come from the client and may be negative.
pub record Heartbeat : Type 0 where
  pub session_id : Str
  pub user_id : Str
  pub video_id : Str
  pub played_delta : ℤ
  pub position_seconds : ℤ

abbrev pub max_heartbeat_delta : ℤ
max_heartbeat_delta = pos 22

abbrev pub floor_zero : ℤ → ℤ
floor_zero n = if ltb_ℤ n (pos 0) then pos 0 else n

module _ {D : Type 0} where
  unfoldable pub record_heartbeat :
      (Heartbeat → D → D × Option Error) → Heartbeat → D → D × Option Error
  unfolding is_empty
  record_heartbeat upsert h d =
      if is_empty h.session_id
        || is_empty h.user_id
        || is_empty h.video_id
        || ltb_ℤ h.played_delta (pos 0)
      then (
        d,
        some (
            Error.invalid_param
              (codes "heartbeat requires session_id, video_id, a user and a non-negative delta")),
      )
      else let capped =
          if ltb_ℤ max_heartbeat_delta h.played_delta
          then max_heartbeat_delta
          else h.played_delta in
        wrapped_write (
          upsert
            (record h { played_delta = capped; position_seconds = floor_zero h.position_seconds })
            d)

-- `model.PlaybackTelemetryInput`; the downlink is in thousandths.
pub record Telemetry : Type 0 where
  pub session_id : Str
  pub user_id : Str
  pub video_id : Str
  pub play_mode : Str
  pub remote_ip : Str
  pub network_scope : Str
  pub ttff_ms : Option ℤ
  pub watched_ms : ℤ
  pub rebuffer_count : ℤ
  pub rebuffer_ms : ℤ
  pub avg_downlink : Option ℤ
  pub fatal_error_family : Option Str

unfoldable pub is_valid_play_mode : Str → Bool
unfolding eq_str
is_valid_play_mode m =
    eq_str m (codes "direct") || eq_str m (codes "remux") || eq_str m (codes "transcode")

abbrev pub floor_some : Option ℤ → Option ℤ
floor_some none = none
floor_some (some n) = some (floor_zero n)

unfoldable pub clamp_telemetry : Telemetry → Telemetry
clamp_telemetry t = record t {
  watched_ms = floor_zero t.watched_ms;
  rebuffer_count = floor_zero t.rebuffer_count;
  rebuffer_ms = floor_zero t.rebuffer_ms;
  ttff_ms = floor_some t.ttff_ms;
  avg_downlink = floor_some t.avg_downlink;
}

-- What `net.ParseIP` and the methods of the address say; `none` is an address that does not parse.
pub record Address : Type 0 where
  pub is_loopback : Bool
  pub is_private : Bool
  pub is_link_local_unicast : Bool

unfoldable pub classify_network_scope : (Str → Option Address) → Str → Str
classify_network_scope parse_ip ip = elim (parse_ip ip) [
  | none ↦ codes "unknown"
  | some a ↦
      if a.is_loopback || a.is_private || a.is_link_local_unicast
      then codes "lan"
      else codes "external"
]

module _ {D : Type 0} where
  unfoldable pub record_telemetry :
      (Str → Option Address) → (Telemetry → D → D × Option Error) → Telemetry → D → D × Option Error
  unfolding is_empty is_valid_play_mode classify_network_scope clamp_telemetry
  record_telemetry parse_ip insert t d =
      if is_empty t.session_id || is_empty t.user_id || is_empty t.video_id
      then (
        d,
        some (Error.invalid_param (codes "telemetry requires session_id, video_id and a user")),
      )
      else if not (is_valid_play_mode t.play_mode)
      then (d, some (Error.invalid_param (codes "invalid play_mode " ++ t.play_mode)))
      else wrapped_write (
          insert
            (clamp_telemetry
              (record t { network_scope = classify_network_scope parse_ip t.remote_ip }))
            d)
