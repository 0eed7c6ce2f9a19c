-- ===== src/Analytics.antt =====
-- `AnalyticsService` (internal/service/analytics_service.go). The repository is an argument; a day
-- is its number, counted from one so long ago that no trend reaches it, and hours are counted in
-- tenths, without the rounding of float64.
pub mod Trend
use vaultflix.Base.{ℕ, zero, suc, ◌+◌, ◌-◌, ◌*◌, ◌/◌, Str, Option, none, some, List, [], ◌∷◌, map}
use vaultflix.Errors.{Error, Result, ok, err, ◌>>=◌, wrapping}

-- `model.AnalyticsQuery`
pub record AnalyticsQuery : Type 0 where
  pub days : ℕ
  pub limit : ℕ

-- `model.DailyRawRow`
pub record DailyRawRow : Type 0 where
  pub views : ℕ
  pub watched_seconds : ℕ

-- `model.DailyPoint`
pub record DailyPoint : Type 0 where
  pub date : ℕ
  pub views : ℕ
  pub watch_hours : ℕ

-- `model.TopVideo`; its hours are counted in millionths where they come from the database.
pub record TopVideo : Type 0 where
  pub video_id : Str
  pub title : Str
  pub thumbnail_key : Str
  pub views : ℕ
  pub watch_hours : ℕ

-- `model.TopTag`
pub record TopTag : Type 0 where
  pub tag_id : ℕ
  pub name : Str
  pub views : ℕ

-- What `KPIs` returns.
pub record Kpis : Type 0 where
  pub views : ℕ
  pub watched_seconds : ℕ
  pub avg_completion : ℕ
  pub active_users : ℕ

-- `model.AnalyticsSummary`
pub record AnalyticsSummary : Type 0 where
  pub range_days : ℕ
  pub total_views : ℕ
  pub total_watch_hours : ℕ
  pub avg_completion_rate : ℕ
  pub active_users : ℕ
  pub daily_trend : List DailyPoint
  pub top_videos : List TopVideo
  pub top_tags : List TopTag

-- `repository.AnalyticsRepository`; the rows of the days that have one are a map.
pub record AnalyticsRepository : Type 0 where
  pub kpis : ℕ → Result Kpis
  pub daily_raw : ℕ → Result (ℕ → Option DailyRawRow)
  pub top_videos : ℕ → ℕ → Result (List TopVideo)
  pub top_tags : ℕ → ℕ → Result (List TopTag)

-- `round1(seconds / 3600)`, halves upwards
unfoldable pub hours_of : ℕ → ℕ
hours_of seconds = (seconds + 180) / 360

-- `round1`, of millionths
unfoldable pub round1 : ℕ → ℕ
round1 millionths = (millionths + 50_000) / 100_000

rounded : TopVideo → TopVideo
unfolding round1
rounded v = record v { watch_hours = round1 v.watch_hours }

unfoldable pub point_of : ℕ → Option DailyRawRow → DailyPoint
unfolding hours_of
point_of date none = record { date = date; views = 0; watch_hours = 0 }
point_of date (some row) = record {
  date = date;
  views = row.views;
  watch_hours = hours_of row.watched_seconds;
}

-- `buildDailyTrend`, at the day `today`: the loop counts down to 0.
unfoldable pub build_daily_trend : ℕ → ℕ → (ℕ → Option DailyRawRow) → List DailyPoint
unfolding point_of
build_daily_trend today zero raw = []
build_daily_trend today (suc i) raw =
    point_of (today - i) (raw (today - i)) ∷ build_daily_trend today i raw

unfoldable pub summary : AnalyticsRepository → ℕ → AnalyticsQuery → Result AnalyticsSummary
unfolding build_daily_trend rounded hours_of
summary r today q = do
  kpis ← wrapping (r.kpis q.days)
  daily_raw ← wrapping (r.daily_raw q.days)
  top_videos ← wrapping (r.top_videos q.days q.limit)
  top_tags ← wrapping (r.top_tags q.days q.limit)
  ok (record {
    range_days = q.days;
    total_views = kpis.views;
    total_watch_hours = hours_of kpis.watched_seconds;
    avg_completion_rate = kpis.avg_completion;
    active_users = kpis.active_users;
    daily_trend = build_daily_trend today q.days daily_raw;
    top_videos = map rounded top_videos;
    top_tags = top_tags;
  })
