-- ===== src/Handlers/Reports.antt =====
-- The reports that an admin reads (internal/handler/analytics_handler.go, and `Summary` of
-- internal/handler/playback_telemetry_handler.go with internal/service/playback_telemetry_service.go).
-- `strconv.Atoi` is of 64 bits.
pub mod Clamped
use vaultflix.Base.Text.{is_digit}
use vaultflix.Base.{
  ℕ, suc, ◌+◌, ◌-◌, ◌*◌, ◌/◌, ◌^◌, ◌==◌, Str, codes, eq_str, is_empty, Bool, ltb, leb,
  if◌then◌else◌, ◌||◌, Option, none, some, [], ◌∷◌,
}
use vaultflix.Base.Int.{ℤ, pos, negsuc, ltb_ℤ}
use vaultflix.Errors.{Error, Result, ok, err}
use vaultflix.Library.{digits_value}
use vaultflix.Analytics.{AnalyticsQuery, AnalyticsSummary, AnalyticsRepository, summary}
use vaultflix.Watching.{Telemetry, Address, record_telemetry}
use vaultflix.Handlers.{Reply, bad_request, refusal, done}

unsigned : Str → Option ℕ
unsigned [] = none
unsigned (c ∷ s) = digits_value 0 (c ∷ s)

abbrev positive_within : Option ℕ → Option ℤ
positive_within none = none
positive_within (some n) = if ltb n (2 ^ 63) then some (pos n) else none

abbrev negative_within : Option ℕ → Option ℤ
negative_within none = none
negative_within (some n) =
    if n == 0 then some (pos 0) else if leb n (2 ^ 63) then some (negsuc (n - 1)) else none

-- `strconv.Atoi`
unfoldable pub atoi : Str → Option ℤ
unfolding unsigned
atoi [] = none
atoi (c ∷ s) =
    if c == b'-'
    then negative_within (unsigned s)
    else if c == b'+'
    then positive_within (unsigned s)
    else positive_within (unsigned (c ∷ s))

unfoldable pub clamp_param : Str → ℤ → ℤ → ℤ → ℤ
unfolding atoi
clamp_param raw default min max = elim (atoi raw) [
  | none ↦ default
  | some v ↦ if ltb_ℤ v min then min else if ltb_ℤ max v then max else v
]

unfoldable pub normalize_scope : Str → Str
unfolding eq_str
normalize_scope raw =
    if eq_str raw (codes "lan") || eq_str raw (codes "external") || eq_str raw (codes "unknown")
    then raw
    else []

-- the natural number that a clamped one is
abbrev natural : ℤ → ℕ
natural (pos n) = n
natural (negsuc n) = 0

-- `defaultAnalyticsDays` and its like
unfoldable pub analytics_query : Str → Str → AnalyticsQuery
unfolding clamp_param
analytics_query days limit = record {
  days = natural (clamp_param days (pos 30) (pos 1) (pos 365));
  limit = natural (clamp_param limit (pos 10) (pos 1) (pos 50));
}

-- `AnalyticsHandler.Get`
unfoldable pub get_analytics : AnalyticsRepository → ℕ → Str → Str → Reply AnalyticsSummary
unfolding analytics_query summary
get_analytics r today days limit = elim (summary r today (analytics_query days limit)) [
  | err e ↦ refusal e (codes "build analytics")
  | ok s ↦ Reply.replied 200 s
]

-- `model.TelemetryQuery`
pub record TelemetryQuery : Type 0 where
  pub days : ℕ
  pub scope : Str

unfoldable pub telemetry_query : Str → Str → TelemetryQuery
unfolding clamp_param normalize_scope
telemetry_query days scope = record {
  days = natural (clamp_param days (pos 30) (pos 1) (pos 365));
  scope = normalize_scope scope;
}

-- `model.TelemetrySummary`, of the statistics `S` of a Play Mode
pub record TelemetrySummary (S : Type 0) : Type 0 where
  pub range_days : ℕ
  pub scope : Str
  pub by_play_mode : S

-- `PlaybackTelemetryService.Summary`
unfoldable pub telemetry_summary :
    {S : Type 0} → (TelemetryQuery → Result S) → TelemetryQuery → Result (TelemetrySummary S)
telemetry_summary aggregate q = elim (aggregate q) [
  | err e ↦ err (Error.wrap e)
  | ok stats ↦ ok (record { range_days = q.days; scope = q.scope; by_play_mode = stats })
]

-- `PlaybackTelemetryHandler.Summary`
unfoldable pub get_telemetry :
    {S : Type 0} → (TelemetryQuery → Result S) → Str → Str → Reply (TelemetrySummary S)
unfolding telemetry_query telemetry_summary
get_telemetry aggregate days scope =
    elim (telemetry_summary aggregate (telemetry_query days scope)) [
      | err e ↦ refusal e (codes "build telemetry summary")
      | ok s ↦ Reply.replied 200 s
    ]
