-- ===== src/Analytics/Trend.antt =====
-- The days of a trend.
use vaultflix.Base.{
  ℕ, zero, suc, ◌-◌, ◌<◌, Option, some, length, get_elem?, ◌≡◌, refl, ap, arith, sym, ◌∙◌,
}
use vaultflix.Analytics.{DailyRawRow, point_of, build_daily_trend}

length-trend :
    (today days : ℕ) (raw : ℕ → Option DailyRawRow)
    → length (build_daily_trend today days raw) ≡ days
unfolding build_daily_trend
length-trend today zero raw = refl
length-trend today (suc i) raw = ap suc (length-trend today i raw)

trend-elem :
    (today days k : ℕ) (raw : ℕ → Option DailyRawRow)
    → k < days
    → get_elem? (build_daily_trend today days raw) k
      ≡ some (point_of (today - (days - 1 - k)) (raw (today - (days - 1 - k))))
unfolding build_daily_trend
trend-elem today zero k raw h = absurd (omega arith)
trend-elem today (suc i) zero raw h =
    let e : suc i - 1 - 0 ≡ i = omega arith in
    ap (λ n. some (point_of (today - n) (raw (today - n)))) (sym e)
trend-elem today (suc i) (suc k) raw h =
    let e : suc i - 1 - suc k ≡ i - 1 - k = omega arith in
    trend-elem today i k raw (omega arith)
    ∙ ap (λ n. some (point_of (today - n) (raw (today - n)))) (sym e)

-- A trend of `days` days has exactly that many points: the k-th of them is the day that lies
-- `days - 1 - k` days before today, with the row of that day, or with zeros where there is none.
pub build_daily_trend_lem :
    (today days : ℕ) (raw : ℕ → Option DailyRawRow)
    → (length (build_daily_trend today days raw) ≡ days)
      × ((k : ℕ)
          → k < days
          → get_elem? (build_daily_trend today days raw) k
            ≡ some (point_of (today - (days - 1 - k)) (raw (today - (days - 1 - k)))))
build_daily_trend_lem today days raw =
    (length-trend today days raw, λ k h. trend-elem today days k raw h)
