-- ===== src/Handlers/Reports/Clamped.antt =====
-- The windows that the reports are read for.
use vaultflix.Base.{ℕ, ◌≤◌, Str, codes, eq_str_iff, [], ◌≡◌, ◌⊎◌, arith}
use vaultflix.Base.Int.{ℤ, pos, ◌≤ℤ◌}
use vaultflix.Handlers.Reports.{
  clamp_param, normalize_scope, analytics_query, telemetry_query, natural,
}

clamp_param-within :
    (raw : Str) (default min max : ℤ)
    → min ≤ℤ default
    → default ≤ℤ max
    → min ≤ℤ max
    → (min ≤ℤ clamp_param raw default min max) × (clamp_param raw default min max ≤ℤ max)
unfolding clamp_param
clamp_param-within raw default min max a b c = ground arith

natural-within : (v : ℤ) (k : ℕ) → pos 1 ≤ℤ v → v ≤ℤ pos k → (1 ≤ natural v) × (natural v ≤ k)
natural-within v k a b = ground arith

window :
    (raw : Str) (default max : ℕ)
    → 1 ≤ default
    → default ≤ max
    → (1 ≤ natural (clamp_param raw (pos default) (pos 1) (pos max)))
      × (natural (clamp_param raw (pos default) (pos 1) (pos max)) ≤ max)
window raw default max a b =
    let (l, u) =
      clamp_param-within raw (pos default) (pos 1) (pos max) (omega (arith, a)) (omega (arith, b))
        (omega (arith, a, b)) in
    natural-within (clamp_param raw (pos default) (pos 1) (pos max)) max l u

scope_of_four :
    (raw : Str)
    → (normalize_scope raw ≡ [])
      ⊎ (normalize_scope raw ≡ codes "lan")
      ⊎ (normalize_scope raw ≡ codes "external")
      ⊎ (normalize_scope raw ≡ codes "unknown")
unfolding normalize_scope
scope_of_four raw = ground (
  arith,
  eq_str_iff raw (codes "lan"),
  eq_str_iff raw (codes "external"),
  eq_str_iff raw (codes "unknown"),
)

-- Whatever the request says, the analytics are read for 1 to 365 days and 1 to 50 rows, and the
-- telemetry for 1 to 365 days and one of the three scopes or all.
pub queries-within :
    (days limit scope : Str)
    → let q = analytics_query days limit in
      let t = telemetry_query days scope in
      ((1 ≤ q.days) × (q.days ≤ 365))
      × ((1 ≤ q.limit) × (q.limit ≤ 50))
      × ((1 ≤ t.days) × (t.days ≤ 365))
      × ((t.scope ≡ [])
          ⊎ (t.scope ≡ codes "lan")
          ⊎ (t.scope ≡ codes "external")
          ⊎ (t.scope ≡ codes "unknown"))
unfolding analytics_query telemetry_query
queries-within days limit scope = (
  window days 30 365 (omega arith) (omega arith),
  window limit 10 50 (omega arith) (omega arith),
  window days 30 365 (omega arith) (omega arith),
  scope_of_four scope,
)
