-- ===== src/Watching/Clamps.antt =====
-- What reaches the database of what the player reports.
use vaultflix.Base.{
  ℕ, ◌*◌, ◌≤◌, ◌<◌, Str, codes, is_empty, true, false, ◌||◌, Option, some, [], ◌∷◌, ◌≡◌, ◌≢◌, ◌⊎◌,
  ◌↔◌, inl, inr, arith, refl, Bool-cases, not, ◌++◌, if◌then◌else◌,
}
use vaultflix.Base.Int.{pos, ◌≤ℤ◌, ltb_ℤ}
use vaultflix.Errors.{Sentinel, Error, is, wrapped_write}
use vaultflix.Watching.{
  is_completed, Heartbeat, max_heartbeat_delta, record_heartbeat, floor_zero, Telemetry, Address,
  is_valid_play_mode, clamp_telemetry, classify_network_scope, record_telemetry,
}

-- What a heartbeat adds to a session: from 0 to 22 seconds, at a position of at least 0.
pub record IsSane (h : Heartbeat) : Type 0 where
  pub delta_nonneg : pos 0 ≤ℤ h.played_delta
  pub delta_capped : h.played_delta ≤ℤ max_heartbeat_delta
  pub position_nonneg : pos 0 ≤ℤ h.position_seconds
  pub session : h.session_id ≢ []
  pub user : h.user_id ≢ []
  pub video : h.video_id ≢ []

not_empty : (s : Str) → is_empty s ≡ false → s ≢ []
unfolding is_empty
not_empty [] h e = cc
not_empty (c ∷ s) h e = cc

-- what is written of a heartbeat
abbrev sent : Heartbeat → Heartbeat
sent h = record h {
  played_delta =
      if ltb_ℤ max_heartbeat_delta h.played_delta then max_heartbeat_delta else h.played_delta;
  position_seconds = floor_zero h.position_seconds;
}

sent-IsSane :
    (h : Heartbeat)
    → (is_empty h.session_id
        || is_empty h.user_id
        || is_empty h.video_id
        || ltb_ℤ h.played_delta (pos 0))
      ≡ false
    → IsSane (sent h)
sent-IsSane h e = record {
  delta_nonneg = ground arith;
  delta_capped = ground arith;
  position_nonneg = ground arith;
  session = not_empty h.session_id (ground arith);
  user = not_empty h.user_id (ground arith);
  video = not_empty h.video_id (ground arith);
}

module _ {D : Type 0} (upsert : Heartbeat → D → D × Option Error) where
  -- A heartbeat is refused with `ErrInvalidInput`, and the database left alone, or one heartbeat
  -- with the same IDs and sane numbers is written.
  pub record_heartbeat_lem :
      (h : Heartbeat) (d : D)
      → ((record_heartbeat upsert h d).0 ≡ d)
          × ((e : Error) × ((record_heartbeat upsert h d).1 ≡ some e)
              × (is Sentinel.invalid_input e ≡ true))
        ⊎ ((k : Heartbeat) × IsSane k
            × (k.session_id ≡ h.session_id)
            × (k.user_id ≡ h.user_id)
            × (k.video_id ≡ h.video_id)
            × (record_heartbeat upsert h d ≡ wrapped_write (upsert k d)))
  unfolding record_heartbeat is
  record_heartbeat_lem h d =
      elim (Bool-cases (
        is_empty h.session_id
        || is_empty h.user_id
        || is_empty h.video_id
        || ltb_ℤ h.played_delta (pos 0))) [
          | inl e ↦ inl (
            rw e,
            (
              Error.invalid_param (
                  codes "heartbeat requires session_id, video_id, a user and a non-negative delta"),
              rw e,
              refl,
            ),
          )
          | inr e ↦ inr (sent h, sent-IsSane h e, refl, refl, refl, rw e)
        ]

-- A summary as it is stored: no number below 0, a Play Mode of the closed set, and a network scope
-- of the three.
pub record IsStorable (t : Telemetry) : Type 0 where
  pub watched : pos 0 ≤ℤ t.watched_ms
  pub rebuffers : pos 0 ≤ℤ t.rebuffer_count
  pub rebuffered : pos 0 ≤ℤ t.rebuffer_ms
  pub play_mode : is_valid_play_mode t.play_mode ≡ true
  pub scope :
      (t.network_scope ≡ codes "lan")
      ⊎ (t.network_scope ≡ codes "external")
      ⊎ (t.network_scope ≡ codes "unknown")

stored : (Str → Option Address) → Telemetry → Telemetry
unfolding clamp_telemetry
stored parse_ip t =
    clamp_telemetry (record t { network_scope = classify_network_scope parse_ip t.remote_ip })

scope_of_three :
    (parse_ip : Str → Option Address) (ip : Str)
    → (classify_network_scope parse_ip ip ≡ codes "lan")
      ⊎ (classify_network_scope parse_ip ip ≡ codes "external")
      ⊎ (classify_network_scope parse_ip ip ≡ codes "unknown")
unfolding classify_network_scope
scope_of_three parse_ip ip = ground arith

module _ {D : Type 0} (parse_ip : Str → Option Address)
    (insert : Telemetry → D → D × Option Error) where
  -- A summary is refused with `ErrInvalidInput`, and the database left alone, or what is written
  -- is storable and belongs to the same session, user and Video.
  pub record_telemetry_lem :
      (t : Telemetry) (d : D)
      → ((record_telemetry parse_ip insert t d).0 ≡ d)
          × ((e : Error) × ((record_telemetry parse_ip insert t d).1 ≡ some e)
              × (is Sentinel.invalid_input e ≡ true))
        ⊎ ((k : Telemetry) × IsStorable k
            × (k.session_id ≡ t.session_id)
            × (k.user_id ≡ t.user_id)
            × (k.video_id ≡ t.video_id)
            × (record_telemetry parse_ip insert t d ≡ wrapped_write (insert k d)))
  unfolding record_telemetry is stored
  record_telemetry_lem t d =
      elim (Bool-cases (is_empty t.session_id || is_empty t.user_id || is_empty t.video_id)) [
        | inl e ↦ inl (
          rw e,
          (
            Error.invalid_param (codes "telemetry requires session_id, video_id and a user"),
            rw e,
            refl,
          ),
        )
        | inr e ↦ elim (Bool-cases (not (is_valid_play_mode t.play_mode))) [
          | inl e₂ ↦ inl (
            rw (e, e₂),
            (Error.invalid_param (codes "invalid play_mode " ++ t.play_mode), rw (e, e₂), refl),
          )
          | inr e₂ ↦ inr (
            stored parse_ip t,
            record {
              watched = ground arith;
              rebuffers = ground arith;
              rebuffered = ground arith;
              play_mode = ground arith;
              scope = scope_of_three parse_ip t.remote_ip;
            },
            refl,
            refl,
            refl,
            rw (e, e₂),
          )
        ]
      ]

-- Progress counts as completed exactly from nine tenths of a known, positive duration on, and only
-- what the user reported is written.
pub is_completed_iff :
    (progress duration : ℕ)
    → (is_completed progress duration ≡ true) ↔ ((0 < duration) × (9 * duration ≤ 10 * progress))
unfolding is_completed
is_completed_iff progress duration = (λ e. ground arith, λ h. ground arith)
