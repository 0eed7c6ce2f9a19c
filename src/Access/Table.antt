-- ===== src/Access/Table.antt =====
-- What the route table grants: which routes a Stream Token reaches, and what a viewer may change.
use mathlib.Core.List.{Memᴰ}
use vaultflix.Base.{
  Str, codes, eq_str, eq_str_iff, Bool, true, not, ◌||◌, ◌&&◌, List, [], ◌∷◌, ◌≡◌, ◌⊎◌, arith, refl,
}
use vaultflix.Base.{Option}
use vaultflix.Errors.{Result}
use vaultflix.Access.Routes.{api_routes}
use vaultflix.Access.Guarded.{serve-Admitted}
use vaultflix.Access.{
  Route, Request, Caller, Claims, User, next, serve, stream_scope, role_viewer, role_admin,
}

-- Every row passes the test.
all : (Route → Bool) → List Route → Bool
all test [] = true
all test (r ∷ rs) = test r && all test rs

all_sound :
    (test : Route → Bool) (rs : List Route) (r : Route)
    → all test rs ≡ true
    → Memᴰ r rs
    → test r ≡ true
unfolding all
all_sound test [] r h m = elim m [ ]
all_sound test (x ∷ rs) r h (Memᴰ.head e) = rw e (ground arith)
all_sound test (x ∷ rs) r h (Memᴰ.tail m) = all_sound test rs r (ground arith) m

abbrev pub IsStreamPath : Str → Type 0
IsStreamPath p =
    (p ≡ codes "/videos/:id/stream")
    ⊎ (p ≡ codes "/videos/:id/hls/index.m3u8")
    ⊎ (p ≡ codes "/videos/:id/hls/:segment")

stream_row : Route → Bool
stream_row r =
    not r.stream_token
    || eq_str r.path (codes "/videos/:id/stream")
    || eq_str r.path (codes "/videos/:id/hls/index.m3u8")
    || eq_str r.path (codes "/videos/:id/hls/:segment")

stream_rows : all stream_row api_routes ≡ true
unfolding all stream_row eq_str
stream_rows = refl

-- What a viewer may call: reads, and writes of the viewer's own history, sessions and favorites.
abbrev pub OwnData : Str → Type 0
OwnData p =
    (p ≡ codes "/watch-history")
    ⊎ (p ≡ codes "/watch-sessions/heartbeat")
    ⊎ (p ≡ codes "/playback/telemetry")
    ⊎ (p ≡ codes "/favorites")
    ⊎ (p ≡ codes "/favorites/:videoId")

viewer_row : Route → Bool
viewer_row r =
    not r.viewer
    || eq_str r.method (codes "GET")
    || eq_str r.path (codes "/watch-history")
    || eq_str r.path (codes "/watch-sessions/heartbeat")
    || eq_str r.path (codes "/playback/telemetry")
    || eq_str r.path (codes "/favorites")
    || eq_str r.path (codes "/favorites/:videoId")

viewer_rows : all viewer_row api_routes ≡ true
unfolding all viewer_row eq_str
viewer_rows = refl

module _ (parse : Str → Option Claims) (get_by_id : Str → Result (Option User)) where
  -- A Stream Token opens, of the whole table, only the three routes that stream one Video, and
  -- there only the Video that the token was issued for.
  pub stream_token_confined :
      (route : Route) (r : Request) (c : Caller)
      → Memᴰ route api_routes
      → serve parse get_by_id route r ≡ next c
      → c.scope ≡ stream_scope
      → IsStreamPath route.path × (c.video_id ≡ r.param_id)
  unfolding stream_row
  stream_token_confined route r c m h e =
      let a = (serve-Admitted parse get_by_id route r c h).allowed.by_token e in
      let row = all_sound stream_row api_routes route stream_rows m in
      ground (
        arith,
        eq_str_iff route.path (codes "/videos/:id/stream"),
        eq_str_iff route.path (codes "/videos/:id/hls/index.m3u8"),
        eq_str_iff route.path (codes "/videos/:id/hls/:segment"),
      )

  -- A viewer changes nothing but their own history, sessions, telemetry and favorites: every
  -- other route of the table that a viewer reaches is a GET.
  pub viewer_reads_only :
      (route : Route) (r : Request) (c : Caller)
      → Memᴰ route api_routes
      → serve parse get_by_id route r ≡ next c
      → c.role ≡ role_viewer
      → (route.method ≡ codes "GET") ⊎ OwnData route.path
  unfolding viewer_row
  viewer_reads_only route r c m h e =
      let a = (serve-Admitted parse get_by_id route r c h).allowed.by_role in
      let row = all_sound viewer_row api_routes route viewer_rows m in
      let ne : ¬ (role_viewer ≡ role_admin) = ground arith in
      ground (
        arith,
        eq_str_iff route.method (codes "GET"),
        eq_str_iff route.path (codes "/watch-history"),
        eq_str_iff route.path (codes "/watch-sessions/heartbeat"),
        eq_str_iff route.path (codes "/playback/telemetry"),
        eq_str_iff route.path (codes "/favorites"),
        eq_str_iff route.path (codes "/favorites/:videoId"),
      )
