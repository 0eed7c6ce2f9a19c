-- ===== src/Access/Routes.antt =====
-- The table of the protected /api routes (cmd/server/routes.go). A handler is its name in the source.
use vaultflix.Base.{codes, Bool, true, false, List, [], ◌∷◌, ◌++◌}
use Prim.Native.String.{String}
use vaultflix.Access.{Route}

-- The `access` arguments of a row: none is admin-only.
pub data Rights : Type 0 where
  admin_only viewer viewer_and_stream_token : Rights

abbrev pub may_view : Rights → Bool
may_view admin_only = false
may_view _ = true

abbrev pub may_stream : Rights → Bool
may_stream viewer_and_stream_token = true
may_stream _ = false

abbrev pub route : String → String → String → Rights → Route
route method path handler rights = record {
  method = codes method;
  path = codes path;
  handler = codes handler;
  viewer = may_view rights;
  stream_token = may_stream rights;
}

abbrev pub library_routes : List Route
library_routes =
    route "GET" "/me" "auth.Me" viewer
    ∷ route "GET" "/videos" "video.List" viewer
    ∷ route "GET" "/videos/:id" "video.GetByID" viewer
    ∷ route "PUT" "/videos/:id" "video.Update" admin_only
    ∷ route "DELETE" "/videos/:id" "video.Delete" admin_only
    ∷ route "POST" "/videos/import" "video.Import" admin_only
    ∷ route "GET" "/import-jobs/active" "video.GetActiveImportJob" admin_only
    ∷ route "GET" "/import-jobs/:id" "video.GetImportJob" admin_only
    ∷ route "POST" "/import-jobs/:id/cancel" "video.CancelImportJob" admin_only
    ∷ route "POST" "/videos/:id/tags" "tag.AddVideoTag" admin_only
    ∷ route "DELETE" "/videos/:id/tags/:tagId" "tag.RemoveVideoTag" admin_only
    ∷ route "GET" "/tags" "tag.List" viewer
    ∷ route "POST" "/tags" "tag.Create" admin_only
    ∷ []

abbrev pub playback_routes : List Route
playback_routes =
    route "GET" "/videos/:id/stream" "video.Stream" viewer_and_stream_token
    ∷ route "GET" "/videos/:id/hls/index.m3u8" "hls.Playlist" viewer_and_stream_token
    ∷ route "GET" "/videos/:id/hls/:segment" "hls.Segment" viewer_and_stream_token
    ∷ route "GET" "/videos/:id/stream-token" "auth.StreamToken" viewer
    ∷ []

abbrev pub watching_routes : List Route
watching_routes =
    route "POST" "/watch-history" "history.SaveProgress" viewer
    ∷ route "GET" "/watch-history" "history.List" viewer
    ∷ route "DELETE" "/watch-history" "history.ClearHistory" viewer
    ∷ route "POST" "/watch-sessions/heartbeat" "watchSession.Heartbeat" viewer
    ∷ route "POST" "/playback/telemetry" "playbackTelemetry.Record" viewer
    ∷ route "GET" "/admin/playback/telemetry" "playbackTelemetry.Summary" admin_only
    ∷ route "GET" "/favorites" "favorite.List" viewer
    ∷ route "POST" "/favorites" "favorite.Add" viewer
    ∷ route "DELETE" "/favorites/:videoId" "favorite.Remove" viewer
    ∷ route "GET" "/ws" "ws.HandleWebSocket" viewer
    ∷ []

abbrev pub admin_routes : List Route
admin_routes =
    route "GET" "/users" "user.List" admin_only
    ∷ route "POST" "/users" "user.Create" admin_only
    ∷ route "DELETE" "/users/:id" "user.Delete" admin_only
    ∷ route "PUT" "/users/:id/enable" "user.Enable" admin_only
    ∷ route "PUT" "/users/:id/password" "user.ResetPassword" admin_only
    ∷ route "GET" "/recommendations/today" "recommendation.GetToday" viewer
    ∷ route "GET" "/recommendations" "recommendation.ListByDate" admin_only
    ∷ route "POST" "/recommendations" "recommendation.Create" admin_only
    ∷ route "PUT" "/recommendations/:id" "recommendation.UpdateSortOrder" admin_only
    ∷ route "DELETE" "/recommendations/:id" "recommendation.Delete" admin_only
    ∷ route "GET" "/media-sources" "mediaSource.List" admin_only
    ∷ route "POST" "/media-sources" "mediaSource.Create" admin_only
    ∷ route "PUT" "/media-sources/:id" "mediaSource.Update" admin_only
    ∷ route "DELETE" "/media-sources/:id" "mediaSource.Delete" admin_only
    ∷ route "POST" "/admin/backfill-jobs" "backfill.Start" admin_only
    ∷ route "GET" "/admin/backfill-jobs/active" "backfill.GetActive" admin_only
    ∷ route "POST" "/admin/backfill-jobs/:id/cancel" "backfill.Cancel" admin_only
    ∷ route "GET" "/admin/analytics" "analytics.Get" admin_only
    ∷ []

abbrev pub enrichment_routes : List Route
enrichment_routes =
    route "POST" "/videos/:id/enrich" "enrichment.EnrichVideo" admin_only
    ∷ route "GET" "/videos/:id/suggestions" "enrichment.ListSuggestions" admin_only
    ∷ route "POST" "/videos/:id/suggestions/:sid/accept" "enrichment.AcceptSuggestion" admin_only
    ∷ route "DELETE" "/videos/:id/suggestions/:sid" "enrichment.RejectSuggestion" admin_only
    ∷ route "POST" "/enrich-jobs" "enrichment.StartBatch" admin_only
    ∷ route "GET" "/enrich-jobs/active" "enrichment.ActiveJob" admin_only
    ∷ route "DELETE" "/enrich-jobs/:jid" "enrichment.CancelBatch" admin_only
    ∷ []

abbrev pub api_routes : List Route
api_routes =
    library_routes ++ (playback_routes ++ (watching_routes ++ (admin_routes ++ enrichment_routes)))
