-- ===== src/Lib.antt =====
-- Vaultflix: a self-hosted video library, verified.
--
-- The server scans Media Sources into Videos, derives what playback and search need of each, and
-- streams them to signed-in users. This library models the Go code of the server.
--
-- Requests. cmd/server/main.go puts `JWTAuth` and `RequireActiveUser` before the routes of
-- cmd/server/routes.go, each behind its guard: `Access` holds the middleware
-- (internal/middleware), `Access.Routes` the table. `Accounts` holds the logins and Stream Tokens
-- (internal/service/auth_service.go, user_service.go), `Errors` the errors of internal/model and
-- `Errors.Http` the table that turns them into answers (internal/handler/errors.go). `Library`
-- reads the query of a Library page (internal/service/video_filter.go).
--
-- Jobs. `Jobs` is the Job Lane (internal/service/job_runner.go): each critical section with the
-- report that follows it is one step, the goroutine of a Job is a program counter, and its steps
-- interleave freely with starts and cancellations. `Lanes` holds the services that run Jobs on it
-- (import_service.go, import_job.go, backfill_runner.go, enrichment_batch.go) and `Lanes.Items`
-- what one item does (import_file.go). `Lanes.Scan` finds the files of an Import, and
-- `Lanes.Messages` holds what the reporters of the three services send to the browser.
--
-- Streaming. `Playback` resolves a Video to a file and a Play Mode (video_playback.go,
-- play_mode.go, media_source_resolve.go, with the paths of `Paths`), `Playback.Hls` serves its
-- manifest and segments (hls_service.go). `Keyframes` decides when a file is probed
-- (keyframe_service.go). `Streaming.Segments` cuts a Video at its keyframes, `Streaming.Names` and
-- `Streaming.Manifest` name and list the segments, `Streaming.Cache` is the cache of their files,
-- `Streaming.Generator` cuts one out with ffmpeg and `Streaming.Probe` reads ffprobe's keyframes,
-- both with the decimals of `Streaming.Decimal` (internal/streaming).
--
-- Metadata. `Enrichment` merges what the sources say (internal/scraper/aggregator.go),
-- `Enrichment.Video` enriches one Video and `Enrichment.Review` accepts and rejects suggestions
-- (internal/service/enrichment_service.go, enrichment_accept_reject.go).
--
-- Media. `Media` derives Media Info, Thumbnails and Previews (media_processor.go, asset_keys.go),
-- `Media.Clips` runs ffmpeg with its temp files (media_tool.go, preview_clip.go), and
-- `Media.Backfills` holds what the four kinds of Backfill do (preview_backfill.go,
-- codec_backfill.go, keyframe_backfill.go, code_backfill.go).
--
-- Pages. `Catalog` lists Videos, Tags, Favorites, Recommendations and the history with the URLs
-- of their pictures (video_service.go, tag_service.go, favorite_service.go,
-- recommendation_service.go, history_service.go). `ObjectStore` uploads, deletes and signs
-- (minio_service.go), with `UrlCache` for what it signed (url_cache.go). `Handlers` holds the
-- handlers of these pages, of Jobs, of playlists and of a Video's bytes, and Media Sources with
-- their service (internal/handler, media_source_service.go). `Analytics` puts the report of the
-- views together (analytics_service.go).
--
-- Around playback. `Watching` takes progress, heartbeats and telemetry, `Websocket` is the hub of
-- the connections (internal/websocket/hub.go).
--
-- Conventions. Repositories, ffmpeg, bcrypt, JWT and the MinIO client are arguments, over an
-- abstract state; so are `avid.ExtractCode`, gin's binding of a body and the decoding of
-- ffprobe's JSON. An operation that writes a log line is modelled without it. An error is what
-- `errors.Is` and `errors.As` see of it. A string is the list of its code points. Times are
-- natural numbers; positions in a Video are microseconds, without the rounding of float64, also
-- where `Streaming.Decimal` reads and prints them as `strconv` does. A `Get` of the URL cache is
-- one step in its runs. A map is a list in the order in which Go may walk it.
--
-- Steps. In `Jobs` the `select` of the loop, which takes no lock, is a step of its own, so that a
-- Cancel may come between it and the start of an item. `Lines` splits the texts of playlists and
-- of ffprobe.
--
-- Fuel. The eviction loop of `Streaming.Cache` takes the number of Videos as fuel, since each
-- round drops one. `Base.Text` takes the number itself as fuel for its digits. The steps
-- that a Job needs to free its lane are computed from its state, in `Jobs.Liveness`.
--
-- Not modelled: SQL, the decoding and encoding of bodies, byte ranges, the scraping of HTML,
-- configuration and startup, the web frontend, the pumps of a connection, and the
-- handlers of accounts, of the list of Suggestions, of a session's telemetry and of WebSocket.
pub mod Base
pub mod Errors
pub mod Access
pub mod Model
pub mod Jobs
pub mod Streaming
pub mod UrlCache
pub mod ObjectStore
pub mod Catalog
pub mod Analytics
pub mod Media
pub mod Handlers
pub mod Watching
pub mod Websocket
pub mod Library
pub mod Lines
pub mod Paths
pub mod Playback
pub mod Keyframes
pub mod Enrichment
pub mod Lanes
pub mod Accounts
mod Examples
