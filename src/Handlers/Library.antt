-- ===== src/Handlers/Library.antt =====
-- The handlers of Videos that do not stream (internal/handler/video_handler.go).
use vaultflix.Base.{Str, codes, Option, none, some}
use vaultflix.Errors.{Error, Result, ok, err, as_invalid_param}
use vaultflix.Model.{Video}
use vaultflix.Lanes.{ImportJob}
use vaultflix.Library.{parse_video_filter}
use vaultflix.Catalog.Videos.{
  VideoWithTags, VideoDetail, UpdateVideoInput, Shelf, list, get_by_id, update, delete,
}
use vaultflix.Handlers.{Reply, bad_request, done, answered}
use vaultflix.Handlers.Shelves.{Page, paged}

-- `Import`: the body's Media Source; `start_async` is the Import service's.
unfoldable pub import_ :
    {D : Type 0}
    → (Str → Str → D → D × Result ImportJob)
    → Str
    → Option Str
    → D
    → D × Reply ImportJob
unfolding bad_request
import_ start_async user_id none d = (d, bad_request (codes "source_id is required"))
import_ start_async user_id (some source_id) d =
    answered 202 (codes "start import") (start_async source_id user_id d)

-- `err.Error()` of a refused query, which is always an invalid parameter's message
abbrev query_message : Error → Str
query_message e = elim (as_invalid_param e) [ some m ↦ m | none ↦ codes "" ]

module _ {D : Type 0} (s : Shelf D) where
  -- `List`, for the parameters of the query.
  unfoldable pub list_videos : (Str → Str) → D → D × Reply (Page VideoWithTags)
  unfolding parse_video_filter bad_request
  list_videos query d = elim (parse_video_filter query) [
    | err e ↦ (d, bad_request (query_message e))
    | ok filter ↦ paged (codes "list videos") filter.page filter.page_size (list s filter d)
  ]

  unfoldable pub get_video : Str → Str → D → D × Reply VideoDetail
  get_video id user_id d = answered 200 (codes "get video") (get_by_id s id user_id d)

  -- `Update`: the body's title and description.
  unfoldable pub update_video : Str → Option UpdateVideoInput → D → D × Reply Video
  unfolding bad_request
  update_video id none d = (d, bad_request (codes "title is required"))
  update_video id (some input) d = answered 200 (codes "update video") (update s id input d)

  unfoldable pub delete_video : Str → D → D × Reply Str
  delete_video id d = done Reply.no_content (codes "delete video") (delete s id d)
