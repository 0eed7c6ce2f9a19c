-- ===== src/Handlers/Shelves.antt =====
-- The handlers of a user's lists: Favorites (internal/handler/favorite_handler.go), the history
-- (internal/handler/history_handler.go), Recommendations
-- (internal/handler/recommendation_handler.go) and Tags (internal/handler/tag_handler.go). A day is
-- its number, and `parse_date` what `time.Parse` reads of one.
use vaultflix.Base.{ℕ, Str, codes, is_empty, Bool, if◌then◌else◌, Option, none, some, List}
use vaultflix.Base.Int.{ℤ, pos, negsuc}
use vaultflix.Errors.{Error, Result, ok, err}
use vaultflix.Library.{default_page_size, max_page_size, positive, within}
use vaultflix.Model.{Video}
use vaultflix.Watching.{WatchHistory, save_progress}
use vaultflix.Catalog.Tags.{Tag, TagWithCount, TagRepository}
use vaultflix.Catalog.Lists.{
  VideoSummaryWithUrl, WatchHistoryItem, RecommendationItem, DailyRecommendation, Rows, add, remove,
  list_favorites, list_history, clear_history, get_today, list_by_date, create, update_sort_order,
  delete,
}
use vaultflix.Catalog.Tags
use vaultflix.Handlers.{Reply, bad_request, refusal, done, answered}

-- `model.PaginatedResponse`
pub record Page (A : Type 0) : Type 0 where
  pub data_ : List A
  pub total : ℕ
  pub page : ℕ
  pub page_size : ℕ

-- A numeric parameter: its default where it is absent, an answer where it is refused.
abbrev number : Str → ℕ → Option ℕ → Option ℕ
number raw default parsed = if is_empty raw then some default else parsed

-- `page` and `page_size`, as both lists read them; the text is the answer's.
unfoldable pub page_params : Str → Str → Str × Option (ℕ × ℕ)
unfolding is_empty positive
page_params page page_size = elim (number page 1 (positive page)) [
  | none ↦ (codes "page must be a positive integer", none)
  | some n ↦ elim (number page_size default_page_size (within max_page_size (positive page_size))) [
    | none ↦ (codes "page_size must be between 1 and 100", none)
    | some k ↦ (codes "", some (n, k))
  ]
]

abbrev pub paged : {D A : Type 0} → Str → ℕ → ℕ → D × Result (List A × ℕ) → D × Reply (Page A)
paged op page page_size (d, err e) = (d, refusal e op)
paged op page page_size (d, ok (items, total)) = (
  d,
  Reply.replied 200 (record { data_ = items; total = total; page = page; page_size = page_size }),
)

module _ {D : Type 0} (r : Rows D) where
  unfoldable pub add_favorite : Str → Option Str → D → D × Reply Str
  unfolding bad_request
  add_favorite user_id none d = (d, bad_request (codes "video_id is required"))
  add_favorite user_id (some video_id) d =
      done (Reply.replied 201 (codes "ok")) (codes "add favorite") (add r user_id video_id d)

  unfoldable pub remove_favorite : Str → Str → D → D × Reply Str
  remove_favorite user_id video_id d =
      done Reply.no_content (codes "remove favorite") (remove r user_id video_id d)

  unfoldable pub favorites : Str → Str → Str → D → D × Reply (Page VideoSummaryWithUrl)
  unfolding bad_request page_params
  favorites user_id page page_size d =
      let (message, read) = page_params page page_size in
      elim read [
        | none ↦ (d, bad_request message)
        | some (n, k) ↦ paged (codes "list favorites") n k (list_favorites r user_id n k d)
      ]

  unfoldable pub history : Str → Str → Str → D → D × Reply (Page WatchHistoryItem)
  unfolding bad_request page_params
  history user_id page page_size d =
      let (message, read) = page_params page page_size in
      elim read [
        | none ↦ (d, bad_request message)
        | some (n, k) ↦ paged (codes "list watch history") n k (list_history r user_id n k d)
      ]

  abbrev cleared : {A : Type 0} → D × Result A → D × Reply A
  cleared (d, ok _) = (d, Reply.no_content)
  cleared (d, err e) = (d, refusal e (codes "clear watch history"))

  unfoldable pub clear : Str → D → D × Reply ℕ
  clear user_id d = cleared (clear_history r user_id d)

  -- The day that is asked for, or `today`.
  unfoldable pub today_recommendations :
      (Str → Option ℕ) → ℕ → Str → Str → Str → D → D × Reply (List RecommendationItem)
  unfolding bad_request is_empty positive
  today_recommendations parse_date today user_id date fallback_count d =
      elim (number date today (parse_date date)) [
        | none ↦ (d, bad_request (codes "date must be in YYYY-MM-DD format"))
        | some day ↦ elim (number fallback_count 5 (within 50 (positive fallback_count))) [
          | none ↦ (d, bad_request (codes "fallback_count must be between 1 and 50"))
          | some count ↦
              answered 200 (codes "get today's recommendations") (get_today r user_id day count d)
        ]
      ]

  unfoldable pub recommendations_of :
      (Str → Option ℕ) → Str → D → D × Reply (List RecommendationItem)
  unfolding bad_request is_empty
  recommendations_of parse_date date d =
      if is_empty date
      then (d, bad_request (codes "date query parameter is required (YYYY-MM-DD)"))
      else elim (parse_date date) [
        | none ↦ (d, bad_request (codes "date must be in YYYY-MM-DD format"))
        | some day ↦ answered 200 (codes "list recommendations") (list_by_date r day d)
      ]

  -- The body's Video, date and sort order.
  unfoldable pub create_recommendation :
      (Str → Option ℕ) → Option (Str × Str × ℤ) → D → D × Reply DailyRecommendation
  unfolding bad_request
  create_recommendation parse_date none d =
      (d, bad_request (codes "video_id and recommend_date are required"))
  create_recommendation parse_date (some (video_id, date, sort_order)) d = elim (parse_date date) [
    | none ↦ (d, bad_request (codes "recommend_date must be in YYYY-MM-DD format"))
    | some day ↦ answered 201 (codes "create recommendation") (create r video_id day sort_order d)
  ]

  unfoldable pub update_order : Str → Option ℕ → D → D × Reply ℕ
  unfolding bad_request
  update_order id none d = (d, bad_request (codes "sort_order is required and must be >= 1"))
  update_order id (some sort_order) d =
      done (Reply.replied 200 sort_order) (codes "update sort order")
        (update_sort_order r id (pos sort_order) d)

  unfoldable pub delete_recommendation : Str → D → D × Reply Str
  delete_recommendation id d = done Reply.no_content (codes "delete recommendation") (delete r id d)

module _ {D : Type 0} where
  -- `HistoryHandler.SaveProgress`: the body's Video and progress.
  unfoldable pub save :
      (Str → Result Video)
      → (WatchHistory → D → D × Option Error)
      → Str
      → Option (Str × ℤ)
      → D
      → D × Reply Str
  unfolding bad_request save_progress
  save get_by_id upsert user_id none d = (d, bad_request (codes "video_id is required"))
  save get_by_id upsert user_id (some (video_id, negsuc n)) d =
      (d, bad_request (codes "progress_seconds must be non-negative"))
  save get_by_id upsert user_id (some (video_id, pos n)) d =
      done (Reply.replied 201 (codes "ok")) (codes "save watch progress")
        (save_progress get_by_id upsert user_id video_id n d)

module _ {D : Type 0} (t : TagRepository D) where
  unfoldable pub tags : Str → D → Reply (List TagWithCount)
  tags category d = elim (Tags.list t category d) [
    | err e ↦ refusal e (codes "list tags")
    | ok found ↦ Reply.replied 200 found
  ]

  -- The body's name and category.
  unfoldable pub create_tag : Option (Str × Str) → D → D × Reply Tag
  unfolding bad_request
  create_tag none d = (d, bad_request (codes "name is required"))
  create_tag (some (name, category)) d =
      answered 201 (codes "create tag")
        (Tags.create t (record { id = 0; name = name; category = category }) d)

  abbrev tagged : Str → ℕ → D × Result Bool → D × Reply (Str × ℕ)
  tagged video_id tag_id (d, err e) = (d, refusal e (codes "add video tag"))
  tagged video_id tag_id (d, ok created) =
      (d, Reply.replied (if created then 201 else 200) (video_id, tag_id))

  unfoldable pub tag_video : Str → Option ℕ → D → D × Reply (Str × ℕ)
  unfolding bad_request
  tag_video video_id none d = (d, bad_request (codes "tag_id is required"))
  tag_video video_id (some tag_id) d =
      tagged video_id tag_id (Tags.add_video_tag t video_id tag_id d)

  unfoldable pub untag_video : Str → Str → D → D × Reply Str
  unfolding bad_request positive
  untag_video video_id tag_id d = elim (positive tag_id) [
    | none ↦ (d, bad_request (codes "invalid tag id"))
    | some id ↦
        done Reply.no_content (codes "remove tag from video")
          (Tags.remove_video_tag t video_id id d)
  ]
