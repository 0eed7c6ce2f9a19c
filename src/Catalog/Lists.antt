-- ===== src/Catalog/Lists.antt =====
-- Favorites (internal/service/favorite_service.go), Recommendations
-- (internal/service/recommendation_service.go) and the list of the history
-- (internal/service/history_service.go).
pub mod Order
use vaultflix.Base.{
  ℕ, suc, Str, codes, Bool, true, false, if◌then◌else◌, Option, none, some, List, [], ◌∷◌,
}
use vaultflix.Base.Int.{ℤ, pos}
use vaultflix.Errors.{Sentinel, Error, is, Result, ok, err, wrapping, wrapped_write}
use vaultflix.Model.{Video}
use vaultflix.Catalog.{Signer, url_of, each}

-- `model.VideoSummary`
pub record VideoSummary : Type 0 where
  pub id : Str
  pub title : Str
  pub thumbnail_key : Str
  pub duration_seconds : ℕ
  pub resolution : Str
  pub file_size_bytes : ℕ
  pub created_at : ℕ

-- `model.VideoSummaryWithURL`
pub record VideoSummaryWithUrl : Type 0 where
  pub id : Str
  pub title : Str
  pub thumbnail_url : Str
  pub duration_seconds : ℕ
  pub resolution : Str
  pub file_size_bytes : ℕ
  pub created_at : ℕ

-- `model.WatchHistoryWithVideo`
pub record WatchHistoryWithVideo : Type 0 where
  pub id : Str
  pub video_id : Str
  pub title : Str
  pub thumbnail_key : Str
  pub duration_seconds : ℕ
  pub progress_seconds : ℕ
  pub completed : Bool
  pub watched_at : ℕ

-- `model.WatchHistoryItem`
pub record WatchHistoryItem : Type 0 where
  pub id : Str
  pub video_id : Str
  pub title : Str
  pub thumbnail_url : Str
  pub duration_seconds : ℕ
  pub progress_seconds : ℕ
  pub completed : Bool
  pub watched_at : ℕ

-- `model.DailyRecommendation`; its date is a day's number.
pub record DailyRecommendation : Type 0 where
  pub id : Str
  pub video_id : Str
  pub recommend_date : ℕ
  pub sort_order : ℤ

-- `model.RecommendationWithVideo`
pub record RecommendationWithVideo : Type 0 where
  pub id : Str
  pub video_id : Str
  pub recommend_date : ℕ
  pub sort_order : ℤ
  pub title : Str
  pub thumbnail_key : Str
  pub preview_key : Str
  pub duration_seconds : ℕ
  pub resolution : Str
  pub file_size_bytes : ℕ

-- `model.RecommendationItem`
pub record RecommendationItem : Type 0 where
  pub id : Str
  pub video_id : Str
  pub title : Str
  pub thumbnail_url : Str
  pub preview_url : Str
  pub duration_seconds : ℕ
  pub resolution : Str
  pub file_size_bytes : ℕ
  pub sort_order : ℤ
  pub is_fallback : Bool

-- What the three services call of the repositories and of the object store.
pub record Rows (D : Type 0) : Type 0 where
  pub add_favorite : Str → Str → D → D × Option Error
  pub remove_favorite : Str → Str → D → D × Option Error
  pub favorite_exists : Str → Str → D → Result Bool
  pub favorites_by_user : Str → ℕ → ℕ → D → Result (List VideoSummary × ℕ)
  pub history_by_user : Str → ℕ → ℕ → D → Result (List WatchHistoryWithVideo × ℕ)
  pub delete_history : Str → D → D × Result ℕ
  pub recommendations_by_date : ℕ → D → Result (List RecommendationWithVideo)
  pub random_unwatched : Str → ℕ → D → Result (List Video)
  pub create_recommendation : DailyRecommendation → D → D × Result DailyRecommendation
  pub update_order : Str → ℤ → D → D × Option Error
  pub delete_recommendation : Str → D → D × Option Error
  pub video_by_id : Str → D → Result Video
  pub thumbnail_url : Signer D
  pub preview_url : Signer D

module _ {D : Type 0} (r : Rows D) where
  -- `favoriteService.Add`: a Favorite that is there already is a success.
  unfoldable pub add : Str → Str → D → D × Option Error
  add user_id video_id d =
      let (added, failed) = r.add_favorite user_id video_id d in
      elim failed [
        | none ↦ (added, none)
        | some e ↦ (added, if is Sentinel.already_exists e then none else some (Error.wrap e))
      ]

  unfoldable pub remove : Str → Str → D → D × Option Error
  remove user_id video_id d = wrapped_write (r.remove_favorite user_id video_id d)

  unfoldable pub is_favorited : Str → Str → D → Result Bool
  is_favorited user_id video_id d = wrapping (r.favorite_exists user_id video_id d)

  unfoldable pub summary_item : VideoSummary → D → D × VideoSummaryWithUrl
  unfolding url_of
  summary_item v d =
      let (done, url) = url_of r.thumbnail_url v.thumbnail_key d in
      (
        done,
        record {
          id = v.id;
          title = v.title;
          thumbnail_url = url;
          duration_seconds = v.duration_seconds;
          resolution = v.resolution;
          file_size_bytes = v.file_size_bytes;
          created_at = v.created_at;
        },
      )

  -- `favoriteService.List`
  unfoldable pub list_favorites : Str → ℕ → ℕ → D → D × Result (List VideoSummaryWithUrl × ℕ)
  list_favorites user_id page page_size d = elim (r.favorites_by_user user_id page page_size d) [
    | err e ↦ (d, err (Error.wrap e))
    | ok (rows, total) ↦ let (done, items) = each summary_item rows d in (done, ok (items, total))
  ]

  unfoldable pub history_item : WatchHistoryWithVideo → D → D × WatchHistoryItem
  unfolding url_of
  history_item v d =
      let (done, url) = url_of r.thumbnail_url v.thumbnail_key d in
      (
        done,
        record {
          id = v.id;
          video_id = v.video_id;
          title = v.title;
          thumbnail_url = url;
          duration_seconds = v.duration_seconds;
          progress_seconds = v.progress_seconds;
          completed = v.completed;
          watched_at = v.watched_at;
        },
      )

  -- `watchHistoryService.List`
  unfoldable pub list_history : Str → ℕ → ℕ → D → D × Result (List WatchHistoryItem × ℕ)
  list_history user_id page page_size d = elim (r.history_by_user user_id page page_size d) [
    | err e ↦ (d, err (Error.wrap e))
    | ok (rows, total) ↦ let (done, items) = each history_item rows d in (done, ok (items, total))
  ]

  unfoldable pub clear_history : Str → D → D × Result ℕ
  clear_history user_id d =
      let (cleared, deleted) = r.delete_history user_id d in (cleared, wrapping deleted)

  unfoldable pub recommendation_item : RecommendationWithVideo → D → D × RecommendationItem
  unfolding url_of
  recommendation_item v d =
      let (d₁, thumbnail) = url_of r.thumbnail_url v.thumbnail_key d in
      let (d₂, preview) = url_of r.preview_url v.preview_key d₁ in
      (
        d₂,
        record {
          id = v.id;
          video_id = v.video_id;
          title = v.title;
          thumbnail_url = thumbnail;
          preview_url = preview;
          duration_seconds = v.duration_seconds;
          resolution = v.resolution;
          file_size_bytes = v.file_size_bytes;
          sort_order = v.sort_order;
          is_fallback = false;
        },
      )

  -- an item of the fallback, at its place
  unfoldable pub fallback_item : ℕ → Video → D → D × RecommendationItem
  unfolding url_of
  fallback_item i v d =
      let (d₁, thumbnail) = url_of r.thumbnail_url v.thumbnail_key d in
      let (d₂, preview) = url_of r.preview_url v.preview_key d₁ in
      (
        d₂,
        record {
          id = v.id;
          video_id = v.id;
          title = v.title;
          thumbnail_url = thumbnail;
          preview_url = preview;
          duration_seconds = v.duration_seconds;
          resolution = v.resolution;
          file_size_bytes = v.file_size_bytes;
          sort_order = pos (suc i);
          is_fallback = true;
        },
      )

  -- The loop of the fallback, from the index `i` on.
  unfoldable pub fallback_items : ℕ → List Video → D → D × List RecommendationItem
  fallback_items i [] d = (d, [])
  fallback_items i (v ∷ vs) d =
      let (d₁, item) = fallback_item i v d in
      let (d₂, items) = fallback_items (suc i) vs d₁ in (d₂, item ∷ items)

  unfoldable pub get_today : Str → ℕ → ℕ → D → D × Result (List RecommendationItem)
  get_today user_id date fallback_count d = elim (r.recommendations_by_date date d) [
    | err e ↦ (d, err (Error.wrap e))
    | ok (rec ∷ recs) ↦
        let (done, items) = each recommendation_item (rec ∷ recs) d in (done, ok items)
    | ok [] ↦ elim (r.random_unwatched user_id fallback_count d) [
      | err e ↦ (d, err (Error.wrap e))
      | ok videos ↦ let (done, items) = fallback_items 0 videos d in (done, ok items)
    ]
  ]

  unfoldable pub list_by_date : ℕ → D → D × Result (List RecommendationItem)
  list_by_date date d = elim (r.recommendations_by_date date d) [
    | err e ↦ (d, err (Error.wrap e))
    | ok recs ↦ let (done, items) = each recommendation_item recs d in (done, ok items)
  ]

  -- `recommendationService.Create`; the repository fills in the ID.
  unfoldable pub create : Str → ℕ → ℤ → D → D × Result DailyRecommendation
  create video_id date sort_order d = elim (r.video_by_id video_id d) [
    | err e ↦ (d, err (Error.wrap e))
    | ok _ ↦
        let (created, stored) =
          r.create_recommendation
            (record {
              id = [];
              video_id = video_id;
              recommend_date = date;
              sort_order = sort_order;
            })
            d in
        (created, wrapping stored)
  ]

  unfoldable pub update_sort_order : Str → ℤ → D → D × Option Error
  update_sort_order id sort_order d = wrapped_write (r.update_order id sort_order d)

  unfoldable pub delete : Str → D → D × Option Error
  delete id d = wrapped_write (r.delete_recommendation id d)
