-- ===== src/Catalog/Videos.antt =====
-- `VideoService` (internal/service/video_service.go).
pub mod Listed
use vaultflix.Base.{
  ℕ, Str, codes, is_empty, Bool, true, false, not, if◌then◌else◌, Option, none, some, List, [], ◌∷◌,
  ◌++◌, map,
}
use vaultflix.Errors.{Error, Result, ok, err, ◌>>=◌, wrapping}
use vaultflix.Model.{PlayMode, Video}
use vaultflix.Playback.{video_play_mode}
use vaultflix.Library.{VideoFilter}
use vaultflix.Catalog.{Signer, url_of, each}
use vaultflix.Catalog.Tags.{Tag}

-- `model.VideoWithTags`
pub record VideoWithTags : Type 0 where
  pub video : Video
  pub tags : List Tag
  pub thumbnail_url : Str
  pub preview_url : Str

-- `model.VideoDetail`
pub record VideoDetail : Type 0 where
  pub with_tags : VideoWithTags
  pub stream_url : Str
  pub play_mode : PlayMode
  pub is_favorited : Bool
  pub progress_seconds : ℕ

-- `model.UpdateVideoInput`
pub record UpdateVideoInput : Type 0 where
  pub title : Str
  pub description : Str

-- What the service calls. `by_video_ids` is a map from a Video's ID to its Tags, nil where it has
-- none. The last two are the services that `SetUserServices` injects.
pub record Shelf (D : Type 0) : Type 0 where
  pub list_videos : VideoFilter → D → Result (List Video × ℕ)
  pub get_by_id : Str → D → Result Video
  pub update_video : Str → UpdateVideoInput → D → D × Option Error
  pub delete_record : Str → D → D × Option Error
  pub by_video_ids : List Str → D → Result (Str → Option (List Tag))
  pub by_video_id : Str → D → Result (List Tag)
  pub thumbnail_url : Signer D
  pub preview_url : Signer D
  pub generate_presigned_url : Str → Result Str
  pub remove_video : Str → D → D × Option Error
  pub remove_thumbnail : Str → D → D × Option Error
  pub remove_preview : Str → D → D × Option Error
  pub is_favorited : Option (Str → Str → D → Result Bool)
  pub get_progress : Option (Str → Str → D → Result ℕ)

abbrev pub or_no_tags : Option (List Tag) → List Tag
or_no_tags none = []
or_no_tags (some tags) = tags

abbrev or_default {ℓ} : {A : Type ℓ} → A → Result A → A
or_default a (ok b) = b
or_default a (err e) = a

module _ {D : Type 0} (s : Shelf D) where
  -- One round of the loop of `List`, the map of the Tags first.
  unfoldable pub with_urls : (Str → Option (List Tag)) → Video → D → D × VideoWithTags
  unfolding url_of
  with_urls tag_map v d =
      let (d₁, thumbnail) = url_of s.thumbnail_url v.thumbnail_key d in
      let (d₂, preview) = url_of s.preview_url v.preview_key d₁ in
      (
        d₂,
        record {
          video = v;
          tags = or_no_tags (tag_map v.id);
          thumbnail_url = thumbnail;
          preview_url = preview;
        },
      )

  -- From the Tags on; without Videos they are not looked up.
  unfoldable pub list_page : List Video → ℕ → D → D × Result (List VideoWithTags × ℕ)
  list_page [] total d = (d, ok ([], total))
  list_page (v ∷ vs) total d = elim (s.by_video_ids (map (λ v. v.id) (v ∷ vs)) d) [
    | err e ↦ (d, err (Error.wrap e))
    | ok tag_map ↦
        let (done, items) = each (with_urls tag_map) (v ∷ vs) d in (done, ok (items, total))
  ]

  unfoldable pub list : VideoFilter → D → D × Result (List VideoWithTags × ℕ)
  list filter d = elim (s.list_videos filter d) [
    | err e ↦ (d, err (Error.wrap e))
    | ok (videos, total) ↦ list_page videos total d
  ]

  -- `detail.IsFavorited` and `detail.ProgressSeconds`: nothing without a user, without the service
  -- or where it fails, which is only logged.
  unfoldable pub user_data {ℓ} :
      {A : Type ℓ} → A → Option (Str → Str → D → Result A) → Str → Str → D → A
  user_data default none user_id id d = default
  user_data default (some look) user_id id d =
      if is_empty user_id then default else or_default default (look user_id id d)

  unfoldable pub get_by_id : Str → Str → D → D × Result VideoDetail
  unfolding url_of user_data
  get_by_id id user_id d = elim (s.get_by_id id d) [
    | err e ↦ (d, err (Error.wrap e))
    | ok video ↦ elim (s.by_video_id id d) [
      | err e ↦ (d, err (Error.wrap e))
      | ok tags ↦
          let (d₁, thumbnail) = url_of s.thumbnail_url video.thumbnail_key d in
          let (d₂, preview) = url_of s.preview_url video.preview_key d₁ in
          (
            d₂,
            ok (record {
              with_tags = record {
                video = video;
                tags = tags;
                thumbnail_url = thumbnail;
                preview_url = preview;
              };
              stream_url = codes "/api/videos/" ++ id ++ codes "/stream";
              play_mode = video_play_mode video;
              is_favorited = user_data false s.is_favorited user_id id d₂;
              progress_seconds = user_data 0 s.get_progress user_id id d₂;
            }),
          )
    ]
  ]

  unfoldable pub get_presigned_url : Str → Result Str
  get_presigned_url object_key = s.generate_presigned_url object_key

  unfoldable pub update : Str → UpdateVideoInput → D → D × Result Video
  update id input d =
      let (updated, failed) = s.update_video id input d in
      elim failed [
        | some e ↦ (updated, err (Error.wrap e))
        | none ↦ (updated, wrapping (s.get_by_id id updated))
      ]

  -- An object of the deleted Video; an error of the store is only logged.
  unfoldable pub remove_object : (Str → D → D × Option Error) → Str → D → D
  unfolding is_empty
  remove_object remove key d = if is_empty key then d else (remove key d).0

  -- The cleanup of `Delete`.
  unfoldable pub remove_objects : Video → D → D
  unfolding remove_object
  remove_objects video d = remove_object s.remove_preview video.preview_key (
      remove_object s.remove_thumbnail video.thumbnail_key
        (remove_object s.remove_video video.minio_object_key d))

  unfoldable pub delete : Str → D → D × Option Error
  unfolding remove_objects
  delete id d = elim (s.get_by_id id d) [
    | err e ↦ (d, some (Error.wrap e))
    | ok video ↦
        let (deleted, failed) = s.delete_record id d in
        elim failed [
          | some e ↦ (deleted, some (Error.wrap e))
          | none ↦ (remove_objects video deleted, none)
        ]
  ]
