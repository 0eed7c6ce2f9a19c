-- ===== src/Catalog/Tags.antt =====
-- `TagService` (internal/service/tag_service.go).
pub mod Kinds
use vaultflix.Base.{
  ℕ, Str, codes, eq_str, is_empty, Bool, true, false, ◌&&◌, ◌||◌, not, if◌then◌else◌, Option, none,
  some, List,
}
use vaultflix.Errors.{Sentinel, Error, is, Result, ok, err, wrapping, wrapped_write}
use vaultflix.Model.{Video}

-- `model.Tag`
pub record Tag : Type 0 where
  pub id : ℕ
  pub name : Str
  pub category : Str

-- `model.TagWithCount`
pub record TagWithCount : Type 0 where
  pub tag : Tag
  pub video_count : ℕ

-- What the service calls of the two repositories. `create` returns the Tag with its ID.
pub record TagRepository (D : Type 0) : Type 0 where
  pub list : Str → D → Result (List TagWithCount)
  pub create : Tag → D → D × Result Tag
  pub get_by_id : ℕ → D → Result Tag
  pub video_by_id : Str → D → Result Video
  pub add_video_tag : Str → ℕ → D → D × Option Error
  pub remove_video_tag : Str → ℕ → D → D × Option Error

unfoldable pub is_allowed_category : Str → Bool
unfolding eq_str
is_allowed_category category =
    eq_str category (codes "genre")
    || eq_str category (codes "actor")
    || eq_str category (codes "studio")
    || eq_str category (codes "custom")

abbrev pub bad_tag_category : Str
bad_tag_category = codes "category must be one of: genre, actor, studio, custom"

-- `missing`
unfoldable pub missing : Error → Str → Error
missing e what =
    if is Sentinel.not_found e then Error.wrap (Error.missing_resource what) else Error.wrap e

abbrev wrapped_result {ℓ κ} : {D : Type ℓ} {A : Type κ} → D × Result A → D × Result A
wrapped_result (d, r) = (d, wrapping r)

module _ {D : Type 0} (r : TagRepository D) where
  unfoldable pub list : Str → D → Result (List TagWithCount)
  unfolding is_allowed_category is_empty
  list category d =
      if not (is_empty category) && not (is_allowed_category category)
      then err (Error.invalid_param bad_tag_category)
      else wrapping (r.list category d)

  unfoldable pub create : Tag → D → D × Result Tag
  unfolding is_allowed_category is_empty
  create tag d =
      let category = if is_empty tag.category then codes "custom" else tag.category in
      if not (is_allowed_category category)
      then (d, err (Error.invalid_param bad_tag_category))
      else wrapped_result (r.create (record tag { category = category }) d)

  abbrev added : D × Option Error → D × Result Bool
  added (d, none) = (d, ok true)
  added (d, some e) = if is Sentinel.conflict e then (d, ok false) else (d, err (Error.wrap e))

  -- `AddVideoTag`: whether the Tag is new to the Video.
  unfoldable pub add_video_tag : Str → ℕ → D → D × Result Bool
  unfolding missing
  add_video_tag video_id tag_id d = elim (r.video_by_id video_id d) [
    | err e ↦ (d, err (missing e (codes "video")))
    | ok _ ↦ elim (r.get_by_id tag_id d) [
      | err e ↦ (d, err (missing e (codes "tag")))
      | ok _ ↦ added (r.add_video_tag video_id tag_id d)
    ]
  ]

  unfoldable pub remove_video_tag : Str → ℕ → D → D × Option Error
  remove_video_tag video_id tag_id d = wrapped_write (r.remove_video_tag video_id tag_id d)
