-- ===== src/ObjectStore.antt =====
-- `minIOService` (internal/service/minio_service.go). The files, the MinIO client and the signing
-- client are arguments; the state is the store's and the cache of URLs. A time is a number of
-- nanoseconds.
pub mod Calls
pub mod Signed
use vaultflix.Base.{
  ℕ, ◌+◌, ◌-◌, ◌==◌, Str, codes, Bool, true, false, ltb, if◌then◌else◌, Option, none, some, ◌++◌,
}
use vaultflix.Errors.{Error, Result, ok, err, wrapped_write}
use vaultflix.UrlCache.{UrlCache, get, set}

-- `2 * time.Hour`
abbrev pub default_presigned_expiry : ℕ
default_presigned_expiry = 7_200_000_000_000

-- `5 * time.Minute`
abbrev pub presign_cache_leeway : ℕ
presign_cache_leeway = 300_000_000_000

-- The buckets of the service.
pub record Buckets : Type 0 where
  pub video : Str
  pub thumbnail : Str
  pub preview : Str

-- What the service calls: `os.Open` and `Stat`, which give a file's size; `PutObject` and
-- `RemoveObject`, over the objects `O`; and `PresignedGetObject`, which gives the request part of a
-- URL for a bucket, an object, a lifetime and the time of the call.
pub record Minio (O : Type 0) : Type 0 where
  pub open_size : Str → Result ℕ
  pub put_object : Str → Str → Str → ℕ → Str → O → O × Option Error
  pub remove_object : Str → Str → O → O × Option Error
  pub presigned_get_object : Str → Str → ℕ → ℕ → Result Str

-- The clock, as one call reads it: at the look into the cache, at the signing and at the storing.
pub record Clock : Type 0 where
  pub looked : ℕ
  pub signed : ℕ
  pub stored : ℕ

-- `toRelativeMinIOURL`, of the URL's `RequestURI`.
unfoldable pub to_relative_minio_url : Str → Str
to_relative_minio_url request_uri = codes "/minio" ++ request_uri

unfoldable pub expiry_or_default : ℕ → ℕ
expiry_or_default expiry = if expiry == 0 then default_presigned_expiry else expiry

abbrev relative : Result Str → Result Str
relative (ok uri) = ok (to_relative_minio_url uri)
relative (err e) = err (Error.wrap e)

-- What is signed goes into the cache, unless it would be within the leeway at once.
unfoldable pub remember : Str → Str → ℕ → ℕ → UrlCache → UrlCache
unfolding set
remember cache_key url expiry now cache =
    if ltb presign_cache_leeway expiry
    then set cache_key url (expiry - presign_cache_leeway) now cache
    else cache

module _ {O : Type 0} (m : Minio O) (b : Buckets) where
  -- The five uploads differ in the bucket and in the type that they store.
  unfoldable pub upload : Str → Str → Str → Str → O → O × Option Error
  upload bucket content_type object_key file_path o = elim (m.open_size file_path) [
    | err e ↦ (o, some (Error.wrap e))
    | ok size ↦ wrapped_write (m.put_object bucket object_key file_path size content_type o)
  ]

  unfoldable pub upload_video : Str → Str → O → O × Option Error
  unfolding upload
  upload_video object_key file_path o = upload b.video (codes "") object_key file_path o

  unfoldable pub upload_thumbnail : Str → Str → O → O × Option Error
  unfolding upload
  upload_thumbnail object_key file_path o =
      upload b.thumbnail (codes "image/jpeg") object_key file_path o

  unfoldable pub upload_preview : Str → Str → O → O × Option Error
  unfolding upload
  upload_preview object_key file_path o =
      upload b.preview (codes "video/mp4") object_key file_path o

  unfoldable pub upload_image : Str → Str → O → O × Option Error
  unfolding upload
  upload_image object_key file_path o =
      upload b.thumbnail (codes "image/jpeg") object_key file_path o

  unfoldable pub upload_cover : Str → Str → O → O × Option Error
  unfolding upload_image
  upload_cover object_key file_path o = upload_image object_key file_path o

  unfoldable pub upload_actress_avatar : Str → Str → O → O × Option Error
  unfolding upload_image
  upload_actress_avatar object_key file_path o = upload_image object_key file_path o

  unfoldable pub delete_object : Str → Str → O → O × Option Error
  delete_object bucket object_key o = wrapped_write (m.remove_object bucket object_key o)

  unfoldable pub delete_video : Str → O → O × Option Error
  unfolding delete_object
  delete_video object_key o = delete_object b.video object_key o

  unfoldable pub delete_thumbnail : Str → O → O × Option Error
  unfolding delete_object
  delete_thumbnail object_key o = delete_object b.thumbnail object_key o

  unfoldable pub delete_preview : Str → O → O × Option Error
  unfolding delete_object
  delete_preview object_key o = delete_object b.preview object_key o

  unfoldable pub generate_presigned_url : Str → ℕ → ℕ → Result Str
  unfolding expiry_or_default to_relative_minio_url
  generate_presigned_url object_key expiry now =
      relative (m.presigned_get_object b.video object_key (expiry_or_default expiry) now)

  -- `presignCached`. The label of its error is left out with the words of every
  -- wrap.
  unfoldable pub presign_cached : Str → Str → Str → ℕ → Clock → UrlCache → UrlCache × Result Str
  presign_cached bucket cache_prefix object_key expiry clock cache =
      let cache_key = cache_prefix ++ codes ":" ++ object_key in
      let (looked, cached) = get cache_key clock.looked cache in
      elim cached [
        | some url ↦ (looked, ok url)
        | none ↦
            elim (m.presigned_get_object bucket object_key (expiry_or_default expiry)
              clock.signed) [
                | err e ↦ (looked, err (Error.wrap e))
                | ok uri ↦
                    let url = to_relative_minio_url uri in
                    (remember cache_key url (expiry_or_default expiry) clock.stored looked, ok url)
              ]
      ]

  unfoldable pub generate_thumbnail_presigned_url :
      Str → ℕ → Clock → UrlCache → UrlCache × Result Str
  generate_thumbnail_presigned_url object_key expiry clock cache =
      presign_cached b.thumbnail (codes "thumb") object_key expiry clock cache

  unfoldable pub generate_preview_presigned_url : Str → ℕ → Clock → UrlCache → UrlCache × Result Str
  generate_preview_presigned_url object_key expiry clock cache =
      presign_cached b.preview (codes "preview") object_key expiry clock cache

  unfoldable pub generate_cover_presigned_url : Str → ℕ → Clock → UrlCache → UrlCache × Result Str
  generate_cover_presigned_url object_key expiry clock cache =
      presign_cached b.thumbnail (codes "cover") object_key expiry clock cache

  unfoldable pub generate_actress_avatar_presigned_url :
      Str → ℕ → Clock → UrlCache → UrlCache × Result Str
  generate_actress_avatar_presigned_url object_key expiry clock cache =
      presign_cached b.thumbnail (codes "avatar") object_key expiry clock cache
