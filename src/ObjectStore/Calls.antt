-- ===== src/ObjectStore/Calls.antt =====
-- The calls that go through the cache of URLs.
use vaultflix.Base.{ℕ, Str, codes, List, [], ◌∷◌, ◌++◌, ◌≡◌, refl, ap, arith}
use vaultflix.Errors.{Result}
use vaultflix.UrlCache.{UrlCache}
use vaultflix.ObjectStore.{
  Minio, Buckets, Clock, presign_cached, generate_thumbnail_presigned_url,
  generate_preview_presigned_url, generate_cover_presigned_url,
  generate_actress_avatar_presigned_url,
}

-- The four operations that go through the cache.
pub data Asset : Type 0 where
  thumbnail preview cover avatar : Asset

abbrev pub bucket_of : Buckets → Asset → Str
bucket_of b Asset.thumbnail = b.thumbnail
bucket_of b Asset.preview = b.preview
bucket_of b Asset.cover = b.thumbnail
bucket_of b Asset.avatar = b.thumbnail

abbrev pub prefix_of : Asset → Str
prefix_of Asset.thumbnail = codes "thumb"
prefix_of Asset.preview = codes "preview"
prefix_of Asset.cover = codes "cover"
prefix_of Asset.avatar = codes "avatar"

abbrev pub key_of : Asset → Str → Str
key_of a object_key = prefix_of a ++ codes ":" ++ object_key

abbrev first : Str → ℕ
first [] = 0
first (c ∷ s) = c

pub key_of_injective : (a c : Asset) (o p : Str) → key_of a o ≡ key_of c p → (a ≡ c) × (o ≡ p)
key_of_injective Asset.thumbnail Asset.thumbnail o p e = (refl, cc e)
key_of_injective Asset.preview Asset.preview o p e = (refl, cc e)
key_of_injective Asset.cover Asset.cover o p e = (refl, cc e)
key_of_injective Asset.avatar Asset.avatar o p e = (refl, cc e)
key_of_injective Asset.thumbnail Asset.preview o p e = absurd (omega (arith, ap first e))
key_of_injective Asset.thumbnail Asset.cover o p e = absurd (omega (arith, ap first e))
key_of_injective Asset.thumbnail Asset.avatar o p e = absurd (omega (arith, ap first e))
key_of_injective Asset.preview Asset.thumbnail o p e = absurd (omega (arith, ap first e))
key_of_injective Asset.preview Asset.cover o p e = absurd (omega (arith, ap first e))
key_of_injective Asset.preview Asset.avatar o p e = absurd (omega (arith, ap first e))
key_of_injective Asset.cover Asset.thumbnail o p e = absurd (omega (arith, ap first e))
key_of_injective Asset.cover Asset.preview o p e = absurd (omega (arith, ap first e))
key_of_injective Asset.cover Asset.avatar o p e = absurd (omega (arith, ap first e))
key_of_injective Asset.avatar Asset.thumbnail o p e = absurd (omega (arith, ap first e))
key_of_injective Asset.avatar Asset.preview o p e = absurd (omega (arith, ap first e))
key_of_injective Asset.avatar Asset.cover o p e = absurd (omega (arith, ap first e))

-- one call of the operation of an asset
pub record Call : Type 0 where
  pub asset : Asset
  pub object_key : Str
  pub expiry : ℕ
  pub clock : Clock

module _ {O : Type 0} (m : Minio O) (b : Buckets) where
  unfoldable pub presign : Asset → Str → ℕ → Clock → UrlCache → UrlCache × Result Str
  presign a o expiry clock cache =
      presign_cached m b (bucket_of b a) (prefix_of a) o expiry clock cache

  -- the operation of each asset
  operation : Asset → Str → ℕ → Clock → UrlCache → UrlCache × Result Str
  operation Asset.thumbnail = generate_thumbnail_presigned_url m b
  operation Asset.preview = generate_preview_presigned_url m b
  operation Asset.cover = generate_cover_presigned_url m b
  operation Asset.avatar = generate_actress_avatar_presigned_url m b

  unfoldable pub generate : Call → UrlCache → UrlCache × Result Str
  unfolding operation
  generate c cache = operation c.asset c.object_key c.expiry c.clock cache

  operation-presign :
      (a : Asset) (o : Str) (expiry : ℕ) (clock : Clock) (cache : UrlCache)
      → operation a o expiry clock cache ≡ presign a o expiry clock cache
  unfolding operation presign generate_thumbnail_presigned_url generate_preview_presigned_url
      generate_cover_presigned_url generate_actress_avatar_presigned_url
  operation-presign Asset.thumbnail o expiry clock cache = refl
  operation-presign Asset.preview o expiry clock cache = refl
  operation-presign Asset.cover o expiry clock cache = refl
  operation-presign Asset.avatar o expiry clock cache = refl

  pub generate-presign :
      (c : Call) (cache : UrlCache)
      → generate c cache ≡ presign c.asset c.object_key c.expiry c.clock cache
  unfolding generate
  generate-presign c cache = operation-presign c.asset c.object_key c.expiry c.clock cache

  -- the cache after a run of calls
  unfoldable pub after : List Call → UrlCache → UrlCache
  after [] cache = cache
  after (c ∷ cs) cache = after cs (generate c cache).0
