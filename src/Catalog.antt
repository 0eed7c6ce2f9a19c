-- ===== src/Catalog.antt =====
-- What the pages of the program list, with the URLs of their pictures: Videos
-- (internal/service/video_service.go), Tags, Favorites, Recommendations and the history. The
-- repositories and the object store are arguments over a state `D`, the cache of URLs included.
pub mod Videos
pub mod Tags
pub mod Lists
use vaultflix.Base.{Str, is_empty, if◌then◌else◌, List, [], ◌∷◌, All, map, ◌≡◌, refl}
use vaultflix.Errors.{Error, Result, ok, err}

-- `GenerateThumbnailPresignedURL` or `GeneratePreviewPresignedURL`, for the default lifetime.
abbrev pub Signer : Type 0 → Type 0
Signer D = Str → D → D × Result Str

module _ {D : Type 0} where
  abbrev url_or_none : D × Result Str → D × Str
  url_or_none (d, ok url) = (d, url)
  url_or_none (d, err e) = (d, [])

  -- The URL of a picture: empty where the Video has none, and where the signing fails, which is
  -- only logged.
  unfoldable pub url_of : Signer D → Str → D → D × Str
  unfolding is_empty
  url_of sign key d = if is_empty key then (d, []) else url_or_none (sign key d)

  -- A loop over the rows that builds one item of each.
  unfoldable pub each : {A B : Type 0} → (A → D → D × B) → List A → D → D × List B
  each f [] d = (d, [])
  each f (a ∷ rows) d = let (d₁, b) = f a d in let (d₂, bs) = each f rows d₁ in (d₂, b ∷ bs)

module _ {D A B : Type 0} where
  -- the rows that a loop lists, read off its items
  pub each-map :
      {C : Type 0} (f : A → D → D × B) (of_item : B → C) (of_row : A → C)
      → ((a : A) (d : D) → of_item (f a d).1 ≡ of_row a)
      → (rows : List A) (d : D) → map of_item (each f rows d).1 ≡ map of_row rows
  unfolding each
  each-map f of_item of_row h [] d = refl
  each-map f of_item of_row h (a ∷ rows) d =
      rw (h a d, each-map f of_item of_row h rows (f a d).0) refl

  -- what every item of a loop has
  pub each-All :
      (P : B → Type 0) (f : A → D → D × B)
      → ((a : A) (d : D) → P (f a d).1)
      → (rows : List A) (d : D) → All P (each f rows d).1
  unfolding each
  each-All P f h [] d = tt
  each-All P f h (a ∷ rows) d = (h a d, each-All P f h rows (f a d).0)

-- a picture that is not there has no URL
pub url_of-none : {D : Type 0} (sign : Signer D) (d : D) → url_of sign [] d ≡ (d, [])
unfolding url_of is_empty
url_of-none sign d = refl
