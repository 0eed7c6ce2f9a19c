-- ===== src/Enrichment.antt =====
-- Enrichment of Videos with metadata from outside: the records (internal/model/enrichment.go), the
-- merge of sources (internal/scraper/aggregator.go), the enrichment of one Video (Enrichment/Video)
-- and the review of Suggestions (Enrichment/Review).
pub mod Merging
pub mod Video
pub mod Review
use vaultflix.Base.{
  ℕ, ◌==◌, Str, is_empty, Bool, true, false, if◌then◌else◌, Option, none, some, List, [], ◌∷◌,
}

-- `model.ActressMeta`
pub record ActressMeta : Type 0 where
  pub name_ja : Str
  pub name_romaji : Str
  pub avatar_url : Str
  pub avatar_key : Str

-- `model.EnrichedMetadata`
pub record EnrichedMetadata : Type 0 where
  pub code : Str
  pub title : Str
  pub release_date : Option ℕ
  pub runtime_minutes : ℕ
  pub maker : Str
  pub label : Str
  pub series : Str
  pub genres : List Str
  pub actresses : List ActressMeta
  pub cover_url : Str
  pub cover_key : Str

-- `scraper.SourceResult`; a nil `Data` is `none`.
pub record SourceResult : Type 0 where
  pub source : Str
  pub data_ : Option EnrichedMetadata

abbrev pub no_metadata : EnrichedMetadata
no_metadata = record {
  code = [];
  title = [];
  release_date = none;
  runtime_minutes = 0;
  maker = [];
  label = [];
  series = [];
  genres = [];
  actresses = [];
  cover_url = [];
  cover_key = [];
}

abbrev pub is_nil {ℓ} : {A : Type ℓ} → List A → Bool
is_nil [] = true
is_nil (_ ∷ _) = false

abbrev pub is_none {ℓ} : {A : Type ℓ} → Option A → Bool
is_none none = true
is_none (some _) = false

-- The body of the loop, for data that is not nil.
unfoldable pub fill : EnrichedMetadata → EnrichedMetadata → EnrichedMetadata
fill out d = record {
  code = if is_empty out.code then d.code else out.code;
  title = if is_empty out.title then d.title else out.title;
  release_date = if is_none out.release_date then d.release_date else out.release_date;
  runtime_minutes = if out.runtime_minutes == 0 then d.runtime_minutes else out.runtime_minutes;
  maker = if is_empty out.maker then d.maker else out.maker;
  label = if is_empty out.label then d.label else out.label;
  series = if is_empty out.series then d.series else out.series;
  genres = if is_nil out.genres then d.genres else out.genres;
  actresses = if is_nil out.actresses then d.actresses else out.actresses;
  cover_url = if is_empty out.cover_url then d.cover_url else out.cover_url;
  cover_key = if is_empty out.cover_url then d.cover_key else out.cover_key;
}

unfoldable pub merge_loop : EnrichedMetadata → List SourceResult → EnrichedMetadata
merge_loop out [] = out
merge_loop out (r ∷ rs) = elim r.data_ [
  | none ↦ merge_loop out rs
  | some d ↦ merge_loop (fill out d) rs
]

-- `MergeByPriority`
unfoldable pub merge_by_priority : List SourceResult → Option EnrichedMetadata
merge_by_priority [] = none
merge_by_priority (r ∷ rs) = some (merge_loop no_metadata (r ∷ rs))
