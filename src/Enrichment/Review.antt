-- ===== src/Enrichment/Review.antt =====
-- The review of Suggestions (internal/service/enrichment_accept_reject.go). The repositories are
-- arguments, over a database `D`.
pub mod Chosen
use vaultflix.Base.{
  ℕ, Str, eq_str, is_empty, has_prefix, not, map, Bool, true, false, if◌then◌else◌, Option, none,
  some, List, [], ◌∷◌,
}
use vaultflix.Errors.{Sentinel, Error, Result, ok, err}
use vaultflix.Model.{EnrichmentStatus}
use vaultflix.Enrichment.{ActressMeta, EnrichedMetadata, is_nil}
use vaultflix.Enrichment.Video.{Scraper, MetadataSuggestion, cover_key_prefix, avatar_key_prefix}

-- `model.SuggestionOverride`; nil fields are `none`.
pub record SuggestionOverride : Type 0 where
  pub title : Option Str
  pub genres : Option (List Str)

-- `model.VideoMetadataUpdate`
pub record VideoMetadataUpdate : Type 0 where
  pub code : Str
  pub title : Str
  pub release_date : Option ℕ
  pub runtime_minutes : ℕ
  pub maker : Str
  pub label : Str
  pub series : Str
  pub cover_key : Str

-- `model.Actress`, the fields that an application uses
pub record Actress : Type 0 where
  pub name_ja : Str
  pub name_romaji : Str
  pub avatar_key : Str

-- `model.SuggestionApplication`
pub record SuggestionApplication : Type 0 where
  pub suggestion_id : Str
  pub video_id : Str
  pub metadata : VideoMetadataUpdate
  pub performers : List Actress
  pub genres : List Str

unfoldable pub staged_key : Str → Str → Str → Str
staged_key key source_url key_prefix =
    if not (is_empty key) then key else if has_prefix key_prefix source_url then source_url else []

abbrev pub or_default {ℓ} : {A : Type ℓ} → Option A → A → A
or_default none a = a
or_default (some b) a = b

-- The loop over the genres.
unfoldable pub named : List Str → List Str
named [] = []
named (g ∷ gs) = let rest = named gs in if is_empty g then rest else g ∷ rest

unfoldable pub performer : ActressMeta → Actress
performer a = record {
  name_ja = a.name_ja;
  name_romaji = a.name_romaji;
  avatar_key = staged_key a.avatar_key a.avatar_url avatar_key_prefix;
}

unfoldable pub suggestion_application :
    MetadataSuggestion → SuggestionOverride → SuggestionApplication
suggestion_application sug override =
    let p = sug.payload in
    record {
      suggestion_id = sug.id;
      video_id = sug.video_id;
      metadata = record {
        code = p.code;
        title = or_default override.title p.title;
        release_date = p.release_date;
        runtime_minutes = p.runtime_minutes;
        maker = p.maker;
        label = p.label;
        series = p.series;
        cover_key = staged_key p.cover_key p.cover_url cover_key_prefix;
      };
      performers = map performer p.actresses;
      genres = named (or_default override.genres p.genres);
    }

-- What the review calls of the repositories.
pub record Suggestions (D : Type 0) : Type 0 where
  pub get_by_id : Str → D → Result MetadataSuggestion
  pub get_by_video_id : Str → D → Result (List MetadataSuggestion)
  pub apply : SuggestionApplication → D → D × Option Error
  pub delete : Str → D → D × Option Error
  pub set_enrichment_status : Str → EnrichmentStatus → D → D × Option Error

abbrev pub wrapped {ℓ} : {D : Type ℓ} → D × Option Error → D × Option Error
wrapped (d, none) = (d, none)
wrapped (d, some e) = (d, some (Error.wrap e))

-- The suggestion of a source, the first one.
unfoldable pub of_source : Str → List MetadataSuggestion → Option MetadataSuggestion
of_source source [] = none
of_source source (s ∷ ss) =
    let rest = of_source source ss in if eq_str s.source source then some s else rest

-- The two loops of `autoAcceptHighestPriority`.
unfoldable pub pick : List Scraper → List MetadataSuggestion → Option MetadataSuggestion
pick [] sugs = none
pick (sc ∷ scs) sugs = elim (of_source sc.source sugs) [ none ↦ pick scs sugs | some s ↦ some s ]

module _ {D : Type 0} where
  unfoldable pub accept_suggestion :
      Suggestions D → Str → Str → SuggestionOverride → D → D × Option Error
  accept_suggestion repo video_id suggestion_id override d = elim (repo.get_by_id suggestion_id d) [
    | err e ↦ (d, some (Error.wrap e))
    | ok sug ↦
        if not (eq_str sug.video_id video_id)
        then (d, some (Error.wrap (Error.sentinel Sentinel.not_found)))
        else wrapped (repo.apply (suggestion_application sug override) d)
  ]

  unfoldable pub list_suggestions : Suggestions D → Str → D → Result (List MetadataSuggestion)
  list_suggestions repo video_id d = elim (repo.get_by_video_id video_id d) [
    | err e ↦ err (Error.wrap e)
    | ok sugs ↦ ok sugs
  ]

  unfoldable pub auto_accept_highest_priority :
      Suggestions D → List Scraper → Str → D → D × Option Error
  auto_accept_highest_priority repo scrapers video_id d = elim (list_suggestions repo video_id d) [
    | err e ↦ (d, some (Error.wrap e))
    | ok sugs ↦ elim sugs [
      | [] ↦ (d, some (Error.wrap (Error.sentinel Sentinel.not_found)))
      | s ∷ ss ↦
          let picked = or_default (pick scrapers (s ∷ ss)) s in
          accept_suggestion repo video_id picked.id (record { title = none; genres = none }) d
    ]
  ]

  -- A status that cannot be reset is only logged.
  unfoldable pub reset_if_last : Suggestions D → Str → D → D × Option Error
  reset_if_last repo video_id d = elim (repo.get_by_video_id video_id d) [
    | err e ↦ (d, some (Error.wrap e))
    | ok remaining ↦
        if is_nil remaining
        then ((repo.set_enrichment_status video_id EnrichmentStatus.unset d).0, none)
        else (d, none)
  ]

  unfoldable pub reject_suggestion : Suggestions D → Str → Str → D → D × Option Error
  reject_suggestion repo video_id suggestion_id d = elim (repo.get_by_id suggestion_id d) [
    | err e ↦ (d, some (Error.wrap e))
    | ok sug ↦
        if not (eq_str sug.video_id video_id)
        then (d, some (Error.wrap (Error.sentinel Sentinel.not_found)))
        else let (deleted, failed) = repo.delete suggestion_id d in
          elim failed [
            | some e ↦ (deleted, some (Error.wrap e))
            | none ↦ reset_if_last repo video_id deleted
          ]
  ]
