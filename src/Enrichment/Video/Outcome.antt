-- ===== src/Enrichment/Video/Outcome.antt =====
-- What the enrichment of a Video tells the user.
use vaultflix.Base.{Str, ◌≢◌, map, Option, none, some, List, [], ◌∷◌, ◌≡◌, ◌⊎◌, inr, refl}
use vaultflix.Errors.{Error, ok}
use vaultflix.Model.{Video}
use vaultflix.Enrichment.{EnrichedMetadata, merge_by_priority}
use vaultflix.Enrichment.Video.{
  Scraper, Message, enrich_error, enrich_complete, Images, Repositories, scrape_all, upload_images,
}

-- the code that a Video has, or else the one in the name of its file
abbrev pub IsCode : (Str → Option Str) → Video → Str → Type 0
IsCode extract_code v code =
    (v.code ≢ []) × (code ≡ v.code) ⊎ (v.code ≡ []) × (extract_code v.original_filename ≡ some code)

module _ {D : Type 0} (repos : Repositories D) (extract_code : Str → Option Str)
    (scrapers : List Scraper) (images : Images) where
  -- the preview of a code: the merge of what the sources say of it, their images stored
  abbrev pub IsPreview : Str → EnrichedMetadata → Type 0
  IsPreview code m =
      merge_by_priority (map (upload_images images code) (scrape_all scrapers code).0) ≡ some m

  -- An enrichment that succeeds tells of the preview of the Video's code, one that fails of nothing
  -- but a failure.
  pub Told : Str → D → List Message × Option Error → Type 0
  Told id d (messages, failed) =
      ((failed ≡ none)
        × ((v : Video) × (code : Str) × (m : EnrichedMetadata) × (repos.get_by_id id d ≡ ok v)
            × IsCode extract_code v code
            × IsPreview code m
            × (messages ≡ enrich_complete id code (some m) ∷ [])))
      ⊎ (((e : Error) × (failed ≡ some e)) × ((messages ≡ []) ⊎ (messages ≡ enrich_error id ∷ [])))

  failure :
      (id : Str) (d : D) (ms : List Message) (e : Error)
      → (ms ≡ []) ⊎ (ms ≡ enrich_error id ∷ [])
      → Told id d (ms, some e)
  unfolding Told
  failure id d ms e h = inr ((e, refl), h)
