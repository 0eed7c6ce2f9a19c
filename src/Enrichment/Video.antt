-- ===== src/Enrichment/Video.antt =====
-- `EnrichVideo` (internal/service/enrichment_service.go). The repositories, over a database `D`,
-- the sources, the download of an image and its upload are arguments, and so is `avid.ExtractCode`
-- (internal/scraper/avid). The words of the messages are left out.
pub mod Outcome
use vaultflix.Base.{
  Str, codes, is_empty, map, Bool, true, false, if◌then◌else◌, Option, none, some, List, [], ◌∷◌,
  ◌++◌, ◌==◌,
}
use vaultflix.Errors.{Sentinel, Error, Result, ok, err}
use vaultflix.Model.{EnrichmentStatus, Video}
use vaultflix.Enrichment.{ActressMeta, EnrichedMetadata, SourceResult, is_nil, merge_by_priority}

-- `scraper.MetadataScraper`
pub record Scraper : Type 0 where
  pub source : Str
  pub scrape_by_code : Str → Result (Option EnrichedMetadata)

-- `model.MetadataSuggestion`; `pending` is the only status that a new one has.
pub record MetadataSuggestion : Type 0 where
  pub id : Str
  pub video_id : Str
  pub source : Str
  pub code : Str
  pub payload : EnrichedMetadata

-- The messages of an enrichment, each with its Video.
pub data Message : Type 0 where
  enrich_error : Str → Message
  enrich_complete : Str → Str → Option EnrichedMetadata → Message

unfoldable pub resolve_code : (Str → Option Str) → Video → Option Str
resolve_code extract_code v =
    if is_empty v.code then extract_code v.original_filename else some v.code

-- `scrapeAll`: the results in the order of the sources, and the last error.
unfoldable pub scrape_all : List Scraper → Str → List SourceResult × Option Error
scrape_all [] code = ([], none)
scrape_all (sc ∷ scs) code =
    let (results, last) = scrape_all scs code in
    elim (sc.scrape_by_code code) [
      | err e ↦ (results, elim last [ none ↦ some e | some f ↦ some f ])
      | ok data_ ↦ (record { source = sc.source; data_ = data_ } ∷ results, last)
    ]

abbrev pub cover_key_prefix : Str
cover_key_prefix = codes "covers/"

abbrev pub avatar_key_prefix : Str
avatar_key_prefix = codes "actresses/"

unfoldable pub sanitize_name : Str → Str
sanitize_name [] = []
sanitize_name (c ∷ s) =
    (if c == b'/' then b'_' else if c == 32 then b'_' else if c == b'.' then b'_' else c)
    ∷ sanitize_name s

unfoldable pub cover_key : Str → Str → Str
cover_key code source = cover_key_prefix ++ code ++ codes "-" ++ source ++ codes ".jpg"

unfoldable pub avatar_key : Str → Str → Str → Str
avatar_key performer code source =
    avatar_key_prefix
    ++ sanitize_name performer
    ++ codes "-"
    ++ code
    ++ codes "-"
    ++ source
    ++ codes ".jpg"

-- Downloads and uploads: the image of a URL, and the storing of it under a key.
pub record Images : Type 0 where
  pub download_image : Str → Result Str
  pub upload_cover : Str → Str → Option Error
  pub upload_actress_avatar : Str → Str → Option Error

-- `downloadAndUploadCover` and `downloadAndUploadAvatar`, which differ in the upload.
unfoldable pub download_and_upload :
    (Str → Result Str) → (Str → Str → Option Error) → Str → Str → Option Str
download_and_upload download upload url key = elim (download url) [
  | err _ ↦ none
  | ok tmp ↦ elim (upload key tmp) [ none ↦ some key | some _ ↦ none ]
]

abbrev keep : Option Str → Str → Str
keep none old = old
keep (some key) old = key

unfoldable pub upload_avatar : Images → Str → Str → ActressMeta → ActressMeta
upload_avatar images code source a = if is_empty a.avatar_url then a else record a {
  avatar_key =
      keep
        (download_and_upload images.download_image images.upload_actress_avatar a.avatar_url
          (avatar_key a.name_ja code source))
        a.avatar_key;
}

unfoldable pub upload_cover : Images → Str → Str → EnrichedMetadata → EnrichedMetadata
upload_cover images code source d = if is_empty d.cover_url then d else record d {
  cover_key =
      keep
        (download_and_upload images.download_image images.upload_cover d.cover_url
          (cover_key code source))
        d.cover_key;
}

unfoldable pub upload_images : Images → Str → SourceResult → SourceResult
upload_images images code r = elim r.data_ [
  | none ↦ r
  | some d ↦
      let covered = upload_cover images code r.source d in
      record r {
        data_ = some (record covered {
          actresses = map (upload_avatar images code r.source) covered.actresses;
        });
      }
]

-- What `EnrichVideo` calls of the repositories.
pub record Repositories (D : Type 0) : Type 0 where
  pub get_by_id : Str → D → Result Video
  pub set_enrichment_status : Str → EnrichmentStatus → D → D × Option Error
  pub create_suggestion : MetadataSuggestion → D → D × Option Error

module _ {D : Type 0} where
  -- The id of the row is the database's.
  unfoldable pub stage_suggestions :
      (MetadataSuggestion → D → D × Option Error)
      → Str
      → Str
      → List SourceResult
      → D
      → D × Option Error
  stage_suggestions create video_id code [] d = (d, none)
  stage_suggestions create video_id code (r ∷ rs) d = elim r.data_ [
    | none ↦ stage_suggestions create video_id code rs d
    | some payload ↦
        let (stored, failed) =
          create
            (record {
              id = [];
              video_id = video_id;
              source = r.source;
              code = code;
              payload = payload;
            })
            d in
        elim failed [
          | some e ↦ (stored, some (Error.wrap e))
          | none ↦ stage_suggestions create video_id code rs stored
        ]
  ]

  -- A status that cannot be written is only logged.
  unfoldable pub handle_success :
      Repositories D → Str → Str → List SourceResult → D → D × (List Message × Option Error)
  handle_success repos video_id code results d = (
    (repos.set_enrichment_status video_id EnrichmentStatus.suggested d).0,
    (enrich_complete video_id code (merge_by_priority results) ∷ [], none),
  )

  unfoldable pub handle_all_failed :
      Repositories D → Str → Option Error → D → D × (List Message × Option Error)
  handle_all_failed repos video_id scrape_error d = (
    (repos.set_enrichment_status video_id EnrichmentStatus.failed d).0,
    (
      enrich_error video_id ∷ [],
      some (elim scrape_error [
        | some _ ↦ Error.wrap (Error.sentinel Sentinel.source_unavailable)
        | none ↦ Error.plain
      ]),
    ),
  )

  unfoldable pub handle_no_code : Repositories D → Str → D → D × (List Message × Option Error)
  handle_no_code repos video_id d = (
    (repos.set_enrichment_status video_id EnrichmentStatus.no_code d).0,
    (enrich_error video_id ∷ [], some (Error.wrap (Error.sentinel Sentinel.code_not_found))),
  )

  unfoldable pub stage_and_report :
      Repositories D → Str → Str → List SourceResult → D → D × (List Message × Option Error)
  stage_and_report repos video_id code results d =
      let (staged, failed) = stage_suggestions repos.create_suggestion video_id code results d in
      elim failed [
        | some e ↦ (staged, ([], some e))
        | none ↦ handle_success repos video_id code results staged
      ]

  unfoldable pub enrich_video :
      Repositories D
      → (Str → Option Str)
      → List Scraper
      → Images
      → Str
      → D
      → D × (List Message × Option Error)
  enrich_video repos extract_code scrapers images video_id d = elim (repos.get_by_id video_id d) [
    | err e ↦ (d, ([], some (Error.wrap e)))
    | ok video ↦ elim (resolve_code extract_code video) [
      | none ↦ handle_no_code repos video_id d
      | some code ↦
          let (results, scrape_error) = scrape_all scrapers code in
          if is_nil results
          then handle_all_failed repos video_id scrape_error d
          else stage_and_report repos video_id code (map (upload_images images code) results) d
    ]
  ]
