-- ===== src/Examples/Services.antt =====
-- Playback, queries, Enrichment, Imports, reports of the player, errors, URLs and connections.
use vaultflix.Base.{
  ℕ, zero, suc, codes, eq_str, is_empty, true, false, Option, none, some, List, [], ◌∷◌, ◌≡◌, ◌⊎◌,
  refl, arith, ap, sym,
}
use vaultflix.Base.Int.{pos}
use vaultflix.Errors.{Sentinel, Error, is, Result, ok, err, wrapped_write}
use vaultflix.Model.{EnrichmentStatus, MediaSource, Video}
use vaultflix.Playback.{stat_file, resolve_file}
use vaultflix.Playback.Files.{Served, resolve_file-Served}
use vaultflix.Paths.{join, is_within, rel}
use vaultflix.Library.{parse_video_filter}
use vaultflix.Library.Filters.{Accepts, IsBounded, parse_video_filter-Accepts}
use vaultflix.Enrichment.{SourceResult, no_metadata, merge_loop, fill, merge_by_priority}
use vaultflix.Enrichment.Merging.{all_data, IsFirst, merge_by_priority-IsFirst}
use vaultflix.Enrichment.Video.{Scraper, MetadataSuggestion, Images, Repositories}
use vaultflix.Enrichment.Review.{
  SuggestionOverride, Suggestions, of_source, pick, accept_suggestion,
}
use vaultflix.Enrichment.Review.Chosen.{IsBest, pick-IsBest, Accepted, accept_suggestion-Accepted}
use vaultflix.Lanes.Items.{
  Importer, new_video, process_one_file, import_new, register, derive_video, derive_media,
}
use vaultflix.Lanes.Items.Repeats.{FindsCreated, process_one_file-again}
use vaultflix.Watching.{Heartbeat, record_heartbeat}
use vaultflix.Watching.Clamps.{IsSane, record_heartbeat_lem}
use vaultflix.Websocket.{Hub, Event, handle}
use vaultflix.Websocket.Safety.{Safe, count, handle-Safe}

abbrev disk : MediaSource
disk = record { id = codes "s"; label = codes "d"; mount_path = codes "/m/d"; enabled = true }

resolve_file-Served_example :
    Served (λ _. ok disk) (λ _. none) (codes "/m") (codes "s") (codes "/m/d/b")
unfolding resolve_file is_within join stat_file
resolve_file-Served_example =
    resolve_file-Served (λ _. ok disk) (λ _. none) (codes "/m") (codes "s") (codes "a/../b")
      (codes "/m/d/b") refl

abbrev missing : Error
missing = Error.sentinel Sentinel.not_found

parse_video_filter-Accepts_example : Accepts IsBounded (parse_video_filter (λ _. codes "3"))
parse_video_filter-Accepts_example = parse_video_filter-Accepts (λ _. codes "3")

abbrev sources : List SourceResult
sources =
    record { source = codes "a"; data_ = none }
    ∷ record { source = codes "b"; data_ = some (record no_metadata { title = codes "t" }) }
    ∷ []

merge_by_priority-IsFirst_example :
    IsFirst (all_data sources) (record no_metadata { title = codes "t" })
unfolding merge_by_priority merge_loop fill is_empty
merge_by_priority-IsFirst_example =
    merge_by_priority-IsFirst sources (record no_metadata { title = codes "t" }) refl

abbrev video : Video
video =
    new_video (codes "v") (codes "abc-1.mkv") 7
      (record {
        duration_seconds = 9;
        resolution = [];
        mime_type = [];
        video_codec = codes "h264";
        audio_codec = codes "aac";
      })
      [] [] (codes "ABC-1", EnrichmentStatus.pending)

abbrev repositories : Repositories ℕ
repositories = record {
  get_by_id = λ _ _. ok video;
  set_enrichment_status = λ _ _ d. (suc d, none);
  create_suggestion = λ _ d. (suc d, none);
}

abbrev scrapers : List Scraper
scrapers =
    record { source = codes "a"; scrape_by_code = λ _. err Error.plain }
    ∷ record { source = codes "b"; scrape_by_code = λ _. ok (some no_metadata) }
    ∷ []

abbrev images : Images
images = record {
  download_image = λ _. err Error.plain;
  upload_cover = λ _ _. none;
  upload_actress_avatar = λ _ _. none;
}

abbrev suggestion : MetadataSuggestion
suggestion = record {
  id = codes "g";
  video_id = codes "v";
  source = codes "b";
  code = codes "ABC-1";
  payload = no_metadata;
}

pick-IsBest_example : IsBest scrapers (suggestion ∷ []) suggestion
unfolding pick of_source eq_str
pick-IsBest_example = pick-IsBest scrapers (suggestion ∷ []) suggestion refl

abbrev suggestions : Suggestions ℕ
suggestions = record {
  get_by_id = λ _ _. ok suggestion;
  get_by_video_id = λ _ _. ok (suggestion ∷ []);
  apply = λ _ d. (suc d, none);
  delete = λ _ d. (suc d, none);
  set_enrichment_status = λ _ _ d. (d, none);
}

abbrev plain_override : SuggestionOverride
plain_override = record { title = none; genres = none }

accept_suggestion-Accepted_example :
    let out = accept_suggestion suggestions (codes "v") (codes "g") plain_override 0 in
    ((out.0 ≡ 0) × ((e : Error) × (out.1 ≡ some e)))
    ⊎ Accepted suggestions (codes "v") (codes "g") plain_override 0 out
accept_suggestion-Accepted_example =
    accept_suggestion-Accepted suggestions (codes "v") (codes "g") plain_override 0

-- A repository that holds nothing at 0, and one Video from then on.
abbrev found_from_one : ℕ → Result Video
found_from_one zero = err missing
found_from_one (suc _) = ok video

abbrev importer : Importer ℕ
importer = record {
  find_by_source_and_path = λ _ _ d. found_from_one d;
  create = λ _ d. (suc d, none);
  stat_size = λ _. ok 7;
  probe_media_info = λ _. ok (record {
    duration_seconds = 9;
    resolution = [];
    mime_type = [];
    video_codec = [];
    audio_codec = [];
  });
  make_thumbnail = λ _ d. (d, ok (codes "t"));
  make_preview = λ _ d. (d, err Error.plain);
  ensure_index = λ _ _ d. d;
  extract_code = λ _. none;
}

importer-FindsCreated : FindsCreated importer
importer-FindsCreated v source path d d' _ _ e file =
    (video, ap found_from_one (sym (ap (λ p. p.0) e)))

process_one_file-again_example :
    process_one_file importer disk (codes "y") (codes "/m/d/b") 1
    ≡ (1, some (Error.sentinel Sentinel.job_item_skipped))
unfolding process_one_file import_new register derive_video derive_media rel is
process_one_file-again_example =
    process_one_file-again importer importer-FindsCreated disk (codes "x") (codes "y")
      (codes "/m/d/b") 0 1 refl

abbrev beat : Heartbeat
beat = record {
  session_id = codes "s";
  user_id = codes "u";
  video_id = codes "v";
  played_delta = pos 50;
  position_seconds = pos 3;
}

abbrev write {ℓ} : {A : Type ℓ} → A → ℕ → ℕ × Option Error
write _ d = (suc d, none)

record_heartbeat_lem_example :
    ((record_heartbeat write beat 0).0 ≡ 0)
      × ((e : Error) × ((record_heartbeat write beat 0).1 ≡ some e)
          × (is Sentinel.invalid_input e ≡ true))
    ⊎ ((k : Heartbeat) × IsSane k
        × (k.session_id ≡ beat.session_id)
        × (k.user_id ≡ beat.user_id)
        × (k.video_id ≡ beat.video_id)
        × (record_heartbeat write beat 0 ≡ wrapped_write (write k 0)))
record_heartbeat_lem_example = record_heartbeat_lem write beat 0

abbrev hub : Hub
hub = record { clients = []; channels = []; panicked = false }

hub-Safe : Safe hub
unfolding count
hub-Safe = record { calm = refl; once = λ k. omega arith; opened = λ k h. absurd (omega arith) }

handle-Safe_example : Safe (handle (Event.connect 1) hub)
unfolding count
handle-Safe_example = handle-Safe (Event.connect 1) hub refl hub-Safe
