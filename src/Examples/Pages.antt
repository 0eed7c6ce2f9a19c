-- ===== src/Examples/Pages.antt =====
-- URLs, pages, playlists and files that are handed to nginx.
use vaultflix.Base.{
  ℕ, ◌≤◌, Each, Str, codes, eq_str, has_prefix, is_empty, split, true, false, none, some, List, [],
  ◌∷◌, ◌++◌, map, ◌≡◌, ◌⊎◌, ◌↔◌, refl, arith,
}
use vaultflix.Base.Int.{pos}
use vaultflix.Errors.{Sentinel, Error, ok, err}
use vaultflix.Model.{EnrichmentStatus, MediaSource, Video}
use vaultflix.Lanes.Items.{new_video}
use vaultflix.UrlCache.Refined.{Call, answers, promises, answers-promises}
use vaultflix.ObjectStore.{Minio, Buckets, Clock}
use vaultflix.ObjectStore.Calls
use vaultflix.ObjectStore.Calls.{Asset, after, generate}
use vaultflix.ObjectStore.Signed.{Answers, generate-Answers}
use vaultflix.Library.{VideoFilter, VideoSort, SortOrder}
use vaultflix.Catalog.{each, url_of}
use vaultflix.Catalog.Videos.{Shelf, VideoWithTags, list, list_page, with_urls, delete}
use vaultflix.Catalog.Videos.Listed.{Shows, list-Shows, delete-keeps}
use vaultflix.Handlers.Reports.{analytics_query, telemetry_query}
use vaultflix.Handlers.Reports.Clamped.{queries-within}
use vaultflix.Streaming.Generator.{SegmentPart, select_parts_from_list}
use vaultflix.Streaming.Generator.Selected.{Fits, chosen, name_of, select_parts-Fits}
use vaultflix.Streaming.Probe.{parse_keyframe_probe}
use vaultflix.Streaming.Probe.Printed.{
  Says, fields_of, IsProbe, lines_of, parse_keyframe_probe-IsProbe,
}
use vaultflix.Handlers.Hls.{rewrite_playlist_tokens, scan}
use vaultflix.Handlers.Hls.Tokens.{query_unescape, IsRewritten, rewrite-tokens}
use vaultflix.Handlers.Stream.{send_file, trim_prefix, encode_path_segments}
use vaultflix.Handlers.Stream.Offloaded.{unescape, send_file-Offloaded}
use vaultflix.Handlers.Sources.{Mounted, validate_mount_path, create}
use vaultflix.Handlers.Sources.Mounts.{IsMount, create-IsMount}

abbrev calls : List Call
calls =
    Call.keep (codes "k") (codes "u") 10 1
    ∷ Call.look (codes "k") 11
    ∷ Call.look (codes "k") 12
    ∷ Call.look (codes "k") 13
    ∷ []

answers-promises_example : answers calls [] ≡ promises calls (λ k. none)
answers-promises_example =
    answers-promises calls (omega arith, (omega arith, (omega arith, (omega arith, tt))))

abbrev minio : Minio ℕ
minio = record {
  open_size = λ p. ok 0;
  put_object = λ b k p n t o. (o, none);
  remove_object = λ b k o. (o, none);
  presigned_get_object = λ b k e t. ok k;
}

abbrev buckets : Buckets
buckets = record { video = codes "v"; thumbnail = codes "t"; preview = codes "p" }

abbrev at : ℕ → Clock
at t = record { looked = t; signed = t; stored = t }

abbrev asked : ℕ → Calls.Call
asked t = record { asset = Asset.thumbnail; object_key = codes "/o"; expiry = 0; clock = at t }

generate-Answers_example :
    Answers minio buckets 0 Asset.thumbnail
      (codes "/o")
      0
      (at 7)
      (generate minio buckets (asked 7) (after minio buckets (asked 5 ∷ []) [])).1
generate-Answers_example =
    generate-Answers minio buckets 0 (asked 5 ∷ []) (asked 7) (omega arith, tt) (omega arith)

abbrev film : Video
film =
    new_video (codes "v") (codes "a.mp4") 7
      (record {
        duration_seconds = 9;
        resolution = [];
        mime_type = [];
        video_codec = codes "h264";
        audio_codec = codes "aac";
      })
      (codes "t") [] (codes "ABC-1", EnrichmentStatus.pending)

-- a library of one Video, whose record cannot be deleted; the state counts the objects
abbrev shelf : Shelf ℕ
shelf = record {
  list_videos = λ f d. ok (film ∷ [], 1);
  get_by_id = λ id d. ok film;
  update_video = λ id i d. (d, none);
  delete_record = λ id d. (d, some Error.plain);
  by_video_ids = λ ids d. ok (λ id. none);
  by_video_id = λ id d. ok [];
  thumbnail_url = λ key d. (d, ok (codes "/minio/t"));
  preview_url = λ key d. (d, err Error.plain);
  generate_presigned_url = λ key. ok key;
  remove_video = λ key d. (0, none);
  remove_thumbnail = λ key d. (0, none);
  remove_preview = λ key d. (0, none);
  is_favorited = none;
  get_progress = none;
}

abbrev first_page : VideoFilter
first_page = record {
  page = 1;
  page_size = 20;
  sort_by = VideoSort.created_at;
  sort_order = SortOrder.desc;
  query = [];
  tag_ids = [];
}

abbrev shown : VideoWithTags
shown = record { video = film; tags = []; thumbnail_url = codes "/minio/t"; preview_url = [] }

list-Shows_example : Shows shelf first_page 3 (shown ∷ []) 1
unfolding list list_page each with_urls url_of new_video
list-Shows_example = list-Shows shelf first_page 3 (shown ∷ []) 1 refl

delete-keeps_example : Path ℕ (delete shelf (codes "v") 3).0 3
unfolding delete
delete-keeps_example =
    delete-keeps shelf (λ d. d) (λ id d. refl) (codes "v") 3 (Error.wrap Error.plain) refl

queries-within_example :
    let q = analytics_query (codes "400") (codes "0") in
    let t = telemetry_query (codes "400") (codes "wan") in
    ((1 ≤ q.days) × (q.days ≤ 365))
    × ((1 ≤ q.limit) × (q.limit ≤ 50))
    × ((1 ≤ t.days) × (t.days ≤ 365))
    × ((t.scope ≡ [])
        ⊎ (t.scope ≡ codes "lan")
        ⊎ (t.scope ≡ codes "external")
        ⊎ (t.scope ≡ codes "unknown"))
queries-within_example = queries-within (codes "400") (codes "0") (codes "wan")

abbrev listed : List SegmentPart
listed =
    record { name = codes "a"; start = pos 0; end_ = pos 4_000_000 }
    ∷ record { name = codes "b"; start = pos 4_000_000; end_ = pos 8_000_000 }
    ∷ []

select_parts-Fits_example :
    (select_parts_from_list listed (pos 4_000_000) (pos 8_000_000) ≡ ok (codes "b" ∷ [])) ↔ (
      Fits (pos 4_000_000) (chosen (pos 4_000_000) (pos 8_000_000) listed)
      × (map name_of (chosen (pos 4_000_000) (pos 8_000_000) listed) ≡ codes "b" ∷ []))
select_parts-Fits_example =
    select_parts-Fits (pos 4_000_000) (pos 8_000_000) listed (codes "b" ∷ [])

abbrev printed : Str
printed = codes "packet,0.000000,0.000000,K__\nformat,9.500000\n"

parse_keyframe_probe-IsProbe_example :
    Each (λ line. Says (fields_of line)) (split 10 printed []) (lines_of printed)
    × ((parse_keyframe_probe printed ≡ ok (pos 0 ∷ [], pos 9_500_000))
        ↔ IsProbe (lines_of printed) (pos 0 ∷ []) (pos 9_500_000))
parse_keyframe_probe-IsProbe_example =
    parse_keyframe_probe-IsProbe printed (pos 0 ∷ []) (pos 9_500_000)

rewrite-tokens_example :
    let raw = codes "#EXTM3U\nseg00000.ts\n" in
    (escaped : Str) × (query_unescape escaped ≡ codes "a b")
    × ((outs : List Str) × Each (IsRewritten escaped) (scan [] raw) outs
        × (split 10 (rewrite_playlist_tokens raw (codes "a b")) [] ≡ outs ++ [] ∷ []))
rewrite-tokens_example =
    rewrite-tokens (codes "#EXTM3U\nseg00000.ts\n") (codes "a b") (λ e. cc e)
      (omega arith, (omega arith, (omega arith, tt)))

send_file-Offloaded_example :
    (name : Str) × (codes "/x/a%20b" ≡ codes "/x/" ++ name)
    × (codes "/m/" ++ unescape name ≡ codes "/m/a b")
unfolding send_file trim_prefix encode_path_segments eq_str has_prefix is_empty
send_file-Offloaded_example =
    send_file-Offloaded (codes "/x/") (codes "/m/") (codes "/m/a b") [] (codes "/x/a%20b")
      (omega arith, (omega arith, (omega arith, (omega arith, (omega arith, (omega arith, tt))))))
      refl

abbrev mounted : Mounted ℕ
mounted = record {
  stat = λ p. ok true;
  list_sources = λ d. ok [];
  find_by_id = λ id d. err (Error.sentinel Sentinel.not_found);
  create_source = λ s d. (1, ok s);
  update_source = λ s d. (d, none);
  delete_source = λ id d. (d, none);
}

abbrev new_source : MediaSource
new_source = record {
  id = [];
  label = codes "d";
  mount_path = codes "/mnt/host/d";
  enabled = false;
}

create-IsMount_example :
    ((e : Error) × (validate_mount_path mounted (codes "/mnt/host/") (codes "/mnt/host/d") ≡ some e)
      × (create mounted (codes "/mnt/host/") new_source 0 ≡ (0, err e)))
    ⊎ (IsMount mounted (codes "/mnt/host/") (codes "/mnt/host/d")
        × ((create mounted (codes "/mnt/host/") new_source 0).0 ≡ 1)
        × ((create mounted (codes "/mnt/host/") new_source 0).1 ≡ ok new_source))
create-IsMount_example = create-IsMount mounted (codes "/mnt/host/") new_source 0
