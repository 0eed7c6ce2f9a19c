-- ===== src/Streaming/Generator.antt =====
-- `FFmpegSegmentGenerator` (internal/streaming/segment_generator.go): one segment is cut out of a
-- Video. ffmpeg writes one part for each GOP and a list of them; the parts of the segment are
-- picked from the list and joined. A time is a number of microseconds. ffmpeg and the functions of
-- `os` are the fields of an argument; an open file is its path.
pub mod Selected
pub mod Joined
pub mod Whole
use vaultflix.Base.Text.{trim_space}
use vaultflix.Base.{
  ℕ, Str, codes, split, Bool, true, false, ◌||◌, ◌&&◌, not, if◌then◌else◌, Option, none, some, List,
  [], ◌∷◌, ◌++◌,
}
use vaultflix.Base.Int.{ℤ, pos, ◌+ℤ◌, ◌-ℤ◌, ltb_ℤ}
use vaultflix.Errors.{Error, Result, ok, err}
use vaultflix.Paths.{join}
use vaultflix.Streaming.Segments.{is_nil}
use vaultflix.Streaming.Decimal.{parse_float, format_seconds}

abbrev pub seek_backoff : ℤ
seek_backoff = pos 1_000_000

abbrev pub read_margin : ℤ
read_margin = pos 500_000

abbrev pub boundary_tol : ℤ
boundary_tol = pos 2000

abbrev pub max_start_drift : ℤ
max_start_drift = pos 100_000

abbrev pub continuity_tol : ℤ
continuity_tol = pos 2_000_000

abbrev pub segment_list_name : Str
segment_list_name = codes "list.csv"

-- `math.Max(0, v)`
abbrev pub floor_zero : ℤ → ℤ
floor_zero v = if ltb_ℤ v (pos 0) then pos 0 else v

unfoldable pub build_segment_args : Str → Str → ℤ → ℤ → List Str
unfolding format_seconds join ◌+ℤ◌ ◌-ℤ◌
build_segment_args input_path parts_dir start duration =
    codes "-hide_banner"
    ∷ codes "-loglevel"
    ∷ codes "error"
    ∷ codes "-ss"
    ∷ format_seconds (floor_zero (start -ℤ seek_backoff))
    ∷ codes "-i"
    ∷ input_path
    ∷ codes "-copyts"
    ∷ codes "-to"
    ∷ format_seconds (start +ℤ duration +ℤ read_margin)
    ∷ codes "-c"
    ∷ codes "copy"
    ∷ codes "-muxdelay"
    ∷ codes "0"
    ∷ codes "-muxpreload"
    ∷ codes "0"
    ∷ codes "-f"
    ∷ codes "segment"
    ∷ codes "-segment_format"
    ∷ codes "mpegts"
    ∷ codes "-segment_time"
    ∷ codes "0"
    ∷ codes "-segment_list"
    ∷ join parts_dir segment_list_name
    ∷ codes "-segment_list_type"
    ∷ codes "csv"
    ∷ codes "-y"
    ∷ join parts_dir (codes "part%05d.ts")
    ∷ []

-- `segmentPart`
pub record SegmentPart : Type 0 where
  pub name : Str
  pub start : ℤ
  pub end_ : ℤ

abbrev with_times : Str → Option ℤ → Option ℤ → Option SegmentPart
with_times name (some start) (some end_) = some (record { name = name; start = start; end_ = end_ })
with_times name _ _ = none

-- A line of the list; one that does not parse is passed over.
unfoldable pub part_of : List Str → Option SegmentPart
unfolding parse_float
part_of (name ∷ start ∷ end_ ∷ _) = with_times name (parse_float start) (parse_float end_)
part_of _ = none

unfoldable pub list_loop : List Str → List SegmentPart
unfolding part_of split trim_space
list_loop [] = []
list_loop (line ∷ lines) =
    let rest = list_loop lines in
    elim (part_of (split b',' (trim_space line) [])) [ none ↦ rest | some p ↦ p ∷ rest ]

unfoldable pub parse_segment_list : Str → List SegmentPart
unfolding list_loop split
parse_segment_list data_ = list_loop (split 10 data_ [])

-- the `continue` of the loop, negated
unfoldable pub in_window : ℤ → ℤ → SegmentPart → Bool
unfolding ◌-ℤ◌
in_window start end_ p =
    not (ltb_ℤ p.start (start -ℤ max_start_drift) || not (ltb_ℤ p.start (end_ -ℤ boundary_tol)))

unfoldable pub late : ℤ → SegmentPart → Bool
late start p = ltb_ℤ max_start_drift (p.start -ℤ start)

unfoldable pub has_gap : SegmentPart → SegmentPart → Bool
has_gap prev p = ltb_ℤ continuity_tol (p.start -ℤ prev.end_)

-- The loop of `selectPartsFromList`: the names so far, and `prev`.
unfoldable pub select_loop : ℤ → ℤ → List SegmentPart → List Str → SegmentPart → Result (List Str)
select_loop start end_ [] names prev = if is_nil names then err Error.plain else ok names
select_loop start end_ (p ∷ all_) names prev =
    let skipped = select_loop start end_ all_ names prev in
    let taken = select_loop start end_ all_ (names ++ p.name ∷ []) p in
    if not (in_window start end_ p)
    then skipped
    else if is_nil names && late start p
    then err Error.plain
    else if not (is_nil names) && has_gap prev p
    then err Error.plain
    else taken

unfoldable pub select_parts_from_list : List SegmentPart → ℤ → ℤ → Result (List Str)
select_parts_from_list all_ start end_ =
    select_loop start end_ all_ [] (record { name = []; start = pos 0; end_ = pos 0 })

-- What the generator calls of `os`, `io` and `exec`.
pub record Os (D : Type 0) : Type 0 where
  pub mkdir_all : Str → D → D × Option Error
  pub remove_all : Str → D → D × Option Error
  pub run_ffmpeg : List Str → D → D × Option Error
  pub read_file : Str → D → Result Str
  pub rename : Str → Str → D → D × Option Error
  pub create : Str → D → D × Option Error
  pub open_ : Str → D → Option Error
  pub copy : Str → Str → D → D × Option Error
  pub close : Str → D → D × Option Error

module _ {D : Type 0} (os : Os D) where
  -- The loop of `concatParts` and the close behind it; the deferred second close does nothing.
  unfoldable pub append_parts : Str → List Str → Str → D → D × Option Error
  append_parts parts_dir [] out_path d =
      let (closed, failed) = os.close out_path d in
      (closed, elim failed [ none ↦ none | some e ↦ some (Error.wrap e) ])
  append_parts parts_dir (name ∷ names) out_path d = elim (os.open_ (join parts_dir name) d) [
    | some e ↦ ((os.close out_path d).0, some (Error.wrap e))
    | none ↦
        let (copied, failed) = os.copy out_path (join parts_dir name) d in
        elim failed [
          | some e ↦ ((os.close out_path copied).0, some (Error.wrap e))
          | none ↦ append_parts parts_dir names out_path copied
        ]
  ]

  unfoldable pub copy_parts : Str → List Str → Str → D → D × Option Error
  copy_parts parts_dir names out_path d =
      let (created, failed) = os.create out_path d in
      elim failed [
        | some e ↦ (created, some (Error.wrap e))
        | none ↦ append_parts parts_dir names out_path created
      ]

  -- `concatParts`: one part is renamed, and copied where that fails.
  unfoldable pub concat_parts : Str → List Str → Str → D → D × Option Error
  concat_parts parts_dir (name ∷ []) out_path d =
      let (renamed, failed) = os.rename (join parts_dir name) out_path d in
      elim failed [
        | none ↦ (renamed, none)
        | some _ ↦ copy_parts parts_dir (name ∷ []) out_path renamed
      ]
  concat_parts parts_dir names out_path d = copy_parts parts_dir names out_path d

  -- From the run of ffmpeg on.
  unfoldable pub generate_in : Str → Str → Str → ℤ → ℤ → D → D × Option Error
  generate_in parts_dir input_path out_path start duration d =
      let (ran, failed) =
        os.run_ffmpeg (build_segment_args input_path parts_dir start duration) d in
      elim failed [
        | some e ↦ (ran, some (Error.wrap e))
        | none ↦ elim (os.read_file (join parts_dir segment_list_name) ran) [
          | err e ↦ (ran, some (Error.wrap e))
          | ok list ↦
              elim (select_parts_from_list (parse_segment_list list) start (start +ℤ duration)) [
                | err e ↦ (ran, some (Error.wrap e))
                | ok parts ↦
                    let (joined, refused) = concat_parts parts_dir parts out_path ran in
                    (joined, elim refused [ none ↦ none | some e ↦ some (Error.wrap e) ])
              ]
        ]
      ]

  -- `Generate`: the deferred removal of the parts only logs its error.
  unfoldable pub generate : Str → Str → ℤ → ℤ → D → D × Option Error
  generate input_path out_path start duration d =
      let parts_dir = out_path ++ codes ".parts" in
      let (made, failed) = os.mkdir_all parts_dir d in
      elim failed [
        | some e ↦ (made, some (Error.wrap e))
        | none ↦
            let (done, result) = generate_in parts_dir input_path out_path start duration made in
            ((os.remove_all parts_dir done).0, result)
      ]
