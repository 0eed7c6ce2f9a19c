-- ===== src/Lanes/Scan.antt =====
-- The Scan of an Import (internal/service/import_service.go) and the items that it becomes
-- (internal/service/import_job.go). `filepath.Walk` and `uuid.New` are arguments.
pub mod Found
use vaultflix.Base.{
  Str, codes, eq_str, to_lower, Bool, ◌||◌, if◌then◌else◌, Option, none, some, List, [], ◌∷◌, map,
}
use vaultflix.Errors.{Error, Result, ok, err}
use vaultflix.Model.{MediaSource}
use vaultflix.Paths.{ext, file_name}
use vaultflix.Jobs.{Item}
use vaultflix.Lanes.Items.{Importer, process_one_file}

-- One call of the function that `filepath.Walk` takes; the name is ASCII text.
pub record Visit : Type 0 where
  pub path : Str
  pub name : Str
  pub is_dir : Bool
  pub error : Option Error

unfoldable pub is_supported_extension : Str → Bool
unfolding eq_str
is_supported_extension e =
    eq_str e (codes ".mp4")
    || eq_str e (codes ".mkv")
    || eq_str e (codes ".avi")
    || eq_str e (codes ".wmv")
    || eq_str e (codes ".mov")

-- The files that the walk finds after `files`; its first error ends it.
unfoldable pub walked : List Visit → Result (List Str)
unfolding is_supported_extension to_lower ext
walked [] = ok []
walked (v ∷ vs) =
    let rest = walked vs in
    elim v.error [
      | some e ↦ err (Error.wrap e)
      | none ↦
          if v.is_dir
          then rest
          else if is_supported_extension (to_lower (ext v.name))
          then elim rest [ err e ↦ err e | ok files ↦ ok (v.path ∷ files) ]
          else rest
    ]

unfoldable pub scan_video_files : List Visit → Result (List Str)
unfolding walked
scan_video_files visits = elim (walked visits) [ err e ↦ err (Error.wrap e) | ok files ↦ ok files ]

module _ {D : Type 0} where
  -- one file as an item; `id` is the fresh UUID of its Video.
  unfoldable pub import_item : Importer D → MediaSource → (D → Str) → Str → Item D
  import_item im source id path = record {
    id = path;
    name = file_name path;
    run = λ d. process_one_file im source (id d) path d;
  }

  -- `importItems.Items`
  unfoldable pub import_items :
      (Str → D → List Visit) → Importer D → (D → Str) → MediaSource → D → D × Result (List (Item D))
  unfolding scan_video_files import_item
  import_items walk im id source d = elim (scan_video_files (walk source.mount_path d)) [
    | err e ↦ (d, err (Error.wrap e))
    | ok files ↦ (d, ok (map (import_item im source id) files))
  ]
