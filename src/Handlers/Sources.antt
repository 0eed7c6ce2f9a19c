-- ===== src/Handlers/Sources.antt =====
-- Media Sources: `MediaSourceService` (internal/service/media_source_service.go) and its handler
-- (internal/handler/media_source_handler.go). The repository and `os.Stat` are arguments.
pub mod Mounts
use vaultflix.Base.{
  Str, codes, eq_str, Bool, true, false, not, if◌then◌else◌, Option, none, some, List,
}
use vaultflix.Errors.{Sentinel, Error, is, Result, ok, err, wrapping, wrapped_write}
use vaultflix.Errors.Http.{Code}
use vaultflix.Model.{MediaSource}
use vaultflix.Paths.{clean, is_within}
use vaultflix.Handlers.{Reply, bad_request, refusal, done}

-- What the service calls; `stat` says whether what is there is a directory.
pub record Mounted (D : Type 0) : Type 0 where
  pub stat : Str → Result Bool
  pub list_sources : D → Result (List MediaSource)
  pub find_by_id : Str → D → Result MediaSource
  pub create_source : MediaSource → D → D × Result MediaSource
  pub update_source : MediaSource → D → D × Option Error
  pub delete_source : Str → D → D × Option Error

module _ {D : Type 0} (m : Mounted D) (mount_prefix : Str) where
  unfoldable pub validate_mount_path : Str → Option Error
  unfolding eq_str
  validate_mount_path path =
      if not (is_within (clean path) mount_prefix)
      then some (Error.sentinel Sentinel.path_not_allowed)
      else if not (eq_str (clean path) path)
      then some (Error.wrap (Error.sentinel Sentinel.path_not_allowed))
      else elim (m.stat (clean path)) [
        | err _ ↦ some (Error.wrap (Error.sentinel Sentinel.path_not_exist))
        | ok is_dir ↦
            if not is_dir
            then some (Error.wrap (Error.sentinel Sentinel.path_not_allowed))
            else none
      ]

  unfoldable pub list : D → Result (List MediaSource)
  list d = wrapping (m.list_sources d)

  unfoldable pub get_by_id : Str → D → Result MediaSource
  get_by_id id d = wrapping (m.find_by_id id d)

  abbrev stored : D × Result MediaSource → D × Result MediaSource
  stored (d, r) = (d, wrapping r)

  unfoldable pub create : MediaSource → D → D × Result MediaSource
  create source d = elim (validate_mount_path source.mount_path) [
    | some e ↦ (d, err e)
    | none ↦ stored (m.create_source source d)
  ]

  unfoldable pub update : Str → Str → Bool → D → D × Option Error
  update id label enabled d = elim (m.find_by_id id d) [
    | err e ↦ (d, some (Error.wrap e))
    | ok existing ↦
        wrapped_write (m.update_source (record existing { label = label; enabled = enabled }) d)
  ]

  unfoldable pub delete : Str → D → D × Option Error
  delete id d = wrapped_write (m.delete_source id d)

  -- `writeCreateSourceError`; the code of a missing path is that of `CodePathNotExist`.
  unfoldable pub write_create_source_error : Error → Reply MediaSource
  write_create_source_error e =
      if is Sentinel.path_not_allowed e
      then Reply.refused (record {
        status = 400;
        code = Code.path_not_allowed;
        message = codes "mount_path is outside the allowed mount prefix";
      })
      else if is Sentinel.path_not_exist e
      then Reply.refused (record {
        status = 400;
        code = Code.path_not_exist;
        message = codes "mount_path does not exist";
      })
      else refusal e (codes "create media source")

  -- `Create`: the body's label and mount path. A new Media Source has no ID yet, and its `Enabled`
  -- is left to the database.
  unfoldable pub handle_create : Option (Str × Str) → D → D × Reply MediaSource
  unfolding bad_request
  handle_create none d = (d, bad_request (codes "label and mount_path are required"))
  handle_create (some (label, mount_path)) d =
      let (created, source) =
        create (record { id = codes ""; label = label; mount_path = mount_path; enabled = false })
          d in
      elim source [
        | err e ↦ (created, write_create_source_error e)
        | ok s ↦ (created, Reply.replied 201 s)
      ]

  unfoldable pub handle_list : D → Reply (List MediaSource)
  handle_list d = elim (list d) [
    | err e ↦ refusal e (codes "list media sources")
    | ok sources ↦ Reply.replied 200 sources
  ]

  -- `Update`: the body's label and `enabled`.
  unfoldable pub handle_update : Str → Option (Str × Bool) → D → D × Reply Str
  unfolding bad_request
  handle_update id none d = (d, bad_request (codes "label and enabled are required"))
  handle_update id (some (label, enabled)) d =
      done (Reply.replied 200 (codes "media source updated")) (codes "update media source")
        (update id label enabled d)

  unfoldable pub handle_delete : Str → D → D × Reply Str
  handle_delete id d = done Reply.no_content (codes "delete media source") (delete id d)
