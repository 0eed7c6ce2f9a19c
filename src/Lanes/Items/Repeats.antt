-- ===== src/Lanes/Items/Repeats.antt =====
-- `processOneFile` (internal/service/import_file.go) on a file that it meets again.
use vaultflix.Base.{
  Str, not, Bool-cases, Option-cases, if◌then◌else◌, Option, none, some, ◌≡◌, ◌≢◌, inl, inr, refl,
  ap, sym, ◌∙◌,
}
use vaultflix.Errors.{Sentinel, Error, is, ok, err, Result-cases}
use vaultflix.Model.{MediaSource, Video}
use vaultflix.Paths.{rel}
use vaultflix.Lanes.Items.{Importer, derive_video, register, import_new, process_one_file}

some-ne-none : {e : Error} → some e ≢ none
some-ne-none h = cc

module _ {D : Type 0} (im : Importer D) where
  -- What the program relies on: the repository finds a Video that it has taken under its place, and
  -- the indexing of it takes nothing from the repository.
  abbrev pub FindsCreated : Type 0
  FindsCreated =
      (v : Video) (source path : Str) (d d' : D)
      → v.source_id ≡ some source
      → v.file_path ≡ some path
      → im.create v d ≡ (d', none)
      → (file : Str)
      → (w : Video) × (im.find_by_source_and_path source path (im.ensure_index v file d') ≡ ok w)

  placed : MediaSource → Str → Video → Video
  placed source rel_path v = record v { source_id = some source.id; file_path = some rel_path }

  -- what `register` does with the answer of `create`
  abbrev stored : Video → Str → D × Option Error → D × Option Error
  stored v path (d, failed) = elim failed [
    | some e ↦ (d, some (Error.wrap e))
    | none ↦ (im.ensure_index v path d, none)
  ]

  stored_found :
      FindsCreated
      → (source : MediaSource) (path rel_path : Str) (v : Video) (d after : D)
        (out : D × Option Error)
      → im.create (placed source rel_path v) d ≡ out
      → stored (placed source rel_path v) path out ≡ (after, none)
      → (w : Video) × (im.find_by_source_and_path source.id rel_path after ≡ ok w)
  unfolding placed
  stored_found finds source path rel_path v d after (d', none) e h =
      let (w, q) = finds (placed source rel_path v) source.id rel_path d d' refl refl e path in
      (w, ap (λ p. im.find_by_source_and_path source.id rel_path p.0) (sym h) ∙ q)
  stored_found finds source path rel_path v d after (d', some f) e h =
      absurd (some-ne-none (ap (λ p. p.1) h))

  registered :
      FindsCreated
      → (source : MediaSource) (path rel_path : Str) (v : Video) (d after : D)
      → register im source path rel_path v d ≡ (after, none)
      → (w : Video) × (im.find_by_source_and_path source.id rel_path after ≡ ok w)
  unfolding register placed
  registered finds source path rel_path v d after h =
      stored_found finds source path rel_path v d after (im.create (placed source rel_path v) d)
        refl h

  imported :
      FindsCreated
      → (source : MediaSource) (id path rel_path : Str) (d after : D)
      → import_new im source id path rel_path d ≡ (after, none)
      → (w : Video) × (im.find_by_source_and_path source.id rel_path after ≡ ok w)
  unfolding import_new
  imported finds source id path rel_path d after h =
      elim (Result-cases (derive_video im id path d).1) [
        | inl (e, q) ↦ absurd (
            some-ne-none (
              ap (λ p. p.1)
                (sym (
                    ap
                      (λ r. elim r [
                        | err e ↦ ((derive_video im id path d).0, some (Error.wrap e))
                        | ok v ↦ register im source path rel_path v (derive_video im id path d).0
                      ])
                      q)
                  ∙ h)))
        | inr (v, q) ↦ registered finds source path rel_path v (derive_video im id path d).0 after (
            sym (
              ap
                (λ r. elim r [
                  | err e ↦ ((derive_video im id path d).0, some (Error.wrap e))
                  | ok v ↦ register im source path rel_path v (derive_video im id path d).0
                ])
                q)
            ∙ h)
      ]

  no_place :
      (source : MediaSource) (id path : Str) (d : D)
      → rel source.mount_path path ≡ none
      → process_one_file im source id path d ≡ (d, some (Error.wrap Error.plain))
  unfolding process_one_file
  no_place source id path d e = rw (process_one_file, e) refl

  is_known :
      (source : MediaSource) (id path rel_path : Str) (d : D) (v : Video)
      → rel source.mount_path path ≡ some rel_path
      → im.find_by_source_and_path source.id rel_path d ≡ ok v
      → process_one_file im source id path d ≡ (d, some (Error.sentinel Sentinel.job_item_skipped))
  unfolding process_one_file
  is_known source id path rel_path d v e q = rw (process_one_file, e, q) refl

  opened :
      (source : MediaSource) (id path rel_path : Str) (d : D) (f : Error)
      → rel source.mount_path path ≡ some rel_path
      → im.find_by_source_and_path source.id rel_path d ≡ err f
      → process_one_file im source id path d ≡ (
          if not (is Sentinel.not_found f)
          then (d, some (Error.wrap f))
          else import_new im source id path rel_path d)
  unfolding process_one_file
  opened source id path rel_path d f e q = rw (process_one_file, e, q) refl

  is_new :
      (source : MediaSource) (id path rel_path : Str) (d after : D) (f : Error)
      → rel source.mount_path path ≡ some rel_path
      → im.find_by_source_and_path source.id rel_path d ≡ err f
      → process_one_file im source id path d ≡ (after, none)
      → import_new im source id path rel_path d ≡ (after, none)
  is_new source id path rel_path d after f e q h = elim (Bool-cases (is Sentinel.not_found f)) [
    | inl p ↦ sym (opened source id path rel_path d f e q ∙ rw p refl) ∙ h
    | inr p ↦
        let refused : process_one_file im source id path d ≡ (d, some (Error.wrap f)) =
          opened source id path rel_path d f e q ∙ rw p refl in
        absurd (some-ne-none (ap (λ r. r.1) (sym refused ∙ h)))
  ]

  -- If the repository finds what it has taken, a file that an Import has registered is skipped by a
  -- later Import of the same Media Source that meets the repository as it was left: nothing
  -- changes, and the item counts as skipped.
  pub process_one_file-again :
      FindsCreated
      → (source : MediaSource) (id id' path : Str) (d after : D)
      → process_one_file im source id path d ≡ (after, none)
      → process_one_file im source id' path after
        ≡ (after, some (Error.sentinel Sentinel.job_item_skipped))
  process_one_file-again finds source id id' path d after h =
      elim (Option-cases (rel source.mount_path path)) [
        | inl e ↦ absurd (some-ne-none (ap (λ p. p.1) (sym (no_place source id path d e) ∙ h)))
        | inr (rel_path, e) ↦
            elim (Result-cases (im.find_by_source_and_path source.id rel_path d)) [
              | inr (v, q) ↦ absurd (
                  some-ne-none (ap (λ p. p.1) (sym (is_known source id path rel_path d v e q) ∙ h)))
              | inl (f, q) ↦
                  let (w, r) =
                    imported finds source id path rel_path d after
                      (is_new source id path rel_path d after f e q h) in
                  is_known source id' path rel_path after w e r
            ]
      ]
