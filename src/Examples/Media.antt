-- ===== src/Examples/Media.antt =====
-- The segment generator and the Preview clips, on a disk and a directory of temp files.
use vaultflix.Base.{
  ◌≤◌, Str, codes, eq_str, eq_str_iff, eq_str_refl, has_prefix, true, false, ◌&&◌, not,
  if◌then◌else◌, Option, none, some, List, [], ◌∷◌, ◌++◌, ◌≡◌, ◌≢◌, length, length-append, refl,
  arith, Bool-cases, inl, inr, sym, ap, ◌∙◌,
}
use vaultflix.Base.Int.{pos, ◌+ℤ◌}
use vaultflix.Errors.{Error, Result, ok, err}
use vaultflix.Paths.{join}
use vaultflix.Streaming.Generator.{
  Os, generate, generate_in, concat_parts, parse_segment_list, select_parts_from_list,
  segment_list_name, select_loop, in_window, late,
}
use vaultflix.Streaming.Generator.Joined.{IsOs, Apart}
use vaultflix.Streaming.Generator.Whole.{IsCut, parts_of, generate-IsCut}
use vaultflix.Media.Clips.{Files, generate_preview_clip}
use vaultflix.Media.Clips.Temps.{IsFiles, mem, LeavesOnly}
use vaultflix.Media.Clips.Left.{generate-LeavesOnly}

-- a disk is what it holds under each path
abbrev Disk : Type 0
Disk = Str → Option Str

abbrev put : Str → Option Str → Disk → Disk
put p b d q = if eq_str p q then b else d q

abbrev both : Option Str → Option Str → Option Str
both (some a) (some b) = some (a ++ b)
both _ _ = none

abbrev part_list : Str
part_list = codes "part00000.ts,0.000000,6.000000\n"

abbrev found : Option Str → Result Str
found none = err Error.plain
found (some b) = ok b

abbrev lost : Option Str → Option Error
lost none = some Error.plain
lost (some _) = none

abbrev disk_os : Os Disk
disk_os = record {
  mkdir_all = λ p d. (d, none);
  remove_all = λ p d. ((λ q. if has_prefix (p ++ codes "/") q then none else d q), none);
  run_ffmpeg = λ args d. (
    put (codes "o.parts/part00000.ts") (some (codes "ab"))
        (put (codes "o.parts/list.csv") (some part_list) d),
    none,
  );
  read_file = λ p d. found (d p);
  rename = λ a b d. (put b (d a) d, none);
  create = λ p d. (put p (some []) d, none);
  open_ = λ p d. lost (d p);
  copy = λ out src d. (put out (both (d out) (d src)) d, none);
  close = λ p d. (d, none);
}

put-same : (p : Str) (b : Option Str) (d : Disk) → put p b d p ≡ b
put-same p b d = rw (eq_str_refl p) refl

put-other : (p q : Str) (b : Option Str) (d : Disk) → q ≢ p → put p b d q ≡ d q
put-other p q b d h = elim (Bool-cases (eq_str p q)) [
  | inl e ↦ absurd (h (sym ((eq_str_iff p q).0 e)))
  | inr e ↦ rw e refl
]

lost-there : (o : Option Str) → lost o ≡ none → (b : Str) × (o ≡ some b)
lost-there none h = absurd (cc h)
lost-there (some b) h = (b, refl)

disk-IsOs : IsOs disk_os (λ p d. d p)
disk-IsOs = record {
  rename_done = λ a b d h. put-same b (d a) d;
  rename_failed = λ a b e d h. absurd (cc h);
  create_done = λ p d h. put-same p (some []) d;
  create_other = λ p q d h. put-other p q (some []) d h;
  open_there = λ p d h. lost-there (d p) h;
  copy_done = λ out src old b d h c s. put-same out (both (d out) (d src)) d ∙ rw (c, s) refl;
  copy_other = λ out src q d h. put-other out q (both (d out) (d src)) d h;
  close_keeps = λ p q d. refl;
  remove_keeps = λ dir q d n h. rw h refl;
}

abbrev empty_disk : Disk
empty_disk = λ q. none

abbrev out : Str
out = codes "o"

ok_inj : {A : Type 0} (a b : A) → Path (Result A) (ok a) (ok b) → a ≡ b
ok_inj a b h = cc h

picked_part :
    select_parts_from_list (parse_segment_list part_list) (pos 0) (pos 0 +ℤ pos 6_000_000)
    ≡ ok (codes "part00000.ts" ∷ [])
unfolding select_parts_from_list parse_segment_list ◌+ℤ◌ select_loop in_window late
picked_part = refl

-- what the only selection names is not the segment's file
picked-Apart :
    (list : Str) (names : List Str)
    → disk_os.read_file (join (parts_of out) segment_list_name) (disk_os.run_ffmpeg [] empty_disk).0
      ≡ ok list
    → select_parts_from_list (parse_segment_list list) (pos 0) (pos 0 +ℤ pos 6_000_000) ≡ ok names
    → Apart (λ p (d : Disk). d p) (parts_of out) out names
unfolding join eq_str
picked-Apart list names h k =
    let l = ok_inj part_list list h in
    let n = ok_inj (codes "part00000.ts" ∷ []) names (sym picked_part ∙ (rw (sym l) at k)) in
    rw (sym n) (λ e. absurd (cc (ap (λ s. eq_str s out) e)), tt)

generate-IsCut_example : IsCut disk-IsOs (codes "v") out (pos 0) (pos 6_000_000) empty_disk
unfolding generate generate_in concat_parts join select_parts_from_list parse_segment_list eq_str
    ◌+ℤ◌ has_prefix select_loop in_window late
generate-IsCut_example =
    generate-IsCut disk-IsOs (codes "v") out (pos 0) (pos 6_000_000) empty_disk picked-Apart refl

-- The temp files of a directory; a new one has a name longer than all the others together.
abbrev joined_names : List Str → Str
joined_names [] = []
joined_names (p ∷ ps) = p ++ joined_names ps

abbrev drop_file : Str → List Str → List Str
drop_file p [] = []
drop_file p (q ∷ qs) = let rest = drop_file p qs in if eq_str p q then rest else q ∷ rest

abbrev temps : Files (List Str)
temps = record {
  create_temp = λ pattern d. ((b'x' ∷ joined_names d) ∷ d, ok (b'x' ∷ joined_names d));
  close_temp = λ p d. (d, none);
  remove = drop_file;
  run_ffmpeg = λ args d. (d, none);
  run_ffprobe = λ args. err Error.plain;
  stat_size = λ p d. ok 2000;
  abs = λ p. ok p;
  write = λ p text d. (d, none);
}

mem-length : (ps : List Str) (q : Str) → mem ps q ≡ true → length q ≤ length (joined_names ps)
mem-length [] q h = absurd (cc h)
mem-length (p ∷ ps) q h = elim (Bool-cases (eq_str p q)) [
  | inl e ↦
      let z = (eq_str_iff p q).0 e in omega (arith, ap length z, length-append p (joined_names ps))
  | inr e ↦
      let k = mem-length ps q (rw e at h) in omega (arith, k, length-append p (joined_names ps))
]

new_name : (ps : List Str) → mem ps (b'x' ∷ joined_names ps) ≡ false
new_name ps = elim (Bool-cases (mem ps (b'x' ∷ joined_names ps))) [
  | inr e ↦ e
  | inl e ↦ absurd (omega (arith, mem-length ps (b'x' ∷ joined_names ps) e))
]

drop_file-mem :
    (p q : Str) (ps : List Str) → mem (drop_file p ps) q ≡ (not (eq_str p q) && mem ps q)
drop_file-mem p q [] = ground arith
drop_file-mem p q (r ∷ ps) =
    ground (arith, drop_file-mem p q ps, eq_str_iff p r, eq_str_iff p q, eq_str_iff r q)

temps-IsFiles : IsFiles temps mem
temps-IsFiles = record {
  fresh = λ pattern p d h. rw (sym (ok_inj (b'x' ∷ joined_names d) p h)) (new_name d);
  created = λ pattern p q d h. rw (sym (ok_inj (b'x' ∷ joined_names d) p h)) refl;
  not_created = λ pattern q e d h. absurd (cc h);
  closed = λ p q d. refl;
  removed = λ p q d. drop_file-mem p q d;
  ran = λ args q d. refl;
  written = λ p text q d. refl;
}

generate-LeavesOnly_example :
    LeavesOnly mem (codes "a" ∷ []) (generate_preview_clip temps (codes "v") 60 (codes "a" ∷ []))
generate-LeavesOnly_example = generate-LeavesOnly temps-IsFiles (codes "v") 60 (codes "a" ∷ [])
