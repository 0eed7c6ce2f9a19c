-- ===== src/Streaming/Cache.antt =====
-- `SegmentCache` (internal/streaming/segment_cache.go): the accounts in memory, the claims on
-- segments being generated, and the files on disk. Each critical section under `c.mu` is one
-- function; the disk is written outside of them. A map is a list in some order, any order of its
-- iteration; a Video ID is a UUID, never empty.
pub mod Eviction
pub mod Claims
pub mod Kept
use vaultflix.Base.{
  ℕ, zero, suc, ◌+◌, ◌-◌, Str, codes, eq_str, has_prefix, Bool, true, false, not, ◌&&◌, ◌||◌, ltb,
  leb, ◌==◌, if◌then◌else◌, Option, none, some, List, [], ◌∷◌, ◌++◌, length,
}

-- A byte of a directory name: letters, digits, `-` and `_` stay.
safe : ℕ → ℕ
safe c =
    if leb b'a' c && leb c b'z'
      || leb b'A' c && leb c b'Z'
      || leb b'0' c && leb c b'9'
      || c == b'-'
      || c == b'_'
    then c
    else b'_'

unfoldable pub sanitize_key : Str → Str
unfolding safe
sanitize_key [] = []
sanitize_key (c ∷ s) = safe c ∷ sanitize_key s

-- `videoCacheState` under its key.
pub record VideoState : Type 0 where
  pub id : Str
  pub dir : Str
  pub size_bytes : ℕ
  pub last_access : ℕ

-- A finished segment on disk.
pub record SegmentFile : Type 0 where
  pub dir : Str
  pub name : Str
  pub bytes : ℕ

pub record Cache : Type 0 where
  pub idle_timeout : ℕ
  pub max_bytes : ℕ  -- 0 for no bound: the source tests `maxBytes <= 0`
  pub videos : List VideoState
  pub inflight : List Str
  pub files : List SegmentFile

unfoldable pub segment_key : Str → Str → Str
segment_key id name = id ++ (codes "/" ++ name)

unfoldable pub has_inflight : Str → List Str → Bool
unfolding has_prefix
has_inflight id [] = false
has_inflight id (key ∷ keys) = has_prefix (id ++ codes "/") key || has_inflight id keys

unfoldable pub total : List VideoState → ℕ
total [] = 0
total (st ∷ sts) = st.size_bytes + total sts

unfoldable pub delete_video : Str → List VideoState → List VideoState
delete_video id [] = []
delete_video id (st ∷ sts) =
    if eq_str st.id id then delete_video id sts else st ∷ delete_video id sts

-- `os.RemoveAll` of a directory.
unfoldable pub remove_dir : Str → List SegmentFile → List SegmentFile
remove_dir dir [] = []
remove_dir dir (f ∷ fs) = if eq_str f.dir dir then remove_dir dir fs else f ∷ remove_dir dir fs

unfoldable pub has_file : Str → Str → List SegmentFile → Bool
has_file dir name [] = false
has_file dir name (f ∷ fs) = eq_str f.dir dir && eq_str f.name name || has_file dir name fs

-- whether the loop takes `st` over the victim so far
abbrev pub older : Option VideoState → VideoState → Bool
older none st = true
older (some v) st = ltb st.last_access v.last_access

-- Videos that an eviction skips.
abbrev pub is_kept : Str → List Str → VideoState → Bool
is_kept current inflight st = eq_str st.id current || has_inflight st.id inflight

-- The inner loop of `evictLocked`.
unfoldable pub pick_victim :
    Str → List Str → List VideoState → Option VideoState → Option VideoState
pick_victim current inflight [] victim = victim
pick_victim current inflight (st ∷ sts) victim =
    pick_victim current inflight sts
      (if is_kept current inflight st then victim else if older victim st then some st else victim)

-- `removes dir` says whether `os.RemoveAll(dir)` succeeds; a failure is only logged.
unfoldable pub drop_video : (Str → Bool) → VideoState → Cache → Cache
unfolding delete_video remove_dir
drop_video removes st c = record c {
  videos = delete_video st.id c.videos;
  files = if removes st.dir then remove_dir st.dir c.files else c.files;
}

-- The outer loop: each round drops a Video, so their number is fuel enough.
unfoldable pub evict_loop : ℕ → (Str → Bool) → Str → Cache → Cache
unfolding total pick_victim drop_video
evict_loop zero removes current c = c
evict_loop (suc fuel) removes current c = elim (ltb c.max_bytes (total c.videos)) [
  | false ↦ c
  | true ↦ elim (pick_victim current c.inflight c.videos none) [
    | none ↦ c
    | some st ↦ evict_loop fuel removes current (drop_video removes st c)
  ]
]

unfoldable pub evict : (Str → Bool) → Str → Cache → Cache
unfolding evict_loop
evict removes current c =
    if c.max_bytes == 0 then c else evict_loop (length c.videos) removes current c

-- `st.lastAccess = time.Now()`, if the Video is known
unfoldable pub touch : Str → ℕ → List VideoState → List VideoState
touch id now [] = []
touch id now (st ∷ sts) =
    if eq_str st.id id then record st { last_access = now } ∷ sts else st ∷ touch id now sts

-- What the first critical section of `EnsureSegment` decides: the file is there, another request
-- generates it (wait, and look again), or this request does.
pub data Claim : Type 0 where
  cached wait owner : Claim

unfoldable pub contains : Str → List Str → Bool
contains key [] = false
contains key (k ∷ ks) = eq_str k key || contains key ks

unfoldable pub claim : Str → Str → ℕ → Cache → Cache × Claim
unfolding touch has_file contains segment_key
claim id name now c =
    let c' = record c { videos = touch id now c.videos } in
    if has_file (sanitize_key id) name c.files
    then (c', cached)
    else if contains (segment_key id name) c.inflight
    then (c', wait)
    else (record c' { inflight = segment_key id name ∷ c.inflight }, owner)

-- `os.Rename(tmp, path)` by the owner, outside the lock, and no more of `generate`: the segment that
-- it moves is cut by `Streaming.Generator`, and the directory, the timeout and the removal of the
-- temp file are left out.
unfoldable pub publish : Str → Str → ℕ → Cache → Cache
publish id name bytes c = record c {
  files = record { dir = sanitize_key id; name = name; bytes = bytes } ∷ c.files;
}

-- Adds a segment to the account of its Video, which is opened if there is none.
unfoldable pub charge : Str → ℕ → ℕ → List VideoState → List VideoState
charge id bytes now [] =
    record { id = id; dir = sanitize_key id; size_bytes = bytes; last_access = now } ∷ []
charge id bytes now (st ∷ sts) =
    if eq_str st.id id
    then record st { size_bytes = st.size_bytes + bytes; last_access = now } ∷ sts
    else st ∷ charge id bytes now sts

-- The critical section at the end of `generate`.
unfoldable pub account : (Str → Bool) → Str → ℕ → ℕ → Cache → Cache
unfolding charge evict
account removes id bytes now c =
    evict removes id (record c { videos = charge id bytes now c.videos })

-- `delete(c.inflight, key)`
unfoldable pub release_key : Str → List Str → List Str
release_key key [] = []
release_key key (k ∷ ks) = if eq_str k key then release_key key ks else k ∷ release_key key ks

unfoldable pub release : Str → Str → Cache → Cache
unfolding release_key segment_key
release id name c = record c { inflight = release_key (segment_key id name) c.inflight }

-- The loop of `Sweep`: a Video stays if it was accessed lately or has a segment in generation.
unfoldable pub sweep_loop : (Str → Bool) → ℕ → List VideoState → Cache → Cache
unfolding drop_video
sweep_loop removes now [] c = c
sweep_loop removes now (st ∷ sts) c = sweep_loop removes now sts (
    if leb (now - st.last_access) c.idle_timeout
    then c
    else if has_inflight st.id c.inflight
    then c
    else drop_video removes st c)

unfoldable pub sweep : (Str → Bool) → ℕ → Cache → Cache
unfolding sweep_loop
sweep removes now c = sweep_loop removes now c.videos c
