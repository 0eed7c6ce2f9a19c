-- ===== src/Streaming/Cache/Kept.antt =====
-- A Video and one of its files in the cache (internal/streaming/segment_cache.go), across an
-- eviction and a sweep.
use mathlib.Core.List.{Memᴰ}
use mathlib.Core.Path.{subst}
use vaultflix.Base.{
  ℕ, ◌-◌, Str, eq_str, eq_str_iff, Bool, true, leb, none, some, List, [], ◌∷◌, length, ◌==◌, ◌≡◌,
  ◌≢◌, inl, inr, refl, sym, ap, ◌∙◌, Bool-cases, All,
}
use vaultflix.Streaming.Cache.{
  VideoState, SegmentFile, Cache, has_inflight, delete_video, remove_dir, is_kept, pick_victim,
  drop_video, evict_loop, evict, sweep_loop, sweep,
}
use vaultflix.Streaming.Cache.Eviction.{Candidate, evict_loop_keeps, victim_mem}

-- A Video's account and one of its files are there, and no other Video has the file's directory.
pub record Holds (x : VideoState) (f : SegmentFile) (c : Cache) : Type 0 where
  pub account : Memᴰ x c.videos
  pub file : Memᴰ f c.files
  pub own_dir : All (λ v. v.id ≢ x.id → v.dir ≢ f.dir) c.videos

Mem-delete_video :
    (x : VideoState) (id : Str) (sts : List VideoState)
    → x.id ≢ id
    → Memᴰ x sts
    → Memᴰ x (delete_video id sts)
unfolding delete_video
Mem-delete_video x id [] n m = elim m [ ]
Mem-delete_video x id (y ∷ sts) n (Memᴰ.head e) = elim (Bool-cases (eq_str y.id id)) [
  | inl t ↦ absurd (n (cc (ap (λ s. s.id) e, (eq_str_iff y.id id).0 t)))
  | inr t ↦ rw t (Memᴰ.head e)
]
Mem-delete_video x id (y ∷ sts) n (Memᴰ.tail m) = elim (Bool-cases (eq_str y.id id)) [
  | inl t ↦ rw t (Mem-delete_video x id sts n m)
  | inr t ↦ rw t (Memᴰ.tail (Mem-delete_video x id sts n m))
]

Mem-remove_dir :
    (f : SegmentFile) (dir : Str) (fs : List SegmentFile)
    → f.dir ≢ dir
    → Memᴰ f fs
    → Memᴰ f (remove_dir dir fs)
unfolding remove_dir
Mem-remove_dir f dir [] n m = elim m [ ]
Mem-remove_dir f dir (g ∷ fs) n (Memᴰ.head e) = elim (Bool-cases (eq_str g.dir dir)) [
  | inl t ↦ absurd (n (cc (ap (λ s. s.dir) e, (eq_str_iff g.dir dir).0 t)))
  | inr t ↦ rw t (Memᴰ.head e)
]
Mem-remove_dir f dir (g ∷ fs) n (Memᴰ.tail m) = elim (Bool-cases (eq_str g.dir dir)) [
  | inl t ↦ rw t (Mem-remove_dir f dir fs n m)
  | inr t ↦ rw t (Memᴰ.tail (Mem-remove_dir f dir fs n m))
]

All-delete_video {ℓ} :
    (P : VideoState → Type ℓ) (id : Str) (sts : List VideoState)
    → All P sts
    → All P (delete_video id sts)
unfolding delete_video
All-delete_video P id [] h = h
All-delete_video P id (y ∷ sts) (p, h) = elim (Bool-cases (eq_str y.id id)) [
  | inl t ↦ rw t (All-delete_video P id sts h)
  | inr t ↦ rw t (p, All-delete_video P id sts h)
]

All-Mem {ℓ} :
    (P : VideoState → Type ℓ) (x : VideoState) (sts : List VideoState)
    → All P sts
    → Memᴰ x sts
    → P x
All-Mem P x [] h m = elim m [ ]
All-Mem P x (y ∷ sts) (p, h) (Memᴰ.head e) = subst P (sym e) p
All-Mem P x (y ∷ sts) (p, h) (Memᴰ.tail m) = All-Mem P x sts h m

module _ (removes : Str → Bool) (x : VideoState) (f : SegmentFile) where
  drop_video-Holds :
      (st : VideoState) (c : Cache)
      → st.id ≢ x.id
      → st.dir ≢ f.dir
      → Holds x f c
      → Holds x f (drop_video removes st c)
  unfolding drop_video
  drop_video-Holds st c n d h = record {
    account = Mem-delete_video x st.id c.videos (λ e. n (sym e)) h.account;
    file = elim (Bool-cases (removes st.dir)) [
      | inl t ↦ rw t (Mem-remove_dir f st.dir c.files (λ e. d (sym e)) h.file)
      | inr t ↦ rw t h.file
    ];
    own_dir = All-delete_video (λ v. v.id ≢ x.id → v.dir ≢ f.dir) st.id c.videos h.own_dir;
  }

  inflight-drop_video :
      (st : VideoState) (c : Cache) → (drop_video removes st c).inflight ≡ c.inflight
  unfolding drop_video
  inflight-drop_video st c = refl

  -- a victim is another Video
  victim_differs :
      (current : Str) (inflight : List Str) (st : VideoState)
      → Candidate current inflight st
      → is_kept current inflight x ≡ true
      → st.id ≢ x.id
  victim_differs current inflight st v k e = cc

  victim-Holds :
      (current : Str) (inflight : List Str)
      → is_kept current inflight x ≡ true
      → (d : Cache) (st : VideoState) → pick_victim current d.inflight d.videos none ≡ some st
      → (d.inflight ≡ inflight) × Holds x f d
      → ((drop_video removes st d).inflight ≡ inflight) × Holds x f (drop_video removes st d)
  victim-Holds current inflight k d st v (e, h) =
      let (free, m) = victim_mem removes current d st v in
      let n = victim_differs current inflight st (subst (λ l. Candidate current l st) e free) k in
      (
        inflight-drop_video st d ∙ e,
        drop_video-Holds st d n
            (All-Mem (λ v. v.id ≢ x.id → v.dir ≢ f.dir) st d.videos h.own_dir m n) h,
      )

  evict_loop-Holds :
      (current : Str) (fuel : ℕ) (c : Cache)
      → is_kept current c.inflight x ≡ true
      → Holds x f c
      → Holds x f (evict_loop fuel removes current c)
  evict_loop-Holds current fuel c k h =
      (evict_loop_keeps removes current (λ d. (d.inflight ≡ c.inflight) × Holds x f d)
        (victim-Holds current c.inflight k) fuel c (refl, h)).1

  -- An eviction for `current` keeps the account and the files of `current`, and of every Video
  -- with a segment in generation, if no other Video has their directory.
  pub evict-Holds :
      (current : Str) (c : Cache)
      → is_kept current c.inflight x ≡ true
      → Holds x f c
      → Holds x f (evict removes current c)
  unfolding evict
  evict-Holds current c k h = elim (Bool-cases (c.max_bytes == 0)) [
    | inl e ↦ rw e h
    | inr e ↦ rw e (evict_loop-Holds current (length c.videos) c k h)
  ]

  sweep_loop-Holds :
      (now : ℕ) (sts : List VideoState) (c : Cache)
      → has_inflight x.id c.inflight ≡ true
      → All (λ v. v.id ≢ x.id → v.dir ≢ f.dir) sts
      → Holds x f c
      → Holds x f (sweep_loop removes now sts c)
  unfolding sweep_loop
  sweep_loop-Holds now [] c k o h = h
  sweep_loop-Holds now (st ∷ sts) c k (p, o) h =
      elim (Bool-cases (leb (now - st.last_access) c.idle_timeout)) [
        | inl e ↦ rw e (sweep_loop-Holds now sts c k o h)
        | inr e ↦ elim (Bool-cases (has_inflight st.id c.inflight)) [
          | inl e₂ ↦ rw (e, e₂) (sweep_loop-Holds now sts c k o h)
          | inr e₂ ↦
              let n : st.id ≢ x.id = λ i. cc in
              rw (e, e₂)
                (sweep_loop-Holds now sts (drop_video removes st c)
                  (rw (inflight-drop_video st c) k) o (drop_video-Holds st c n (p n) h))
        ]
      ]

  -- A sweep keeps the account and the files of a Video with a segment in generation, however long
  -- ago it was accessed, if no other Video has their directory.
  pub sweep-Holds :
      (now : ℕ) (c : Cache)
      → has_inflight x.id c.inflight ≡ true
      → Holds x f c
      → Holds x f (sweep removes now c)
  unfolding sweep
  sweep-Holds now c k h = sweep_loop-Holds now c.videos c k h.own_dir h
