-- ===== src/Streaming/Cache/Eviction.antt =====
-- What an eviction leaves and what it drops.
use mathlib.Core.List.{Memᴰ}
use mathlib.Core.Path.{subst}
use vaultflix.Base.{
  ℕ, zero, suc, ◌≤◌, ◌<◌, Str, eq_str_iff, Bool, false, if◌then◌else◌, ltb, ltb→lt, Option, none,
  some, List, [], ◌∷◌, length, ◌≡◌, ◌⊎◌, inl, inr, arith, refl, sym, Bool-cases, Option-cases, ◌==◌,
  All, ap,
}
use vaultflix.Streaming.Cache.{
  VideoState, Cache, total, delete_video, is_kept, older, pick_victim, drop_video, evict_loop,
  evict,
}

-- A Video that an eviction may drop.
abbrev pub Candidate : Str → List Str → VideoState → Type 0
Candidate current inflight st = is_kept current inflight st ≡ false

-- No candidate of the list was accessed before `st`.
abbrev pub Oldest : Str → List Str → List VideoState → VideoState → Type 0
Oldest current inflight sts st =
    All (λ x. Candidate current inflight x → st.last_access ≤ x.last_access) sts

-- not accessed after the victim so far
abbrev Before : VideoState → Option VideoState → Type 0
Before st none = Unit {0}
Before st (some v) = st.last_access ≤ v.last_access

module _ (current : Str) (inflight : List Str) where
  keep_or_take : VideoState → Option VideoState → Option VideoState
  keep_or_take st victim =
      if is_kept current inflight st then victim else if older victim st then some st else victim

  take_Candidate :
      (x : VideoState) (v : Option VideoState) (st : VideoState)
      → keep_or_take x v ≡ some st
      → (v ≡ some st) ⊎ (Candidate current inflight st × (st ≡ x))
  unfolding keep_or_take
  take_Candidate x v st h = ground arith

  take_Before :
      (x : VideoState) (v : Option VideoState) (st : VideoState)
      → Before st (keep_or_take x v)
      → Before st v × (Candidate current inflight x → st.last_access ≤ x.last_access)
  unfolding keep_or_take
  take_Before x none st h = ground arith
  take_Before x (some v) st h = ground arith

  take_none :
      (x : VideoState) (v : Option VideoState)
      → keep_or_take x v ≡ none
      → (v ≡ none) × ¬ (Candidate current inflight x)
  unfolding keep_or_take
  take_none x none h = (refl, λ c. ground arith)
  take_none x (some v) h = absurd (ground arith)

  -- The victim is a candidate of the list, or the one so far, and it is the oldest of them.
  pub pick_victim_lem :
      (sts : List VideoState) (v : Option VideoState) (st : VideoState)
      → pick_victim current inflight sts v ≡ some st
      → ((v ≡ some st) ⊎ (Candidate current inflight st × Memᴰ st sts))
        × Oldest current inflight sts st
        × Before st v
  unfolding pick_victim keep_or_take
  pick_victim_lem [] v st h = (inl h, tt, rw h (omega arith))
  pick_victim_lem (x ∷ sts) v st h =
      let (from, oldest, before) = pick_victim_lem sts (keep_or_take x v) st h in
      let (b, c) = take_Before x v st before in
      (
        elim from [
          | inl e ↦ elim (take_Candidate x v st e) [
            | inl p ↦ inl p
            | inr (k, p) ↦ inr (k, Memᴰ.head p)
          ]
          | inr (k, m) ↦ inr (k, Memᴰ.tail m)
        ],
        (c, oldest),
        b,
      )

  pick_victim-none :
      (sts : List VideoState) (v : Option VideoState)
      → pick_victim current inflight sts v ≡ none
      → (v ≡ none) × All (λ x. ¬ (Candidate current inflight x)) sts
  unfolding pick_victim keep_or_take
  pick_victim-none [] v h = (h, tt)
  pick_victim-none (x ∷ sts) v h =
      let (e, rest) = pick_victim-none sts (keep_or_take x v) h in
      let (p, k) = take_none x v e in (p, (k, rest))

length-delete_video : (id : Str) (sts : List VideoState) → length (delete_video id sts) ≤ length sts
unfolding delete_video
length-delete_video id [] = omega arith
length-delete_video id (st ∷ sts) = ground (arith, length-delete_video id sts)

length-delete_video_mem :
    (st : VideoState) (sts : List VideoState)
    → Memᴰ st sts
    → length (delete_video st.id sts) < length sts
unfolding delete_video
length-delete_video_mem st [] m = elim m [ ]
length-delete_video_mem st (x ∷ sts) (Memᴰ.head e) =
    ground (arith, ap (λ s. s.id) e, eq_str_iff x.id st.id, length-delete_video st.id sts)
length-delete_video_mem st (x ∷ sts) (Memᴰ.tail m) =
    ground (arith, length-delete_video_mem st sts m)

-- What an eviction ends with: the bound holds, or every Video left is the current one or has a
-- segment in generation.
abbrev pub Settled : Str → Cache → Type 0
Settled current c =
    (total c.videos ≤ c.max_bytes) ⊎ All (λ x. ¬ (Candidate current c.inflight x)) c.videos

total-nil : (sts : List VideoState) → length sts ≤ 0 → total sts ≡ 0
unfolding total
total-nil [] h = refl
total-nil (x ∷ sts) h = absurd (omega arith)

module _ (removes : Str → Bool) (current : Str) where
  evict_loop_within :
      (fuel : ℕ) (c : Cache)
      → total c.videos ≤ c.max_bytes
      → evict_loop (suc fuel) removes current c ≡ c
  unfolding evict_loop
  evict_loop_within fuel c h = ground arith

  evict_loop_stuck :
      (fuel : ℕ) (c : Cache)
      → pick_victim current c.inflight c.videos none ≡ none
      → evict_loop (suc fuel) removes current c ≡ c
  unfolding evict_loop
  evict_loop_stuck fuel c h = ground arith

  evict_loop_step :
      (fuel : ℕ) (c : Cache) (st : VideoState)
      → c.max_bytes < total c.videos
      → pick_victim current c.inflight c.videos none ≡ some st
      → evict_loop (suc fuel) removes current c
        ≡ evict_loop fuel removes current (drop_video removes st c)
  unfolding evict_loop
  evict_loop_step fuel c st h k = ground arith

  -- One induction for every property that each dropping of a victim keeps.
  pub evict_loop_keeps :
      (P : Cache → Type 0)
      → ((c : Cache) (st : VideoState)
          → pick_victim current c.inflight c.videos none ≡ some st
          → P c
          → P (drop_video removes st c))
      → (fuel : ℕ) (c : Cache) → P c
      → P (evict_loop fuel removes current c)
  evict_loop_keeps P keep zero c p = unfold evict_loop in p
  evict_loop_keeps P keep (suc fuel) c p = elim (Bool-cases (ltb c.max_bytes (total c.videos))) [
    | inr e ↦ subst P (sym (evict_loop_within fuel c (ground arith))) p
    | inl e ↦ elim (Option-cases (pick_victim current c.inflight c.videos none)) [
      | inl e₂ ↦ subst P (sym (evict_loop_stuck fuel c e₂)) p
      | inr (st, e₂) ↦
          subst P (sym (evict_loop_step fuel c st (ltb→lt _ _ e) e₂))
            (evict_loop_keeps P keep fuel (drop_video removes st c) (keep c st e₂ p))
    ]
  ]

  pub victim_mem :
      (c : Cache) (st : VideoState)
      → pick_victim current c.inflight c.videos none ≡ some st
      → Candidate current c.inflight st × Memᴰ st c.videos
  victim_mem c st h = elim ((pick_victim_lem current c.inflight c.videos none st h).0) [
    | inl e ↦ absurd (ground arith)
    | inr k ↦ k
  ]

  length-drop_video :
      (c : Cache) (st : VideoState)
      → pick_victim current c.inflight c.videos none ≡ some st
      → length (drop_video removes st c).videos < length c.videos
  unfolding drop_video
  length-drop_video c st h = length-delete_video_mem st c.videos (victim_mem c st h).1

  evict_loop-Settled :
      (fuel : ℕ) (c : Cache)
      → length c.videos ≤ fuel
      → Settled current (evict_loop fuel removes current c)
  evict_loop-Settled zero c h = unfold evict_loop in inl (omega (arith, total-nil c.videos h))
  evict_loop-Settled (suc fuel) c h = elim (Bool-cases (ltb c.max_bytes (total c.videos))) [
    | inr e ↦
        let le : total c.videos ≤ c.max_bytes = ground arith in
        subst (Settled current) (sym (evict_loop_within fuel c le)) (inl le)
    | inl e ↦ elim (Option-cases (pick_victim current c.inflight c.videos none)) [
      | inl e₂ ↦
          subst (Settled current) (sym (evict_loop_stuck fuel c e₂))
            (inr (pick_victim-none current c.inflight c.videos none e₂).1)
      | inr (st, e₂) ↦ subst (Settled current) (sym (evict_loop_step fuel c st (ltb→lt _ _ e) e₂)) (
          evict_loop-Settled fuel (drop_video removes st c)
            (omega (arith, length-drop_video c st e₂)))
    ]
  ]

  -- The eviction after a new segment ends with the accounts within the bound, unless every Video
  -- left is the current one or has a segment in generation.
  pub evict-Settled : (c : Cache) → 0 < c.max_bytes → Settled current (evict removes current c)
  unfolding evict
  evict-Settled c h =
      let e : (c.max_bytes == 0) ≡ false = ground arith in
      subst (Settled current) (sym (evict_bounded c e))
        (evict_loop-Settled (length c.videos) c (omega arith))
    where
      evict_bounded :
          (c : Cache)
          → (c.max_bytes == 0) ≡ false
          → evict removes current c ≡ evict_loop (length c.videos) removes current c
      evict_bounded c e = rw e
