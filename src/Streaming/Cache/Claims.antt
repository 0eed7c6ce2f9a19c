-- ===== src/Streaming/Cache/Claims.antt =====
-- The claims that requests make on the cache (internal/streaming/segment_cache.go).
use mathlib.Core.Path.{ap₂, subst}
use vaultflix.Streaming.Cache.Eviction.{evict_loop_keeps}
use vaultflix.Base.{
  ℕ, Str, codes, eq_str, eq_str_iff, has_prefix, Bool, true, false, List, [], ◌∷◌, ◌++◌, ◌≡◌, ◌≢◌,
  inl, inr, arith, refl, ap, ◌∙◌, ◌↔◌, length, Bool-cases, if◌then◌else◌,
}
use vaultflix.Streaming.Cache.{
  VideoState, Cache, sweep_loop, drop_video, evict, sweep, sanitize_key, segment_key, has_inflight,
  has_file, contains, Claim, cached, wait, owner, claim, publish, account, charge, release,
  release_key,
}

abbrev pub Lacks : ℕ → Str → Type 0
Lacks c [] = Unit {0}
Lacks c (d ∷ s) = (c ≢ d) × Lacks c s

-- A prefix test up to the first `/` compares the whole Video IDs.
has_prefix-segment_key :
    (a b name : Str)
    → Lacks b'/' a
    → Lacks b'/' b
    → has_prefix (a ++ codes "/") (b ++ (codes "/" ++ name)) ≡ true
    → a ≡ b
unfolding has_prefix
has_prefix-segment_key [] [] name h k e = refl
has_prefix-segment_key [] (d ∷ b) name h k e = absurd (ground arith)
has_prefix-segment_key (c ∷ a) [] name h k e = absurd (ground arith)
has_prefix-segment_key (c ∷ a) (d ∷ b) name h k e =
    let same : c ≡ d = ground arith in
    ap₂ ◌∷◌ same (has_prefix-segment_key a b name h.1 k.1 (ground arith))

prefix_self : (a name : Str) → has_prefix (a ++ codes "/") (a ++ (codes "/" ++ name)) ≡ true
unfolding has_prefix
prefix_self [] name = refl
prefix_self (c ∷ a) name = ground (arith, prefix_self a name)

prefix_of_own :
    (a b name : Str) → a ≡ b → has_prefix (a ++ codes "/") (b ++ (codes "/" ++ name)) ≡ true
prefix_of_own a b name e = rw e (prefix_self b name)

-- One claim keeps back the Video that it names, and no other, as long as no ID holds a slash.
pub claims_one_video :
    (a b name : Str)
    → Lacks b'/' a
    → Lacks b'/' b
    → (has_inflight a (segment_key b name ∷ []) ≡ true) ↔ (a ≡ b)
unfolding has_inflight segment_key
claims_one_video a b name h k = (
  λ e. has_prefix-segment_key a b name h k (ground arith),
  λ e. ground (arith, prefix_of_own a b name e),
)

-- no key twice
abbrev pub Distinct : List Str → Type 0
Distinct [] = Unit {0}
Distinct (k ∷ ks) = (contains k ks ≡ false) × Distinct ks

-- The requests that run a generation, by the key that each claimed, beside the cache.
pub record Flight : Type 0 where
  pub cache : Cache
  pub owners : List Str

-- One owner ends.
pub remove_one : Str → List Str → List Str
remove_one key [] = []
remove_one key (k ∷ ks) = if eq_str k key then ks else k ∷ remove_one key ks

abbrev owners_after : Claim → Str → List Str → List Str
owners_after owner key ks = key ∷ ks
owners_after cached key ks = ks
owners_after wait key ks = ks

-- What requests, the sweeper and the clock do, in any order: a claim; an owner that publishes its
-- file; one that charges it and evicts; one that ends; a sweep.
pub data Move : Flight → Flight → Type 0 where
  claims :
      (f : Flight) (id name : Str) (now : ℕ)
      → Move f (record {
        cache = (claim id name now f.cache).0;
        owners = owners_after (claim id name now f.cache).1 (segment_key id name) f.owners;
      })
  publishes :
      (f : Flight) (id name : Str) (bytes : ℕ)
      → Move f (record f { cache = publish id name bytes f.cache })
  accounts :
      (f : Flight) (removes : Str → Bool) (id : Str) (bytes now : ℕ)
      → Move f (record f { cache = account removes id bytes now f.cache })
  ends :
      (f : Flight) (id name : Str)
      → Move f (record {
        cache = release id name f.cache;
        owners = remove_one (segment_key id name) f.owners;
      })
  sweeps :
      (f : Flight) (removes : Str → Bool) (now : ℕ)
      → Move f (record f { cache = sweep removes now f.cache })

-- The claims are those of the owners, and no two owners have one key.
pub record OneEach (f : Flight) : Type 0 where
  pub claimed : f.cache.inflight ≡ f.owners
  pub distinct : Distinct f.owners

release_absent : (key : Str) (ks : List Str) → contains key ks ≡ false → release_key key ks ≡ ks
unfolding release_key contains
release_absent key [] h = refl
release_absent key (k ∷ ks) h = ground (arith, release_absent key ks)

release_one : (key : Str) (ks : List Str) → Distinct ks → release_key key ks ≡ remove_one key ks
unfolding release_key remove_one
release_one key [] d = refl
release_one key (k ∷ ks) (n, d) =
    ground (arith, release_one key ks d, eq_str_iff k key, release_absent key ks)

contains-remove_one :
    (k key : Str) (ks : List Str) → contains k ks ≡ false → contains k (remove_one key ks) ≡ false
unfolding contains remove_one
contains-remove_one k key [] h = refl
contains-remove_one k key (x ∷ ks) h = ground (arith, contains-remove_one k key ks)

Distinct-remove_one : (key : Str) (ks : List Str) → Distinct ks → Distinct (remove_one key ks)
unfolding remove_one
Distinct-remove_one key [] d = d
Distinct-remove_one key (k ∷ ks) (n, d) = elim (Bool-cases (eq_str k key)) [
  | inl e ↦ rw e d
  | inr e ↦ rw e (contains-remove_one k key ks n, Distinct-remove_one key ks d)
]

inflight-sweep_loop :
    (removes : Str → Bool) (now : ℕ) (sts : List VideoState) (c : Cache)
    → (sweep_loop removes now sts c).inflight ≡ c.inflight
unfolding sweep_loop drop_video
inflight-sweep_loop removes now [] c = refl
inflight-sweep_loop removes now (st ∷ sts) c = ground (
  arith,
  inflight-sweep_loop removes now sts c,
  inflight-sweep_loop removes now sts (drop_video removes st c),
)

inflight-evict :
    (removes : Str → Bool) (current : Str) (c : Cache)
    → (evict removes current c).inflight ≡ c.inflight
unfolding evict drop_video
inflight-evict removes current c =
    let kept =
      evict_loop_keeps removes current (λ d. d.inflight ≡ c.inflight) (λ d st v e. e)
        (length c.videos) c refl in
    ground arith

claim-OneEach :
    (id name : Str) (now : ℕ) (f : Flight)
    → OneEach f
    → OneEach (record {
      cache = (claim id name now f.cache).0;
      owners = owners_after (claim id name now f.cache).1 (segment_key id name) f.owners;
    })
unfolding claim
claim-OneEach id name now f h = elim (Bool-cases (has_file (sanitize_key id) name f.cache.files)) [
  | inl e ↦ rw e (record { claimed = h.claimed; distinct = h.distinct })
  | inr e ↦ elim (Bool-cases (contains (segment_key id name) f.cache.inflight)) [
    | inl e₂ ↦ rw (e, e₂) (record { claimed = h.claimed; distinct = h.distinct })
    | inr e₂ ↦
        rw (e, e₂)
          (record {
            claimed = ap (◌∷◌ (segment_key id name)) h.claimed;
            distinct =
                (subst (λ l. contains (segment_key id name) l ≡ false) h.claimed e₂, h.distinct);
          })
  ]
]

-- Whatever the order of the moves, no two requests generate the same segment at once, and the
-- claims are exactly those of the requests that generate one.
pub Move-OneEach : {f g : Flight} → Move f g → OneEach f → OneEach g
unfolding claim publish account release sweep
Move-OneEach (claims f id name now) h = claim-OneEach id name now f h
Move-OneEach (publishes f id name bytes) h = record { claimed = h.claimed; distinct = h.distinct }
Move-OneEach (accounts f removes id bytes now) h =
    let charged = record f.cache { videos = charge id bytes now f.cache.videos } in
    record { claimed = inflight-evict removes id charged ∙ h.claimed; distinct = h.distinct }
Move-OneEach (ends f id name) h = record {
  claimed =
      ap (release_key (segment_key id name)) h.claimed
      ∙ release_one (segment_key id name) f.owners h.distinct;
  distinct = Distinct-remove_one (segment_key id name) f.owners h.distinct;
}
Move-OneEach (sweeps f removes now) h = record {
  claimed = inflight-sweep_loop removes now f.cache.videos f.cache ∙ h.claimed;
  distinct = h.distinct;
}
