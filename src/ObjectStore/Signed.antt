-- ===== src/ObjectStore/Signed.antt =====
-- The URLs that the cache hands out, over every run of calls.
use vaultflix.Base.{
  ℕ, ◌+◌, ◌-◌, ◌≤◌, Str, eq_str, eq_str_iff, ltb, some, List, All, [], ◌∷◌, ◌≡◌, ◌⊎◌, inl, inr,
  refl, sym, arith, Option-cases, Bool-cases, ltb→lt,
}
use vaultflix.Errors.{Result, ok, err, Result-cases}
use vaultflix.UrlCache.{UrlCache, Entry, load, get, set, load-get, load-set, get-load}
use vaultflix.ObjectStore.Calls.{
  Asset, Call, bucket_of, key_of, key_of_injective, presign, generate, generate-presign, after,
}
use vaultflix.ObjectStore.{
  Minio, Buckets, Clock, presign_cache_leeway, to_relative_minio_url, expiry_or_default, remember,
  presign_cached,
}

module _ {O : Type 0} (m : Minio O) (b : Buckets) (slow : ℕ) where
  -- A URL that was signed for the object, in its bucket, and lasts until `until`.
  pub record IsIssued (a : Asset) (object_key url : Str) (until : ℕ) : Type 0 where
    pub expiry : ℕ
    pub signed : ℕ
    pub uri : Str
    pub by_client : m.presigned_get_object (bucket_of b a) object_key expiry signed ≡ ok uri
    pub url_of : to_relative_minio_url uri ≡ url
    pub ends : signed + expiry ≡ until

  -- What the cache holds was signed for the object that its key names, and outlives its entry by
  -- the leeway, less what a call may take between signing and storing.
  pub IsSound : UrlCache → Type 0
  IsSound cache =
      (a : Asset) (o : Str) (e : Entry)
      → load (key_of a o) cache ≡ some e
      → (until : ℕ) × IsIssued a o e.url until
        × (e.expires_at + presign_cache_leeway ≤ until + slow)

  -- the cache keeps what it holds, or loses some of it
  IsSound-get :
      (key : Str) (now : ℕ) (cache : UrlCache) → IsSound cache → IsSound (get key now cache).0
  unfolding IsSound
  IsSound-get key now cache s a o e h = s a o e (load-get key (key_of a o) now cache e h)

  IsSound-set :
      (a : Asset) (o url : Str) (ttl now until : ℕ) (cache : UrlCache)
      → IsIssued a o url until
      → now + ttl + presign_cache_leeway ≤ until + slow
      → IsSound cache
      → IsSound (set (key_of a o) url ttl now cache)
  unfolding IsSound
  IsSound-set a o url ttl now until cache i bound s c p e h =
      let h₂ = rw (load-set (key_of a o) (key_of c p) url ttl now cache) at h in
      elim (Bool-cases (eq_str (key_of a o) (key_of c p))) [
        | inl same ↦
            let (ac, op) =
              key_of_injective a c o p ((eq_str_iff (key_of a o) (key_of c p)).0 same) in
            let ee : record { url = url; expires_at = now + ttl } ≡ e = cc (rw same at h₂) in
            rw (sym ac, sym op, sym ee) (until, i, bound)
        | inr other ↦ s c p e (rw other at h₂)
      ]

  -- what a call returns, where it returns a URL: one from the cache, whose signature lasts beyond
  -- the look by the leeway, or one that was signed for this call
  abbrev pub Answers : Asset → Str → ℕ → Clock → Result Str → Type 0
  Answers a o expiry clock (err e) = Unit
  Answers a o expiry clock (ok url) =
      (until : ℕ) × IsIssued a o url until
      × ((clock.looked + presign_cache_leeway ≤ until + slow)
          ⊎ (until ≡ clock.signed + expiry_or_default expiry))

  issued :
      (a : Asset) (o uri : Str) (expiry : ℕ) (clock : Clock)
      → m.presigned_get_object (bucket_of b a) o expiry clock.signed ≡ ok uri
      → IsIssued a o (to_relative_minio_url uri) (clock.signed + expiry)
  issued a o uri expiry clock by = record {
    expiry = expiry;
    signed = clock.signed;
    uri = uri;
    by_client = by;
    url_of = refl;
    ends = refl;
  }

  from_cache :
      (a : Asset) (o url : Str) (expiry : ℕ) (clock : Clock) (cache : UrlCache)
      → (get (key_of a o) clock.looked cache).1 ≡ some url
      → IsSound cache
      → Answers a o expiry clock (ok url)
  unfolding IsSound
  from_cache a o url expiry clock cache g s =
      let (e, l, same, fresh) = get-load (key_of a o) url clock.looked cache g in
      let (until, i, lasts) = s a o e l in
      (until, rw (sym same) i, inl (omega (arith, lasts, fresh)))

  IsSound-remember :
      (a : Asset) (o uri : Str) (expiry : ℕ) (clock : Clock) (cache : UrlCache)
      → clock.stored ≤ clock.signed + slow
      → m.presigned_get_object (bucket_of b a) o expiry clock.signed ≡ ok uri
      → IsSound cache
      → IsSound (remember (key_of a o) (to_relative_minio_url uri) expiry clock.stored cache)
  unfolding remember
  IsSound-remember a o uri expiry clock cache quick by s =
      elim (Bool-cases (ltb presign_cache_leeway expiry)) [
        | inr less ↦ rw (less, remember) s
        | inl more ↦
            rw (more, remember)
              (IsSound-set a o (to_relative_minio_url uri) (expiry - presign_cache_leeway)
                clock.stored (clock.signed + expiry) cache (issued a o uri expiry clock by)
                (omega (arith, ltb→lt presign_cache_leeway expiry more)) s)
      ]

  -- one call keeps the cache sound and answers with a URL of the object
  presign-IsSound :
      (a : Asset) (o : Str) (expiry : ℕ) (clock : Clock) (cache : UrlCache)
      → clock.stored ≤ clock.signed + slow
      → IsSound cache
      → IsSound (presign m b a o expiry clock cache).0
        × Answers a o expiry clock (presign m b a o expiry clock cache).1
  unfolding presign presign_cached
  presign-IsSound a o expiry clock cache quick s =
      elim (Option-cases (get (key_of a o) clock.looked cache).1) [
        | inr (url, g) ↦
            rw (g, presign_cached)
              (
                IsSound-get (key_of a o) clock.looked cache s,
                from_cache a o url expiry clock cache g s,
              )
        | inl g ↦
            elim (Result-cases
              (m.presigned_get_object (bucket_of b a) o (expiry_or_default expiry) clock.signed)) [
                | inl (e, r) ↦
                    rw (g, r, presign_cached) (IsSound-get (key_of a o) clock.looked cache s, tt)
                | inr (uri, r) ↦
                    rw (g, r, presign_cached)
                      (
                        IsSound-remember a o uri (expiry_or_default expiry) clock
                            (get (key_of a o) clock.looked cache).0 quick r
                            (IsSound-get (key_of a o) clock.looked cache s),
                        (
                          clock.signed + expiry_or_default expiry,
                          issued a o uri (expiry_or_default expiry) clock r,
                          inr refl,
                        ),
                      )
              ]
      ]

  -- between its signing and its storing a call takes at most `slow`
  abbrev pub IsQuick : Call → Type 0
  IsQuick c = c.clock.stored ≤ c.clock.signed + slow

  after-IsSound :
      (cs : List Call) (cache : UrlCache)
      → All IsQuick cs
      → IsSound cache
      → IsSound (after m b cs cache)
  unfolding after
  after-IsSound [] cache _ s = s
  after-IsSound (c ∷ cs) cache (q, qs) s = after-IsSound cs (generate m b c cache).0 qs (
      rw (generate-presign m b c cache)
        (presign-IsSound c.asset c.object_key c.expiry c.clock cache q s).0)

  IsSound-empty : IsSound []
  unfolding IsSound load
  IsSound-empty a o e h = absurd (cc h)

  -- Over every run of calls, each of which takes at most `slow` between its signing and its
  -- storing: a URL that an operation returns was signed for that object in that operation's
  -- bucket, and either the signature was made for this call, with the lifetime that it asked for,
  -- or it lasts, from the look into the cache, for the leeway of five minutes less `slow`.
  pub generate-Answers :
      (cs : List Call) (c : Call)
      → All IsQuick cs
      → IsQuick c
      → Answers c.asset c.object_key c.expiry c.clock (generate m b c (after m b cs [])).1
  generate-Answers cs c qs q =
      rw (generate-presign m b c (after m b cs []))
        (presign-IsSound c.asset c.object_key c.expiry c.clock (after m b cs []) q
          (after-IsSound cs [] qs IsSound-empty)).1
