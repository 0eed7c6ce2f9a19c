-- ===== src/UrlCache.antt =====
-- The cache of presigned URLs (internal/service/url_cache.go). The map is an association list and
-- `now` the time of the call. `Get` is two steps on the `sync.Map`: a look, `inspect`, and the
-- deletion of an expired entry, in `conclude`. `get` is a call during which no other one comes.
pub mod Refined
use vaultflix.Base.{
  ℕ, ◌+◌, ◌≤◌, Str, eq_str, eq_str_iff, ltb, if◌then◌else◌, Option, none, some, List, [], ◌∷◌, ◌≡◌,
  ◌⊎◌, refl, arith, Option-cases, Bool-cases, inl, inr, true, false,
}

pub record Entry : Type 0 where
  pub url : Str
  pub expires_at : ℕ

abbrev pub UrlCache : Type 0
UrlCache = List (Str × Entry)

-- `sync.Map`: Load, Delete and Store.
unfoldable pub load : Str → UrlCache → Option Entry
load key [] = none
load key ((k, e) ∷ m) = if eq_str k key then some e else load key m

unfoldable pub delete : Str → UrlCache → UrlCache
delete key [] = []
delete key ((k, e) ∷ m) = if eq_str k key then delete key m else (k, e) ∷ delete key m

unfoldable pub store : Str → Entry → UrlCache → UrlCache
unfolding delete
store key e m = (key, e) ∷ delete key m

-- What a `Get` sees of its entry: nothing, a URL, or that the entry has expired.
pub data Looked : Type 0 where
  missing expired : Looked
  served : Str → Looked

-- The Load of `Get`, and its test of the time.
unfoldable pub inspect : Str → ℕ → UrlCache → Looked
unfolding load
inspect key now m = elim (load key m) [
  | none ↦ missing
  | some e ↦ if ltb e.expires_at now then expired else served e.url
]

-- The rest of `Get`: an expired entry is deleted, whatever has come to stand there since the look.
unfoldable pub conclude : Str → Looked → UrlCache → UrlCache × Option Str
unfolding delete
conclude key missing m = (m, none)
conclude key expired m = (delete key m, none)
conclude key (served url) m = (m, some url)

-- `Get`, with no other call between its two steps.
unfoldable pub get : Str → ℕ → UrlCache → UrlCache × Option Str
unfolding inspect conclude
get key now m = conclude key (inspect key now m) m

unfoldable pub set : Str → Str → ℕ → ℕ → UrlCache → UrlCache
unfolding store
set key url ttl now m = store key (record { url = url; expires_at = now + ttl }) m

pub load-delete :
    (key k : Str) (m : UrlCache) → load k (delete key m) ≡ (if eq_str key k then none else load k m)
unfolding load delete
load-delete key k [] = ground arith
load-delete key k ((j, e) ∷ m) =
    ground (arith, load-delete key k m, eq_str_iff j key, eq_str_iff j k, eq_str_iff key k)

-- A URL is served until its time to live has passed, its last instant included, and not after; a
-- set of one key changes no other key's answer.
pub get-set :
    (key k url : Str) (ttl stored now : ℕ) (m : UrlCache)
    → (get k now (set key url ttl stored m)).1 ≡ (
        if eq_str key k
        then (if ltb (stored + ttl) now then none else some url)
        else (get k now m).1)
unfolding get set inspect conclude
get-set key k url ttl stored now m = ground (arith, load-delete key k m)

-- Reading changes no answer, at that time or later: an entry is dropped only when it has expired.
pub get-get :
    (key k : Str) (now later : ℕ) (m : UrlCache)
    → now ≤ later
    → (get k later (get key now m).0).1 ≡ (get k later m).1
unfolding get inspect conclude
get-get key k now later m h = ground (arith, load-delete key k m, eq_str_iff key k)

-- Where other calls come between the look of a `Get` and its deletion, whatever `m` they make of the
-- cache: what the `Get` leaves answers as `m` does, but for the URLs of its own key, where after an
-- expired look it may have none, a fresh one lost included.
pub get-conclude :
    (key k : Str) (seen : Looked) (now : ℕ) (m : UrlCache)
    → ((get k now (conclude key seen m).0).1 ≡ (get k now m).1)
      ⊎ (key ≡ k) × (seen ≡ expired) × ((get k now (conclude key seen m).0).1 ≡ none)
unfolding get inspect conclude
get-conclude key k missing now m = inl refl
get-conclude key k (served url) now m = inl refl
get-conclude key k expired now m = ground (arith, load-delete key k m, eq_str_iff key k)

-- what the look of one key leaves of the entries
pub load-get :
    (key k : Str) (now : ℕ) (m : UrlCache) (e : Entry)
    → load k (get key now m).0 ≡ some e
    → load k m ≡ some e
unfolding get inspect conclude
load-get key k now m e h = ground (arith, load-delete key k m, eq_str_iff key k)

pub load-set :
    (key k url : Str) (ttl now : ℕ) (m : UrlCache)
    → load k (set key url ttl now m)
      ≡ (if eq_str key k then some (record { url = url; expires_at = now + ttl }) else load k m)
unfolding set store load
load-set key k url ttl now m = ground (arith, load-delete key k m)

-- what is served is an entry that has not expired
pub get-load :
    (key url : Str) (now : ℕ) (m : UrlCache)
    → (get key now m).1 ≡ some url
    → (e : Entry) × (load key m ≡ some e) × (e.url ≡ url) × (now ≤ e.expires_at)
unfolding get inspect conclude
get-load key url now m h = elim (Option-cases (load key m)) [
  | inl n ↦ absurd (cc (rw (n, get, inspect) at h))
  | inr (e, l) ↦ elim (Bool-cases (ltb e.expires_at now)) [
    | inl x ↦ absurd (cc (rw (l, x, get, inspect) at h))
    | inr v ↦ (e, l, cc (rw (l, v, get, inspect) at h), ground arith)
  ]
]
