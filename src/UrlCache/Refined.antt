-- ===== src/UrlCache/Refined.antt =====
-- The cache against what it promises: a map whose entries expire. The map forgets nothing; the
-- cache drops an entry when a look finds it expired.
use vaultflix.Base.{
  ℕ, ◌+◌, ◌≤◌, Str, eq_str, ltb, if◌then◌else◌, Option, none, some, List, [], ◌∷◌, ◌≡◌, arith, refl,
  ◌∙◌,
}
use vaultflix.UrlCache.{UrlCache, load, inspect, conclude, get, set, get-set, get-get}

-- A call of the interface `URLCache`, at its time.
pub data Call : Type 0 where
  look : Str → ℕ → Call
  keep : Str → Str → ℕ → ℕ → Call

-- what it promises: to each key the last URL that was kept for it and the end of its life
abbrev pub Promise : Type 0
Promise = Str → Option (Str × ℕ)

abbrev alive : ℕ → Option (Str × ℕ) → Option Str
alive now none = none
alive now (some (url, expires_at)) = if ltb expires_at now then none else some url

abbrev pub promised : Str → ℕ → Promise → Option Str
promised key now p = alive now (p key)

abbrev pub promise : Str → Str → ℕ → ℕ → Promise → Promise
promise key url ttl now p k = if eq_str key k then some (url, now + ttl) else p k

-- the answers of a run of calls
unfoldable pub answers : List Call → UrlCache → List (Option Str)
answers [] m = []
answers (look key now ∷ cs) m = (get key now m).1 ∷ answers cs (get key now m).0
answers (keep key url ttl now ∷ cs) m = answers cs (set key url ttl now m)

unfoldable pub promises : List Call → Promise → List (Option Str)
promises [] p = []
promises (look key now ∷ cs) p = promised key now p ∷ promises cs p
promises (keep key url ttl now ∷ cs) p = promises cs (promise key url ttl now p)

abbrev pub time_of : Call → ℕ
time_of (look _ now) = now
time_of (keep _ _ _ now) = now

-- The clock does not go back, from `t` on.
abbrev pub InOrder : ℕ → List Call → Type 0
InOrder t [] = Unit
InOrder t (c ∷ cs) = (t ≤ time_of c) × InOrder (time_of c) cs

-- From `t` on the cache answers what is promised.
Meets : ℕ → UrlCache → Promise → Type 0
Meets t m p = (k : Str) (now : ℕ) → t ≤ now → (get k now m).1 ≡ promised k now p

Meets-look :
    (key : Str) (now t : ℕ) (m : UrlCache) (p : Promise)
    → t ≤ now
    → Meets t m p
    → Meets now (get key now m).0 p
unfolding Meets
Meets-look key now t m p l h k later n =
    get-get key k now later m n ∙ h k later (omega (arith, l, n))

Meets-keep :
    (key url : Str) (ttl now t : ℕ) (m : UrlCache) (p : Promise)
    → t ≤ now
    → Meets t m p
    → Meets now (set key url ttl now m) (promise key url ttl now p)
unfolding Meets
Meets-keep key url ttl now t m p l h k later n =
    ground (arith, get-set key k url ttl now later m, h k later)

answers-Meets :
    (cs : List Call) (t : ℕ) (m : UrlCache) (p : Promise)
    → InOrder t cs
    → Meets t m p
    → answers cs m ≡ promises cs p
unfolding answers promises Meets
answers-Meets [] t m p o h = refl
answers-Meets (look key now ∷ cs) t m p (l, o) h =
    rw (h key now l, answers-Meets cs now (get key now m).0 p o (Meets-look key now t m p l h)) refl
answers-Meets (keep key url ttl now ∷ cs) t m p (l, o) h =
    answers-Meets cs now (set key url ttl now m) (promise key url ttl now p) o
      (Meets-keep key url ttl now t m p l h)

Meets-empty : Meets 0 [] (λ k. none)
unfolding Meets get inspect conclude load
Meets-empty k now h = refl

-- Over every run of calls whose clock does not go back the cache answers what a map answers that
-- keeps, for each key, the last URL and the end of its life, and forgets nothing: that the cache
-- drops expired entries is never seen.
pub answers-promises : (cs : List Call) → InOrder 0 cs → answers cs [] ≡ promises cs (λ k. none)
answers-promises cs o = answers-Meets cs 0 [] (λ k. none) o Meets-empty
