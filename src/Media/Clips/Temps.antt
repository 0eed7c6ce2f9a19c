-- ===== src/Media/Clips/Temps.antt =====
-- The account of the temp files.
use vaultflix.Base.{
  Str, eq_str, eq_str_iff, Bool, true, false, ◌&&◌, ◌||◌, not, List, [], ◌∷◌, ◌++◌, ◌≡◌, refl,
  arith, sym, ◌∙◌,
}
use vaultflix.Errors.{Error, Result, ok, err}
use vaultflix.Media.Clips.{Files}

-- What `os` does to the temp files of the program, of which `live` is the account: `CreateTemp`
-- makes one that was not there, `Remove` takes one away, and what runs in between, ffmpeg
-- included, only writes into files that are there.
pub record IsFiles {D : Type 0} (f : Files D) (live : D → Str → Bool) : Type 0 where
  pub fresh : (pattern p : Str) (d : D) → (f.create_temp pattern d).1 ≡ ok p → live d p ≡ false
  pub created :
      (pattern p q : Str) (d : D)
      → (f.create_temp pattern d).1 ≡ ok p
      → live (f.create_temp pattern d).0 q ≡ (eq_str p q || live d q)
  pub not_created :
      (pattern q : Str) (e : Error) (d : D)
      → (f.create_temp pattern d).1 ≡ err e
      → live (f.create_temp pattern d).0 q ≡ live d q
  pub closed : (p q : Str) (d : D) → live (f.close_temp p d).0 q ≡ live d q
  pub removed : (p q : Str) (d : D) → live (f.remove p d) q ≡ (not (eq_str p q) && live d q)
  pub ran : (args : List Str) (q : Str) (d : D) → live (f.run_ffmpeg args d).0 q ≡ live d q
  pub written : (p text q : Str) (d : D) → live (f.write p text d).0 q ≡ live d q

abbrev pub mem : List Str → Str → Bool
mem [] q = false
mem (p ∷ ps) q = eq_str p q || mem ps q

pub mem-snoc : (ps : List Str) (p q : Str) → mem (ps ++ p ∷ []) q ≡ (mem ps q || eq_str p q)
mem-snoc [] p q = ground arith
mem-snoc (x ∷ ps) p q = ground (arith, mem-snoc ps p q)

module _ {D : Type 0} (live : D → Str → Bool) where
  -- the same temp files are there
  unfoldable pub Same : D → D → Type 0
  Same d e = (q : Str) → live e q ≡ live d q

  -- one is there that was not
  unfoldable pub Created : Str → D → D → Type 0
  Created p d e = (live d p ≡ false) × ((q : Str) → live e q ≡ (eq_str p q || live d q))

  -- Beyond those of `d` the file that a result names is left, and no other.
  abbrev pub LeavesOnly : D → D × Result Str → Type 0
  LeavesOnly d (e, ok p) = Created p d e
  LeavesOnly d (e, err _) = Same d e

  -- those of `d` and `ps`, which were not there
  unfoldable pub Holds : List Str → D → D → Type 0
  Holds ps d e =
      ((q : Str) → live e q ≡ (mem ps q || live d q))
      × ((q : Str) → mem ps q ≡ true → live d q ≡ false)

  pub Holds-nil : (d : D) → Holds [] d d
  unfolding Holds
  Holds-nil d = (λ q. refl, λ q h. absurd (cc h))

  pub Holds-keep : (ps : List Str) (d e e₂ : D) → Holds ps d e → Same e e₂ → Holds ps d e₂
  unfolding Holds Same
  Holds-keep ps d e e₂ (h, n) s = (λ q. s q ∙ h q, n)

  pub Holds-create :
      (ps : List Str) (p : Str) (d e e₂ : D)
      → Holds ps d e
      → Created p e e₂
      → Holds (ps ++ p ∷ []) d e₂
  unfolding Holds Created
  Holds-create ps p d e e₂ (h, n) (fresh, c) = (
    λ q. ground (arith, c q, h q, mem-snoc ps p q),
    λ q m. ground (arith, h q, h p, n q, mem-snoc ps p q, eq_str_iff p q, fresh),
  )

  pub Same-refl : (d : D) → Same d d
  unfolding Same
  Same-refl d q = refl

  pub Same-trans : (d e k : D) → Same d e → Same e k → Same d k
  unfolding Same
  Same-trans d e k s t q = t q ∙ s q

  pub left_err :
      (d : D) (r : D × Result Str) (e : Error) → r.1 ≡ err e → LeavesOnly d r → Same d r.0
  left_err d (x, ok p) e h l = absurd (cc h)
  left_err d (x, err y) e h l = l

  pub left_ok :
      (d : D) (r : D × Result Str) (p : Str) → r.1 ≡ ok p → LeavesOnly d r → Created p d r.0
  left_ok d (x, ok y) p h l = let e : y ≡ p = cc h in rw (sym e) l
  left_ok d (x, err y) p h l = absurd (cc h)
