-- ===== src/Catalog/Lists/Order.antt =====
-- What the Recommendations of a day are.
use vaultflix.Base.{
  ℕ, zero, suc, Str, true, false, List, [], ◌∷◌, All, map, length, ◌≡◌, ◌≢◌, ◌⊎◌, inl, inr, refl,
  ap, sym,
}
use vaultflix.Base.Int.{ℤ, pos}
use vaultflix.Errors.{ok, Result-cases}
use vaultflix.Model.{Video}
use vaultflix.Catalog.{each, each-map, each-All}
use vaultflix.Catalog.Lists.{
  RecommendationWithVideo, RecommendationItem, Rows, recommendation_item, fallback_item,
  fallback_items, get_today,
}

-- the numbers from `i` on, `n` of them
abbrev pub numbered : ℕ → ℕ → List ℤ
numbered i zero = []
numbered i (suc n) = pos (suc i) ∷ numbered (suc i) n

-- the manual Recommendations of a day, in the order of the rows
abbrev pub IsManual : List RecommendationWithVideo → List RecommendationItem → Type 0
IsManual recs items =
    (map (λ i. i.id) items ≡ map (λ v. v.id) recs)
    × (map (λ i. i.video_id) items ≡ map (λ v. v.video_id) recs)
    × (map (λ i. i.sort_order) items ≡ map (λ v. v.sort_order) recs)
    × All (λ i. i.is_fallback ≡ false) items

-- a random choice, numbered from 1 on
abbrev pub IsFallback : List Video → List RecommendationItem → Type 0
IsFallback videos items =
    (map (λ i. i.video_id) items ≡ map (λ v. v.id) videos)
    × (map (λ i. i.sort_order) items ≡ numbered 0 (length videos))
    × All (λ i. i.is_fallback ≡ true) items

module _ {D : Type 0} (r : Rows D) where
  IsManual-items :
      (recs : List RecommendationWithVideo) (d : D)
      → IsManual recs (each (recommendation_item r) recs d).1
  unfolding recommendation_item
  IsManual-items recs d = (
    each-map (recommendation_item r) (λ i. i.id) (λ v. v.id) (λ v d. refl) recs d,
    each-map (recommendation_item r) (λ i. i.video_id) (λ v. v.video_id) (λ v d. refl) recs d,
    each-map (recommendation_item r) (λ i. i.sort_order) (λ v. v.sort_order) (λ v d. refl) recs d,
    each-All (λ i. i.is_fallback ≡ false) (recommendation_item r) (λ v d. refl) recs d,
  )

  IsFallback-items :
      (i : ℕ) (videos : List Video) (d : D)
      → let items = (fallback_items r i videos d).1 in
        (map (λ i. i.video_id) items ≡ map (λ v. v.id) videos)
        × (map (λ i. i.sort_order) items ≡ numbered i (length videos))
        × All (λ i. i.is_fallback ≡ true) items
  unfolding fallback_items fallback_item
  IsFallback-items i [] d = (refl, refl, tt)
  IsFallback-items i (v ∷ vs) d =
      let (ids, order, all_) = IsFallback-items (suc i) vs (fallback_item r i v d).0 in
      (ap (λ x. v.id ∷ x) ids, ap (λ x. pos (suc i) ∷ x) order, (refl, all_))

  -- The Recommendations that a user gets on a day: the manual ones of the date, each with its row's
  -- ID, Video and sort order, if there is one; and only if there is none the Videos of the random
  -- choice, numbered from 1 on, and marked as such.
  pub get_today-Chosen :
      (user_id : Str) (date count : ℕ) (d : D) (items : List RecommendationItem)
      → (get_today r user_id date count d).1 ≡ ok items
      → ((recs : List RecommendationWithVideo) × (r.recommendations_by_date date d ≡ ok recs)
          × (recs ≢ [])
          × IsManual recs items)
        ⊎ ((videos : List Video) × (r.recommendations_by_date date d ≡ ok [])
            × (r.random_unwatched user_id count d ≡ ok videos)
            × IsFallback videos items)
  unfolding get_today
  get_today-Chosen user_id date count d items h =
      elim (Result-cases (r.recommendations_by_date date d)) [
        | inl (e, q) ↦ absurd (cc (rw (q, get_today) at h))
        | inr (rec ∷ recs, q) ↦
            let e : (each (recommendation_item r) (rec ∷ recs) d).1 ≡ items =
              cc (rw (q, get_today) at h) in
            inl (rec ∷ recs, q, (λ z. cc z), rw (sym e) (IsManual-items (rec ∷ recs) d))
        | inr ([], q) ↦ elim (Result-cases (r.random_unwatched user_id count d)) [
          | inl (e, f) ↦ absurd (cc (rw (q, f, get_today) at h))
          | inr (videos, f) ↦
              let e : (fallback_items r 0 videos d).1 ≡ items = cc (rw (q, f, get_today) at h) in
              inr (videos, q, f, rw (sym e) (IsFallback-items 0 videos d))
        ]
      ]
