-- ===== src/Catalog/Videos/Listed.antt =====
-- What a page of Videos shows, and what a deletion leaves.
use vaultflix.Base.{
  ℕ, Str, is_empty, is_empty_iff, arith, Bool-cases, ◌≢◌, ◌⊎◌, Option, some, List, [], ◌∷◌, All,
  map, ◌≡◌, inl, inr, refl, ap, ◌∙◌, sym, Option-cases,
}
use vaultflix.Errors.{Error, Result, ok, err, Result-cases}
use vaultflix.Model.{Video}
use vaultflix.Library.{VideoFilter}
use vaultflix.Catalog.{Signer, url_of, each, each-map, each-All}
use vaultflix.Catalog.Tags.{Tag}
use vaultflix.Catalog.Videos.{VideoWithTags, Shelf, or_no_tags, with_urls, list_page, list, delete}

module _ {D : Type 0} (s : Shelf D) where
  -- The URL of a picture: none without a key, else what the signing of that key answers, or none
  -- where it fails.
  abbrev pub IsSigned : Signer D → Str → Str → Type 0
  IsSigned sign key url =
      (key ≡ []) × (url ≡ [])
      ⊎ (key ≢ [])
        × ((d : D) × (((sign key d).1 ≡ ok url)
              ⊎ ((e : Error) × ((sign key d).1 ≡ err e) × (url ≡ []))))

  abbrev pub HasPictures : VideoWithTags → Type 0
  HasPictures i =
      IsSigned s.thumbnail_url i.video.thumbnail_key i.thumbnail_url
      × IsSigned s.preview_url i.video.preview_key i.preview_url

  -- Each Video of a page has the Tags that one lookup of all the Videos' ids gives for its own id,
  -- none where that has no entry; nothing is looked up for no Video.
  abbrev pub HasTags : List Video → D → List VideoWithTags → Type 0
  HasTags [] d items = items ≡ []
  HasTags (v ∷ vs) d items =
      (tag_map : Str → Option (List Tag)) × (s.by_video_ids (map (λ v. v.id) (v ∷ vs)) d
        ≡ ok tag_map)
      × (map (λ i. i.tags) items ≡ map (λ v. or_no_tags (tag_map v.id)) (v ∷ vs))

  -- A page as it is answered: the Videos of the query in their order, with their Tags and pictures.
  pub record IsPage (videos : List Video) (d : D) (items : List VideoWithTags) : Type 0 where
    pub in_order : map (λ i. i.video) items ≡ videos
    pub own_tags : HasTags videos d items
    pub pictures : All HasPictures items

  url_of-IsSigned : (sign : Signer D) (key : Str) (d : D) → IsSigned sign key (url_of sign key d).1
  unfolding url_of
  url_of-IsSigned sign key d = elim (Bool-cases (is_empty key)) [
    | inl e ↦ inl ((is_empty_iff key).0 e, rw (e, url_of) refl)
    | inr e ↦ inr (
      λ z. cc (e, (is_empty_iff key).1 z),
      (
        d,
        elim (Result-cases (sign key d).1) [
          | inl (x, q) ↦ inr (x, q, ground arith)
          | inr (u, q) ↦ inl (q ∙ ground arith)
        ],
      ),
    )
  ]

  with_urls-HasPictures :
      (m : Str → Option (List Tag)) (v : Video) (d : D) → HasPictures (with_urls s m v d).1
  unfolding with_urls
  with_urls-HasPictures m v d = (
    url_of-IsSigned s.thumbnail_url v.thumbnail_key d,
    url_of-IsSigned s.preview_url v.preview_key _,
  )

  map_id : {A : Type 0} (xs : List A) → map (λ x. x) xs ≡ xs
  map_id [] = refl
  map_id (x ∷ xs) = ap (λ ys. x ∷ ys) (map_id xs)

  items-IsPage :
      (m : Str → Option (List Tag)) (v : Video) (vs : List Video) (d : D)
      → s.by_video_ids (map (λ v. v.id) (v ∷ vs)) d ≡ ok m
      → IsPage (v ∷ vs) d (each (with_urls s m) (v ∷ vs) d).1
  unfolding with_urls
  items-IsPage m v vs d r = record {
    in_order =
        each-map (with_urls s m) (λ i. i.video) (λ v. v) (λ v d. refl) (v ∷ vs) d ∙ map_id (v ∷ vs);
    own_tags = (
      m,
      r,
      each-map (with_urls s m) (λ i. i.tags) (λ v. or_no_tags (m v.id)) (λ v d. refl) (v ∷ vs) d,
    );
    pictures = each-All HasPictures (with_urls s m) (with_urls-HasPictures m) (v ∷ vs) d;
  }

  -- what the query found, and what the page shows of it
  pub record Shows (filter : VideoFilter) (d : D) (items : List VideoWithTags) (total : ℕ)
      : Type 0 where
    pub videos : List Video
    pub found : s.list_videos filter d ≡ ok (videos, total)
    pub page : IsPage videos d items

  answer :
      (n total : ℕ) {A : Type 0} (xs ys : List A)
      → Path (Result (List A × ℕ)) (ok (xs, n)) (ok (ys, total))
      → (xs ≡ ys) × (n ≡ total)
  answer n total xs ys h = (cc h, cc h)

  list_page-IsPage :
      (videos : List Video) (n total : ℕ) (d : D) (items : List VideoWithTags)
      → (list_page s videos n d).1 ≡ ok (items, total)
      → IsPage videos d items × (n ≡ total)
  unfolding list_page
  list_page-IsPage [] n total d items h =
      let (e, t) = answer n total [] items h in
      (rw (sym e) (record { in_order = refl; own_tags = refl; pictures = tt }), t)
  list_page-IsPage (v ∷ vs) n total d items h =
      elim (Result-cases (s.by_video_ids (map (λ v. v.id) (v ∷ vs)) d)) [
        | inl (e, r) ↦ absurd (cc (rw (r, list_page) at h))
        | inr (m, r) ↦
            let (e, t) =
              answer n total (each (with_urls s m) (v ∷ vs) d).1 items (rw (r, list_page) at h) in
            (rw (sym e) (items-IsPage m v vs d r), t)
      ]

  -- A page that is answered shows exactly the Videos that the query found, in their order, and the
  -- query's total. Each has the Tags that one lookup of all their ids gives for its own id, and for
  -- its thumbnail and its preview the URL that the signing of that key answers, none where there is
  -- no key or the signing fails.
  pub list-Shows :
      (filter : VideoFilter) (d : D) (items : List VideoWithTags) (total : ℕ)
      → (list s filter d).1 ≡ ok (items, total)
      → Shows filter d items total
  unfolding list
  list-Shows filter d items total h = elim (Result-cases (s.list_videos filter d)) [
    | inl (e, r) ↦ absurd (cc (rw (r, list) at h))
    | inr ((videos, n), r) ↦
        let (page, t) = list_page-IsPage videos n total d items (rw (r, list) at h) in
        record { videos = videos; found = r ∙ ap (λ k. ok (videos, k)) t; page = page }
  ]

  -- What becomes of the objects in the store, of which `objects` is any account that a change of
  -- the records leaves alone.
  module _ {O : Type 0} (objects : D → O)
      (records_only : (id : Str) (d : D) → objects (s.delete_record id d).0 ≡ objects d) where
    -- A deletion that fails has removed no object: the record goes first.
    pub delete-keeps :
        (id : Str) (d : D) (e : Error)
        → (delete s id d).1 ≡ some e
        → objects (delete s id d).0 ≡ objects d
    unfolding delete
    delete-keeps id d e h = elim (Result-cases (s.get_by_id id d)) [
      | inl (f, r) ↦ rw (r, delete) refl
      | inr (v, r) ↦ elim (Option-cases (s.delete_record id d).1) [
        | inr (f, q) ↦ rw (r, q, delete) (records_only id d)
        | inl q ↦ absurd (cc (rw (r, q, delete) at h))
      ]
    ]
