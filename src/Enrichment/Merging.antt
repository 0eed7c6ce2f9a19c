-- ===== src/Enrichment/Merging.antt =====
-- What `MergeByPriority` takes from which source.
use vaultflix.Base.{
  ◌==◌, is_empty, Bool, true, false, Bool-cases, Option-cases, if◌then◌else◌, none, some, List, [],
  ◌∷◌, ◌≡◌, inl, inr, arith, refl, ap, ◌∙◌,
}
use mathlib.Core.Path.{subst}
use vaultflix.Enrichment.{
  EnrichedMetadata, SourceResult, no_metadata, is_nil, is_none, fill, merge_loop, merge_by_priority,
}

-- the data of the sources that have some, in order
abbrev pub all_data : List SourceResult → List EnrichedMetadata
all_data [] = []
all_data (r ∷ rs) = elim r.data_ [ none ↦ all_data rs | some d ↦ d ∷ all_data rs ]

-- `get` of the first metadata at which `blank` does not hold, else of the last
unfoldable pub first {ℓ} :
    {A : Type ℓ}
    → (EnrichedMetadata → Bool)
    → (EnrichedMetadata → A)
    → A
    → List EnrichedMetadata
    → A
first blank get default [] = default
first blank get default (d ∷ ds) = if blank d then first blank get (get d) ds else get d

-- `blank` and `get` agree on what a merge of two keeps.
abbrev Keeps {ℓ} : {A : Type ℓ} → (EnrichedMetadata → Bool) → (EnrichedMetadata → A) → Type ℓ
Keeps blank get =
    (out d : EnrichedMetadata)
    → (get (fill out d) ≡ (if blank out then get d else get out))
      × (blank (fill out d) ≡ (if blank out then blank d else blank out))

kept {ℓ} :
    {A : Type ℓ} (blank : EnrichedMetadata → Bool) (get : EnrichedMetadata → A)
    → Keeps blank get
    → (out d : EnrichedMetadata) (ds : List EnrichedMetadata)
    → first blank get (get (fill out d)) (fill out d ∷ ds)
      ≡ first blank get (get out) (out ∷ d ∷ ds)
unfolding first
kept blank get keeps out d ds =
    let (g, b) = keeps out d in
    elim (Bool-cases (blank out)) [ inl e ↦ rw (b, g, e) refl | inr e ↦ rw (b, g, e) refl ]

branch {ℓ} :
    {A : Type ℓ} (b : A → Bool) (c : Bool) (x y : A)
    → b (if c then y else x) ≡ (if c then b y else b x)
branch b true x y = refl
branch b false x y = refl

merge_loop-first {ℓ} :
    {A : Type ℓ} (blank : EnrichedMetadata → Bool) (get : EnrichedMetadata → A)
    → Keeps blank get
    → (rs : List SourceResult) (out : EnrichedMetadata)
    → get (merge_loop out rs) ≡ first blank get (get out) (out ∷ all_data rs)
unfolding merge_loop first
merge_loop-first blank get keeps [] out = elim (Bool-cases (blank out)) [
  | inl e ↦ rw e refl
  | inr e ↦ rw e refl
]
merge_loop-first blank get keeps (r ∷ rs) out = elim (Option-cases r.data_) [
  | inl e ↦ rw e (merge_loop-first blank get keeps rs out)
  | inr (d, e) ↦
      rw e (
        merge_loop-first blank get keeps rs (fill out d) ∙ kept blank get keeps out d (all_data rs))
]

-- the first title that is not empty, and so for each field; a cover's URL and key go together
pub record IsFirst (ds : List EnrichedMetadata) (m : EnrichedMetadata) : Type 0 where
  pub code : m.code ≡ first (λ d. is_empty d.code) (λ d. d.code) [] ds
  pub title : m.title ≡ first (λ d. is_empty d.title) (λ d. d.title) [] ds
  pub release_date :
      m.release_date ≡ first (λ d. is_none d.release_date) (λ d. d.release_date) none ds
  pub runtime_minutes :
      m.runtime_minutes ≡ first (λ d. d.runtime_minutes == 0) (λ d. d.runtime_minutes) 0 ds
  pub maker : m.maker ≡ first (λ d. is_empty d.maker) (λ d. d.maker) [] ds
  pub label : m.label ≡ first (λ d. is_empty d.label) (λ d. d.label) [] ds
  pub series : m.series ≡ first (λ d. is_empty d.series) (λ d. d.series) [] ds
  pub genres : m.genres ≡ first (λ d. is_nil d.genres) (λ d. d.genres) [] ds
  pub actresses : m.actresses ≡ first (λ d. is_nil d.actresses) (λ d. d.actresses) [] ds
  pub cover_url : m.cover_url ≡ first (λ d. is_empty d.cover_url) (λ d. d.cover_url) [] ds
  pub cover_key : m.cover_key ≡ first (λ d. is_empty d.cover_url) (λ d. d.cover_key) [] ds

Keeps-field {ℓ} :
    {A : Type ℓ} (b : A → Bool) (get : EnrichedMetadata → A)
    → ((out d : EnrichedMetadata) → get (fill out d) ≡ (if b (get out) then get d else get out))
    → Keeps (λ m. b (get m)) get
Keeps-field b get h out d = (h out d, ap b (h out d) ∙ branch b (b (get out)) (get out) (get d))

Keeps-cover : Keeps (λ d. is_empty d.cover_url) (λ d. d.cover_key)
unfolding fill
Keeps-cover out d = (refl, branch is_empty (is_empty out.cover_url) out.cover_url d.cover_url)

merged : (rs : List SourceResult) → IsFirst (all_data rs) (merge_loop no_metadata rs)
unfolding first fill is_empty
merged rs = record {
  code =
      merge_loop-first (λ d. is_empty d.code) (λ d. d.code)
        (Keeps-field is_empty (λ d. d.code) (λ out d. refl)) rs no_metadata;
  title =
      merge_loop-first (λ d. is_empty d.title) (λ d. d.title)
        (Keeps-field is_empty (λ d. d.title) (λ out d. refl)) rs no_metadata;
  release_date =
      merge_loop-first (λ d. is_none d.release_date) (λ d. d.release_date)
        (Keeps-field is_none (λ d. d.release_date) (λ out d. refl)) rs no_metadata;
  runtime_minutes =
      merge_loop-first (λ d. d.runtime_minutes == 0) (λ d. d.runtime_minutes)
        (Keeps-field (λ n. n == 0) (λ d. d.runtime_minutes) (λ out d. refl)) rs no_metadata;
  maker =
      merge_loop-first (λ d. is_empty d.maker) (λ d. d.maker)
        (Keeps-field is_empty (λ d. d.maker) (λ out d. refl)) rs no_metadata;
  label =
      merge_loop-first (λ d. is_empty d.label) (λ d. d.label)
        (Keeps-field is_empty (λ d. d.label) (λ out d. refl)) rs no_metadata;
  series =
      merge_loop-first (λ d. is_empty d.series) (λ d. d.series)
        (Keeps-field is_empty (λ d. d.series) (λ out d. refl)) rs no_metadata;
  genres =
      merge_loop-first (λ d. is_nil d.genres) (λ d. d.genres)
        (Keeps-field is_nil (λ d. d.genres) (λ out d. refl)) rs no_metadata;
  actresses =
      merge_loop-first (λ d. is_nil d.actresses) (λ d. d.actresses)
        (Keeps-field is_nil (λ d. d.actresses) (λ out d. refl)) rs no_metadata;
  cover_url =
      merge_loop-first (λ d. is_empty d.cover_url) (λ d. d.cover_url)
        (Keeps-field is_empty (λ d. d.cover_url) (λ out d. refl)) rs no_metadata;
  cover_key =
      merge_loop-first (λ d. is_empty d.cover_url) (λ d. d.cover_key) Keeps-cover rs no_metadata;
}

-- Each field that the merge gives is that of the first source, in order of priority, whose own is
-- not empty (the last one's when all are), and the cover's key comes from the source that the
-- cover's URL comes from.
pub merge_by_priority-IsFirst :
    (rs : List SourceResult) (m : EnrichedMetadata)
    → merge_by_priority rs ≡ some m
    → IsFirst (all_data rs) m
unfolding merge_by_priority
merge_by_priority-IsFirst [] m h = cc
merge_by_priority-IsFirst (r ∷ rs) m h =
    subst (IsFirst (all_data (r ∷ rs))) (ground arith) (merged (r ∷ rs))
