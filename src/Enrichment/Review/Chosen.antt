-- ===== src/Enrichment/Review/Chosen.antt =====
-- Which suggestion is accepted, and what accepting and rejecting may write.
use vaultflix.Base.{
  Str, eq_str, eq_str_iff, is_empty, Bool-cases, Option-cases, Option, none, some, List, [], ◌∷◌,
  ◌++◌, All, ◌≡◌, ◌≢◌, ◌⊎◌, inl, inr, arith, refl, sym, ap, ◌∙◌,
}
use mathlib.Core.Path.{subst}
use mathlib.Core.List.{Memᴰ}
use vaultflix.Errors.{Sentinel, Error, ok, Result-cases}
use vaultflix.Enrichment.Video.{Scraper, MetadataSuggestion}
use vaultflix.Enrichment.Review.{
  SuggestionOverride, Suggestions, suggestion_application, named, wrapped, of_source, pick,
  accept_suggestion,
}

-- no suggestion of the source
abbrev pub HasNone : Str → List MetadataSuggestion → Type 0
HasNone source = All (λ s. s.source ≢ source)

of_source-none :
    (source : Str) (sugs : List MetadataSuggestion)
    → of_source source sugs ≡ none
    → HasNone source sugs
unfolding of_source
of_source-none source [] h = tt
of_source-none source (s ∷ ss) h = elim (Bool-cases (eq_str s.source source)) [
  | inl e ↦ ground arith
  | inr e ↦ (
    (λ q. ground (arith, (eq_str_iff s.source source).1 q)),
    of_source-none source ss (ground arith),
  )
]

of_source-some :
    (source : Str) (sugs : List MetadataSuggestion) (s : MetadataSuggestion)
    → of_source source sugs ≡ some s
    → Memᴰ s sugs × (s.source ≡ source)
unfolding of_source
of_source-some source [] s h = cc
of_source-some source (t ∷ ss) s h = elim (Bool-cases (eq_str t.source source)) [
  | inl e ↦
      let same : t ≡ s = ground arith in
      (Memᴰ.head (sym same), subst (λ u. u.source ≡ source) same ((eq_str_iff t.source source).0 e))
  | inr e ↦ let (m, q) = of_source-some source ss s (ground arith) in (Memᴰ.tail m, q)
]

-- a suggestion of the first source, in order of priority, that has one
pub record IsBest (scs : List Scraper) (sugs : List MetadataSuggestion) (s : MetadataSuggestion)
    : Type 0 where
  pub before : List Scraper
  pub chosen : Scraper
  pub after : List Scraper
  pub order : scs ≡ before ++ chosen ∷ after
  pub source : s.source ≡ chosen.source
  pub staged : Memᴰ s sugs
  pub best : All (λ sc. HasNone sc.source sugs) before

-- What `autoAcceptHighestPriority` picks, when a source of the program has a suggestion, is one of
-- the suggestions given, of the first such source in order of priority.
pub pick-IsBest :
    (scs : List Scraper) (sugs : List MetadataSuggestion) (s : MetadataSuggestion)
    → pick scs sugs ≡ some s
    → IsBest scs sugs s
unfolding pick
pick-IsBest [] sugs s h = cc
pick-IsBest (sc ∷ scs) sugs s h = elim (Option-cases (of_source sc.source sugs)) [
  | inl e ↦
      let rest = pick-IsBest scs sugs s (ground arith) in
      record {
        before = sc ∷ rest.before;
        chosen = rest.chosen;
        after = rest.after;
        order = ap (◌∷◌ sc) rest.order;
        source = rest.source;
        staged = rest.staged;
        best = (of_source-none sc.source sugs e, rest.best);
      }
  | inr (t, e) ↦
      let (m, q) = of_source-some sc.source sugs s (e ∙ ground arith) in
      record {
        before = [];
        chosen = sc;
        after = scs;
        order = refl;
        source = q;
        staged = m;
        best = tt;
      }
]

named-All : (gs : List Str) → All (λ g. g ≢ []) (named gs)
unfolding named is_empty
named-All [] = tt
named-All ([] ∷ gs) = named-All gs
named-All ((c ∷ g) ∷ gs) = ((λ e. cc), named-All gs)

genres-All :
    (sug : MetadataSuggestion) (override : SuggestionOverride)
    → All (λ g. g ≢ []) (suggestion_application sug override).genres
unfolding suggestion_application
genres-All sug override = named-All _

module _ {D : Type 0} (repo : Suggestions D) where
  -- what accepting writes, if it writes: the application of a suggestion of that Video
  abbrev pub Accepted : Str → Str → SuggestionOverride → D → D × Option Error → Type 0
  Accepted video_id suggestion_id override d out =
      (sug : MetadataSuggestion) × (repo.get_by_id suggestion_id d ≡ ok sug)
      × (sug.video_id ≡ video_id)
      × (out ≡ wrapped (repo.apply (suggestion_application sug override) d))
      × All (λ g. g ≢ []) (suggestion_application sug override).genres

  -- Accepting either changes nothing and returns an error, or it applies a suggestion that is the
  -- Video's own and returns what that gave; no genre that it applies is empty.
  pub accept_suggestion-Accepted :
      (video_id suggestion_id : Str) (override : SuggestionOverride) (d : D)
      → let out = accept_suggestion repo video_id suggestion_id override d in
        ((out.0 ≡ d) × ((e : Error) × (out.1 ≡ some e)))
        ⊎ Accepted video_id suggestion_id override d out
  unfolding accept_suggestion
  accept_suggestion-Accepted video_id suggestion_id override d =
      elim (Result-cases (repo.get_by_id suggestion_id d)) [
        | inl (e, q) ↦
            inl (rw (accept_suggestion, q) refl, (Error.wrap e, rw (accept_suggestion, q) refl))
        | inr (sug, q) ↦ elim (Bool-cases (eq_str sug.video_id video_id)) [
          | inl p ↦ inr (
            sug,
            q,
            (eq_str_iff sug.video_id video_id).0 p,
            rw (accept_suggestion, q, p) refl,
            genres-All sug override,
          )
          | inr p ↦ inl (
            rw (accept_suggestion, q, p) refl,
            (Error.wrap (Error.sentinel Sentinel.not_found), rw (accept_suggestion, q, p) refl),
          )
        ]
      ]
