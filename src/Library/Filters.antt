-- ===== src/Library/Filters.antt =====
-- What the query of a Library page holds once it is accepted.
use vaultflix.Base.{
  ℕ, ◌≤◌, ◌<◌, ◌^◌, Str, codes, is_empty, to_lower, true, ltb, Bool-cases, Option, none, some, List,
  [], ◌∷◌, All, ◌≡◌, inl, inr, arith, refl, split, ◌&&◌,
}
use vaultflix.Errors.{Sentinel, Error, is, Result, ok, err, ◌>>=◌}
use vaultflix.Base.Text.{trim_space}
use vaultflix.Library.{
  VideoSort, SortOrder, video_sort, sort_order_of, VideoFilter, default_page_size, max_page_size,
  positive, tag_ids_loop, tag_ids_param, read_tag_ids, param, signed, within, parse_video_filter,
  in_range,
}

abbrev pub IsPositive : ℕ → Type 0
IsPositive n = (0 < n) × (n < 2 ^ 63)

abbrev Some {ℓ} : {A : Type ℓ} → (A → Type 0) → Option A → Type 0
Some P none = Unit
Some P (some a) = P a

in_range-Some : (o : Option ℕ) → Some IsPositive (in_range o)
in_range-Some none = tt
in_range-Some (some n) = elim (Bool-cases (ltb 0 n && ltb n (2 ^ 63))) [
  | inl e ↦ rw e (ground arith, ground arith)
  | inr e ↦ rw e tt
]

positive-Some : (s : Str) → Some IsPositive (positive s)
unfolding positive
positive-Some s = in_range-Some (signed s)

within-Some :
    (limit : ℕ) (o : Option ℕ)
    → Some IsPositive o
    → Some (λ n. (0 < n) × (n ≤ limit)) (within limit o)
within-Some limit none p = tt
within-Some limit (some n) (p, q) = elim (Bool-cases (ltb limit n)) [
  | inl e ↦ rw e tt
  | inr e ↦ rw e (p, ground arith)
]

add_id :
    (o : Option ℕ) (r : Option (List ℕ))
    → Some IsPositive o
    → Some (All IsPositive) r
    → Some
        (All IsPositive)
        (elim o [ none ↦ none | some id ↦ elim r [ none ↦ none | some ids ↦ some (id ∷ ids) ] ])
add_id none r p q = tt
add_id (some id) none p q = tt
add_id (some id) (some ids) p q = (p, q)

tag_ids_loop-Some : (ps : List Str) → Some (All IsPositive) (tag_ids_loop ps)
unfolding tag_ids_loop
tag_ids_loop-Some [] = tt
tag_ids_loop-Some (p ∷ ps) = add_id _ _ (positive-Some (trim_space p)) (tag_ids_loop-Some ps)

tag_ids_param-Some : (raw : Str) → Some (All IsPositive) (tag_ids_param raw)
unfolding tag_ids_param
tag_ids_param-Some raw = elim (Bool-cases (is_empty raw)) [
  | inl e ↦ rw e tt
  | inr e ↦ rw e (tag_ids_loop-Some (split b',' raw []))
]

-- a result is a value that `P` holds of, or an error of the client's
pub data Accepts {ℓ} {A : Type ℓ} (P : A → Type 0) : Result A → Type ℓ where
  accepted : {a : A} → P a → Accepts P (ok a)
  refused : {e : Error} → is Sentinel.invalid_input e ≡ true → Accepts P (err e)

read_Accepts {ℓ} :
    {A : Type ℓ} (P : A → Type 0) (o : Option A) (message : Str)
    → Some P o
    → Accepts P (elim o [ none ↦ err (Error.invalid_param message) | some a ↦ ok a ])
unfolding is
read_Accepts P none message q = refused refl
read_Accepts P (some a) message q = accepted q

param-Accepts {ℓ} :
    {A : Type ℓ} (P : A → Type 0) (raw : Str) (default : A) (read : Str → Option A) (message : Str)
    → P default
    → Some P (read raw)
    → Accepts P (param raw default read message)
unfolding param
param-Accepts P raw default read message p q = elim (Bool-cases (is_empty raw)) [
  | inl e ↦ rw e (accepted p)
  | inr e ↦ rw e (read_Accepts P (read raw) message q)
]

read_tag_ids-Accepts : (raw : Str) → Accepts (All IsPositive) (read_tag_ids raw)
unfolding read_tag_ids
read_tag_ids-Accepts raw =
    read_Accepts (All IsPositive) (tag_ids_param raw)
      (codes "tag_ids must be comma-separated positive integers") (tag_ids_param-Some raw)

bind-Accepts {ℓ κ} :
    {A : Type ℓ} {B : Type κ} {P : A → Type 0} {Q : B → Type 0} {r : Result A} {f : A → Result B}
    → Accepts P r
    → ((a : A) → P a → Accepts Q (f a))
    → Accepts Q (r >>= f)
bind-Accepts (accepted {a} p) k = k a p
bind-Accepts (refused e) k = refused e

-- the bounds of an accepted query
pub record IsBounded (f : VideoFilter) : Type 0 where
  pub page : IsPositive f.page
  pub page_size : (0 < f.page_size) × (f.page_size ≤ max_page_size)
  pub tag_ids : All IsPositive f.tag_ids

trivial_Some {ℓ} : {A : Type ℓ} (o : Option A) → Some (λ _. Unit) o
trivial_Some none = tt
trivial_Some (some a) = tt

any_param {ℓ} :
    {A : Type ℓ} (raw : Str) (default : A) (read : Str → Option A) (message : Str)
    → Accepts (λ _. Unit) (param raw default read message)
any_param raw default read message =
    param-Accepts (λ _. Unit) raw default read message tt (trivial_Some (read raw))

bounded :
    (page page_size : ℕ) (sort_by : VideoSort) (sort_order : SortOrder) (query : Str)
    (tag_ids : List ℕ)
    → IsPositive page
    → (0 < page_size) × (page_size ≤ max_page_size)
    → All IsPositive tag_ids
    → IsBounded (record {
      page = page;
      page_size = page_size;
      sort_by = sort_by;
      sort_order = sort_order;
      query = query;
      tag_ids = tag_ids;
    })
bounded page page_size sort_by sort_order query tag_ids p q r = record {
  page = p;
  page_size = q;
  tag_ids = r;
}

-- Whatever the client sends, a query that `ParseVideoFilter` accepts has a page of at least 1, a
-- page size from 1 to 100 and only tag ids of at least 1, all of them below 2^63; a query that it
-- refuses is an error that `errors.Is` knows as invalid input.
pub parse_video_filter-Accepts : (get : Str → Str) → Accepts IsBounded (parse_video_filter get)
unfolding parse_video_filter
parse_video_filter-Accepts get =
    bind-Accepts
      (param-Accepts IsPositive (get (codes "page")) 1 positive _ (omega arith, omega arith)
        (positive-Some (get (codes "page"))))
      (λ page p.
        bind-Accepts
          (param-Accepts (λ n. (0 < n) × (n ≤ max_page_size)) (get (codes "page_size"))
            default_page_size (λ s. within max_page_size (positive s)) _ (omega arith, omega arith)
            (within-Some max_page_size (positive (get (codes "page_size")))
              (positive-Some (get (codes "page_size")))))
          (λ page_size q.
            bind-Accepts
              (any_param (get (codes "sort_by")) VideoSort.created_at video_sort (
                codes
                  "sort_by must be one of: created_at, title, duration_seconds, file_size_bytes, random"))
              (λ sort_by _.
                bind-Accepts
                  (any_param (to_lower (get (codes "sort_order"))) SortOrder.desc sort_order_of
                    (codes "sort_order must be asc or desc"))
                  (λ sort_order _.
                    bind-Accepts (read_tag_ids-Accepts (get (codes "tag_ids"))) (λ tag_ids r.
                      accepted (
                        bounded page page_size sort_by sort_order (get (codes "q")) tag_ids p q
                          r))))))
