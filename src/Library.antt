-- ===== src/Library.antt =====
-- Queries of the Library: `ParseVideoFilter` and `tagIDsParam` (internal/service/video_filter.go).
-- `strconv.Atoi` on 64 bits, `strings.ToLower`, `TrimSpace` and `Split` are modelled on ASCII text.

pub mod Filters
use vaultflix.Base.Text.{is_digit, trim_space}
use vaultflix.Base.{
  ℕ, zero, suc, ◌+◌, ◌-◌, ◌*◌, ◌^◌, Str, codes, eq_str, is_empty, to_lower, split, Bool, true,
  false, ◌&&◌, ◌||◌, not, ltb, leb, ◌==◌, if◌then◌else◌, Option, none, some, List, [], ◌∷◌, ◌++◌,
}
use vaultflix.Base.Int.{ℤ, pos, negsuc, ltb_ℤ}
use vaultflix.Errors.{Error, Result, ok, err, ◌>>=◌}

-- `model.VideoSort`
pub data VideoSort : Type 0 where
  created_at title duration_seconds file_size_bytes random : VideoSort

pub data SortOrder : Type 0 where
  asc desc : SortOrder

-- `model.VideoFilter`
pub record VideoFilter : Type 0 where
  pub page : ℕ
  pub page_size : ℕ
  pub sort_by : VideoSort
  pub sort_order : SortOrder
  pub query : Str
  pub tag_ids : List ℕ

abbrev pub default_page_size : ℕ
default_page_size = 20

abbrev pub max_page_size : ℕ
max_page_size = 100

-- the number that the digits spell behind `n`
unfoldable pub digits_value : ℕ → Str → Option ℕ
digits_value n [] = some n
digits_value n (c ∷ s) =
    let rest = digits_value (n * 10 + (c - b'0')) s in if is_digit c then rest else none

unsigned : Str → Option ℕ
unfolding digits_value
unsigned [] = none
unsigned (c ∷ s) = digits_value 0 (c ∷ s)

unfoldable pub signed : Str → Option ℕ
unfolding unsigned
signed [] = none
signed (c ∷ s) = if c == b'+' then unsigned s else unsigned (c ∷ s)

abbrev pub in_range : Option ℕ → Option ℕ
in_range none = none
in_range (some n) = if ltb 0 n && ltb n (2 ^ 63) then some n else none

-- A number of at least 1 that `strconv.Atoi` accepts: an optional sign, digits, at most 2^63 - 1.
-- The program refuses every other parameter, what does not parse and what is below 1 alike.
unfoldable pub positive : Str → Option ℕ
unfolding signed
positive s = in_range (signed s)

-- The loop of `tagIDsParam`.
unfoldable pub tag_ids_loop : List Str → Option (List ℕ)
unfolding positive trim_space
tag_ids_loop [] = some []
tag_ids_loop (p ∷ ps) =
    let rest = tag_ids_loop ps in
    elim (positive (trim_space p)) [
      | none ↦ none
      | some id ↦ elim rest [ none ↦ none | some ids ↦ some (id ∷ ids) ]
    ]

unfoldable pub tag_ids_param : Str → Option (List ℕ)
unfolding tag_ids_loop split is_empty
tag_ids_param raw = if is_empty raw then some [] else tag_ids_loop (split b',' raw [])

-- The conversion to `VideoSort`, and `Valid`.
unfoldable pub video_sort : Str → Option VideoSort
unfolding eq_str
video_sort s =
    if eq_str s (codes "created_at")
    then some created_at
    else if eq_str s (codes "title")
    then some title
    else if eq_str s (codes "duration_seconds")
    then some duration_seconds
    else if eq_str s (codes "file_size_bytes")
    then some file_size_bytes
    else if eq_str s (codes "random")
    then some random
    else none

unfoldable pub sort_order_of : Str → Option SortOrder
unfolding eq_str
sort_order_of s =
    if eq_str s (codes "asc") then some asc else if eq_str s (codes "desc") then some desc else none

abbrev invalid_param {ℓ} : {A : Type ℓ} → Str → Result A
invalid_param message = err (Error.invalid_param message)

-- `n > maxPageSize` is refused too.
abbrev pub within : ℕ → Option ℕ → Option ℕ
within limit none = none
within limit (some n) = if ltb limit n then none else some n

-- An absent parameter keeps its default; one that the reading refuses is an error.
unfoldable pub param {ℓ} : {A : Type ℓ} → Str → A → (Str → Option A) → Str → Result A
param raw default read message =
    if is_empty raw
    then ok default
    else elim (read raw) [ none ↦ invalid_param message | some a ↦ ok a ]

unfoldable pub read_tag_ids : Str → Result (List ℕ)
unfolding tag_ids_param
read_tag_ids raw = elim (tag_ids_param raw) [
  | none ↦ invalid_param (codes "tag_ids must be comma-separated positive integers")
  | some ids ↦ ok ids
]

-- `get` gives "" for an absent parameter. The tests run in this order, so the first parameter
-- that is invalid is the one that the error names.
unfoldable pub parse_video_filter : (Str → Str) → Result VideoFilter
unfolding param positive video_sort sort_order_of to_lower read_tag_ids
parse_video_filter get = do
  page ← param (get (codes "page")) 1 positive (codes "page must be a positive integer")
  page_size ←
      param (get (codes "page_size")) default_page_size (λ s. within max_page_size (positive s))
        (codes "page_size must be between 1 and 100")
  sort_by ←
      param (get (codes "sort_by")) created_at video_sort (
        codes
          "sort_by must be one of: created_at, title, duration_seconds, file_size_bytes, random")
  sort_order ←
      param (to_lower (get (codes "sort_order"))) desc sort_order_of
        (codes "sort_order must be asc or desc")
  tag_ids ← read_tag_ids (get (codes "tag_ids"))
  ok (record {
    page = page;
    page_size = page_size;
    sort_by = sort_by;
    sort_order = sort_order;
    query = get (codes "q");
    tag_ids = tag_ids;
  })
