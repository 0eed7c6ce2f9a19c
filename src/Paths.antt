-- ===== src/Paths.antt =====
-- `filepath.Clean`, `Join`, `Ext`, `Rel` and `Base` on Unix paths, and `isWithin`
-- (internal/service/media_source_resolve.go).
pub mod Within
use vaultflix.Base.{
  ℕ, Str, codes, eq_str, has_prefix, is_empty, split, Bool, true, false, ◌&&◌, ◌||◌, not, ◌==◌,
  if◌then◌else◌, List, [], ◌∷◌, ◌++◌, Option, none, some,
}
use mathlib.Core.List.{reverse}

-- `..`, the elements before it in reverse: above the root there is nothing.
unfoldable pub parent : Bool → List Str → List Str
unfolding eq_str
parent rooted [] = if rooted then [] else codes ".." ∷ []
parent rooted (q ∷ out) = if not rooted && eq_str q (codes "..") then codes ".." ∷ q ∷ out else out

unfoldable pub clean_loop : Bool → List Str → List Str → List Str
unfolding parent eq_str is_empty
clean_loop rooted out [] = out
clean_loop rooted out (p ∷ ps) =
    clean_loop rooted
      (if is_empty p || eq_str p (codes ".")
        then out
        else if eq_str p (codes "..")
        then parent rooted out
        else p ∷ out)
      ps

-- the elements, last first, joined by `/` in front of `tail`
unfoldable pub render : List Str → Str → Str
render [] tail = tail
render (p ∷ []) tail = p ++ tail
render (p ∷ q ∷ ps) tail = render (q ∷ ps) (b'/' ∷ p ++ tail)

unfoldable pub is_rooted : Str → Bool
unfolding has_prefix
is_rooted s = has_prefix (codes "/") s

unfoldable pub elements : Str → List Str
unfolding clean_loop split is_rooted
elements s = clean_loop (is_rooted s) [] (split b'/' s [])

-- `filepath.Clean`
unfoldable pub clean : Str → Str
unfolding elements render is_rooted is_empty
clean s =
    if is_rooted s
    then b'/' ∷ render (elements s) []
    else let text = render (elements s) [] in if is_empty text then codes "." else text

-- `filepath.Join` of two elements.
unfoldable pub join : Str → Str → Str
unfolding clean is_empty
join a b =
    if is_empty a
    then if is_empty b then [] else clean b
    else if is_empty b
    then clean a
    else clean (a ++ b'/' ∷ b)

unfoldable pub has_slash : Str → Bool
has_slash [] = false
has_slash (c ∷ s) = c == b'/' || has_slash s

-- `filepath.Ext`: from the last dot of the last element on.
unfoldable pub ext : Str → Str
unfolding has_slash is_empty
ext [] = []
ext (c ∷ s) =
    let rest = ext s in
    if not (is_empty rest) then rest else if c == b'.' && not (has_slash s) then c ∷ s else []

-- `strings.TrimPrefix(s, ".")`
unfoldable pub trim_dot : Str → Str
trim_dot [] = []
trim_dot (c ∷ s) = if c == b'.' then s else c ∷ s

unfoldable pub is_within : Str → Str → Bool
unfolding clean eq_str has_prefix
is_within path root =
    let p = clean path in let r = clean root in eq_str p r || has_prefix (r ++ b'/' ∷ []) p

-- the elements that two paths do not share, in front of which they agree
unfoldable pub strip_common : List Str → List Str → List Str × List Str
unfolding eq_str
strip_common [] ts = ([], ts)
strip_common (b ∷ bs) [] = (b ∷ bs, [])
strip_common (b ∷ bs) (t ∷ ts) =
    let rest = strip_common bs ts in if eq_str b t then rest else (b ∷ bs, t ∷ ts)

unfoldable pub has_parent : List Str → Bool
unfolding eq_str
has_parent [] = false
has_parent (b ∷ bs) = eq_str b (codes "..") || has_parent bs

unfoldable pub up_from : List Str → List Str → List Str
up_from [] ts = ts
up_from (b ∷ bs) ts = codes ".." ∷ up_from bs ts

abbrev pub same : Bool → Bool → Bool
same true b = b
same false b = not b

-- `filepath.Rel`: the elements of `target` as seen from `base`, where `..` cannot be undone.
unfoldable pub rel : Str → Str → Option Str
unfolding elements strip_common has_parent up_from render is_rooted is_empty
rel base target =
    let (bs, ts) = strip_common (reverse (elements base)) (reverse (elements target)) in
    if not (same (is_rooted base) (is_rooted target)) || has_parent bs
    then none
    else let text = render (reverse (up_from bs ts)) [] in
      some (if is_empty text then codes "." else text)

unfoldable pub last_element : Str → Str
unfolding has_slash
last_element [] = []
last_element (c ∷ s) = let rest = last_element s in if has_slash (c ∷ s) then rest else c ∷ s

unfoldable pub trim_slashes : Str → Str
unfolding is_empty
trim_slashes [] = []
trim_slashes (c ∷ s) =
    let rest = trim_slashes s in if is_empty rest && c == b'/' then [] else c ∷ rest

-- `filepath.Base`
unfoldable pub file_name : Str → Str
unfolding trim_slashes last_element is_empty
file_name path =
    if is_empty path
    then codes "."
    else let trimmed = trim_slashes path in
      if is_empty trimmed then codes "/" else last_element trimmed
