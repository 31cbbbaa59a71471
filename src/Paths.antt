-- ===== src/Paths.antt =====
-- Packages path and path/filepath of Go on Unix, and strings.TrimRight, as far as the code calls
-- them.
use magic_engine.Common.{
  ℕ, ◌≡◌, refl, Bool, true, false, List, [], ◌∷◌, ◌++◌, ◌==◌, if◌then◌else◌, Bytes, codes, bytes_eq,
}
use mathlib.Core.List.{reverse}

-- The parts of a path between its slashes.
split_from : Bytes → Bytes → List Bytes
split_from cur [] = reverse cur ∷ []
split_from cur (c ∷ s) = elim (c == b'/') [
  | true ↦ reverse cur ∷ split_from [] s
  | false ↦ split_from (c ∷ cur) s
]

-- One part against the cleaned parts before it, the last of them first. `..` at the root is
-- dropped; at the start of a relative path it stays.
clean_part : Bool → List Bytes → Bytes → List Bytes
clean_part rooted stack [] = stack
clean_part rooted [] (c ∷ s) =
    if bytes_eq (c ∷ s) (codes ".")
    then []
    else if bytes_eq (c ∷ s) (codes "..")
    then if rooted then [] else (c ∷ s) ∷ []
    else (c ∷ s) ∷ []
clean_part rooted (top ∷ stack) (c ∷ s) =
    if bytes_eq (c ∷ s) (codes ".")
    then top ∷ stack
    else if bytes_eq (c ∷ s) (codes "..")
    then (if bytes_eq top (codes "..") then (c ∷ s) ∷ top ∷ stack else stack)
    else (c ∷ s) ∷ top ∷ stack

clean_parts : Bool → List Bytes → List Bytes → List Bytes
clean_parts rooted stack [] = reverse stack
clean_parts rooted stack (part ∷ parts) = clean_parts rooted (clean_part rooted stack part) parts

join_parts : List Bytes → Bytes
join_parts [] = []
join_parts (p ∷ []) = p
join_parts (p ∷ q ∷ ps) = p ++ b'/' ∷ join_parts (q ∷ ps)

-- filepath.IsAbs
unfoldable pub is_abs : Bytes → Bool
is_abs [] = false
is_abs (c ∷ s) = c == b'/'

or_dot : Bytes → Bytes
or_dot [] = codes "."
or_dot (c ∷ s) = c ∷ s

-- path.Clean, filepath.Clean
unfoldable pub clean : Bytes → Bytes
unfolding split_from clean_part clean_parts join_parts is_abs or_dot bytes_eq
clean path =
    let parts = clean_parts (is_abs path) [] (split_from [] path) in
    if is_abs path then b'/' ∷ join_parts parts else or_dot (join_parts parts)

-- path.Join(a, b), filepath.Join(a, b)
unfoldable pub join : Bytes → Bytes → Bytes
unfolding clean
join [] [] = []
join [] (c ∷ s) = clean (c ∷ s)
join (c ∷ s) [] = clean (c ∷ s)
join (c ∷ s) (d ∷ t) = clean ((c ∷ s) ++ b'/' ∷ d ∷ t)

abbrev trimmed : ℕ → Bytes → Bytes
trimmed c [] = if c == b'/' then [] else c ∷ []
trimmed c (d ∷ r) = c ∷ d ∷ r

-- strings.TrimRight(s, "/")
unfoldable pub trim_right_slash : Bytes → Bytes
trim_right_slash [] = []
trim_right_slash (c ∷ s) = trimmed c (trim_right_slash s)

-- strings.HasSuffix(s, "/")
unfoldable pub ends_in_slash : Bytes → Bool
ends_in_slash [] = false
ends_in_slash (c ∷ []) = c == b'/'
ends_in_slash (_ ∷ d ∷ s) = ends_in_slash (d ∷ s)

clean_tests :
    (clean (codes "/a/../b//c/./d/") ≡ codes "/b/c/d")
    × (join (codes "/static") [] ≡ codes "/static")
    × (join (codes "../x") (codes "../../y") ≡ codes "../../y")
    × (join (codes "dir/") (codes "index.html") ≡ codes "dir/index.html")
unfolding join
clean_tests = (refl, refl, refl, refl)
