-- ===== src/Http/Pattern.antt =====
-- http/route.go, PatternFilter: the pattern of a route as what its regular expression matches.
--
-- NewPatternFilter rewrites `:name` to `(?P<name>[^/#?]+)` and `**` to `(?P<_i>[^#?]*)`, appends
-- `\/?` and compiles the text. A pattern whose other bytes are literals or the dot of regexp, and
-- whose names are valid, distinct and not like `_i`, is read into tokens; of any other pattern the
-- package regexp decides what it matches, and whether MustCompile panics, and that decision is the
-- parameter `regexp`, with the text that MustCompile panics with. Patterns and paths are ASCII.
pub mod Runs
pub mod Language
use magic_engine.Common.{
  ℕ, Bool, true, false, not, ◌&&◌, ◌||◌, Option, none, some, List, [], ◌∷◌, ◌++◌, leb, ◌==◌,
  if◌then◌else◌, Bytes, codes, bytes_eq,
}

pub data Token : Type 0 where
  -- a byte that stands for itself
  lit : ℕ → Token
  -- `.`
  any : Token
  -- `(?P<name>[^/#?]+)`
  param : Bytes → Token
  -- `(?P<_i>[^#?]*)`
  wild : Token

abbrev pub mem : ℕ → Bytes → Bool
mem c [] = false
mem c (x ∷ xs) = (c == x) || mem c xs

-- routeReg1's `[^/#?()\.\\]`
unfoldable pub name_byte : ℕ → Bool
name_byte c = not (mem c (codes "/#?().\\"))

-- What package regexp makes of a pattern whose rewritten text has other operators: the match, unless
-- MustCompile panics, and the text that it then panics with.
pub record Regexp : Type 0 where
  pub matcher : Bytes → Option (Bytes → Bool)
  pub refusal : Bytes → Bytes

-- Bytes with a meaning in regexp that the rewriting leaves in the text, other than the dot.
special_byte : ℕ → Bool
special_byte c = mem c (codes "\\+?()|[]{}^$")

-- What the tokenizer is in the middle of.
pub data Mode : Type 0 where
  plain : Mode
  -- after a `:` and these name bytes
  name : Bytes → Mode
  -- after a first `*`
  star : Mode

-- The end of a match of routeReg1, which wants one name byte at least.
close_name : Bytes → Token
close_name [] = lit b':'
close_name (c ∷ cs) = param (c ∷ cs)

abbrev emit : Token → Option (List Token) → Option (List Token)
emit t none = none
emit t (some ts) = some (t ∷ ts)

plain_byte : ℕ → (Mode → Option (List Token)) → Option (List Token)
plain_byte c rest =
    if c == b':'
    then rest (name [])
    else if c == b'*'
    then rest star
    else if c == b'.'
    then emit any (rest plain)
    else if special_byte c
    then none
    else emit (lit c) (rest plain)

tokenize : Mode → Bytes → Option (List Token)
tokenize plain [] = some []
tokenize (name cs) [] = some (close_name cs ∷ [])
tokenize star [] = none
tokenize plain (c ∷ s) = plain_byte c (λ m. tokenize m s)
tokenize (name cs) (c ∷ s) = elim (name_byte c) [
  | true ↦ tokenize (name (cs ++ c ∷ [])) s
  | false ↦ emit (close_name cs) (plain_byte c (λ m. tokenize m s))
]
tokenize star (c ∷ s) = if c == b'*' then emit wild (tokenize plain s) else none

word_byte : ℕ → Bool
word_byte c =
    (leb b'a' c && leb c b'z')
    || (leb b'A' c && leb c b'Z')
    || (leb b'0' c && leb c b'9')
    || (c == b'_')

all_words : Bytes → Bool
all_words [] = true
all_words (c ∷ cs) = word_byte c && all_words cs

-- A group name that regexp takes, and that no `_i` equals.
valid_name : Bytes → Bool
valid_name [] = false
valid_name (c ∷ cs) = not (c == b'_') && all_words (c ∷ cs)

names : List Token → List Bytes
names [] = []
names (param n ∷ ts) = n ∷ names ts
names (lit _ ∷ ts) = names ts
names (any ∷ ts) = names ts
names (wild ∷ ts) = names ts

mem_name : Bytes → List Bytes → Bool
mem_name n [] = false
mem_name n (m ∷ ms) = bytes_eq n m || mem_name n ms

valid_names : List Bytes → Bool
valid_names [] = true
valid_names (n ∷ ns) = valid_name n && not (mem_name n ns) && valid_names ns

-- PatternFilter
pub data PatternFilter : Type 0 where
  tokens : List Token → PatternFilter
  foreign : (Bytes → Bool) → PatternFilter

abbrev as_foreign : Option (Bytes → Bool) → Option PatternFilter
as_foreign none = none
as_foreign (some f) = some (foreign f)

abbrev compile : Option (List Token) → Option (Bytes → Bool) → Option PatternFilter
compile none other = as_foreign other
compile (some ts) other = if valid_names (names ts) then some (tokens ts) else as_foreign other

-- NewPatternFilter; `none` is the panic of MustCompile.
unfoldable pub new_pattern_filter : (regexp : Regexp) → Bytes → Option PatternFilter
unfolding tokenize plain_byte special_byte name_byte close_name valid_names valid_name mem_name
    names all_words word_byte bytes_eq
new_pattern_filter regexp pattern = compile (tokenize plain pattern) (regexp.matcher pattern)

-- `[^/#?]` and `[^#?]`
abbrev pub segment_byte : ℕ → Bool
segment_byte c = not (mem c (codes "/#?"))

abbrev pub wild_byte : ℕ → Bool
wild_byte c = not (mem c (codes "#?"))

-- The first of two ways to go on, the second only if the first fails.
abbrev pub or_else : Option Bytes → Option Bytes → Option Bytes
or_else none y = y
or_else (some x) y = some x

-- `x*` and what follows it, the longest run of `x` first
unfoldable pub longest : (Bytes → Option Bytes) → (ℕ → Bool) → Bytes → Option Bytes
longest follow p [] = follow []
longest follow p (c ∷ s) = elim (p c) [
  | true ↦ or_else (longest follow p s) (follow (c ∷ s))
  | false ↦ follow (c ∷ s)
]

-- `\/?`
abbrev pub optional_slash : Bytes → Bytes
optional_slash [] = []
optional_slash (c ∷ s) = if c == b'/' then s else c ∷ s

-- The leftmost-first match of the expression at the start of a text: what it leaves unmatched.
unfoldable pub find : List Token → Bytes → Option Bytes
unfolding longest
find [] s = some (optional_slash s)
find (lit c ∷ ts) [] = none
find (lit c ∷ ts) (x ∷ s) = if x == c then find ts s else none
find (any ∷ ts) [] = none
find (any ∷ ts) (x ∷ s) = if x == 10 then none else find ts s
find (param _ ∷ ts) [] = none
find (param _ ∷ ts) (x ∷ s) = if segment_byte x then longest (find ts) segment_byte s else none
find (wild ∷ ts) s = longest (find ts) wild_byte s

abbrev pub whole : Option Bytes → Bool
whole none = false
whole (some []) = true
whole (some (_ ∷ _)) = false

-- PatternFilter.Match: `matches[0] == uriPath`. A match that starts later is shorter than the path.
unfoldable pub match : PatternFilter → Bytes → Bool
unfolding find
match (tokens ts) path = whole (find ts path)
match (foreign f) path = f path
