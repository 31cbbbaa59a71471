-- ===== src/Http/Url.antt =====
-- What the code uses of Go's packages net/url and strings on the targets of its redirects and
-- proxies: the fields of url.URL, the map url.Values, and strings.ReplaceAll. The parsing and printing
-- of URLs and query texts are parameters.
use magic_engine.Common.{
  ℕ, zero, suc, ◌-◌, true, false, List, [], ◌∷◌, ◌++◌, length, Bytes, assign, has_prefix,
}
use magic_engine.NetHttp.{Try, Request, Reply}

-- url.URL, of which the code touches four fields; the others are in `others`, as a text.
pub record Url : Type 0 where
  pub scheme : Bytes
  pub host : Bytes
  pub path : Bytes
  pub raw_query : Bytes
  pub others : Bytes

-- url.Values: each key with its first value and the further ones. Parsing a query and Set leave no
-- key without a value.
abbrev pub Values : Type 0
Values = List (Bytes × (Bytes × List Bytes))

-- Values.Set
abbrev pub set_value : Bytes → Bytes → Values → Values
set_value key value values = assign key (value, []) values

-- url.Parse, url.ParseQuery, Values.Encode, URL.Hostname, URL.String and http.Redirect
pub record Urls : Type 0 where
  pub parse : Bytes → Try Url
  pub parse_query : Bytes → Values
  pub encode : Values → Bytes
  -- of the host of a URL
  pub hostname : Bytes → Bytes
  pub text : Url → Bytes
  pub redirect : Request → Bytes → ℕ → Reply

-- strings.ReplaceAll for a text that is not empty: the bytes left of a match that are skipped, then
-- the next place. bytes.ReplaceAll does the same.
unfoldable pub replace_from : ℕ → Bytes → Bytes → Bytes → Bytes
unfolding has_prefix
replace_from skip old new [] = []
replace_from (suc skip) old new (c ∷ s) = replace_from skip old new s
replace_from zero old new (c ∷ s) = elim (has_prefix (c ∷ s) old) [
  | true ↦ new ++ replace_from (length old - 1) old new s
  | false ↦ c ∷ replace_from 0 old new s
]

unfoldable pub replace_all : Bytes → Bytes → Bytes → Bytes
unfolding replace_from
replace_all s old new = replace_from 0 old new s
