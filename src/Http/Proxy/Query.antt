-- ===== src/Http/Proxy/Query.antt =====
-- The query that goes out, from those of the request and of the target.
use magic_engine.Common.{
  ◌≡◌, refl, ap, ap₂, ◌∙◌, subst, inl, inr, Option, none, some, List, [], ◌∷◌, Bool-cases, Bytes,
  bytes_eq, bytes_eq→eq, lookup, lookup-assign,
}
use magic_engine.NetHttp.{Request}
use magic_engine.Http.Url.{Url, Values, set_value, Urls}
use magic_engine.Http.Proxy.{
  set_firsts, clone_query_values, apply_proxy_target, reverse_proxy_director,
}

-- Each key stands once, as in a map.
abbrev pub Unique : Values → Type 0
Unique [] = Unit
Unique ((key, v) ∷ values) = (lookup key values ≡ none) × Unique values

-- The first value of the one, and without one the values of the other
abbrev pub over :
    Option (Bytes × List Bytes) → Option (Bytes × List Bytes) → Option (Bytes × List Bytes)
over none below = below
over (some (value, more)) below = some (value, [])

clone_query_values_lem : (values : Values) → clone_query_values (some values) ≡ values
unfolding clone_query_values
clone_query_values_lem [] = refl
clone_query_values_lem (v ∷ values) = ap (λ r. v ∷ r) (clone_query_values_lem values)

lookup-set_firsts :
    (key : Bytes) (values target : Values)
    → Unique values
    → lookup key (set_firsts values target) ≡ over (lookup key values) (lookup key target)
unfolding set_firsts lookup
lookup-set_firsts key [] target u = refl
lookup-set_firsts key ((k, (v, more)) ∷ values) target (fresh, u) =
    let next = lookup-set_firsts key values (set_value k v target) u in
    let stored = lookup-assign k key (v, []) target in
    elim (Bool-cases (bytes_eq k key)) [
      | inl hit ↦
          let here : k ≡ key = bytes_eq→eq k key hit in
          let gone : lookup key values ≡ none = subst (λ j. lookup j values ≡ none) here fresh in
          rw hit (next ∙ ap₂ over gone (stored ∙ rw hit refl))
      | inr miss ↦ rw miss (next ∙ ap (over (lookup key values)) (stored ∙ rw miss refl))
    ]

module _ (urls : Urls) (unique : (query : Bytes) → Unique (urls.parse_query query)) where
  -- Where a parsed query has each key once: the URL that applyProxyTarget gives has scheme and host of
  -- the target, and a query in which a key of the request has the first value that the request gives
  -- it, and every other key all values that the target gives it. The director of newReverseProxy
  -- lets the target win instead.
  pub apply_proxy_target-query :
      (target : Url) (req : Request)
      → let u : Url = apply_proxy_target urls (some target) req in
        (u.scheme ≡ target.scheme)
        × (u.host ≡ target.host)
        × (sent : Values) × (u.raw_query ≡ urls.encode sent)
        × ((key : Bytes)
            → lookup key sent
              ≡ over
                  (lookup key (urls.parse_query req.raw_query))
                  (lookup key (urls.parse_query target.raw_query)))
        × (directed : Values) × ((reverse_proxy_director urls target req).raw_query
            ≡ urls.encode directed)
        × ((key : Bytes)
            → lookup key directed
              ≡ over
                  (lookup key (urls.parse_query target.raw_query))
                  (lookup key (urls.parse_query req.raw_query)))
  unfolding apply_proxy_target reverse_proxy_director
  apply_proxy_target-query target req =
      let asked = urls.parse_query req.raw_query in
      let given = urls.parse_query target.raw_query in
      (
        refl,
        refl,
        set_firsts asked given,
        ap (λ vs. urls.encode (set_firsts asked vs)) (clone_query_values_lem given),
        λ key. lookup-set_firsts key asked given (unique req.raw_query),
        set_firsts given asked,
        refl,
        λ key. lookup-set_firsts key given asked (unique target.raw_query),
      )
