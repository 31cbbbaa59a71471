-- ===== src/Http/Embed/Cache.antt =====
-- The middleware of EmbedStatic with its cache and without one.
use magic_engine.Common.{
  ℕ, ◌≡◌, refl, sym, ap, ap₂, ◌∙◌, inl, inr, not, ◌&&◌, some, List, [], ◌∷◌, map, arith,
  if◌then◌else◌, Bool-cases, Option-cases, Bytes, codes, bytes_eq, bytes_eq→eq, lookup,
  lookup-assign, has_prefix,
}
use magic_engine.NetHttp.{Try, ok, err, Request}
use magic_engine.Http.Middleware.{Code}
use magic_engine.Http.Embed.{
  EmbedFile, EmbedFs, EmbedStatic, new_embed_static_with_path, new_embed_static, validate_path,
  store_file, find_embed_file, serve_found, serve_embedded, embed_middleware,
}

-- A file of the file system: its time and its content, if both calls succeed
abbrev pub file_of : Try ℕ → Try Bytes → Try EmbedFile
file_of (err e) content = err e
file_of (ok time) (err e) = err e
file_of (ok time) (ok content) = ok (record { mod_time = time; file_context = content })

module _ (files : EmbedFs) where
  -- Every entry of the cache is what the file system has.
  abbrev pub Coherent : List (Bytes × EmbedFile) → Type 0
  Coherent info =
      (path : Bytes) (file : EmbedFile)
      → lookup path info ≡ some file
      → file_of (files.stat path) (files.read_file path) ≡ ok file

  store_file-file_of :
      (path : Bytes) (es : EmbedStatic) (s : Try ℕ) (r : Try Bytes)
      → (store_file files path es s r).0 ≡ file_of s r
  store_file-file_of path es (err e) r = refl
  store_file-file_of path es (ok t) (err e) = refl
  store_file-file_of path es (ok t) (ok c) = refl

  store_file-Coherent :
      (path : Bytes) (es : EmbedStatic) (s : Try ℕ) (r : Try Bytes)
      → file_of (files.stat path) (files.read_file path) ≡ file_of s r
      → Coherent es.static_file_info
      → Coherent (store_file files path es s r).1.static_file_info
  store_file-Coherent path es (err e) r same h = h
  store_file-Coherent path es (ok t) (err e) same h = h
  store_file-Coherent path es (ok t) (ok content) same h = λ j file found.
      let stored : EmbedFile = record { mod_time = t; file_context = content } in
      let now = lookup-assign path j stored es.static_file_info in
      elim (Bool-cases (bytes_eq path j)) [
        | inl hit ↦
            let there : path ≡ j = bytes_eq→eq path j hit in
            let this : some stored ≡ some file = ground (arith, now) in
            ap (λ x. file_of (files.stat x) (files.read_file x)) (sym there) ∙ same ∙ cc
        | inr miss ↦ h j file (ground (arith, now))
      ]

  -- The paths that a middleware was made with
  abbrev Kept : EmbedStatic → EmbedStatic → Type 0
  Kept es es' = (es'.prefix_path ≡ es.prefix_path) × (es'.embed_path ≡ es.embed_path)

  store_file-Kept :
      (path : Bytes) (es : EmbedStatic) (s : Try ℕ) (r : Try Bytes)
      → Kept es (store_file files path es s r).1
  store_file-Kept path es (err e) r = (refl, refl)
  store_file-Kept path es (ok t) (err e) = (refl, refl)
  store_file-Kept path es (ok t) (ok c) = (refl, refl)

  find_embed_file_lem :
      (path : Bytes) (es : EmbedStatic)
      → Coherent es.static_file_info
      → ((find_embed_file files path es).0 ≡ file_of (files.stat path) (files.read_file path))
        × Coherent (find_embed_file files path es).1.static_file_info
        × Kept es (find_embed_file files path es).1
  unfolding find_embed_file
  find_embed_file_lem path es h = elim (Option-cases (lookup path es.static_file_info)) [
    | inl missing ↦ rw missing (
      store_file-file_of path es (files.stat path) (files.read_file path),
      store_file-Coherent path es (files.stat path) (files.read_file path) refl h,
      store_file-Kept path es (files.stat path) (files.read_file path),
    )
    | inr (file, found) ↦ rw found (sym (h path file found), h, (refl, refl))
  ]

  -- The middleware without a cache: what is answered to a request, given the two paths that it was
  -- made with
  abbrev pub answer_direct : {C : Type 0} → Bytes → Bytes → Request → Code C
  answer_direct prefix embed req =
      let path =
        validate_path (record { embed_path = embed; prefix_path = prefix; static_file_info = [] })
          req.path in
      if not (has_prefix req.path prefix)
      then Code.next Code.done
      else if not (bytes_eq req.method (codes "GET")) && not (bytes_eq req.method (codes "HEAD"))
      then Code.next Code.done
      else serve_found files path req (file_of (files.stat path) (files.read_file path))

  module _ {C : Type 0} where
    -- The requests that reach the middleware, one after the other
    unfoldable pub answer_all : List Request → EmbedStatic → List (Code C)
    answer_all [] es = []
    answer_all (req ∷ reqs) es =
        let (code, es') = embed_middleware files {C = C} es req in code ∷ answer_all reqs es'

    -- One request: the answer of the middleware without a cache; the cache stays coherent.
    Answers : EmbedStatic → Request → Code C × EmbedStatic → Type 0
    Answers es req (code, es') =
        (code ≡ answer_direct es.prefix_path es.embed_path req)
        × Coherent es'.static_file_info
        × Kept es es'

  module _ (C : Type 0) where
    embed_middleware-Answers :
        (es : EmbedStatic) (req : Request)
        → Coherent es.static_file_info
        → Answers es req (embed_middleware files {C = C} es req)
    unfolding embed_middleware validate_path Answers serve_embedded
    embed_middleware-Answers es req h = elim (Bool-cases (has_prefix req.path es.prefix_path)) [
      | inr off ↦ rw off (refl, h, (refl, refl))
      | inl on ↦
          elim (Bool-cases
            (not (bytes_eq req.method (codes "GET")) && not (bytes_eq req.method (codes "HEAD")))) [
              | inl other ↦ rw (on, other) (refl, h, (refl, refl))
              | inr get ↦
                  let (found, coherent, kept) =
                    find_embed_file_lem (validate_path es req.path) es h in
                  rw (on, get)
                    (ap (serve_found files (validate_path es req.path) req) found, coherent, kept)
            ]
    ]

    answer_all-direct :
        (reqs : List Request) (es : EmbedStatic) (prefix embed : Bytes)
        → es.prefix_path ≡ prefix
        → es.embed_path ≡ embed
        → Coherent es.static_file_info
        → answer_all {C = C} reqs es ≡ map (answer_direct prefix embed) reqs
    unfolding answer_all Answers
    answer_all-direct [] es prefix embed p e h = refl
    answer_all-direct (req ∷ reqs) es prefix embed p e h =
        let (here, coherent, (p', e')) = embed_middleware-Answers es req h in
        ap₂ (λ code codes'. code ∷ codes') (here ∙ ap₂ (λ a b. answer_direct a b req) p e)
          (answer_all-direct reqs (embed_middleware files {C = C} es req).1 prefix embed (p' ∙ p)
            (e' ∙ e) coherent)

    -- The cache is never seen: a middleware that NewEmbedStaticWithPath made answers every request
    -- of every sequence as one does that reads the file system each time. That one serves a GET or
    -- HEAD under the prefix whose file can be read, and passes everything else on.
    pub answer_all-answer_direct :
        (embed_path prefix_path : Bytes) (reqs : List Request)
        → answer_all {C = C} reqs (new_embed_static_with_path embed_path prefix_path)
          ≡ map (answer_direct prefix_path embed_path) reqs
    unfolding new_embed_static_with_path new_embed_static lookup
    answer_all-answer_direct embed_path prefix_path reqs =
        answer_all-direct reqs (new_embed_static_with_path embed_path prefix_path) prefix_path
          embed_path refl refl (λ path file found. absurd cc)
