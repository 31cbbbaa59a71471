-- ===== src/Http/Embed/Shared/Sound.antt =====
-- Requests on one EmbedStatic at the same time, against a middleware without a cache.
use magic_engine.Common.{
  ◌≡◌, refl, sym, ap, ap₂, ◌∙◌, inl, inr, Bool, true, false, not, ◌&&◌, ◌||◌, some, List, [], ◌∷◌,
  ◌++◌, arith, if◌then◌else◌, Bool-cases, All, All-append, Bytes, codes, bytes_eq, bytes_eq→eq,
  lookup, assign, lookup-assign, has_prefix,
}
use magic_engine.NetHttp.{Try, ok, err, Request}
use magic_engine.Http.Middleware.{Code}
use magic_engine.Http.Embed.{EmbedFile, EmbedFs, serve_found}
use magic_engine.Http.Embed.Cache.{file_of, Coherent, answer_direct}
use magic_engine.Http.Embed.Shared.{
  Cache, EmbedPc, arrived, loading, missed, stated, storing, answered, is_served, path_of,
  EmbedMove, passes, begins, hits, misses, stat_fails, stats, read_fails, reads, stores, EmbedStep,
  arrives, moves, EmbedReach, fresh, on,
}

All-split {ℓ κ} :
    {A : Type ℓ} (P : A → Type κ) (xs : List A) (y : A) (ys : List A)
    → All P (xs ++ y ∷ ys)
    → All P xs × P y × All P ys
All-split P [] y ys (p, h) = (tt, p, h)
All-split P (x ∷ xs) y ys (p, h) =
    let (before, here, after) = All-split P xs y ys h in ((p, before), here, after)

-- What is on disk at a path
abbrev on_disk : EmbedFs → Bytes → Try EmbedFile
on_disk files path = file_of (files.stat path) (files.read_file path)

-- The two tests of the middleware, in turn and at once
tests_passed {ℓ} :
    {A : Type ℓ} (p g h : Bool) (x y : A)
    → (p && (g || h)) ≡ true
    → (if not p then x else if not g && not h then x else y) ≡ y
tests_passed true true h x y e = refl
tests_passed true false true x y e = refl
tests_passed true false false x y e = absurd cc
tests_passed false g h x y e = absurd cc

tests_failed {ℓ} :
    {A : Type ℓ} (p g h : Bool) (x y : A)
    → (p && (g || h)) ≡ false
    → (if not p then x else if not g && not h then x else y) ≡ x
tests_failed true true h x y e = absurd cc
tests_failed true false true x y e = absurd cc
tests_failed true false false x y e = refl
tests_failed false g h x y e = refl

stored_Coherent :
    (files : EmbedFs) (info : Cache) (path : Bytes) (file : EmbedFile)
    → on_disk files path ≡ ok file
    → Coherent files info
    → Coherent files (assign path file info)
stored_Coherent files info path file d c = λ j found_file found.
    let now = lookup-assign path j file info in
    elim (Bool-cases (bytes_eq path j)) [
      | inl hit ↦
          let there : path ≡ j = bytes_eq→eq path j hit in
          let this : some file ≡ some found_file = ground (arith, now) in
          ap (on_disk files) (sym there) ∙ d ∙ cc
      | inr miss ↦ c j found_file (ground (arith, now))
    ]

module _ (files : EmbedFs) (prefix embed : Bytes) {C : Type 0} where
  -- A request under way has its path and what it read; one that is answered got the answer of the
  -- middleware without a cache.
  abbrev pub IsDirect : EmbedPc C → Type 0
  IsDirect (arrived req) = Unit
  IsDirect (loading path req) = (is_served prefix req ≡ true) × (path ≡ path_of prefix embed req)
  IsDirect (missed path req) = (is_served prefix req ≡ true) × (path ≡ path_of prefix embed req)
  IsDirect (stated path time req) =
      (is_served prefix req ≡ true)
      × (path ≡ path_of prefix embed req)
      × (files.stat path ≡ ok time)
  IsDirect (storing path file req) =
      (is_served prefix req ≡ true)
      × (path ≡ path_of prefix embed req)
      × (on_disk files path ≡ ok file)
  IsDirect (answered req code) = code ≡ answer_direct files prefix embed req

  passed :
      (req : Request)
      → is_served prefix req ≡ false
      → Code.next Code.done ≡ answer_direct files {C = C} prefix embed req
  passed req h = sym (
      tests_failed (has_prefix req.path prefix) (bytes_eq req.method (codes "GET"))
        (bytes_eq req.method (codes "HEAD")) (Code.next Code.done)
        (serve_found files (path_of prefix embed req) req
          (on_disk files (path_of prefix embed req)))
        h)

  served :
      (req : Request) (path : Bytes) (found : Try EmbedFile)
      → is_served prefix req ≡ true
      → path ≡ path_of prefix embed req
      → on_disk files path ≡ found
      → serve_found files {C = C} path req found ≡ answer_direct files prefix embed req
  served req path found h p d =
      ap₂ (λ x f. serve_found files x req f) p (sym d ∙ ap (on_disk files) p)
      ∙ sym (
          tests_passed (has_prefix req.path prefix) (bytes_eq req.method (codes "GET"))
            (bytes_eq req.method (codes "HEAD")) (Code.next Code.done)
            (serve_found files (path_of prefix embed req) req
              (on_disk files (path_of prefix embed req)))
            h)

  -- A step keeps the cache coherent and its request direct.
  EmbedMove-IsDirect :
      {info info' : Cache} {pc pc' : EmbedPc C}
      → EmbedMove files prefix embed info pc info' pc'
      → Coherent files info
      → IsDirect pc
      → Coherent files info' × IsDirect pc'
  EmbedMove-IsDirect (passes {req} e) c d = (c, passed req e)
  EmbedMove-IsDirect (begins e) c d = (c, (e, refl))
  EmbedMove-IsDirect (hits {path} {req} {file} e) c (h, p) =
      (c, served req path (ok file) h p (c path file e))
  EmbedMove-IsDirect (misses e) c d = (c, d)
  EmbedMove-IsDirect (stat_fails {path} {req} {e} s) c (h, p) =
      (c, served req path (err e) h p (ap (λ t. file_of t (files.read_file path)) s))
  EmbedMove-IsDirect (stats s) c (h, p) = (c, (h, p, s))
  EmbedMove-IsDirect (read_fails {path} {req = req} {e = e} r) c (h, p, s) =
      (c, served req path (err e) h p (ap₂ file_of s r))
  EmbedMove-IsDirect (reads r) c (h, p, s) = (c, (h, p, ap₂ file_of s r))
  EmbedMove-IsDirect (stores {info} {path} {file} {req}) c (h, p, d) =
      (stored_Coherent files info path file d c, served req path (ok file) h p d)

  -- The cache has only what is on disk, and every request is direct.
  abbrev pub IsSound : Cache × List (EmbedPc C) → Type 0
  IsSound s = Coherent files s.0 × All IsDirect s.1

  EmbedStep-IsSound :
      {s t : Cache × List (EmbedPc C)} → EmbedStep files prefix embed s t → IsSound s → IsSound t
  EmbedStep-IsSound (arrives req) (c, ds) = (c, (tt, ds))
  EmbedStep-IsSound (moves {pc = pc} {pc' = pc'} before after m) (c, ds) =
      let (bs, d, later) = All-split IsDirect before pc after ds in
      let (c', d') = EmbedMove-IsDirect m c d in
      (c', All-append IsDirect before (pc' ∷ after) bs (d', later))

  -- However the steps of any number of requests on one EmbedStatic are interleaved, several of them
  -- for one file included: the cache has only files as the file system has them, and a request that
  -- is answered got what a middleware without a cache answers, which serves a GET or HEAD under the
  -- prefix whose file can be read and passes everything else on.
  pub EmbedReach-IsSound :
      {s : Cache × List (EmbedPc C)} → EmbedReach files prefix embed s → IsSound s
  unfolding lookup
  EmbedReach-IsSound fresh = ((λ path file e. absurd cc), tt)
  EmbedReach-IsSound (on r m) = EmbedStep-IsSound m (EmbedReach-IsSound r)
