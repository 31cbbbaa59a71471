-- ===== src/Http/Embed/Shared.antt =====
-- http/embed_static.go: requests that run at the same time on one EmbedStatic, as a step relation. A
-- step of a request is a call of Load, Store or the file system, with the code up to the next; its
-- sync.Map is the one cache, and the embed.FS does not change.
pub mod Sound
use magic_engine.Common.{
  ℕ, ◌+◌, ◌≡◌, Bool, true, false, ◌&&◌, ◌||◌, none, some, List, [], ◌∷◌, ◌++◌, Bytes, codes,
  bytes_eq, lookup, assign, has_prefix,
}
use magic_engine.NetHttp.{Error, Try, ok, err, Request}
use magic_engine.Http.Middleware.{Code}
use magic_engine.Http.Embed.{EmbedFile, EmbedFs, EmbedStatic, validate_path, serve_found}

abbrev pub Cache : Type 0
Cache = List (Bytes × EmbedFile)

-- Where a request stands: before MiddleWareHandle, before Load, before fs.Stat, before fs.ReadFile,
-- before Store, and behind what the middleware calls
pub data EmbedPc (C : Type 0) : Type 0 where
  arrived : Request → EmbedPc C
  loading : Bytes → Request → EmbedPc C
  missed : Bytes → Request → EmbedPc C
  stated : Bytes → ℕ → Request → EmbedPc C
  storing : Bytes → EmbedFile → Request → EmbedPc C
  answered : Request → Code C → EmbedPc C

-- The two tests of MiddleWareHandle
abbrev pub is_served : Bytes → Request → Bool
is_served prefix req =
    has_prefix req.path prefix
    && (bytes_eq req.method (codes "GET") || bytes_eq req.method (codes "HEAD"))

-- validatePath of a middleware that was made with these paths
abbrev pub path_of : Bytes → Bytes → Request → Bytes
path_of prefix embed req =
    validate_path (record { embed_path = embed; prefix_path = prefix; static_file_info = [] })
      req.path

module _ (files : EmbedFs) (prefix embed : Bytes) {C : Type 0} where
  -- A step of one request on the cache
  pub data EmbedMove : Cache → EmbedPc C → Cache → EmbedPc C → Type 0 where
    passes :
        {info : Cache} {req : Request}
        → is_served prefix req ≡ false
        → EmbedMove info (arrived req) info (answered req (Code.next Code.done))
    begins :
        {info : Cache} {req : Request}
        → is_served prefix req ≡ true
        → EmbedMove info (arrived req) info (loading (path_of prefix embed req) req)
    hits :
        {info : Cache} {path : Bytes} {req : Request} {file : EmbedFile}
        → lookup path info ≡ some file
        → EmbedMove info
            (loading path req)
            info
            (answered req (serve_found files path req (ok file)))
    misses :
        {info : Cache} {path : Bytes} {req : Request}
        → lookup path info ≡ none
        → EmbedMove info (loading path req) info (missed path req)
    stat_fails :
        {info : Cache} {path : Bytes} {req : Request} {e : Error}
        → files.stat path ≡ err e
        → EmbedMove info (missed path req) info (answered req (serve_found files path req (err e)))
    stats :
        {info : Cache} {path : Bytes} {req : Request} {time : ℕ}
        → files.stat path ≡ ok time
        → EmbedMove info (missed path req) info (stated path time req)
    read_fails :
        {info : Cache} {path : Bytes} {time : ℕ} {req : Request} {e : Error}
        → files.read_file path ≡ err e
        → EmbedMove info
            (stated path time req)
            info
            (answered req (serve_found files path req (err e)))
    reads :
        {info : Cache} {path : Bytes} {time : ℕ} {req : Request} {content : Bytes}
        → files.read_file path ≡ ok content
        → EmbedMove info
            (stated path time req)
            info
            (storing path (record { mod_time = time; file_context = content }) req)
    stores :
        {info : Cache} {path : Bytes} {file : EmbedFile} {req : Request}
        → EmbedMove info
            (storing path file req)
            (assign path file info)
            (answered req (serve_found files path req (ok file)))

  -- The cache and all requests: a new one arrives, or one of them makes a step.
  pub data EmbedStep : Cache × List (EmbedPc C) → Cache × List (EmbedPc C) → Type 0 where
    arrives :
        {info : Cache} {pcs : List (EmbedPc C)} (req : Request)
        → EmbedStep (info, pcs) (info, arrived req ∷ pcs)
    moves :
        {info info' : Cache} {pc pc' : EmbedPc C} (before after : List (EmbedPc C))
        → EmbedMove info pc info' pc'
        → EmbedStep (info, before ++ pc ∷ after) (info', before ++ pc' ∷ after)

  -- What can be reached from a new EmbedStatic
  pub data EmbedReach : Cache × List (EmbedPc C) → Type 0 where
    fresh : EmbedReach ([], [])
    on : {s t : Cache × List (EmbedPc C)} → EmbedReach s → EmbedStep s t → EmbedReach t
