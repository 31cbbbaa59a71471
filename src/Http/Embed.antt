-- ===== src/Http/Embed.antt =====
-- http/embed_static.go: the static files of an embed.FS, with the cache of the files that were read.
-- An error only makes the middleware pass the request on, so that its text is left out.
pub mod Cache
pub mod Shared
use magic_engine.Common.{
  ℕ, ◌/◌, Bool, not, ◌&&◌, Option, none, some, List, [], ◌∷◌, if◌then◌else◌, Bytes, codes, bytes_eq,
  lookup, assign, has_prefix,
}
use magic_engine.NetHttp.{Error, Try, ok, err, Request, Reply}
use magic_engine.Paths.{join, ends_in_slash}
use magic_engine.Http.Middleware.{Code}

-- EmbedFile
pub record EmbedFile : Type 0 where
  pub mod_time : ℕ
  pub file_context : Bytes

-- What the code calls outside: fs.Stat and fs.ReadFile on the embed.FS, which never changes, and
-- http.ServeContent with the name, the time and the content.
pub record EmbedFs : Type 0 where
  -- fs.Stat, of which the code reads ModTime()
  pub stat : Bytes → Try ℕ
  pub read_file : Bytes → Try Bytes
  pub serve_content : Request → Bytes → EmbedFile → Reply

-- EmbedStatic, less the file system
pub record EmbedStatic : Type 0 where
  pub embed_path : Bytes
  pub prefix_path : Bytes
  pub static_file_info : List (Bytes × EmbedFile)

-- EmbedStaticOption
pub data EmbedStaticOption : Type 0 where
  with_prefix_path : Bytes → EmbedStaticOption
  with_embed_path : Bytes → EmbedStaticOption

abbrev pub apply_embed_option : EmbedStaticOption → EmbedStatic → EmbedStatic
apply_embed_option (with_prefix_path path) es = record es { prefix_path = path }
apply_embed_option (with_embed_path path) es = record es { embed_path = path }

apply_embed_options : List EmbedStaticOption → EmbedStatic → EmbedStatic
apply_embed_options [] es = es
apply_embed_options (opt ∷ opts) es = apply_embed_options opts (apply_embed_option opt es)

-- NewEmbedStatic
unfoldable pub new_embed_static : List EmbedStaticOption → EmbedStatic
unfolding apply_embed_options
new_embed_static opts =
    apply_embed_options opts
      (record { embed_path = codes "."; prefix_path = codes "/static"; static_file_info = [] })

-- NewEmbedStaticWithPath
unfoldable pub new_embed_static_with_path : Bytes → Bytes → EmbedStatic
unfolding new_embed_static
new_embed_static_with_path embed_path prefix_path =
    new_embed_static (with_embed_path embed_path ∷ with_prefix_path prefix_path ∷ [])

-- isDir
abbrev pub is_dir : Bytes → Bool
is_dir path = ends_in_slash path

abbrev or_root : Bytes → Bytes
or_root [] = codes "/"
or_root (c ∷ s) = c ∷ s

-- validatePath
unfoldable pub validate_path : EmbedStatic → Bytes → Bytes
validate_path es file_path =
    let path = or_root file_path in
    join es.embed_path (if is_dir path then join path (codes "index.html") else path)

module _ (files : EmbedFs) where
  -- findEmbedFile behind the two calls on the file system
  abbrev pub store_file : Bytes → EmbedStatic → Try ℕ → Try Bytes → Try EmbedFile × EmbedStatic
  store_file path es (err e) content = (err e, es)
  store_file path es (ok time) (err e) = (err e, es)
  store_file path es (ok time) (ok content) =
      let file : EmbedFile = record { mod_time = time; file_context = content } in
      (ok file, record es { static_file_info = assign path file es.static_file_info })

  find_from : Option EmbedFile → Bytes → EmbedStatic → Try EmbedFile × EmbedStatic
  find_from (some file) path es = (ok file, es)
  find_from none path es = store_file path es (files.stat path) (files.read_file path)

  -- findEmbedFile
  unfoldable pub find_embed_file : Bytes → EmbedStatic → Try EmbedFile × EmbedStatic
  unfolding find_from
  find_embed_file path es = find_from (lookup path es.static_file_info) path es

  module _ {C : Type 0} where
    -- The end of MiddleWareHandle: ServeContent, or the deferred ctx.Next() after an error
    abbrev pub serve_found : Bytes → Request → Try EmbedFile → Code C
    serve_found path req (ok file) = Code.reply (files.serve_content req path file) Code.done
    serve_found path req (err e) = Code.next Code.done

    serve_embedded : Bytes → Request → Try EmbedFile × EmbedStatic → Code C × EmbedStatic
    serve_embedded path req (r, es) = (serve_found path req r, es)

    -- EmbedStatic.MiddleWareHandle: what it calls, and the cache that it leaves
    unfoldable pub embed_middleware : EmbedStatic → Request → Code C × EmbedStatic
    unfolding serve_embedded validate_path find_embed_file
    embed_middleware es req =
        if not (has_prefix req.path es.prefix_path)
        then (Code.next Code.done, es)
        else if not (bytes_eq req.method (codes "GET")) && not (bytes_eq req.method (codes "HEAD"))
        then (Code.next Code.done, es)
        else (let path = validate_path es req.path in
            serve_embedded path req (find_embed_file path es))
