-- ===== src/Http/Static.antt =====
-- http/static.go: the options, the middleware that serves files, and StaticHandler. The file
-- system, http.ServeContent, http.Redirect and the values in a context are parameters. Logging and
-- the closing of files are not modelled; the text of a panic stands for its code points.
pub mod Calm
use magic_engine.Common.{
  ℕ, zero, suc, ◌≡◌, Bool, true, false, not, ◌&&◌, Option, none, some, [], ◌∷◌, ◌++◌, ◌==◌,
  if◌then◌else◌, length, Bytes, codes, bytes_eq, has_prefix,
}
use magic_engine.Http.Errors.{err_url_not_found}
use magic_engine.NetHttp.{Try, ok, err, Request, Reply}
use magic_engine.Paths.{join, is_abs, trim_right_slash, ends_in_slash}
use magic_engine.Http.Middleware.{Code, Middleware}
use magic_engine.Http.Registry.{panic_info}

-- StaticOptions; `expires` is what the user's function returns, if there is one.
pub record StaticOptions : Type 0 where
  pub root_path : Bytes
  pub prefix_uri : Bytes
  pub skip_logging : Bool
  pub index_file : Bytes
  pub expires : Option Bytes
  pub fallback : Bytes
  pub exclude_uri : Bytes

-- What the code calls outside: http.Dir and the files that it opens, over a type `F` of open files,
-- and the replies of net/http that depend on them.
pub record Files (F : Type 0) : Type 0 where
  -- http.Dir(dir).Open(name)
  pub open_file : Bytes → Bytes → Try F
  -- file.Stat(), of which the code reads IsDir()
  pub stat_is_dir : F → Try Bool
  -- http.ServeContent(res, req, name, modtime, file)
  pub serve_content : Request → Bytes → F → Reply
  -- http.Redirect(res, req, url, code), with the text of the url.URL{Path, RawQuery, Fragment}
  pub redirect : Request → Bytes → ℕ → Reply
  pub url_text : Bytes → Bytes → Bytes

-- context.WithValue and GetValueFromContext of magicCommon at StaticOptionsKey{}.
pub record ContextValues (C : Type 0) : Type 0 where
  pub with_static : StaticOptions → C → C
  pub get_static : C → Option StaticOptions
  pub get-with : (o : StaticOptions) (c : C) → get_static (with_static o c) ≡ some o

abbrev pub non_empty : Bytes → Bool
non_empty [] = false
non_empty (_ ∷ _) = true

-- `if opt.PrefixUri[0] != '/' { opt.PrefixUri = "/" + opt.PrefixUri }`, then TrimRight
prepare_prefix : Bytes → Bytes
prepare_prefix [] = []
prepare_prefix (c ∷ s) =
    if c == b'/' then trim_right_slash (c ∷ s) else trim_right_slash (b'/' ∷ c ∷ s)

-- prepareStaticOptions
unfoldable pub prepare_static_options : StaticOptions → StaticOptions
unfolding prepare_prefix trim_right_slash
prepare_static_options o = record o {
  index_file = if non_empty o.index_file then o.index_file else codes "index.html";
  prefix_uri = prepare_prefix o.prefix_uri;
}

-- resolveRootDirectory, with the global `Root`
unfoldable pub resolve_root_directory : Bytes → Bytes → Bytes → Bytes
unfolding join is_abs
resolve_root_directory root root_path relative_to =
    if is_abs root_path
    then root_path
    else let dir = join relative_to root_path in if is_abs dir then dir else join root dir

-- `s[n:]`, which panics past the end.
unfoldable pub slice_from : ℕ → Bytes → Option Bytes
slice_from zero s = some s
slice_from (suc n) [] = none
slice_from (suc n) (_ ∷ s) = slice_from n s

-- A result of serveStaticFile: the calls on the response writer, and the error that it returns.
abbrev pub Served : Type 0
Served = Try Reply

-- `if err != nil { ctx.Next() }`
abbrev pub served_or_next : {C : Type 0} → Served → Code C
served_or_next (ok r) = Code.reply r Code.done
served_or_next (err e) = Code.next Code.done

-- The panic of an index out of range, with the text that the runtime gives it up to its numbers
abbrev pub slice_panic : Bytes
slice_panic = codes "runtime error: slice bounds out of range"

abbrev pub starts_off_slash : Bytes → Bool
starts_off_slash [] = false
starts_off_slash (c ∷ s) = not (c == b'/')

abbrev pub served_or_error : Served → Reply
served_or_error (ok r) = r
served_or_error (err e) = Reply.write_header 500 Reply.done

module _ {F : Type 0} (files : Files F) where
  -- The end of serveStaticFile: the Expires header and ServeContent.
  serve_file : StaticOptions → Bytes → Request → F → Served
  serve_file opt uri req file = elim opt.expires [
    | none ↦ ok (files.serve_content req uri file)
    | some value ↦
        ok (Reply.set_header (codes "Expires") (some value) (files.serve_content req uri file))
  ]

  -- The index file of a directory, opened and checked
  serve_index : Try F → StaticOptions → Bytes → Request → Served
  serve_index (err e) opt uri req = err e
  serve_index (ok file) opt uri req = elim (files.stat_is_dir file) [
    | err e ↦ err e
    | ok true ↦ err err_url_not_found
    | ok false ↦ serve_file opt uri req file
  ]

  serve_opened : F → Try Bool → Bytes → StaticOptions → Bytes → Request → Served
  serve_opened file (err e) dir opt uri req = err e
  serve_opened file (ok false) dir opt uri req = serve_file opt uri req file
  serve_opened file (ok true) dir opt uri req =
      if ends_in_slash req.path
      then serve_index (files.open_file dir (join uri opt.index_file)) opt (join uri opt.index_file)
          req
      else ok (files.redirect req (files.url_text (req.path ++ b'/' ∷ []) req.raw_query) 302)

  abbrev serve_try : Try F → Bytes → StaticOptions → Bytes → Request → Served
  serve_try (err e) dir opt uri req = err e
  serve_try (ok file) dir opt uri req = serve_opened file (files.stat_is_dir file) dir opt uri req

  -- The first Open, and the one of the fallback, which replaces the name too
  serve_from : Try F → Bytes → StaticOptions → Bytes → Request → Served
  serve_from (ok file) dir opt uri req = serve_opened file (files.stat_is_dir file) dir opt uri req
  serve_from (err e) dir opt uri req =
      if non_empty opt.fallback
      then serve_try (files.open_file dir opt.fallback) dir opt opt.fallback req
      else err e

  -- serveStaticFile
  unfoldable pub serve_static_file : Bytes → StaticOptions → Bytes → Request → Served
  unfolding serve_from serve_opened serve_index serve_file
  serve_static_file dir opt uri req = serve_from (files.open_file dir uri) dir opt uri req

  module _ {C : Type 0} (values : ContextValues C) where
    -- behind `fileUri = fileUri[len(opt.PrefixUri):]`
    pub serve_below : Option Bytes → Bytes → StaticOptions → Request → Code C
    serve_below none dir opt req = Code.reply (Reply.panic slice_panic) Code.done
    serve_below (some uri) dir opt req =
        if starts_off_slash uri
        then Code.next Code.done
        else served_or_next (serve_static_file dir opt uri req)

    -- static.MiddleWareHandle for a GET or HEAD that the options do not exclude
    pub serve_prefixed : Bytes → Bytes → StaticOptions → Request → Code C
    serve_prefixed dir sub_prefix opt req =
        let prefix_url = join opt.prefix_uri sub_prefix in
        if non_empty prefix_url
        then (if has_prefix req.path prefix_url
            then serve_below (slice_from (length opt.prefix_uri) req.path) dir opt req
            else Code.next Code.done)
        else served_or_next (serve_static_file dir opt req.path req)

    pub serve_with : Bytes → Bytes → Bytes → Option StaticOptions → Request → Code C
    serve_with root root_path sub_prefix none req =
        Code.reply (Reply.panic (panic_info (codes "无法获取静态处理器"))) Code.done
    serve_with root root_path sub_prefix (some given) req =
        let opt = prepare_static_options given in
        if not (bytes_eq req.method (codes "GET")) && not (bytes_eq req.method (codes "HEAD"))
        then Code.next Code.done
        else if non_empty opt.exclude_uri && has_prefix req.path opt.exclude_uri
        then Code.next Code.done
        else serve_prefixed (resolve_root_directory root given.root_path root_path) sub_prefix opt
            req

    -- static.MiddleWareHandle, over the fields `rootPath` and `subPrefixUri`
    unfoldable pub static_middleware : Bytes → Bytes → Bytes → Middleware C
    unfolding serve_with serve_prefixed serve_below
    static_middleware root root_path sub_prefix req =
        Code.context (λ ctx. serve_with root root_path sub_prefix (values.get_static ctx) req)

    abbrev handle_below : Option Bytes → Bytes → StaticOptions → Request → Reply
    handle_below none dir opt req = Reply.panic slice_panic
    handle_below (some uri) dir opt req = served_or_error (serve_static_file dir opt uri req)

    handle_with : Bytes → Option StaticOptions → Request → Reply
    handle_with root none req = Reply.panic (panic_info (codes "无法获取静态处理器"))
    handle_with root (some given) req =
        let opt = prepare_static_options given in
        if has_prefix req.path opt.prefix_uri
        then handle_below (slice_from (length opt.prefix_uri) req.path)
            (resolve_root_directory root given.root_path root) opt req
        else Reply.write_header 404 Reply.done

    -- StaticHandler
    unfoldable pub static_handler : Bytes → C → Request → Reply
    unfolding handle_with
    static_handler root ctx req = handle_with root (values.get_static ctx) req
