-- ===== src/Http/Static/Calm.antt =====
-- http/static.go: the middleware calls ctx.Next() at most, never ctx.Run().
use magic_engine.Common.{
  if_either, not, ◌&&◌, Option, none, some, length, Bytes, codes, bytes_eq, has_prefix,
}
use magic_engine.NetHttp.{ok, err, Request}
use magic_engine.Paths.{join}
use magic_engine.Http.Middleware.Fuel.{NoRun}
use magic_engine.Http.Static.{
  StaticOptions, Files, ContextValues, Served, non_empty, prepare_static_options, slice_from,
  resolve_root_directory, served_or_next, starts_off_slash, serve_static_file, serve_below,
  serve_prefixed, serve_with, static_middleware,
}

served_or_next-NoRun : (C : Type 0) (s : Served) → NoRun (served_or_next {C = C} s)
served_or_next-NoRun C (ok r) = tt
served_or_next-NoRun C (err e) = tt

module _ {F C : Type 0} (files : Files F) (values : ContextValues C) where
  serve_below-NoRun :
      (o : Option Bytes) (dir : Bytes) (opt : StaticOptions) (req : Request)
      → NoRun (serve_below files values o dir opt req)
  unfolding serve_below
  serve_below-NoRun none dir opt req = tt
  serve_below-NoRun (some uri) dir opt req =
      if_either NoRun (starts_off_slash uri) tt
        (served_or_next-NoRun C (serve_static_file files dir opt uri req))

  serve_prefixed-NoRun :
      (dir sub : Bytes) (opt : StaticOptions) (req : Request)
      → NoRun (serve_prefixed files values dir sub opt req)
  unfolding serve_prefixed
  serve_prefixed-NoRun dir sub opt req =
      if_either NoRun (non_empty (join opt.prefix_uri sub))
        (if_either NoRun (has_prefix req.path (join opt.prefix_uri sub))
          (serve_below-NoRun (slice_from (length opt.prefix_uri) req.path) dir opt req) tt)
        (served_or_next-NoRun C (serve_static_file files dir opt req.path req))

  serve_with-NoRun :
      (root root_path sub : Bytes) (given : Option StaticOptions) (req : Request)
      → NoRun (serve_with files values root root_path sub given req)
  unfolding serve_with
  serve_with-NoRun root root_path sub none req = tt
  serve_with-NoRun root root_path sub (some given) req =
      let opt = prepare_static_options given in
      if_either NoRun
        (not (bytes_eq req.method (codes "GET")) && not (bytes_eq req.method (codes "HEAD"))) tt
        (if_either NoRun (non_empty opt.exclude_uri && has_prefix req.path opt.exclude_uri) tt (
          serve_prefixed-NoRun (resolve_root_directory root given.root_path root_path) sub opt req))

  pub static_middleware-NoRun :
      (root root_path sub : Bytes) (req : Request)
      → NoRun (static_middleware files values root root_path sub req)
  unfolding static_middleware
  static_middleware-NoRun root root_path sub req =
      λ ctx. serve_with-NoRun root root_path sub (values.get_static ctx) req
