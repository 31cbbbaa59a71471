-- ===== src/Http/StaticTests.antt =====
-- The theorem on the static files at a concrete request, and a run of the middleware with a prefix that
-- is not clean.
use magic_engine.Common.{
  ℕ, ◌≡◌, refl, false, Option, none, some, List, [], if◌then◌else◌, Bytes, codes, bytes_eq,
  has_prefix,
}
use magic_engine.Paths.{join, trim_right_slash}
use magic_engine.NetHttp.{ok, err, Request, Reply}
use magic_engine.Http.Response.{returned, panicked, run_reply}
use magic_engine.Http.Middleware.{Act, State, exec, respond}
use magic_engine.Http.Context.{new_context}
use magic_engine.Http.RegistryTests.{recorder}
use magic_engine.Http.Static.{
  StaticOptions, Files, ContextValues, prepare_static_options, slice_from, slice_panic,
  static_middleware,
}

-- A file system with one file
abbrev files : Files Unit
files = record {
  open_file = λ dir name. if bytes_eq name (codes "/a.css") then ok tt else err (codes "missing");
  stat_is_dir = λ file. ok false;
  serve_content = λ req name file. Reply.write (codes "body {}") (λ n e. Reply.done);
  redirect = λ req target code. Reply.write_header code Reply.done;
  url_text = λ path query. path;
}

abbrev values : ContextValues (Option StaticOptions)
values = record { with_static = λ o c. some o; get_static = λ c. c; get-with = λ o c. refl }

abbrev options : Bytes → StaticOptions
options prefix = record {
  root_path = codes "./static";
  prefix_uri = prefix;
  skip_logging = false;
  index_file = [];
  expires = none;
  fallback = [];
  exclude_uri = codes "/api/";
}

abbrev gets : Bytes → Request
gets path = record {
  method = codes "GET";
  path = path;
  raw_query = [];
  header = λ key. [];
  remote_addr = [];
}

abbrev state : StaticOptions → State (List ℕ) (Option StaticOptions)
state o = new_context (record { inner = []; status = 0; size = 0 }) (some o)

abbrev goes_on : Act (List ℕ) (Option StaticOptions)
goes_on s = (returned, s)

-- the prefix `/x/../b` is cut off the path `/b`
unclean_prefix_panics :
    (exec goes_on
      (static_middleware files values (codes "/srv") (codes "/srv") [] (gets (codes "/b")))
      (state (options (codes "/x/../b")))).0
    ≡ panicked slice_panic
unfolding exec static_middleware bytes_eq has_prefix prepare_static_options join trim_right_slash
    slice_from respond run_reply
unclean_prefix_panics = refl
