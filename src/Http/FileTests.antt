-- ===== src/Http/FileTests.antt =====
-- The theorems on the embedded files and the environment at concrete inputs.
use magic_engine.Common.{
  ℕ, ◌^◌, ◌<◌, ◌≡◌, refl, Bool, true, false, List, [], ◌∷◌, map, arith, if◌then◌else◌, Bytes, codes,
  bytes_eq, lookup, assign, has_prefix,
}
use magic_engine.Paths.{join, ends_in_slash}
use magic_engine.NetHttp.{Try, ok, err, Request, Reply}
use magic_engine.Http.Middleware.{Code}
use magic_engine.Http.Embed.{EmbedFs, new_embed_static_with_path, embed_middleware}
use magic_engine.Http.Embed.Cache.{answer_direct, answer_all, answer_all-answer_direct}
use magic_engine.Http.Env.{Parsed, non_negative, second, init}

-- A file system with one file
abbrev one_file : EmbedFs
one_file = record {
  stat =
      λ path. if bytes_eq path (codes "assets/static/a.css") then ok 5 else err (codes "missing");
  read_file = λ path. ok (codes "body {}");
  serve_content = λ req path file. Reply.write file.file_context (λ n e. Reply.done);
}

abbrev asks : Bytes → Bytes → Request
asks method path = record {
  method = method;
  path = path;
  raw_query = [];
  header = λ key. [];
  remote_addr = [];
}

abbrev requests : List Request
requests =
    asks (codes "GET") (codes "/static/a.css")
    ∷ asks (codes "HEAD") (codes "/static/a.css")
    ∷ asks (codes "POST") (codes "/static/a.css")
    ∷ asks (codes "GET") (codes "/static/")
    ∷ []

answer_all-answer_direct_example :
    answer_all one_file {C = Unit} requests
      (new_embed_static_with_path (codes "assets") (codes "/static"))
    ≡ map (answer_direct one_file (codes "/static") (codes "assets")) requests
answer_all-answer_direct_example =
    answer_all-answer_direct one_file Unit (codes "assets") (codes "/static") requests

abbrev some_code : Code Unit
some_code = Code.reply (Reply.write (codes "body {}") (λ n e. Reply.done)) Code.done

requests_answers :
    answer_all one_file {C = Unit} requests
      (new_embed_static_with_path (codes "assets") (codes "/static"))
    ≡ some_code ∷ some_code ∷ Code.next Code.done ∷ Code.next Code.done ∷ []
unfolding answer_all new_embed_static_with_path bytes_eq embed_middleware has_prefix lookup join
    ends_in_slash assign
requests_answers = refl

-- ParseInt of one text
abbrev parse_zero : Bytes → Try Parsed
parse_zero s = if bytes_eq s (codes "0") then ok (non_negative 0) else err (codes "syntax")

zero_in_range :
    (b : Bool) (n : ℕ)
    → (if b then ok (non_negative 0) else err (codes "syntax")) ≡ ok (non_negative n)
    → n < 2 ^ 31
zero_in_range true n e = let same : 0 ≡ n = cc in omega arith
zero_in_range false n e = absurd cc

parse_zero_in_range : (s : Bytes) (n : ℕ) → parse_zero s ≡ ok (non_negative n) → n < 2 ^ 31
parse_zero_in_range s n e = zero_in_range (bytes_eq s (codes "0")) n e

abbrev getenv : Bytes → Bytes
getenv key = if bytes_eq key (codes "MAGICENGINE_ELAPSE") then codes "0" else []

init_elapse_zero :
    init getenv (ok (codes "/srv")) parse_zero
    ≡ ok (record {
      env = codes "development";
      root = codes "/srv";
      enable_trace = true;
      elapse_threshold = second;
    })
unfolding init bytes_eq
init_elapse_zero = refl
