-- ===== src/Http/SharedTests.antt =====
-- Two requests for one embedded file at the same time.
use magic_engine.Common.{
  ◌≡◌, refl, true, none, List, [], ◌∷◌, Bytes, codes, bytes_eq, lookup, assign, has_prefix,
}
use magic_engine.NetHttp.{ok, Request, Reply}
use magic_engine.Http.Embed.{EmbedFile, EmbedFs, serve_found}
use magic_engine.Http.Embed.Shared.{
  Cache, EmbedPc, arrived, loading, missed, stated, storing, answered, is_served, path_of, begins,
  misses, stats, reads, stores, EmbedReach, fresh, on, arrives, moves,
}
use magic_engine.Http.Embed.Shared.Sound.{IsSound, EmbedReach-IsSound}

abbrev prefix : Bytes
prefix = codes "/static"

abbrev embed : Bytes
embed = codes "assets"

-- A file system in which every file has the same content
abbrev uniform : EmbedFs
uniform = record {
  stat = λ path. ok 5;
  read_file = λ path. ok (codes "body {}");
  serve_content = λ req path file. Reply.write file.file_context (λ n e. Reply.done);
}

abbrev css : Request
css = record {
  method = codes "GET";
  path = codes "/static/a.css";
  raw_query = [];
  header = λ key. [];
  remote_addr = [];
}

abbrev css_path : Bytes
css_path = path_of prefix embed css

css_missing : lookup {V = EmbedFile} css_path [] ≡ none
unfolding lookup
css_missing = refl

css_served : is_served prefix css ≡ true
unfolding has_prefix bytes_eq
css_served = refl

abbrev css_file : EmbedFile
css_file = record { mod_time = 5; file_context = codes "body {}" }

abbrev css_answer : EmbedPc Unit
css_answer = answered css (serve_found uniform css_path css (ok css_file))

abbrev At : EmbedPc Unit → EmbedPc Unit → Type 0
At p q = EmbedReach uniform prefix embed ([], p ∷ q ∷ [])

both_arrived : At (arrived css) (arrived css)
both_arrived = on (on fresh (arrives css)) (arrives css)

both_missed : At (missed css_path css) (missed css_path css)
both_missed =
    let one : At (loading css_path css) (arrived css) =
      on both_arrived (moves [] (arrived css ∷ []) (begins css_served)) in
    let two : At (loading css_path css) (loading css_path css) =
      on one (moves (loading css_path css ∷ []) [] (begins css_served)) in
    let three : At (missed css_path css) (loading css_path css) =
      on two (moves [] (loading css_path css ∷ []) (misses css_missing)) in
    on three (moves (missed css_path css ∷ []) [] (misses css_missing))

both_storing : At (storing css_path css_file css) (storing css_path css_file css)
both_storing =
    let one : At (stated css_path 5 css) (missed css_path css) =
      on both_missed (moves [] (missed css_path css ∷ []) (stats refl)) in
    let two : At (stated css_path 5 css) (stated css_path 5 css) =
      on one (moves (stated css_path 5 css ∷ []) [] (stats refl)) in
    let three : At (storing css_path css_file css) (stated css_path 5 css) =
      on two (moves [] (stated css_path 5 css ∷ []) (reads refl)) in
    on three (moves (storing css_path css_file css ∷ []) [] (reads refl))

abbrev raced : Cache × List (EmbedPc Unit)
raced = (assign css_path css_file (assign css_path css_file []), css_answer ∷ css_answer ∷ [])

raced-EmbedReach : EmbedReach uniform prefix embed raced
raced-EmbedReach =
    let one : EmbedReach uniform prefix embed
        (assign css_path css_file [], css_answer ∷ storing css_path css_file css ∷ []) =
      on both_storing (moves [] (storing css_path css_file css ∷ []) stores) in
    on one (moves (css_answer ∷ []) [] stores)

EmbedReach-IsSound_example : IsSound uniform prefix embed raced
EmbedReach-IsSound_example = EmbedReach-IsSound uniform prefix embed raced-EmbedReach
