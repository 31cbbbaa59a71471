-- ===== src/NetHttp.antt =====
-- What the code uses of Go's package net/http: the interface http.ResponseWriter, the fields of
-- http.Request, and the replies that the package writes itself. The interface is a parameter: the
-- server that calls the code implements it.
use magic_engine.Common.{ℕ, Bytes, codes, Option, none, some, ◌++◌, [], ◌∷◌}

-- An error value is known by its text.
abbrev pub Error : Type 0
Error = Bytes

-- The value of a call, or its error.
pub data Try (A : Type 0) : Type 0 where
  ok : A → Try A
  err : Error → Try A

-- http.ResponseWriter over a connection of type `W`. Its methods return: a code that net/http
-- refuses (outside 100..999) is outside the model.
pub record NetWriter (W : Type 0) : Type 0 where
  -- Header().Set(key, value), or Header().Del(key) for `none`
  pub set_header : W → Bytes → Option Bytes → W
  pub write_header : W → ℕ → W
  -- the bytes written, and the error if there was one
  pub write : W → Bytes → W × ℕ × Option Error

-- What the code reads of an *http.Request.
pub record Request : Type 0 where
  pub method : Bytes
  -- URL.Path
  pub path : Bytes
  -- URL.RawQuery
  pub raw_query : Bytes
  -- Header.Get
  pub header : Bytes → Bytes
  pub remote_addr : Bytes

-- Code that holds a response writer and nothing else of the server, as the calls that it makes on
-- the writer in their order; what it does next may depend on what `Write` returned.
pub data Reply : Type 0 where
  done : Reply
  panic : Bytes → Reply
  set_header : Bytes → Option Bytes → Reply → Reply
  write_header : ℕ → Reply → Reply
  write : Bytes → (ℕ → Option Error → Reply) → Reply

-- http.Error(w, message, code)
unfoldable pub http_error : Bytes → ℕ → Reply
http_error message code = set_header (codes "Content-Length") none (
    set_header (codes "Content-Type") (some (codes "text/plain; charset=utf-8")) (
      set_header (codes "X-Content-Type-Options") (some (codes "nosniff"))
        (write_header code (write (message ++ 10 ∷ []) (λ _ _. done)))))

-- http.NotFound(w, r)
unfoldable pub not_found : Reply
unfolding http_error
not_found = http_error (codes "404 page not found") 404
