-- ===== src/Http/Response.antt =====
-- http/response_writer.go: the wrapper of http.ResponseWriter that records the status code and the
-- count of the bytes written.
pub mod Laws
use magic_engine.Common.{ℕ, ◌+◌, Bool, not, Bytes, Option, if◌then◌else◌, ◌==◌}
use magic_engine.NetHttp.{Error, NetWriter, Reply}

-- responseWriter
pub record ResponseWriter (W : Type 0) : Type 0 where
  pub inner : W
  pub status : ℕ
  pub size : ℕ

-- How a call of handler code ends. `out_of_fuel` belongs to the model only.
pub data Outcome : Type 0 where
  returned : Outcome
  panicked : Bytes → Outcome
  out_of_fuel : Outcome

module _ {W : Type 0} where
  -- NewResponseWriter
  unfoldable pub new_response_writer : W → ResponseWriter W
  new_response_writer w = record { inner = w; status = 0; size = 0 }

  -- Written
  abbrev pub written : ResponseWriter W → Bool
  written res = not (res.status == 0)

module _ {W : Type 0} ⦃net : NetWriter W⦄ where
  -- Header().Set and Header().Del
  unfoldable pub header_set : ResponseWriter W → Bytes → Option Bytes → ResponseWriter W
  header_set res key value = record res { inner = net.set_header res.inner key value }

  -- WriteHeader
  unfoldable pub write_header : ResponseWriter W → ℕ → ResponseWriter W
  write_header res code = record res { inner = net.write_header res.inner code; status = code }

  -- `res.size += size`, after the write of the inner writer
  abbrev count_written :
      ResponseWriter W → W × ℕ × Option Error → ResponseWriter W × ℕ × Option Error
  count_written res (w, n, err) = (record res { inner = w; size = res.size + n }, n, err)

  -- Write
  unfoldable pub write : ResponseWriter W → Bytes → ResponseWriter W × ℕ × Option Error
  unfolding write_header
  write res b =
      let opened = if written res then res else write_header res 200 in
      count_written opened (net.write opened.inner b)

  -- Runs the calls of `Reply` on the wrapper.
  unfoldable pub run_reply : Reply → ResponseWriter W → Outcome × ResponseWriter W
  run_reply Reply.done res = (returned, res)
  run_reply (Reply.panic message) res = (panicked message, res)
  run_reply (Reply.set_header key value k) res = run_reply k (header_set res key value)
  run_reply (Reply.write_header code k) res = run_reply k (write_header res code)
  run_reply (Reply.write b k) res = let (res', n, err) = write res b in run_reply (k n err) res'
