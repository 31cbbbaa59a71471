-- ===== src/Tcp/Endpoint/Send.antt =====
-- SendData over partial writes: what has gone out when it ends.
use magic_engine.Common.{
  ℕ, zero, suc, ◌+◌, ◌-◌, ◌≤◌, ◌<◌, ◌≡◌, refl, sym, ap, ◌∙◌, inl, inr, Option, none, some, List, [],
  ◌∷◌, ◌++◌, append_assoc, append-nil, arith, leb, if◌then◌else◌, Bool-cases, length, take, drop,
  length-drop, Bytes,
}
use magic_engine.NetHttp.{Error}
use magic_engine.Tcp.Endpoint.{
  Conn, on_disconnect, Endpoint, Sent, sent, send_failed, send_out_of_fuel, send_step, send_loop,
  after_send, send_data,
}

-- What net.Conn documents of Write, for a connection whose bytes written so far are `output`: it
-- writes the first `n` bytes and returns `n`, no more than it was given, and not 0 of some bytes
-- unless with an error.
pub record Writes {K : Type 0} (net : Conn K) (output : K → Bytes) : Type 0 where
  pub appends :
      (k : K) (b : Bytes) → output (net.write k b).0 ≡ output k ++ take (net.write k b).1 b
  pub within : (k : K) (b : Bytes) → (net.write k b).1 ≤ length b
  pub progress :
      (k : K) (b : Bytes) → (net.write k b).2 ≡ none → 0 < length b → 0 < (net.write k b).1

take-nil {ℓ} : {A : Type ℓ} (n : ℕ) → take {A = A} n [] ≡ []
take-nil zero = refl
take-nil (suc n) = refl

take-add {ℓ} :
    {A : Type ℓ} (m n : ℕ) (xs : List A) → take m xs ++ take n (drop m xs) ≡ take (m + n) xs
take-add zero n xs = ap (λ i. take i xs) (omega arith)
take-add (suc m) n [] = take-nil n ∙ sym (take-nil (suc m + n))
take-add (suc m) n (x ∷ xs) =
    let e : suc (m + n) ≡ suc m + n = omega arith in
    ap (λ r. x ∷ r) (take-add m n xs) ∙ ap (λ i. take i (x ∷ xs)) e

take_all {ℓ} : {A : Type ℓ} (n : ℕ) (xs : List A) → length xs ≤ n → take n xs ≡ xs
take_all zero [] h = refl
take_all zero (x ∷ xs) h = absurd (omega arith)
take_all (suc n) [] h = refl
take_all (suc n) (x ∷ xs) h = ap (λ r. x ∷ r) (take_all n xs (omega arith))

module _ {K : Type 0} ⦃net : Conn K⦄ (output : K → Bytes) (writes : Writes net output) where
  -- All bytes have gone out, or an error came after a prefix of them.
  abbrev pub Delivers : Bytes → Bytes → Sent × K → Type 0
  Delivers before bytes (sent, k) = output k ≡ before ++ bytes
  Delivers before bytes (send_failed e, k) =
      (m : ℕ) × (m ≤ length bytes) × (output k ≡ before ++ take m bytes)
  Delivers before bytes (send_out_of_fuel, k) = ⊥

  step-Delivers :
      (again : K → Sent × K) (before bytes : Bytes) (off_set : ℕ) (w : K × ℕ × Option Error)
      → output w.0 ≡ before ++ take (off_set + w.1) bytes
      → off_set + w.1 ≤ length bytes
      → (w.2 ≡ none → off_set + w.1 < length bytes → Delivers before bytes (again w.0))
      → Delivers before bytes (send_step again (leb (length bytes) (off_set + w.1)) w)
  step-Delivers again before bytes off_set (k, n, some e) o l ih = (off_set + n, l, o)
  step-Delivers again before bytes off_set (k, n, none) o l ih =
      elim (Bool-cases (leb (length bytes) (off_set + n))) [
        | inl over ↦
            rw over (o ∙ ap (λ b. before ++ b) (take_all (off_set + n) bytes (ground arith)))
        | inr more ↦ rw more (ih refl (ground arith))
      ]

  send_loop-Delivers :
      (fuel : ℕ) (before bytes : Bytes) (off_set : ℕ) (k : K)
      → output k ≡ before ++ take off_set bytes
      → off_set ≤ length bytes
      → length bytes - off_set < fuel
      → Delivers before bytes (send_loop fuel bytes off_set k)
  unfolding send_loop
  send_loop-Delivers zero before bytes off_set k o l f = absurd (omega arith)
  send_loop-Delivers (suc fuel) before bytes off_set k o l f =
      let w = net.write k (drop off_set bytes) in
      let size = length-drop off_set bytes in
      let fits : off_set + w.1 ≤ length bytes =
        omega (arith, writes.within k (drop off_set bytes), size) in
      let out : output w.0 ≡ before ++ take (off_set + w.1) bytes =
        writes.appends k (drop off_set bytes)
        ∙ ap (λ b. b ++ take w.1 (drop off_set bytes)) o
        ∙ append_assoc before (take off_set bytes) (take w.1 (drop off_set bytes))
        ∙ ap (λ b. before ++ b) (take-add off_set w.1 bytes) in
      step-Delivers (send_loop fuel bytes (off_set + w.1)) before bytes off_set w out fits
        (λ good short.
          send_loop-Delivers fuel before bytes (off_set + w.1) w.0 out fits
            (omega (arith, size, writes.progress k (drop off_set bytes) good)))

  -- What SendData did to the endpoint: all bytes are out behind those before, and the observer was
  -- not called; or a prefix of them is out and the observer, if there is one, was told once that
  -- the connection is gone.
  abbrev pub SendsAll : Bytes → Endpoint K → Sent × Endpoint K → Type 0
  SendsAll bytes ep (sent, ep') =
      (output ep'.conn ≡ output ep.conn ++ bytes) × (ep'.events ≡ ep.events)
  SendsAll bytes ep (send_failed e, ep') =
      ((m : ℕ) × (m ≤ length bytes) × (output ep'.conn ≡ output ep.conn ++ take m bytes))
      × (ep'.events ≡ (if ep.observed then ep.events ++ on_disconnect ∷ [] else ep.events))
  SendsAll bytes ep (send_out_of_fuel, ep') = ⊥

  after_send-SendsAll :
      (bytes : Bytes) (ep : Endpoint K) (r : Sent × K)
      → Delivers (output ep.conn) bytes r
      → SendsAll bytes ep (after_send ep r)
  after_send-SendsAll bytes ep (sent, k) d = (d, refl)
  after_send-SendsAll bytes ep (send_failed e, k) d = (d, refl)
  after_send-SendsAll bytes ep (send_out_of_fuel, k) d = d

  -- Over a connection that keeps the contract of net.Conn, SendData ends: it has written exactly
  -- the bytes, in order, however the connection split them, with no call of the observer; or it
  -- returns the error of a write, has written a prefix of the bytes, and has called OnDisConnect
  -- once if the endpoint has an observer.
  pub send_data-SendsAll :
      (bytes : Bytes) (ep : Endpoint K) → SendsAll bytes ep (send_data bytes ep)
  unfolding send_data
  send_data-SendsAll bytes ep =
      after_send-SendsAll bytes ep (send_loop (length bytes + 1) bytes 0 ep.conn) (
        send_loop-Delivers (length bytes + 1) (output ep.conn) bytes 0 ep.conn
          (sym (append-nil (output ep.conn))) (omega arith) (omega arith))
