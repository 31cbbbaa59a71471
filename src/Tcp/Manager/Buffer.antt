-- ===== src/Tcp/Manager/Buffer.antt =====
-- tcp/endpoint.go: the one buffer of RecvData, whose slices the scheduled calls of OnRecvData share.
use magic_engine.Common.{
  ℕ, zero, suc, ◌≤◌, ◌≡◌, refl, ap, ap₂, ◌∙◌, List, [], ◌∷◌, ◌++◌, map, arith, length, take, drop,
  All, Bytes,
}

-- reader.Read(buffer) that gave these bytes
unfoldable pub fill : Bytes → Bytes → Bytes
fill bytes buffer = bytes ++ drop (length bytes) buffer

-- RecvData over reads without an error, with an observer that is SimpleEndpointManger: the sizes of
-- the slices `buffer[:readSize]` for which calls are scheduled, and the buffer afterwards
unfoldable pub recv_slices : List Bytes → Bytes → List ℕ × Bytes
unfolding fill
recv_slices [] buffer = ([], buffer)
recv_slices ([] ∷ chunks) buffer = recv_slices chunks buffer
recv_slices ((c ∷ b) ∷ chunks) buffer =
    let (sizes, buffer') = recv_slices chunks (fill (c ∷ b) buffer) in
    (length (c ∷ b) ∷ sizes, buffer')

-- What the calls see that run after the reads
unfoldable pub late_calls : List ℕ × Bytes → List Bytes
late_calls (sizes, buffer) = map (λ n. take n buffer) sizes

-- The chunks that are not empty
abbrev pub sized : List Bytes → List Bytes
sized [] = []
sized ([] ∷ chunks) = sized chunks
sized ((c ∷ b) ∷ chunks) = (c ∷ b) ∷ sized chunks

recv_slices_sizes :
    (chunks : List Bytes) (buffer : Bytes)
    → (recv_slices chunks buffer).0 ≡ map (λ b. length b) (sized chunks)
unfolding recv_slices
recv_slices_sizes [] buffer = refl
recv_slices_sizes ([] ∷ chunks) buffer = recv_slices_sizes chunks buffer
recv_slices_sizes ((c ∷ b) ∷ chunks) buffer =
    ap (λ ns. length (c ∷ b) ∷ ns) (recv_slices_sizes chunks (fill (c ∷ b) buffer))

recv_slices_last :
    (chunks : List Bytes) (c : ℕ) (last buffer : Bytes)
    → (rest : Bytes) × ((recv_slices (chunks ++ (c ∷ last) ∷ []) buffer).1 ≡ (c ∷ last) ++ rest)
unfolding recv_slices fill
recv_slices_last [] c last buffer = (drop (length (c ∷ last)) buffer, refl)
recv_slices_last ([] ∷ chunks) c last buffer = recv_slices_last chunks c last buffer
recv_slices_last ((x ∷ b) ∷ chunks) c last buffer =
    recv_slices_last chunks c last (fill (x ∷ b) buffer)

take-append_short : (n : ℕ) (b s : Bytes) → n ≤ length b → take n (b ++ s) ≡ take n b
take-append_short zero b s h = refl
take-append_short (suc n) [] s h = absurd (omega arith)
take-append_short (suc n) (c ∷ b) s h = ap (λ r. c ∷ r) (take-append_short n b s (omega arith))

take-length : (b : Bytes) → take (length b) b ≡ b
take-length [] = refl
take-length (c ∷ b) = ap (λ r. c ∷ r) (take-length b)

sized-append :
    (chunks : List Bytes) (c : ℕ) (last : Bytes)
    → sized (chunks ++ (c ∷ last) ∷ []) ≡ sized chunks ++ (c ∷ last) ∷ []
sized-append [] c last = refl
sized-append ([] ∷ chunks) c last = sized-append chunks c last
sized-append ((x ∷ b) ∷ chunks) c last = ap (λ bs. (x ∷ b) ∷ bs) (sized-append chunks c last)

late_views :
    (last rest : Bytes) (bs : List Bytes)
    → All (λ b. length b ≤ length last) bs
    → map (λ n. take n (last ++ rest)) (map (λ b. length b) (bs ++ last ∷ []))
      ≡ map (λ b. take (length b) last) bs ++ last ∷ []
late_views last rest [] h =
    ap (λ b. b ∷ []) (take-append_short (length last) last rest (omega arith) ∙ take-length last)
late_views last rest (b ∷ bs) (l, h) =
    ap₂ (λ v vs. v ∷ vs) (take-append_short (length b) last rest l) (late_views last rest bs h)

-- Calls of OnRecvData that run after the reads do not see what was read for them: where no chunk is
-- longer than the last one, each of them sees the start of the last chunk, in the length of its own.
pub late_calls-recv_slices :
    (chunks : List Bytes) (c : ℕ) (last buffer : Bytes)
    → All (λ b. length b ≤ length (c ∷ last)) (sized chunks)
    → late_calls (recv_slices (chunks ++ (c ∷ last) ∷ []) buffer)
      ≡ map (λ b. take (length b) (c ∷ last)) (sized chunks) ++ (c ∷ last) ∷ []
unfolding late_calls
late_calls-recv_slices chunks c last buffer h =
    let (rest, final) = recv_slices_last chunks c last buffer in
    let sizes =
      recv_slices_sizes (chunks ++ (c ∷ last) ∷ []) buffer
      ∙ ap (map (λ b. length b)) (sized-append chunks c last) in
    ap₂ (λ ns b. map (λ n. take n b) ns) sizes final ∙ late_views (c ∷ last) rest (sized chunks) h
