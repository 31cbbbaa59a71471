-- ===== src/Sse/Server/Closing.antt =====
-- Which holders the registry finds: GetHolder after NewHolder, and after writes that fail.
use magic_engine.Common.{
  ℕ, ◌≡◌, ◌≢◌, Bool, true, false, ◌&&◌, Option, none, some, [], arith, if◌then◌else◌, Bytes, codes,
  bytes_eq, bytes_eq_iff, assign, delete, lookup-assign, lookup-delete,
}
use magic_engine.NetHttp.{Error, NetWriter, Request}
use magic_engine.Sse.Server.{
  Holder, HolderRegistry, registry_new_holder, registry_on_close, get_holder,
}

-- The id that a request names
abbrev pub named : Request → Bytes
named req = req.header (codes "X-SSE-ID")

abbrev pub failed : Option Error → Bool
failed none = false
failed (some e) = true

get_holder-delete :
    (id : Bytes) (req : Request) (registry : HolderRegistry)
    → get_holder req (delete id registry)
      ≡ (if bytes_eq id (named req) then none else get_holder req registry)
unfolding get_holder
get_holder-delete id req registry = ground (arith, lookup-delete id (named req) registry)

get_holder-assign :
    (id : Bytes) (pointer : ℕ) (req : Request) (registry : HolderRegistry)
    → id ≢ []
    → get_holder req (assign id pointer registry)
      ≡ (if bytes_eq id (named req) then some pointer else get_holder req registry)
unfolding get_holder
get_holder-assign id pointer req registry h = ground (
  arith,
  lookup-assign id (named req) pointer registry,
  bytes_eq_iff id (named req),
  bytes_eq_iff (named req) [],
)

-- NewHolder with an id that is not empty: a request finds the new holder by its id and every other
-- holder as before; and after OnClose of that id it finds what it found before, but nothing under
-- the id.
pub registry_new_holder-get_holder :
    {W : Type 0} (w : W) (id : Bytes) (pointer : ℕ) (req : Request) (registry : HolderRegistry)
    → id ≢ []
    → (get_holder req (registry_new_holder w id pointer registry).1
        ≡ (if bytes_eq id (named req) then some pointer else get_holder req registry))
      × (get_holder req (registry_on_close id (registry_new_holder w id pointer registry).1)
          ≡ (if bytes_eq id (named req) then none else get_holder req registry))
unfolding registry_new_holder registry_on_close
registry_new_holder-get_holder w id pointer req registry h =
    let a = get_holder-assign id pointer req registry h in
    let d = get_holder-delete id req (assign id pointer registry) in (a, ground (arith, a, d))

module _ {W : Type 0} ⦃net : NetWriter W⦄ where
  -- A call of a holder at the time `now`: the holder keeps its id and is active now; if a write
  -- failed, the holder is registered and the request names it, the request finds no holder; else it
  -- finds what it found before.
  abbrev pub Closes :
      Request → ℕ → Holder W → HolderRegistry → Option Error × Holder W × HolderRegistry → Type 0
  Closes req now h registry (e, h', registry') =
      (h'.sse_id ≡ h.sse_id)
      × (h'.last_active ≡ now)
      × (get_holder req registry' ≡ (
          if failed e && (h.registered && bytes_eq h.sse_id (named req))
          then none
          else get_holder req registry))
