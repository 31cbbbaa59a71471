-- ===== src/Http/Registry/Table/Refined.antt =====
-- The registry of slices by method against the table.
use magic_engine.Common.{
  ◌≡◌, refl, sym, ap, ap₂, ◌∙◌, inl, inr, false, ◌||◌, Option, List, [], ◌∷◌, ◌++◌, arith,
  if◌then◌else◌, Bool-cases, Option-cases, Bytes, bytes_eq, bytes_eq→eq, lookup, lookup-assign,
  to_upper,
}
use magic_engine.NetHttp.{Request}
use magic_engine.Http.Response.{Outcome, returned, panicked}
use magic_engine.Http.Middleware.{Middleware}
use magic_engine.Http.Pattern.{Regexp, PatternFilter, new_pattern_filter}
use magic_engine.Http.Registry.{
  Route, RouteItem, Registry, panic_info, missing_message, duplicate_message, with_filter,
  find_route, is_some, exist_handler, set_api_version, remove_item, remove_from, remove_handler,
  item_of, add_route, store_item, first_match, slice_of, select, new_registry,
}
use magic_engine.Http.Registry.Exists.{add_route_split}
use magic_engine.Http.Registry.Remove.{remove_item_lem}
use magic_engine.Http.Registry.Removal.{
  exist_handler_now, remove_handler-version, remove_handler_slices,
}
use magic_engine.Http.Registry.Table.{
  Table, mem, Op, set_version, add, remove, exist, choose, ended, exists, chosen, has_entry,
  drop_entry, drop_method, first_entry, empty_table, table_remove, table_add, perform, expect,
  perform_all, expect_all,
}
use magic_engine.Http.Registry.Table.Methods.{
  is_known, of_method, has_entry-of_method, first_entry-of_method, of_method-append,
  of_method-drop_entry, other-drop_entry, of_method-drop_method, other-drop_method, slice_of-assign,
  is_known-assign, of_method-stored,
}

module _ {C : Type 0} where
  -- The registry holds what the table holds.
  record Holds (reg : Registry C) (t : Table C) : Type 0 where
    version : reg.current_api_version ≡ t.version
    slices : (m : Bytes) → slice_of (lookup m reg.routes) ≡ of_method m t.entries
    known : (m : Bytes) → is_known (lookup m reg.routes) ≡ mem m t.methods

  -- The same outcome, and then the same again
  abbrev Agrees : Outcome × Registry C → Outcome × Table C → Type 0
  Agrees (o, reg) (p, t) = (o ≡ p) × Holds reg t

  exist_handler-has_entry :
      (reg : Registry C) (t : Table C) (pattern method : Bytes)
      → Holds reg t
      → exist_handler pattern method reg ≡ has_entry t.entries method t.version pattern
  exist_handler-has_entry reg t pattern method h =
      exist_handler_now pattern method reg
      ∙ ap₂ (λ s v. is_some (find_route s v pattern)) (h.slices method) h.version
      ∙ sym (has_entry-of_method method t.version pattern t.entries)

  select-first_entry :
      (reg : Registry C) (t : Table C) (req : Request)
      → Holds reg t
      → select reg req ≡ first_entry t.entries (to_upper req.method) req.path
  unfolding select
  select-first_entry reg t req h =
      ap (λ s. first_match s req.path) (h.slices (to_upper req.method))
      ∙ sym (first_entry-of_method (to_upper req.method) req.path t.entries)

  remove_known :
      (reg : Registry C) (pattern method : Bytes)
      → (remove_handler pattern method reg).0 ≡ (
          if is_known (lookup method reg.routes)
          then returned
          else panicked (panic_info (missing_message pattern method)))
  unfolding remove_handler remove_from
  remove_known reg pattern method = ground arith

  -- What the table holds after a removal, by method
  of_method-table_remove :
      (es : List (RouteItem C)) (method version pattern m : Bytes)
      → of_method m (
          if has_entry es method version pattern
          then drop_entry es method version pattern
          else drop_method es method)
        ≡ (if bytes_eq method m
            then remove_item (of_method method es) version pattern
            else of_method m es)
  of_method-table_remove es method version pattern m = ground (
    arith,
    of_method-drop_entry method version pattern es,
    of_method-drop_method method es,
    other-drop_entry method m version pattern es,
    other-drop_method method m es,
    has_entry-of_method method version pattern es,
    remove_item_lem (of_method method es) version pattern,
    bytes_eq→eq method m,
  )

  remove_handler-known :
      (reg : Registry C) (pattern method m : Bytes)
      → is_known (lookup m (remove_handler pattern method reg).1.routes)
        ≡ is_known (lookup m reg.routes)
  unfolding remove_handler remove_from
  remove_handler-known reg pattern method m = elim (Option-cases (lookup method reg.routes)) [
    | inl missing ↦ rw missing refl
    | inr (slice, found) ↦ ground (
      arith,
      lookup-assign method m (remove_item slice reg.current_api_version pattern) reg.routes,
      bytes_eq→eq method m,
    )
  ]

  remove_handler_panicked :
      (reg : Registry C) (pattern method : Bytes)
      → is_known (lookup method reg.routes) ≡ false
      → (remove_handler pattern method reg).1 ≡ reg
  unfolding remove_handler remove_from
  remove_handler_panicked reg pattern method h = ground arith

  table_remove-Agrees :
      (reg : Registry C) (t : Table C) (pattern method : Bytes)
      → Holds reg t
      → Agrees (remove_handler pattern method reg) (table_remove pattern method t)
  unfolding table_remove
  table_remove-Agrees reg t pattern method h =
      let outcome = remove_known reg pattern method in
      let k = h.known method in
      elim (Bool-cases (mem method t.methods)) [
        | inl kn ↦
            let ended : (remove_handler pattern method reg).0 ≡ returned =
              outcome ∙ rw (k ∙ kn) refl in
            rw kn (
              ended,
              record {
                version = remove_handler-version pattern method reg ∙ h.version;
                slices = λ m.
                    remove_handler_slices pattern method m reg ended
                    ∙ ap₂ (λ (a b : List (RouteItem C)). if bytes_eq method m then a else b)
                        (ap₂ (λ s v. remove_item s v pattern) (h.slices method) h.version)
                        (h.slices m)
                    ∙ sym (of_method-table_remove t.entries method t.version pattern m);
                known = λ m. remove_handler-known reg pattern method m ∙ h.known m;
              },
            )
        | inr unknown ↦
            rw (unknown, remove_handler_panicked reg pattern method (k ∙ unknown))
              (outcome ∙ rw (k ∙ unknown) refl, h)
      ]

  module _ (regexp : Regexp) where
    store_item-Agrees :
        (reg : Registry C) (t : Table C) (rt : Route C) (filters : List (Middleware C))
        → Holds reg t
        → Agrees (store_item regexp (slice_of (lookup rt.method reg.routes)) rt filters reg) (
            with_filter
              (new_pattern_filter regexp (t.version ++ rt.pattern))
              (panicked (regexp.refusal (t.version ++ rt.pattern)), t)
              (λ filter. (
                returned,
                record t {
                  entries = t.entries ++ item_of t.version rt filters filter ∷ [];
                  methods = rt.method ∷ t.methods;
                },
              )))
    unfolding store_item item_of
    store_item-Agrees reg t rt filters h =
        let filter_of : Bytes → Option PatternFilter =
          λ v. new_pattern_filter regexp (v ++ rt.pattern) in
        elim (Option-cases (filter_of reg.current_api_version)) [
          | inl bad ↦
              let same = ap (λ v. panicked (regexp.refusal (v ++ rt.pattern))) h.version in
              rw (bad, sym (ap filter_of h.version) ∙ bad) (same, h)
          | inr (filter, good) ↦
              rw (good, sym (ap filter_of h.version) ∙ good)
                (
                  refl,
                  record {
                    version = h.version;
                    slices = λ m.
                        slice_of-assign rt.method m _ reg.routes
                        ∙ ap₂ (λ (a b : List (RouteItem C)). if bytes_eq rt.method m then a else b)
                            (ap₂ (λ s v. s ++ item_of v rt filters filter ∷ []) (h.slices rt.method)
                              h.version)
                            (h.slices m)
                        ∙ of_method-stored rt.method m t.entries
                            (item_of t.version rt filters filter)
                        ∙ sym (of_method-append m t.entries (item_of t.version rt filters filter));
                    known = λ m.
                        is_known-assign rt.method m _ reg.routes
                        ∙ ap (λ b. bytes_eq rt.method m || b) (h.known m);
                  },
                )
        ]

    table_add-Agrees :
        (reg : Registry C) (t : Table C) (rt : Route C) (filters : List (Middleware C))
        → Holds reg t
        → Agrees (add_route regexp rt filters reg) (table_add regexp rt filters t)
    unfolding table_add
    table_add-Agrees reg t rt filters h =
        elim (Bool-cases (exist_handler rt.pattern rt.method reg)) [
          | inl dup ↦
              let there = sym (exist_handler-has_entry reg t rt.pattern rt.method h) ∙ dup in
              rw (add_route_split, dup, there)
                (ap (λ v. panicked (panic_info (duplicate_message v rt))) h.version, h)
          | inr fresh ↦
              let not_there = sym (exist_handler-has_entry reg t rt.pattern rt.method h) ∙ fresh in
              rw (add_route_split, fresh, not_there) (store_item-Agrees reg t rt filters h)
        ]

    perform-Holds :
        (op : Op C) (reg : Registry C) (t : Table C)
        → Holds reg t
        → ((perform regexp op reg).0 ≡ (expect regexp op t).0)
          × Holds (perform regexp op reg).1 (expect regexp op t).1
    unfolding set_api_version
    perform-Holds (set_version version) reg t h =
        (refl, record { version = refl; slices = h.slices; known = h.known })
    perform-Holds (add rt filters) reg t h =
        let (e, k) = table_add-Agrees reg t rt filters h in (ap ended e, k)
    perform-Holds (remove pattern method) reg t h =
        let (e, k) = table_remove-Agrees reg t pattern method h in (ap ended e, k)
    perform-Holds (exist pattern method) reg t h =
        (ap exists (exist_handler-has_entry reg t pattern method h), h)
    perform-Holds (choose req) reg t h = (ap chosen (select-first_entry reg t req h), h)

    perform_all-Holds :
        (ops : List (Op C)) (reg : Registry C) (t : Table C)
        → Holds reg t
        → perform_all regexp ops reg ≡ expect_all regexp ops t
    unfolding perform_all expect_all
    perform_all-Holds [] reg t h = refl
    perform_all-Holds (op ∷ ops) reg t h =
        let (e, k) = perform-Holds op reg t h in ap₂ ◌∷◌ e (perform_all-Holds ops _ _ k)

    -- A new registry answers every sequence of calls as the table does: AddRoute, RemoveHandler,
    -- SetApiVersion, ExistHandler and the choice of Handle, each with its outcome, panics and their
    -- texts included. In the table all routes stand in one list, in the order in which they were
    -- added; AddRoute puts one at its end, RemoveHandler takes one out, or all of its method where
    -- there is no such one, and Handle takes the first of its method that matches. So it is never
    -- seen that the registry keeps a slice for each method.
    pub perform_all-expect_all :
        (ops : List (Op C))
        → perform_all regexp ops new_registry ≡ expect_all regexp ops empty_table
    unfolding new_registry lookup
    perform_all-expect_all ops =
        perform_all-Holds ops new_registry empty_table
          (record { version = refl; slices = λ m. refl; known = λ m. refl })
