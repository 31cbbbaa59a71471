-- ===== src/Http/Registry/Table/Methods.antt =====
-- The entries of one method in the table, after each of its operations.
use magic_engine.Common.{
  ◌≡◌, refl, Bool, true, false, ◌||◌, Option, none, some, List, [], ◌∷◌, ◌++◌, append-nil, arith,
  if◌then◌else◌, Bytes, bytes_eq, bytes_eq→eq, bytes_eq_iff, lookup, assign, lookup-assign,
}
use magic_engine.Http.Registry.{RouteItem, find_route, is_some, first_match, slice_of}
use magic_engine.Http.Registry.Remove.{remove_first}
use magic_engine.Http.Registry.Removal.{}
use magic_engine.Http.Registry.Table.{has_entry, drop_entry, drop_method, first_entry}

abbrev pub is_known {ℓ} : {A : Type ℓ} → Option A → Bool
is_known none = false
is_known (some a) = true

module _ {C : Type 0} where
  -- The entries of a method, in their order
  abbrev pub of_method : Bytes → List (RouteItem C) → List (RouteItem C)
  of_method m [] = []
  of_method m (e ∷ es) = if bytes_eq e.route.method m then e ∷ of_method m es else of_method m es

  pub has_entry-of_method :
      (m version pattern : Bytes) (es : List (RouteItem C))
      → has_entry es m version pattern ≡ is_some (find_route (of_method m es) version pattern)
  unfolding has_entry find_route
  has_entry-of_method m version pattern [] = refl
  has_entry-of_method m version pattern (e ∷ es) =
      ground (arith, has_entry-of_method m version pattern es)

  pub first_entry-of_method :
      (m path : Bytes) (es : List (RouteItem C))
      → first_entry es m path ≡ first_match (of_method m es) path
  unfolding first_entry first_match
  first_entry-of_method m path [] = refl
  first_entry-of_method m path (e ∷ es) = ground (arith, first_entry-of_method m path es)

  pub of_method-append :
      (m : Bytes) (es : List (RouteItem C)) (e : RouteItem C)
      → of_method m (es ++ e ∷ [])
        ≡ of_method m es ++ (if bytes_eq e.route.method m then e ∷ [] else [])
  of_method-append m [] e = refl
  of_method-append m (x ∷ es) e = ground (arith, of_method-append m es e)

  pub of_method-drop_entry :
      (m version pattern : Bytes) (es : List (RouteItem C))
      → of_method m (drop_entry es m version pattern)
        ≡ remove_first (of_method m es) version pattern
  unfolding drop_entry
  of_method-drop_entry m version pattern [] = refl
  of_method-drop_entry m version pattern (e ∷ es) =
      ground (arith, of_method-drop_entry m version pattern es)

  pub other-drop_entry :
      (m other version pattern : Bytes) (es : List (RouteItem C))
      → bytes_eq m other ≡ false
      → of_method other (drop_entry es m version pattern) ≡ of_method other es
  unfolding drop_entry
  other-drop_entry m other version pattern [] h = refl
  other-drop_entry m other version pattern (e ∷ es) h =
      ground (arith, other-drop_entry m other version pattern es h, bytes_eq_iff e.route.method m)

  pub of_method-drop_method :
      (m : Bytes) (es : List (RouteItem C)) → of_method m (drop_method es m) ≡ []
  unfolding drop_method
  of_method-drop_method m [] = refl
  of_method-drop_method m (e ∷ es) = ground (arith, of_method-drop_method m es)

  pub other-drop_method :
      (m other : Bytes) (es : List (RouteItem C))
      → bytes_eq m other ≡ false
      → of_method other (drop_method es m) ≡ of_method other es
  unfolding drop_method
  other-drop_method m other [] h = refl
  other-drop_method m other (e ∷ es) h =
      ground (arith, other-drop_method m other es h, bytes_eq_iff e.route.method m)

  pub slice_of-assign :
      (k m : Bytes) (slice : List (RouteItem C)) (routes : List (Bytes × List (RouteItem C)))
      → slice_of (lookup m (assign k slice routes))
        ≡ (if bytes_eq k m then slice else slice_of (lookup m routes))
  slice_of-assign k m slice routes = ground (arith, lookup-assign k m slice routes)

  pub is_known-assign :
      (k m : Bytes) (slice : List (RouteItem C)) (routes : List (Bytes × List (RouteItem C)))
      → is_known (lookup m (assign k slice routes)) ≡ (bytes_eq k m || is_known (lookup m routes))
  is_known-assign k m slice routes = ground (arith, lookup-assign k m slice routes)

  pub of_method-stored :
      (k m : Bytes) (es : List (RouteItem C)) (e : RouteItem C)
      → (if bytes_eq k m then of_method k es ++ e ∷ [] else of_method m es)
        ≡ of_method m es ++ (if bytes_eq k m then e ∷ [] else [])
  of_method-stored k m es e = ground (arith, bytes_eq→eq k m, append-nil (of_method m es))
