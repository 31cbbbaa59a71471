-- ===== src/Http/Stack/Names.antt =====
-- The names of functions in the text of the stack.
use magic_engine.Common.{
  ℕ, suc, ◌≡◌, refl, ap, ◌≢◌, none, some, [], ◌∷◌, ◌++◌, arith, length, drop, All, Bytes, codes,
}
use magic_engine.Http.Url.{replace_all}
use magic_engine.Http.Stack.{center_dot, index, last_index, cut, function_name}

-- The byte does not stand in the text.
abbrev pub Without : ℕ → Bytes → Type 0
Without c s = All (λ x. x ≢ c) s

last_index-none : (c : ℕ) (s : Bytes) → Without c s → last_index c s ≡ none
unfolding last_index
last_index-none c [] h = refl
last_index-none c (x ∷ s) (n, h) = rw (last_index-none c s h, last_index) (ground arith)

last_index-append :
    (c : ℕ) (p s : Bytes) → Without c s → last_index c (p ++ c ∷ s) ≡ some (length p)
unfolding last_index
last_index-append c [] s h = rw (last_index-none c s h, last_index) (ground arith)
last_index-append c (x ∷ p) s h = rw (last_index-append c p s h, last_index) refl

index-append : (c : ℕ) (p s : Bytes) → Without c p → index c (p ++ c ∷ s) ≡ some (length p)
unfolding index
index-append c [] s h = ground arith
index-append c (x ∷ p) s (n, h) = ground (arith, index-append c p s h)

drop-suc-length : (p s : Bytes) (c : ℕ) → drop (suc (length p)) (p ++ c ∷ s) ≡ s
drop-suc-length [] s c = refl
drop-suc-length (x ∷ p) s c = drop-suc-length p s c

module _ (pack f : Bytes) (no_slash : Without b'/' (pack ++ b'.' ∷ f))
    (no_dot : Without b'.' pack) where
  base_name :
      let base : Bytes = pack ++ b'.' ∷ f in
      replace_all (cut (index b'.' base) base) center_dot (codes ".")
      ≡ replace_all f center_dot (codes ".")
  base_name =
      rw (index-append b'.' pack f no_dot)
        (ap (λ r. replace_all r center_dot (codes ".")) (drop-suc-length pack f b'.'))

  -- The name of a function in a stack is what stands behind its pack, with or without a directory
  -- before that, and with dots in place of the center dots: `debug.*T·m` gives `*T.m`.
  pub function_name-append :
      (directory : Bytes)
      → (function_name (directory ++ b'/' ∷ (pack ++ b'.' ∷ f))
          ≡ replace_all f center_dot (codes "."))
        × (function_name (pack ++ b'.' ∷ f) ≡ replace_all f center_dot (codes "."))
  unfolding function_name
  function_name-append directory = (
    rw (last_index-append b'/' directory (pack ++ b'.' ∷ f) no_slash)
        (rw (drop-suc-length directory (pack ++ b'.' ∷ f) b'/') base_name),
    rw (last_index-none b'/' (pack ++ b'.' ∷ f) no_slash) base_name,
  )
