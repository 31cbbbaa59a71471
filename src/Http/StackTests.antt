-- ===== src/Http/StackTests.antt =====
-- The theorems on the text of a stack at concrete inputs.
use magic_engine.Common.{
  ℕ, ◌≡◌, refl, Bool, false, ◌||◌, Option, none, some, List, [], ◌∷◌, arith, ◌==◌, if◌then◌else◌,
  Bytes, codes, bytes_eq,
}
use magic_engine.Http.Url.{replace_all}
use magic_engine.Http.Stack.{Frame, center_dot, function_name, stack}
use magic_engine.Http.Stack.Frames.{frame_texts, stack-frame_texts}
use magic_engine.Http.Stack.Names.{Without, function_name-append}

abbrev frames : List Frame
frames =
    record { pc = 0; file = codes "a.go"; line = 2; name = some (codes "x/m.f") }
    ∷ record { pc = 0; file = codes "a.go"; line = 1; name = none }
    ∷ record { pc = 0; file = codes "b.go"; line = 9; name = some (codes "m.g") }
    ∷ []

abbrev read_file : Bytes → Option Bytes
read_file file = if bytes_eq file (codes "a.go") then some (codes "one\n two\n") else none

stack-frame_texts_example :
    stack read_file (λ f. f.file) frames ≡ frame_texts read_file (λ f. f.file) frames
stack-frame_texts_example =
    stack-frame_texts read_file (λ f. f.file) frames
      ((λ e. absurd cc), ((λ e. absurd cc), ((λ e. absurd cc), tt)))

has_byte : ℕ → Bytes → Bool
has_byte c [] = false
has_byte c (x ∷ s) = (x == c) || has_byte c s

has_byte-Without : (c : ℕ) (s : Bytes) → has_byte c s ≡ false → Without c s
unfolding has_byte
has_byte-Without c [] h = tt
has_byte-Without c (x ∷ s) h = ((λ e. ground arith), has_byte-Without c s (ground arith))

debug_method_name :
    (function_name (codes "github.com/x/debug.*T.m")
      ≡ replace_all (codes "*T.m") center_dot (codes "."))
    × (function_name (codes "debug.*T.m") ≡ replace_all (codes "*T.m") center_dot (codes "."))
unfolding has_byte
debug_method_name =
    function_name-append (codes "debug") (codes "*T.m")
      (has_byte-Without b'/' (codes "debug.*T.m") refl) (has_byte-Without b'.' (codes "debug") refl)
      (codes "github.com/x")
