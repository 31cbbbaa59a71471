-- ===== src/Http/Stack.antt =====
-- http/recovery.go: the text of the stack that a recovered panic is answered with. The frames that
-- runtime.Caller gives, the files that are read, and the printing of a frame's numbers are parameters.
pub mod Frames
pub mod Names
use magic_engine.Common.{
  ℕ, zero, suc, ◌+◌, ◌-◌, ◌/◌, ◌%◌, true, false, Option, none, some, List, [], ◌∷◌, ◌++◌, ◌==◌,
  if◌then◌else◌, get_elem?, drop, Bytes, codes, bytes_eq,
}
use magic_engine.Http.Url.{replace_all}
use magic_engine.Sse.Text.{trim_space}

abbrev pub dunno : Bytes
dunno = codes "???"

-- the two bytes of `·` in UTF-8
abbrev pub center_dot : Bytes
center_dot = 0xc2 ∷ 0xb7 ∷ []

-- A frame of runtime.Caller; the name is that of runtime.FuncForPC, none where it gives nil.
pub record Frame : Type 0 where
  pub pc : ℕ
  pub file : Bytes
  pub line : ℕ
  pub name : Option Bytes

-- source
unfoldable pub source : List Bytes → ℕ → Bytes
source lines zero = dunno
source lines (suc n) = elim (get_elem? lines n) [ none ↦ dunno | some line ↦ trim_space line ]

-- bytes.Index for one byte
unfoldable pub index : ℕ → Bytes → Option ℕ
index c [] = none
index c (x ∷ s) =
    let rest = index c s in
    if x == c then some 0 else elim rest [ none ↦ none | some i ↦ some (suc i) ]

-- bytes.LastIndex for one byte
unfoldable pub last_index : ℕ → Bytes → Option ℕ
last_index c [] = none
last_index c (x ∷ s) = elim (last_index c s) [
  | some i ↦ some (suc i)
  | none ↦ if x == c then some 0 else none
]

-- `if i >= 0 { name = name[i+1:] }`
abbrev pub cut : Option ℕ → Bytes → Bytes
cut none s = s
cut (some i) s = drop (suc i) s

-- function, on the name that FuncForPC gives
unfoldable pub function_name : Bytes → Bytes
unfolding index last_index replace_all
function_name name =
    let base = cut (last_index b'/' name) name in
    replace_all (cut (index b'.' base) base) center_dot (codes ".")

-- function
unfoldable pub function : Option Bytes → Bytes
unfolding function_name
function none = dunno
function (some name) = function_name name

-- bytes.Split(data, "\n")
abbrev pub split_first : ℕ → List Bytes → List Bytes
split_first c [] = (c ∷ []) ∷ []
split_first c (line ∷ lines) = (c ∷ line) ∷ lines

unfoldable pub split_lines : Bytes → List Bytes
split_lines [] = [] ∷ []
split_lines (c ∷ s) = let rest = split_lines s in if c == 10 then [] ∷ rest else split_first c rest

-- `fmt.Fprintf(buf, "\t%s: %s\n", function(pc), source(lines, line))`
unfoldable pub print_source : List Bytes → Frame → Bytes
unfolding function source
print_source lines frame =
    9 ∷ (function frame.name ++ (codes ": " ++ (source lines frame.line ++ 10 ∷ [])))

-- The file that is loaded, after a frame of another file: none where it cannot be read
abbrev pub load : Option Bytes → Option (List Bytes)
load none = none
load (some bytes) = some (split_lines bytes)

module _ (read_file : Bytes → Option Bytes) (print_frame : Frame → Bytes) where
  -- The loop of stack, from the frame `skip` on, with the variables `lines` and `lastFile`
  unfoldable pub stack_from : List Frame → List Bytes → Bytes → Bytes
  unfolding print_source split_lines
  stack_from [] lines last_file = []
  stack_from (frame ∷ frames) lines last_file =
      print_frame frame ++ elim (bytes_eq frame.file last_file) [
        | true ↦ print_source lines frame ++ stack_from frames lines last_file
        | false ↦ elim (load (read_file frame.file)) [
          | none ↦ stack_from frames lines last_file
          | some loaded ↦ print_source loaded frame ++ stack_from frames loaded frame.file
        ]
      ]

  -- stack
  unfoldable pub stack : List Frame → Bytes
  unfolding stack_from
  stack frames = stack_from frames [] []
