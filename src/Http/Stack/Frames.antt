-- ===== src/Http/Stack/Frames.antt =====
-- The text of the stack, frame by frame.
use magic_engine.Common.{
  ◌≡◌, refl, ap, ◌∙◌, ◌≢◌, inl, inr, Option, none, some, List, [], ◌∷◌, ◌++◌, Bool-cases,
  Option-cases, All, Bytes, bytes_eq, bytes_eq→eq,
}
use magic_engine.Http.Stack.{Frame, print_source, load, stack_from, stack}

abbrev pub source_text : Option (List Bytes) → Frame → Bytes
source_text none frame = []
source_text (some lines) frame = print_source lines frame

module _ (read_file : Bytes → Option Bytes) (print_frame : Frame → Bytes) where
  -- The frames by themselves, each with the file read for it
  abbrev pub frame_texts : List Frame → Bytes
  frame_texts [] = []
  frame_texts (frame ∷ frames) =
      print_frame frame ++ (source_text (load (read_file frame.file)) frame ++ frame_texts frames)

  -- What `lines` and `lastFile` hold in the loop
  abbrev Loaded : List Bytes → Bytes → Type 0
  Loaded lines last_file = (last_file ≢ []) → load (read_file last_file) ≡ some lines

  stack_from-frame_texts :
      (frames : List Frame) (lines : List Bytes) (last_file : Bytes)
      → All (λ f. f.file ≢ []) frames
      → Loaded lines last_file
      → stack_from read_file print_frame frames lines last_file ≡ frame_texts frames
  unfolding stack_from
  stack_from-frame_texts [] lines last_file h k = refl
  stack_from-frame_texts (frame ∷ frames) lines last_file (named, h) k =
      ap (λ r. print_frame frame ++ r)
        (elim (Bool-cases (bytes_eq frame.file last_file)) [
          | inl again ↦
              let same : frame.file ≡ last_file = bytes_eq→eq frame.file last_file again in
              let held : load (read_file frame.file) ≡ some lines =
                ap (λ f. load (read_file f)) same ∙ k (λ e. named (same ∙ e)) in
              rw (again, held)
                (ap (λ r. print_source lines frame ++ r)
                  (stack_from-frame_texts frames lines last_file h k))
          | inr fresh ↦ elim (Option-cases (load (read_file frame.file))) [
            | inl missing ↦ rw (fresh, missing) (stack_from-frame_texts frames lines last_file h k)
            | inr (loaded, found) ↦
                rw (fresh, found)
                  (ap (λ r. print_source loaded frame ++ r)
                    (stack_from-frame_texts frames loaded frame.file h (λ n. found)))
          ]
        ])

  -- The text of the stack does not depend on which file was loaded last: it is that of the frames one
  -- by one, each with its line of its own file where that can be read. Every frame has a file name.
  pub stack-frame_texts :
      (frames : List Frame)
      → All (λ f. f.file ≢ []) frames
      → stack read_file print_frame frames ≡ frame_texts frames
  unfolding stack
  stack-frame_texts frames h = stack_from-frame_texts frames [] [] h (λ n. absurd (n refl))
