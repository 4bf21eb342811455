-- ===== src/Monitor/Backtrace/Shown.antt =====
-- What a backtrace shows: the lines of each frame, as items of text, names and numbers.
use jos.Base.{
  ◌-◌, ltb, ℕ, zero, suc, ◌+◌, ◌*◌, ◌^◌, ◌<◌, ◌≤◌, ◌≡◌, ◌≢◌, refl, ap, ◌∙◌, true, false, some,
  ◌>>=◌, List, [], ◌∷◌, ◌++◌, Bytes, All, codes, length, get_or, arith, u32, u64, minus64,
  sign_extend8, Yields-some,
}
use jos.Base.Memory.{Memory, memory_at, CString, le32}
use jos.Console.Ports.{Device}
use jos.Console.State.{Kernel}
use jos.Console.Putc.Laws.{IsConsole}
use jos.Console.Cprintf.{print_args, text, num}
use jos.Console.Cprintf.Prompt.{stands}
use jos.Console.Cprintf.Total.{laid_out, Held, IsLiteral, print_args-Yields}
use jos.Console.Cprintf.Shown.{Shows, Shown, then-Shown, print_args-Shown}
use jos.Print.Format.Render.Items.{
  Item, verbatim, character, string, number, signed_decimal, hexadecimal,
}
use jos.Print.Format.Safe.{safe, advance, may_end}
use jos.Debug.Library.{Dwarf}
use jos.Debug.Function.{Ripdebuginfo}
use jos.Debug.Lookup.{InfoSection, Locals}
use jos.Monitor.Backtrace.{Stack, print_name, print_arguments, print_frame, look_up, mon_backtrace}
use jos.Monitor.Backtrace.Laws.{Frame, Chain, list_frames, mon_backtrace_lem}

-- Sixteen hexadecimal places, filled with zeros, and a decimal number.
abbrev pub wide : ℕ → Item
wide n = number true (codes "16") hexadecimal (u64 n)

abbrev pub decimal : ℕ → Item
decimal n = number false [] signed_decimal (u64 n)

abbrev pub words : Bytes → Item
words cs = verbatim cs

-- The registers, the place in the source, the offset in the function, and the number of arguments.
abbrev pub registers_line : Frame → List Item
registers_line f =
    words (codes "  rbp ") ∷ wide f.rbp ∷ words (codes "  rip ") ∷ wide f.rip ∷ words (10 ∷ []) ∷ []

-- The address of the name in the layout of the call is not shown.
abbrev pub place : Ripdebuginfo → List Item
place info =
    words (codes "       ")
    ∷ string 15 info.file
    ∷ words (codes ":")
    ∷ decimal info.line
    ∷ words (codes ": ")
    ∷ []

abbrev pub offset : Frame → List Item
offset f = words (codes "+") ∷ wide (minus64 f.rip f.info.fn_addr) ∷ []

abbrev pub arity : Ripdebuginfo → List Item
arity info = words (codes "  args:") ∷ decimal info.fn_narg ∷ words (codes " ") ∷ []

-- The characters of the function's name, from the `i`-th on.
abbrev pub name : ℕ → ℕ → Bytes → List Item
name zero i cs = []
name (suc left) i cs = character (u32 (sign_extend8 (get_or cs i 0))) ∷ name left (i + 1) cs

-- The 32-bit words below the frame pointer, one for each argument.
abbrev pub arguments_below : ℕ → ℕ → Memory → ℕ → List Item
arguments_below zero i mem rbp = []
arguments_below (suc left) i mem rbp =
    words (codes " ")
    ∷ wide (le32 mem (minus64 rbp ((i + 1) * 4)))
    ∷ arguments_below left (i + 1) mem rbp

abbrev pub frame_items : Memory → Frame → List Item
frame_items mem f =
    registers_line f
    ++ (place f.info
        ++ (name f.info.fn_namelen 0 f.info.fn_name
            ++ (offset f
                ++ (arity f.info
                    ++ (arguments_below f.info.fn_narg 0 mem f.rbp ++ (words (10 ∷ []) ∷ []))))))

abbrev pub frames_items : Memory → List Frame → List Item
frames_items mem [] = []
frames_items mem (f ∷ fs) = frame_items mem f ++ frames_items mem fs

-- A file name of at most `bound` ASCII characters.
abbrev pub IsFileName : ℕ → Bytes → Type 0
IsFileName bound cs = (length cs ≤ bound) × All (λ c. c ≢ 0) cs × All (λ c. c < 128) cs

module _ (dev : Device) where
  print_name-Shown :
      (left i fuel : ℕ) (info : Ripdebuginfo) (k : Kernel)
      → 100 < fuel
      → Shown dev (name left i info.fn_name) k (print_name dev left i fuel info k)
  unfolding print_name
  print_name-Shown zero i fuel info k lt = (k, refl, refl)
  print_name-Shown (suc left) i fuel info k lt =
      let c = sign_extend8 (get_or info.fn_name i 0) in
      then-Shown dev (character (u32 c) ∷ []) (name left (i + 1) info.fn_name) k _ _
        (print_args-Shown dev (character (u32 c) ∷ []) 0 fuel (codes "%c") (num c ∷ []) k refl
          (ground arith) (refl, tt) (omega arith) (omega arith))
        λ k₁. print_name-Shown left (i + 1) fuel info k₁ lt

  print_arguments-Shown :
      (left i fuel : ℕ) (mem : Memory) (rbp : ℕ) (k : Kernel)
      → 100 < fuel
      → Shown dev (arguments_below left i mem rbp) k (print_arguments dev left i fuel mem rbp k)
  unfolding print_arguments
  print_arguments-Shown zero i fuel mem rbp k lt = (k, refl, refl)
  print_arguments-Shown (suc left) i fuel mem rbp k lt =
      let n = le32 mem (minus64 rbp ((i + 1) * 4)) in
      then-Shown dev (words (codes " ") ∷ wide n ∷ []) (arguments_below left (i + 1) mem rbp) k _ _
        (print_args-Shown dev (words (codes " ") ∷ wide n ∷ []) 0 fuel (codes " %016x") (num n ∷ [])
          k refl (ground arith) (ground arith) (omega arith) (omega arith))
        λ k₁. print_arguments-Shown left (i + 1) fuel mem rbp k₁ lt

  -- The file name stands behind the format and its zero.
  file_stands :
      (file : Bytes)
      → All (λ c. c ≢ 0) file
      → CString (memory_at 0 (laid_out (codes "       %s:%d: ") (text file ∷ num 0 ∷ []))) 15 file
  file_stands file nz =
      stands (memory_at 0 (laid_out (codes "       %s:%d: ") (text file ∷ num 0 ∷ []))) 15 file []
        (λ i.
          let e : 15 + i - 0
              ≡ suc (
                  suc (
                    suc
                      (suc (suc (suc (suc (suc (suc (suc (suc (suc (suc (suc (suc i)))))))))))))) =
            omega arith in
          let f : ltb (15 + i) 0 ≡ false = ground arith in rw (f, e) refl)
        nz

  place-Shown :
      (bound fuel : ℕ) (info : Ripdebuginfo) (k : Kernel)
      → IsFileName bound info.file
      → 100 + bound < fuel
      → bound < 2 ^ 31
      → Shown dev
          (place info)
          k
          (print_args dev fuel (codes "       %s:%d: ") (text info.file ∷ num info.line ∷ []) k)
  place-Shown bound fuel info k (short, nz, ascii) lt small =
      print_args-Shown dev (place info) bound fuel (codes "       %s:%d: ")
        (text info.file ∷ num info.line ∷ []) k refl (ground arith)
        (
          ground arith,
          (
            (refl, ground arith, file_stands info.file nz, ascii, short),
            (ground arith, ((refl, tt), (ground arith, tt))),
          ),
        )
        (omega arith) small

  print_frame-Shown :
      (bound fuel : ℕ) (mem : Memory) (f : Frame) (k : Kernel)
      → IsFileName bound f.info.file
      → 100 + bound < fuel
      → bound < 2 ^ 31
      → Shown dev (frame_items mem f) k (print_frame dev fuel mem f.rbp f.rip f.info k)
  unfolding print_frame
  print_frame-Shown bound fuel mem f k named lt small =
      let after_arity = arguments_below f.info.fn_narg 0 mem f.rbp ++ (words (10 ∷ []) ∷ []) in
      let after_offset = arity f.info ++ after_arity in
      let after_name = offset f ++ after_offset in
      let after_place = name f.info.fn_namelen 0 f.info.fn_name ++ after_name in
      then-Shown dev (registers_line f) (place f.info ++ after_place) k _ _
        (print_args-Shown dev (registers_line f) 0 fuel _ _ k refl (ground arith) (ground arith)
          (omega arith) (omega arith))
        λ k₁.
          then-Shown dev (place f.info) after_place k₁ _ _
            (place-Shown bound fuel f.info k₁ named lt small)
            λ k₂.
              then-Shown dev (name f.info.fn_namelen 0 f.info.fn_name) after_name k₂ _ _
                (print_name-Shown f.info.fn_namelen 0 fuel f.info k₂ (omega arith))
                λ k₃.
                  then-Shown dev (offset f) after_offset k₃ _ _
                    (print_args-Shown dev (offset f) 0 fuel _ _ k₃ refl (ground arith)
                      (ground arith) (omega arith) (omega arith))
                    λ k₄.
                      then-Shown dev (arity f.info) after_arity k₄ _ _
                        (print_args-Shown dev (arity f.info) 0 fuel _ _ k₄ refl (ground arith)
                          (ground arith) (omega arith) (omega arith))
                        λ k₅.
                          then-Shown dev (arguments_below f.info.fn_narg 0 mem f.rbp)
                            (words (10 ∷ []) ∷ []) k₅ _ _
                            (print_arguments-Shown f.info.fn_narg 0 fuel mem f.rbp k₅ (omega arith))
                            λ k₆.
                              print_args-Shown dev (words (10 ∷ []) ∷ []) 0 fuel _ _ k₆ refl
                                (ground arith) (ground arith) (omega arith) (omega arith)

  list_frames-Shown :
      (bound fuel : ℕ) (mem : Memory) (frames : List Frame) (k : Kernel)
      → All (λ f. IsFileName bound f.info.file) frames
      → 100 + bound < fuel
      → bound < 2 ^ 31
      → Shown dev (frames_items mem frames) k (list_frames dev fuel mem frames k)
  unfolding list_frames
  list_frames-Shown bound fuel mem [] k named lt small = (k, refl, refl)
  list_frames-Shown bound fuel mem (f ∷ fs) k (here, named) lt small =
      then-Shown dev (frame_items mem f) (frames_items mem fs) k _ _
        (print_frame-Shown bound fuel mem f k here lt small)
        λ k'. list_frames-Shown bound fuel mem fs k' named lt small

-- On a good console, let the registers and the stack give a chain of frames whose addresses
-- debuginfo_rip handles, with
-- ASCII file names of at most `bound` bytes. With fuel 200 above that bound and above the number of
-- frames, mon_backtrace returns 0. Behind the heading the console shows, for each frame from the
-- innermost on, its frame pointer and address in 16 hexadecimal places, the file and the line, the
-- characters of the function's name, the offset of the address in the function, the number of
-- arguments and, in 16 hexadecimal places, as many 32-bit words from below the frame pointer.
pub mon_backtrace_lists :
    (dev : Device) (lib : Dwarf) (sect : InfoSection) (locals : ℕ → Locals lib) (stack : Stack)
    (info info' : Ripdebuginfo) (fuel bound : ℕ) (k : Kernel) (frames : List Frame)
    → IsConsole k.sink
    → look_up dev lib sect locals fuel stack.rip info ≡ some info'
    → Chain dev lib sect locals fuel stack.mem stack.rbp stack.rip info' frames
    → length frames < fuel
    → All (λ f. IsFileName bound f.info.file) frames
    → 200 + bound < fuel
    → bound < 2 ^ 31
    → (k₁ : Kernel) × (k₂ : Kernel) × (print_args dev fuel
          ((27 ∷ codes "[41;36mStack backtrace:") ++ (27 ∷ codes "[0m") ++ (10 ∷ []))
          []
          k
        ≡ some k₁)
      × Shows dev (frames_items stack.mem frames) k₁ k₂
      × (mon_backtrace dev lib sect locals stack info fuel k ≡ some (0, k₂))
unfolding IsLiteral safe advance may_end Held
mon_backtrace_lists dev lib sect locals stack info info' fuel bound k frames good looked chain few
      named lt small =
    let (k₁, heading, held) = Yields-some (Held k.sink.cons) _ (
      print_args-Yields dev k.sink.cons fuel
        ((27 ∷ codes "[41;36mStack backtrace:") ++ (27 ∷ codes "[0m") ++ (10 ∷ [])) [] k
        (ground arith, refl) (omega arith) (good, refl)) in
    let (k₂, listed, shows) =
      list_frames-Shown dev bound fuel stack.mem frames k₁ named (omega arith) small in
    (
      k₁,
      k₂,
      heading,
      shows,
      mon_backtrace_lem dev lib sect locals stack info info' fuel k frames looked chain few
          ∙ (ap (λ o. o >>= λ q. list_frames dev fuel stack.mem frames q >>= λ r. some (0, r))
                heading
              ∙ ap (λ o. o >>= λ r. some (0, r)) listed),
    )
