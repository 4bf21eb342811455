-- ===== src/Monitor/Laws.antt =====
-- Which command a line runs.
use jos.Base.{
  suc, zero, ℕ, ◌+◌, ◌<◌, ◌≡◌, ◌≢◌, ◌⊎◌, inl, inr, refl, ◌∙◌, ◌==◌, Option, none, some, ◌>>=◌, List,
  [], ◌∷◌, ◌++◌, Bytes, codes, length, All, arith, Bool-cases, sym, ap, length-append,
}
use jos.Base.Memory.{Memory, memory_at, CString, CString-congr, read_bytes}
use jos.Console.Ports.{Device}
use jos.Console.State.{Kernel}
use jos.Console.Cprintf.{text, print_args}
use jos.Strings.Compare.Laws.{IsByte, strcmp_lem}
use jos.Monitor.Parse.{maxargs, parsed}
use jos.Monitor.Parse.Laws.{text_of, Separated, PointsTo, parse_args_lem}
use jos.Readline.{buflen}
use jos.Monitor.{
  string_at, Function, Command, commands, names, line_memory, buf_address, Symbols, find_command,
  run_command, invoke, run_words, run_parsed, runcmd,
}

-- The function of the first command with this name, if there is one.
abbrev pub Chosen : Option Function → Bytes → List Command → Type 0
Chosen f word [] = f ≡ none
Chosen f word (c ∷ cs) =
    ((word ≡ c.name) × (f ≡ some c.func)) ⊎ ((word ≢ c.name) × Chosen f word cs)

-- The names of the commands stand in memory.
abbrev pub IsTable : Memory → List Command → Type 0
IsTable m cs = All (λ c. CString m c.address c.name × All IsByte c.name) cs

find_command_lem :
    (fuel : ℕ) (m : Memory) (p : ℕ) (word : Bytes) (cs : List Command)
    → CString m p word
    → All IsByte word
    → IsTable m cs
    → length word < fuel
    → (f : Option Function) × (find_command fuel m p cs ≡ some f) × Chosen f word cs
unfolding find_command
find_command_lem fuel m p word [] h bytes table lt = (none, refl, refl)
find_command_lem fuel m p word (c ∷ cs) h bytes ((str, small), table) lt =
    let (r, run, order) = strcmp_lem fuel m p c.address word c.name h str bytes small lt in
    elim (Bool-cases (r == 0)) [
      | inl e ↦ (some c.func, rw (run, ◌>>=◌, e) refl, inl (order.0.0 (ground arith), refl))
      | inr e ↦
          let (f, found, chosen) = find_command_lem fuel m p word cs h bytes table lt in
          (
            f,
            rw (run, ◌>>=◌, e) found,
            inr ((λ same. let z = order.0.1 same in ground arith), chosen),
          )
    ]

Chosen-unique :
    (f g : Option Function) (word : Bytes) (cs : List Command)
    → Chosen f word cs
    → Chosen g word cs
    → f ≡ g
Chosen-unique f g word [] hf hg = hf ∙ sym hg
Chosen-unique f g word (c ∷ cs) (inl x) (inl y) = x.1 ∙ sym y.1
Chosen-unique f g word (c ∷ cs) (inl x) (inr y) = absurd (y.0 x.0)
Chosen-unique f g word (c ∷ cs) (inr x) (inl y) = absurd (x.0 y.0)
Chosen-unique f g word (c ∷ cs) (inr x) (inr y) = Chosen-unique f g word cs x.1 y.1

string_at-CString :
    (fuel : ℕ) (m : Memory) (p : ℕ) (word : Bytes)
    → CString m p word
    → length word < fuel
    → string_at fuel m p ≡ some word
unfolding string_at
string_at-CString zero m p word h lt = absurd (omega arith)
string_at-CString (suc fuel) m p [] h lt = ground arith
string_at-CString (suc fuel) m p (c ∷ word) (hc, nz, h) lt =
    ground (arith, string_at-CString fuel m (p + 1) word h (omega arith))

commands-IsTable :
    (m : Memory) → ((a : ℕ) → a < buf_address → m a ≡ memory_at 1 names a) → IsTable m commands
commands-IsTable m same = (
  (
    CString-congr (memory_at 1 names) m 1 (codes "help") (λ a lo hi. same a (omega arith))
        (ground arith),
    ground arith,
  ),
  (
    (
      CString-congr (memory_at 1 names) m 6 (codes "kerninfo") (λ a lo hi. same a (omega arith))
          (ground arith),
      ground arith,
    ),
    (
      (
        CString-congr (memory_at 1 names) m 15 (codes "backtrace") (λ a lo hi. same a (omega arith))
            (ground arith),
        ground arith,
      ),
      tt,
    ),
  ),
)

first_word :
    (m : Memory) (ps : List ℕ) (blanks word : Bytes) (rest : List (Bytes × Bytes))
    → PointsTo m ps ((blanks, word) ∷ rest)
    → (p : ℕ) × (qs : List ℕ) × (ps ≡ p ∷ qs) × CString m p word
first_word m [] blanks word rest h = absurd h
first_word m (p ∷ ps) blanks word rest (str, h) = (p, ps, refl, str)

module _ (dev : Device) (symbols : Symbols) (mon_backtrace : ℕ → Kernel → Option (ℕ × Kernel)) where
  -- What a line does whose first word is `word`, of which `f` is the command.
  unfoldable pub answer : Option Function → Bytes → ℕ → Kernel → Option (ℕ × Kernel)
  answer (some func) word fuel k = run_command dev symbols mon_backtrace func fuel k
  answer none word fuel k =
      print_args dev fuel (codes "Unknown command '%s'" ++ (10 ∷ [])) (text word ∷ []) k >>= λ k'.
      some (0, k')

  invoke-eq-answer :
      (fuel p : ℕ) (m : Memory) (k : Kernel) (f : Option Function) (word : Bytes)
      → CString m p word
      → length word < fuel
      → invoke dev symbols mon_backtrace fuel p m k f ≡ answer f word fuel k
  unfolding invoke answer
  invoke-eq-answer fuel p m k (some func) word h lt = refl
  invoke-eq-answer fuel p m k none word h lt = rw (string_at-CString fuel m p word h lt, ◌>>=◌) refl

  run_words_lem :
      (fuel p : ℕ) (ps : List ℕ) (m : Memory) (k : Kernel) (f : Option Function) (word : Bytes)
      → find_command fuel m p commands ≡ some f
      → CString m p word
      → length word < fuel
      → run_words dev symbols mon_backtrace fuel (p ∷ ps) m k ≡ answer f word fuel k
  unfolding run_words
  run_words_lem fuel p ps m k f word found h lt =
      ap (λ o. o >>= invoke dev symbols mon_backtrace fuel p m k) found
      ∙ invoke-eq-answer fuel p m k f word h lt

  -- A line of at least one and at most 15 words in the buffer, with fuel above its length: runcmd runs
  -- the command whose name the first word is, and returns its result and state; where no command has
  -- that name, it prints the word in a message and returns 0.
  pub runcmd_lem :
      (fuel : ℕ) (buf : List ℕ) (k : Kernel) (blanks word : Bytes) (rest : List (Bytes × Bytes))
      (end : Bytes) (f : Option Function)
      → CString (line_memory buf) buf_address (text_of ((blanks, word) ∷ rest) end)
      → Separated ((blanks, word) ∷ rest) end
      → All IsByte word
      → length (text_of ((blanks, word) ∷ rest) end) + 1 < fuel
      → length rest + 1 < maxargs
      → Chosen f word commands
      → (buf' : List ℕ) × (runcmd dev symbols mon_backtrace fuel buf k
          ≡ (answer f word fuel k >>= λ (ret, k'). some (ret, k', buf')))
  unfolding runcmd run_parsed
  runcmd_lem fuel buf k blanks word rest end f h sep bytes lt few chosen =
      let (ps, m', run, points, below) =
        parse_args_lem fuel (line_memory buf) buf_address ((blanks, word) ∷ rest) end h sep lt
          (omega arith) in
      let (p, qs, e, str) = first_word m' ps blanks word rest points in
      let same : (a : ℕ) → a < buf_address → m' a ≡ memory_at 1 names a =
        λ a l. below a l ∙ ground arith in
      let sizes = length-append blanks (word ++ text_of rest end) in
      let size = length-append word (text_of rest end) in
      let short : length word < fuel = omega (arith, sizes, size) in
      let (g, found, chosen') =
        find_command_lem fuel m' p word commands str bytes (commands-IsTable m' same) short in
      let f_found = found ∙ ap some (Chosen-unique g f word commands chosen' chosen) in
      (
        read_bytes m' buf_address buflen,
        ap (λ o. o >>= run_parsed dev symbols mon_backtrace fuel k)
              (run ∙ ap (λ l. some (parsed l m')) e)
            ∙ ap (λ o. o >>= λ (ret, k'). some (ret, k', read_bytes m' buf_address buflen))
                (run_words_lem fuel p qs m' k f word f_found str short),
      )
