-- ===== src/Monitor/Turns.antt =====
-- The loop of the monitor as a step relation on what it holds at a prompt: the buffer and the
-- console.
use jos.Base.{
  ◌∙◌, [], ◌∷◌, ◌<◌, get_or, Bytes, ℕ, zero, suc, ◌+◌, ◌≡◌, refl, ap, none, some, ◌>>=◌, List,
  codes, is_neg32, length, arith, true, false, inl, inr, Option-cases, Ensures, Ensures-some,
  Ensures-bind, Ensures-any, >>=-eq-some,
}
use jos.Base.Memory.{Memory, read_bytes}
use jos.Console.Ports.{Device}
use jos.Console.State.{Kernel}
use jos.Console.Putc.Laws.{IsConsole}
use jos.Console.Cprintf.Laws.{print_args_keep}
use jos.Debug.Library.{Dwarf}
use jos.Debug.Function.{Ripdebuginfo}
use jos.Debug.Lookup.{InfoSection, Locals}
use jos.Readline.{buflen, readline}
use jos.Readline.Laws.{readline-IsRead, IsRead}
use jos.Console.Ring.Laws.{pending}
use jos.Console.Input.Silent.{Silent}
use jos.Readline.Live.{Delivers, typed_line, readline_live}
use jos.Readline.Laws.{length-line}
use jos.Monitor.{line_memory}
use jos.Monitor.Parse.Laws.{no_words, parse_args_lem}
use jos.Monitor.Parse.{Parsed, parsed, too_many}
use jos.Monitor.{buf_address, Symbols, run_words, run_parsed, runcmd, monitor_loop, monitor}
use jos.Monitor.Backtrace.{Stack, mon_backtrace}
use jos.Monitor.Backtrace.Laws.{Good}
use jos.Monitor.Keep.{Returns, runcmd_keep}

-- The buffer has its 1024 bytes, and the console is good.
unfoldable pub AtPrompt : List ℕ × Kernel → Type 0
AtPrompt s = (length s.0 ≡ buflen) × Good s.1

length-read_bytes : (m : Memory) (p n : ℕ) → length (read_bytes m p n) ≡ n
length-read_bytes m p zero = refl
length-read_bytes m p (suc n) = ap suc (length-read_bytes m (p + 1) n)

-- The buffer of a result of runcmd keeps its size.
Sized : ℕ × Kernel × List ℕ → Type 0
Sized r = length r.2 ≡ buflen

module _ (dev : Device) (symbols : Symbols) (lib : Dwarf) (sect : InfoSection)
    (locals : ℕ → Locals lib) (stack : Stack) (info : Ripdebuginfo) where
  -- One turn of the loop: a line is read and run, and the result lets the loop go on.
  pub data Turn : List ℕ × Kernel → List ℕ × Kernel → Type 0 where
    turn :
        (fuel ret : ℕ) (buf buf₁ buf₂ : List ℕ) (k k₁ k₂ : Kernel)
        → readline dev fuel (some (codes "K> ")) buf k ≡ some (true, buf₁, k₁)
        → runcmd dev symbols (mon_backtrace dev lib sect locals stack info) fuel buf₁ k₁
          ≡ some (ret, k₂, buf₂)
        → is_neg32 ret ≡ false
        → Turn (buf, k) (buf₂, k₂)

  -- The prompts that follow a prompt.
  pub data Reaches : List ℕ × Kernel → List ℕ × Kernel → Type 0 where
    here : (s : List ℕ × Kernel) → Reaches s s
    later : (s t u : List ℕ × Kernel) → Reaches s t → Turn t u → Reaches s u

  run_parsed-Sized :
      (fuel : ℕ) (k : Kernel) (p : Parsed)
      → Ensures Sized
          (run_parsed dev symbols (mon_backtrace dev lib sect locals stack info) fuel k p)
  unfolding run_parsed Sized
  run_parsed-Sized fuel k (too_many m) =
      Ensures-bind (λ _. Unit) Sized _ (λ k'. some (0, k', read_bytes m buf_address buflen))
        (Ensures-any _) (λ k' _. length-read_bytes m buf_address buflen)
  run_parsed-Sized fuel k (parsed argv m) =
      Ensures-bind (λ _. Unit) Sized
        (run_words dev symbols (mon_backtrace dev lib sect locals stack info) fuel argv m k) _
        (Ensures-any _) (λ r _. length-read_bytes m buf_address buflen)

  runcmd-Sized :
      (fuel : ℕ) (buf : List ℕ) (k : Kernel)
      → Ensures Sized (runcmd dev symbols (mon_backtrace dev lib sect locals stack info) fuel buf k)
  unfolding runcmd
  runcmd-Sized fuel buf k =
      Ensures-bind (λ _. Unit) Sized _ _ (Ensures-any _) (λ p _. run_parsed-Sized fuel k p)

  -- A command line run between two prompts.
  runcmd-AtPrompt :
      (fuel ret : ℕ) (buf buf' : List ℕ) (k k' : Kernel)
      → Good k
      → runcmd dev symbols (mon_backtrace dev lib sect locals stack info) fuel buf k
        ≡ some (ret, k', buf')
      → AtPrompt (buf', k') × (ret ≡ 0)
  unfolding AtPrompt Sized Returns
  runcmd-AtPrompt fuel ret buf buf' k k' h run =
      let kept : Returns (ret, k', buf') =
        Ensures-some Returns _ (runcmd_keep dev symbols lib sect locals stack info fuel buf k h)
          run in
      ((Ensures-some Sized _ (runcmd-Sized fuel buf k) run, kept.0), kept.1)

  pub Turn-AtPrompt : (s t : List ℕ × Kernel) → AtPrompt s → Turn s t → AtPrompt t
  unfolding AtPrompt Good
  Turn-AtPrompt _ _ h (turn fuel ret buf buf₁ buf₂ k k₁ k₂ read run on) =
      let line : IsRead (true, buf₁, k₁) =
        Ensures-some IsRead _ (readline-IsRead dev fuel (some (codes "K> ")) buf k h.0 h.1) read in
      (runcmd-AtPrompt fuel ret buf₁ buf₂ k₁ k₂ line.1 run).0

  -- At every prompt that the monitor reaches from a prompt with a buffer of 1024 bytes and a good
  -- console, by any number of turns and whatever is typed, the buffer has 1024 bytes and the console is
  -- good.
  pub Reaches-AtPrompt : (s t : List ℕ × Kernel) → AtPrompt s → Reaches s t → AtPrompt t
  Reaches-AtPrompt _ _ h (here s) = h
  Reaches-AtPrompt _ _ h (later s t u path step) =
      Turn-AtPrompt t u (Reaches-AtPrompt s t h path) step

  monitor_loop_stays :
      (fuel : ℕ) (buf : List ℕ) (k : Kernel)
      → AtPrompt (buf, k)
      → monitor_loop dev symbols (mon_backtrace dev lib sect locals stack info) fuel buf k ≡ none
  unfolding monitor_loop AtPrompt Good
  monitor_loop_stays zero buf k h = refl
  monitor_loop_stays (suc fuel) buf k h =
      elim (Option-cases (readline dev fuel (some (codes "K> ")) buf k)) [
        | inl e ↦ rw (monitor_loop, e) refl
        | inr ((ok, buf', k'), e) ↦
            let line : IsRead (ok, buf', k') =
              Ensures-some IsRead _ (readline-IsRead dev fuel (some (codes "K> ")) buf k h.0 h.1)
                e in
            rw (monitor_loop, e, ◌>>=◌, line.0)
              (elim (Option-cases
                (runcmd dev symbols (mon_backtrace dev lib sect locals stack info) fuel buf' k')) [
                  | inl e' ↦ rw (e', ◌>>=◌) refl
                  | inr ((ret, k'', buf''), e') ↦
                      let next = runcmd-AtPrompt fuel ret buf' buf'' k' k'' line.1 e' in
                      rw (e', ◌>>=◌, next.1) (monitor_loop_stays fuel buf'' k'' next.0)
                ])
      ]

  -- No command returns a negative number, so the monitor, entered with a buffer of 1024 bytes and a
  -- good console, does not return, however many turns it is given.
  pub monitor_stays :
      (fuel : ℕ) (buf : List ℕ) (k : Kernel)
      → AtPrompt (buf, k)
      → monitor dev symbols (mon_backtrace dev lib sect locals stack info) fuel buf k ≡ none
  unfolding monitor AtPrompt Good
  monitor_stays fuel buf k h =
      elim (Option-cases
        (monitor dev symbols (mon_backtrace dev lib sect locals stack info) fuel buf k)) [
          | inl e ↦ e
          | inr (k', e) ↦
              let (k₁, p₁, r₁) = >>=-eq-some _ _ e in
              let (k₂, p₂, r₂) = >>=-eq-some _ _ r₁ in
              let h₁ =
                Ensures-some (λ q. IsConsole q.sink) _ (print_args_keep dev fuel _ _ k h.1) p₁ in
              let h₂ =
                Ensures-some (λ q. IsConsole q.sink) _ (print_args_keep dev fuel _ _ k₁ h₁) p₂ in
              let stays = monitor_loop_stays fuel buf k₂ (h.0, h₂) in ground arith
        ]

  -- An empty line is read, and nothing is run.
  pub empty_turn :
      (fuel : ℕ) (buf : List ℕ) (k : Kernel) (rest : Bytes)
      → Silent dev
      → AtPrompt (buf, k)
      → pending k.sink.cons ≡ 10 ∷ rest
      → 5 < fuel
      → (t : List ℕ × Kernel) × Turn (buf, k) t × (pending t.1.sink.cons ≡ rest)
  unfolding AtPrompt Good Delivers typed_line runcmd run_parsed run_words
  empty_turn fuel buf k rest silent h wait lt =
      let ((ok, buf₁, k₁), run, (fine, (i, is, same, ended), left, good)) =
        readline_live dev (some (codes "K> ")) [] fuel 10 buf k rest silent
          (ground arith, omega arith, omega arith) h.0 h.1 tt (inl refl) wait (omega arith) in
      let len = length-line i buf₁ (omega (arith, is.size, is.room)) in
      let first : i ≡ 0 = omega (arith, len, ap length same) in
      let start : get_or buf₁ 0 0 ≡ 0 = rw first at ended in
      let (ps, m', parse, points, below) =
        parse_args_lem fuel (line_memory buf₁) buf_address [] [] start tt (omega arith)
          (omega arith) in
      let buf₂ = read_bytes m' buf_address buflen in
      let ran : runcmd dev symbols (mon_backtrace dev lib sect locals stack info) fuel buf₁ k₁
          ≡ some (0, k₁, buf₂) =
        (ap
          (λ o. o >>= run_parsed dev symbols (mon_backtrace dev lib sect locals stack info) fuel k₁)
          (parse ∙ ap (λ l. some (parsed l m')) (no_words m' ps points))) in
      (
        (buf₂, k₁),
        turn fuel 0 buf buf₁ buf₂ k k₁ k₁ (run ∙ ap (λ q. some (q, buf₁, k₁)) fine) ran refl,
        left,
      )
