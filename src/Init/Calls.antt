-- ===== src/Init/Calls.antt =====
-- The calls of test_backtrace, one after the other.
use jos.Base.{
  ℕ, zero, suc, ◌-◌, ◌≡◌, sym, ap, ◌∙◌, Option, some, ◌>>=◌, >>=-congr, >>=-some, >>=_assoc, List,
  [], ◌∷◌, ◌++◌, Bytes, codes,
}
use jos.Console.Ports.{Device}
use jos.Console.State.{Kernel}
use jos.Console.Cprintf.{num, print_args}
use jos.Init.{backtrace_calls}

abbrev pub entering : Bytes
entering = codes "entering test_backtrace %d" ++ (10 ∷ [])

abbrev pub leaving : Bytes
leaving = codes "leaving test_backtrace %d" ++ (10 ∷ [])

-- The numbers from `x` on downwards, and the same numbers upwards to `x`.
abbrev pub down : ℕ → ℕ → List ℕ
down zero x = x ∷ []
down (suc n) x = x ∷ down n (x - 1)

abbrev pub up : ℕ → ℕ → List ℕ
up zero x = x ∷ []
up (suc n) x = up n (x - 1) ++ (x ∷ [])

-- The format printed with each of the numbers.
unfoldable pub says : Device → ℕ → Bytes → List ℕ → Kernel → Option Kernel
says dev fuel fmt [] k = some k
says dev fuel fmt (x ∷ xs) k =
    print_args dev fuel fmt (num x ∷ []) k >>= λ k'. says dev fuel fmt xs k'

module _ (dev : Device) (mon_backtrace : ℕ → Kernel → Option (ℕ × Kernel)) (fuel : ℕ) where
  says-snoc :
      (fmt : Bytes) (xs : List ℕ) (x : ℕ) (k : Kernel)
      → says dev fuel fmt (xs ++ (x ∷ [])) k
        ≡ (says dev fuel fmt xs k >>= λ k'. print_args dev fuel fmt (num x ∷ []) k')
  unfolding says
  says-snoc fmt [] x k = >>=-some (print_args dev fuel fmt (num x ∷ []) k)
  says-snoc fmt (y ∷ ys) x k =
      >>=-congr (print_args dev fuel fmt (num y ∷ []) k) (λ k'. says-snoc fmt ys x k')
      ∙ >>=_assoc (print_args dev fuel fmt (num y ∷ []) k) (says dev fuel fmt ys)
          (print_args dev fuel fmt (num x ∷ []))

  -- Each call but the last makes the next one, so all of them enter, the last lists the stack, and
  -- all of them return, the last one first.
  pub backtrace_calls_lem :
      (calls x : ℕ) (k : Kernel)
      → backtrace_calls dev mon_backtrace calls fuel x k ≡ (
          says dev fuel entering (down calls x) k >>= λ k₁.
          mon_backtrace fuel k₁ >>= λ r. says dev fuel leaving (up calls x) r.1)
  unfolding backtrace_calls says
  backtrace_calls_lem zero x k =
      let enter = print_args dev fuel entering (num x ∷ []) k in
      >>=-congr enter (λ k₁.
        >>=-congr (mon_backtrace fuel k₁)
          (λ r. sym (>>=-some (print_args dev fuel leaving (num x ∷ []) r.1))))
      ∙ ap (λ m. m >>= λ k₁. mon_backtrace fuel k₁ >>= λ r. says dev fuel leaving (x ∷ []) r.1)
          (sym (>>=-some enter))
  backtrace_calls_lem (suc calls) x k =
      let enter = print_args dev fuel entering (num x ∷ []) k in
      let leave = print_args dev fuel leaving (num x ∷ []) in
      let inner = says dev fuel entering (down calls (x - 1)) in
      let outer = says dev fuel leaving (up calls (x - 1)) in
      let list = λ (k₁ : Kernel). mon_backtrace fuel k₁ >>= λ r. outer r.1 in
      let list' = λ (k₁ : Kernel).
        mon_backtrace fuel k₁ >>= λ r. says dev fuel leaving (up (suc calls) x) r.1 in
      >>=-congr enter (λ k₁.
        ap (λ m. m >>= leave) (backtrace_calls_lem calls (x - 1) k₁)
        ∙ sym (>>=_assoc (inner k₁) list leave)
        ∙ >>=-congr (inner k₁) (λ k₂.
          sym (>>=_assoc (mon_backtrace fuel k₂) (λ r. outer r.1) leave)
          ∙ >>=-congr (mon_backtrace fuel k₂)
              (λ r. sym (says-snoc leaving (up calls (x - 1)) x r.1))))
      ∙ >>=_assoc enter inner list'
