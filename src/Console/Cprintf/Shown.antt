-- ===== src/Console/Cprintf/Shown.antt =====
-- What a call of cprintf shows: the items of its format, put on the console one after the other.
use jos.Base.{
  subst, ℕ, ◌+◌, ◌^◌, ◌<◌, ◌≡◌, ◌≢◌, refl, ap, ◌∙◌, Option, some, ◌>>=◌, List, [], ◌∷◌, ◌++◌, Bytes,
  All, length, arith,
}
use jos.Base.Memory.{memory_at}
use jos.Console.Ports.{Device}
use jos.Console.State.{Console, Kernel}
use jos.Console.Cprintf.{putch, vcprintf, cprintf, Arg, arg_slot, print_args}
use jos.Console.Cprintf.Total.{laid_out, literal_stands, opened_at, closed}
use jos.Print.Terminal.{Terminal}
use jos.Print.Format.Preserve.{vprintfmt-keeps}
use jos.Print.Format.Render.{vprintfmt-Renders}
use jos.Print.Format.Render.Items.{Item, sources, AllPassed, Renders}

module _ (dev : Device) where
  -- The second state is the first with the items shown.
  abbrev pub Shows : List Item → Kernel → Kernel → Type 0
  Shows items k k' = Renders (putch dev) items (opened_at k) (opened_at k')

  -- A run returns, and shows the items.
  abbrev pub Shown : List Item → Kernel → Option Kernel → Type 0
  Shown items k m = (k' : Kernel) × (m ≡ some k') × Shows items k k'

  Renders-append :
      (is js : List Item) (t t₁ t' : Terminal (Console × ℕ))
      → Renders (putch dev) is t t₁
      → Renders (putch dev) js t₁ t'
      → Renders (putch dev) (is ++ js) t t'
  Renders-append [] js t t₁ t' same more = rw (← same) more
  Renders-append (i ∷ is) js t t₁ t' (t₀, prints, h) more =
      (t₀, prints, Renders-append is js t₀ t₁ t' h more)

  -- The rule for a chain of calls.
  pub then-Shown :
      (is js : List Item) (k : Kernel) (m : Option Kernel) (f : Kernel → Option Kernel)
      → Shown is k m
      → ((k₁ : Kernel) → Shown js k₁ (f k₁))
      → Shown (is ++ js) k (m >>= f)
  then-Shown is js k m f (k₁, run, shows) next =
      let (k', run', shows') = next k₁ in
      (
        k',
        ap (λ o. o >>= f) run ∙ run',
        Renders-append is js (opened_at k) (opened_at k₁) (opened_at k') shows shows',
      )

  -- A call with a literal format that is written as items, whose arguments are theirs.
  pub print_args-Shown :
      (items : List Item) (bound fuel : ℕ) (fmt : Bytes) (args : List Arg) (k : Kernel)
      → sources items ≡ fmt
      → All (λ c. c ≢ 0) fmt
      → AllPassed (memory_at 0 (laid_out fmt args)) (arg_slot (length fmt + 1) args) bound 0 items
      → length fmt + bound + 3 < fuel
      → bound < 2 ^ 31
      → Shown items k (print_args dev fuel fmt args k)
  unfolding print_args cprintf vcprintf putch
  print_args-Shown items bound fuel fmt args k same nz passed lt small =
      let mem = memory_at 0 (laid_out fmt args) in
      let slots = arg_slot (length fmt + 1) args in
      let size : length (sources items) ≡ length fmt = ap length same in
      let (t', run, renders) =
        vprintfmt-Renders (putch dev) mem slots items bound fuel 0 0 (opened_at k)
          (rw same (literal_stands fmt args nz)) passed (omega (arith, size)) small in
      let count : t'.sink.1 ≡ 0 =
        vprintfmt-keeps (putch dev) (λ s. s.1 ≡ 0) (λ flag parsing ch s h. h) fuel mem slots 0 0
          (opened_at k) refl run in
      let whole : t' ≡ opened_at (closed t') =
        ap
          (λ n. record {
            color_flag = t'.color_flag;
            color_parsing = t'.color_parsing;
            sink = (t'.sink.0, n);
          })
          count in
      (
        closed t',
        rw (run, ◌>>=◌) refl,
        subst (Renders (putch dev) items (opened_at k)) whole renders,
      )
