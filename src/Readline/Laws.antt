-- ===== src/Readline/Laws.antt =====
-- The line that readline hands over.
use jos.Base.{
  ℕ, zero, suc, ◌+◌, ◌-◌, ◌<◌, ◌≤◌, ◌≡◌, ◌≢◌, ◌⊎◌, length-take, refl, sym, Bool, true, false, ◌&&◌,
  ◌||◌, ◌==◌, ltb, leb, if◌then◌else◌, Option, none, some, ◌>>=◌, is_neg32, List, [], ◌∷◌, ◌++◌,
  Bytes, All, codes, set, get_or, length, length-set, get_or-set_self, get_or-set_ne, take, arith,
  Bool-cases, inl, inr, Ensures, Ensures-bind, ap,
}
use jos.Base.Memory.{Memory, memory_at, CString}
use jos.Console.Ports.{Device}
use jos.Console.State.{Kernel}
use jos.Console.Putc.{cputchar, iscons}
use jos.Console.Putc.Laws.{IsConsole, cons_putc-IsConsole}
use jos.Console.Input.Laws.{getchar_keep}
use jos.Console.Cprintf.{num, text, print_args}
use jos.Console.Cprintf.Laws.{print_args_keep}
use jos.Readline.{buflen, Outcome, more, finished, failed, line_key, echo, readline_loop, readline}

-- The line at hand: the first `i` bytes of the buffer.
abbrev pub line : ℕ → List ℕ → Bytes
line i buf = take i buf

-- The editor's specification on lists: a line without its last character.
unfoldable pub drop_last : Bytes → Bytes
drop_last [] = []
drop_last (c ∷ []) = []
drop_last (c ∷ d ∷ cs) = c ∷ drop_last (d ∷ cs)

take-set :
    (i : ℕ) (buf : List ℕ) (c : ℕ)
    → i < length buf
    → take (suc i) (set buf i c) ≡ take i buf ++ (c ∷ [])
take-set i [] c h = absurd (omega arith)
take-set zero (b ∷ buf) c h = refl
take-set (suc i) (b ∷ buf) c h = ap (λ r. b ∷ r) (take-set i buf c (omega arith))

drop_last-take :
    (i : ℕ) (buf : List ℕ) → suc i ≤ length buf → drop_last (take (suc i) buf) ≡ take i buf
unfolding drop_last
drop_last-take i [] h = absurd (omega arith)
drop_last-take zero (b ∷ buf) h = refl
drop_last-take (suc i) (b ∷ []) h = absurd (omega arith)
drop_last-take (suc i) (b ∷ d ∷ buf) h = ap (λ r. b ∷ r) (drop_last-take i (d ∷ buf) (omega arith))

-- The buffer has its 1024 bytes, and there is room for the zero behind the line.
pub record IsLine (i : ℕ) (buf : List ℕ) : Type 0 where
  pub size : length buf ≡ buflen
  pub room : i < buflen
  pub shown : (j : ℕ) → j < i → b' ' ≤ get_or buf j 0

-- The editor on lists: a deletion takes the last character, a printable character is put behind the
-- line while there is room, and any other changes nothing.
unfoldable pub edited : ℕ → Bytes → Bytes
edited c cs =
    if ((c == 8) || (c == 0x7F)) && ltb 0 (length cs)
    then drop_last cs
    else if leb b' ' c && ltb (length cs) (buflen - 1)
    then cs ++ (c ∷ [])
    else cs

-- What an outcome must be for the character `c` at the line `i` of `buf`: the edited line, or, for
-- the end of a line, the line as it was with a zero behind it.
abbrev pub Refines : ℕ → ℕ → List ℕ → Outcome → Type 0
Refines c i buf (more e i' buf') = IsLine i' buf' × (line i' buf' ≡ edited c (line i buf))
Refines c i buf (finished buf') =
    ((c ≡ 10) ⊎ (c ≡ 13)) × IsLine i buf' × (line i buf' ≡ line i buf) × (get_or buf' i 0 ≡ 0)
Refines c i buf failed = ⊥

pub length-line : (i : ℕ) (buf : List ℕ) → i ≤ length buf → length (take i buf) ≡ i
length-line i buf h = omega (arith, length-take i buf)

take-set_self : (i : ℕ) (buf : List ℕ) (v : ℕ) → take i (set buf i v) ≡ take i buf
take-set_self zero buf v = refl
take-set_self (suc i) [] v = refl
take-set_self (suc i) (b ∷ buf) v = ap (λ r. b ∷ r) (take-set_self i buf v)

IsLine-set :
    (i c : ℕ) (buf : List ℕ)
    → IsLine i buf
    → i < buflen - 1
    → b' ' ≤ c
    → IsLine (i + 1) (set buf i c)
IsLine-set i c buf h room shown = record {
  size = omega (arith, length-set buf i c);
  room = omega arith;
  shown = λ j lt. elim (Bool-cases (i == j)) [
    | inl e ↦
        let same : i ≡ j = ground arith in
        rw (← same) (rw (get_or-set_self buf i c 0 (omega arith)) shown)
    | inr e ↦ rw (get_or-set_ne buf i j c 0 (ground arith)) (h.shown j (ground arith))
  ];
}

IsLine-end : (i : ℕ) (buf : List ℕ) → IsLine i buf → IsLine i (set buf i 0)
IsLine-end i buf h = record {
  size = omega (arith, length-set buf i 0);
  room = h.room;
  shown = λ j lt. rw (get_or-set_ne buf i j 0 0 (omega arith)) (h.shown j lt);
}

erase-line :
    (i : ℕ) (buf : List ℕ) → IsLine i buf → 0 < i → drop_last (take i buf) ≡ take (i - 1) buf
erase-line zero buf h pos = absurd (omega arith)
erase-line (suc i) buf h pos =
    let e : suc i - 1 ≡ i = omega arith in
    rw e (drop_last-take i buf (omega (arith, h.size, h.room)))

extended :
    (i c : ℕ) (buf : List ℕ) → i < length buf → take (i + 1) (set buf i c) ≡ take i buf ++ (c ∷ [])
extended i c buf h = let e : i + 1 ≡ suc i = omega arith in rw e (take-set i buf c h)

-- Each byte does to the line in the buffer what the editor on lists does, and leaves room for the
-- terminating zero; a byte is never taken for a read error.
pub line_key_lem :
    (c i : ℕ) (buf : List ℕ) → IsLine i buf → c < 256 → Refines c i buf (line_key c i buf)
unfolding line_key edited
line_key_lem c i buf h small =
    let nonneg : is_neg32 c ≡ false = ground arith in
    let len = length-line i buf (omega (arith, h.size, h.room)) in
    rw nonneg (elim (Bool-cases (((c == 8) || (c == 0x7F)) && ltb 0 i)) [
      | inl e ↦ rw e (
        record {
          size = h.size;
          room = omega (arith, h.room);
          shown = λ j lt. h.shown j (omega arith);
        },
        rw (len, e) (sym (erase-line i buf h (ground arith))),
      )
      | inr e ↦ rw e (elim (Bool-cases (leb b' ' c && ltb i (buflen - 1))) [
        | inl f ↦ rw f (
          IsLine-set i c buf h (ground arith) (ground arith),
          rw (len, e, f) (extended i c buf (omega (arith, h.size, h.room))),
        )
        | inr f ↦ rw f (elim (Bool-cases ((c == 10) || (c == 13))) [
          | inl g ↦ rw g (
            ground arith,
            IsLine-end i buf h,
            take-set_self i buf 0,
            get_or-set_self buf i 0 0 (omega (arith, h.size, h.room)),
          )
          | inr g ↦ rw g (h, rw (len, e, f) refl)
        ])
      ])
    ])

-- The buffer of a finished line is a C string of printable characters.
CString-line :
    (n : ℕ) (m : Memory) (p : ℕ)
    → ((j : ℕ) → j < n → b' ' ≤ m (p + j))
    → m (p + n) ≡ 0
    → (cs : Bytes) × CString m p cs × (length cs ≡ n) × All (λ c. b' ' ≤ c) cs
CString-line zero m p shown end = ([], (let e : p + 0 ≡ p = omega arith in rw e at end), refl, tt)
CString-line (suc n) m p shown end =
    let e : p + suc n ≡ p + 1 + n = omega arith in
    let (cs, str, len, all) =
      CString-line n m (p + 1)
        (λ j lt. let f : p + 1 + j ≡ p + suc j = omega arith in rw f (shown (suc j) (omega arith)))
        (rw e at end) in
    let first : b' ' ≤ m p = (let f : p + 0 ≡ p = omega arith in rw f at (shown 0 (omega arith))) in
    (m p ∷ cs, (refl, (λ z. absurd (omega arith)), str), ap suc len, (first, all))

-- What readline hands over: a string of at most 1023 printable characters at the start of the
-- buffer, and a console as it should be.
abbrev pub IsRead : Bool × List ℕ × Kernel → Type 0
IsRead (ok, buf, k) =
    (ok ≡ true)
    × IsConsole k.sink
    × (cs : Bytes) × CString (memory_at 0 buf) 0 cs
    × (length cs < buflen)
    × All (λ c. b' ' ≤ c) cs

pub echo_keep :
    (dev : Device) (echoing : ℕ) (e : Option ℕ) (k : Kernel)
    → IsConsole k.sink
    → IsConsole (echo dev echoing e k).sink
unfolding echo cputchar
echo_keep dev echoing none k h = h
echo_keep dev echoing (some c) k h = elim (Bool-cases (echoing == 0)) [
  | inl e ↦ rw e h
  | inr e ↦ rw e (cons_putc-IsConsole dev _ _ c k.sink h)
]

memory_at-zero : (buf : List ℕ) (j : ℕ) → memory_at 0 buf (0 + j) ≡ get_or buf j 0
memory_at-zero buf j =
    let e : 0 + j - 0 ≡ j = omega arith in
    let f : ltb (0 + j) 0 ≡ false = ground arith in rw (f, e) refl

finished-IsRead :
    (i : ℕ) (buf : List ℕ) (k : Kernel)
    → IsLine i buf
    → get_or buf i 0 ≡ 0
    → IsConsole k.sink
    → IsRead (true, buf, k)
finished-IsRead i buf k h end good =
    let (cs, str, len, all) =
      CString-line i (memory_at 0 buf) 0 (λ j lt. rw (memory_at-zero buf j) (h.shown j lt))
        (rw (memory_at-zero buf i) end) in
    (refl, good, cs, str, omega (arith, h.room), all)

module _ (dev : Device) where
  readline_loop_keep :
      (fuel echoing i : ℕ) (buf : List ℕ) (k : Kernel)
      → IsLine i buf
      → IsConsole k.sink
      → Ensures IsRead (readline_loop dev fuel echoing i buf k)
  unfolding readline_loop
  readline_loop_keep zero echoing i buf k h good = tt
  readline_loop_keep (suc fuel) echoing i buf k h good =
      Ensures-bind (λ r. (r.0 < 256) × (r.0 ≢ 0) × IsConsole r.1.sink) IsRead _ _
        (getchar_keep dev fuel k good)
        (λ r h'.
          next r.0 r.1 h'.2 (line_key r.0 i buf) (line_key_lem r.0 i buf h h'.0)
            (λ i' buf' k' line good'. readline_loop_keep fuel echoing i' buf' k' line good'))
    where
      next :
          (c : ℕ) (k' : Kernel)
          → IsConsole k'.sink
          → (o : Outcome) → Refines c i buf o
          → ((i' : ℕ) (buf' : List ℕ) (k' : Kernel)
              → IsLine i' buf'
              → IsConsole k'.sink
              → Ensures IsRead (readline_loop dev fuel echoing i' buf' k'))
          → Ensures IsRead (elim o [
            | more e i' buf' ↦ readline_loop dev fuel echoing i' buf' (echo dev echoing e k')
            | finished buf' ↦ some (true, buf', echo dev echoing (some 10) k')
            | failed ↦
                print_args dev fuel (codes "read error: %e" ++ (10 ∷ [])) (num c ∷ []) k' >>= λ k''.
                some (false, buf, k'')
          ])
      next c k' g (more e i' buf') ref rec =
          rec i' buf' (echo dev echoing e k') ref.0 (echo_keep dev echoing e k' g)
      next c k' g (finished buf') ref rec =
          finished-IsRead i buf' (echo dev echoing (some 10) k') ref.1 ref.3
            (echo_keep dev echoing (some 10) k' g)
      next c k' g failed ref rec = absurd ref

  -- A call of readline that returns has read a line: it is never NULL, and the buffer of 1024 bytes
  -- holds a string of at most 1023 printable characters; the console's invariant is kept.
  pub readline-IsRead :
      (fuel : ℕ) (prompt : Option Bytes) (buf : List ℕ) (k : Kernel)
      → length buf ≡ buflen
      → IsConsole k.sink
      → Ensures IsRead (readline dev fuel prompt buf k)
  unfolding readline
  readline-IsRead fuel none buf k size good =
      readline_loop_keep fuel (iscons 0) 0 buf k
        (record { size = size; room = omega arith; shown = λ j lt. absurd (omega arith) }) good
  readline-IsRead fuel (some prompt) buf k size good =
      Ensures-bind (λ k'. IsConsole k'.sink) IsRead _ _
        (print_args_keep dev fuel (codes "%s") (text prompt ∷ []) k good)
        (λ k' g.
          readline_loop_keep fuel (iscons 0) 0 buf k'
            (record { size = size; room = omega arith; shown = λ j lt. absurd (omega arith) }) g)
