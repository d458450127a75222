-- ===== src/Start/Stdin.antt =====
-- control.go: a line that is typed, by `loadFromStdin`.
use fedbox.Prelude.{ℕ, ◌≡◌, refl, ap, ◌∙◌, Text, [], ◌∷◌, ◌++◌, nat_eq, nat_beq, if◌then◌else◌}
use fedbox.Go.Strings.Laws.{Lacks}

-- A line, or the panic of a slice out of range
pub data Line : Type 0 where
  line : Text → Line
  line_panic : Line

-- `ReadBytes` of a reader: up to the delimiter, with it, or all that there is
read_bytes : ℕ → Text → Text
read_bytes delim [] = []
read_bytes delim (c ∷ s) =
    let rest = read_bytes delim s in if nat_beq c delim then c ∷ [] else c ∷ rest

-- All bytes but the last one
without_last : Text → Line
without_last [] = line_panic
without_last (c ∷ []) = line []
without_last (c ∷ d ∷ s) = elim (without_last (d ∷ s)) [
  | line t ↦ line (c ∷ t)
  | line_panic ↦ line_panic
]

-- `loadFromStdin`, of all that can be read
unfoldable pub load_from_stdin : Text → Line
unfolding read_bytes without_last
load_from_stdin input = without_last (read_bytes b'\n' input)

without_last-append : (s : Text) (c : ℕ) → without_last (s ++ (c ∷ [])) ≡ line s
unfolding without_last
without_last-append [] c = refl
without_last-append (d ∷ []) c = refl
without_last-append (d ∷ e ∷ s) c = rw (without_last-append (e ∷ s) c) refl

read_bytes-line :
    (s rest : Text) → Lacks b'\n' s → read_bytes b'\n' (s ++ (b'\n' ∷ rest)) ≡ s ++ (b'\n' ∷ [])
unfolding read_bytes
read_bytes-line [] rest h = refl
read_bytes-line (c ∷ s) rest h = rw (h.0) (ap (λ t. c ∷ t) (read_bytes-line s rest h.1))

read_bytes-all : (s : Text) → Lacks b'\n' s → read_bytes b'\n' s ≡ s
unfolding read_bytes
read_bytes-all [] h = refl
read_bytes-all (c ∷ s) h = rw (h.0) (ap (λ t. c ∷ t) (read_bytes-all s h.1))

-- A line that is ended is read without its end, and what follows it is ignored; of a last line that
-- is not ended the last byte is lost; and without any input there is a panic.
load_from_stdin_lem :
    (s rest : Text) (c : ℕ)
    → Lacks b'\n' s
    → Lacks b'\n' (s ++ (c ∷ []))
    → (load_from_stdin (s ++ (b'\n' ∷ rest)) ≡ line s)
      × (load_from_stdin (s ++ (c ∷ [])) ≡ line s)
      × (load_from_stdin [] ≡ line_panic)
unfolding load_from_stdin
load_from_stdin_lem s rest c ended open_end = (
  ap without_last (read_bytes-line s rest ended) ∙ without_last-append s b'\n',
  ap without_last (read_bytes-all (s ++ (c ∷ [])) open_end) ∙ without_last-append s c,
  refl,
)
