-- ===== src/Runtime/LogPipe.antt =====
-- The log of a container, procri/pkg/runtimeservice/logpipe.go: two goroutines that copy the lines of
-- a process's two outputs to one file. A stream is the text that is read from it before its end, or
-- before an error; each Fprintf is one write to the file, and the writes of the two goroutines come
-- in any order.
pub mod Lines
pub mod Parsed
use Prim.Native.Char.{code}
use luna_for_mac.Base.{
  ℕ, zero, suc, ◌≡◌, String, Bool, Option, none, some, List, [], ◌∷◌, ◌<>◌, ◌>>=◌, nat_eq,
  if◌then◌else◌,
}

abbrev pub newline : ℕ
newline = 10

-- `reader.ReadString('\n')`: the line with its end and what is left, or an error where the stream
-- ends before the line does; what was read of that line is lost.
unfoldable pub read_line : String → Option (String × String)
read_line String.[] = none
read_line (String.◌∷◌ c s) =
    let rest = read_line s in
    if nat_eq (code c) newline
    then some (String.◌∷◌ c "", s)
    else rest >>= λ r. some (String.◌∷◌ c r.0, r.1)

-- The text that Fprintf writes for a line.
abbrev pub log_entry : String → String → String → String
log_entry timestamp stream_type line = timestamp <> (" " <> (stream_type <> (" F " <> line)))

-- The writes of `pipeOutputToLogFile`, on fuel. `clock n` is the time of the n-th line, formatted.
unfoldable pub pipe_output_to_log_file : ℕ → (ℕ → String) → String → String → List String
pipe_output_to_log_file zero clock stream_type stream = []
pipe_output_to_log_file (suc fuel) clock stream_type stream = elim (read_line stream) [
  | none ↦ []
  | some (line, rest) ↦
      log_entry (clock zero) stream_type line
      ∷ pipe_output_to_log_file fuel (λ n. clock (suc n)) stream_type rest
]

pub record LogPipe : Type 0 where
  pub stdout : String
  pub stderr : String

-- `none`: the log file cannot be made.
unfoldable pub new_log_pipe : Bool → String → String → Option LogPipe
new_log_pipe created stdout stderr =
    if created then some (record { stdout = stdout; stderr = stderr }) else none

-- The writes of two goroutines to one file.
pub data Merge : List String → List String → List String → Type 0 where
  merged : Merge [] [] []
  from_left : {x : String} {xs ys zs : List String} → Merge xs ys zs → Merge (x ∷ xs) ys (x ∷ zs)
  from_right : {y : String} {xs ys zs : List String} → Merge xs ys zs → Merge xs (y ∷ ys) (y ∷ zs)

abbrev pub concat : List String → String
concat [] = ""
concat (w ∷ ws) = w <> concat ws

abbrev pub text_length : String → ℕ
text_length String.[] = zero
text_length (String.◌∷◌ c s) = suc (text_length s)

-- The file after Start and Wait: the writes of both goroutines, in some order. The fuel of each is
-- the length of its stream, which is enough.
unfoldable pub Logged : (ℕ → String) → (ℕ → String) → LogPipe → String → Type 0
Logged out_clock err_clock lp log =
    (writes : List String) × Merge
      (pipe_output_to_log_file (text_length lp.stdout) out_clock "stdout" lp.stdout)
      (pipe_output_to_log_file (text_length lp.stderr) err_clock "stderr" lp.stderr) writes
    × (log ≡ concat writes)
