-- ===== src/Runtime/Tests/Output.antt =====
-- The log of a process, the commands that ExecSync runs, and the handlers of constant answers.
use luna_for_mac.Base.{
  ℕ, String, Bool, true, false, ◌≡◌, refl, some, none, List, [], ◌∷◌, ◌++◌, map, not, keep, arith,
  if◌then◌else◌,
}
use luna_for_mac.Base.Int.{ℤ, pos, negsuc}
use luna_for_mac.Json.{TextMap, has_key}
use luna_for_mac.Runtime.LogPipe.{
  LogPipe, Logged, merged, from_left, from_right, pipe_output_to_log_file, read_line,
}
use luna_for_mac.Runtime.LogPipe.Lines.{lines, entries_of, pipe_output_to_log_file_lem}
use luna_for_mac.Runtime.LogPipe.Parsed.{stream_lines, IsStamp, stream_lines-Logged}
use luna_for_mac.Runtime.Exec.{Run, exec_sync, timed_out}
use luna_for_mac.Runtime.Exec.Answers.{IsTimely, exec_sync_overflows}
use luna_for_mac.Runtime.Create.Env.{default_env, env_text, make_env_list, make_env_list_lem}

abbrev clock : ℕ → String
clock n = "10:00"

clock-IsStamp : (n : ℕ) → IsStamp (clock n)
clock-IsStamp n =
    ((refl, (refl, (refl, (refl, (refl, tt))))), (refl, (refl, (refl, (refl, (refl, tt))))))

-- The last line on stdout has no end.
abbrev outputs : LogPipe
outputs = record { stdout = "one\ntwo\nthree"; stderr = "oops\n" }

abbrev log : String
log = "10:00 stdout F one\n10:00 stderr F oops\n10:00 stdout F two\n"

outputs-Logged : Logged clock clock outputs log
unfolding Logged pipe_output_to_log_file read_line
outputs-Logged = (
  "10:00 stdout F one\n" ∷ "10:00 stderr F oops\n" ∷ "10:00 stdout F two\n" ∷ [],
  from_left (from_right (from_left merged)),
  refl,
)

test_lines : lines "one\ntwo\nthree" ≡ "one\n" ∷ "two\n" ∷ []
test_lines = refl

stream_lines-Logged_example :
    (stream_lines "stdout" (lines log) ≡ lines "one\ntwo\nthree")
    × (stream_lines "stderr" (lines log) ≡ lines "oops\n")
stream_lines-Logged_example =
    stream_lines-Logged clock clock outputs log clock-IsStamp clock-IsStamp outputs-Logged

pipe_output_to_log_file_lem_example :
    pipe_output_to_log_file 20 clock "stdout" "one\ntwo\nthree"
    ≡ entries_of clock "stdout" (lines "one\ntwo\nthree")
pipe_output_to_log_file_lem_example =
    pipe_output_to_log_file_lem 20 clock "stdout" "one\ntwo\nthree" (omega arith)

-- A command that ends at once, unless its deadline is in the past.
abbrev expired : ℤ → Bool
expired (pos n) = false
expired (negsuc n) = true

abbrev runs : Bool → String → List String → ℤ → Run
runs cancelled name args timeout = record {
  stdout = "done";
  stderr = "";
  deadline_exceeded = if cancelled then false else expired timeout;
  error = none;
}

runs-IsTimely : IsTimely runs
runs-IsTimely = record { expires = λ name args d. refl }

exec_sync_overflows_example :
    (exec_sync runs false (record { cmd = "ls" ∷ "-l" ∷ []; timeout = pos 9223372037 })).1
    ≡ some timed_out
exec_sync_overflows_example =
    exec_sync_overflows runs runs-IsTimely "ls" ("-l" ∷ []) 9223372037 (omega arith) (omega arith)

abbrev envs : TextMap
envs = ("HOME", "/root") ∷ ("MY_ENV", "dummy") ∷ []

make_env_list_lem_example :
    make_env_list envs "mac"
    ≡ map env_text (envs ++ keep (λ e. not (has_key e.0 envs)) (default_env "mac"))
make_env_list_lem_example = make_env_list_lem envs "mac"
