-- ===== src/Runtime/Start.antt =====
-- StartContainer of procri/pkg/runtimeservice/container.go.
pub mod Started
use luna_for_mac.Base.{
  String, Bool, true, false, not, Option, none, some, List, [], ◌∷◌, ◌++◌, ◌==◌, if◌then◌else◌,
}
use luna_for_mac.Base.Int.{ℤ, pos}
use luna_for_mac.Disk.{Diskv}
use luna_for_mac.Runtime.Container.{Container}
use luna_for_mac.Runtime.Records.{get_container, put_container}
use luna_for_mac.Runtime.Types.{
  World, FileOp, made_dir, Outcome, ok, err, container_not_found, no_command, start_failed,
  container_running,
}
use luna_for_mac.Runtime.Create.Paths.{dir}

-- What the operating system answers: whether the pipes for the output and the log file could be made,
-- the id of the process that pty.Start started, if it could, and the clock.
pub record Launch : Type 0 where
  pub mkdir_ok : Bool
  pub stdout_ok : Bool
  pub stderr_ok : Bool
  pub pid : Option ℤ
  pub log_ok : Bool
  pub now : ℤ

abbrev pub log_path_of : Container → String
log_path_of c = if c.log_path == "" then "/tmp/cnt.log" else c.log_path

-- The record of a container whose process has started.
abbrev pub running : Launch → ℤ → Container → Container
running l pid c = record c {
  log_path = log_path_of c;
  pid = pid;
  state = container_running;
  exit_code = pos 0;
  started_at = l.now;
}

module _ (D : Diskv) where
  abbrev pub launched : World D → ℤ → World D
  launched w pid = record w { started = w.started ++ pid ∷ [] }

  -- From NewLogPipe on.
  unfoldable pub start_process :
      Launch → World D → String → Container → Option ℤ → Outcome (Unit {0}) × World D
  start_process l w cid c none = (err (start_failed cid), w)
  start_process l w cid c (some pid) =
      let w' = launched w pid in
      if not l.log_ok
      then (err (start_failed cid), w')
      else (ok tt, record w' { store = put_container D w.store cid (running l pid c) })

  -- A failure to make the log's directory is logged only.
  abbrev pub made_log_dir : Launch → World D → Container → World D
  made_log_dir l w c =
      if l.mkdir_ok
      then record w { file_ops = w.file_ops ++ made_dir (dir (log_path_of c)) ∷ [] }
      else w

  unfoldable pub start_found :
      Launch → World D → String → Container → List String → Outcome (Unit {0}) × World D
  start_found l w cid c [] = (err (no_command cid), w)
  start_found l w cid c (arg ∷ args) =
      let w' = made_log_dir l w c in
      if not l.stdout_ok
      then (err (start_failed cid), w')
      else if not l.stderr_ok
      then (err (start_failed cid), w')
      else start_process l w' cid c l.pid

  unfoldable pub start_container : Launch → World D → String → Outcome (Unit {0}) × World D
  start_container l w cid = elim (get_container D w.store cid) [
    | none ↦ (err (container_not_found cid), w)
    | some c ↦ start_found l w cid c (c.command ++ c.args)
  ]
