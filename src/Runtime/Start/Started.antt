-- ===== src/Runtime/Start/Started.antt =====
-- What StartContainer leaves in the store, and behind.
use luna_for_mac.Base.{
  String, true, false, ◌≡◌, ◌≢◌, refl, ◌∙◌, ap, Option, none, some, List, [], ◌∷◌, ◌++◌, ◌==◌,
  if◌then◌else◌, arith, Bool-cases, Option-cases, inl, inr, Lacks, eq_refl,
}
use luna_for_mac.Base.Int.{ℤ, pos, int_eq, is_int64}
use luna_for_mac.Path.{slash}
use luna_for_mac.Disk.{Diskv, IsLawful, IsReliable}
use luna_for_mac.Runtime.Container
use luna_for_mac.Runtime.Container.{Container}
use luna_for_mac.Runtime.Types.{World, ok, err, Error, start_failed, is_running, container_running}
use luna_for_mac.Runtime.Records.{get_container, put_container}
use luna_for_mac.Runtime.Records.Laws.{get_container-put_container, get_container-Fits}
use luna_for_mac.Runtime.Terminate.{Exit, Kill, track_exit, terminate_container}
use luna_for_mac.Runtime.Stop.{stop_container}
use luna_for_mac.Runtime.Terminate.Outcomes.{IsPlainExit, exited}
use luna_for_mac.Runtime.Terminate.Tracked.{get_container-track_exit}
use luna_for_mac.Runtime.Start.{
  Launch, running, launched, made_log_dir, start_process, start_found, start_container,
}

pub running-Fits :
    (l : Launch) (pid : ℤ) (c : Container)
    → is_int64 pid ≡ true
    → is_int64 l.now ≡ true
    → Container.Fits c
    → Container.Fits (running l pid c)
running-Fits l pid c p n f = record {
  attempt = f.attempt;
  pid = p;
  created_at = f.created_at;
  started_at = n;
  finished_at = f.finished_at;
  exit_code = refl;
  state = refl;
  labels = f.labels;
  annotations = f.annotations;
}

-- Nothing goes wrong until the process has its id.
pub record Starts (l : Launch) (pid : ℤ) : Type 0 where
  pub stdout_ok : l.stdout_ok ≡ true
  pub stderr_ok : l.stderr_ok ≡ true
  pub has_pid : l.pid ≡ some pid

module _ (D : Diskv) where
  start_process_fails :
      (l : Launch) (w : World D) (cid : String) (c : Container) (pid : Option ℤ) (e : Error)
      → (start_process D l w cid c pid).0 ≡ err e
      → (start_process D l w cid c pid).1.store ≡ w.store
  unfolding start_process
  start_process_fails l w cid c none e h = refl
  start_process_fails l w cid c (some pid) e h = elim (Bool-cases l.log_ok) [
    | inl b ↦ absurd (ground arith)
    | inr b ↦ rw b refl
  ]

  pub made_log_dir-store :
      (l : Launch) (w : World D) (c : Container) → (made_log_dir D l w c).store ≡ w.store
  made_log_dir-store l w c = elim (Bool-cases l.mkdir_ok) [ inl b ↦ rw b refl | inr b ↦ rw b refl ]

  made_log_dir-started :
      (l : Launch) (w : World D) (c : Container) → (made_log_dir D l w c).started ≡ w.started
  made_log_dir-started l w c = elim (Bool-cases l.mkdir_ok) [
    | inl b ↦ rw b refl
    | inr b ↦ rw b refl
  ]

  made_log_dir-signals :
      (l : Launch) (w : World D) (c : Container) → (made_log_dir D l w c).signals ≡ w.signals
  made_log_dir-signals l w c = elim (Bool-cases l.mkdir_ok) [
    | inl b ↦ rw b refl
    | inr b ↦ rw b refl
  ]

  start_found_fails :
      (l : Launch) (w : World D) (cid : String) (c : Container) (args : List String) (e : Error)
      → (start_found D l w cid c args).0 ≡ err e
      → (start_found D l w cid c args).1.store ≡ w.store
  unfolding start_found start_process
  start_found_fails l w cid c [] e = λ h. refl
  start_found_fails l w cid c (arg ∷ args) e = elim (Bool-cases l.stdout_ok) [
    | inr b ↦ rw b (λ h. made_log_dir-store l w c)
    | inl b ↦ elim (Bool-cases l.stderr_ok) [
      | inr b' ↦ rw (b, b') (λ h. made_log_dir-store l w c)
      | inl b' ↦
          rw (b, b')
            (λ h.
              start_process_fails l (made_log_dir D l w c) cid c l.pid e h
              ∙ made_log_dir-store l w c)
    ]
  ]

  -- When StartContainer answers with an error, the store is what it was before the call.
  pub start_container_fails :
      (l : Launch) (w : World D) (cid : String) (e : Error)
      → (start_container D l w cid).0 ≡ err e
      → (start_container D l w cid).1.store ≡ w.store
  unfolding start_container
  start_container_fails l w cid e = elim (Option-cases (get_container D w.store cid)) [
    | inl f ↦ rw (f, start_container) (λ h. refl)
    | inr (c, f) ↦ rw (f, start_container) (start_found_fails l w cid c (c.command ++ c.args) e)
  ]

  start_found-process :
      (l : Launch) (w : World D) (cid : String) (c : Container) (args : List String) (pid : ℤ)
      → args ≢ []
      → Starts l pid
      → start_found D l w cid c args ≡ start_process D l (made_log_dir D l w c) cid c (some pid)
  unfolding start_found
  start_found-process l w cid c [] pid command s = absurd (command refl)
  start_found-process l w cid c (arg ∷ args) pid command s =
      rw (s.stdout_ok, s.stderr_ok, s.has_pid) refl

  start_container-process :
      (l : Launch) (w : World D) (cid : String) (c : Container) (pid : ℤ)
      → get_container D w.store cid ≡ some c
      → c.command ++ c.args ≢ []
      → Starts l pid
      → start_container D l w cid ≡ start_process D l (made_log_dir D l w c) cid c (some pid)
  unfolding start_container
  start_container-process l w cid c pid found command s =
      rw (found, start_container)
        (start_found-process l w cid c (c.command ++ c.args) pid command s)

  start_process_leaks :
      (l : Launch) (w : World D) (cid : String) (c : Container) (pid : ℤ)
      → l.log_ok ≡ false
      → start_process D l w cid c (some pid) ≡ (err (start_failed cid), launched D w pid)
  unfolding start_process
  start_process_leaks l w cid c pid b = rw b refl

  start_process_starts :
      (l : Launch) (w : World D) (cid : String) (c : Container) (pid : ℤ)
      → l.log_ok ≡ true
      → start_process D l w cid c (some pid) ≡ (
        ok tt,
        record (launched D w pid) { store = put_container D w.store cid (running l pid c) },
      )
  unfolding start_process
  start_process_starts l w cid c pid b = rw b refl

  stop_container-idle :
      (timeout : ℤ) (w : World D) (cid : String) (c : Container) (k : Kill)
      → get_container D w.store cid ≡ some c
      → is_running c ≡ false
      → stop_container D timeout w cid k ≡ (ok tt, w)
  unfolding stop_container terminate_container
  stop_container-idle timeout w cid c k found idle = rw (found, stop_container, idle) refl

  -- When the process of a stored container with a command, which was not running, has started and its
  -- log file cannot be made, StartContainer answers with an error, although the process runs: no signal is sent to
  -- it, and the store is as it was, so that the process's id is not recorded. StopContainer then
  -- answers without an error and does nothing, whatever its timeout: it sends the process no signal
  -- either.
  pub start_container_leaks :
      (l : Launch) (w : World D) (cid : String) (c : Container) (pid timeout : ℤ) (k : Kill)
      → get_container D w.store cid ≡ some c
      → c.command ++ c.args ≢ []
      → Starts l pid
      → l.log_ok ≡ false
      → is_running c ≡ false
      → let (answer, v) = start_container D l w cid in
        (answer ≡ err (start_failed cid))
        × (v.started ≡ w.started ++ pid ∷ [])
        × (v.signals ≡ w.signals)
        × (v.store ≡ w.store)
        × (stop_container D timeout v cid k ≡ (ok tt, v))
  start_container_leaks l w cid c pid timeout k found command s b idle =
      let e =
        start_container-process l w cid c pid found command s
        ∙ start_process_leaks l (made_log_dir D l w c) cid c pid b in
      let same = ap (λ r. r.1.store) e ∙ made_log_dir-store l w c in
      (
        ap (λ r. r.0) e,
        ap (λ r. r.1.started) e ∙ ap (λ ps. ps ++ pid ∷ []) (made_log_dir-started l w c),
        ap (λ r. r.1.signals) e ∙ made_log_dir-signals l w c,
        same,
        stop_container-idle timeout (start_container D l w cid).1 cid c k
            (ap (λ t. get_container D t cid) same ∙ found) idle,
      )

  module _ (L : IsLawful D) (R : IsReliable D) where
    -- When nothing goes wrong, StartContainer of a stored container whose command line is not empty
    -- answers without error and stores the container as running, with the new process's id, the time
    -- of the call as its start, no exit code and, if it had none, a log file under /tmp; every other
    -- container and every other field is as it was. The pid and the clock are of their Go types. The disk is lawful
    -- and reliable, and the ids hold no slash.
    pub start_container_succeeds :
        (l : Launch) (w : World D) (cid k : String) (c : Container) (pid : ℤ)
        → Lacks slash cid
        → Lacks slash k
        → get_container D w.store cid ≡ some c
        → c.command ++ c.args ≢ []
        → Starts l pid
        → l.log_ok ≡ true
        → is_int64 pid ≡ true
        → is_int64 l.now ≡ true
        → ((start_container D l w cid).0 ≡ ok tt)
          × (get_container D (start_container D l w cid).1.store k ≡ (
              if cid == k
              then some (record c {
                log_path = if c.log_path == "" then "/tmp/cnt.log" else c.log_path;
                pid = pid;
                state = container_running;
                exit_code = pos 0;
                started_at = l.now;
              })
              else get_container D w.store k))
    start_container_succeeds l w cid k c pid plain plain_k found command s b p n =
        let fits = running-Fits l pid c p n (get_container-Fits D w.store cid c found) in
        let e =
          start_container-process l w cid c pid found command s
          ∙ start_process_starts l (made_log_dir D l w c) cid c pid b in
        (
          ap (λ r. r.0) e,
          ap (λ r. get_container D r.1.store k) e
              ∙ get_container-put_container D L R (made_log_dir D l w c).store cid k plain plain_k
                  (running l pid c) fits
              ∙ ap (λ t. if cid == k then some (running l pid c) else get_container D t k)
                  (made_log_dir-store l w c),
        )

    -- When a stored container with a command has been started, nothing having gone wrong, and the
    -- exit of some process of it is reported, the container is marked as exited, with that exit's
    -- code, if the process is the one that was started; the exit of any other process leaves it
    -- running. The pid, the clock and the code are of their Go types. The disk is lawful and
    -- reliable, and the ids hold no slash.
    pub start_then_exit :
        (l : Launch) (w : World D) (c : Container) (pid : ℤ) (e : Exit)
        → IsPlainExit e
        → get_container D w.store e.container_id ≡ some c
        → c.command ++ c.args ≢ []
        → Starts l pid
        → l.log_ok ≡ true
        → is_int64 pid ≡ true
        → is_int64 l.now ≡ true
        → get_container D
            (track_exit D (start_container D l w e.container_id).1.store e)
            e.container_id
          ≡ (if int_eq pid e.pid then some (exited e (running l pid c)) else some (running l pid c))
    start_then_exit l w c pid e plain found command s b p n =
        let cid = e.container_id in
        let started =
          (start_container_succeeds l w cid cid c pid plain.plain plain.plain found command s b p
            n).1 in
        get_container-track_exit D L R (start_container D l w cid).1.store e cid plain plain.plain
        ∙ rw (eq_refl cid, started) (rw (eq_refl cid) refl)
