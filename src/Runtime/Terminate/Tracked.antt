-- ===== src/Runtime/Terminate/Tracked.antt =====
-- What the goroutine that tracks a process writes when the process has exited.
use luna_for_mac.Base.{
  String, ◌≡◌, refl, ◌∙◌, sym, ap, Option, none, some, ◌==◌, if◌then◌else◌, Bool-cases,
  Option-cases, inl, inr, Lacks, eq_iff,
}
use luna_for_mac.Base.Int.{int_eq}
use luna_for_mac.Path.{slash}
use luna_for_mac.Disk.{Diskv, IsLawful, IsReliable}
use luna_for_mac.Runtime.Container.{Container}
use luna_for_mac.Runtime.Records.{get_container}
use luna_for_mac.Runtime.Records.Laws.{get_container-put_container, get_container-Fits}
use luna_for_mac.Runtime.Terminate.{Exit, track_exit}
use luna_for_mac.Runtime.Terminate.Outcomes.{IsPlainExit, exited, exited-Fits}

-- A container after the exit of a process that was its own at some time.
abbrev pub tracked : Exit → Option Container → Option Container
tracked e none = none
tracked e (some c) = if int_eq c.pid e.pid then some (exited e c) else some c

module _ (D : Diskv) (L : IsLawful D) (R : IsReliable D) where
  same_container :
      (s : D.State) (e : Exit) (k : String) (o : Option Container)
      → get_container D s e.container_id ≡ o
      → get_container D s k ≡ (if e.container_id == k then o else get_container D s k)
  same_container s e k o h = elim (Bool-cases (e.container_id == k)) [
    | inl b ↦ rw b (ap (get_container D s) (sym ((eq_iff e.container_id k).0 b)) ∙ h)
    | inr b ↦ rw b refl
  ]

  -- The exit of a process, with a code of its Go type, changes its container alone, and that only
  -- while the container still has the process: it is then marked as exited, with the exit code. The
  -- exit of an earlier process of a container that was started again, or that is gone, changes
  -- nothing. The disk is lawful and reliable, and the ids hold no slash.
  pub get_container-track_exit :
      (s : D.State) (e : Exit) (k : String)
      → IsPlainExit e
      → Lacks slash k
      → get_container D (track_exit D s e) k ≡ (
          if e.container_id == k
          then tracked e (get_container D s e.container_id)
          else get_container D s k)
  unfolding track_exit
  get_container-track_exit s e k h p = elim (Option-cases (get_container D s e.container_id)) [
    | inl f ↦ rw (f, track_exit) (same_container s e k none f)
    | inr (c, f) ↦ elim (Bool-cases (int_eq c.pid e.pid)) [
      | inr g ↦ rw (f, track_exit, g) (same_container s e k (some c) f)
      | inl g ↦
          rw (f, track_exit, g)
            (get_container-put_container D L R s e.container_id k h.plain p (exited e c)
              (exited-Fits e c h.typed (get_container-Fits D s e.container_id c f)))
    ]
  ]
