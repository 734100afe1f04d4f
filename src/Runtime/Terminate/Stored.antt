-- ===== src/Runtime/Terminate/Stored.antt =====
-- A container that is stored stays so while `terminateContainer` waits.
use luna_for_mac.Base.{
  String, ◌≡◌, ap, ◌∙◌, some, ◌==◌, if◌then◌else◌, Lacks, Bool-cases, Option-cases, inl, inr,
}
use luna_for_mac.Base.Int.{ℤ, int_eq}
use luna_for_mac.Path.{slash}
use luna_for_mac.Disk.{Diskv, IsLawful, IsReliable}
use luna_for_mac.Runtime.Container.{Container}
use luna_for_mac.Runtime.Types.{World}
use luna_for_mac.Runtime.Records.{get_container}
use luna_for_mac.Runtime.Records.Laws.{get_container-put_container, get_container-Fits}
use luna_for_mac.Runtime.Terminate.{Exit, Kill, track_exit, terminate_container}
use luna_for_mac.Runtime.Terminate.Outcomes.{
  IsPlainExit, PlainWakes, exited, exited-Fits, terminate_container_keeps,
}

-- Some container is stored under the id.
abbrev pub IsStored : (D : Diskv) → String → D.State → Type 0
IsStored D k s = (c : Container) × (get_container D s k ≡ some c)

module _ (D : Diskv) (L : IsLawful D) (R : IsReliable D) (k : String)
    (plain_k : Lacks slash k) where
  track_exit-IsStored :
      (s : D.State) (e : Exit) → IsPlainExit e → IsStored D k s → IsStored D k (track_exit D s e)
  unfolding track_exit
  track_exit-IsStored s e h (a, stored) = elim (Option-cases (get_container D s e.container_id)) [
    | inl f ↦ rw (f, track_exit) (a, stored)
    | inr (c, f) ↦ elim (Bool-cases (int_eq c.pid e.pid)) [
      | inr g ↦ rw (f, track_exit, g) (a, stored)
      | inl g ↦
          let after =
            get_container-put_container D L R s e.container_id k h.plain plain_k (exited e c)
              (exited-Fits e c h.typed (get_container-Fits D s e.container_id c f)) in
          rw (f, track_exit, g)
            (elim (Bool-cases (e.container_id == k)) [
              | inl same ↦ (
                exited e c,
                after ∙ ap (λ b. if b then some (exited e c) else get_container D s k) same,
              )
              | inr other ↦ (
                a,
                after
                    ∙ ap (λ b. if b then some (exited e c) else get_container D s k) other
                    ∙ stored,
              )
            ])
    ]
  ]

  pub terminate_container-IsStored :
      (timeout : ℤ) (w : World D) (c : Container) (kill : Kill)
      → PlainWakes kill.wakes
      → IsStored D k w.store
      → IsStored D k (terminate_container D timeout w c kill).1.store
  terminate_container-IsStored = terminate_container_keeps D (IsStored D k) track_exit-IsStored
