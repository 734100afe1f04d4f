-- ===== src/Runtime/Listing/Status.antt =====
-- ContainerStatus after the container was started.
use luna_for_mac.Base.{
  String, true, ◌≡◌, ◌≢◌, refl, ◌∙◌, some, [], ◌++◌, Lacks, eq_refl, Option, none,
}
use luna_for_mac.Base.Int.{ℤ, pos, is_int64}
use luna_for_mac.Path.{slash}
use luna_for_mac.Disk.{Diskv, IsLawful, IsReliable}
use luna_for_mac.Runtime.Container.{Container}
use luna_for_mac.Runtime.Records.{get_container}
use luna_for_mac.Runtime.Types.{World, Outcome, ok, err, container_not_found, container_running}
use luna_for_mac.Runtime.Start.{Launch, start_container, log_path_of, running}
use luna_for_mac.Runtime.Start.Started.{Starts, start_container_succeeds}
use luna_for_mac.Runtime.Listing.{ContainerStatus, status_of_container, container_status}

module _ (D : Diskv) where
  container_status-some :
      (s : D.State) (cid : String) (c : Container)
      → get_container D s cid ≡ some c
      → container_status D s cid ≡ ok (status_of_container cid c)
  unfolding container_status
  container_status-some s cid c e = rw (e, container_status) refl

  pub container_status-found :
      (s : D.State) (cid : String) (status : ContainerStatus)
      → container_status D s cid ≡ ok status
      → (c : Container) × (get_container D s cid ≡ some c) × (status ≡ status_of_container cid c)
  unfolding container_status
  container_status-found s cid status h = found (get_container D s cid) refl h
    where
      found :
          (o : Option Container)
          → get_container D s cid ≡ o
          → ◌≡◌ {A = Outcome ContainerStatus}
              (elim o [
                | none ↦ err (container_not_found cid)
                | some c ↦ ok (status_of_container cid c)
              ])
              (ok status)
          → (c : Container) × (get_container D s cid ≡ some c)
            × (status ≡ status_of_container cid c)
      found none e h' = absurd (cc h')
      found (some c) e h' = (c, e, cc)

  -- After a StartContainer of a stored container with a command, in which nothing goes wrong,
  -- ContainerStatus reports the container as running since the start, with the exit code 0 and the
  -- rest as it was stored, the log path being the default one where it was empty. The pid and the
  -- clock are of their Go types. The disk is lawful and reliable, and the ids hold no slash.
  pub container_status-start_container :
      IsLawful D
      → IsReliable D
      → (l : Launch) (w : World D) (cid : String) (c : Container) (pid : ℤ) → Lacks slash cid
      → get_container D w.store cid ≡ some c
      → c.command ++ c.args ≢ []
      → Starts l pid
      → l.log_ok ≡ true
      → is_int64 pid ≡ true
      → is_int64 l.now ≡ true
      → container_status D (start_container D l w cid).1.store cid
        ≡ ok (record {
          id = cid;
          metadata = record { name = c.name; attempt = c.attempt };
          state = container_running;
          created_at = c.created_at;
          started_at = l.now;
          finished_at = c.finished_at;
          exit_code = pos 0;
          image = c.image;
          image_ref = c.image;
          labels = c.labels;
          annotations = c.annotations;
          log_path = log_path_of c;
        })
  container_status-start_container L R l w cid c pid plain found command s b p n =
      container_status-some (start_container D l w cid).1.store cid (running l pid c) (
        (start_container_succeeds D L R l w cid cid c pid plain plain found command s b p n).1
        ∙ rw (eq_refl cid) refl)
