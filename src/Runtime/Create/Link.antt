-- ===== src/Runtime/Create/Link.antt =====
-- `symlinkToContainerPath` of procri/pkg/runtimeservice/container.go, and the loop of CreateContainer
-- over the mounts.
use luna_for_mac.Base.{
  ℕ, suc, String, Bool, true, false, not, List, [], ◌∷◌, ◌++◌, ◌==◌, if◌then◌else◌,
}
use luna_for_mac.Path.{is_path_allowed}
use luna_for_mac.Disk.{Diskv}
use luna_for_mac.Runtime.Types.{World, FileOp, removed, made_dir, linked}
use luna_for_mac.Runtime.Create.Paths.{dir}

-- cri.Mount
pub record Mount : Type 0 where
  pub host_path : String
  pub container_path : String

-- Whether the three calls for one mount succeed.
pub record LinkCalls : Type 0 where
  pub remove_ok : Bool
  pub mkdir_ok : Bool
  pub symlink_ok : Bool

module _ (D : Diskv) where
  abbrev pub done : World D → FileOp → World D
  done w op = record w { file_ops = w.file_ops ++ op ∷ [] }

  -- `false` is an error.
  unfoldable pub symlink_to_container_path : LinkCalls → World D → String → String → Bool × World D
  symlink_to_container_path calls w host_path container_path =
      if not (is_path_allowed container_path)
      then (true, w)
      else if not calls.remove_ok
      then (false, w)
      else let w1 = done w (removed container_path) in
        if not calls.mkdir_ok
        then (false, w1)
        else let w2 = done w1 (made_dir (dir container_path)) in
          if calls.symlink_ok
          then (true, done w2 (linked host_path container_path))
          else (false, w2)

  -- The loop over the mounts, with what the file system answers for each, in their order.
  unfoldable pub link_mounts : (ℕ → LinkCalls) → World D → List Mount → Bool × World D
  link_mounts calls w [] = (true, w)
  link_mounts calls w (m ∷ ms) =
      if m.host_path == m.container_path
      then link_mounts (λ n. calls (suc n)) w ms
      else let (fine, w') = symlink_to_container_path (calls 0) w m.host_path m.container_path in
        elim fine [ true ↦ link_mounts (λ n. calls (suc n)) w' ms | false ↦ (false, w') ]
