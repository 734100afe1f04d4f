-- ===== src/Image/FsInfo.antt =====
-- ImageFsInfo and NewImageService of procri/pkg/imageservice/imageservice.go.
use luna_for_mac.Base.{ℕ, String, List, [], ◌∷◌}
use luna_for_mac.Base.Int.{ℤ}

-- The service: an id that is made anew, and its data store.
record ImageService (Store : Type 0) : Type 0 where
  uuid : String
  data_store : Store

abbrev new_image_service : {Store : Type 0} → String → Store → ImageService Store
new_image_service fresh data_store = record { uuid = fresh; data_store = data_store }

-- cri.FilesystemUsage
record ImageFilesystem : Type 0 where
  timestamp : ℤ
  mountpoint : String
  used_bytes : ℕ
  inodes_used : ℕ

-- The time is that of the call.
abbrev image_fs_info : ℤ → List ImageFilesystem
image_fs_info now =
    (record { timestamp = now; mountpoint = "/"; used_bytes = 0; inodes_used = 0 }) ∷ []
