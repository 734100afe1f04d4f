-- ===== src/Runtime/Version.antt =====
-- Version of procri/pkg/runtimeservice/runtimeservice.go, with `convertToSemVer`.
use luna_for_mac.Base.{
  String, ◌≡◌, refl, List, ◌∷◌, ◌<>◌, split, Lacks, split-append, split-Lacks, split-cons,
}

abbrev first_of : String → List String → String
first_of version (p ∷ q ∷ ps) = p
first_of version parts = version

unfoldable pub convert_to_sem_ver : String → String
unfolding split
convert_to_sem_ver build_version = first_of build_version (split b'-' build_version)

-- cri.VersionResponse
pub record VersionResponse : Type 0 where
  pub version : String
  pub runtime_name : String
  pub runtime_version : String
  pub runtime_api_version : String

-- The version that the service was built with, and the request's version.
abbrev pub version : String → String → VersionResponse
version build_version requested = record {
  version = requested;
  runtime_name = "procri";
  runtime_version = convert_to_sem_ver build_version;
  runtime_api_version = "0.0.0";
}

-- When a tag without a dash is released, or is described by git with a dash and more behind it,
-- Version reports the tag as the runtime's version, and the request's version as its own.
pub version_lem :
    (tag rest requested : String)
    → Lacks b'-' tag
    → ((version tag requested).runtime_version ≡ tag)
      × ((version (tag <> ("-" <> rest)) requested).runtime_version ≡ tag)
      × ((version (tag <> ("-" <> rest)) requested).version ≡ requested)
unfolding convert_to_sem_ver
version_lem tag rest requested l = (
  rw (split-Lacks b'-' tag l) refl,
  let (w, ws, e) = split-cons b'-' rest in rw (split-append b'-' "-" tag rest l refl, e) refl,
  refl,
)
