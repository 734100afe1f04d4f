-- ===== src/Runtime/Container.antt =====
-- The struct `Container` of procri/pkg/runtimeservice/container.go and the document that
-- encoding/json makes of it, by the tags of its fields.
use mathlib.Core.Option.{some-injective}
use luna_for_mac.Base.{String, ◌≡◌, refl, true, Option, none, some, List, ◌>>=◌, subst}
use luna_for_mac.Base.Int.{ℤ, is_int32, is_int64, is_uint32}
use luna_for_mac.Json.{
  Json, Fields, TextMap, DistinctKeys, null, num, str, arr, obj, end, field, of_texts, of_map,
  to_text, to_texts, to_map, to_int, find_field, read_field,
}
use luna_for_mac.Json.Laws.{
  to_texts-of_texts, to_map-of_map, read_int-fits, read_map-DistinctKeys, >>=-eq-some,
}

pub record Container : Type 0 where
  pub id : String
  pub pod_id : String
  pub name : String
  pub attempt : ℤ  -- uint32
  pub args : List String
  pub command : List String
  pub env : List String
  pub working_dir : String
  pub log_path : String
  pub pid : ℤ  -- int64
  pub created_at : ℤ  -- int64
  pub started_at : ℤ  -- int64
  pub finished_at : ℤ  -- int64
  pub exit_code : ℤ  -- int32
  pub image : String
  pub state : ℤ  -- int32
  pub labels : TextMap
  pub annotations : TextMap

-- The values that the Go types of the fields can hold.
pub record Fits (c : Container) : Type 0 where
  pub attempt : is_uint32 c.attempt ≡ true
  pub pid : is_int64 c.pid ≡ true
  pub created_at : is_int64 c.created_at ≡ true
  pub started_at : is_int64 c.started_at ≡ true
  pub finished_at : is_int64 c.finished_at ≡ true
  pub exit_code : is_int32 c.exit_code ≡ true
  pub state : is_int32 c.state ≡ true
  pub labels : DistinctKeys c.labels
  pub annotations : DistinctKeys c.annotations

container_fields : Container → Fields
container_fields c = field "id" (str c.id) (
    field "podID" (str c.pod_id) (
      field "name" (str c.name) (
        field "attempt" (num c.attempt) (
          field "args" (arr (of_texts c.args)) (
            field "command" (arr (of_texts c.command)) (
              field "env" (arr (of_texts c.env)) (
                field "workingDir" (str c.working_dir) (
                  field "logPath" (str c.log_path) (
                    field "pid" (num c.pid) (
                      field "createdAt" (num c.created_at) (
                        field "startedAt" (num c.started_at) (
                          field "finishedAt" (num c.finished_at) (
                            field "exitCode" (num c.exit_code) (
                              field "image" (str c.image) (
                                field "state" (num c.state) (
                                  field "labels" (obj (of_map c.labels)) (
                                    field "annotations" (obj (of_map c.annotations))
                                      end)))))))))))))))))

unfoldable pub of_container : Container → Json
unfolding container_fields
of_container c = obj (container_fields c)

container_of_fields : Fields → Option Container
container_of_fields fs = read_field to_text "id" fs >>= λ id.
    read_field to_text "podID" fs >>= λ pod_id. read_field to_text "name" fs >>= λ name.
    read_field (to_int is_uint32) "attempt" fs >>= λ attempt.
    read_field to_texts "args" fs >>= λ args. read_field to_texts "command" fs >>= λ command.
    read_field to_texts "env" fs >>= λ env. read_field to_text "workingDir" fs >>= λ working_dir.
    read_field to_text "logPath" fs >>= λ log_path. read_field (to_int is_int64) "pid" fs >>= λ pid.
    read_field (to_int is_int64) "createdAt" fs >>= λ created_at.
    read_field (to_int is_int64) "startedAt" fs >>= λ started_at.
    read_field (to_int is_int64) "finishedAt" fs >>= λ finished_at.
    read_field (to_int is_int32) "exitCode" fs >>= λ exit_code.
    read_field to_text "image" fs >>= λ image. read_field (to_int is_int32) "state" fs >>= λ state.
    read_field to_map "labels" fs >>= λ labels.
    read_field to_map "annotations" fs >>= λ annotations. some (record {
      id = id;
      pod_id = pod_id;
      name = name;
      attempt = attempt;
      args = args;
      command = command;
      env = env;
      working_dir = working_dir;
      log_path = log_path;
      pid = pid;
      created_at = created_at;
      started_at = started_at;
      finished_at = finished_at;
      exit_code = exit_code;
      image = image;
      state = state;
      labels = labels;
      annotations = annotations;
    })

unfoldable pub to_container : Json → Option Container
unfolding container_of_fields
to_container (obj fs) = container_of_fields fs
to_container null = container_of_fields end
to_container _ = none

-- A container whose fields are within the ranges of their Go types is read back from its document
-- as it was.
pub to_container-of_container : (c : Container) → Fits c → to_container (of_container c) ≡ some c
unfolding to_container of_container find_field
to_container-of_container c h =
    rw
      (
        h.attempt,
        to_texts-of_texts c.args,
        to_texts-of_texts c.command,
        to_texts-of_texts c.env,
        h.pid,
        h.created_at,
        h.started_at,
        h.finished_at,
        h.exit_code,
        h.state,
        to_map-of_map c.labels h.labels,
        to_map-of_map c.annotations h.annotations,
      )
      refl

container_of_fields-Fits : (fs : Fields) (c : Container) → container_of_fields fs ≡ some c → Fits c
unfolding container_of_fields
container_of_fields-Fits fs c e0 =
    let (id, p_id, e1) = >>=-eq-some (read_field to_text "id" fs) _ e0 in
    let (pod_id, p_pod_id, e2) = >>=-eq-some (read_field to_text "podID" fs) _ e1 in
    let (name, p_name, e3) = >>=-eq-some (read_field to_text "name" fs) _ e2 in
    let (attempt, p_attempt, e4) = >>=-eq-some (read_field (to_int is_uint32) "attempt" fs) _ e3 in
    let (args, p_args, e5) = >>=-eq-some (read_field to_texts "args" fs) _ e4 in
    let (command, p_command, e6) = >>=-eq-some (read_field to_texts "command" fs) _ e5 in
    let (env, p_env, e7) = >>=-eq-some (read_field to_texts "env" fs) _ e6 in
    let (working_dir, p_working_dir, e8) = >>=-eq-some (read_field to_text "workingDir" fs) _ e7 in
    let (log_path, p_log_path, e9) = >>=-eq-some (read_field to_text "logPath" fs) _ e8 in
    let (pid, p_pid, e10) = >>=-eq-some (read_field (to_int is_int64) "pid" fs) _ e9 in
    let (created_at, p_created_at, e11) =
      >>=-eq-some (read_field (to_int is_int64) "createdAt" fs) _ e10 in
    let (started_at, p_started_at, e12) =
      >>=-eq-some (read_field (to_int is_int64) "startedAt" fs) _ e11 in
    let (finished_at, p_finished_at, e13) =
      >>=-eq-some (read_field (to_int is_int64) "finishedAt" fs) _ e12 in
    let (exit_code, p_exit_code, e14) =
      >>=-eq-some (read_field (to_int is_int32) "exitCode" fs) _ e13 in
    let (image, p_image, e15) = >>=-eq-some (read_field to_text "image" fs) _ e14 in
    let (state, p_state, e16) = >>=-eq-some (read_field (to_int is_int32) "state" fs) _ e15 in
    let (labels, p_labels, e17) = >>=-eq-some (read_field to_map "labels" fs) _ e16 in
    let (annotations, p_annotations, e18) =
      >>=-eq-some (read_field to_map "annotations" fs) _ e17 in
    subst Fits (some-injective _ _ e18) (record {
      attempt = read_int-fits is_uint32 "attempt" fs attempt refl p_attempt;
      pid = read_int-fits is_int64 "pid" fs pid refl p_pid;
      created_at = read_int-fits is_int64 "createdAt" fs created_at refl p_created_at;
      started_at = read_int-fits is_int64 "startedAt" fs started_at refl p_started_at;
      finished_at = read_int-fits is_int64 "finishedAt" fs finished_at refl p_finished_at;
      exit_code = read_int-fits is_int32 "exitCode" fs exit_code refl p_exit_code;
      state = read_int-fits is_int32 "state" fs state refl p_state;
      labels = read_map-DistinctKeys "labels" fs labels p_labels;
      annotations = read_map-DistinctKeys "annotations" fs annotations p_annotations;
    })

-- What is read from the store fits the types of the fields.
pub to_container-Fits : (j : Json) (c : Container) → to_container j ≡ some c → Fits c
unfolding to_container
to_container-Fits (obj fs) c e = container_of_fields-Fits fs c e
to_container-Fits null c e = container_of_fields-Fits end c e
to_container-Fits _ c e = cc
