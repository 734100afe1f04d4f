-- ===== src/Runtime/Sandbox.antt =====
-- The struct `Sandbox` of procri/pkg/runtimeservice/podsandbox.go and the document that
-- encoding/json makes of it: its fields have no tags and keep their names.
use mathlib.Core.Option.{some-injective}
use luna_for_mac.Base.{String, ◌≡◌, refl, true, Option, none, some, List, ◌>>=◌, subst}
use luna_for_mac.Base.Int.{ℤ, is_int32, is_int64, is_uint32}
use luna_for_mac.Json.{
  Json, Fields, TextMap, DistinctKeys, null, num, str, arr, obj, end, field, of_texts, of_map,
  to_text, to_texts, to_map, to_int, find_field, read_field,
}
use luna_for_mac.Json.Laws.{
  to_texts-of_texts, to_map-of_map, read_int-fits, read_map-DistinctKeys, >>=-eq-some,
}

pub record Sandbox : Type 0 where
  pub id : String
  pub name : String
  pub namespace : String
  pub uid : String
  pub attempt : ℤ  -- uint32
  pub created_at : ℤ  -- int64
  pub hostname : String
  pub log_directory : String
  pub state : ℤ  -- int32
  pub labels : TextMap
  pub annotations : TextMap
  pub containers : List String

-- The values that the Go types of the fields can hold.
pub record Fits (c : Sandbox) : Type 0 where
  pub attempt : is_uint32 c.attempt ≡ true
  pub created_at : is_int64 c.created_at ≡ true
  pub state : is_int32 c.state ≡ true
  pub labels : DistinctKeys c.labels
  pub annotations : DistinctKeys c.annotations

sandbox_fields : Sandbox → Fields
sandbox_fields c = field "ID" (str c.id) (
    field "Name" (str c.name) (
      field "Namespace" (str c.namespace) (
        field "UID" (str c.uid) (
          field "Attempt" (num c.attempt) (
            field "CreatedAt" (num c.created_at) (
              field "Hostname" (str c.hostname) (
                field "LogDirectory" (str c.log_directory) (
                  field "State" (num c.state) (
                    field "Labels" (obj (of_map c.labels)) (
                      field "Annotations" (obj (of_map c.annotations))
                        (field "Containers" (arr (of_texts c.containers)) end)))))))))))

unfoldable pub of_sandbox : Sandbox → Json
unfolding sandbox_fields
of_sandbox c = obj (sandbox_fields c)

sandbox_of_fields : Fields → Option Sandbox
sandbox_of_fields fs = read_field to_text "ID" fs >>= λ id. read_field to_text "Name" fs >>= λ name.
    read_field to_text "Namespace" fs >>= λ namespace. read_field to_text "UID" fs >>= λ uid.
    read_field (to_int is_uint32) "Attempt" fs >>= λ attempt.
    read_field (to_int is_int64) "CreatedAt" fs >>= λ created_at.
    read_field to_text "Hostname" fs >>= λ hostname.
    read_field to_text "LogDirectory" fs >>= λ log_directory.
    read_field (to_int is_int32) "State" fs >>= λ state. read_field to_map "Labels" fs >>= λ labels.
    read_field to_map "Annotations" fs >>= λ annotations.
    read_field to_texts "Containers" fs >>= λ containers. some (record {
      id = id;
      name = name;
      namespace = namespace;
      uid = uid;
      attempt = attempt;
      created_at = created_at;
      hostname = hostname;
      log_directory = log_directory;
      state = state;
      labels = labels;
      annotations = annotations;
      containers = containers;
    })

unfoldable pub to_sandbox : Json → Option Sandbox
unfolding sandbox_of_fields
to_sandbox (obj fs) = sandbox_of_fields fs
to_sandbox null = sandbox_of_fields end
to_sandbox _ = none

-- A sandbox whose fields are within the ranges of their Go types is read back from its document as
-- it was.
pub to_sandbox-of_sandbox : (c : Sandbox) → Fits c → to_sandbox (of_sandbox c) ≡ some c
unfolding to_sandbox of_sandbox find_field
to_sandbox-of_sandbox c h =
    rw
      (
        h.attempt,
        h.created_at,
        h.state,
        to_map-of_map c.labels h.labels,
        to_map-of_map c.annotations h.annotations,
        to_texts-of_texts c.containers,
      )
      refl

sandbox_of_fields-Fits : (fs : Fields) (c : Sandbox) → sandbox_of_fields fs ≡ some c → Fits c
unfolding sandbox_of_fields
sandbox_of_fields-Fits fs c e0 =
    let (id, p_id, e1) = >>=-eq-some (read_field to_text "ID" fs) _ e0 in
    let (name, p_name, e2) = >>=-eq-some (read_field to_text "Name" fs) _ e1 in
    let (namespace, p_namespace, e3) = >>=-eq-some (read_field to_text "Namespace" fs) _ e2 in
    let (uid, p_uid, e4) = >>=-eq-some (read_field to_text "UID" fs) _ e3 in
    let (attempt, p_attempt, e5) = >>=-eq-some (read_field (to_int is_uint32) "Attempt" fs) _ e4 in
    let (created_at, p_created_at, e6) =
      >>=-eq-some (read_field (to_int is_int64) "CreatedAt" fs) _ e5 in
    let (hostname, p_hostname, e7) = >>=-eq-some (read_field to_text "Hostname" fs) _ e6 in
    let (log_directory, p_log_directory, e8) =
      >>=-eq-some (read_field to_text "LogDirectory" fs) _ e7 in
    let (state, p_state, e9) = >>=-eq-some (read_field (to_int is_int32) "State" fs) _ e8 in
    let (labels, p_labels, e10) = >>=-eq-some (read_field to_map "Labels" fs) _ e9 in
    let (annotations, p_annotations, e11) =
      >>=-eq-some (read_field to_map "Annotations" fs) _ e10 in
    let (containers, p_containers, e12) = >>=-eq-some (read_field to_texts "Containers" fs) _ e11 in
    subst Fits (some-injective _ _ e12) (record {
      attempt = read_int-fits is_uint32 "Attempt" fs attempt refl p_attempt;
      created_at = read_int-fits is_int64 "CreatedAt" fs created_at refl p_created_at;
      state = read_int-fits is_int32 "State" fs state refl p_state;
      labels = read_map-DistinctKeys "Labels" fs labels p_labels;
      annotations = read_map-DistinctKeys "Annotations" fs annotations p_annotations;
    })

-- What is read from the store fits the types of the fields.
pub to_sandbox-Fits : (j : Json) (c : Sandbox) → to_sandbox j ≡ some c → Fits c
unfolding to_sandbox
to_sandbox-Fits (obj fs) c e = sandbox_of_fields-Fits fs c e
to_sandbox-Fits null c e = sandbox_of_fields-Fits end c e
to_sandbox-Fits _ c e = cc
