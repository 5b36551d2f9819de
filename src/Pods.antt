-- ===== src/Pods.antt =====
-- internal/pods/pods.go: the network namespace of a pod, found through the container runtime.
pub mod Paths
use pierre.Base.{
  Option, none, some, List, [], ◌∷◌, ◌++◌, Text, codes, eq_text, errorf, Result, ok, err,
  if◌then◌else◌, ◌==◌, ℕ,
}
use pierre.Base.Exec.{Exec, raise, lift, annotate, replace, ◌>>=◌}

-- A namespace of the OCI runtime specification.
pub record Namespace : Type 0 where
  pub type : Text
  pub path : Text

-- The container runtime, a client of which is the one field of the program's Runtime, and the library functions on its answers: ListPodSandbox, the identifiers
-- of the sandboxes of a pod (`none` for a nil answer); PodSandboxStatus, the value of its `Info` map
-- under "info" (`none` for a nil answer); and json.Unmarshal into a PodSandboxStatusInfo, of which
-- the namespaces are read.
pub record Runtime (State : Type 0) : Type 0 where
  pub list_pod_sandbox : Text → Exec State (Option (List Text))
  pub pod_sandbox_status : Text → Exec State (Option Text)
  pub unmarshal_namespaces : Text → Result (List Namespace)

-- runtimespec.NetworkNamespace
abbrev pub network_namespace_type : Text
network_namespace_type = codes "network"

abbrev slash : ℕ
slash = 47

-- The second result of path.Split, `file` being what stands behind the last slash so far.
split_from : Text → Text → Text
split_from file [] = file
split_from file (c ∷ cs) = split_from (if c == slash then cs else file) cs

unfoldable pub path_file : Text → Text
unfolding split_from
path_file path = split_from path path

-- The loop over the namespaces, which stops at the first network namespace.
unfoldable pub network_namespace_of : List Namespace → Text
unfolding path_file
network_namespace_of [] = []
network_namespace_of (n ∷ ns) =
    let later = network_namespace_of ns in
    if eq_text n.type network_namespace_type then path_file n.path else later

unfoldable pub non_empty : Text → Result Text
non_empty [] = err (errorf "failed to find network namespace")
non_empty (c ∷ cs) = ok (c ∷ cs)

unfoldable pub only : Option (List Text) → Result Text
only (some (id ∷ [])) = ok id
only (some (id ∷ j ∷ ids)) = err (errorf "ListPodSandbox returned more than 1 item")
only _ = err (errorf "ListPodSandbox returned 0 item")

unfoldable pub answered : Option Text → Result Text
answered none = err (errorf "failed to PodSandboxStatus")
answered (some info) = ok info

module _ {State : Type 0} (r : Runtime State) where
  open r use {list_pod_sandbox, pod_sandbox_status, unmarshal_namespaces}

  unfoldable pub pod_sandbox_id : Text → Exec State Text
  unfolding only
  pod_sandbox_id pod_uid = do
    sandboxes ← annotate "failed to ListPodSandbox" (list_pod_sandbox pod_uid)
    lift (only sandboxes)

  unfoldable pub network_namespace : Text → Exec State Text
  unfolding pod_sandbox_id answered network_namespace_of non_empty
  network_namespace pod_uid = do
    id ← pod_sandbox_id pod_uid
    status ← annotate "failed to PodSandboxStatus" (pod_sandbox_status id)
    info ← lift (answered status)
    namespaces ←
        annotate "failed to Unmarshal podSandboxStatus.Info" (lift (unmarshal_namespaces info))
    lift (non_empty (network_namespace_of namespaces))

-- NewRuntime and connect, up to the dialling of the endpoint, which is a parameter.
unfoldable pub cri_server_address : Text → Text
cri_server_address socket = codes "unix://" ++ socket

module _ {C S : Type 0} (dial : Text → Exec S C) where
  unfoldable pub connect : Text → Exec S C
  unfolding cri_server_address
  connect [] = raise (errorf "endpoint is not set")
  connect (c ∷ cs) = replace "error connecting to endpoint" (dial (cri_server_address (c ∷ cs)))

  unfoldable pub new_runtime : Text → Exec S C
  unfolding connect
  new_runtime [] = raise (errorf "path to CRI socket missing")
  new_runtime (c ∷ cs) = annotate "error establishing connection to CRI" (connect (c ∷ cs))
