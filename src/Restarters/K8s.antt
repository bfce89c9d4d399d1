-- ===== src/Restarters/K8s.antt =====
-- common_k8s.go and `populateWithK8sRules` of storage_k8s.go: the map from the names of a node to its
-- pod, and the restart of a node by deleting its pod. The pods listed, and the client's answers, come
-- from the Kubernetes API.
use Prim.Native.String
use ydbops.Base.{
  ℕ, String, Bool, ◌&&◌, not, Option, none, some, List, [], ◌∷◌, ◌++◌, ◌==◌, if◌then◌else◌,
  text_comparable,
}
use ydbops.Base.Text.{itoa}
use ydbops.Collections.{get, put}
use ydbops.Cluster.{Node}
use ydbops.Restarters.Primitives.{FilterNodeParams, is_inclusive_filtering_unspecified}

pub record ContainerPort : Type 0 where
  pub name : String
  pub container_port : ℕ

pub record Container : Type 0 where
  pub name : String
  pub ports : List ContainerPort

pub record Pod : Type 0 where
  pub name : String
  pub hostname : String
  pub subdomain : String
  pub pod_namespace : String
  pub node_name : String
  pub containers : List Container

abbrev pub or_else {ℓ} : {A : Type ℓ} → Option A → Option A → Option A
or_else none b = b
or_else (some a) b = some a

-- The inner loop of `podInterconnectPort`: the first port with the name.
interconnect_port : List ContainerPort → Option ℕ
interconnect_port [] = none
interconnect_port (port ∷ ports) =
    if port.name == "interconnect" then some port.container_port else interconnect_port ports

-- `none` is the result -1.
unfoldable pub pod_interconnect_port : List Container → Option ℕ
unfolding interconnect_port
pod_interconnect_port [] = none
pod_interconnect_port (container ∷ containers) =
    let rest = pod_interconnect_port containers in
    if not (container.name == "ydb-storage") && not (container.name == "ydb-dynamic")
    then rest
    else or_else (interconnect_port container.ports) rest

-- `%s:%d`
abbrev pub with_port : String → ℕ → String
with_port name port = String.◌++◌ name (String.◌++◌ ":" (itoa port))

abbrev full_pod_fqdn : Pod → String
full_pod_fqdn pod = String.◌++◌ pod.hostname (
    String.◌++◌ "." (
      String.◌++◌ pod.subdomain
        (String.◌++◌ "." (String.◌++◌ pod.pod_namespace ".svc.cluster.local"))))

abbrev put_ports : List (String × String) → Pod → Option ℕ → List (String × String)
put_ports m pod none = m
put_ports m pod (some port) =
    put
      (put (put m (with_port pod.name port) pod.name) (with_port (full_pod_fqdn pod) port) pod.name)
      (with_port pod.node_name port) pod.name

-- One round of the loop of `prepareK8sState`.
unfoldable pub put_pod : List (String × String) → Pod → List (String × String)
unfolding pod_interconnect_port
put_pod m pod =
    put_ports
      (put (put (put m pod.name pod.name) (full_pod_fqdn pod) pod.name) pod.node_name pod.name) pod
      (pod_interconnect_port pod.containers)

unfoldable pub prepare_k8s_state : List (String × String) → List Pod → List (String × String)
prepare_k8s_state m [] = m
prepare_k8s_state m (pod ∷ pods) = prepare_k8s_state (put_pod m pod) pods

-- `continue` goes on with the next selected host, so a host that is listed twice adds the node twice.
add_for_hosts : List String → String → Node → List Node
add_for_hosts [] pod node = []
add_for_hosts (selected_host_fqdn ∷ hosts) pod node =
    let rest = add_for_hosts hosts pod node in
    if selected_host_fqdn == pod then node ∷ rest else rest

-- The map gives "" for a host that it lacks.
abbrev pod_of : List (String × String) → String → String
pod_of m host = elim (get m host) [ none ↦ "" | some pod ↦ pod ]

unfoldable pub select_by_pod : List String → List (String × String) → List Node → List Node
unfolding add_for_hosts
select_by_pod hosts fqdn_to_pod_name [] = []
select_by_pod hosts fqdn_to_pod_name (node ∷ nodes) =
    add_for_hosts hosts (pod_of fqdn_to_pod_name node.host) node
    ++ select_by_pod hosts fqdn_to_pod_name nodes

unfoldable pub populate_with_k8s_rules :
    List Node → FilterNodeParams → List (String × String) → List Node
unfolding select_by_pod
populate_with_k8s_rules nodes spec fqdn_to_pod_name =
    if is_inclusive_filtering_unspecified spec
    then nodes
    else select_by_pod spec.selected_hosts fqdn_to_pod_name nodes

-- Whether the API finds the pod, and whether it accepts the deletion.
pub record K8sClient : Type 0 where
  pub get_pod : String → Bool
  pub delete_pod : String → Bool

pub data PodError : Type 0 where
  unknown_pod pod_not_found delete_failed : PodError

-- The pod is the one of host and port, or else the one of the host. `none` is success.
unfoldable pub find_pod : List (String × String) → String → ℕ → Option String
find_pod fqdn_to_pod_name node_fqdn ic_port =
    or_else (get fqdn_to_pod_name (with_port node_fqdn ic_port)) (get fqdn_to_pod_name node_fqdn)

unfoldable pub restart_node_by_restarting_pod :
    K8sClient → List (String × String) → String → ℕ → Option PodError
restart_node_by_restarting_pod client fqdn_to_pod_name node_fqdn ic_port =
    elim (find_pod fqdn_to_pod_name node_fqdn ic_port) [
      | none ↦ some unknown_pod
      | some pod_name ↦
          if not (client.get_pod pod_name)
          then some pod_not_found
          else if client.delete_pod pod_name
          then none
          else some delete_failed
    ]
