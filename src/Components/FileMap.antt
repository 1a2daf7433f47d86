-- ===== src/Components/FileMap.antt =====
-- cleanupHypervisorFileMap of internal/pkg/component/components/file_map.go: the sums of a component's
-- files are dropped, and the maps that this leaves empty with them.
use oneinfra.Base.{
  String, ◌≡◌, refl, Bool, false, ◌&&◌, Option, none, some, [], ◌∷◌, arith, ◌==◌, eq_iff,
  if◌then◌else◌,
}
use oneinfra.Dict
use oneinfra.Dict.{Dict, lookup-nil, lookup-delete, lookup-insert}
use oneinfra.Infra.Hypervisor.{
  FileMap, Hypervisor, NamespacedClusterFileMap, ClusterFileMap, ComponentFileMap,
}
use oneinfra.Infra.Pods.{PodCodecs}
use oneinfra.Infra.Files.{file_up_to_date, or_empty, component_files, or_empty}

-- Writes a map back under a key, or deletes the key if the map is empty.
abbrev pub put_or_delete : {V : Type 0} → String → Dict V → Dict (Dict V) → Dict (Dict V)
put_or_delete key [] entries = Dict.delete key entries
put_or_delete key (entry ∷ rest) entries = Dict.insert key (entry ∷ rest) entries

abbrev pub cleanup_cluster :
    String
    → String
    → String
    → NamespacedClusterFileMap
    → ClusterFileMap
    → Option ComponentFileMap
    → NamespacedClusterFileMap
cleanup_cluster cluster_namespace cluster_name component_name namespaces clusters none = namespaces
cleanup_cluster cluster_namespace cluster_name component_name namespaces clusters
      (some components) =
    put_or_delete cluster_namespace
      (put_or_delete cluster_name (Dict.delete component_name components) clusters) namespaces

abbrev pub cleanup_namespace :
    String
    → String
    → String
    → NamespacedClusterFileMap
    → Option ClusterFileMap
    → NamespacedClusterFileMap
cleanup_namespace cluster_namespace cluster_name component_name namespaces none = namespaces
cleanup_namespace cluster_namespace cluster_name component_name namespaces (some clusters) =
    cleanup_cluster cluster_namespace cluster_name component_name namespaces clusters
      (Dict.lookup cluster_name clusters)

abbrev pub cleanup_files :
    String → String → String → Option NamespacedClusterFileMap → Option NamespacedClusterFileMap
cleanup_files cluster_namespace cluster_name component_name none = none
cleanup_files cluster_namespace cluster_name component_name (some namespaces) = some (
    cleanup_namespace cluster_namespace cluster_name component_name namespaces
      (Dict.lookup cluster_namespace namespaces))

unfoldable pub cleanup_hypervisor_file_map : Hypervisor → String → String → String → Hypervisor
cleanup_hypervisor_file_map hypervisor cluster_namespace cluster_name component_name =
    record hypervisor {
      files = cleanup_files cluster_namespace cluster_name component_name hypervisor.files;
    }

module _ {V : Type 0} where
  lookup-put_or_delete :
      (key name : String) (m : Dict V) (entries : Dict (Dict V))
      → or_empty (Dict.lookup name (put_or_delete key m entries))
        ≡ (if key == name then m else or_empty (Dict.lookup name entries))
  lookup-put_or_delete key name [] entries = ground (arith, lookup-delete key name entries)
  lookup-put_or_delete key name (entry ∷ rest) entries =
      ground (arith, lookup-insert key name (entry ∷ rest) entries)

-- The files of a component in the map of a namespace.
abbrev pub FilesOf : Type 0
FilesOf = String → String → String → Option NamespacedClusterFileMap → FileMap

module _ (codecs : PodCodecs) (n c k n' c' k' : String) where
  abbrev pub is_same : Bool
  is_same = ((n == n') && (c == c')) && (k == k')

  cleanup_cluster-files :
      (namespaces : NamespacedClusterFileMap) (clusters : ClusterFileMap)
      → (o : Option ComponentFileMap) → Dict.lookup n namespaces ≡ some clusters
      → Dict.lookup c clusters ≡ o
      → component_files codecs n' c' k' (some (cleanup_cluster n c k namespaces clusters o))
        ≡ (if is_same then [] else component_files codecs n' c' k' (some namespaces))
  cleanup_cluster-files namespaces clusters none e f = ground (
    arith,
    eq_iff n n',
    eq_iff c c',
    lookup-nil {V = FileMap} k',
    lookup-nil {V = ComponentFileMap} c',
  )
  cleanup_cluster-files namespaces clusters (some components) e f = ground (
    arith,
    eq_iff n n',
    eq_iff c c',
    eq_iff k k',
    lookup-put_or_delete n n' (put_or_delete c (Dict.delete k components) clusters) namespaces,
    lookup-put_or_delete c c' (Dict.delete k components) clusters,
    lookup-delete k k' components,
    lookup-nil {V = FileMap} k',
    lookup-nil {V = ComponentFileMap} c',
  )

  cleanup_namespace-files :
      (namespaces : NamespacedClusterFileMap) (o : Option ClusterFileMap)
      → Dict.lookup n namespaces ≡ o
      → component_files codecs n' c' k' (some (cleanup_namespace n c k namespaces o))
        ≡ (if is_same then [] else component_files codecs n' c' k' (some namespaces))
  cleanup_namespace-files namespaces none e =
      ground (arith, eq_iff n n', lookup-nil {V = FileMap} k', lookup-nil {V = ComponentFileMap} c')
  cleanup_namespace-files namespaces (some clusters) e =
      cleanup_cluster-files namespaces clusters (Dict.lookup c clusters) e refl

  cleanup_files-files :
      (files : Option NamespacedClusterFileMap)
      → component_files codecs n' c' k' (cleanup_files n c k files)
        ≡ (if is_same then [] else component_files codecs n' c' k' files)
  cleanup_files-files none = ground (
    arith,
    lookup-nil {V = FileMap} k',
    lookup-nil {V = ComponentFileMap} c',
    lookup-nil {V = ClusterFileMap} n',
  )
  cleanup_files-files (some namespaces) =
      cleanup_namespace-files namespaces (Dict.lookup n namespaces) refl

-- After cleanupHypervisorFileMap for a component, FileUpToDate is false for each of its files, and
-- what it says of the files of all other components is as before.
pub file_up_to_date-cleanup_hypervisor_file_map :
    (codecs : PodCodecs) (hypervisor : Hypervisor)
    → (cluster_namespace cluster_name component_name namespace name component : String)
    → (host_path file_contents : String)
    → file_up_to_date codecs namespace name component
        (cleanup_hypervisor_file_map hypervisor cluster_namespace cluster_name component_name)
        host_path
        file_contents
      ≡ (if is_same codecs cluster_namespace cluster_name component_name namespace name component
          then false
          else file_up_to_date codecs namespace name component hypervisor host_path file_contents)
unfolding file_up_to_date cleanup_hypervisor_file_map
file_up_to_date-cleanup_hypervisor_file_map codecs hypervisor n c k n' c' k' path contents =
    ground (
      arith,
      cleanup_files-files codecs n c k n' c' k' hypervisor.files,
      lookup-nil {V = String} path,
    )
