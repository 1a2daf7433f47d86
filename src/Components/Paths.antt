-- ===== src/Components/Paths.antt =====
-- internal/pkg/component/components/paths.go, where `join_path` is filepath.Join of two parts.
use oneinfra.Base.{String}

abbrev pub global_secrets_path : String
global_secrets_path = "/etc/oneinfra/clusters"

abbrev pub global_storage_path : String
global_storage_path = "/var/lib/oneinfra/clusters"

module _ (join_path : String → String → String) where
  unfoldable pub namespaced_cluster_secrets_path : String → String
  namespaced_cluster_secrets_path cluster_namespace =
      join_path global_secrets_path cluster_namespace

  unfoldable pub cluster_secrets_path : String → String → String
  unfolding namespaced_cluster_secrets_path
  cluster_secrets_path cluster_namespace cluster_name =
      join_path (namespaced_cluster_secrets_path cluster_namespace) cluster_name

  unfoldable pub component_secrets_path : String → String → String → String
  unfolding cluster_secrets_path
  component_secrets_path cluster_namespace cluster_name component_name =
      join_path (cluster_secrets_path cluster_namespace cluster_name) component_name

  unfoldable pub namespaced_cluster_storage_path : String → String
  namespaced_cluster_storage_path cluster_namespace =
      join_path global_storage_path cluster_namespace

  unfoldable pub cluster_storage_path : String → String → String
  unfolding namespaced_cluster_storage_path
  cluster_storage_path cluster_namespace cluster_name =
      join_path (namespaced_cluster_storage_path cluster_namespace) cluster_name

  unfoldable pub component_storage_path : String → String → String → String
  unfolding cluster_storage_path
  component_storage_path cluster_namespace cluster_name component_name =
      join_path (cluster_storage_path cluster_namespace cluster_name) component_name

  unfoldable pub subcomponent_storage_path : String → String → String → String → String
  unfolding component_storage_path
  subcomponent_storage_path cluster_namespace cluster_name component_name subcomponent_name =
      join_path (component_storage_path cluster_namespace cluster_name component_name)
        subcomponent_name
