-- ===== src/Lib.antt =====
-- oneinfra runs Kubernetes clusters as a service: control planes run as pods on hypervisors, and
-- reconcilers bring hypervisors, components and clusters to the state that their specifications
-- ask for. This library models the parts of the program that decide something, and leaves out what
-- only calls other programs.
--
-- Dict.antt is Go's map. Base.antt and its children hold the names and the helpers that all share,
-- and errors as values; Base/Actions.antt has chains of calls on a state, with the rules to prove what
-- they ensure and keep.
--
-- Infra.antt models internal/pkg/infra. Infra/Hypervisor.antt is the data. Infra/Ports.antt has
-- HasPort, RequestPort and FreePort of hypervisor.go; its children have the invariant of the
-- allocations, that it is kept, what a client sees, what a request grants, and runs of any length. Infra/Listing.antt has
-- the lists of hypervisors and Sample. Infra/Versioned.antt has the conversions from and to the API
-- types of apis/infra/v1alpha1, with the connection pool of hypervisor_connection_pool.go.
--
-- Infra/Pods.antt has the pods of internal/pkg/infra/pod/pod.go and their configuration, and a
-- record of the calls of a container runtime, over which its children model hypervisor.go:
-- Infra/Pods/Images.antt has EnsureImages, Infra/Pods/Deleting.antt ListPods, ListAllPods, DeletePods
-- and DeletePod, Infra/Pods/Ensuring.antt IsPodRunning and EnsurePod, and Infra/Pods/Waiting.antt
-- WaitForPod and RunAndWaitForPod. Infra/Files.antt has UploadFiles and FileUpToDate.
--
-- Components.antt models the inquirer of internal/pkg/reconciler/inquirer.go: the components and
-- hypervisors are a store that the kinds of components of internal/pkg/component/components share.
-- Components/Ports.antt has PreReconcile of control_plane.go and control_plane_ingress.go,
-- Components/Etcd.antt and Components/Etcd/Membership.antt the membership of etcd.go,
-- Components/Leaving.antt what ReconcileDeletion does, Components/FileMap.antt file_map.go and
-- Components/Paths.antt paths.go. Components/Store.antt and Components/World.antt have the lemmas on
-- the store and on what lies beyond it.
--
-- Reconciler.antt models internal/pkg/reconciler/reconcile_errors.go, and Reconciler/Components.antt
-- the loops of internal/pkg/component/reconciler/reconciler.go, over the interface that the kinds of
-- components implement. Reconciler/Clusters.antt and Reconciler/Clusters/Steps.antt model
-- internal/pkg/cluster/reconciler/reconciler.go. JoinTokens.antt models internal/pkg/cluster/join_tokens.go;
-- JoinTokens/Contents.antt follows what the secrets hold.
--
-- Vpn.antt models the peers of internal/pkg/cluster/vpn.go, and how internal/pkg/cluster/cluster.go
-- gives them addresses; Vpn/Slices.antt is about the bytes of these. Utils.antt models internal/pkg/utils/lists.go, and Conditions.antt models
-- internal/pkg/conditions/conditions.go, with the clock as a parameter.
--
-- Component.antt models internal/pkg/component/component.go: a component asks its hypervisor for
-- host ports under a name of its own, and remembers them. Component/Names.antt has the names of the
-- host ports, Component/HostPorts.antt and Component/Sharing.antt relate what components remember
-- to what their hypervisor has allocated, Component/Listing.antt models component_list.go, and
-- Component/Versioned.antt has the conversions.
--
-- Controllers.antt has what the controllers share, with listHypervisors of controllers/listing.go;
-- Controllers/Scheduler.antt models Reconcile of controllers/component_scheduler.go, with what it writes
-- back in Controllers/Scheduler/Written.antt, and
-- Controllers/Clusters.antt that of controllers/cluster_controller.go.
--
-- Examples.antt and its children apply the theorems to concrete inputs.
--
-- Numbers are natural numbers where the program never has negative ones, as for ports and lengths; the
-- number of replicas that a cluster asks for is an integer (Base/Integers.antt). Strings are
-- compared as in Go. A pointer to an object that is changed in place is an object that goes in and
-- comes out. A Go map is the list of its entries in the order of a range loop; a statement about a
-- map does not depend on that order. Loops over lists are structural, and the loops of etcd.go have
-- the rounds that the source gives them, 60 and 300. WaitForPod alone has no bound in the source: the
-- model has a number of rounds, with `none` for a wait that is not over by then, and any number above
-- the round in which the wait is over gives the same result. What is no code of the repository is a
-- parameter: the API server, the container runtime, the client of etcd, the encoders of JSON and YAML,
-- the sums, filepath.Join, sort.Strings, rand.Intn and the clock. What such code is known to do is a
-- record of laws, and the tests have one instance of each. Log messages are left out, and an error is
-- its format with its arguments.
-- In Reconciler/Components.antt a method changes the component that it is called for and what lies
-- beyond the list; that the methods of etcd.go may also record a host port in other components of the
-- list is not seen by its loop. The call that makes the client of etcd is a parameter, with the
-- certificates that it adds to the component.
-- Not modelled are the certificates and the arguments of the pods that Reconcile of a component
-- writes, the conversions of clusters and their addresses, keys and kubeconfigs, the node that joins a
-- cluster, the command lines, and the generated clients.
pub mod Base
pub mod Dict
pub mod Infra
pub mod Utils
pub mod Vpn
pub mod Conditions
pub mod Component
pub mod Components
pub mod Reconciler
pub mod JoinTokens
pub mod Controllers
pub mod Examples
