-- ===== src/Lib.antt =====
-- Open PE Router: the controller of a router pod on a Kubernetes node.
--
-- The controller (internal/controller) watches the custom resources Underlay and VNI
-- (api/v1alpha1). A reconciliation numbers the node, converts the resources into a configuration of
-- FRR and into parameters of network interfaces (internal/conversion, with the addresses of
-- internal/ipam), hands the first to the reloader in the router's pod (internal/frr,
-- internal/frrconfig, cmd/reloader), finds the pod's network namespace through the container
-- runtime (internal/pods), and sets up the interfaces there and on the host
-- (internal/hostnetwork).
--
-- The files. A function keeps its name of the source in snake_case, and a body of a loop, a branch
-- or a closure that has a name of its own stands directly above the function.
--   Base          texts (lists of bytes), decimal numbers, lists, errors and results, and Exec: the
--                 functions that change a state and return a value or an error. What was changed
--                 before an error stays changed.
--   Net           package net and github.com/apparentlymart/go-cidr: addresses, prefixes, masks.
--   Api           api/v1alpha1/neighbor.go, underlay_types.go, vni_types.go
--   IpFamily      internal/ipfamily/ipfamily.go
--   Ipam          internal/ipam/ipam.go
--   Frr           internal/frr: config.go (Config, and its templateConfig in Template, which has
--                 internal/frr/templates), frr.go (Apply), parse.go (Parse). What FRR reads of a
--                 rendered configuration is said in Template/Commands.
--   HostNetwork   internal/hostnetwork: vrf.go (Vrf), bridge.go (Bridge), vxlan.go (Vxlan), veth.go
--                 (Veth), namespace.go (Namespace), properties.go (Properties), underlay.go
--                 (Underlay), vni.go (Vni, Cleanup, Route); the names of all of them (Names), the
--                 parameters (Params), the kernel (Netlink), what is relied on of it (Kernel, and Elsewhere
--                 for the other namespaces),
--                 what SetupVNI leaves (Setup), how its links are obtained (Replace), what
--                 several VNIs leave together (Joint), and what happens when all is in place
--                 already (Again)
--   Conversion    internal/conversion/frr_conversion.go (Timers, Frr), host_configuration.go (Host)
--   Pods          internal/pods/pods.go
--   FrrConfig     internal/frrconfig/updater.go and frrconfig.go, and the handler of
--                 cmd/reloader/main.go
--   Controller    internal/controller: controller.go and routerpod.go (Pod), nodes.go (Node),
--                 controller.go, frr.go and host_config.go (Reconcile), the registration with the
--                 manager in controller.go (Manager)
--   Logging       internal/logging/logging.go
--   Cmd           cmd/hostcontroller/main.go, and the start of cmd/reloader/main.go
--   CpTool        cmd/cp-tool/main.go
--   Tests         concrete addresses, resources, machines and a cluster
--
-- What is not under the repository is a parameter: the record Net for the textual forms of
-- addresses and for go-cidr, Netlink for the kernel and the network namespaces, Client for
-- Kubernetes, Runtime for the container runtime, Files for the file system, and functions for
-- encoding/json, os/exec, net/http and sort; Wiring and Predicates stand for the flags and
-- controller-runtime. What is relied on of them is said by the records Lawful (Net), AddKeeps,
-- NsLaws, LinksStay, Kernel, Elsewhere, Settled, Lists, Moves, Passes and HasRoom (Netlink), Reads (Client),
-- CallsStay (the calls outside of netlink), Documented (Predicates), Handles (file handles)
-- and Sorts (sort.Slice).
-- A Go map that is ranged over is the list of its entries in the order in which they are visited.
--
-- Bounds. Numbers of the resources are natural numbers without their width, since the program only
-- copies and compares them; the timers wrap around at 2^64, and so do the sums of the prefix
-- counters. The loop of findFreeRoutingTableID has 2^32 - 2 rounds, as in the source: that is enough
-- for fewer than 2^32 - 2 links. The printing of a number uses as much fuel as the number plus one,
-- of which no more than its digits are used.
--
-- text/template is written out for the templates of internal/frr/templates: a missing neighbor of a
-- VNI is the one error that their execution can have.
--
-- Not modelled: the template of BFD profiles, which nothing uses, logging, the generated code
-- of api/v1alpha1, the copy of a CNI library in internal/ns, contexts and timeouts, and the
-- closing of file and namespace handles by internal/hostnetwork. The text of an error is the
-- message that it begins with, without the values that are printed into it.
pub mod Base
pub mod Net
pub mod Api
pub mod IpFamily
pub mod Ipam
pub mod Frr
pub mod HostNetwork
pub mod Conversion
pub mod Pods
pub mod FrrConfig
pub mod Controller
pub mod Logging
pub mod Cmd
pub mod CpTool
pub mod Tests
