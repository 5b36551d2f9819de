-- ===== src/HostNetwork.antt =====
-- internal/hostnetwork: the interfaces of the host and of the router's network namespace.
pub mod Params
pub mod Netlink
pub mod Added
pub mod Kernel
pub mod Elsewhere
pub mod LinksStay
pub mod Assign
pub mod Setup
pub mod Replace
pub mod Names
pub mod Namespace
pub mod Properties
pub mod Vrf
pub mod Bridge
pub mod Vxlan
pub mod Veth
pub mod Kinds
pub mod Vni
pub mod Cleanup
pub mod Route
pub mod Underlay
pub mod Home
pub mod Joint
pub mod Again
