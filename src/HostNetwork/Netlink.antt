-- ===== src/HostNetwork/Netlink.antt =====
-- The libraries under internal/hostnetwork: github.com/vishvananda/netlink and netns, and the files
-- of /proc. Their data types are written out as far as they are used; their functions, which act on
-- the network namespace that the thread is in, are the record `Netlink`. A link that may be `nil`
-- is an Option.
use pierre.Base.{ℕ, ℤ, Bool, Option, List, Text, codes, Result}
use pierre.Base.Exec.{Exec}
use pierre.Net.{Ip, IpNet}

-- The fields of netlink.Vxlan that are used.
pub record VxlanAttrs : Type 0 where
  pub vxlan_id : ℤ
  pub port : ℤ
  pub learning : Bool
  pub src_addr : Option Ip
  pub vtep_dev_index : ℕ

-- The Go type of a netlink.Link.
pub data Kind : Type 0 where
  dummy : Kind
  bridge : Kind
  veth : Text → Kind  -- PeerName
  vrf : ℕ → Kind  -- Table, a uint32
  vxlan : VxlanAttrs → Kind
  other : Text → Kind

pub record Link : Type 0 where
  pub index : ℕ
  pub name : Text
  pub master_index : ℕ
  pub kind : Kind

-- Link.Type()
unfoldable pub link_type : Kind → Text
link_type dummy = codes "dummy"
link_type bridge = codes "bridge"
link_type (veth _) = codes "veth"
link_type (vrf _) = codes "vrf"
link_type (vxlan _) = codes "vxlan"
link_type (other t) = t

-- A link that the program creates has no index yet.
abbrev pub new_link : Text → ℕ → Kind → Link
new_link name master kind = record { index = 0; name = name; master_index = master; kind = kind }

pub record Address : Type 0 where
  pub net : IpNet
  pub flags : ℕ

pub record Route : Type 0 where
  pub table : ℕ
  pub dst : IpNet
  pub link_index : ℕ

pub record Netlink (State Ns : Type 0) : Type 0 where
  pub link_by_name : Text → Exec State Link
  pub link_by_index : ℕ → Exec State Link
  pub link_list : Exec State (List Link)
  -- LinkAdd stores the index of the new link in its argument: the link with its index is returned.
  pub link_add : Link → Exec State Link
  pub link_del : Option Link → Exec State Unit
  pub link_set_up : Option Link → Exec State Unit
  pub link_set_master : Option Link → Link → Exec State Unit
  pub link_set_ns_fd : Option Link → Ns → Exec State Unit
  pub veth_peer_index : Link → Exec State ℕ
  pub parse_addr : Text → Result Address
  pub addr_list : Option Link → Exec State (List Address)
  pub addr_add : Option Link → Address → Exec State Unit
  pub addr_del : Option Link → Address → Exec State Unit
  -- RouteListFiltered over IPv4, by destination and table.
  pub route_list_filtered : Route → Exec State (List Route)
  pub route_add : Route → Exec State Unit
  -- netns.GetFromName, Get and Set
  pub ns_from_name : Text → Exec State Ns
  pub get_ns : Exec State Ns
  pub set_ns : Ns → Exec State Unit
  -- os.OpenFile for writing, and a write to the file.
  pub open_file : Text → Exec State ℕ
  pub write_file : ℕ → Text → Exec State Unit
  -- RTM_SETLINK for the bridge port of an index, with one nested IFLA_PROTINFO attribute.
  pub set_protinfo : ℕ → ℕ → List ℕ → Exec State Unit
