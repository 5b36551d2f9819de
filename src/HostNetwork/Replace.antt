-- ===== src/HostNetwork/Replace.antt =====
-- internal/hostnetwork: setupVRF, setupBridge and setupVeth get their link whatever stands under its
-- name (vrf.go, bridge.go and veth.go).
use Prim.Native.String.{String}
use pierre.Base.{
  ℕ, ◌-◌, ◌<◌, ◌≡◌, true, Option, none, some, List, length, Text, Result, ok, err, Error,
  is_not_found,
}
use pierre.Base.Exec.{Exec}
use pierre.Base.Ends.{Ends}
use pierre.HostNetwork.Netlink.{Netlink, Link, Kind, new_link}
use pierre.HostNetwork.Added.{AddKeeps}
use pierre.HostNetwork.Kernel.{View, Kernel}
use pierre.HostNetwork.Vrf
use pierre.HostNetwork.Vrf.{max_uint32, vrf_table}
use pierre.HostNetwork.Bridge
use pierre.HostNetwork.Bridge.{is_bridge}
use pierre.HostNetwork.Veth
use pierre.HostNetwork.Veth.{is_veth}

-- What the program relies on of a kernel that has room, in the namespace of the thread: a lookup
-- answers by what is there, fewer links are listed than there are routing tables, a link that is
-- there can be deleted and then its name is free, and a link can be added under a name that is free.
pub record HasRoom {State Ns : Type 0} (nl : Netlink State Ns) (v : View State Ns) : Type 0 where
  pub finds :
      (n : Text) (s : State) (l : Link)
      → v.link s (v.current s) n ≡ some l
      → (nl.link_by_name n s).0 ≡ ok l
  pub misses :
      (n : Text) (s : State)
      → v.link s (v.current s) n ≡ none
      → (e : Error) × ((nl.link_by_name n s).0 ≡ err e) × (is_not_found e ≡ true)
  pub lists :
      (s : State) → (ls : List Link) × ((nl.link_list s).0 ≡ ok ls) × (length ls < max_uint32 - 1)
  pub deletes :
      (l : Link) (s : State)
      → v.link s (v.current s) l.name ≡ some l
      → ((nl.link_del (some l) s).0 ≡ ok tt)
        × (v.link (nl.link_del (some l) s).1 (v.current s) l.name ≡ none)
  pub adds :
      (n : Text) (master : ℕ) (k : Kind) (s : State)
      → v.link s (v.current s) n ≡ none
      → (l : Link) × ((nl.link_add (new_link n master k) s).0 ≡ ok l)

-- The types of links that are asked for.
abbrev pub IsVrf : Kind → Type 0
IsVrf k = (table : ℕ) × (vrf_table k ≡ some table)

abbrev pub IsBridge : Kind → Type 0
IsBridge k = is_bridge k ≡ true

abbrev pub IsVeth : Kind → Type 0
IsVeth k = is_veth k ≡ true

module _ {State Ns : Type 0} (nl : Netlink State Ns) (v : View State Ns) (kernel : Kernel nl v)
    (room : HasRoom nl v) (keeps : AddKeeps nl) where
  -- What stands under a name, in the namespace of the thread.
  abbrev At : Text → Option Link → State → Type 0
  At name o s = v.link s (v.current s) name ≡ o

  abbrev pub Stands : Text → Link → State → Type 0
  Stands name l = At name (some l)

  -- A link of the right type stands there.
  abbrev pub Ready : (Kind → Type 0) → Text → Link → State → Type 0
  Ready P name l s = Stands name l s × P l.kind

  -- The result of the lookup of a name, and what stands under it.
  abbrev Looked : Text → Result Link → State → Type 0
  Looked name (ok l) s = Stands name l s
  Looked name (err e) s = (is_not_found e ≡ true) × At name none s

  abbrev Found : Text → Option Link → State → Type 0
  Found name o s = (l : Link) × (o ≡ some l) × Stands name l s
