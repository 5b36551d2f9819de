-- ===== src/HostNetwork/Kernel.antt =====
-- What the program relies on of the kernel, by what links a namespace has. The laws say of each
-- call what it does to the links, whether it fails or not.
use pierre.Base.{◌≡◌, ◌≢◌, ℕ, Option, none, some, List, Text, ok}
use pierre.HostNetwork.Netlink.{Netlink, Link, Kind, Address, new_link, vrf, bridge}

-- The links of each namespace by their names, and the namespace of the thread.
pub record View (State Ns : Type 0) : Type 0 where
  pub link : State → Ns → Text → Option Link
  pub current : State → Ns

-- A VRF or a bridge: a link that goes only when it is deleted itself.
abbrev pub IsBase : Kind → Type 0
IsBase (vrf _) = Unit
IsBase bridge = Unit
IsBase _ = ⊥

-- A link that is there in both states, but for its master.
pub record Stays (l : Link) (o : Option Link) : Type 0 where
  pub now : Link
  pub there : o ≡ some now
  pub kind : now.kind ≡ l.kind
  pub index : now.index ≡ l.index

module _ {State Ns : Type 0} (v : View State Ns) where
  -- Neither the links nor the namespace of the thread changed.
  pub record Same (s t : State) : Type 0 where
    pub links : (ns : Ns) (n : Text) → v.link t ns n ≡ v.link s ns n
    pub current : v.current t ≡ v.current s

  -- Of the links in the namespace of the thread, those that `P` is true of stay.
  pub record Spares (P : Text → Link → Type 0) (s t : State) : Type 0 where
    pub stays :
        (n : Text) (l : Link)
        → P n l
        → v.link s (v.current s) n ≡ some l
        → Stays l (v.link t (v.current s) n)
    pub current : v.current t ≡ v.current s

-- The calls that SetupVNI makes in the router's namespace.
pub record Kernel {State Ns : Type 0} (nl : Netlink State Ns) (v : View State Ns) : Type 0 where
  -- Calls that change no link.
  pub link_by_name : (n : Text) (s : State) → Same v s (nl.link_by_name n s).1
  pub link_list : (s : State) → Same v s (nl.link_list s).1
  pub link_set_up : (l : Option Link) (s : State) → Same v s (nl.link_set_up l s).1
  pub addr_list : (l : Option Link) (s : State) → Same v s (nl.addr_list l s).1
  pub addr_add : (l : Option Link) (a : Address) (s : State) → Same v s (nl.addr_add l a s).1
  pub open_file : (path : Text) (s : State) → Same v s (nl.open_file path s).1
  pub write_file : (file : ℕ) (text : Text) (s : State) → Same v s (nl.write_file file text s).1
  pub set_protinfo : (i j : ℕ) (b : List ℕ) (s : State) → Same v s (nl.set_protinfo i j b s).1
  -- A lookup finds the link of that name in the namespace of the thread.
  pub found :
      (n : Text) (s : State) (l : Link)
      → (nl.link_by_name n s).0 ≡ ok l
      → (v.link s (v.current s) n ≡ some l) × (l.name ≡ n)
  -- In one namespace, indices are unique.
  pub unique :
      (s : State) (ns : Ns) (n m : Text) (k l : Link)
      → v.link s ns n ≡ some k
      → v.link s ns m ≡ some l
      → k.index ≡ l.index
      → n ≡ m
  -- LinkAdd adds the link under its name, where it returns it, and takes no other away.
  pub link_add :
      (n : Text) (master : ℕ) (k : Kind) (s : State)
      → Spares v (λ m l. m ≢ n) s (nl.link_add (new_link n master k) s).1
  pub added :
      (n : Text) (master : ℕ) (k : Kind) (s : State) (l : Link)
      → (nl.link_add (new_link n master k) s).0 ≡ ok l
      → v.link (nl.link_add (new_link n master k) s).1 (v.current s) n ≡ some l
  -- LinkDel deletes a link by its index, or by its name if it has none, and with it perhaps others,
  -- such as the peer of a veth, but no VRF and no bridge.
  pub link_del :
      (l : Link) (s : State)
      → Spares v
          (λ n k. (n ≢ l.name) × (k.index ≢ l.index) × IsBase k.kind)
          s
          (nl.link_del (some l) s).1
  pub link_del_nil : (s : State) → Same v s (nl.link_del none s).1
  -- LinkSetMaster changes masters only.
  pub link_set_master :
      (l : Option Link) (master : Link) (s : State)
      → Spares v (λ n k. Unit {0}) s (nl.link_set_master l master s).1
  -- netns: the namespace of the thread, and its change.
  pub get_ns : (s : State) → Same v s (nl.get_ns s).1
  pub set_links :
      (n : Ns) (s : State) (ns : Ns) (k : Text) → v.link (nl.set_ns n s).1 ns k ≡ v.link s ns k
  pub set_ok : (n : Ns) (s : State) → (nl.set_ns n s).0 ≡ ok tt → v.current (nl.set_ns n s).1 ≡ n
