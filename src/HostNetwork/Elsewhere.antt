-- ===== src/HostNetwork/Elsewhere.antt =====
-- What the program relies on of the calls that SetupVNI makes on the host, for the links of the
-- other namespaces: they change no link, or leave the VRFs and bridges of namespaces other than that
-- of the thread.
use pierre.Base.{ap, ℕ, subst, sym, ◌∙◌, ◌≡◌, ◌≢◌, Option, some, Text, ok}
use pierre.Base.Exec.{Exec, attempt, replace, lift}
use pierre.Base.Keeps.{Keeps, Keeps-bind, Keeps-lift, Keeps-attempt, Keeps-replace}
use pierre.HostNetwork.Netlink.{Netlink, Link}
use pierre.HostNetwork.Namespace.{in_namespace, restore}
use pierre.HostNetwork.Namespace.Restores.{NsLaws, in_namespace_restores}
use pierre.HostNetwork.Kernel.{View, IsBase, Stays, Same, Kernel}
use pierre.HostNetwork.LinksStay.{LinksStay}
use pierre.HostNetwork.Home.{At}

-- The VRFs and bridges of the namespaces other than that of the thread stay.
pub record Leaves {State Ns : Type 0} (v : View State Ns) (s t : State) : Type 0 where
  pub stays :
      (ns : Ns) (n : Text) (l : Link)
      → ns ≢ v.current s
      → IsBase l.kind
      → v.link s ns n ≡ some l
      → Stays l (v.link t ns n)
  pub current : v.current t ≡ v.current s

pub record Elsewhere {State Ns : Type 0} (nl : Netlink State Ns) (v : View State Ns) : Type 0 where
  pub link_by_index : (i : ℕ) (s : State) → Same v s (nl.link_by_index i s).1
  pub veth_peer_index : (l : Link) (s : State) → Same v s (nl.veth_peer_index l s).1
  pub ns_from_name : (n : Text) (s : State) → Same v s (nl.ns_from_name n s).1
  -- A link is added to the namespace of the thread, a veth with its peer there.
  pub link_add : (l : Link) (s : State) → Leaves v s (nl.link_add l s).1
  -- With a link, its peer in another namespace may go, but no VRF and no bridge.
  pub link_del : (l : Option Link) (s : State) → Leaves v s (nl.link_del l s).1
  -- A link is moved away from the namespace of the thread.
  pub link_set_ns_fd :
      (l : Option Link) (ns : Ns) (s : State) → Leaves v s (nl.link_set_ns_fd l ns s).1

module _ {State Ns : Type 0} (nl : Netlink State Ns) (v : View State Ns) (kernel : Kernel nl v)
    (away : Elsewhere nl v) (laws : NsLaws nl v.current) (home ns : Ns) (differs : ns ≢ home)
    (back : (t : State) → (nl.set_ns home t).0 ≡ ok tt) (m : Text) (l : Link)
    (base : IsBase l.kind) where
  -- The thread is at home, and a VRF or a bridge of the other namespace is there.
  pub record Awaits (s : State) : Type 0 where
    pub here : v.current s ≡ home
    pub stays : Stays l (v.link s ns m)

  Stays_as : (o p : Option Link) → p ≡ o → Stays l o → Stays l p
  Stays_as o p e k = record { now = k.now; there = e ∙ k.there; kind = k.kind; index = k.index }

  pub Awaits-Same :
      {A : Type 0} (x : Exec State A) → ((s : State) → Same v s (x s).1) → Keeps Awaits x
  Awaits-Same x q = record {
    after = λ s a. record {
      here = (q s).current ∙ a.here;
      stays = Stays_as (v.link s ns m) (v.link (x s).1 ns m) ((q s).links ns m) a.stays;
    };
  }

  Awaits-Leaves :
      {A : Type 0} (x : Exec State A) → ((s : State) → Leaves v s (x s).1) → Keeps Awaits x
  Awaits-Leaves x q = record {
    after = λ s a.
        let k = a.stays in
        let j =
          (q s).stays ns m k.now (λ e. differs (e ∙ a.here)) (subst IsBase (sym k.kind) base)
            k.there in
        record {
          here = (q s).current ∙ a.here;
          stays = record {
            now = j.now;
            there = j.there;
            kind = j.kind ∙ k.kind;
            index = j.index ∙ k.index;
          };
        };
  }

  -- A function that changes no link, in another namespace.
  abbrev There : State → Type 0
  There s = Stays l (v.link s ns m)

  There-Same :
      {A : Type 0} (x : Exec State A)
      → ((s : State) → v.link (x s).1 ns m ≡ v.link s ns m)
      → Keeps There x
  There-Same x q = record { after = λ s k. Stays_as (v.link s ns m) (v.link (x s).1 ns m) (q s) k }

  in_namespace-There :
      {A : Type 0} (other : Ns) (x : Exec State A)
      → Keeps There x
      → Keeps There (in_namespace nl other x)
  unfolding in_namespace restore
  in_namespace-There other x k =
      Keeps-bind (replace "failed to get current network namespace" nl.get_ns) _
        (Keeps-replace _ _ (There-Same nl.get_ns (λ s. (kernel.get_ns s).links ns m)))
        (λ orig.
          Keeps-bind (replace "failed to set current network namespace" (nl.set_ns other)) _
            (Keeps-replace _ _ (There-Same (nl.set_ns other) (λ s. kernel.set_links other s ns m)))
            (λ _. Keeps-bind (attempt x) (restore nl orig) (Keeps-attempt _ k) (λ r.
              Keeps-bind (attempt (nl.set_ns orig)) (λ _. lift r)
                (Keeps-attempt _ (There-Same (nl.set_ns orig) (λ s. kernel.set_links orig s ns m)))
                (λ _. Keeps-lift r))))

  pub home_again :
      {A : Type 0} (other : Ns) (x : Exec State A) (s : State)
      → v.current s ≡ home
      → v.current (in_namespace nl other x s).1 ≡ home
  home_again other x s here =
      in_namespace_restores nl v.current laws other x s
        (λ t. ap (λ (n : Ns). (nl.set_ns n t).0) here ∙ back t)
      ∙ here

  Awaits-in_namespace :
      {A : Type 0} (other : Ns) (x : Exec State A)
      → Keeps There x
      → Keeps Awaits (in_namespace nl other x)
  Awaits-in_namespace other x k = record {
    after = λ s a. record {
      here = home_again other x s a.here;
      stays = (in_namespace-There other x k).after s a.stays;
    };
  }

  pub looked_inside :
      (other : Ns) (index : ℕ) → Keeps Awaits (in_namespace nl other (nl.link_by_index index))
  looked_inside other index =
      Awaits-in_namespace other (nl.link_by_index index)
        (There-Same (nl.link_by_index index) (λ s. (away.link_by_index index s).links ns m))

  pub Awaits-LinksStay : LinksStay nl Awaits
  Awaits-LinksStay = record {
    link_by_name = λ n. Awaits-Same (nl.link_by_name n) (kernel.link_by_name n);
    link_by_index = λ i. Awaits-Same (nl.link_by_index i) (away.link_by_index i);
    link_list = Awaits-Same nl.link_list kernel.link_list;
    link_add = λ k. Awaits-Leaves (nl.link_add k) (away.link_add k);
    link_del = λ k. Awaits-Leaves (nl.link_del k) (away.link_del k);
    link_set_up = λ k. Awaits-Same (nl.link_set_up k) (kernel.link_set_up k);
    link_set_ns_fd = λ k n. Awaits-Leaves (nl.link_set_ns_fd k n) (away.link_set_ns_fd k n);
    veth_peer_index = λ k. Awaits-Same (nl.veth_peer_index k) (away.veth_peer_index k);
    addr_list = λ k. Awaits-Same (nl.addr_list k) (kernel.addr_list k);
    addr_add = λ k a. Awaits-Same (nl.addr_add k a) (kernel.addr_add k a);
    ns_from_name = λ n. Awaits-Same (nl.ns_from_name n) (away.ns_from_name n);
    get_ns = Awaits-Same nl.get_ns kernel.get_ns;
  }

module _ {State Ns : Type 0} (nl : Netlink State Ns) (v : View State Ns) (kernel : Kernel nl v)
    (away : Elsewhere nl v) (home : Ns) where
  stays_home :
      {A : Type 0} (x : Exec State A)
      → ((s : State) → v.current (x s).1 ≡ v.current s)
      → Keeps (At v.current home) x
  stays_home x q = record { after = λ s e. q s ∙ e }

  -- The calls leave the thread at home.
  pub home-LinksStay : LinksStay nl (At v.current home)
  home-LinksStay = record {
    link_by_name = λ n. stays_home (nl.link_by_name n) (λ s. (kernel.link_by_name n s).current);
    link_by_index = λ i. stays_home (nl.link_by_index i) (λ s. (away.link_by_index i s).current);
    link_list = stays_home nl.link_list (λ s. (kernel.link_list s).current);
    link_add = λ k. stays_home (nl.link_add k) (λ s. (away.link_add k s).current);
    link_del = λ k. stays_home (nl.link_del k) (λ s. (away.link_del k s).current);
    link_set_up = λ k. stays_home (nl.link_set_up k) (λ s. (kernel.link_set_up k s).current);
    link_set_ns_fd =
        λ k n. stays_home (nl.link_set_ns_fd k n) (λ s. (away.link_set_ns_fd k n s).current);
    veth_peer_index =
        λ k. stays_home (nl.veth_peer_index k) (λ s. (away.veth_peer_index k s).current);
    addr_list = λ k. stays_home (nl.addr_list k) (λ s. (kernel.addr_list k s).current);
    addr_add = λ k a. stays_home (nl.addr_add k a) (λ s. (kernel.addr_add k a s).current);
    ns_from_name = λ n. stays_home (nl.ns_from_name n) (λ s. (away.ns_from_name n s).current);
    get_ns = stays_home nl.get_ns (λ s. (kernel.get_ns s).current);
  }
