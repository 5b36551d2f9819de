-- ===== src/HostNetwork/Setup/BridgeLink.antt =====
-- internal/hostnetwork/bridge.go: setupBridge leaves a bridge of its name.
use pierre.Base.{ap, ◌≡◌, true, Option, none, some, Text, Result, ok, err, Bool-cases, inl, inr}
use pierre.Base.Exec.{attempt, annotate, replace}
use pierre.Base.Triple.{
  Triple, Triple-bind, Triple-annotate, Triple-replace, Triple-pure, Triple-given,
}
use pierre.HostNetwork.Netlink.{Netlink, Link, new_link, bridge}
use pierre.HostNetwork.Added.{AddKeeps}
use pierre.HostNetwork.Kernel.{View, Kernel}
use pierre.HostNetwork.Setup.{
  Inv, Named, Found, Looked, Held, lookup_lem, add_lem, replaced_lem, created_lem, Found-stays,
  addr_gen_triple, Deletable,
}
use pierre.HostNetwork.Params.{VniParams}
use pierre.HostNetwork.Names.{bridge_name}
use pierre.HostNetwork.Bridge
use pierre.HostNetwork.Bridge.{is_bridge, create_bridge, ensure_bridge, setup_bridge}
use pierre.HostNetwork.Properties.{addr_gen_mode_none}

abbrev pub IsBridge : Link → Type 0
IsBridge l = is_bridge l.kind ≡ true

module _ {State Ns : Type 0} (nl : Netlink State Ns) (v : View State Ns) (kernel : Kernel nl v)
    (keeps : AddKeeps nl) (ns : Ns) (params : VniParams) (vrf_link : Link) (s0 : State) where
  abbrev name : Text
  name = bridge_name params.vni

  abbrev I : State → Type 0
  I = Inv nl v kernel ns name s0

  abbrev At : (Link → Type 0) → Link → State → Type 0
  At P l t = Found nl v kernel ns name s0 l t × P l

  create_bridge_triple : Triple I (create_bridge nl name vrf_link.index) (At IsBridge)
  unfolding create_bridge
  create_bridge_triple = Triple-replace _ _ (
      add_lem nl v kernel ns name s0 IsBridge vrf_link.index bridge (λ s t l h.
        let (named, _, kind) = keeps (new_link name vrf_link.index bridge) l s t h in
        (named, ap is_bridge kind)))

  replace_bridge_triple :
      (link : Option Link)
      → Deletable nl v kernel ns name s0 link
      → Triple I (Bridge.replace_bridge nl name vrf_link.index link) (At IsBridge)
  unfolding Bridge.replace_bridge
  replace_bridge_triple link d =
      replaced_lem nl v kernel ns name s0 IsBridge (create_bridge nl name vrf_link.index)
        create_bridge_triple "failed to delete link" "failed to create bridge" link d

  checked_triple :
      (link : Option Link)
      → Triple
          (Held nl v kernel ns name s0 link)
          (Bridge.checked nl name vrf_link.index link)
          (At IsBridge)
  unfolding Bridge.checked
  checked_triple none = replace_bridge_triple none tt
  checked_triple (some l) = elim (Bool-cases (is_bridge l.kind)) [
    | inl e ↦ rw (e, Bridge.checked) (Triple-pure l (λ s f. (f, e)))
    | inr e ↦
        rw (e, Bridge.checked)
          (Triple-given {F = Named nl v kernel ns name s0 l}
            (Bridge.replace_bridge nl name vrf_link.index (some l)) (λ s f. (f.named, f.inv))
            (λ d. replace_bridge_triple (some l) d))
  ]

  found_triple :
      (r : Result Link)
      → Triple
          (Looked nl v kernel ns name s0 r)
          (Bridge.found_or_created nl name vrf_link.index r)
          (Held nl v kernel ns name s0)
  unfolding Bridge.found_or_created
  found_triple (ok l) = Triple-pure (some l) (λ s f. f)
  found_triple (err e) =
      created_lem nl v kernel ns name s0 IsBridge (create_bridge nl name vrf_link.index)
        create_bridge_triple "failed to create bridge" e

  -- Where setupBridge succeeds, a bridge of the name is there, and the other VRFs and bridges still
  -- are.
  pub setup_bridge_triple : Triple I (setup_bridge nl params vrf_link) (At IsBridge)
  unfolding setup_bridge ensure_bridge addr_gen_mode_none
  setup_bridge_triple =
      Triple-bind (At IsBridge) (ensure_bridge nl name vrf_link.index) _
        (Triple-bind (Looked nl v kernel ns name s0) (attempt (nl.link_by_name name)) _
          (lookup_lem nl v kernel ns name s0)
          (λ r.
            Triple-bind (Held nl v kernel ns name s0)
              (Bridge.found_or_created nl name vrf_link.index r) _ (found_triple r)
              (λ link. checked_triple link)))
        (λ l.
          Triple-bind (λ _. At IsBridge l)
            (annotate "failed to set addr_gen_mode to 1" (addr_gen_mode_none nl l)) _
            (Triple-annotate _ _ (addr_gen_triple nl v kernel ns name s0 IsBridge l))
            (λ _.
              Triple-bind (λ _. At IsBridge l)
                (replace "could not set link up for bridge" (nl.link_set_up (some l))) _
                (Triple-replace _ _ (
                  Found-stays nl v kernel ns name s0 IsBridge l (nl.link_set_up (some l))
                    (kernel.link_set_up (some l))))
                (λ _. Triple-pure l (λ s f. f))))
