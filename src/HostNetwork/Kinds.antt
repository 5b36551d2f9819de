-- ===== src/HostNetwork/Kinds.antt =====
-- internal/hostnetwork: what setupVRF, setupBridge and setupVeth go on with has the right type
-- (vrf.go, bridge.go and veth.go).
use pierre.Base.{ℕ, ◌≡◌, refl, true, Option, none, some, Text, Bool-cases, inl, inr}
use pierre.Base.Exec.{
  attempt, annotate, Ensures, Ensures-bind, Ensures-annotate, Ensures-replace, Ensures-pure,
}
use pierre.HostNetwork.Netlink.{Netlink, Link, bridge, veth, new_link}
use pierre.HostNetwork.Names.{veth_legs_for_vrf}
use pierre.HostNetwork.Added.{AddKeeps}
use pierre.HostNetwork.Bridge
use pierre.HostNetwork.Bridge.{is_bridge, ensure_bridge, create_bridge}
use pierre.HostNetwork.Veth
use pierre.HostNetwork.Veth.{is_veth, ensure_veth, create_veth}

module _ {State Ns : Type 0} (nl : Netlink State Ns) (keeps : AddKeeps nl) where
  created_bridge :
      (name : Text) (vrf_index : ℕ)
      → Ensures (λ (l : Link). is_bridge l.kind ≡ true) (create_bridge nl name vrf_index)
  unfolding create_bridge
  created_bridge name vrf_index =
      Ensures-replace "could not create bridge" (nl.link_add (new_link name vrf_index bridge))
        (record { at = λ s t l h. let (_, _, kind) = keeps _ l s t h in rw kind refl })

  replaced_bridge :
      (name : Text) (vrf_index : ℕ) (link : Option Link)
      → Ensures
          (λ (l : Link). is_bridge l.kind ≡ true)
          (Bridge.replace_bridge nl name vrf_index link)
  unfolding Bridge.replace_bridge
  replaced_bridge name vrf_index link =
      Ensures-bind (annotate "failed to delete link" (nl.link_del link)) _ (λ _.
        Ensures-annotate "failed to create bridge" (create_bridge nl name vrf_index)
          (created_bridge name vrf_index))

  checked_bridge :
      (name : Text) (vrf_index : ℕ) (link : Option Link)
      → Ensures (λ (l : Link). is_bridge l.kind ≡ true) (Bridge.checked nl name vrf_index link)
  unfolding Bridge.checked
  checked_bridge name vrf_index none = replaced_bridge name vrf_index none
  checked_bridge name vrf_index (some l) = elim (Bool-cases (is_bridge l.kind)) [
    | inl e ↦ rw e (Ensures-pure l e)
    | inr e ↦ rw e (replaced_bridge name vrf_index (some l))
  ]

  -- Where setupBridge goes on, it goes on with a bridge, whatever link had the name before. LinkAdd
  -- changes nothing of its argument but the index.
  ensure_bridge_lem :
      (name : Text) (vrf_index : ℕ)
      → Ensures (λ (l : Link). is_bridge l.kind ≡ true) (ensure_bridge nl name vrf_index)
  unfolding ensure_bridge
  ensure_bridge_lem name vrf_index = Ensures-bind (attempt (nl.link_by_name name)) _ (λ r.
      Ensures-bind (Bridge.found_or_created nl name vrf_index r) _
        (λ link. checked_bridge name vrf_index link))

  created_veth : (name : Text) → Ensures (λ (l : Link). is_veth l.kind ≡ true) (create_veth nl name)
  unfolding create_veth
  created_veth name =
      Ensures-annotate "could not add veth"
        (nl.link_add (new_link (veth_legs_for_vrf name).0 0 (veth (veth_legs_for_vrf name).1)))
        (record { at = λ s t l h. let (_, _, kind) = keeps _ l s t h in rw kind refl })

  replaced_veth :
      (name : Text) (link : Option Link)
      → Ensures (λ (l : Link). is_veth l.kind ≡ true) (Veth.replace_veth nl name link)
  unfolding Veth.replace_veth
  replaced_veth name link =
      Ensures-bind (annotate "failed to delete link" (nl.link_del link)) _
        (λ _. Ensures-annotate "failed create veth" (create_veth nl name) (created_veth name))

  checked_veth :
      (name : Text) (link : Option Link)
      → Ensures (λ (l : Link). is_veth l.kind ≡ true) (Veth.checked nl name link)
  unfolding Veth.checked
  checked_veth name none = replaced_veth name none
  checked_veth name (some l) = elim (Bool-cases (is_veth l.kind)) [
    | inl e ↦ rw e (Ensures-pure l e)
    | inr e ↦ rw e (replaced_veth name (some l))
  ]

  -- Where setupVeth goes on, the host's leg is a veth, whatever link had its name before. LinkAdd
  -- changes nothing of its argument but the index.
  ensure_veth_lem :
      (name : Text) → Ensures (λ (l : Link). is_veth l.kind ≡ true) (ensure_veth nl name)
  unfolding ensure_veth
  ensure_veth_lem name =
      Ensures-bind (attempt (nl.link_by_name (veth_legs_for_vrf name).0)) _
        (λ r. Ensures-bind (Veth.found_or_created nl name r) _ (λ link. checked_veth name link))
