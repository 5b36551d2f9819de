-- ===== src/HostNetwork/Again/Underlay.antt =====
-- internal/hostnetwork/underlay.go: SetupUnderlay run again on an underlay that is in place.
use pierre.Base.{subst, sym, ◌≡◌, ◌≢◌, some, Text, List, [], ◌∷◌, ok, eq_text_iff}
use pierre.Base.Exec.{Exec, pure, attempt, annotate, replace, ◌>>=◌, ◌>>◌}
use pierre.Base.Keeps.{Keeps, Keeps-bind, Keeps-lift, Keeps-replace, Keeps-if, Keeps-attempt}
use pierre.Base.Gives.{Gives, Gives-bind, Gives-annotate, Gives-attempt, Gives-keeps, Keeps-gives}
use pierre.Net.{Net}
use pierre.HostNetwork.Params.{UnderlayParams}
use pierre.HostNetwork.Netlink.{Netlink, Link}
use pierre.HostNetwork.Elsewhere.{Elsewhere}
use pierre.HostNetwork.Namespace.{in_namespace}
use pierre.HostNetwork.Namespace.Restores.{NsLaws}
use pierre.HostNetwork.Properties.{assign_ip_to_interface, interface_has_ip}
use pierre.HostNetwork.Assign.{has_ip-Keeps}
use pierre.HostNetwork.Kernel.{View, Kernel}
use pierre.HostNetwork.Vxlan.{underlay_loopback}
use pierre.HostNetwork.Underlay
use pierre.HostNetwork.Underlay.{
  underlay_nic_special_addr, setup_underlay, move_underlay_nic, exchange, old_underlay_interface,
}
use pierre.HostNetwork.Again.{Settled, quiet, look_lem, assigned, target_lem}
use pierre.HostNetwork.Again.Veth.{Host, There, inside}

module _ {State Ns : Type 0} (nl : Netlink State Ns) (net : Net) (v : View State Ns)
    (kernel : Kernel nl v) (away : Elsewhere nl v) (settled : Settled nl v)
    (laws : NsLaws nl v.current) (home ns : Ns) (back : (t : State) → (nl.set_ns home t).0 ≡ ok tt)
    (s0 : State) where
  abbrev Home : State → Type 0
  Home = Host nl net v kernel away settled laws home ns back s0

  abbrev Away : State → Type 0
  Away = There nl net v kernel away settled laws home ns back s0

  loopback_lem :
      (l : Link) (vtep_ip : Text)
      → v.link s0 ns underlay_loopback ≡ some l
      → Keeps Away (Underlay.setup_loopback nl net vtep_ip)
  unfolding Underlay.setup_loopback Underlay.found_or_created
  loopback_lem l vtep_ip e = Keeps-gives _ (
      Gives-bind {P = λ x. x ≡ ok l} (attempt (nl.link_by_name underlay_loopback)) _
        (Gives-attempt (nl.link_by_name underlay_loopback)
          (look_lem nl net v kernel away settled ns s0 underlay_loopback l e))
        (λ x same.
          subst
            (λ x.
              Gives Away (λ _. Unit {0})
                (Underlay.found_or_created nl net x >>= λ o.
                  assign_ip_to_interface nl net o vtep_ip))
            (sym same)
            (Gives-keeps _ (assigned nl net v kernel away settled ns s0 (some l) vtep_ip))))

  exchange_lem :
      (old nic : Text) (n : Ns) → old ≡ nic → nic ≢ [] → Keeps Home (exchange nl net old nic n)
  unfolding exchange
  exchange_lem [] nic n e d = absurd (d (sym e))
  exchange_lem (c ∷ old) nic n e d = rw ((eq_text_iff (c ∷ old) nic).1 e) (Keeps-lift _)

  special_lem : (links : List Link) → Keeps Away (Underlay.special_link nl net links)
  unfolding Underlay.special_link
  special_lem [] = Keeps-lift _
  special_lem (l ∷ ls) =
      let listed =
        quiet nl net v kernel away settled ns s0 (nl.addr_list (some l))
          (kernel.addr_list (some l)) in
      Keeps-bind (attempt (nl.addr_list (some l))) _ (Keeps-attempt _ listed) (λ _.
        Keeps-bind (interface_has_ip nl net (some l) underlay_nic_special_addr) _
          (has_ip-Keeps nl net Away (some l) underlay_nic_special_addr listed)
          (λ has_ip.
            Keeps-if has_ip (pure l.name) (Underlay.special_link nl net ls) (Keeps-lift (ok l.name))
              (special_lem ls)))

  old_lem : Keeps Home (old_underlay_interface nl net ns)
  unfolding old_underlay_interface
  old_lem = Keeps-gives _ (
      inside nl net v kernel away settled laws home ns back s0 (λ _. Unit {0}) _
        (Gives-keeps _ (
          Keeps-bind (replace "failed to list links" nl.link_list) (Underlay.special_link nl net)
            (Keeps-replace _ _
              (quiet nl net v kernel away settled ns s0 nl.link_list kernel.link_list))
            special_lem)))

  -- SetupUnderlay with the router's namespace.
  abbrev rest : UnderlayParams → Ns → Exec State Unit
  rest params n =
      in_namespace nl n (Underlay.setup_loopback nl net params.vtep_ip)
      >> (annotate "failed to get old underlay interface" (old_underlay_interface nl net n)
          >>= λ old. exchange nl net old params.main_nic n)

  rest_lem :
      (params : UnderlayParams) (l : Link)
      → v.link s0 ns underlay_loopback ≡ some l
      → ((s : State) (old : Text)
          → Home s
          → (old_underlay_interface nl net ns s).0 ≡ ok old
          → old ≡ params.main_nic)
      → params.main_nic ≢ []
      → Gives Home (λ _. Unit {0}) (rest params ns)
  rest_lem params l e marked d =
      Gives-bind {P = λ _. Unit {0}}
        (in_namespace nl ns (Underlay.setup_loopback nl net params.vtep_ip)) _
        (inside nl net v kernel away settled laws home ns back s0 (λ _. Unit {0}) _
          (Gives-keeps _ (loopback_lem l params.vtep_ip e)))
        (λ _ _.
          Gives-bind {P = λ old. old ≡ params.main_nic}
            (annotate "failed to get old underlay interface" (old_underlay_interface nl net ns)) _
            (Gives-annotate _ _
              (record { at = λ s i. (old_lem.after s i, λ old h. marked s old i h) }))
            (λ old same. Gives-keeps _ (exchange_lem old params.main_nic ns same d)))

  -- SetupUnderlay, where the loopback is there and the interface of the parameters is the one that
  -- has the special address.
  pub setup_underlay_again :
      (params : UnderlayParams) (l : Link)
      → v.link s0 ns underlay_loopback ≡ some l
      → ((s : State) (old : Text)
          → Home s
          → (old_underlay_interface nl net ns s).0 ≡ ok old
          → old ≡ params.main_nic)
      → params.main_nic ≢ []
      → ((s : State) (n : Ns) → (nl.ns_from_name params.target_ns s).0 ≡ ok n → n ≡ ns)
      → Keeps Home (setup_underlay nl net params)
  unfolding setup_underlay move_underlay_nic
  setup_underlay_again params l e marked d named = Keeps-gives _ (
      Gives-bind {P = λ n. n ≡ ns}
        (annotate "Failed to find network namespace" (nl.ns_from_name params.target_ns)) _
        (Gives-annotate _ _
          (target_lem nl net v kernel away settled home s0 ns params.target_ns named))
        (λ n same.
          subst (λ n. Gives Home (λ _. Unit {0}) (rest params n)) (sym same)
            (rest_lem params l e marked d)))
