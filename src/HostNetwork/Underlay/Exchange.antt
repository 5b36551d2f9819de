-- ===== src/HostNetwork/Underlay/Exchange.antt =====
-- internal/hostnetwork/underlay.go: the interface that was the underlay's before is given back.
use pierre.Base.{
  ap, subst, sym, ◌∙◌, ◌≡◌, ◌≢◌, ◌⊎◌, inl, inr, refl, arith, Bool-cases, Option, some, Text, [],
  ◌∷◌, Result, ok, eq_text, eq_text_iff, if◌then◌else◌,
}
use pierre.Base.Exec.{pure, lift, annotate, replace, ◌>>=◌, ◌>>◌, >>=-eq-ok, annotate-eq-ok}
use pierre.Base.Keeps.{Keeps, Keeps-bind, Keeps-annotate, Keeps-replace}
use pierre.Net.{Net}
use pierre.HostNetwork.Params.{UnderlayParams}
use pierre.HostNetwork.Netlink.{Netlink, Link, Address}
use pierre.HostNetwork.Namespace.{in_namespace}
use pierre.HostNetwork.Namespace.Restores.{NsLaws, in_namespace_restores}
use pierre.HostNetwork.Properties.{move_nic_to_namespace, assign_ip_to_interface}
use pierre.HostNetwork.Assign.{assign-Keeps}
use pierre.HostNetwork.Kernel.{View, Same, Kernel}
use pierre.HostNetwork.Setup.Vni.{in_namespace_lem}
use pierre.HostNetwork.Underlay.{
  underlay_nic_special_addr, old_underlay_interface, mark_underlay, take_nic, give_back, exchange,
  remove_underlay_interface, move_underlay_nic, setup_loopback, setup_underlay, special_link,
}
use pierre.HostNetwork.Underlay.Nic.{Lists, setup_underlay_nic}
use pierre.HostNetwork.Underlay.Moves.{
  Moves, Moved, Stands, quiet, inside, after, move_others, move_nic_to_namespace_lem,
}

-- Calls on the way that change no link.
pub record Passes {State Ns : Type 0} (nl : Netlink State Ns) (v : View State Ns) : Type 0 where
  pub ns_from_name : (n : Text) (s : State) → Same v s (nl.ns_from_name n s).1
  pub addr_del : (l : Option Link) (a : Address) (s : State) → Same v s (nl.addr_del l a s).1

module _ {State Ns : Type 0} (nl : Netlink State Ns) (net : Net) (v : View State Ns)
    (kernel : Kernel nl v) (laws : NsLaws nl v.current) (moves : Moves nl v) (passes : Passes nl v)
    (home ns : Ns) (differs : home ≢ ns)
    (back : (n : Ns) (z : State) → (nl.set_ns n z).0 ≡ ok tt) where
  mark-Stands :
      (at : Ns) (m : Text) (o : Option Link) (nic : Text)
      → Keeps (Stands nl v kernel at m o) (mark_underlay nl net nic)
  unfolding mark_underlay
  mark-Stands at m o nic =
      Keeps-bind (annotate "failed to get underlay nic by name" (nl.link_by_name nic)) _
        (Keeps-annotate _ _
          (quiet nl v kernel at m o (nl.link_by_name nic) (kernel.link_by_name nic)))
        (λ u.
          Keeps-bind (assign_ip_to_interface nl net (some u) underlay_nic_special_addr) _
            (assign-Keeps nl net (Stands nl v kernel at m o) (some u) underlay_nic_special_addr
              (quiet nl v kernel at m o (nl.addr_list (some u)) (kernel.addr_list (some u)))
              (λ a. quiet nl v kernel at m o (nl.addr_add (some u) a) (kernel.addr_add (some u) a)))
            (λ _.
              Keeps-replace _ _
                (quiet nl v kernel at m o (nl.link_set_up (some u)) (kernel.link_set_up (some u)))))

  take_others :
      (nic m : Text) (at : Ns) (s t : State)
      → m ≢ nic
      → take_nic nl net nic ns s ≡ (ok tt, t)
      → v.link t at m ≡ v.link s at m
  unfolding take_nic
  take_others nic m at s t d h =
      let (_, u, e, f) = >>=-eq-ok (move_nic_to_namespace nl nic ns) _ s h in
      let o = v.link s at m in
      after nl v kernel (in_namespace nl ns (mark_underlay nl net nic)) u t
        (inside nl v kernel at m o ns (mark_underlay nl net nic) (mark-Stands at m o nic)) f
        (move_others nl v kernel moves nic ns s u at m d e)

  give_back_lem :
      (old : Text) (s t : State)
      → v.current s ≡ ns
      → give_back nl net old home s ≡ (ok tt, t)
      → Moved nl v kernel moves old ns home s t
  unfolding give_back
  give_back_lem old s t c h =
      let (l, s1, e1, h1) =
        >>=-eq-ok (annotate "failed to get old underlay by name" (nl.link_by_name old)) _ s h in
      let f1 = annotate-eq-ok "failed to get old underlay by name" (nl.link_by_name old) s e1 in
      let (a, s2, e2, h2) =
        >>=-eq-ok
          (annotate "failed to parse special addr" (lift (nl.parse_addr underlay_nic_special_addr)))
          _ s1 h1 in
      let f2 =
        annotate-eq-ok "failed to parse special addr"
          (lift (nl.parse_addr underlay_nic_special_addr)) s1 e2 in
      let (_, s3, e3, h3) =
        >>=-eq-ok (annotate "failed to remove special addr" (nl.addr_del (some l) a)) _ s2 h2 in
      let f3 = annotate-eq-ok "failed to remove special addr" (nl.addr_del (some l) a) s2 e3 in
      let (_, name) = kernel.found old s l (ap (λ (p : Result Link × State). p.0) f1) in
      let here : v.current s3 ≡ ns =
        subst (λ z. v.current z ≡ ns) (ap (λ (p : Result (Unit {0}) × State). p.1) f3)
          ((passes.addr_del (some l) a s2).current
            ∙ subst (λ z. v.current z ≡ ns) (ap (λ (p : Result Address × State). p.1) f2)
                (subst (λ z. v.current z ≡ ns) (ap (λ (p : Result Link × State). p.1) f1)
                  ((kernel.link_by_name old s).current ∙ c))) in
      let before : v.link s3 home old ≡ v.link s home old =
        subst (λ z. v.link z home old ≡ v.link s home old)
          (ap (λ (p : Result (Unit {0}) × State). p.1) f3)
          ((passes.addr_del (some l) a s2).links home old
            ∙ subst (λ z. v.link z home old ≡ v.link s home old)
                (ap (λ (p : Result Address × State). p.1) f2)
                (subst (λ z. v.link z home old ≡ v.link s home old)
                  (ap (λ (p : Result Link × State). p.1) f1)
                  ((kernel.link_by_name old s).links home old))) in
      let (there, off) =
        move_nic_to_namespace_lem nl v kernel moves laws old ns home differs (back ns) s3 t here
          (subst (λ n. move_nic_to_namespace nl n home s3 ≡ (ok tt, t)) name h3) in
      (there, elim off [ inl e ↦ inl e | inr (k, e) ↦ inr (k, sym before ∙ e) ])

  -- The interface `old` was the one to keep, there was none, or it was given back.
  abbrev pub Exchanged : Text → Text → State → State → Type 0
  Exchanged old nic s t = (old ≡ []) ⊎ ((old ≡ nic) ⊎ Moved nl v kernel moves old ns home s t)

  removed_lem :
      (old : Text) (s t : State)
      → v.current s ≡ home
      → remove_underlay_interface nl net old ns s ≡ (ok tt, t)
      → Moved nl v kernel moves old ns home s t
  unfolding remove_underlay_interface
  removed_lem old s t c h =
      let (now, s1, e1, h1) =
        >>=-eq-ok (annotate "failed to get current ns" nl.get_ns)
          (λ n. in_namespace nl ns (give_back nl net old n)) s h in
      let f1 = annotate-eq-ok "failed to get current ns" nl.get_ns s e1 in
      let is_home = (laws.get_ok s s1 now f1).0 ∙ c in
      let (u, w, cu, f, links, links') =
        in_namespace_lem nl v kernel ns (give_back nl net old now) s1 t tt h1 in
      let earlier : v.link s1 home old ≡ v.link s home old =
        subst (λ z. v.link z home old ≡ v.link s home old) (ap (λ (p : Result Ns × State). p.1) f1)
          ((kernel.get_ns s).links home old) in
      let ((k, there), off) =
        give_back_lem old u w cu (subst (λ n. give_back nl net old n u ≡ (ok tt, w)) is_home f) in
      (
        (k, links' home old ∙ there),
        elim off [
          | inl e ↦ inl (links' ns old ∙ e)
          | inr (j, e) ↦ inr (j, sym earlier ∙ sym (links home old) ∙ e)
        ],
      )

  exchanged_lem :
      (old nic : Text) (s t : State)
      → v.current s ≡ home
      → exchange nl net old nic ns s ≡ (ok tt, t)
      → Exchanged old nic s t
  unfolding exchange
  exchanged_lem [] nic s t c h = inl refl
  exchanged_lem (x ∷ old) nic s t c h =
      let replaced = remove_underlay_interface nl net (x ∷ old) ns >> take_nic nl net nic ns in
      elim (Bool-cases (eq_text (x ∷ old) nic)) [
        | inl e ↦ inr (inl ((eq_text_iff (x ∷ old) nic).0 e))
        | inr e ↦
            let other : (x ∷ old) ≢ nic =
              λ same. ground (arith, e, eq_text_iff (x ∷ old) nic, same) in
            let (_, u, f, g) =
              >>=-eq-ok (remove_underlay_interface nl net (x ∷ old) ns) _ s
                (subst (λ b. (if b then pure tt else replaced) s ≡ (ok tt, t)) e h) in
            let ((k, there), off) = removed_lem (x ∷ old) s u c f in
            let later = λ (at : Ns). take_others nic (x ∷ old) at u t other g in
            inr (
              inr (
                (k, later home ∙ there),
                elim off [ inl none_there ↦ inl (later ns ∙ none_there) | inr had ↦ inr had ],
              ))
      ]

  -- The search of SetupUnderlay for the interface with the special address, after it has set up the
  -- loopback: what it finds, and the state that it leaves.
  abbrev pub searched : UnderlayParams → State → Result Text × State
  searched params s =
      old_underlay_interface nl net ns
        (in_namespace nl ns (setup_loopback nl net params.vtep_ip)
          (nl.ns_from_name params.target_ns s).1).1

  search_home : (s : State) → v.current (old_underlay_interface nl net ns s).1 ≡ v.current s
  unfolding old_underlay_interface
  search_home s =
      in_namespace_restores nl v.current laws ns
        (replace "failed to list links" nl.link_list >>= special_link nl net) s
        (λ z. back (v.current s) z)

  searched_lem :
      (params : UnderlayParams) (s t : State)
      → ((x : State) (n : Ns) → (nl.ns_from_name params.target_ns x).0 ≡ ok n → n ≡ ns)
      → v.current s ≡ home
      → setup_underlay nl net params s ≡ (ok tt, t)
      → (old : Text) × (u : State) × (searched params s ≡ (ok old, u))
        × (v.current u ≡ home)
        × (exchange nl net old params.main_nic ns u ≡ (ok tt, t))
  unfolding setup_underlay move_underlay_nic
  searched_lem params s t named c h =
      let get = nl.ns_from_name params.target_ns in
      let loopback = setup_loopback nl net params.vtep_ip in
      let (n, s1, e1, h1) = >>=-eq-ok (annotate "Failed to find network namespace" get) _ s h in
      let f1 = annotate-eq-ok "Failed to find network namespace" get s e1 in
      let same = named s n (ap (λ (p : Result Ns × State). p.0) f1) in
      let (_, s2, e2, h2) = >>=-eq-ok (in_namespace nl n loopback) _ s1 h1 in
      let (old, s3, e3, h3) =
        >>=-eq-ok
          (annotate "failed to get old underlay interface" (old_underlay_interface nl net n))
          (λ o. exchange nl net o params.main_nic n) s2 h2 in
      let f3 =
        annotate-eq-ok "failed to get old underlay interface" (old_underlay_interface nl net n) s2
          e3 in
      let start : (get s).1 ≡ s1 = ap (λ (p : Result Ns × State). p.1) f1 in
      let first : (in_namespace nl ns loopback s1).1 ≡ s2 =
        subst (λ k. (in_namespace nl k loopback s1).1 ≡ s2) same
          (ap (λ (p : Result (Unit {0}) × State). p.1) e2) in
      let found : old_underlay_interface nl net ns s2 ≡ (ok old, s3) =
        subst (λ k. old_underlay_interface nl net k s2 ≡ (ok old, s3)) same f3 in
      let c1 : v.current s1 ≡ home =
        subst (λ z. v.current z ≡ home) start
          ((passes.ns_from_name params.target_ns s).current ∙ c) in
      let c2 : v.current s2 ≡ home =
        subst (λ z. v.current z ≡ home) first
          (in_namespace_restores nl v.current laws ns loopback s1 (λ z. back (v.current s1) z)
            ∙ c1) in
      (
        old,
        s3,
        ap (λ z. old_underlay_interface nl net ns (in_namespace nl ns loopback z).1) start
            ∙ ap (old_underlay_interface nl net ns) first
            ∙ found,
        subst (λ z. v.current z ≡ home) (ap (λ (p : Result Text × State). p.1) found)
            (search_home s2 ∙ c2),
        subst (λ k. exchange nl net old params.main_nic k s3 ≡ (ok tt, t)) same h3,
      )

  -- When SetupUnderlay succeeds, the interface of the parameters is in the router's namespace. The
  -- interface that the search found there to bear the special address, if there was one and it is
  -- another, is on the host again, and no longer in the router's namespace unless the host had an
  -- interface of its name already. The thread starts on the host; the kernel keeps the laws, the
  -- name of the namespace is that of the router's, and setting the namespace of the thread succeeds.
  pub setup_underlay_lem :
      (lists : Lists nl v) (params : UnderlayParams) (s t : State)
      → ((x : State) (n : Ns) → (nl.ns_from_name params.target_ns x).0 ≡ ok n → n ≡ ns)
      → v.current s ≡ home
      → setup_underlay nl net params s ≡ (ok tt, t)
      → ((l : Link) × (v.link t ns params.main_nic ≡ some l))
        × ((old : Text) × ((searched params s).0 ≡ ok old)
            × Exchanged old params.main_nic (searched params s).1 t)
  setup_underlay_lem lists params s t named c h =
      let (old, u, found, cu, run) = searched_lem params s t named c h in
      (
        setup_underlay_nic nl net v kernel lists ns params s t named h,
        (
          old,
          ap (λ (p : Result Text × State). p.0) found,
          subst (λ z. Exchanged old params.main_nic z t)
              (sym (ap (λ (p : Result Text × State). p.1) found))
              (exchanged_lem old params.main_nic u t cu run),
        ),
      )
