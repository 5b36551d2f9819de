-- ===== src/HostNetwork/Underlay/Nic.antt =====
-- internal/hostnetwork/underlay.go: after SetupUnderlay the underlay's interface is in the router's
-- namespace.
use pierre.Base.{
  ap, subst, ◌∙◌, ◌≡◌, refl, Bool, true, false, Bool-cases, inl, inr, ◌⊎◌, some, Text, List, [],
  ◌∷◌, In, here, there, Result, ok, eq_text, eq_text_iff, if◌then◌else◌,
}
use pierre.Base.Exec.{
  Exec, pure, attempt, annotate, replace, ◌>>=◌, ◌>>◌, >>=-eq-ok, annotate-eq-ok, replace-eq-ok,
  Ensures, Ensures-bind, Ensures-pure,
}
use pierre.Base.Keeps.{
  Keeps, Keeps-bind, Keeps-lift, Keeps-attempt, Keeps-annotate, Keeps-replace, Keeps-if,
}
use pierre.Net.{Net}
use pierre.HostNetwork.Params.{UnderlayParams}
use pierre.HostNetwork.Netlink.{Netlink, Link}
use pierre.HostNetwork.Namespace.{in_namespace}
use pierre.HostNetwork.Properties.{assign_ip_to_interface, interface_has_ip, move_nic_to_namespace}
use pierre.HostNetwork.Assign.{assign-Keeps, has_ip-Keeps}
use pierre.HostNetwork.Kernel.{View, Same, Kernel}
use pierre.HostNetwork.Setup.Vni.{in_namespace_lem}
use pierre.HostNetwork.Underlay.{
  underlay_nic_special_addr, special_link, old_underlay_interface, mark_underlay, take_nic,
  exchange, remove_underlay_interface, move_underlay_nic, setup_loopback, setup_underlay,
}

-- LinkList lists links of the namespace of the thread.
abbrev pub Lists : {State Ns : Type 0} → Netlink State Ns → View State Ns → Type 0
Lists {State} nl v =
    (s : State) (ls : List Link) (l : Link)
    → (nl.link_list s).0 ≡ ok ls
    → In l ls
    → v.link s (v.current s) l.name ≡ some l

module _ {State Ns : Type 0} (nl : Netlink State Ns) (net : Net) (v : View State Ns)
    (kernel : Kernel nl v) (lists : Lists nl v) (ns : Ns) where
  -- The link is there.
  abbrev Has : Text → Link → State → Type 0
  Has n l s = v.link s ns n ≡ some l

  quiet :
      {A : Type 0} (n : Text) (l : Link) (x : Exec State A)
      → ((s : State) → Same v s (x s).1)
      → Keeps (Has n l) x
  quiet n l x q = record { after = λ s e. (q s).links ns n ∙ e }

  mark-Keeps : (n nic : Text) (l : Link) → Keeps (Has n l) (mark_underlay nl net nic)
  unfolding mark_underlay
  mark-Keeps n nic l =
      Keeps-bind (annotate "failed to get underlay nic by name" (nl.link_by_name nic)) _
        (Keeps-annotate _ _ (quiet n l (nl.link_by_name nic) (kernel.link_by_name nic)))
        (λ u.
          Keeps-bind (assign_ip_to_interface nl net (some u) underlay_nic_special_addr) _
            (assign-Keeps nl net (Has n l) (some u) underlay_nic_special_addr
              (quiet n l (nl.addr_list (some u)) (kernel.addr_list (some u)))
              (λ a. quiet n l (nl.addr_add (some u) a) (kernel.addr_add (some u) a)))
            (λ _.
              Keeps-replace _ _
                (quiet n l (nl.link_set_up (some u)) (kernel.link_set_up (some u)))))

  mark_lem :
      (nic : Text) (s t : State)
      → v.current s ≡ ns
      → mark_underlay nl net nic s ≡ (ok tt, t)
      → (l : Link) × Has nic l t
  unfolding mark_underlay
  mark_lem nic s t c h =
      let (l, _, e, _) =
        >>=-eq-ok (annotate "failed to get underlay nic by name" (nl.link_by_name nic)) _ s h in
      let f = annotate-eq-ok "failed to get underlay nic by name" (nl.link_by_name nic) s e in
      let (at, _) = kernel.found nic s l (ap (λ (p : Result Link × State). p.0) f) in
      (
        l,
        subst (Has nic l) (ap (λ (p : Result (Unit {0}) × State). p.1) h)
            ((mark-Keeps nic nic l).after s (subst (λ x. v.link s x nic ≡ some l) c at)),
      )

  take_lem :
      (nic : Text) (s t : State) → take_nic nl net nic ns s ≡ (ok tt, t) → (l : Link) × Has nic l t
  unfolding take_nic
  take_lem nic s t h =
      let (_, u, _, e) = >>=-eq-ok (move_nic_to_namespace nl nic ns) _ s h in
      let (x, y, c, f, _, links) =
        in_namespace_lem nl v kernel ns (mark_underlay nl net nic) u t tt e in
      let (l, at) = mark_lem nic x y c f in (l, links ns nic ∙ at)

  either :
      {A : Type 0} {P : A → Type 0} (b : Bool) (m n : Exec State A)
      → Ensures P m
      → Ensures P n
      → Ensures P (if b then m else n)
  either true m n k l = k
  either false m n k l = l

  -- The interface that was found, if there was one, is there.
  abbrev Old : Text → State → Type 0
  Old old s = (old ≡ []) ⊎ ((l : Link) × Has old l s)

  same_lem :
      (nic c : Text) (s t : State) (l : Link)
      → c ≡ nic
      → Has c l s
      → ◌≡◌ {A = Result (Unit {0}) × State} (ok tt, s) (ok tt, t)
      → Has nic l t
  same_lem nic c s t l e at h =
      subst (λ x. Has x l t) e (subst (Has c l) (ap (λ (p : Result (Unit {0}) × State). p.1) h) at)

  exchange_lem :
      (old nic : Text) (s t : State)
      → Old old s
      → exchange nl net old nic ns s ≡ (ok tt, t)
      → (l : Link) × Has nic l t
  unfolding exchange
  exchange_lem [] nic s t o h = take_lem nic s t h
  exchange_lem (c ∷ old) nic s t (inl e) h = cc
  exchange_lem (c ∷ old) nic s t (inr (l, at)) h =
      let replaced = remove_underlay_interface nl net (c ∷ old) ns >> take_nic nl net nic ns in
      let chosen = λ (b : Bool) (e : eq_text (c ∷ old) nic ≡ b).
        subst (λ b. (if b then pure tt else replaced) s ≡ (ok tt, t)) e h in
      elim (Bool-cases (eq_text (c ∷ old) nic)) [
        | inl e ↦
            (l, same_lem nic (c ∷ old) s t l ((eq_text_iff (c ∷ old) nic).0 e) at (chosen true e))
        | inr e ↦
            let (_, u, _, f) =
              >>=-eq-ok (remove_underlay_interface nl net (c ∷ old) ns) _ s (chosen false e) in
            take_lem nic u t f
      ]

  special-Keeps : (n : Text) (l : Link) (ls : List Link) → Keeps (Has n l) (special_link nl net ls)
  unfolding special_link
  special-Keeps n l [] = Keeps-lift (ok [])
  special-Keeps n l (k ∷ ls) =
      let listed = quiet n l (nl.addr_list (some k)) (kernel.addr_list (some k)) in
      Keeps-bind (attempt (nl.addr_list (some k))) _ (Keeps-attempt _ listed) (λ _.
        Keeps-bind (interface_has_ip nl net (some k) underlay_nic_special_addr) _
          (has_ip-Keeps nl net (Has n l) (some k) underlay_nic_special_addr listed)
          (λ has_ip.
            Keeps-if has_ip (pure k.name) (special_link nl net ls) (Keeps-lift (ok k.name))
              (special-Keeps n l ls)))

  -- No name, or that of a link of the list.
  abbrev Named : List Link → Text → Type 0
  Named ls old = (old ≡ []) ⊎ ((l : Link) × In l ls × (l.name ≡ old))

  more : (k : Link) (ls : List Link) (old : Text) → Named ls old → Named (k ∷ ls) old
  more k ls old (inl e) = inl e
  more k ls old (inr (l, m, e)) = inr (l, there m, e)

  special_lem : (ls : List Link) → Ensures (Named ls) (special_link nl net ls)
  unfolding special_link
  special_lem [] = Ensures-pure [] (inl refl)
  special_lem (k ∷ ls) = Ensures-bind (attempt (nl.addr_list (some k))) _ (λ _.
      Ensures-bind (interface_has_ip nl net (some k) underlay_nic_special_addr) _ (λ has_ip.
        either has_ip (pure k.name) (special_link nl net ls)
          (Ensures-pure k.name (inr (k, here refl, refl)))
          (record { at = λ s t old h. more k ls old ((special_lem ls).at s t old h) })))

  old_lem :
      (old : Text) (s t : State) → old_underlay_interface nl net ns s ≡ (ok old, t) → Old old t
  unfolding old_underlay_interface
  old_lem old s t h =
      let search = replace "failed to list links" nl.link_list >>= special_link nl net in
      let (x, y, c, e, _, links) = in_namespace_lem nl v kernel ns search s t old h in
      let (ls, z, f, g) = >>=-eq-ok (replace "failed to list links" nl.link_list) _ x e in
      let listed = replace-eq-ok "failed to list links" nl.link_list x f in
      elim ((special_lem ls).at z y old g) [
        | inl e ↦ inl e
        | inr (l, m, name) ↦
            let first : v.link x ns l.name ≡ some l =
              subst (λ n. v.link x n l.name ≡ some l) c
                (lists x ls l (ap (λ (p : Result (List Link) × State). p.0) listed) m) in
            let second : v.link z ns l.name ≡ some l =
              subst (Has l.name l) (ap (λ (p : Result (List Link) × State). p.1) listed)
                ((quiet l.name l nl.link_list kernel.link_list).after x first) in
            let third : v.link y ns l.name ≡ some l =
              subst (Has l.name l) (ap (λ (p : Result Text × State). p.1) g)
                ((special-Keeps l.name l ls).after z second) in
            inr (l, subst (λ n. v.link t ns n ≡ some l) name (links ns l.name ∙ third))
      ]

  -- The interface of the parameters ends in the router's namespace.
  pub setup_underlay_nic :
      (params : UnderlayParams) (s t : State)
      → ((x : State) (n : Ns) → (nl.ns_from_name params.target_ns x).0 ≡ ok n → n ≡ ns)
      → setup_underlay nl net params s ≡ (ok tt, t)
      → (l : Link) × (v.link t ns params.main_nic ≡ some l)
  unfolding setup_underlay move_underlay_nic
  setup_underlay_nic params s t named h =
      let get = nl.ns_from_name params.target_ns in
      let (n, s1, e1, h1) = >>=-eq-ok (annotate "Failed to find network namespace" get) _ s h in
      let same = named s n (
        ap (λ (p : Result Ns × State). p.0)
          (annotate-eq-ok "Failed to find network namespace" get s e1)) in
      let (_, s2, _, h2) =
        >>=-eq-ok (in_namespace nl n (setup_loopback nl net params.vtep_ip)) _ s1 h1 in
      let (old, s3, e3, h3) =
        >>=-eq-ok
          (annotate "failed to get old underlay interface" (old_underlay_interface nl net n)) _ s2
          h2 in
      let f =
        annotate-eq-ok "failed to get old underlay interface" (old_underlay_interface nl net n) s2
          e3 in
      exchange_lem old params.main_nic s3 t
        (old_lem old s2 s3 (subst (λ n. old_underlay_interface nl net n s2 ≡ (ok old, s3)) same f))
        (subst (λ n. exchange nl net old params.main_nic n s3 ≡ (ok tt, t)) same h3)
