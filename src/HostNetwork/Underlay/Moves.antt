-- ===== src/HostNetwork/Underlay/Moves.antt =====
-- internal/hostnetwork/properties.go, moveNicToNamespace: which link goes where.
use pierre.Base.{
  ap, subst, sym, ◌∙◌, ◌≡◌, ◌≢◌, ◌⊎◌, inl, inr, Option, none, some, List, Text, Result, ok, err,
  Error, refl, ok-injective,
}
use pierre.Base.Exec.{Exec, attempt, annotate, replace, lift, >>=-eq-ok, annotate-eq-ok}
use pierre.Base.Keeps.{
  Keeps, Keeps-bind, Keeps-lift, Keeps-attempt, Keeps-annotate, Keeps-replace, Keeps-each,
}
use pierre.HostNetwork.Netlink.{Netlink, Link, Address}
use pierre.HostNetwork.Namespace.{in_namespace, restore}
use pierre.HostNetwork.Namespace.Restores.{NsLaws, in_namespace_restores}
use pierre.HostNetwork.Properties.{
  tolerate_exist, restore_address, settle, move_absent, move_nic_to_namespace,
}
use pierre.HostNetwork.Kernel.{View, Same, Kernel}
use pierre.HostNetwork.Setup.Vni.{in_namespace_lem}

-- What the program relies on of LinkSetNsFd: it moves the link from the namespace of the thread to
-- another one, where it succeeds, and concerns no link of another name.
pub record Moves {State Ns : Type 0} (nl : Netlink State Ns) (v : View State Ns) : Type 0 where
  pub others :
      (l : Link) (to : Ns) (s : State) (ns : Ns) (m : Text)
      → m ≢ l.name
      → v.link (nl.link_set_ns_fd (some l) to s).1 ns m ≡ v.link s ns m
  pub gone :
      (l : Link) (to : Ns) (s : State)
      → to ≢ v.current s
      → (nl.link_set_ns_fd (some l) to s).0 ≡ ok tt
      → v.link (nl.link_set_ns_fd (some l) to s).1 (v.current s) l.name ≡ none
  pub arrived :
      (l : Link) (to : Ns) (s : State)
      → to ≢ v.current s
      → (nl.link_set_ns_fd (some l) to s).0 ≡ ok tt
      → (k : Link) × (v.link (nl.link_set_ns_fd (some l) to s).1 to l.name ≡ some k)

module _ {State Ns : Type 0} (nl : Netlink State Ns) (v : View State Ns)
    (kernel : Kernel nl v) where
  -- What stands under a name in a namespace.
  module _ (ns : Ns) (m : Text) (o : Option Link) where
    abbrev pub Stands : State → Type 0
    Stands s = v.link s ns m ≡ o

    pub quiet : {A : Type 0} (x : Exec State A) → ((s : State) → Same v s (x s).1) → Keeps Stands x
    quiet x q = record { after = λ s e. (q s).links ns m ∙ e }

    pub inside :
        {A : Type 0} (other : Ns) (x : Exec State A)
        → Keeps Stands x
        → Keeps Stands (in_namespace nl other x)
    unfolding in_namespace restore
    inside other x k =
        let set = λ (n : Ns).
          let kept : Keeps Stands (nl.set_ns n) = record {
            after = λ s e. kernel.set_links n s ns m ∙ e;
          } in
          kept in
        Keeps-bind (replace "failed to get current network namespace" nl.get_ns) _
          (Keeps-replace _ _ (quiet nl.get_ns kernel.get_ns))
          (λ orig.
            Keeps-bind (replace "failed to set current network namespace" (nl.set_ns other)) _
              (Keeps-replace _ _ (set other))
              (λ _. Keeps-bind (attempt x) (restore nl orig) (Keeps-attempt _ k) (λ r.
                Keeps-bind (attempt (nl.set_ns orig)) (λ _. lift r) (Keeps-attempt _ (set orig))
                  (λ _. Keeps-lift r))))

    restore_address-Keeps : (l : Link) (a : Address) → Keeps Stands (restore_address nl (some l) a)
    unfolding restore_address
    restore_address-Keeps l a =
        Keeps-bind _ _
          (Keeps-attempt _ (quiet (nl.addr_add (some l) _) (kernel.addr_add (some l) _)))
          (λ r. Keeps-lift (tolerate_exist nl r))

    settle-Keeps : (nic : Text) (addresses : List Address) → Keeps Stands (settle nl nic addresses)
    unfolding settle
    settle-Keeps nic addresses =
        Keeps-bind _ _ (Keeps-annotate _ _ (quiet (nl.link_by_name nic) (kernel.link_by_name nic)))
          (λ l.
            Keeps-bind _ _
              (Keeps-annotate _ _ (quiet (nl.link_set_up (some l)) (kernel.link_set_up (some l))))
              (λ _. Keeps-each _ addresses (restore_address-Keeps l)))

  -- After a run that was kept.
  pub after :
      {A : Type 0} {I : State → Type 0} (x : Exec State A) (s t : State) {r : Result A}
      → Keeps I x
      → x s ≡ (r, t)
      → I s
      → I t
  after {A} {I} x s t k h i = subst I (ap (λ (p : Result A × State). p.1) h) (k.after s i)

  same_after :
      {A : Type 0} (x : Exec State A) (s t : State) {r : Result A}
      → ((z : State) → Same v z (x z).1)
      → x s ≡ (r, t)
      → Same v s t
  same_after {A} x s t q h = subst (Same v s) (ap (λ (p : Result A × State). p.1) h) (q s)

  Same_trans : (s t u : State) → Same v s t → Same v t u → Same v s u
  Same_trans s t u p q = record {
    links = λ ns m. q.links ns m ∙ p.links ns m;
    current = q.current ∙ p.current;
  }

  -- The move of an interface that is not in the namespace yet: LinkSetNsFd, and what goes on in the
  -- namespace afterwards changes no link.
  moved_lem :
      (nic : Text) (to : Ns) (e : Error) (s t : State)
      → move_absent nl nic to (err e) s ≡ (ok tt, t)
      → (l : Link) × (u : State) × (l.name ≡ nic)
        × Same v s u
        × ((nl.link_set_ns_fd (some l) to u).0 ≡ ok tt)
        × ((ns : Ns) (m : Text) → v.link t ns m ≡ v.link (nl.link_set_ns_fd (some l) to u).1 ns m)
  unfolding move_absent
  moved_lem nic to e s t h =
      let (l, s1, e1, h1) =
        >>=-eq-ok (annotate "Failed to find link" (nl.link_by_name nic)) _ s h in
      let f1 = annotate-eq-ok "Failed to find link" (nl.link_by_name nic) s e1 in
      let (addresses, s2, e2, h2) =
        >>=-eq-ok (annotate "Failed to get addresses for nic" (nl.addr_list (some l))) _ s1 h1 in
      let f2 = annotate-eq-ok "Failed to get addresses for nic" (nl.addr_list (some l)) s1 e2 in
      let move = nl.link_set_ns_fd (some l) to in
      let (_, s3, e3, h3) =
        >>=-eq-ok (annotate "Failed to move to network namespace" move) _ s2 h2 in
      let f3 = annotate-eq-ok "Failed to move to network namespace" move s2 e3 in
      let (_, name) = kernel.found nic s l (ap (λ (p : Result Link × State). p.0) f1) in
      (
        l,
        s2,
        name,
        Same_trans s s1 s2 (same_after (nl.link_by_name nic) s s1 (kernel.link_by_name nic) f1)
            (same_after (nl.addr_list (some l)) s1 s2 (kernel.addr_list (some l)) f2),
        ap (λ (p : Result (Unit {0}) × State). p.0) f3,
        λ ns m.
            let o = v.link (move s2).1 ns m in
            after (in_namespace nl to (settle nl nic addresses)) s3 t
              (inside ns m o to (settle nl nic addresses) (settle-Keeps ns m o nic addresses)) h3
              (subst (λ z. v.link z ns m ≡ o) (ap (λ (p : Result (Unit {0}) × State). p.1) f3)
                refl),
      )

  look :
      (nic : Text) (to : Ns) (s s1 : State) (r : Result Link) (ns : Ns) (m : Text) (o : Option Link)
      → attempt (in_namespace nl to (annotate "Failed to find link" (nl.link_by_name nic))) s
        ≡ (ok r, s1)
      → v.link s ns m ≡ o
      → v.link s1 ns m ≡ o
  look nic to s s1 r ns m o h =
      let x = annotate "Failed to find link" (nl.link_by_name nic) in
      after (attempt (in_namespace nl to x)) s s1
        (Keeps-attempt _ (
          inside ns m o to x
            (Keeps-annotate _ _ (quiet ns m o (nl.link_by_name nic) (kernel.link_by_name nic)))))
        h

  module _ (moves : Moves nl v) where
    absent_others :
        (nic : Text) (to : Ns) (r : Result Link) (s t : State) (ns : Ns) (m : Text)
        → m ≢ nic
        → move_absent nl nic to r s ≡ (ok tt, t)
        → v.link t ns m ≡ v.link s ns m
    unfolding move_absent
    absent_others nic to (ok k) s t ns m d h =
        ap (λ (p : Result (Unit {0}) × State). v.link p.1 ns m) (sym h)
    absent_others nic to (err e) s t ns m d h =
        let (l, u, name, same, f, links) = moved_lem nic to e s t h in
        links ns m ∙ moves.others l to u ns m (λ x. d (x ∙ name)) ∙ same.links ns m

    -- The move of an interface concerns no link of another name, in any namespace.
    pub move_others :
        (nic : Text) (to : Ns) (s t : State) (ns : Ns) (m : Text)
        → m ≢ nic
        → move_nic_to_namespace nl nic to s ≡ (ok tt, t)
        → v.link t ns m ≡ v.link s ns m
    unfolding move_nic_to_namespace
    move_others nic to s t ns m d h =
        let (r, s1, e, h1) =
          >>=-eq-ok
            (attempt (in_namespace nl to (annotate "Failed to find link" (nl.link_by_name nic))))
            (move_absent nl nic to) s h in
        absent_others nic to r s1 t ns m d h1 ∙ look nic to s s1 r ns m (v.link s ns m) e refl

    -- The link is in the namespace `to`, and no longer in `from`, unless `to` had one of its name.
    abbrev pub Moved : Text → Ns → Ns → State → State → Type 0
    Moved nic from to s t =
        ((k : Link) × (v.link t to nic ≡ some k))
        × ((v.link t from nic ≡ none) ⊎ ((k : Link) × (v.link s to nic ≡ some k)))

    module _ (laws : NsLaws nl v.current) (nic : Text) (from to : Ns) (differs : to ≢ from)
        (back : (z : State) → (nl.set_ns from z).0 ≡ ok tt) where
      found_there :
          (k : Link) (s s1 t : State)
          → in_namespace nl to (annotate "Failed to find link" (nl.link_by_name nic)) s ≡ (ok k, s1)
          → move_absent nl nic to (ok k) s1 ≡ (ok tt, t)
          → Moved nic from to s t
      unfolding move_absent
      found_there k s s1 t e h =
          let x = annotate "Failed to find link" (nl.link_by_name nic) in
          let (u, w, c, f, before, _) = in_namespace_lem nl v kernel to x s s1 k e in
          let g = annotate-eq-ok "Failed to find link" (nl.link_by_name nic) u f in
          let (at, _) = kernel.found nic u k (ap (λ (p : Result Link × State). p.0) g) in
          let here : v.link s to nic ≡ some k =
            sym (before to nic) ∙ subst (λ n. v.link u n nic ≡ some k) c at in
          (
            (
              k,
              subst (λ z. v.link z to nic ≡ some k) (ap (λ (p : Result (Unit {0}) × State). p.1) h)
                  (look nic to s s1 (ok k) to nic (some k) (λ i. (ok (e i).0, (e i).1)) here),
            ),
            inr (k, here),
          )

      not_there :
          (x : Error) (s t : State)
          → v.current s ≡ from
          → move_absent nl nic to (err x) s ≡ (ok tt, t)
          → ((k : Link) × (v.link t to nic ≡ some k)) × (v.link t from nic ≡ none)
      not_there x s t c h =
          let (l, u, name, same, f, links) = moved_lem nic to x s t h in
          let here = same.current ∙ c in
          let d = λ (e : to ≡ v.current u). differs (e ∙ here) in
          let (k, at) = moves.arrived l to u d f in
          let off = moves.gone l to u d f in
          let z = (nl.link_set_ns_fd (some l) to u).1 in
          (
            (k, links to nic ∙ subst (λ n. v.link z to n ≡ some k) name at),
            links from nic
                ∙ subst (λ n. v.link z n nic ≡ none) here
                    (subst (λ n. v.link z (v.current u) n ≡ none) name off),
          )

      branch :
          (r : Result Link) (s s1 t : State)
          → v.current s1 ≡ from
          → attempt (in_namespace nl to (annotate "Failed to find link" (nl.link_by_name nic))) s
            ≡ (ok r, s1)
          → move_absent nl nic to r s1 ≡ (ok tt, t)
          → Moved nic from to s t
      branch (ok k) s s1 t c e h =
          let a = ok-injective (ap (λ (p : Result (Result Link) × State). p.0) e) in
          let b = ap (λ (p : Result (Result Link) × State). p.1) e in
          found_there k s s1 t (λ i. (a i, b i)) h
      branch (err x) s s1 t c e h = let (there, off) = not_there x s1 t c h in (there, inl off)

      -- moveNicToNamespace, from the namespace of the thread to another one.
      pub move_nic_to_namespace_lem :
          (s t : State)
          → v.current s ≡ from
          → move_nic_to_namespace nl nic to s ≡ (ok tt, t)
          → Moved nic from to s t
      unfolding move_nic_to_namespace
      move_nic_to_namespace_lem s t c h =
          let x = annotate "Failed to find link" (nl.link_by_name nic) in
          let (r, s1, e, h1) =
            >>=-eq-ok (attempt (in_namespace nl to x)) (move_absent nl nic to) s h in
          let at_first : v.current s1 ≡ from =
            subst (λ z. v.current z ≡ from) (ap (λ (p : Result (Result Link) × State). p.1) e)
              (in_namespace_restores nl v.current laws to x s
                  (λ z. ap (λ n. (nl.set_ns n z).0) c ∙ back z)
                ∙ c) in
          branch r s s1 t at_first e h1
