-- ===== src/HostNetwork/Cleanup/Run.antt =====
-- internal/hostnetwork/vni.go: a run of RemoveNonConfiguredVNIs leaves what is configured.
use pierre.Base.{
  ap, subst, sym, ◌∙◌, ◌≡◌, ◌≢◌, refl, ℤ, false, Bool-cases, Result-cases, inl, inr, Option, some,
  Text, codes, List, [], ◌∷◌, In, here, there, Result, ok, eq_text, eq_text_iff, arith,
}
use pierre.Base.Exec.{Exec, pure, lift, annotate, each}
use pierre.Base.Keeps.{Keeps, Keeps-bind, Keeps-lift, Keeps-annotate, Keeps-if}
use pierre.Base.Gives.{Gives, Gives-bind, Gives-annotate, Gives-keeps, Keeps-gives}
use pierre.HostNetwork.Netlink.{Netlink, Link, link_type}
use pierre.HostNetwork.Names.{vni_from_vxlan_name, vni_from_bridge_name}
use pierre.HostNetwork.Kernel.{View, IsBase, Stays, Kernel}
use pierre.HostNetwork.Cleanup.{
  contains_int, clear_named, clear_link, clear_links, remove_vrf, remove_router_side,
}
use pierre.HostNetwork.Cleanup.Stale.{stale, stale_vrf}
use pierre.HostNetwork.Underlay.Nic.{Lists}

each-Keeps {ℓ} :
    {S A : Type ℓ} {I : S → Type ℓ} (f : A → Exec S Unit) (xs : List A)
    → ((x : A) → In x xs → Keeps I (f x))
    → Keeps I (each f xs)
unfolding each
each-Keeps f [] k = Keeps-lift (ok tt)
each-Keeps f (x ∷ xs) k =
    Keeps-bind (f x) (λ _. each f xs) (k x (here refl))
      (λ _. each-Keeps f xs (λ y m. k y (there m)))

module _ {State Ns : Type 0} (nl : Netlink State Ns) where
  -- What is not stale is left alone.
  clear_link_lem :
      (type : Text) (vnis : List ℤ) (from_name : Text → Result ℤ) (k : Link) (s : State)
      → stale type vnis from_name k ≡ false
      → (clear_link nl type vnis from_name k s).1 ≡ s
  unfolding clear_link clear_named
  clear_link_lem type vnis from_name k s h = elim (Result-cases (from_name k.name)) [
    | inl (n, e) ↦ ground (arith, e, h)
    | inr (x, e) ↦ ground (arith, e, h)
  ]

  remove_vrf_lem :
      (vrfs : List Text) (k : Link) (s : State)
      → stale_vrf vrfs k ≡ false
      → (remove_vrf nl vrfs k s).1 ≡ s
  unfolding remove_vrf
  remove_vrf_lem vrfs k s h = ground (arith, h)

  module _ (v : View State Ns) (kernel : Kernel nl v) (lists : Lists nl v) (ns : Ns) (m : Text)
      (l : Link) (base : IsBase l.kind) where
    -- The thread is in the namespace, where the VRF or the bridge is.
    pub record Inside (s : State) : Type 0 where
      pub here : v.current s ≡ ns
      pub stays : Stays l (v.link s ns m)

    -- A link that was listed while it was there.
    pub record Listed (k : Link) : Type 0 where
      pub same : k.name ≡ m → k.kind ≡ l.kind
      pub other : k.name ≢ m → k.index ≢ l.index

    list_lem : Gives Inside (λ ls. (k : Link) → In k ls → Listed k) nl.link_list
    list_lem = record {
      at = λ s i.
          let q = kernel.link_list s in
          let x = i.stays in
          (
            record {
              here = q.current ∙ i.here;
              stays = record {
                now = x.now;
                there = q.links ns m ∙ x.there;
                kind = x.kind;
                index = x.index;
              };
            },
            λ ls e k mem.
                let at : v.link s ns k.name ≡ some k =
                  subst (λ n. v.link s n k.name ≡ some k) i.here (lists s ls k e mem) in
                record {
                  same = λ f.
                      let g : ◌≡◌ {A = Option Link} (some k) (some x.now) =
                        sym at ∙ ap (v.link s ns) f ∙ x.there in
                      let one : k ≡ x.now = cc in ap (λ (y : Link). y.kind) one ∙ x.kind;
                  other =
                      λ d f. d (kernel.unique s ns k.name m k x.now at x.there (f ∙ sym x.index));
                },
          );
    }

    delete-Keeps : (k : Link) → Listed k → k.name ≢ m → Keeps Inside (nl.link_del (some k))
    delete-Keeps k listed d = record {
      after = λ s i.
          let x = i.stays in
          let spared = kernel.link_del k s in
          let at : v.link s (v.current s) m ≡ some x.now =
            subst (λ n. v.link s n m ≡ some x.now) (sym i.here) x.there in
          let y =
            spared.stays m x.now
              (
                λ e. d (sym e),
                λ e. listed.other d (sym e ∙ x.index),
                subst IsBase (sym x.kind) base,
              )
              at in
          let t = (nl.link_del (some k) s).1 in
          record {
            here = spared.current ∙ i.here;
            stays = record {
              now = y.now;
              there = subst (λ n. v.link t n m ≡ some y.now) i.here y.there;
              kind = y.kind ∙ x.kind;
              index = y.index ∙ x.index;
            };
          };
    }

    differs : (n : Text) → eq_text n m ≡ false → n ≢ m
    differs n e f = let g = (eq_text_iff n m).1 f in cc

    step-Keeps :
        (f : Link → Exec State Unit) (k : Link)
        → Listed k
        → ((s : State) → k.kind ≡ l.kind → k.name ≡ m → (f k s).1 ≡ s)
        → (Keeps Inside (nl.link_del (some k)) → Keeps Inside (f k))
        → Keeps Inside (f k)
    step-Keeps f k listed idle deletes = elim (Bool-cases (eq_text k.name m)) [
      | inl e ↦ record {
        after = λ s i.
            subst Inside
              (sym (idle s (listed.same ((eq_text_iff k.name m).0 e)) ((eq_text_iff k.name m).0 e)))
              i;
      }
      | inr e ↦ deletes (delete-Keeps k listed (differs k.name e))
    ]

    clear_one-Keeps :
        (type : Text) (vnis : List ℤ) (from_name : Text → Result ℤ) (k : Link)
        → Keeps Inside (nl.link_del (some k))
        → Keeps Inside (clear_link nl type vnis from_name k)
    unfolding clear_link clear_named
    clear_one-Keeps type vnis from_name k deleted =
        Keeps-if (eq_text (link_type k.kind) type) _ _
          (Keeps-bind (annotate "failed to get vni" (lift (from_name k.name))) _
            (Keeps-annotate _ _ (Keeps-lift (from_name k.name)))
            (λ n.
              Keeps-if (contains_int vnis n) (pure tt)
                (annotate "failed to delete link" (nl.link_del (some k))) (Keeps-lift (ok tt))
                (Keeps-annotate _ _ deleted)))
          (Keeps-lift (ok tt))

    remove_one-Keeps :
        (vrfs : List Text) (k : Link)
        → Keeps Inside (nl.link_del (some k))
        → Keeps Inside (remove_vrf nl vrfs k)
    unfolding remove_vrf
    remove_one-Keeps vrfs k deleted =
        Keeps-if (stale_vrf vrfs k) (annotate "failed to delete vrf" (nl.link_del (some k)))
          (pure tt) (Keeps-annotate _ _ deleted) (Keeps-lift (ok tt))

    clear-Keeps :
        (type : Text) (vnis : List ℤ) (from_name : Text → Result ℤ) (ls : List Link)
        → ((k : Link) → k.kind ≡ l.kind → k.name ≡ m → stale type vnis from_name k ≡ false)
        → ((k : Link) → In k ls → Listed k)
        → Keeps Inside (clear_links nl type vnis ls from_name)
    unfolding clear_links
    clear-Keeps type vnis from_name ls fresh listed =
        each-Keeps (clear_link nl type vnis from_name) ls (λ k mem.
          step-Keeps (clear_link nl type vnis from_name) k (listed k mem)
            (λ s e f. clear_link_lem type vnis from_name k s (fresh k e f))
            (λ deleted. clear_one-Keeps type vnis from_name k deleted))

    vrfs-Keeps :
        (vrfs : List Text) (ls : List Link)
        → ((k : Link) → k.kind ≡ l.kind → k.name ≡ m → stale_vrf vrfs k ≡ false)
        → ((k : Link) → In k ls → Listed k)
        → Keeps Inside (each (remove_vrf nl vrfs) ls)
    vrfs-Keeps vrfs ls fresh listed = each-Keeps (remove_vrf nl vrfs) ls (λ k mem.
        step-Keeps (remove_vrf nl vrfs) k (listed k mem)
          (λ s e f. remove_vrf_lem vrfs k s (fresh k e f))
          (λ deleted. remove_one-Keeps vrfs k deleted))

    -- What is configured, of the kind and the name of the link, is not stale.
    pub record Fresh (vrfs : List Text) (vnis : List ℤ) : Type 0 where
      pub vxlan :
          (k : Link)
          → k.kind ≡ l.kind
          → k.name ≡ m
          → stale (codes "vxlan") vnis vni_from_vxlan_name k ≡ false
      pub bridge :
          (k : Link)
          → k.kind ≡ l.kind
          → k.name ≡ m
          → stale (codes "bridge") vnis vni_from_bridge_name k ≡ false
      pub vrf : (k : Link) → k.kind ≡ l.kind → k.name ≡ m → stale_vrf vrfs k ≡ false

    pub remove_router_side-Keeps :
        (vrfs : List Text) (vnis : List ℤ)
        → Fresh vrfs vnis
        → Keeps Inside (remove_router_side nl vrfs vnis)
    unfolding remove_router_side
    remove_router_side-Keeps vrfs vnis fresh = Keeps-gives _ (
        Gives-bind {P = λ ls. (k : Link) → In k ls → Listed k}
          (annotate "failed to list links" nl.link_list) _ (Gives-annotate _ _ list_lem)
          (λ ls listed. Gives-keeps _ (
            Keeps-bind (clear_links nl (codes "vxlan") vnis ls vni_from_vxlan_name) _
              (clear-Keeps (codes "vxlan") vnis vni_from_vxlan_name ls fresh.vxlan listed)
              (λ _.
                Keeps-bind (clear_links nl (codes "bridge") vnis ls vni_from_bridge_name) _
                  (clear-Keeps (codes "bridge") vnis vni_from_bridge_name ls fresh.bridge listed)
                  (λ _. vrfs-Keeps vrfs ls fresh.vrf listed)))))
