-- ===== src/HostNetwork/Again/Veth.antt =====
-- internal/hostnetwork/veth.go: setupVeth on legs that are in place, and functions that run in the
-- router's namespace.
use pierre.Base.{
  ap, ℕ, subst, sym, ◌∙◌, ◌≡◌, refl, Bool, if◌then◌else◌, Option, some, Text, Error, Result, ok,
  err, is_not_found, true, Result-cases, inl, inr, arith,
}
use pierre.Base.Exec.{Exec, pure, attempt, annotate, ◌>>=◌, ◌>>◌}
use pierre.Base.Keeps.{Keeps}
use pierre.Base.Gives.{Gives, Gives-bind, Gives-pure, Gives-annotate, Gives-attempt, Keeps-gives}
use pierre.Net.{Net}
use pierre.HostNetwork.Params.{VniParams}
use pierre.HostNetwork.Names.{veth_legs_for_vrf}
use pierre.HostNetwork.Netlink.{Netlink, Link}
use pierre.HostNetwork.Elsewhere.{Elsewhere}
use pierre.HostNetwork.Namespace.{in_namespace}
use pierre.HostNetwork.Namespace.Restores.{NsLaws, in_namespace_restores}
use pierre.HostNetwork.Kernel.{View, Kernel}
use pierre.HostNetwork.Veth
use pierre.HostNetwork.Veth.{is_veth, ensure_veth, peer, setup_veth}
use pierre.HostNetwork.Setup.Vni.{in_namespace_lem}
use pierre.HostNetwork.Again.{Settled, As, quiet, ensured}

module _ {State Ns : Type 0} (nl : Netlink State Ns) (net : Net) (v : View State Ns)
    (kernel : Kernel nl v) (away : Elsewhere nl v) (settled : Settled nl v)
    (laws : NsLaws nl v.current) (home ns : Ns) (back : (t : State) → (nl.set_ns home t).0 ≡ ok tt)
    (s0 : State) where
  abbrev pub Host : State → Type 0
  Host = As nl net v kernel away settled home s0

  abbrev pub There : State → Type 0
  There = As nl net v kernel away settled ns s0

  unchanged :
      {A : Type 0} (body : Exec State A)
      → Keeps There body
      → (s : State) → Host s
      → (n : Ns) (k : Text) → v.link (in_namespace nl ns body s).1 n k ≡ v.link s0 n k
  unfolding in_namespace
  unchanged body k s i n m =
      let first = (kernel.get_ns s).links n m ∙ i.links n m in
      elim (Result-cases (nl.get_ns s).0) [
        | inr (x, e) ↦ ground (arith, e, first)
        | inl (orig, e) ↦
            let t = (nl.get_ns s).1 in
            let u = (nl.set_ns ns t).1 in
            let second = kernel.set_links ns t n m ∙ first in
            elim (Result-cases (nl.set_ns ns t).0) [
              | inr (x, f) ↦ ground (arith, e, f, second)
              | inl (y, f) ↦
                  let there : There u = record {
                    links = λ n m.
                        kernel.set_links ns t n m ∙ (kernel.get_ns s).links n m ∙ i.links n m;
                    current = kernel.set_ok ns t f;
                  } in
                  let third = kernel.set_links orig (body u).1 n m ∙ (k.after u there).links n m in
                  ground (arith, e, f, third)
            ]
      ]

  pub inside :
      {A : Type 0} (P : A → Type 0) (body : Exec State A)
      → Gives There P body
      → Gives Host P (in_namespace nl ns body)
  inside P body g = record {
    at = λ s i. (
      record {
        links = unchanged body (Keeps-gives body g) s i;
        current =
            in_namespace_restores nl v.current laws ns body s
              (λ t. ap (λ (n : Ns). (nl.set_ns n t).0) i.current ∙ back t)
            ∙ i.current;
      },
      λ a h.
          let (u, w, c, e, before, _) =
            in_namespace_lem nl v kernel ns body s (in_namespace nl ns body s).1 a
              (λ j. (h j, (in_namespace nl ns body s).1)) in
          let there : There u = record { links = λ n m. before n m ∙ i.links n m; current = c } in
          (g.at u there).1 a (λ j. (e j).0),
    );
  }

  -- What is in place of a VNI on the host: its leg, whose peer, by its index, is none of the host's
  -- links and has the VRF as its master.
  pub record Peer (r : Link) (j : ℕ) : Type 0 where
    pub absent :
        (s : State)
        → Host s
        → (e : Error) × ((nl.link_by_index j s).0 ≡ err e) × (is_not_found e ≡ true)
    pub master :
        (s : State) (l : Link)
        → There s
        → (nl.link_by_index j s).0 ≡ ok l
        → l.master_index ≡ r.index

  pub record Legs (params : VniParams) (r : Link) : Type 0 where
    pub h : Link
    pub there : v.link s0 home (veth_legs_for_vrf params.vrf).0 ≡ some h
    pub is_veth : is_veth h.kind ≡ true
    pub peer : (s : State) (j : ℕ) → Host s → (nl.veth_peer_index h s).0 ≡ ok j → Peer r j

  module _ (params : VniParams) (r : Link) (legs : Legs params r) where
    abbrev h : Link
    h = legs.h

    -- The legs that setupVeth finds.
    abbrev pub Found : Link × Option Link → Type 0
    Found p = (p.0 ≡ h) × (pe : Link) × (p.1 ≡ some pe) × (pe.master_index ≡ r.index)

    abbrev Seen : Option Link × Bool → Type 0
    Seen p = (p.1 ≡ true) × (pe : Link) × (p.0 ≡ some pe) × (pe.master_index ≡ r.index)

    leg_lem : Gives Host (λ l. l ≡ h) (ensure_veth nl params.vrf)
    unfolding ensure_veth Veth.found_or_created Veth.checked
    leg_lem =
        ensured nl net v kernel away settled home s0 (veth_legs_for_vrf params.vrf).0 h
          (Veth.found_or_created nl params.vrf) (Veth.checked nl params.vrf) legs.there
          (Gives-pure (some h) refl) (rw legs.is_veth (Gives-pure h refl))

    not_ok :
        (j : ℕ)
        → Peer r j
        → Gives Host
            (λ x. (e : Error) × (x ≡ err e) × (is_not_found e ≡ true))
            (attempt (nl.link_by_index j))
    not_ok j p = Gives-attempt (nl.link_by_index j) (λ s i. (
      (quiet nl net v kernel away settled home s0 (nl.link_by_index j) (away.link_by_index j)).after
          s i,
      p.absent s i,
    ))

    looked : (j : ℕ) → Peer r j → Gives There (λ l. l.master_index ≡ r.index) (nl.link_by_index j)
    looked j p = record {
      at = λ s i. (
        (quiet nl net v kernel away settled ns s0 (nl.link_by_index j) (away.link_by_index j)).after
            s i,
        λ l e. p.master s l i e,
      );
    }

    peer_err :
        (j : ℕ) (e : Error)
        → is_not_found e ≡ true
        → Peer r j
        → Gives Host Seen (peer nl ns j (err e))
    unfolding peer
    peer_err j e found p = rw found (
        Gives-bind {P = λ (l : Link). l.master_index ≡ r.index}
          (annotate "could not find peer veth by index" (in_namespace nl ns (nl.link_by_index j))) _
          (Gives-annotate _ _
            (inside (λ l. l.master_index ≡ r.index) (nl.link_by_index j) (looked j p)))
          (λ l m. Gives-pure (some l, true) (refl, l, refl, m)))

    peer_lem :
        (j : ℕ) (x : Result Link)
        → (e : Error) × (x ≡ err e) × (is_not_found e ≡ true)
        → Peer r j
        → Gives Host Seen (peer nl ns j x)
    peer_lem j x (e, same, found) p =
        subst (λ x. Gives Host Seen (peer nl ns j x)) (sym same) (peer_err j e found p)

    -- The end of setupVeth: a peer that is elsewhere already is not moved.
    abbrev taken : Link → Option Link × Bool → Exec State (Link × Option Link)
    taken l (pe, already) =
        if already
        then pure (l, pe)
        else (annotate "Failed to move to network namespace" (nl.link_set_ns_fd pe ns)
            >> pure (l, pe))

    taken_lem :
        (l : Link) → l ≡ h → (q : Option Link × Bool) → Seen q → Gives Host Found (taken l q)
    taken_lem l same q seen =
        let pe = q.0 in
        let moved =
          annotate "Failed to move to network namespace" (nl.link_set_ns_fd pe ns)
          >> pure (l, pe) in
        subst (λ b. Gives Host Found (if b then pure (l, pe) else moved)) (sym seen.0)
          (Gives-pure (l, pe) (same, seen.1, seen.2, seen.3))

    pub veth_lem : Gives Host Found (setup_veth nl params.vrf ns)
    unfolding setup_veth
    veth_lem = Gives-bind (ensure_veth nl params.vrf) _ leg_lem (λ l same.
        Gives-bind {P = Peer r} (annotate "could not find peer veth" (nl.veth_peer_index l)) _
          (Gives-annotate _ _ (
            subst (λ l. Gives Host (Peer r) (nl.veth_peer_index l)) (sym same)
              (record {
                at = λ s i. (
                  (quiet nl net v kernel away settled home s0 (nl.veth_peer_index h)
                        (away.veth_peer_index h)).after
                      s i,
                  λ j e. legs.peer s j i e,
                );
              })))
          (λ j p.
            Gives-bind (attempt (nl.link_by_index j)) (λ x. peer nl ns j x >>= taken l) (not_ok j p)
              (λ x e.
                Gives-bind {P = Seen} (peer nl ns j x) (taken l) (peer_lem j x e p)
                  (taken_lem l same))))
