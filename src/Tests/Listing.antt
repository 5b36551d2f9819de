-- ===== src/Tests/Listing.antt =====
-- The machine of Slots with a list of its links.
use pierre.Base.{
  ◌≡◌, refl, sym, ap, ◌∙◌, ℕ, Bool, true, false, not, Bool-cases, inl, inr, some, List, [], ◌∷◌, In,
  here, there, keep, eq_text, eq_text_iff, ok, arith, ok-injective, subst, if◌then◌else◌,
}
use pierre.HostNetwork.Netlink.{Netlink, Link}
use pierre.HostNetwork.Kernel.{Kernel}
use pierre.HostNetwork.Underlay.Nic.{Lists}
use pierre.Tests.Slots.{Slots, slots, view, look, indexed, slots-Kernel}

-- The links that are found by their names.
unfoldable pub visible : List Link → List Link
visible [] = []
visible (l ∷ ls) = indexed l ls ∷ keep (λ k. not (eq_text l.name k.name)) (visible ls)

In-keep : (p : Link → Bool) (l : Link) (ls : List Link) → In l (keep p ls) → In l ls × (p l ≡ true)
In-keep p l [] m = elim m [ ]
In-keep p l (k ∷ ks) m =
    let kept =
      λ (b : Bool) (e : p k ≡ b). subst (λ b. In l (if b then k ∷ keep p ks else keep p ks)) e m in
    elim (Bool-cases (p k)) [
      | inl e ↦ elim (kept true e) [
        | here f ↦ (here f, ap p f ∙ e)
        | there n ↦ let (i, h) = In-keep p l ks n in (there i, h)
      ]
      | inr e ↦ let (i, h) = In-keep p l ks (kept false e) in (there i, h)
    ]

visible_lem : (ls : List Link) (l : Link) → In l (visible ls) → look l.name ls ≡ some l
unfolding visible look
visible_lem [] l m = elim m [ ]
visible_lem (k ∷ ks) l (here e) =
    subst (λ l. look l.name (k ∷ ks) ≡ some l) (sym e) (ground (arith, eq_text_iff k.name k.name))
visible_lem (k ∷ ks) l (there m) =
    let (i, h) = In-keep (λ x. not (eq_text k.name x.name)) l (visible ks) m in
    ground (arith, h, visible_lem ks l i)

abbrev pub listing : Netlink Slots ℕ
listing = record slots { link_list = λ s. (ok (visible s.links), s) }

pub listing-Lists : Lists listing view
unfolding view
listing-Lists s ls l h m = visible_lem s.links l (subst (In l) (sym (ok-injective h)) m)

pub listing-Kernel : Kernel listing view
listing-Kernel = record {
  link_by_name = slots-Kernel.link_by_name;
  link_list = λ s. record { links = λ ns n. refl; current = refl };
  link_set_up = slots-Kernel.link_set_up;
  addr_list = slots-Kernel.addr_list;
  addr_add = slots-Kernel.addr_add;
  open_file = slots-Kernel.open_file;
  write_file = slots-Kernel.write_file;
  set_protinfo = slots-Kernel.set_protinfo;
  found = slots-Kernel.found;
  unique = slots-Kernel.unique;
  link_add = slots-Kernel.link_add;
  added = slots-Kernel.added;
  link_del = slots-Kernel.link_del;
  link_del_nil = slots-Kernel.link_del_nil;
  link_set_master = slots-Kernel.link_set_master;
  get_ns = slots-Kernel.get_ns;
  set_links = slots-Kernel.set_links;
  set_ok = slots-Kernel.set_ok;
}
