-- ===== src/Tests/Slots.antt =====
-- A machine with the laws of the kernel: no link is ever deleted, none is added under a name that is
-- there, and the index of a link is its place in the order in which they were added.
use pierre.Base.{
  ◌∙◌, ap, sym, subst, ok-injective, ℕ, ◌+◌, ◌≤◌, ◌≡◌, ◌≢◌, refl, none, some, List, [], ◌∷◌, length,
  Text, eq_text, eq_text_iff, Result, ok, err, link_not_found, if◌then◌else◌, arith, Option, errorf,
  codes, ◌==◌,
}
use pierre.Base.Exec.{pure, raise}
use pierre.HostNetwork.Netlink.{Netlink, Link, Address, new_link, dummy}
use pierre.HostNetwork.Added.{AddKeeps}
use pierre.HostNetwork.Again.{Settled}
use pierre.HostNetwork.Elsewhere.{Elsewhere}
use pierre.HostNetwork.Namespace.Restores.{NsLaws}
use pierre.HostNetwork.Kernel.{View, Kernel, Stays, Same}
use pierre.Tests.Demo.{network}

pub record Slots : Type 0 where
  pub links : List Link
  pub current : ℕ

abbrev pub indexed : Link → List Link → Link
indexed l ls = record l { index = length ls + 1 }

unfoldable pub look : Text → List Link → Option Link
look name [] = none
look name (l ∷ ls) =
    let later = look name ls in if eq_text l.name name then some (indexed l ls) else later

abbrev answer : Option Link → Result Link
answer none = err link_not_found
answer (some l) = ok l

-- A link of the name is there, or none is and it is added.
unfoldable pub add : Option Link → Link → Slots → Result Link × Slots
add (some k) l s = (err (errorf "file exists"), s)
add none l s = (ok (indexed l s.links), record s { links = l ∷ s.links })

-- The peers of the veths are in the namespace 1, each with the VRF that was added next as its master.
abbrev pub pe : ℕ → Link
pe i = record { index = i; name = codes "pe"; master_index = i; kind = dummy }

unfoldable pub peer_at : ℕ → ℕ → Result Link
peer_at current i = if current == 1 then ok (pe i) else err link_not_found

-- The interface of the underlay has an address.
unfoldable pub addresses : Option Link → List Address
addresses none = []
addresses (some l) =
    if eq_text l.name (codes "toswitch") then record { net = network 0 32; flags = 0 } ∷ [] else []

unfoldable pub slots : Netlink Slots ℕ
unfolding look add peer_at addresses
slots = record {
  link_by_name = λ name s. (answer (look name s.links), s);
  link_by_index = λ i s. (peer_at s.current i, s);
  link_list = λ s. (ok s.links, s);
  link_add = λ l s. add (look l.name s.links) l s;
  link_del = λ l. raise (errorf "operation not supported");
  link_set_up = λ l. pure tt;
  link_set_master = λ l k. pure tt;
  link_set_ns_fd = λ l n. pure tt;
  veth_peer_index = λ l. pure (l.index + 1);
  parse_addr = λ t. ok (record { net = network 0 32; flags = 0 });
  addr_list = λ l. pure (addresses l);
  addr_add = λ l a. pure tt;
  addr_del = λ l a. pure tt;
  route_list_filtered = λ r. pure [];
  route_add = λ r. pure tt;
  ns_from_name = λ t. pure 1;
  get_ns = λ s. (ok s.current, s);
  set_ns = λ n s. (ok tt, record s { current = n });
  open_file = λ t. pure 3;
  write_file = λ i t. pure tt;
  set_protinfo = λ i j l. pure tt;
}

-- All namespaces have the same links.
unfoldable pub view : View Slots ℕ
unfolding look
view = record { link = λ s ns name. look name s.links; current = λ s. s.current }

add-AddKeeps :
    (o : Option Link) (l k : Link) (s t : Slots)
    → add o l s ≡ (ok k, t)
    → (k.name ≡ l.name) × (k.master_index ≡ l.master_index) × (k.kind ≡ l.kind)
unfolding add
add-AddKeeps (some x) l k s t h = cc
add-AddKeeps none l k s t h = ground arith

pub slots-AddKeeps : AddKeeps slots
unfolding slots
slots-AddKeeps l k s t h = add-AddKeeps (look l.name s.links) l k s t h

look_name : (name : Text) (ls : List Link) (l : Link) → look name ls ≡ some l → l.name ≡ name
unfolding look
look_name name [] l h = cc
look_name name (k ∷ ks) l h = ground (arith, eq_text_iff k.name name, look_name name ks l)

look_index : (name : Text) (ls : List Link) (l : Link) → look name ls ≡ some l → l.index ≤ length ls
unfolding look
look_index name [] l h = ground arith
look_index name (k ∷ ks) l h = ground (arith, look_index name ks l)

look_unique :
    (n m : Text) (ls : List Link) (k l : Link)
    → look n ls ≡ some k
    → look m ls ≡ some l
    → k.index ≡ l.index
    → n ≡ m
unfolding look
look_unique n m [] k l h e i = ground arith
look_unique n m (x ∷ xs) k l h e i = ground (
  arith,
  eq_text_iff x.name n,
  eq_text_iff x.name m,
  look_unique n m xs k l,
  look_index n xs k,
  look_index m xs l,
)

answered : (o : Option Link) (l : Link) → answer o ≡ ok l → o ≡ some l
answered none l h = cc
answered (some k) l h = ground arith

same : (s : Slots) → Same view s s
same s = record { links = λ ns n. refl; current = refl }

abbrev kept : {o : Option Link} (l : Link) → o ≡ some l → Stays l o
kept l e = record { now = l; there = e; kind = refl; index = refl }

look_other :
    (n m : Text) (l k : Link) (ls : List Link)
    → m ≢ n
    → l.name ≡ n
    → look m ls ≡ some k
    → look m (l ∷ ls) ≡ some k
unfolding look
look_other n m l k ls d e h = ground (arith, eq_text_iff l.name m)

look_added : (l : Link) (ls : List Link) → look l.name (l ∷ ls) ≡ some (indexed l ls)
unfolding look
look_added l ls = ground (arith, eq_text_iff l.name l.name)

added :
    (o : Option Link) (n : Text) (l : Link) (s : Slots) (k : Link)
    → o ≡ look n s.links
    → l.name ≡ n
    → (add o l s).0 ≡ ok k
    → look n (add o l s).1.links ≡ some k
unfolding add
added (some x) n l s k e f h = cc
added none n l s k e f h =
    subst (λ x. look x (l ∷ s.links) ≡ some (indexed l s.links)) f (look_added l s.links)
    ∙ ap some (ok-injective h)

others_stay :
    (o : Option Link) (l : Link) (s : Slots) (m : Text) (k : Link)
    → o ≡ look l.name s.links
    → look m s.links ≡ some k
    → look m (add o l s).1.links ≡ some k
unfolding add
others_stay (some x) l s m k e f = f
others_stay none l s m k e f =
    look_other l.name m l k s.links
      (λ g.
        let c : ◌≡◌ {A = Option Link} none (some k) = e ∙ ap (λ x. look x s.links) (sym g) ∙ f in
        cc)
      refl f

same_place : (o : Option Link) (l : Link) (s : Slots) → (add o l s).1.current ≡ s.current
unfolding add
same_place (some x) l s = refl
same_place none l s = refl

pub slots-Kernel : Kernel slots view
unfolding slots view
slots-Kernel = record {
  link_by_name = λ n s. same s;
  link_list = λ s. same s;
  link_set_up = λ l s. same s;
  addr_list = λ l s. same s;
  addr_add = λ l a s. same s;
  open_file = λ p s. same s;
  write_file = λ f t s. same s;
  set_protinfo = λ i j b s. same s;
  found = λ n s l h. let e = answered (look n s.links) l h in (e, look_name n s.links l e);
  unique = λ s ns n m k l h e i. look_unique n m s.links k l h e i;
  link_add = λ n i k s.
      let l = new_link n i k in
      record {
        stays = λ m x d e. kept x (others_stay (look n s.links) l s m x refl e);
        current = same_place (look n s.links) l s;
      };
  added = λ n i k s l h. added (look n s.links) n (new_link n i k) s l refl refl h;
  link_del = λ l s. record { stays = λ m k p e. kept k e; current = refl };
  link_del_nil = λ s. same s;
  link_set_master = λ l k s. record { stays = λ m k p e. kept k e; current = refl };
  get_ns = λ s. same s;
  set_links = λ n s ns k. refl;
  set_ok = λ n s h. refl;
}

pub slots-Elsewhere : Elsewhere slots view
unfolding slots view
slots-Elsewhere = record {
  link_by_index = λ i s. same s;
  veth_peer_index = λ l s. same s;
  ns_from_name = λ n s. same s;
  link_add = λ l s. record {
    stays = λ ns m x d b e. kept x (others_stay (look l.name s.links) l s m x refl e);
    current = same_place (look l.name s.links) l s;
  };
  link_del = λ l s. record { stays = λ ns m k d b e. kept k e; current = refl };
  link_set_ns_fd = λ l n s. record { stays = λ ns m k d b e. kept k e; current = refl };
}

pub slots-NsLaws : NsLaws slots view.current
unfolding slots view
slots-NsLaws = record {
  get_ok = λ s t n h. ground arith;
  get_err = λ s t e h. ground arith;
  set_ok = λ s t n h. ground arith;
  set_err = λ s t n e h. ground arith;
}

answered_some : (o : Option Link) (l : Link) → o ≡ some l → answer o ≡ ok l
answered_some none l h = cc
answered_some (some k) l h = ground arith

pub slots-Settled : Settled slots view
unfolding slots view
slots-Settled = record {
  finds = λ n s l e. answered_some (look n s.links) l e;
  mastered = λ l m s e. same s;
}
