-- ===== src/Tests/Shelf.antt =====
-- A machine on which links can be deleted: the place of a deleted link stays empty, and the index of
-- a link is its place.
use pierre.Base.{
  ap, ok-injective, ℕ, ◌+◌, ◌≡◌, refl, none, some, List, [], ◌∷◌, length, Text, eq_text, Result, ok,
  err, link_not_found, if◌then◌else◌, Option, errorf, codes,
}
use pierre.Base.Exec.{Exec, pure, raise}
use pierre.Base.Ends.{Ends}
use pierre.HostNetwork.Netlink.{Netlink, Link, new_link, dummy, vrf}
use pierre.HostNetwork.Kernel.{View, Kernel, Stays}
use pierre.Tests.Demo.{network}

record Shelf : Type 0 where
  links : List (Option Link)

abbrev indexed : Link → List (Option Link) → Link
indexed l ls = record l { index = length ls + 1 }

unfoldable look : Text → List (Option Link) → Option Link
look name [] = none
look name (none ∷ ls) = look name ls
look name (some l ∷ ls) =
    let later = look name ls in if eq_text l.name name then some (indexed l ls) else later

unfoldable drop : Text → List (Option Link) → List (Option Link)
drop name [] = []
drop name (none ∷ ls) = none ∷ drop name ls
drop name (some l ∷ ls) =
    let later = drop name ls in if eq_text l.name name then none ∷ later else some l ∷ later

abbrev answer : Option Link → Result Link
answer none = err link_not_found
answer (some l) = ok l

unfoldable add : Option Link → Link → Shelf → Result Link × Shelf
add (some k) l s = (err (errorf "file exists"), s)
add none l s = (ok (indexed l s.links), record s { links = some l ∷ s.links })

unfoldable delete : Option Link → Exec Shelf Unit
unfolding drop
delete none s = (err (errorf "invalid argument"), s)
delete (some l) s = (ok tt, record s { links = drop l.name s.links })

unfoldable shelf : Netlink Shelf ℕ
unfolding look add delete
shelf = record {
  link_by_name = λ name s. (answer (look name s.links), s);
  link_by_index = λ i. raise link_not_found;
  link_list = pure [];
  link_add = λ l s. add (look l.name s.links) l s;
  link_del = delete;
  link_set_up = λ l. pure tt;
  link_set_master = λ l k. pure tt;
  link_set_ns_fd = λ l n. pure tt;
  veth_peer_index = λ l. raise link_not_found;
  parse_addr = λ t. ok (record { net = network 0 32; flags = 0 });
  addr_list = λ l. pure [];
  addr_add = λ l a. pure tt;
  addr_del = λ l a. pure tt;
  route_list_filtered = λ r. pure [];
  route_add = λ r. pure tt;
  ns_from_name = λ t. pure 0;
  get_ns = λ s. (ok 0, s);
  set_ns = λ n. raise (errorf "operation not permitted");
  open_file = λ t. pure 3;
  write_file = λ i t. pure tt;
  set_protinfo = λ i j l. pure tt;
}

-- There is one namespace.
unfoldable view : View Shelf ℕ
unfolding look
view = record { link = λ s ns name. look name s.links; current = λ s. 0 }

answered : (o : Option Link) (l : Link) → answer o ≡ ok l → o ≡ some l
answered none l h = cc
answered (some k) l h = ap some (ok-injective h)

abbrev kept : {o : Option Link} (l : Link) → o ≡ some l → Stays l o
kept l e = record { now = l; there = e; kind = refl; index = refl }

-- A VRF has the names of the bridge and of the veth, and a dummy that of the VRF.
abbrev taken : Shelf
taken = record {
  links = some (new_link (codes "red") 0 dummy) ∷ some (new_link (codes "hostred") 0 (vrf 1)) ∷ [];
}
