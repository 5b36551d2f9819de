-- ===== src/Tests/Machine.antt =====
-- A machine that stands for the kernel in the tests: the links that exist, by name, and the network
-- namespace of the thread.
use pierre.Base.{
  ℕ, ◌+◌, ◌==◌, not, none, some, List, [], ◌∷◌, ◌++◌, length, Text, eq_text, Result, ok, err,
  errorf, link_not_found, if◌then◌else◌, keep, arith,
}
use pierre.Base.Exec.{pure}
use pierre.HostNetwork.Netlink.{Netlink, Link}
use pierre.HostNetwork.Added.{AddKeeps}
use pierre.HostNetwork.Namespace.Restores.{NsLaws}
use pierre.Base.{Option}
use pierre.Base.Keeps.{Keeps}
use pierre.HostNetwork.Home.{At}
use pierre.HostNetwork.LinksStay.{LinksStay}
use pierre.Tests.Demo.{network}

pub record Machine : Type 0 where
  pub links : List Link
  pub current : ℕ

named : Text → List Link → Result Link
named name [] = err link_not_found
named name (l ∷ ls) = let later = named name ls in if eq_text l.name name then ok l else later

numbered : ℕ → List Link → Result Link
numbered i [] = err link_not_found
numbered i (l ∷ ls) = let later = numbered i ls in if l.index == i then ok l else later

-- The link that is added to a machine.
abbrev added : Link → Machine → Link
added l m = record l { index = length m.links + 1 }

unfoldable pub machine : Netlink Machine ℕ
unfolding named numbered
machine = record {
  link_by_name = λ name m. (named name m.links, m);
  link_by_index = λ i m. (numbered i m.links, m);
  link_list = λ m. (ok m.links, m);
  link_add = λ l m. (ok (added l m), record m { links = m.links ++ added l m ∷ [] });
  link_del = λ l m. elim l [
    | none ↦ (err (errorf "nil link"), m)
    | some k ↦ (ok tt, record m { links = keep (λ x. not (eq_text x.name k.name)) m.links })
  ];
  link_set_up = λ l. pure tt;
  link_set_master = λ l k. pure tt;
  link_set_ns_fd = λ l n. pure tt;
  veth_peer_index = λ l. pure (l.index + 1);
  parse_addr = λ t. ok (record { net = network 0 32; flags = 0 });
  addr_list = λ l. pure [];
  addr_add = λ l a. pure tt;
  addr_del = λ l a. pure tt;
  route_list_filtered = λ r. pure [];
  route_add = λ r. pure tt;
  ns_from_name = λ t. pure 1;
  get_ns = λ m. (ok m.current, m);
  set_ns = λ n m. (ok tt, record m { current = n });
  open_file = λ t. pure 3;
  write_file = λ i t. pure tt;
  set_protinfo = λ i j l. pure tt;
}

pub machine-AddKeeps : AddKeeps machine
unfolding machine
machine-AddKeeps l k s t h = ground arith

pub machine-NsLaws : NsLaws machine (λ m. m.current)
unfolding machine
machine-NsLaws = record {
  get_ok = λ s t n h. ground arith;
  get_err = λ s t e h. ground arith;
  set_ok = λ s t n h. ground arith;
  set_err = λ s t n e h. ground arith;
}

kept_by_del :
    (home : ℕ) (l : Option Link) → Keeps (At (λ (m : Machine). m.current) home) (machine.link_del l)
unfolding machine
kept_by_del home none = record { after = λ s i. i }
kept_by_del home (some l) = record { after = λ s i. i }

pub machine-LinksStay : (home : ℕ) → LinksStay machine (At (λ (m : Machine). m.current) home)
unfolding machine
machine-LinksStay home = record {
  link_by_name = λ name. record { after = λ s i. i };
  link_by_index = λ index. record { after = λ s i. i };
  link_list = record { after = λ s i. i };
  link_add = λ l. record { after = λ s i. i };
  link_del = kept_by_del home;
  link_set_up = λ l. record { after = λ s i. i };
  link_set_ns_fd = λ l ns. record { after = λ s i. i };
  veth_peer_index = λ l. record { after = λ s i. i };
  addr_list = λ l. record { after = λ s i. i };
  addr_add = λ l a. record { after = λ s i. i };
  ns_from_name = λ name. record { after = λ s i. i };
  get_ns = record { after = λ s i. i };
}
