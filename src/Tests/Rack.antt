-- ===== src/Tests/Rack.antt =====
-- A machine with the loopback of the underlay and two interfaces that can be moved from one
-- namespace to another.
use pierre.Base.{
  ap, subst, sym, ℕ, ◌≡◌, ◌≢◌, ◌⊎◌, inl, inr, refl, Option, none, some, List, [], ◌∷◌, In, here,
  there, Text, codes, eq_text, eq_text_iff, Result, ok, err, errorf, link_not_found, ok-injective,
  if◌then◌else◌, Bool-cases, ◌==◌, arith,
}
use pierre.Base.Exec.{Exec, pure, raise}
use pierre.HostNetwork.Netlink.{Netlink, Link, Address, dummy}
use pierre.HostNetwork.Vxlan.{underlay_loopback}
use pierre.HostNetwork.Kernel.{View, Kernel, Same, Stays}
use pierre.HostNetwork.Namespace.Restores.{NsLaws}
use pierre.HostNetwork.Underlay.Nic.{Lists}
use pierre.HostNetwork.Underlay.Moves.{Moves}
use pierre.HostNetwork.Underlay.Exchange.{Passes}
use pierre.Tests.Demo.{network}

-- The namespaces of the two interfaces, and that of the thread.
pub record Rack : Type 0 where
  pub eth0_at : ℕ
  pub eth1_at : ℕ
  pub current : ℕ

abbrev pub eth0 : Link
eth0 = record { index = 2; name = codes "eth0"; master_index = 0; kind = dummy }

abbrev pub eth1 : Link
eth1 = record { index = 3; name = codes "eth1"; master_index = 0; kind = dummy }

abbrev pub loopback : Link
loopback = record { index = 1; name = underlay_loopback; master_index = 0; kind = dummy }

abbrev pub only_if : ℕ → ℕ → Link → Option Link
only_if at ns l = if at == ns then some l else none

unfoldable pub seat : Rack → ℕ → Text → Option Link
seat s ns n =
    if eq_text n eth0.name
    then only_if s.eth0_at ns eth0
    else if eq_text n eth1.name
    then only_if s.eth1_at ns eth1
    else if eq_text n underlay_loopback
    then only_if 1 ns loopback
    else none

abbrev answer : Option Link → Result Link
answer none = err link_not_found
answer (some l) = ok l

abbrev also : Option Link → List Link → List Link
also none ls = ls
also (some l) ls = l ∷ ls

-- A link that is in the namespace of the thread is moved, if it is an interface.
unfoldable pub move : Option Link → ℕ → Exec Rack Unit
move none to s = (err (errorf "invalid argument"), s)
move (some l) to s =
    if eq_text l.name eth0.name
    then (if s.eth0_at == s.current
        then (ok tt, record s { eth0_at = to })
        else (err link_not_found, s))
    else if eq_text l.name eth1.name
    then (if s.eth1_at == s.current
        then (ok tt, record s { eth1_at = to })
        else (err link_not_found, s))
    else (err (errorf "operation not supported"), s)

-- eth0 has the special address.
unfoldable pub addresses : Option Link → List Address
addresses none = []
addresses (some l) =
    if eq_text l.name eth0.name then record { net = network 2886729985 32; flags = 0 } ∷ [] else []

unfoldable pub rack : Netlink Rack ℕ
unfolding seat move addresses
rack = record {
  link_by_name = λ n s. (answer (seat s s.current n), s);
  link_by_index = λ i. raise link_not_found;
  link_list = λ s. (
    ok (
        also (seat s s.current eth0.name)
          (also (seat s s.current eth1.name) (also (seat s s.current underlay_loopback) []))),
    s,
  );
  link_add = λ l. raise (errorf "file exists");
  link_del = λ l. raise (errorf "operation not supported");
  link_set_up = λ l. pure tt;
  link_set_master = λ l k. raise (errorf "operation not supported");
  link_set_ns_fd = move;
  veth_peer_index = λ l. raise link_not_found;
  parse_addr = λ t. ok (record { net = network 0 32; flags = 0 });
  addr_list = λ l. pure (addresses l);
  addr_add = λ l a. pure tt;
  addr_del = λ l a. pure tt;
  route_list_filtered = λ r. pure [];
  route_add = λ r. pure tt;
  ns_from_name = λ t. pure 1;
  get_ns = λ s. (ok s.current, s);
  set_ns = λ n s. (ok tt, record s { current = n });
  open_file = λ t. pure 3;
  write_file = λ i t. pure tt;
  set_protinfo = λ i j l. pure tt;
}

unfoldable pub view : View Rack ℕ
unfolding seat
view = record { link = seat; current = λ s. s.current }

seat_name : (s : Rack) (ns : ℕ) (n : Text) (l : Link) → seat s ns n ≡ some l → l.name ≡ n
unfolding seat
seat_name s ns n l h =
    ground
      (arith, eq_text_iff n eth0.name, eq_text_iff n eth1.name, eq_text_iff n underlay_loopback)

seat_unique :
    (s : Rack) (ns : ℕ) (n m : Text) (k l : Link)
    → seat s ns n ≡ some k
    → seat s ns m ≡ some l
    → k.index ≡ l.index
    → n ≡ m
unfolding seat
seat_unique s ns n m k l h g e = ground (
  arith,
  eq_text_iff n eth0.name,
  eq_text_iff n eth1.name,
  eq_text_iff n underlay_loopback,
  eq_text_iff m eth0.name,
  eq_text_iff m eth1.name,
  eq_text_iff m underlay_loopback,
)

answered : (o : Option Link) (l : Link) → answer o ≡ ok l → o ≡ some l
answered none l h = cc
answered (some k) l h = ap some (ok-injective h)

also-In : (o : Option Link) (ls : List Link) (l : Link) → In l (also o ls) → (o ≡ some l) ⊎ In l ls
also-In none ls l m = inr m
also-In (some k) ls l (here e) = inl (ap some (sym e))
also-In (some k) ls l (there m) = inr m

placed :
    (s : Rack) (n : Text) (l : Link)
    → seat s s.current n ≡ some l
    → seat s s.current l.name ≡ some l
placed s n l h = subst (λ x. seat s s.current x ≡ some l) (sym (seat_name s s.current n l h)) h

pub rack-Lists : Lists rack view
unfolding rack view
rack-Lists s ls l h m =
    elim (also-In (seat s s.current eth0.name) _ l (subst (In l) (sym (ok-injective h)) m)) [
      | inl e ↦ placed s eth0.name l e
      | inr m1 ↦ elim (also-In (seat s s.current eth1.name) _ l m1) [
        | inl e ↦ placed s eth1.name l e
        | inr m2 ↦ elim (also-In (seat s s.current underlay_loopback) [] l m2) [
          | inl e ↦ placed s underlay_loopback l e
          | inr m3 ↦ elim m3 [ ]
        ]
      ]
    ]

same : (s : Rack) → Same view s s
same s = record { links = λ ns n. refl; current = refl }

kept : {o : Option Link} (l : Link) → o ≡ some l → Stays l o
kept l e = record { now = l; there = e; kind = refl; index = refl }

pub rack-Kernel : Kernel rack view
unfolding rack view
rack-Kernel = record {
  link_by_name = λ n s. same s;
  link_list = λ s. same s;
  link_set_up = λ l s. same s;
  addr_list = λ l s. same s;
  addr_add = λ l a s. same s;
  open_file = λ p s. same s;
  write_file = λ f t s. same s;
  set_protinfo = λ i j b s. same s;
  found = λ n s l h. let e = answered (seat s s.current n) l h in (e, seat_name s s.current n l e);
  unique = λ s ns n m k l h e i. seat_unique s ns n m k l h e i;
  link_add = λ n i k s. record { stays = λ m x d e. kept x e; current = refl };
  added = λ n i k s l h. cc;
  link_del = λ l s. record { stays = λ m k p e. kept k e; current = refl };
  link_del_nil = λ s. same s;
  link_set_master = λ l k s. record { stays = λ m k p e. kept k e; current = refl };
  get_ns = λ s. same s;
  set_links = λ n s ns k. refl;
  set_ok = λ n s h. refl;
}

pub rack-NsLaws : NsLaws rack view.current
unfolding rack view
rack-NsLaws = record {
  get_ok = λ s t n h. ground arith;
  get_err = λ s t e h. ground arith;
  set_ok = λ s t n h. ground arith;
  set_err = λ s t n e h. ground arith;
}

pub rack-Passes : Passes rack view
unfolding rack view
rack-Passes = record { ns_from_name = λ n s. same s; addr_del = λ l a s. same s }

move_others :
    (l : Link) (to : ℕ) (s : Rack) (ns : ℕ) (m : Text)
    → m ≢ l.name
    → seat (move (some l) to s).1 ns m ≡ seat s ns m
unfolding seat move
move_others l to s ns m d = ground (
  arith,
  d,
  eq_text_iff l.name eth0.name,
  eq_text_iff l.name eth1.name,
  eq_text_iff m eth0.name,
  eq_text_iff m eth1.name,
)

move_gone :
    (l : Link) (to : ℕ) (s : Rack)
    → to ≢ s.current
    → (move (some l) to s).0 ≡ ok tt
    → seat (move (some l) to s).1 s.current l.name ≡ none
unfolding seat move
move_gone l to s d h =
    ground (arith, d, h, eq_text_iff l.name eth0.name, eq_text_iff l.name eth1.name)

move_arrived :
    (l : Link) (to : ℕ) (s : Rack)
    → (move (some l) to s).0 ≡ ok tt
    → (k : Link) × (seat (move (some l) to s).1 to l.name ≡ some k)
unfolding seat move
move_arrived l to s h = elim (Bool-cases (eq_text l.name eth0.name)) [
  | inl e ↦ (eth0, ground (arith, h, e))
  | inr e ↦ (eth1, ground (arith, h, e))
]

pub rack-Moves : Moves rack view
unfolding rack view
rack-Moves = record {
  others = λ l to s ns m d. move_others l to s ns m d;
  gone = λ l to s d h. move_gone l to s d h;
  arrived = λ l to s d h. move_arrived l to s h;
}
