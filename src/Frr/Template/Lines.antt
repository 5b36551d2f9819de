-- ===== src/Frr/Template/Lines.antt =====
-- The text of a configuration consists of its commands and of blank lines.
use Prim.Native.String.{String}
use pierre.Base.{
  ℕ, ◌≡◌, refl, ap, sym, subst, Bool, true, false, not, Option, none, some, List, [], ◌∷◌, ◌++◌,
  Text, codes, map, All, if◌then◌else◌, eq_text,
}
use pierre.Base.Decimal.{itoa_ℕ}
use pierre.Frr.Config.{NeighborConfig, must_disable_connected_check, activate_neighbor_for}
use pierre.Frr.Template.{
  written, ranged, given, given_both, neighbor_session, neighbor_enable_ip_family,
}
use pierre.Frr.Template.Prints.{
  plain, blank, Prints, Prints-nil, Prints-append, Prints-line, Prints-blank,
}
use pierre.Frr.Template.Commands.{
  Command, print, fixed, remote_as, port, timers_connect, timers, password, bfd_profile,
  ebgp_multihop, disable_connected_check, activate, session, family, only_if, for_each, if_given,
  if_both, activated,
}
use pierre.Frr.Template.Plain.{IsPlain, plain-print, blank-print}

-- The text prints the commands.
pub record Writes (t : Text) (cs : List Command) : Type 0 where
  pub prints : Prints t (map print cs)

pub nothing : Writes [] []
nothing = record { prints = Prints-nil }

pub line : (c : Command) → IsPlain c → Writes (10 ∷ print c) (c ∷ [])
line c h = record { prints = Prints-line (print c) (plain-print c h) (blank-print c h) }

map-append-print : (cs ds : List Command) → map print (cs ++ ds) ≡ map print cs ++ map print ds
map-append-print [] ds = refl
map-append-print (c ∷ cs) ds = ap (λ ls. print c ∷ ls) (map-append-print cs ds)

infixr 5 ◌then◌
pub ◌then◌ :
    {t u : Text} {cs ds : List Command} → Writes t cs → Writes u ds → Writes (t ++ u) (cs ++ ds)
◌then◌ {t} {u} {cs} {ds} p q = record {
  prints = subst (Prints (t ++ u)) (sym (map-append-print cs ds)) (Prints-append p.prints q.prints);
}

pub Writes-if :
    (b : Bool) {t : Text} {cs : List Command}
    → Writes t cs
    → Writes (if b then t else []) (only_if b cs)
Writes-if true p = p
Writes-if false p = nothing

pub Writes-unless :
    (b : Bool) {t : Text} {cs : List Command}
    → Writes t cs
    → Writes (if b then [] else t) (if b then [] else cs)
Writes-unless true p = nothing
Writes-unless false p = p

Writes-given :
    (f : ℕ → Command) (o : Option ℕ)
    → ((a : ℕ) → IsPlain (f a))
    → Writes (given (λ a. 10 ∷ print (f a)) o) (if_given f o)
Writes-given f none h = nothing
Writes-given f (some a) h = line (f a) (h a)

Writes-both :
    (f : ℕ → ℕ → Command) (o p : Option ℕ)
    → ((a b : ℕ) → IsPlain (f a b))
    → Writes (given_both (λ a b. 10 ∷ print (f a b)) o p) (if_both f o p)
Writes-both f (some a) (some b) h = line (f a b) (h a b)
Writes-both f (some a) none h = nothing
Writes-both f none p h = nothing

pub Writes-ranged {ℓ} :
    {A : Type ℓ} (f : A → Text) (g : A → List Command) (xs : List A)
    → All (λ x. Writes (f x) (g x)) xs
    → Writes (ranged f xs) (for_each g xs)
Writes-ranged f g [] h = nothing
Writes-ranged f g (x ∷ xs) (p, ps) = ◌then◌ p (Writes-ranged f g xs ps)

-- The texts of a neighbor have no line breaks.
pub record IsPlainNeighbor (n : NeighborConfig) : Type 0 where
  pub addr : plain n.addr ≡ true
  pub password : plain n.password ≡ true
  pub bfd_profile : plain n.bfd_profile ≡ true

pub spaces : Writes (codes "\n  ") []
unfolding plain blank
spaces = record { prints = Prints-blank (codes "  ") refl refl }

port_lem :
    (n : NeighborConfig) (o : Option ℕ)
    → plain n.addr ≡ true
    → Writes
        (codes "\n  " ++ given (λ p. codes "neighbor " ++ n.addr ++ codes " port " ++ itoa_ℕ p) o)
        (if_given (port n.addr) o)
port_lem n none h = spaces
port_lem n (some p) h = line (port n.addr p) h

password_lem :
    (n : NeighborConfig) (b : Bool)
    → IsPlainNeighbor n
    → Writes
        (codes "\n  "
          ++ (if b then [] else codes "neighbor " ++ n.addr ++ codes " password " ++ n.password))
        (only_if (not b) (password n.addr n.password ∷ []))
password_lem n true h = spaces
password_lem n false h = line (password n.addr n.password) (h.addr, h.password)

pub session_lem :
    (n : NeighborConfig) (asn : ℕ)
    → IsPlainNeighbor n
    → Writes (neighbor_session n asn) (session asn n)
unfolding neighbor_session
session_lem n asn h =
    line (remote_as n.addr n.asn) h.addr
    then Writes-if n.ebgp_multi_hop (line (ebgp_multihop n.addr) h.addr)
    then port_lem n n.port h.addr
    then spaces
    then Writes-both (timers n.addr) n.keepalive_time n.hold_time (λ a b. h.addr)
    then Writes-given (timers_connect n.addr) n.connect_time (λ a. h.addr)
    then password_lem n (eq_text n.password []) h
    then Writes-if (not (eq_text n.bfd_profile []))
        (line (bfd_profile n.addr n.bfd_profile) (h.addr, h.bfd_profile))
    then Writes-if (must_disable_connected_check n.ip_family asn n.asn n.ebgp_multi_hop)
        (line (disable_connected_check n.addr) h.addr)
    then nothing

pub single :
    (s : String)
    → plain (codes s) ≡ true
    → blank (codes s) ≡ false
    → Writes (10 ∷ codes s) (fixed s ∷ [])
single s p b = line (fixed s) (p, b)

pub break : Writes (codes "\n") []
unfolding plain blank
break = record { prints = Prints-blank [] refl refl }

activated_lem :
    (s : String) (a : Text)
    → plain (codes s) ≡ true
    → blank (codes s) ≡ false
    → plain a ≡ true
    → Writes
        (written (
          (10 ∷ codes s)
          ∷ (codes "\n    neighbor " ++ a ++ codes " activate")
          ∷ codes "\n  exit-address-family"
          ∷ []))
        (activated s a)
unfolding plain blank
activated_lem s a p b h =
    single s p b then line (activate a) h then single "  exit-address-family" refl refl then nothing

pub family_lem :
    (n : NeighborConfig) → plain n.addr ≡ true → Writes (neighbor_enable_ip_family n) (family n)
unfolding neighbor_enable_ip_family plain blank
family_lem n h =
    break
    then Writes-if (activate_neighbor_for (codes "ipv4") n.ip_family)
        (activated_lem "  address-family ipv4 unicast" n.addr refl refl h)
    then Writes-if (activate_neighbor_for (codes "ipv6") n.ip_family)
        (activated_lem "  address-family ipv6 unicast" n.addr refl refl h)
    then nothing
