-- ===== src/Frr/Template/Plain.antt =====
-- Commands whose texts have no line breaks are written on one line each.
use pierre.Base.{
  ℕ, suc, ℤ, pos, negsuc, ◌≤◌, ◌≡◌, refl, true, false, [], ◌∷◌, ◌++◌, All, Text, codes, arith,
}
use pierre.Base.Decimal.{itoa, itoa_ℕ, itoa_ℕ_digits}
use pierre.Frr.Template.Prints.{plain, plain-append, blank}
use pierre.Frr.Template.Commands.{
  Command, print, fixed, log_file, hostname, vrf, network, vni, router_bgp, router_bgp_vrf,
  remote_as, port, timers_connect, timers, password, bfd_profile, ebgp_multihop,
  disable_connected_check, activate, allowas_in, route_map_in, route_map_out,
}

-- The texts of a command have no line breaks. A fixed command is a single line.
abbrev pub IsPlain : Command → Type 0
IsPlain (fixed s) = (plain (codes s) ≡ true) × (blank (codes s) ≡ false)
IsPlain (log_file t) = plain t ≡ true
IsPlain (hostname t) = plain t ≡ true
IsPlain (vrf t) = plain t ≡ true
IsPlain (network t) = plain t ≡ true
IsPlain (vni n) = Unit
IsPlain (router_bgp n) = Unit
IsPlain (router_bgp_vrf n t) = plain t ≡ true
IsPlain (remote_as a n) = plain a ≡ true
IsPlain (port a n) = plain a ≡ true
IsPlain (timers_connect a n) = plain a ≡ true
IsPlain (timers a k h) = plain a ≡ true
IsPlain (password a t) = (plain a ≡ true) × (plain t ≡ true)
IsPlain (bfd_profile a t) = (plain a ≡ true) × (plain t ≡ true)
IsPlain (ebgp_multihop a) = plain a ≡ true
IsPlain (disable_connected_check a) = plain a ≡ true
IsPlain (activate a) = plain a ≡ true
IsPlain (allowas_in a) = plain a ≡ true
IsPlain (route_map_in a) = plain a ≡ true
IsPlain (route_map_out a) = plain a ≡ true

digits : (s : Text) → All (λ c. 48 ≤ c) s → plain s ≡ true
unfolding plain
digits [] a = refl
digits (c ∷ s) (h, a) = ground (arith, digits s a)

plain-itoa_ℕ : (n : ℕ) → plain (itoa_ℕ n) ≡ true
plain-itoa_ℕ n = digits (itoa_ℕ n) (itoa_ℕ_digits n)

plain-itoa : (n : ℤ) → plain (itoa n) ≡ true
unfolding itoa plain
plain-itoa (pos n) = plain-itoa_ℕ n
plain-itoa (negsuc n) = plain-itoa_ℕ (suc n)

-- A text between two that are written out, or in front of one.
module _ (a : Text) (h : plain a ≡ true) where
  before : (t : Text) → plain t ≡ true → plain (a ++ t) ≡ true
  before t = plain-append a t h

  between : (t u : Text) → plain t ≡ true → plain u ≡ true → plain (a ++ t ++ u) ≡ true
  between t u p q = plain-append (a ++ t) u (before t p) q

pub plain-print : (c : Command) → IsPlain c → plain (print c) ≡ true
unfolding plain
plain-print (fixed s) h = h.0
plain-print (log_file t) h = h
plain-print (hostname t) h = h
plain-print (vrf t) h = h
plain-print (network t) h = h
plain-print (vni n) h = plain-itoa n
plain-print (router_bgp n) h = plain-itoa_ℕ n
plain-print (router_bgp_vrf n t) h = between (itoa_ℕ n) (plain-itoa_ℕ n) (codes " vrf ") t refl h
plain-print (remote_as a n) h = between a h (codes " remote-as ") (itoa_ℕ n) refl (plain-itoa_ℕ n)
plain-print (port a n) h = between a h (codes " port ") (itoa_ℕ n) refl (plain-itoa_ℕ n)
plain-print (timers_connect a n) h =
    between a h (codes " timers connect ") (itoa_ℕ n) refl (plain-itoa_ℕ n)
plain-print (timers a k n) h =
    plain-append (a ++ codes " timers " ++ itoa_ℕ k ++ codes " ") (itoa_ℕ n)
      (plain-append (a ++ codes " timers " ++ itoa_ℕ k) (codes " ")
        (between a h (codes " timers ") (itoa_ℕ k) refl (plain-itoa_ℕ k)) refl)
      (plain-itoa_ℕ n)
plain-print (password a t) h = between a h.0 (codes " password ") t refl h.1
plain-print (bfd_profile a t) h = between a h.0 (codes " bfd profile ") t refl h.1
plain-print (ebgp_multihop a) h = before a h (codes " ebgp-multihop") refl
plain-print (disable_connected_check a) h = before a h (codes " disable-connected-check") refl
plain-print (activate a) h = before a h (codes " activate") refl
plain-print (allowas_in a) h = before a h (codes " allowas-in origin") refl
plain-print (route_map_in a) h = before a h (codes " route-map allowall in") refl
plain-print (route_map_out a) h = before a h (codes " route-map allowall out") refl

pub blank-print : (c : Command) → IsPlain c → blank (print c) ≡ false
unfolding blank
blank-print (fixed s) h = h.1
blank-print (log_file t) h = refl
blank-print (hostname t) h = refl
blank-print (vrf t) h = refl
blank-print (network t) h = refl
blank-print (vni n) h = refl
blank-print (router_bgp n) h = refl
blank-print (router_bgp_vrf n t) h = refl
blank-print (remote_as a n) h = refl
blank-print (port a n) h = refl
blank-print (timers_connect a n) h = refl
blank-print (timers a k n) h = refl
blank-print (password a t) h = refl
blank-print (bfd_profile a t) h = refl
blank-print (ebgp_multihop a) h = refl
blank-print (disable_connected_check a) h = refl
blank-print (activate a) h = refl
blank-print (allowas_in a) h = refl
blank-print (route_map_in a) h = refl
blank-print (route_map_out a) h = refl
