-- ===== src/Tests/Demo.antt =====
-- Functions that stand for package net, go-cidr, netlink and netns in the tests.
use pierre.Base.{
  ℕ, ◌+◌, ◌-◌, ◌^◌, ◌%◌, ◌≤◌, ◌<◌, ltb, ◌≡◌, refl, Option, none, some, ◌++◌, Text, codes, eq_text,
  Result, ok, err, errorf, arith, if◌then◌else◌, pos, ap, Bool-cases, inl, inr, ◌⊎◌, subst,
}
use pierre.Base.Decimal.{itoa_ℕ, itoa, atoi, atoi-itoa}
use pierre.Net.{Net, Lawful, Ip, v4, v6, IpNet, Mask}

abbrev pub network : ℕ → ℕ → IpNet
network base ones = record { ip = v4 base; mask = some (record { ones = ones; bits = 32 }) }

-- 100.65.0.0, 192.169.10.0 and 10.0.0.0
abbrev pub vtep_base : ℕ
vtep_base = 1681981440

abbrev pub local_base : ℕ
local_base = 3232303616

abbrev pub ten_base : ℕ
ten_base = 167772160

demo_cidr : Text → Option (Ip × IpNet)
demo_cidr s =
    if eq_text s (codes "100.65.0.0/24")
    then some (v4 vtep_base, network vtep_base 24)
    else if eq_text s (codes "192.169.10.0/24")
    then some (v4 local_base, network local_base 24)
    else if eq_text s (codes "10.0.0.0/16")
    then some (v4 ten_base, network ten_base 16)
    else if eq_text s (codes "10.0.0.0/24")
    then some (v4 ten_base, network ten_base 24)
    else none

demo_ip : Text → Option Ip
demo_ip s =
    if eq_text s (codes "192.168.11.2")
    then some (v4 3232238338)
    else if eq_text s (codes "2001:db8::1")
    then some (v6 42540766411282592856903984951653826561)
    else none

demo_host_in : Ip → Option Mask → ℕ → Result Ip
demo_host_in (v4 base) (some m) num =
    if ltb num (2 ^ (32 - m.ones))
    then ok (v4 (base + num))
    else err (errorf "prefix does not accommodate the host")
demo_host_in _ _ num = err (errorf "not an IPv4 prefix")

-- Addresses are printed as one decimal number.
demo_string : Ip → Text
demo_string (v4 a) = itoa (pos a)
demo_string (v6 a) = codes "::" ++ itoa_ℕ a

unfoldable pub demo_net : Net
unfolding demo_cidr demo_ip demo_host_in demo_string
demo_net = record {
  parse_ip = demo_ip;
  parse_cidr = demo_cidr;
  ip_string = demo_string;
  host = λ n num. demo_host_in n.ip n.mask num;
  address_count = λ n. elim n.mask [ none ↦ 0 | some m ↦ 2 ^ (m.bits - m.ones) ];
}

demo_string-injective :
    (a b : ℕ) → a < 2 ^ 32 → b < 2 ^ 32 → demo_string (v4 a) ≡ demo_string (v4 b) → a ≡ b
unfolding demo_string
demo_string-injective a b p q e =
    ground (arith, atoi-itoa (pos a) (omega arith), atoi-itoa (pos b) (omega arith), ap atoi e)

-- The prefixes that are known.
demo_cidr_lem :
    (s : Text) (ip : Ip) (n : IpNet)
    → demo_cidr s ≡ some (ip, n)
    → (n ≡ network vtep_base 24)
      ⊎ ((n ≡ network local_base 24) ⊎ ((n ≡ network ten_base 16) ⊎ (n ≡ network ten_base 24)))
unfolding demo_cidr
demo_cidr_lem s ip n h = elim (Bool-cases (eq_text s (codes "100.65.0.0/24"))) [
  | inl e ↦ inl (ground (arith, e))
  | inr e ↦ elim (Bool-cases (eq_text s (codes "192.169.10.0/24"))) [
    | inl f ↦ inr (inl (ground (arith, e, f)))
    | inr f ↦ elim (Bool-cases (eq_text s (codes "10.0.0.0/16"))) [
      | inl g ↦ inr (inr (inl (ground (arith, e, f, g))))
      | inr g ↦ inr (inr (inr (ground (arith, e, f, g))))
    ]
  ]
]

-- A network address, and room for the addresses of the prefix.
abbrev Fits : ℕ → ℕ → Type 0
Fits base ones = (ones ≤ 32) × (base % 2 ^ (32 - ones) ≡ 0) × (base + 2 ^ (32 - ones) ≤ 2 ^ 32)

Fits-network :
    (base ones b o : ℕ)
    → record { ip = v4 base; mask = some (record { ones = ones; bits = 32 }) } ≡ network b o
    → Fits b o
    → Fits base ones
Fits-network base ones b o e f = let p : base ≡ b = cc in let q : ones ≡ o = cc in rw (p, q) f

demo_cidr-Fits :
    (s : Text) (ip : Ip) (base ones : ℕ)
    → demo_cidr s ≡ some (ip, network base ones)
    → Fits base ones
demo_cidr-Fits s ip base ones h = elim (demo_cidr_lem s ip (network base ones) h) [
  | inl e ↦ Fits-network base ones vtep_base 24 e (omega arith, refl, omega arith)
  | inr (inl e) ↦ Fits-network base ones local_base 24 e (omega arith, refl, omega arith)
  | inr (inr (inl e)) ↦ Fits-network base ones ten_base 16 e (omega arith, refl, omega arith)
  | inr (inr (inr e)) ↦ Fits-network base ones ten_base 24 e (omega arith, refl, omega arith)
]

pub demo_net-Lawful : Lawful demo_net
unfolding demo_net
demo_net-Lawful = record {
  parse_cidr_v4 = λ s ip base ones bits h w. demo_cidr-Fits s ip base ones (
      subst
        (λ b.
          demo_cidr s
          ≡ some (ip, record { ip = v4 base; mask = some (record { ones = ones; bits = b }) }))
        w h);
  host_v4 = λ base ones num fits aligned room. ground arith;
  host_v4_full =
      λ base ones num full. (errorf "prefix does not accommodate the host", ground arith);
  ip_string_v4 = demo_string-injective;
}
