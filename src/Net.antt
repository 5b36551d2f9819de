-- ===== src/Net.antt =====
-- Package net and github.com/apparentlymart/go-cidr, as far as the program uses them.
-- Addresses, masks and their tests are written out; the textual forms and the arithmetic of
-- go-cidr are parameters, the record `Net`.
use pierre.Base.{
  ℕ, ◌+◌, ◌-◌, ◌^◌, ◌≤◌, ◌<◌, ◌%◌, ◌≡◌, Bool, true, false, Option, none, some, Text, codes, ◌++◌,
  Result, ok, err, Error, ◌==◌, leb, if◌then◌else◌,
}
use pierre.Base.Decimal.{itoa_ℕ}

-- net.IP up to IP.Equal: a 4-byte address, also in its 16-byte form, or another 16-byte address.
pub data Ip : Type 0 where
  v4 : ℕ → Ip
  v6 : ℕ → Ip

-- `ip.To4() != nil`
abbrev pub is_v4 : Ip → Bool
is_v4 (v4 _) = true
is_v4 (v6 _) = false

-- IP.Equal
abbrev pub ip_equal : Ip → Ip → Bool
ip_equal (v4 a) (v4 b) = a == b
ip_equal (v6 a) (v6 b) = a == b
ip_equal _ _ = false

-- net.IPMask: the leading ones, of 32 or 128 bits. `nil` is `none`.
pub record Mask : Type 0 where
  pub ones : ℕ
  pub bits : ℕ

-- net.CIDRMask
abbrev pub cidr_mask : ℕ → ℕ → Option Mask
cidr_mask ones bits = if leb ones bits then some (record { ones = ones; bits = bits }) else none

-- IPMask.Size: `0, 0` for `nil`.
abbrev pub mask_size : Option Mask → ℕ × ℕ
mask_size none = (0, 0)
mask_size (some m) = (m.ones, m.bits)

pub record IpNet : Type 0 where
  pub ip : Ip
  pub mask : Option Mask

pub record Net : Type 0 where
  -- net.ParseIP; `none` is `nil`.
  pub parse_ip : Text → Option Ip
  -- net.ParseCIDR: the address, and the network that it stands in.
  pub parse_cidr : Text → Option (Ip × IpNet)
  -- IP.String
  pub ip_string : Ip → Text
  -- cidr.Host
  pub host : IpNet → ℕ → Result Ip
  -- cidr.AddressCount
  pub address_count : IpNet → ℕ

abbrev nil_string : Text
nil_string = codes "<nil>"

-- The bits of a mask that stand over the last four bytes of a 16-byte address.
abbrev low_ones : ℕ → ℕ
low_ones ones = ones - 96

module _ (net : Net) where
  address_string : Ip → Option Mask → Text
  unfolding itoa_ℕ
  address_string a none = nil_string
  address_string (v4 a) (some m) =
      net.ip_string (v4 a) ++ codes "/" ++ itoa_ℕ (if m.bits == 32 then m.ones else low_ones m.ones)
  address_string (v6 a) (some m) =
      if m.bits == 32 then nil_string else net.ip_string (v6 a) ++ codes "/" ++ itoa_ℕ m.ones

  -- IPNet.String: `<nil>` where the address and the mask do not go together.
  unfoldable pub net_string : IpNet → Text
  unfolding address_string
  net_string n = address_string n.ip n.mask

-- What the program relies on of the parameters.
pub record Lawful (net : Net) : Type 0 where
  -- ParseCIDR returns a network address: of an IPv4 prefix the host bits are zero,
  -- and its addresses have 32 bits.
  pub parse_cidr_v4 :
      (s : Text) (ip : Ip) (base ones bits : ℕ)
      → net.parse_cidr s
        ≡ some (ip, record { ip = v4 base; mask = some (record { ones = ones; bits = bits }) })
      → bits ≡ 32
      → (ones ≤ 32) × (base % 2 ^ (32 - ones) ≡ 0) × (base + 2 ^ (32 - ones) ≤ 2 ^ 32)
  -- Host numbers the addresses of a prefix from its base, and refuses a number that does not fit.
  pub host_v4 :
      (base ones num : ℕ)
      → ones ≤ 32
      → base % 2 ^ (32 - ones) ≡ 0
      → num < 2 ^ (32 - ones)
      → net.host (record { ip = v4 base; mask = some (record { ones = ones; bits = 32 }) }) num
        ≡ ok (v4 (base + num))
  pub host_v4_full :
      (base ones num : ℕ)
      → 2 ^ (32 - ones) ≤ num
      → (e : Error) × (net.host
            (record { ip = v4 base; mask = some (record { ones = ones; bits = 32 }) })
            num
          ≡ err e)
  -- Different IPv4 addresses are printed differently.
  pub ip_string_v4 :
      (a b : ℕ) → a < 2 ^ 32 → b < 2 ^ 32 → net.ip_string (v4 a) ≡ net.ip_string (v4 b) → a ≡ b
