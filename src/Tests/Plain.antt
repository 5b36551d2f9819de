-- ===== src/Tests/Plain.antt =====
-- Names of VRFs that are those of no bridge and of no VXLAN.
use pierre.Base.{ℕ, ℤ, ◌≡◌, ◌≢◌, refl, ap, ◌∙◌, [], ◌∷◌, Text, codes, arith}
use pierre.HostNetwork.Names.{bridge_name, vxlan_name}
use pierre.Controller.Reconcile.Interfaces.{IsPlain}

-- The second letter of a name, which is that of no bridge and of no VXLAN.
second : Text → ℕ
second [] = 0
second (a ∷ []) = 0
second (a ∷ b ∷ _) = b

second_of_bridge : (n : ℤ) → second (bridge_name n) ≡ 114
unfolding bridge_name second
second_of_bridge n = refl

second_of_vxlan : (n : ℤ) → second (vxlan_name n) ≡ 110
unfolding vxlan_name second
second_of_vxlan n = refl

pub red-IsPlain : IsPlain (codes "red")
unfolding second
red-IsPlain n = (
  λ e. let h : ◌≡◌ {A = ℕ} 101 114 = ap second e ∙ second_of_bridge n in omega arith,
  λ e. let h : ◌≡◌ {A = ℕ} 101 110 = ap second e ∙ second_of_vxlan n in omega arith,
)

pub blue-IsPlain : IsPlain (codes "blue")
unfolding second
blue-IsPlain n = (
  λ e. let h : ◌≡◌ {A = ℕ} 108 114 = ap second e ∙ second_of_bridge n in omega arith,
  λ e. let h : ◌≡◌ {A = ℕ} 108 110 = ap second e ∙ second_of_vxlan n in omega arith,
)

pub red_blue : codes "red" ≢ codes "blue"
unfolding second
red_blue e = let h : ◌≡◌ {A = ℕ} 101 108 = ap second e in omega arith
