-- ===== src/Frr/Parse/Vrfs.antt =====
-- internal/frr/parse.go, ParseVRFs: the names are sorted, so the order of the map does not matter.
use pierre.Base.{
  ◌≡◌, refl, ◌∙◌, true, List, [], ◌∷◌, Text, Result, ok, arith, Bool-cases, inl, inr, ◌⊎◌,
}
use mathlib.Core.List.{Permᴰ}
use mathlib.Core.Path.{ap₂}
use mathlib.Core.List.Permᴰ
use pierre.Frr.Parse.{le_text, insert_text, sort_strings, parse_vrfs}

le_text_total : (s t : Text) → (le_text s t ≡ true) ⊎ (le_text t s ≡ true)
unfolding le_text
le_text_total [] t = inl refl
le_text_total (a ∷ s) [] = inr refl
le_text_total (a ∷ s) (b ∷ t) = ground (arith, le_text_total s t)

le_text_antisymm : (s t : Text) → le_text s t ≡ true → le_text t s ≡ true → s ≡ t
unfolding le_text
le_text_antisymm [] [] h k = refl
le_text_antisymm [] (b ∷ t) h k = cc
le_text_antisymm (a ∷ s) [] h k = cc
le_text_antisymm (a ∷ s) (b ∷ t) h k = ground (arith, le_text_antisymm s t)

le_text_trans : (s t u : Text) → le_text s t ≡ true → le_text t u ≡ true → le_text s u ≡ true
unfolding le_text
le_text_trans [] t u h k = refl
le_text_trans (a ∷ s) [] u h k = cc
le_text_trans (a ∷ s) (b ∷ t) [] h k = cc
le_text_trans (a ∷ s) (b ∷ t) (c ∷ u) h k = ground (arith, le_text_trans s t u)

insert_text_comm :
    (x y : Text) (l : List Text) → insert_text x (insert_text y l) ≡ insert_text y (insert_text x l)
unfolding insert_text
insert_text_comm x y [] = ground (arith, le_text_total x y, le_text_antisymm x y)
insert_text_comm x y (z ∷ l) = ground (
  arith,
  le_text_total x y,
  le_text_antisymm x y,
  le_text_trans x y z,
  le_text_trans y x z,
  insert_text_comm x y l,
)

sort_strings-Permᴰ : {xs ys : List Text} → Permᴰ xs ys → sort_strings xs ≡ sort_strings ys
unfolding sort_strings
sort_strings-Permᴰ Permᴰ.nil = refl
sort_strings-Permᴰ (Permᴰ.cons e p) = ap₂ insert_text e (sort_strings-Permᴰ p)
sort_strings-Permᴰ (Permᴰ.swap {a = a} {b = b} {l = l} e f) =
    insert_text_comm a b (sort_strings l)
    ∙ ap₂ (λ x y. insert_text x (insert_text y (sort_strings l))) f e
sort_strings-Permᴰ (Permᴰ.trans p q) = sort_strings-Permᴰ p ∙ sort_strings-Permᴰ q

-- Each name is at most the next.
abbrev pub IsSorted : List Text → Type 0
IsSorted [] = Unit
IsSorted (x ∷ []) = Unit
IsSorted (x ∷ y ∷ ys) = (le_text x y ≡ true) × IsSorted (y ∷ ys)

insert_text-IsSorted : (x : Text) (ys : List Text) → IsSorted ys → IsSorted (insert_text x ys)
unfolding insert_text
insert_text-IsSorted x [] h = tt
insert_text-IsSorted x (y ∷ []) h = ground (arith, le_text_total x y)
insert_text-IsSorted x (y ∷ z ∷ zs) h =
    ground (arith, le_text_total x y, le_text_total x z, insert_text-IsSorted x (z ∷ zs))

sort_strings-IsSorted : (xs : List Text) → IsSorted (sort_strings xs)
unfolding sort_strings
sort_strings-IsSorted [] = tt
sort_strings-IsSorted (x ∷ xs) = insert_text-IsSorted x (sort_strings xs) (sort_strings-IsSorted xs)

insert_text-Permᴰ : (x : Text) (ys : List Text) → Permᴰ (insert_text x ys) (x ∷ ys)
unfolding insert_text
insert_text-Permᴰ x [] = Permᴰ.refl (x ∷ [])
insert_text-Permᴰ x (y ∷ ys) = elim (Bool-cases (le_text x y)) [
  | inl e ↦ rw e (Permᴰ.refl (x ∷ y ∷ ys))
  | inr e ↦ rw e (Permᴰ.trans (Permᴰ.cons refl (insert_text-Permᴰ x ys)) (Permᴰ.swap refl refl))
]

sort_strings_perm : (xs : List Text) → Permᴰ (sort_strings xs) xs
unfolding sort_strings
sort_strings_perm [] = Permᴰ.nil
sort_strings_perm (x ∷ xs) =
    Permᴰ.trans (insert_text-Permᴰ x (sort_strings xs)) (Permᴰ.cons refl (sort_strings_perm xs))

-- The names of the VRFs come out sorted, each as often as it is a key, and the same for every
-- order in which the keys are visited.
pub parse_vrfs_lem :
    (decode decode' : Text → Result (List Text)) (vtysh_res : Text) (names names' : List Text)
    → decode vtysh_res ≡ ok names
    → decode' vtysh_res ≡ ok names'
    → Permᴰ names names'
    → (result : List Text) × (parse_vrfs decode vtysh_res ≡ ok result)
      × IsSorted result
      × Permᴰ result names
      × (parse_vrfs decode' vtysh_res ≡ ok result)
unfolding parse_vrfs
parse_vrfs_lem decode decode' vtysh_res names names' e f p = (
  sort_strings names,
  ground (arith, e),
  sort_strings-IsSorted names,
  sort_strings_perm names,
  ground (arith, f, sort_strings-Permᴰ p),
)
