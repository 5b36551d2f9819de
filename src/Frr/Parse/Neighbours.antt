-- ===== src/Frr/Parse/Neighbours.antt =====
-- internal/frr/parse.go, ParseNeighbours: neither the order of the peers nor that of the address
-- families matters.
use pierre.Base.{
  ◌≡◌, refl, sym, ap, ◌∙◌, ℕ, ◌+◌, ◌%◌, ◌^◌, List, [], ◌∷◌, Text, Result, ok, ◌>>=◌, traverse, All₂,
  >>=-eq-ok, ok-injective, arith, subst, Option-cases, inl, inr,
}
use mathlib.Core.List.{Permᴰ}
use mathlib.Core.List.Permᴰ
use pierre.Net.{Net}
use pierre.Frr.Parse.{
  AddressFamilyInfo, FrrNeighbor, Neighbor, sum_counter, to_neighbor, parse_neighbours,
}

-- The sum of a counter over the address families.
abbrev pub total : (AddressFamilyInfo → ℕ) → List (Text × AddressFamilyInfo) → ℕ
total f [] = 0
total f ((_, s) ∷ rest) = f s + total f rest

mod_lem : (a b c : ℕ) → (a % 2 ^ 64 + b + c) % 2 ^ 64 ≡ (a + (b + c)) % 2 ^ 64
mod_lem a b c = omega arith

sum_counter_lem :
    (f : AddressFamilyInfo → ℕ) (acc : ℕ) (xs : List (Text × AddressFamilyInfo))
    → sum_counter f (acc % 2 ^ 64) xs ≡ (acc + total f xs) % 2 ^ 64
unfolding sum_counter
sum_counter_lem f acc [] = omega arith
sum_counter_lem f acc ((_, s) ∷ xs) =
    sum_counter_lem f (acc % 2 ^ 64 + f s) xs ∙ mod_lem acc (f s) (total f xs)

total-Permᴰ :
    (f : AddressFamilyInfo → ℕ) {xs ys : List (Text × AddressFamilyInfo)}
    → Permᴰ xs ys
    → total f xs ≡ total f ys
total-Permᴰ f Permᴰ.nil = refl
total-Permᴰ f (Permᴰ.cons e p) =
    omega (arith, ap (λ (x : Text × AddressFamilyInfo). f x.1) e, total-Permᴰ f p)
total-Permᴰ f (Permᴰ.swap e g) = omega (
  arith,
  ap (λ (x : Text × AddressFamilyInfo). f x.1) e,
  ap (λ (x : Text × AddressFamilyInfo). f x.1) g,
)
total-Permᴰ f (Permᴰ.trans p q) = total-Permᴰ f p ∙ total-Permᴰ f q

-- The results of a function on the items of a list, in another order.
traverse-Permᴰ {ℓ κ} :
    {A : Type ℓ} {B : Type κ} (f : A → Result B) {xs ys : List A} (zs : List B)
    → Permᴰ xs ys
    → traverse f xs ≡ ok zs
    → (us : List B) × (traverse f ys ≡ ok us) × Permᴰ zs us
unfolding traverse
traverse-Permᴰ f zs Permᴰ.nil h = (zs, h, Permᴰ.refl zs)
traverse-Permᴰ f zs (Permᴰ.cons {a = a} {b = b} {l₁ = xs} {l₂ = ys} e p) h =
    let (y, e1, h1) = >>=-eq-ok (f a) _ h in
    let (rest, e2, h2) = >>=-eq-ok (traverse f xs) _ h1 in
    let (us, e3, q) = traverse-Permᴰ f rest p e2 in
    let same : f b ≡ ok y = sym (ap f e) ∙ e1 in
    (
      y ∷ us,
      ground (arith, same, e3),
      subst (λ l. Permᴰ l (y ∷ us)) (ok-injective h2) (Permᴰ.cons refl q),
    )
traverse-Permᴰ f zs (Permᴰ.swap {a = a} {b = b} {a' = a'} {b' = b'} {l = xs} e g) h =
    let (y, e1, h1) = >>=-eq-ok (f a) _ h in
    let (l, e2, h2) = >>=-eq-ok (traverse f (b ∷ xs)) _ h1 in
    let (z, e3, h3) = >>=-eq-ok (f b) _ e2 in
    let (rest, e4, h4) = >>=-eq-ok (traverse f xs) _ h3 in
    let first : f a' ≡ ok z = sym (ap f g) ∙ e3 in
    let second : f b' ≡ ok y = sym (ap f e) ∙ e1 in
    let shape : y ∷ z ∷ rest ≡ zs = ap (λ l. y ∷ l) (ok-injective h4) ∙ ok-injective h2 in
    (
      z ∷ y ∷ rest,
      ground (arith, first, second, e4),
      subst (λ l. Permᴰ l (z ∷ y ∷ rest)) shape (Permᴰ.swap refl refl),
    )
traverse-Permᴰ f zs (Permᴰ.trans p q) h =
    let (us, e1, r) = traverse-Permᴰ f zs p h in
    let (vs, e2, r') = traverse-Permᴰ f us q e1 in (vs, e2, Permᴰ.trans r r')

-- The same decoded object, visited in another order: the peers in another order, and the address
-- families of each in another order.
pub record SamePeer (x y : Text × FrrNeighbor) : Type 0 where
  pub key : x.0 ≡ y.0
  pub families : Permᴰ x.1.address_family_info y.1.address_family_info
  pub rest : record x.1 { address_family_info = y.1.address_family_info } ≡ y.1

pub record SameObject (xs ys : List (Text × FrrNeighbor)) : Type 0 where
  pub middle : List (Text × FrrNeighbor)
  pub peers : Permᴰ xs middle
  pub same : All₂ SamePeer middle ys

counter_lem :
    (f : AddressFamilyInfo → ℕ) (xs ys : List (Text × AddressFamilyInfo))
    → Permᴰ xs ys
    → sum_counter f 0 xs ≡ sum_counter f 0 ys
counter_lem f xs ys p =
    sum_counter_lem f 0 xs
    ∙ ap (λ n. (0 + n) % 2 ^ 64) (total-Permᴰ f p)
    ∙ sym (sum_counter_lem f 0 ys)

module _ (net : Net) where
  families_lem :
      (k : Text) (n : FrrNeighbor) (families : List (Text × AddressFamilyInfo))
      → Permᴰ n.address_family_info families
      → to_neighbor net (k, n) ≡ to_neighbor net (k, record n { address_family_info = families })
  unfolding to_neighbor
  families_lem k n families p =
      let sent = counter_lem (λ s. s.sent_prefix_counter) n.address_family_info families p in
      let accepted =
        counter_lem (λ s. s.accepted_prefix_counter) n.address_family_info families p in
      elim (Option-cases (net.parse_ip k)) [
        | inl e ↦ rw (e, to_neighbor) refl
        | inr (ip, e) ↦ rw (e, to_neighbor) (cc (sent, accepted))
      ]

  to_neighbor_same :
      (x y : Text × FrrNeighbor) → SamePeer x y → to_neighbor net x ≡ to_neighbor net y
  to_neighbor_same (k, n) (k', n') h =
      families_lem k n n'.address_family_info h.families
      ∙ ap (λ m. to_neighbor net (k, m)) h.rest
      ∙ ap (λ j. to_neighbor net (j, n')) h.key

  traverse_same :
      (xs ys : List (Text × FrrNeighbor))
      → All₂ SamePeer xs ys
      → traverse (to_neighbor net) xs ≡ traverse (to_neighbor net) ys
  unfolding traverse
  traverse_same [] [] h = refl
  traverse_same [] (y ∷ ys) h = elim h [ ]
  traverse_same (x ∷ xs) [] h = elim h [ ]
  traverse_same (x ∷ xs) (y ∷ ys) (h, hs) =
      ap (λ (r : Result Neighbor). r >>= λ n. traverse (to_neighbor net) xs >>= λ ns. ok (n ∷ ns))
        (to_neighbor_same x y h)
      ∙ ap (λ (r : Result (List Neighbor)). to_neighbor net y >>= λ n. r >>= λ ns. ok (n ∷ ns))
          (traverse_same xs ys hs)

  -- ParseNeighbours does not depend on the order in which Go visits its maps: if the same decoded
  -- object is visited in another order, its peers and the address families of each in whatever order,
  -- the parser succeeds too, with the same neighbours in some order. In particular the sums of the
  -- prefix counters are the same, although they wrap around.
  pub parse_neighbours_order :
      (unmarshal again : Text → Result (List (Text × FrrNeighbor))) (text : Text)
      (xs ys : List (Text × FrrNeighbor)) (ns : List Neighbor)
      → unmarshal text ≡ ok xs
      → again text ≡ ok ys
      → SameObject xs ys
      → parse_neighbours net unmarshal text ≡ ok ns
      → (ms : List Neighbor) × (parse_neighbours net again text ≡ ok ms) × Permᴰ ns ms
  unfolding parse_neighbours
  parse_neighbours_order unmarshal again text xs ys ns e f o h =
      let first : traverse (to_neighbor net) xs ≡ ok ns = ground (arith, e, h) in
      let (ms, g, p) = traverse-Permᴰ (to_neighbor net) ns o.peers first in
      let last : traverse (to_neighbor net) ys ≡ ok ms =
        sym (traverse_same o.middle ys o.same) ∙ g in
      (ms, ground (arith, f, last), p)
