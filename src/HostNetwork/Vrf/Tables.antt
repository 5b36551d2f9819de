-- ===== src/HostNetwork/Vrf/Tables.antt =====
-- internal/hostnetwork/vrf.go, findFreeRoutingTableID.
use mathlib.Core.Bool.{false≢true}
use pierre.Base.{
  ◌∙◌, Result, ap, Text, Option-cases, leb, subst, sym, In, here, there, ℕ, zero, suc, ◌+◌, ◌-◌,
  ◌==◌, ◌≤◌, ◌<◌, ◌≡◌, ◌≢◌, refl, true, false, some, List, [], ◌∷◌, ok, if◌then◌else◌, arith,
  length, Bool-cases, inl, inr, ==_iff,
}
use pierre.HostNetwork.Netlink.{Netlink, Link, vrf, new_link}
use pierre.HostNetwork.Added.{AddKeeps}
use pierre.Base.Exec.{replace, lift, >>=-eq-ok, replace-eq-ok}
use pierre.HostNetwork.Vrf.{
  max_uint32, vrf_table, taken_tables, member, find_from, find_free_routing_table_id, create_vrf,
}

-- `res` is taken, and so is what lies between it and `r`.
taken_below :
    (taken : List ℕ) (res r : ℕ)
    → member res taken ≡ true
    → ((t : ℕ) → suc res ≤ t → t < r → member t taken ≡ true)
    → (t : ℕ) → res ≤ t
    → t < r
    → member t taken ≡ true
taken_below taken res r e above t p q = elim (Bool-cases (t == res)) [
  | inl same ↦ subst (λ k. member k taken ≡ true) (sym ((==_iff t res).0 same)) e
  | inr differ ↦ above t (ground arith) q
]

-- The identifier that is found is the least one from `res` on that is not taken.
find_from-least :
    (taken : List ℕ) (left res : ℕ) (r : ℕ)
    → find_from taken left res ≡ ok r
    → (res ≤ r)
      × (r < res + left)
      × (member r taken ≡ false)
      × ((t : ℕ) → res ≤ t → t < r → member t taken ≡ true)
unfolding find_from
find_from-least taken zero res r h = cc
find_from-least taken (suc left) res r h = elim (Bool-cases (member res taken)) [
  | inl e ↦
      let (a, b, c, d) = find_from-least taken left (suc res) r (ground (arith, e)) in
      (omega arith, omega arith, c, taken_below taken res r e d)
  | inr e ↦
      let same : res ≡ r = ground (arith, e) in
      (
        omega arith,
        omega arith,
        subst (λ k. member k taken ≡ false) same e,
        λ t p q. absurd (omega arith),
      )
]

-- How many tables are taken from `r` on.
count_from : ℕ → List ℕ → ℕ
count_from r [] = 0
count_from r (x ∷ xs) = let rest = count_from r xs in if leb r x then suc rest else rest

count_from-le-length : (r : ℕ) (xs : List ℕ) → count_from r xs ≤ length xs
unfolding count_from
count_from-le-length r [] = omega arith
count_from-le-length r (x ∷ xs) = ground (arith, count_from-le-length r xs)

count_from_mono : (r : ℕ) (xs : List ℕ) → count_from (suc r) xs ≤ count_from r xs
unfolding count_from
count_from_mono r [] = omega arith
count_from_mono r (x ∷ xs) = ground (arith, count_from_mono r xs)

-- A table that is taken is counted from its own number on, and not from the next.
count_from-member :
    (r : ℕ) (xs : List ℕ) → member r xs ≡ true → count_from (suc r) xs < count_from r xs
unfolding count_from member
count_from-member r [] h = cc
count_from-member r (x ∷ xs) h = ground (arith, count_from-member r xs, count_from_mono r xs)

-- With more rounds left than tables taken, one is found.
find_from_total :
    (taken : List ℕ) (left res : ℕ)
    → count_from res taken < left
    → (r : ℕ) × (find_from taken left res ≡ ok r)
unfolding find_from
find_from_total taken zero res h = absurd (omega arith)
find_from_total taken (suc left) res h = elim (Bool-cases (member res taken)) [
  | inl e ↦
      let (r, p) =
        find_from_total taken left (suc res) (omega (arith, count_from-member res taken e)) in
      (r, rw e p)
  | inr e ↦ (res, rw e refl)
]

length-taken_tables : (links : List Link) → length (taken_tables links) ≤ length links
unfolding taken_tables
length-taken_tables [] = omega arith
length-taken_tables (l ∷ ls) = ground (arith, length-taken_tables ls)

taken_tables-In :
    (links : List Link) (l : Link) (t : ℕ)
    → In l links
    → vrf_table l.kind ≡ some t
    → member t (taken_tables links) ≡ true
unfolding taken_tables member
taken_tables-In [] l t m e = elim m [ ]
taken_tables-In (k ∷ ls) l t (here p) e =
    let q : vrf_table k.kind ≡ some t = subst (λ (j : Link). vrf_table j.kind ≡ some t) p e in
    ground (arith, q)
taken_tables-In (k ∷ ls) l t (there m) e = ground (arith, taken_tables-In ls l t m e)

-- A table that is taken is that of a VRF.
holder :
    (links : List Link) (t : ℕ)
    → member t (taken_tables links) ≡ true
    → (l : Link) × In l links × (vrf_table l.kind ≡ some t)
unfolding taken_tables member
holder [] t h = cc
holder (k ∷ ls) t h = elim (Option-cases (vrf_table k.kind)) [
  | inl e ↦ let (l, m, p) = holder ls t (ground (arith, e)) in (l, there m, p)
  | inr (x, e) ↦ elim (Bool-cases (t == x)) [
    | inl same ↦ (k, here refl, ground (arith, e))
    | inr differ ↦ let (l, m, p) = holder ls t (ground (arith, e)) in (l, there m, p)
  ]
]

-- With fewer than 2^32 - 2 links an identifier is always found: it lies in the range of the loop,
-- no VRF has it as its table, and every smaller one from 1 on is the table of a VRF.
pub find_free_routing_table_id_lem :
    (links : List Link)
    → length links < max_uint32 - 1
    → (r : ℕ) × (find_free_routing_table_id links ≡ ok r)
      × (1 ≤ r)
      × (r < max_uint32)
      × ((l : Link) → In l links → vrf_table l.kind ≢ some r)
      × ((t : ℕ) → 1 ≤ t → t < r → (l : Link) × In l links × (vrf_table l.kind ≡ some t))
unfolding find_free_routing_table_id
find_free_routing_table_id_lem links h =
    let taken = taken_tables links in
    let (r, p) =
      find_from_total taken (max_uint32 - 1) 1
        (omega (arith, length-taken_tables links, count_from-le-length 1 taken)) in
    let (a, b, c, d) = find_from-least taken (max_uint32 - 1) 1 r p in
    (
      r,
      p,
      a,
      omega arith,
      λ l m e. cc (taken_tables-In links l r m e),
      λ t q s. holder links t (d t q s),
    )

module _ {State Ns : Type 0} (nl : Netlink State Ns) (keeps : AddKeeps nl) where
  -- A VRF that createVRF adds has a table that no VRF among the links listed before has, and the
  -- least such one from 1 on. LinkAdd changes nothing of its argument but the index.
  pub create_vrf_lem :
      (name : Text) (s t : State) (l : Link)
      → create_vrf nl name s ≡ (ok l, t)
      → (links : List Link) × (table : ℕ) × ((nl.link_list s).0 ≡ ok links)
        × (l.name ≡ name)
        × (vrf_table l.kind ≡ some table)
        × (1 ≤ table)
        × ((k : Link) → In k links → vrf_table k.kind ≢ some table)
        × ((i : ℕ) → 1 ≤ i → i < table → (k : Link) × In k links × (vrf_table k.kind ≡ some i))
  unfolding create_vrf find_free_routing_table_id
  create_vrf_lem name s t l h =
      let (links, s1, e1, h1) = >>=-eq-ok (replace "Failed to find links" nl.link_list) _ s h in
      let (table, s2, e2, h2) = >>=-eq-ok (lift (find_free_routing_table_id links)) _ s1 h1 in
      let listed : nl.link_list s ≡ (ok links, s1) =
        replace-eq-ok "Failed to find links" nl.link_list s e1 in
      let chosen : find_from (taken_tables links) (max_uint32 - 1) 1 ≡ ok table =
        ap (λ (p : Result ℕ × State). p.0) e2 in
      let (a, b, c, d) = find_from-least (taken_tables links) (max_uint32 - 1) 1 table chosen in
      let (named, _, kind) =
        keeps (new_link name 0 (vrf table)) l s2 t
          (replace-eq-ok "could not add VRF" (nl.link_add (new_link name 0 (vrf table))) s2 h2) in
      (
        links,
        table,
        ap (λ (p : Result (List Link) × State). p.0) listed,
        named,
        rw kind refl,
        a,
        λ k m e. false≢true (sym c ∙ taken_tables-In links k table m e),
        λ i q p. holder links i (d i q p),
      )
