-- ===== src/Frr/Parse/Routes.antt =====
-- internal/frr/parse.go, ParseRoutes.
use pierre.Base.{
  subst, ap, ◌∙◌, wrapping, ok-injective, >>=-eq-ok, ◌≡◌, refl, false, not, ◌&&◌, ◌||◌, some, List,
  [], ◌∷◌, ◌++◌, Text, codes, eq_text, eq_text_iff, Result, ok, arith, Bool-cases, Option-cases,
  inl, inr,
}
use pierre.Net.{Net, Ip, IpNet, v4, v6, ip_equal, is_v4}
use pierre.Frr.Parse.{
  Nexthop, FrrRoute, Route, known, add_hop, add_hops, add_routes, route_entry, store_all,
  parse_routes,
}

-- No address is listed twice.
abbrev pub IsDistinct : List Ip → Type 0
IsDistinct [] = Unit
IsDistinct (ip ∷ ips) = (known ips ip ≡ false) × IsDistinct ips

ip_equal_comm : (a b : Ip) → ip_equal a b ≡ ip_equal b a
ip_equal_comm (v4 a) (v4 b) = ground arith
ip_equal_comm (v4 a) (v6 b) = refl
ip_equal_comm (v6 a) (v4 b) = refl
ip_equal_comm (v6 a) (v6 b) = ground arith

known-snoc :
    (hops : List Ip) (ip a : Ip) → known (hops ++ ip ∷ []) a ≡ (known hops a || ip_equal a ip)
unfolding known
known-snoc [] ip a = ground arith
known-snoc (h ∷ hops) ip a = ground (arith, known-snoc hops ip a)

snoc-IsDistinct :
    (hops : List Ip) (ip : Ip)
    → IsDistinct hops
    → known hops ip ≡ false
    → IsDistinct (hops ++ ip ∷ [])
unfolding known
snoc-IsDistinct [] ip d k = (refl, tt)
snoc-IsDistinct (h ∷ hops) ip d k =
    ground (arith, snoc-IsDistinct hops ip, known-snoc hops ip h, ip_equal_comm ip h)

add_hop-IsDistinct :
    (hops : List Ip) (ip : Ip) (scope : Text) → IsDistinct hops → IsDistinct (add_hop hops ip scope)
unfolding add_hop
add_hop-IsDistinct hops ip scope d =
    elim (Bool-cases (not (is_v4 ip) && eq_text scope (codes "link-local"))) [
      | inl e ↦ rw e d
      | inr e ↦ elim (Bool-cases (known hops ip)) [
        | inl k ↦ rw (e, k) d
        | inr k ↦ rw (e, k) (snoc-IsDistinct hops ip d k)
      ]
    ]

module _ (net : Net) where
  add_hops-IsDistinct :
      (hops : List Ip) (hs : List Nexthop) (result : List Ip)
      → IsDistinct hops
      → add_hops net hops hs ≡ ok result
      → IsDistinct result
  unfolding add_hops
  add_hops-IsDistinct hops [] result d h = subst IsDistinct (ok-injective h) d
  add_hops-IsDistinct hops (n ∷ hs) result d h = elim (Option-cases (net.parse_ip n.ip)) [
    | inl e ↦ ground (arith, e)
    | inr (ip, e) ↦
        add_hops-IsDistinct (add_hop hops ip n.scope) hs result
          (add_hop-IsDistinct hops ip n.scope d) (ground (arith, e))
  ]

  add_routes-IsDistinct :
      (r : Route) (ns : List FrrRoute) (result : Route)
      → IsDistinct r.next_hops
      → add_routes net r ns ≡ ok result
      → IsDistinct result.next_hops × (result.destination ≡ r.destination)
  unfolding add_routes
  add_routes-IsDistinct r [] result d h =
      (subst (λ (q : Route). IsDistinct q.next_hops) (ok-injective h) d, ground (arith, h))
  add_routes-IsDistinct r (n ∷ ns) result d h =
      let (hops, e, h') = >>=-eq-ok (add_hops net r.next_hops n.nexthops) _ h in
      add_routes-IsDistinct
        (record r { next_hops = hops; local_pref = n.local_pref; origin = n.origin }) ns result
        (add_hops-IsDistinct r.next_hops n.nexthops hops d e) h'

  -- The next hops of a route are listed once each, whatever the routes to its prefix say, and its
  -- destination is the network of the prefix.
  pub route_entry-IsDistinct :
      (k key : Text) (frr_routes : List FrrRoute) (r : Route)
      → route_entry net (k, frr_routes) ≡ ok (key, r)
      → IsDistinct r.next_hops
        × (ip : Ip) × (net.parse_cidr k ≡ some (ip, r.destination))
        × (key ≡ net.ip_string ip)
  unfolding route_entry
  route_entry-IsDistinct k key frr_routes r h = elim (Option-cases (net.parse_cidr k)) [
    | inl e ↦ ground (arith, e)
    | inr ((ip, dest), e) ↦
        let start : Route = record {
          destination = dest;
          next_hops = [];
          local_pref = 0;
          origin = [];
        } in
        let (q, p, h') =
          >>=-eq-ok {B = Text × Route} (add_routes net start frr_routes)
            (λ (q : Route). ok (net.ip_string ip, q)) {value = (key, r)} (ground (arith, e, h)) in
        let (d, same) = add_routes-IsDistinct start frr_routes q tt p in
        let qr : q ≡ r = ground (arith, h') in
        (
          subst (λ (x : Route). IsDistinct x.next_hops) qr d,
          ip,
          ground (arith, e, same, qr),
          ground (arith, h'),
        )
  ]

  route_entry_key :
      (k : Text) (frr_routes : List FrrRoute) (e : Text × Route) (ip : Ip) (m : IpNet)
      → net.parse_cidr k ≡ some (ip, m)
      → route_entry net (k, frr_routes) ≡ ok e
      → (e.0 ≡ net.ip_string ip) × (e.1.destination ≡ m)
  route_entry_key k frr_routes (key, r) ip m p h =
      let (_, jp, q, name) = route_entry-IsDistinct k key frr_routes r h in
      let same : (jp, r.destination) ≡ (ip, m) = cc in
      (name ∙ ap (λ (x : Ip × IpNet). net.ip_string x.0) same, ap (λ (x : Ip × IpNet). x.1) same)

  -- Two prefixes of one address, such as 10.0.0.0/16 and 10.0.0.0/24, share one key in the result
  -- of ParseRoutes, so only the route that is visited last is in it, with the second's network.
  pub parse_routes_collision :
      (unmarshal : Text → Result (List (Text × List FrrRoute))) (vtysh_res : Text)
      (a b : Text × List FrrRoute) (ip : Ip) (m n : IpNet) (result : List (Text × Route))
      → unmarshal vtysh_res ≡ ok (a ∷ b ∷ [])
      → net.parse_cidr a.0 ≡ some (ip, m)
      → net.parse_cidr b.0 ≡ some (ip, n)
      → parse_routes net unmarshal vtysh_res ≡ ok result
      → (r : Route) × (result ≡ (net.ip_string ip, r) ∷ []) × (r.destination ≡ n)
  unfolding parse_routes
  parse_routes_collision unmarshal vtysh_res a b ip m n result e p q h =
      let (to_parse, e', h') =
        >>=-eq-ok (wrapping "failed to parse vtysh response" (unmarshal vtysh_res)) _ h in
      let listed : to_parse ≡ a ∷ b ∷ [] = ground (arith, e, e') in
      let stored = subst (λ l. store_all net [] l ≡ ok result) listed h' in
      let (x, ea, h2) = >>=-eq-ok (route_entry net a) _ stored in
      let (y, eb, h3) = >>=-eq-ok (route_entry net b) _ h2 in
      let (ka, _) = route_entry_key a.0 a.1 x ip m p ea in
      let (kb, d) = route_entry_key b.0 b.1 y ip n q eb in
      (y.1, ground (arith, h3, ka, kb, eq_text_iff (net.ip_string ip) (net.ip_string ip)), d)
