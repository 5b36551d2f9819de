-- ===== src/HostNetwork/Namespace/Restores.antt =====
-- internal/hostnetwork/namespace.go: the thread is back in its namespace afterwards.
use pierre.Base.{Result-cases, inl, inr, ◌≡◌, ok, err, Error, arith}
use pierre.Base.Exec.{Exec}
use pierre.HostNetwork.Netlink.{Netlink}
use pierre.HostNetwork.Namespace.{in_namespace}

-- What the program relies on of package netns: `current` is the namespace of the thread.
pub record NsLaws {State Ns : Type 0} (nl : Netlink State Ns) (current : State → Ns) : Type 0 where
  pub get_ok :
      (s t : State) (n : Ns) → nl.get_ns s ≡ (ok n, t) → (n ≡ current s) × (current t ≡ current s)
  pub get_err : (s t : State) (e : Error) → nl.get_ns s ≡ (err e, t) → current t ≡ current s
  pub set_ok : (s t : State) (n : Ns) → nl.set_ns n s ≡ (ok tt, t) → current t ≡ n
  pub set_err :
      (s t : State) (n : Ns) (e : Error) → nl.set_ns n s ≡ (err e, t) → current t ≡ current s

module _ {State Ns : Type 0} (nl : Netlink State Ns) (current : State → Ns)
    (laws : NsLaws nl current) where
  at_get : (s : State) → current (nl.get_ns s).1 ≡ current s
  at_get s = elim (Result-cases (nl.get_ns s).0) [
    | inl (n, e) ↦ (laws.get_ok s (nl.get_ns s).1 n (λ i. (e i, (nl.get_ns s).1))).1
    | inr (x, e) ↦ laws.get_err s (nl.get_ns s).1 x (λ i. (e i, (nl.get_ns s).1))
  ]

  at_failed_set :
      (n : Ns) (s : State) (e : Error)
      → (nl.set_ns n s).0 ≡ err e
      → current (nl.set_ns n s).1 ≡ current s
  at_failed_set n s x e = laws.set_err s (nl.set_ns n s).1 n x (λ i. (e i, (nl.set_ns n s).1))

  at_set : (n : Ns) (s : State) → (nl.set_ns n s).0 ≡ ok tt → current (nl.set_ns n s).1 ≡ n
  at_set n s e = laws.set_ok s (nl.set_ns n s).1 n (λ i. (e i, (nl.set_ns n s).1))

  -- Whatever the function does, and whether it fails or not: the thread is in the namespace that it
  -- was in before, provided that it can always be set back to that namespace.
  pub in_namespace_restores :
      {A : Type 0} (ns : Ns) (body : Exec State A) (s : State)
      → ((t : State) → (nl.set_ns (current s) t).0 ≡ ok tt)
      → current (in_namespace nl ns body s).1 ≡ current s
  unfolding in_namespace
  in_namespace_restores ns body s back = elim (Result-cases (nl.get_ns s).0) [
    | inr (x, e) ↦ ground (arith, e, at_get s)
    | inl (n, e) ↦
        let here : n ≡ current s =
          (laws.get_ok s (nl.get_ns s).1 n (λ i. (e i, (nl.get_ns s).1))).0 in
        elim (Result-cases (nl.set_ns ns (nl.get_ns s).1).0) [
          | inr (x, f) ↦ ground (arith, e, f, at_get s, at_failed_set ns (nl.get_ns s).1 x f)
          | inl (u, f) ↦ ground (
            arith,
            e,
            f,
            here,
            back (body (nl.set_ns ns (nl.get_ns s).1).1).1,
            at_set (current s) (body (nl.set_ns ns (nl.get_ns s).1).1).1,
          )
        ]
  ]
