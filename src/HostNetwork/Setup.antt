-- ===== src/HostNetwork/Setup.antt =====
-- internal/hostnetwork: looking for a link of a name, replacing it if it is of the wrong type, and
-- creating it if it is not there, as setupVRF, setupBridge and setupVXLan do.
pub mod VrfLink
pub mod BridgeLink
pub mod VxlanLink
pub mod Router
pub mod Vni
pub mod Others
use Prim.Native.String.{String}
use pierre.Base.{
  ℕ, ap, subst, sym, ◌∙◌, ◌≡◌, ◌≢◌, refl, Bool, true, false, Option, none, some, Text, Result, ok,
  err, ok-injective, is_not_found, Error, if◌then◌else◌, Result-cases, inl, inr,
}
use pierre.Base.Exec.{Exec, pure, lift, attempt, annotate, replace, ◌>>=◌, ◌>>◌}
use pierre.Base.Triple.{
  Triple-keeps, Triple, Triple-bind, Triple-annotate, Triple-replace, Triple-if, Triple-pure,
  Triple-weaken,
}
use pierre.HostNetwork.Netlink.{Netlink, Link, Kind, new_link}
use pierre.HostNetwork.Properties.{addr_gen_mode_none}
use pierre.Base.{codes, ◌++◌}
use pierre.HostNetwork.Kernel.{View, IsBase, Stays, Same, Spares, Kernel}

module _ {State Ns : Type 0} (nl : Netlink State Ns) (v : View State Ns) (kernel : Kernel nl v)
    (ns : Ns) (n : Text) (s0 : State) where
  -- The VRFs and bridges with other names than `n` that were there in the state `s0` still are, and
  -- the thread is in the namespace.
  pub record Inv (s : State) : Type 0 where
    pub others :
        (m : Text) (l : Link)
        → m ≢ n
        → v.link s0 ns m ≡ some l
        → IsBase l.kind
        → Stays l (v.link s ns m)
    pub here : v.current s ≡ ns

  -- A link that stood under the name `n`.
  pub record Named (l : Link) : Type 0 where
    pub name : l.name ≡ n
    pub index :
        (m : Text) (k : Link) → m ≢ n → v.link s0 ns m ≡ some k → IsBase k.kind → k.index ≢ l.index

  -- The link that stands under the name `n`.
  pub record Found (l : Link) (s : State) : Type 0 where
    pub inv : Inv s
    pub there : v.link s ns n ≡ some l
    pub named : Named l

  pub Inv-Same : (s t : State) → Inv s → Same v s t → Inv t
  Inv-Same s t i h = record {
    others = λ m l d e b.
        let k = i.others m l d e b in
        record { now = k.now; there = h.links ns m ∙ k.there; kind = k.kind; index = k.index };
    here = h.current ∙ i.here;
  }

  Inv-Spares :
      (P : Text → Link → Type 0) (s t : State)
      → Inv s
      → Spares v P s t
      → ((m : Text) (l k : Link)
          → m ≢ n
          → v.link s0 ns m ≡ some l
          → IsBase l.kind
          → k.kind ≡ l.kind
          → k.index ≡ l.index
          → P m k)
      → Inv t
  Inv-Spares P s t i h spared = record {
    others = λ m l d e b.
        let k = i.others m l d e b in
        let before : v.link s (v.current s) m ≡ some k.now =
          subst (λ x. v.link s x m ≡ some k.now) (sym i.here) k.there in
        let j = h.stays m k.now (spared m l k.now d e b k.kind k.index) before in
        record {
          now = j.now;
          there = subst (λ x. v.link t x m ≡ some j.now) i.here j.there;
          kind = j.kind ∙ k.kind;
          index = j.index ∙ k.index;
        };
    here = h.current ∙ i.here;
  }

  Named_of : (s : State) (l : Link) → Inv s → v.link s ns n ≡ some l → l.name ≡ n → Named l
  Named_of s l i e name = record {
    name = name;
    index = λ m k d f b same.
        let x = i.others m k d f b in d (kernel.unique s ns m n x.now l x.there e (x.index ∙ same));
  }

  -- What LinkByName returned.
  abbrev pub Looked : Result Link → State → Type 0
  Looked (ok l) s = Found l s
  Looked (err e) s = Inv s

  looked :
      (s : State) (r : Result Link)
      → Inv s
      → (nl.link_by_name n s).0 ≡ r
      → Looked r (nl.link_by_name n s).1
  looked s (err e) i h = Inv-Same s (nl.link_by_name n s).1 i (kernel.link_by_name n s)
  looked s (ok l) i h =
      let t = (nl.link_by_name n s).1 in
      let same = kernel.link_by_name n s in
      let i' = Inv-Same s t i same in
      let (at, name) = kernel.found n s l h in
      let there : v.link t ns n ≡ some l =
        same.links ns n ∙ subst (λ x. v.link s x n ≡ some l) i.here at in
      record { inv = i'; there = there; named = Named_of t l i' there name }

  pub lookup_lem : Triple Inv (attempt (nl.link_by_name n)) Looked
  lookup_lem = record {
    after = λ s t r i h.
        let e0 : (nl.link_by_name n s).0 ≡ r =
          ok-injective (ap (λ (p : Result (Result Link) × State). p.0) h) in
        let e1 : (nl.link_by_name n s).1 ≡ t = ap (λ (p : Result (Result Link) × State). p.1) h in
        subst (Looked r) e1 (looked s r i e0);
  }

  -- Adding a link of the name `n`.
  pub add_lem :
      (P : Link → Type 0) (master : ℕ) (k : Kind)
      → ((s t : State) (l : Link)
          → nl.link_add (new_link n master k) s ≡ (ok l, t)
          → (l.name ≡ n) × P l)
      → Triple Inv (nl.link_add (new_link n master k)) (λ l t. Found l t × P l)
  add_lem P master k keeps = record {
    after = λ s t l i h.
        let e0 : (nl.link_add (new_link n master k) s).0 ≡ ok l =
          ap (λ (p : Result Link × State). p.0) h in
        let e1 : (nl.link_add (new_link n master k) s).1 ≡ t =
          ap (λ (p : Result Link × State). p.1) h in
        let inv : Inv t = subst Inv e1 (
          Inv-Spares (λ m x. m ≢ n) s (nl.link_add (new_link n master k) s).1 i
            (kernel.link_add n master k s) (λ m x y d f b kind index. d)) in
        let there : v.link t ns n ≡ some l =
          subst (λ x. v.link x ns n ≡ some l) e1
            (subst (λ x. v.link (nl.link_add (new_link n master k) s).1 x n ≡ some l) i.here
              (kernel.added n master k s l e0)) in
        let (name, holds) = keeps s t l h in
        (record { inv = inv; there = there; named = Named_of t l inv there name }, holds);
  }

  -- What is deleted is a link that stood under the name `n`, or nil.
  abbrev pub Deletable : Option Link → Type 0
  Deletable none = Unit
  Deletable (some l) = Named l

  deleted : (link : Option Link) (s : State) → Deletable link → Inv s → Inv (nl.link_del link s).1
  deleted none s d i = Inv-Same s (nl.link_del none s).1 i (kernel.link_del_nil s)
  deleted (some l) s d i =
      Inv-Spares (λ m x. (m ≢ l.name) × (x.index ≢ l.index) × IsBase x.kind) s
        (nl.link_del (some l) s).1 i (kernel.link_del l s)
        (λ m x y differ f b kind index. (
          λ e. differ (e ∙ d.name),
          λ e. d.index m x differ f b (sym index ∙ e),
          subst IsBase (sym kind) b,
        ))

  pub quiet_lem :
      {A : Type 0} (m : Exec State A) → ((s : State) → Same v s (m s).1) → Triple Inv m (λ a. Inv)
  quiet_lem m q = Triple-keeps m (record { after = λ s i. Inv-Same s (m s).1 i (q s) })

  -- What is there stays there through a call that changes no link.
  pub Found-stays :
      {A : Type 0} (P : Link → Type 0) (l : Link) (m : Exec State A)
      → ((s : State) → Same v s (m s).1)
      → Triple (λ s. Found l s × P l) m (λ a s. Found l s × P l)
  Found-stays P l m q = Triple-keeps m (record {
    after = λ s f. (
      record {
        inv = Inv-Same s (m s).1 f.0.inv (q s);
        there = (q s).links ns n ∙ f.0.there;
        named = f.0.named;
      },
      f.1,
    );
  })

  -- What `lookup_lem` leaves, once the error is dealt with.
  abbrev pub Held : Option Link → State → Type 0
  Held none s = Inv s
  Held (some l) s = Found l s

  module _ (P : Link → Type 0) (create : Exec State Link)
      (creates : Triple Inv create (λ l t. Found l t × P l)) where
    pub replaced_lem :
        (first second : String) (link : Option Link)
        → Deletable link
        → Triple Inv
            (annotate first (nl.link_del link) >>= λ _. annotate second create)
            (λ l t. Found l t × P l)
    replaced_lem first second link d =
        Triple-bind (λ _. Inv) (annotate first (nl.link_del link)) (λ _. annotate second create)
          (Triple-annotate first (nl.link_del link)
            (Triple-keeps (nl.link_del link) (record { after = λ s i. deleted link s d i })))
          (λ _. Triple-annotate second create creates)

    pub created_lem :
        (text : String) (e : Error)
        → Triple Inv
            (if is_not_found e then (annotate text create >>= λ l. pure (some l)) else pure none)
            Held
    created_lem text e =
        Triple-if (is_not_found e) (annotate text create >>= λ l. pure (some l)) (pure none)
          (Triple-bind (λ l t. Found l t × P l) (annotate text create) (λ l. pure (some l))
            (Triple-annotate text create creates) (λ l. Triple-pure (some l) (λ s f. f.0)))
          (Triple-pure none (λ s i. i))

  module _ (P : Link → Type 0) (l : Link) where
    pub addr_gen_triple :
        Triple (λ s. Found l s × P l) (addr_gen_mode_none nl l) (λ a s. Found l s × P l)
    unfolding addr_gen_mode_none
    addr_gen_triple =
        Triple-bind (λ _ s. Found l s × P l)
          (annotate "error opening file"
            (nl.open_file (codes "/proc/sys/net/ipv6/conf/" ++ l.name ++ codes "/addr_gen_mode")))
          _ (Triple-annotate _ _ (Found-stays P l _ (kernel.open_file _)))
          (λ file. Triple-annotate _ _ (Found-stays P l _ (kernel.write_file file _)))
