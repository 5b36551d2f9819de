-- ===== src/HostNetwork/Namespace.antt =====
-- internal/hostnetwork/namespace.go: running a function in another network namespace.
pub mod Restores
use pierre.Base.{Result}
use pierre.Base.Exec.{Exec, attempt, replace, ◌>>=◌, ◌>>◌, lift}
use pierre.HostNetwork.Netlink.{Netlink}

module _ {State Ns : Type 0} (nl : Netlink State Ns) where
  open nl use {get_ns, set_ns}

  -- The deferred call: the thread goes back to `orig`, and an error of that is dropped.
  unfoldable pub restore : {A : Type 0} → Ns → Result A → Exec State A
  restore orig r = do _ ← attempt (set_ns orig); lift r

  unfoldable pub in_namespace : {A : Type 0} → Ns → Exec State A → Exec State A
  unfolding restore
  in_namespace ns exec_in_namespace = do
    orig ← replace "failed to get current network namespace" get_ns
    replace "failed to set current network namespace" (set_ns ns)
    r ← attempt exec_in_namespace
    restore orig r
