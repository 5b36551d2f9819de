-- ===== src/HostNetwork/Added.antt =====
-- What the program relies on of netlink.LinkAdd.
use pierre.Base.{◌≡◌, ok}
use pierre.HostNetwork.Netlink.{Netlink, Link}

-- LinkAdd changes nothing of its argument but the index.
abbrev pub AddKeeps : {State Ns : Type 0} → Netlink State Ns → Type 0
AddKeeps {State} nl =
    (l k : Link) (s t : State)
    → nl.link_add l s ≡ (ok k, t)
    → (k.name ≡ l.name) × (k.master_index ≡ l.master_index) × (k.kind ≡ l.kind)
