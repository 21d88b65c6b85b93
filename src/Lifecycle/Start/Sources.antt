-- ===== src/Lifecycle/Start/Sources.antt =====
-- The addresses with which Start and Serve go on (scaffold.go, network.go).
use scaffold_go.Base.{Bool, false, ◌≡◌, ◌⊎◌}
use scaffold_go.Platform.{Platform}
use scaffold_go.Network.{is_wildcard}
use scaffold_go.Network.Sources.{IsBindAddress, IsAdvertised}
use scaffold_go.Lifecycle.Options.{Options}
use scaffold_go.Lifecycle.Start.{Addresses}

module _ {World : Type 0} (p : Platform World) (o : Options) (w : World) where
  -- What the two resolutions promise of the addresses.
  pub record IsAddressed (is_test : Bool) (a : Addresses) : Type 0 where
    pub binds : IsBindAddress p o.bind_address is_test a.bind_addr a.bind_source
    pub advertises : IsAdvertised p w o.advertised_address a.bind_addr a.adv_addr a.adv_source
    pub reachable : (is_wildcard a.adv_addr ≡ false) ⊎ (a.adv_source ≡ "configured")
