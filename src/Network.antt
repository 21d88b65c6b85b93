-- ===== src/Network.antt =====
-- network.go: the bind address and the advertised address.
pub mod Scan
pub mod Sources
use scaffold_go.Base.{
  ℕ, String, Bool, not, ◌||◌, ◌&&◌, Option, none, some, List, [], ◌∷◌, ◌==◌, is_some, str_eq,
  if◌then◌else◌,
}
use scaffold_go.Go.{message, wrapped, sprintf, str}
use scaffold_go.Net.{Ip, is_v4}
use scaffold_go.Platform.{Platform, Interface, Result, ok, err}

-- An address and the label of where it came from.
abbrev pub Resolved : Type 0
Resolved = Result (String × String)

unfoldable pub is_wildcard : String → Bool
is_wildcard ip = str_eq ip "0.0.0.0" || str_eq ip "::" || str_eq ip "0:0:0:0:0:0:0:0"

-- The address family of a wildcard: 6 for the two spellings of the IPv6 one, else 4.
abbrev pub wildcard_family : String → ℕ
wildcard_family addr = if str_eq addr "::" || str_eq addr "0:0:0:0:0:0:0:0" then 6 else 4

abbrev family_name : ℕ → String
family_name family = if family == 6 then "IPv6" else "IPv4"

module _ {World : Type 0} (p : Platform World) where
  unfoldable pub resolve_bind_address : String → Bool → Resolved
  resolve_bind_address raw is_test_bindings =
      if str_eq raw ""
      then if is_test_bindings then ok ("127.0.0.1", "default") else ok ("0.0.0.0", "default")
      else if is_some (p.parse_ip raw)
      then ok (raw, "configured")
      else err (
          message
            (sprintf "scaffold: invalid BindAddress %q: not a valid IP address" (str raw ∷ [])))

  -- The tests of autoDetectAddress on one address.
  pub is_suitable : ℕ → Ip → Bool
  is_suitable family ip =
      not (family == 4 && not (is_v4 ip))
      && not (family == 6 && is_v4 ip)
      && not (p.is_loopback_ip ip || p.is_link_local_unicast ip || not (p.is_private ip))

  -- The inner loop. An address that does not parse is skipped.
  scan_addrs : ℕ → List (Option Ip) → Option String
  unfolding is_suitable
  scan_addrs family [] = none
  scan_addrs family (none ∷ addrs) = scan_addrs family addrs
  scan_addrs family (some ip ∷ addrs) =
      let rest = scan_addrs family addrs in
      if is_suitable family ip then some (p.ip_string ip) else rest

  -- `iface.Addrs()`: an interface whose addresses cannot be read is skipped.
  abbrev readable : Result (List (Option Ip)) → List (Option Ip)
  readable (ok addrs) = addrs
  readable (err e) = []

  abbrev or_else : Option String → Option String → Option String
  or_else (some a) rest = some a
  or_else none rest = rest

  -- The outer loop.
  scan_interfaces : ℕ → List Interface → Option String
  unfolding scan_addrs
  scan_interfaces family [] = none
  scan_interfaces family (i ∷ is) =
      let rest = scan_interfaces family is in
      if not i.is_up || i.is_loopback
      then rest
      else or_else (scan_addrs family (readable i.addrs)) rest

  abbrev pub detected : ℕ → Option String → Result String
  detected family (some a) = ok a
  detected family none = err (
      message (
        sprintf "scaffold: no private %s address found for advertised address auto-detection"
          (str (family_name family) ∷ [])))

  abbrev scanned : ℕ → Result (List Interface) → Result String
  scanned family (ok is) = detected family (scan_interfaces family is)
  scanned family (err e) =
      err (wrapped (sprintf "scaffold: failed to enumerate network interfaces: %w" []) e)

  unfoldable pub auto_detect_address : ℕ → World → Result String
  unfolding scan_interfaces
  auto_detect_address family w = scanned family (p.interfaces w)

  abbrev labelled : Result String → Resolved
  labelled (ok a) = ok (a, "auto-detected")
  labelled (err e) = err e

  unfoldable pub resolve_advertised_address : String → String → World → Resolved
  unfolding auto_detect_address is_wildcard
  resolve_advertised_address bind_addr raw w =
      if str_eq raw ""
      then if not (is_wildcard bind_addr)
        then ok (bind_addr, "derived")
        else labelled (auto_detect_address (wildcard_family bind_addr) w)
      else if is_some (p.parse_ip raw)
      then ok (raw, "configured")
      else err (
          message (
            sprintf "scaffold: invalid AdvertisedAddress %q: not a valid IP address"
              (str raw ∷ [])))
