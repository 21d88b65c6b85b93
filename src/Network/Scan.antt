-- ===== src/Network/Scan.antt =====
-- Which address autoDetectAddress finds (network.go).
use scaffold_go.Base.{
  ℕ, String, ◌≡◌, refl, sym, ap, ◌∙◌, true, false, Bool-cases, arith, inl, inr, Option, none, some,
  List, [], ◌∷◌, ◌++◌, append_assoc, if◌then◌else◌,
}
use scaffold_go.Net.{Ip, is_v4}
use scaffold_go.Platform.{Platform, Interface, ok}
use scaffold_go.Network.{
  is_suitable, scan_addrs, scan_interfaces, readable, or_else, detected, scanned,
  auto_detect_address,
}

-- The addresses that parse.
abbrev pub parsed : List (Option Ip) → List Ip
parsed [] = []
parsed (none ∷ addrs) = parsed addrs
parsed (some ip ∷ addrs) = ip ∷ parsed addrs

module _ {World : Type 0} (p : Platform World) (family : ℕ) where
  -- A private address of the asked family, which is neither a loopback nor a link-local one.
  pub record IsSuitable (ip : Ip) : Type 0 where
    pub v4_for_4 : family ≡ 4 → is_v4 ip ≡ true
    pub v6_for_6 : family ≡ 6 → is_v4 ip ≡ false
    pub not_loopback : p.is_loopback_ip ip ≡ false
    pub not_link_local : p.is_link_local_unicast ip ≡ false
    pub private : p.is_private ip ≡ true

  -- The addresses of the interfaces that are up and not the loopback, in their order.
  abbrev pub usable_of : Interface → List Ip
  usable_of i = if i.is_up then if i.is_loopback then [] else parsed (readable p i.addrs) else []

  abbrev pub usable : List Interface → List Ip
  usable [] = []
  usable (i ∷ is) = usable_of i ++ usable is

  -- None of the addresses is suitable.
  abbrev pub NoneSuitable : List Ip → Type 0
  NoneSuitable [] = Unit
  NoneSuitable (ip ∷ ips) = ¬ (IsSuitable ip) × NoneSuitable ips

  -- The text is that of the first suitable address, or there is none.
  abbrev pub IsFirst : List Ip → Option String → Type 0
  IsFirst ips none = NoneSuitable ips
  IsFirst ips (some text) =
      (before : List Ip) × (ip : Ip) × (after : List Ip) × (ips ≡ before ++ ip ∷ after)
      × NoneSuitable before
      × IsSuitable ip
      × (text ≡ p.ip_string ip)

  is_suitable-true : (ip : Ip) → is_suitable p family ip ≡ true → IsSuitable ip
  unfolding is_suitable
  is_suitable-true ip e = record {
    v4_for_4 = λ h. grind arith;
    v6_for_6 = λ h. grind arith;
    not_loopback = ground arith;
    not_link_local = ground arith;
    private = ground arith;
  }

  is_suitable-false : (ip : Ip) → is_suitable p family ip ≡ false → ¬ (IsSuitable ip)
  unfolding is_suitable
  is_suitable-false ip e fit = grind arith

  NoneSuitable-append :
      (xs ys : List Ip) → NoneSuitable xs → NoneSuitable ys → NoneSuitable (xs ++ ys)
  NoneSuitable-append [] ys n m = m
  NoneSuitable-append (x ∷ xs) ys (unfit, n) m = (unfit, NoneSuitable-append xs ys n m)

  IsFirst-behind :
      (xs ys : List Ip) (o : Option String) → NoneSuitable xs → IsFirst ys o → IsFirst (xs ++ ys) o
  IsFirst-behind xs ys none n m = NoneSuitable-append xs ys n m
  IsFirst-behind xs ys (some text) n (before, ip, after, split, m, fit, same) = (
    xs ++ before,
    ip,
    after,
    ap (λ l. xs ++ l) split ∙ sym (append_assoc xs before (ip ∷ after)),
    NoneSuitable-append xs before n m,
    fit,
    same,
  )

  IsFirst-or_else :
      (xs ys : List Ip) (o q : Option String)
      → IsFirst xs o
      → IsFirst ys q
      → IsFirst (xs ++ ys) (or_else p o q)
  IsFirst-or_else xs ys none q n m = IsFirst-behind xs ys q n m
  IsFirst-or_else xs ys (some text) q (before, ip, after, split, n, fit, same) m = (
    before,
    ip,
    after ++ ys,
    ap (λ l. l ++ ys) split ∙ append_assoc before (ip ∷ after) ys,
    n,
    fit,
    same,
  )

  scan_addrs-IsFirst :
      (addrs : List (Option Ip)) → IsFirst (parsed addrs) (scan_addrs p family addrs)
  unfolding scan_addrs
  scan_addrs-IsFirst [] = tt
  scan_addrs-IsFirst (none ∷ addrs) = scan_addrs-IsFirst addrs
  scan_addrs-IsFirst (some ip ∷ addrs) = elim (Bool-cases (is_suitable p family ip)) [
    | inl fits ↦
        rw (fits, scan_addrs) ([], ip, parsed addrs, refl, tt, is_suitable-true ip fits, refl)
    | inr unfit ↦
        rw (unfit, scan_addrs)
          (IsFirst-behind (ip ∷ []) (parsed addrs) (scan_addrs p family addrs)
            (is_suitable-false ip unfit, tt) (scan_addrs-IsFirst addrs))
  ]

  scan_interfaces-IsFirst :
      (is : List Interface) → IsFirst (usable is) (scan_interfaces p family is)
  unfolding scan_interfaces
  scan_interfaces-IsFirst [] = tt
  scan_interfaces-IsFirst (i ∷ is) =
      let rest = scan_interfaces-IsFirst is in
      elim (Bool-cases i.is_up) [
        | inr down ↦ rw (down, scan_interfaces) rest
        | inl up ↦ elim (Bool-cases i.is_loopback) [
          | inl loopback ↦ rw (up, loopback, scan_interfaces) rest
          | inr other ↦
              rw (up, other, scan_interfaces)
                (IsFirst-or_else (parsed (readable p i.addrs)) (usable is) _ _
                  (scan_addrs-IsFirst (readable p i.addrs)) rest)
        ]
      ]

  -- When the interfaces can be listed, the detected address is the first, in the order of the
  -- interfaces and of their addresses, that is private, of the asked family if that is 4 or 6, not
  -- loopback and not link-local, on an interface that is up and not the loopback; there is an error
  -- exactly when there is no such address.
  pub auto_detect_address-IsFirst :
      (w : World) (is : List Interface)
      → p.interfaces w ≡ ok is
      → (o : Option String) × (auto_detect_address p family w ≡ detected p family o)
        × IsFirst (usable is) o
  unfolding auto_detect_address
  auto_detect_address-IsFirst w is listed =
      (scan_interfaces p family is, ap (scanned p family) listed, scan_interfaces-IsFirst is)
