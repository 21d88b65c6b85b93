-- ===== src/Network/Sources.antt =====
-- Where the bind and the advertised address of a daemon come from (network.go, scaffold.go).
use scaffold_go.Base.{
  ℕ, String, Bool, true, false, ◌≡◌, sym, ap, ◌∙◌, inl, inr, Option, none, some, List, refl, subst,
  str_eq, eq_iff, is_some, Bool-cases, if◌then◌else◌,
}
use scaffold_go.Go.{Error}
use scaffold_go.Platform.{Platform, Interface, Result, ok, err}
use scaffold_go.Network.Scan.{IsFirst, usable, auto_detect_address-IsFirst}
use scaffold_go.Network.{
  is_wildcard, wildcard_family, detected, scanned, auto_detect_address, labelled,
  resolve_bind_address, resolve_advertised_address,
}

module _ {World : Type 0} (p : Platform World) where
  -- The address to bind: the configured one, which must be an IP address, or the default of the kind of
  -- bindings.
  pub data IsBindAddress (raw : String) (is_test : Bool) (addr source : String) : Type 0 where
    bind_configured :
        source ≡ "configured"
        → addr ≡ raw
        → is_some (p.parse_ip raw) ≡ true
        → IsBindAddress raw is_test addr source
    bind_default :
        source ≡ "default"
        → raw ≡ ""
        → addr ≡ (if is_test then "127.0.0.1" else "0.0.0.0")
        → IsBindAddress raw is_test addr source

  -- The text is that of the first suitable address of the interfaces.
  abbrev pub IsDetected : ℕ → World → String → Type 0
  IsDetected family w text =
      (is : List Interface) × (p.interfaces w ≡ ok is)
      × IsFirst p family (usable p family is) (some text)

  -- The address to advertise: the configured one, or the one bound unless it is a wildcard, or else the
  -- text of the first suitable address of the wildcard's family on the interfaces.
  pub data IsAdvertised (w : World) (raw bind_addr addr source : String) : Type 0 where
    adv_configured :
        source ≡ "configured"
        → addr ≡ raw
        → is_some (p.parse_ip raw) ≡ true
        → IsAdvertised w raw bind_addr addr source
    adv_derived :
        source ≡ "derived"
        → raw ≡ ""
        → addr ≡ bind_addr
        → is_wildcard bind_addr ≡ false
        → IsAdvertised w raw bind_addr addr source
    adv_detected :
        source ≡ "auto-detected"
        → raw ≡ ""
        → is_wildcard bind_addr ≡ true
        → IsDetected (wildcard_family bind_addr) w addr
        → IsAdvertised w raw bind_addr addr source

  ok_pair :
      {a b c d : String}
      → ◌≡◌ {A = Result (String × String)} (ok (a, b)) (ok (c, d))
      → (a ≡ c) × (b ≡ d)
  ok_pair e = (cc, cc)

  err≢ok : {x : Error} {y : String × String} → ◌≡◌ {A = Result (String × String)} (err x) (ok y) → ⊥
  err≢ok e = cc

  pub resolve_bind_address-IsBindAddress :
      (raw : String) (is_test : Bool) (addr source : String)
      → resolve_bind_address p raw is_test ≡ ok (addr, source)
      → IsBindAddress raw is_test addr source
  unfolding resolve_bind_address
  resolve_bind_address-IsBindAddress raw is_test addr source e = elim (Bool-cases (str_eq raw "")) [
    | inl empty ↦ elim (Bool-cases is_test) [
      | inl test ↦
          let (same_addr, same_source) = ok_pair (rw (empty, test, resolve_bind_address) at e) in
          bind_default (sym same_source) ((eq_iff raw "").0 empty)
            (sym same_addr ∙ ap (λ t. if t then "127.0.0.1" else "0.0.0.0") (sym test))
      | inr production ↦
          let (same_addr, same_source) =
            ok_pair (rw (empty, production, resolve_bind_address) at e) in
          bind_default (sym same_source) ((eq_iff raw "").0 empty)
            (sym same_addr ∙ ap (λ t. if t then "127.0.0.1" else "0.0.0.0") (sym production))
    ]
    | inr given ↦ elim (Bool-cases (is_some (p.parse_ip raw))) [
      | inl valid ↦
          let (same_addr, same_source) = ok_pair (rw (given, valid, resolve_bind_address) at e) in
          bind_configured (sym same_source) (sym same_addr) valid
      | inr invalid ↦ absurd (err≢ok (rw (given, invalid, resolve_bind_address) at e))
    ]
  ]

  detected_ok :
      (family : ℕ) (o : Option String) (text : String)
      → detected p family o ≡ ok text
      → o ≡ some text
  detected_ok family none text e = cc
  detected_ok family (some a) text e = cc

  auto_detect_address-IsDetected :
      (family : ℕ) (w : World) (text : String)
      → auto_detect_address p family w ≡ ok text
      → IsDetected family w text
  unfolding auto_detect_address
  auto_detect_address-IsDetected family w text e = listed (p.interfaces w) refl e
    where
      listed :
          (r : Result (List Interface))
          → p.interfaces w ≡ r
          → scanned p family r ≡ ok text
          → IsDetected family w text
      listed (err failed) at_r h = cc
      listed (ok is) at_r h =
          let (o, same, one) = auto_detect_address-IsFirst p family w is at_r in
          (
            is,
            at_r,
            subst (IsFirst p family (usable p family is))
                (detected_ok family o text (sym same ∙ ap (scanned p family) at_r ∙ h)) one,
          )

  labelled_ok :
      (r : Result String) (addr source : String)
      → labelled p r ≡ ok (addr, source)
      → (r ≡ ok addr) × (source ≡ "auto-detected")
  labelled_ok (err e) addr source h = absurd (err≢ok h)
  labelled_ok (ok a) addr source h =
      let (same_addr, same_source) = ok_pair h in (ap ok same_addr, sym same_source)

  pub resolve_advertised_address-IsAdvertised :
      (bind_addr raw : String) (w : World) (addr source : String)
      → resolve_advertised_address p bind_addr raw w ≡ ok (addr, source)
      → IsAdvertised w raw bind_addr addr source
  unfolding resolve_advertised_address
  resolve_advertised_address-IsAdvertised bind_addr raw w addr source e =
      elim (Bool-cases (str_eq raw "")) [
        | inl empty ↦ elim (Bool-cases (is_wildcard bind_addr)) [
          | inl wildcard ↦
              let (found, same_source) =
                labelled_ok _ addr source (rw (empty, wildcard, resolve_advertised_address) at e) in
              adv_detected same_source ((eq_iff raw "").0 empty) wildcard
                (auto_detect_address-IsDetected (wildcard_family bind_addr) w addr found)
          | inr bound ↦
              let (same_addr, same_source) =
                ok_pair (rw (empty, bound, resolve_advertised_address) at e) in
              adv_derived (sym same_source) ((eq_iff raw "").0 empty) (sym same_addr) bound
        ]
        | inr given ↦ elim (Bool-cases (is_some (p.parse_ip raw))) [
          | inl valid ↦
              let (same_addr, same_source) =
                ok_pair (rw (given, valid, resolve_advertised_address) at e) in
              adv_configured (sym same_source) (sym same_addr) valid
          | inr invalid ↦ absurd (err≢ok (rw (given, invalid, resolve_advertised_address) at e))
        ]
      ]
