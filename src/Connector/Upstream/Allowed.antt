-- ===== src/Connector/Upstream/Allowed.antt =====
-- Which upstreams a connector may have.
use mcphub.Prelude.{
  ◌≡◌, refl, subst, Any, Any-map, All-map, any-true, Bool, eqb, sym, ap, ◌∙◌, true, false, ◌&&◌,
  Option, none, some, ◌⊎◌, inl, inr, List, [], ◌∷◌, Text, str, to_lower, any, eqb_iff, ◌≢◌, All,
  Bool-cases, Option-cases, arith,
}
use mcphub.Connector.Upstream.{
  Ip, Url, private_or_metadata, trim_dot, allow_or_default, host_allowed, validate_upstream,
  new_http_connector, check_ip, check_lookup, is_loopback_ip,
}

-- What an address is not: loopback, private, link-local, or that of a metadata service.
abbrev pub IsPublic : Ip → Type 0
IsPublic ip =
    (ip.is_loopback ≡ false)
    × (ip.is_private ≡ false)
    × (ip.is_link_local_unicast ≡ false)
    × (ip.is_link_local_multicast ≡ false)
    × (ip.string ≢ str "169.254.169.254")
    × (ip.string ≢ str "100.100.100.200")

-- The names that a list allows.
abbrev pub names : List Text → List Text
names [] = str "127.0.0.1" ∷ (str "localhost" ∷ (str "::1" ∷ []))
names (h ∷ hs) = h ∷ hs

names_lem : (allow : List Text) → allow_or_default allow ≡ names allow
names_lem [] = refl
names_lem (h ∷ hs) = refl

module _ (parse_ip : Text → Option Ip) (lookup_ip : Text → Option (List Ip)) where
  -- The host is on the list, or a loopback address.
  abbrev pub IsListed : Text → List Text → Type 0
  IsListed host allow =
      Any (λ h. h ≡ host) allow ⊎ ((ip : Ip) × (parse_ip host ≡ some ip) × (ip.is_loopback ≡ true))

  -- The name that validateUpstream looks at.
  abbrev pub name_of : Url → Text
  name_of u = to_lower (trim_dot u.hostname)

  looked_up : Option (List Ip) → List Ip
  looked_up none = []
  looked_up (some ips) = ips

  addresses_of : Option Ip → Text → List Ip
  addresses_of (some ip) host = ip ∷ []
  addresses_of none host = looked_up (lookup_ip host)

  -- The addresses that a host name or an address literal stands for.
  unfoldable pub addresses : Text → List Ip
  unfolding addresses_of looked_up
  addresses host = addresses_of (parse_ip host) host

  all_public :
      (ips : List Ip)
      → any (λ ip. private_or_metadata ip && true) ips ≡ false
      → All (λ ip. private_or_metadata ip ≡ false) ips
  all_public [] e = tt
  all_public (ip ∷ ips) e = elim (Bool-cases (private_or_metadata ip)) [
    | inl y ↦ ground arith
    | inr n ↦ (n, all_public ips (ground arith))
  ]

  after_lookup :
      (o : Option (List Ip))
      → check_lookup parse_ip lookup_ip false o ≡ none
      → All (λ ip. private_or_metadata ip ≡ false) (looked_up o)
  unfolding looked_up
  after_lookup none e = ground arith
  after_lookup (some ips) e = all_public ips (ground arith)

  validated :
      (host : Text) (ip : Option Ip)
      → check_ip parse_ip lookup_ip false host ip ≡ none
      → All (λ ip. private_or_metadata ip ≡ false) (addresses_of ip host)
  unfolding addresses_of
  validated host (some ip) e = (ground arith, tt)
  validated host none e = after_lookup (lookup_ip host) (ground arith)

  made :
      (u : Url) (allow : List Text)
      → new_http_connector parse_ip lookup_ip (some u) allow ≡ none
      → (validate_upstream parse_ip lookup_ip u (allow_or_default allow) ≡ none)
        × (host_allowed parse_ip lookup_ip u.hostname (allow_or_default allow) ≡ true)
  unfolding new_http_connector
  made u allow e =
      elim (Option-cases (validate_upstream parse_ip lookup_ip u (allow_or_default allow))) [
        | inl n ↦ (n, ground arith)
        | inr (x, s) ↦ ground arith
      ]

  listed :
      (host : Text) (allow : List Text)
      → host_allowed parse_ip lookup_ip host allow ≡ true
      → IsListed host allow
  unfolding host_allowed
  listed host allow e = elim (Bool-cases (any (λ h. eqb host h) allow)) [
    | inl on ↦ inl (Any-map allow (λ h. sym_eqb host h) (any-true (λ h. eqb host h) allow on))
    | inr off ↦ inr (at (parse_ip host) refl (ground (arith, off, e)))
  ]
    where
      sym_eqb : (x y : Text) → eqb x y ≡ true → y ≡ x
      sym_eqb x y same = sym ((eqb_iff x y).0 same)

      at :
          (o : Option Ip)
          → parse_ip host ≡ o
          → is_loopback_ip parse_ip lookup_ip o ≡ true
          → (ip : Ip) × (parse_ip host ≡ some ip) × (ip.is_loopback ≡ true)
      at none same h = ground arith
      at (some ip) same h = (ip, same, h)

  public_lem : (ip : Ip) → private_or_metadata ip ≡ false → IsPublic ip
  unfolding private_or_metadata
  public_lem ip e =
      ground (
        arith,
        eqb_iff ip.string (str "169.254.169.254"),
        eqb_iff ip.string (str "100.100.100.200"),
      )

  -- A name that is no address is no name of a metadata service, and can be looked up.
  resolved :
      (explicit : Bool) (host : Text) (ip : Option Ip)
      → check_ip parse_ip lookup_ip explicit host ip ≡ none
      → ip ≡ none
      → (host ≢ str "metadata.google.internal") × (host ≢ str "metadata") × (lookup_ip host ≢ none)
  resolved explicit host (some ip) e none_of = ground arith
  resolved explicit host none e none_of = (
    ground (arith, eqb_iff host (str "metadata.google.internal")),
    ground (arith, eqb_iff host (str "metadata")),
    λ missing. ground (arith, missing),
  )

  reached :
      (explicit : Bool) (u : Url) (allow : List Text)
      → host_allowed parse_ip lookup_ip (name_of u) allow ≡ explicit
      → validate_upstream parse_ip lookup_ip u allow ≡ none
      → IsListed (name_of u) allow ⊎ All IsPublic (addresses (name_of u))
  unfolding validate_upstream addresses
  reached true u allow is e = inl (listed (name_of u) allow is)
  reached false u allow is e = inr (
      All-map (addresses_of (parse_ip (name_of u)) (name_of u)) public_lem (
        validated (name_of u) (parse_ip (name_of u)) (
          sym (ap (λ x. check_ip parse_ip lookup_ip x (name_of u) (parse_ip (name_of u))) is) ∙ e)))

  no_metadata :
      (u : Url) (allow : List Text)
      → validate_upstream parse_ip lookup_ip u allow ≡ none
      → parse_ip (name_of u) ≡ none
      → (name_of u ≢ str "metadata.google.internal")
        × (name_of u ≢ str "metadata")
        × (lookup_ip (name_of u) ≢ none)
  unfolding validate_upstream
  no_metadata u allow e =
      resolved (host_allowed parse_ip lookup_ip (name_of u) allow) (name_of u)
        (parse_ip (name_of u)) e

  schemes :
      (u : Url) (allow : List Text)
      → new_http_connector parse_ip lookup_ip (some u) allow ≡ none
      → ((u.scheme ≡ str "http") ⊎ (u.scheme ≡ str "https")) × (u.host ≢ [])
  unfolding new_http_connector
  schemes u allow e = (
    ground (arith, eqb_iff u.scheme (str "http"), eqb_iff u.scheme (str "https")),
    ground (arith, eqb_iff u.host []),
  )

  -- A connector is made only for a URL with the scheme http or https and a host name that is on the list
  -- (127.0.0.1, localhost and ::1 where the list is empty) or a loopback address. If its lower-case form
  -- without a final dot is neither on the list nor a loopback address, no address that it stands for is
  -- loopback, private, link-local or that of a metadata service; and if that form is a name, it is not one
  -- of the two names of metadata services, also where they are on the list, and it can be looked up.
  pub new_http_connector_safe :
      (u : Url) (allow : List Text)
      → new_http_connector parse_ip lookup_ip (some u) allow ≡ none
      → ((u.scheme ≡ str "http") ⊎ (u.scheme ≡ str "https"))
        × (u.host ≢ [])
        × IsListed u.hostname (names allow)
        × (IsListed (name_of u) (names allow) ⊎ All IsPublic (addresses (name_of u)))
        × (parse_ip (name_of u) ≡ none
            → (name_of u ≢ str "metadata.google.internal")
              × (name_of u ≢ str "metadata")
              × (lookup_ip (name_of u) ≢ none))
  new_http_connector_safe u allow e =
      let same = names_lem allow in
      let done = made u allow e in
      let first = schemes u allow e in
      (
        first.0,
        first.1,
        subst (IsListed u.hostname) same (listed u.hostname (allow_or_default allow) done.1),
        subst (λ a. IsListed (name_of u) a ⊎ All IsPublic (addresses (name_of u))) same
            (reached (host_allowed parse_ip lookup_ip (name_of u) (allow_or_default allow)) u
              (allow_or_default allow) refl done.0),
        no_metadata u (allow_or_default allow) done.0,
      )
