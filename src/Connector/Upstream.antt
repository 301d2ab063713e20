-- ===== src/Connector/Upstream.antt =====
-- NewHTTPConnector of internal/connector/streamable_http.go: which upstreams a connect may reach.
-- url.Parse, net.ParseIP and net.LookupIP are parameters.
pub mod Allowed
use mcphub.Prelude.{
  ℕ, Bool, true, false, not, ◌&&◌, ◌||◌, Option, none, some, List, [], ◌∷◌, Text, str, eqb,
  to_lower, any, if◌then◌else◌,
}

-- What the checks ask of a net.IP.
pub record Ip : Type 0 where
  pub is_loopback : Bool
  pub is_private : Bool
  pub is_link_local_unicast : Bool
  pub is_link_local_multicast : Bool
  pub string : Text

-- What the checks ask of a url.URL.
pub record Url : Type 0 where
  pub scheme : Text
  pub host : Text
  pub hostname : Text

pub data Error : Type 0 where
  invalid_url address_not_allowed host_not_allowed cannot_resolve private_address : Error

unfoldable pub private_or_metadata : Ip → Bool
private_or_metadata ip =
    ip.is_loopback
    || ip.is_private
    || ip.is_link_local_unicast
    || ip.is_link_local_multicast
    || eqb ip.string (str "169.254.169.254")
    || eqb ip.string (str "100.100.100.200")

-- `strings.TrimSuffix(s, ".")`
abbrev pub trim_dot : Text → Text
trim_dot [] = []
trim_dot (c ∷ []) = if eqb (c ∷ []) (str ".") then [] else c ∷ []
trim_dot (c ∷ (d ∷ s)) = c ∷ trim_dot (d ∷ s)

abbrev pub is_nil : List Text → Bool
is_nil [] = true
is_nil (x ∷ xs) = false

abbrev pub allow_or_default : List Text → List Text
allow_or_default allow =
    if is_nil allow then str "127.0.0.1" ∷ (str "localhost" ∷ (str "::1" ∷ [])) else allow

module _ (parse_ip : Text → Option Ip) (lookup_ip : Text → Option (List Ip)) where
  abbrev pub is_loopback_ip : Option Ip → Bool
  is_loopback_ip none = false
  is_loopback_ip (some ip) = ip.is_loopback

  unfoldable pub host_allowed : Text → List Text → Bool
  host_allowed host allow = any (λ h. eqb host h) allow || is_loopback_ip (parse_ip host)

  abbrev pub check_lookup : Bool → Option (List Ip) → Option Error
  check_lookup explicit none = some cannot_resolve
  check_lookup explicit (some ips) =
      if any (λ ip. private_or_metadata ip && not explicit) ips then some private_address else none

  abbrev pub check_ip : Bool → Text → Option Ip → Option Error
  check_ip explicit host (some ip) =
      if private_or_metadata ip && not explicit then some address_not_allowed else none
  check_ip explicit host none =
      if eqb host (str "metadata.google.internal") || eqb host (str "metadata")
      then some host_not_allowed
      else check_lookup explicit (lookup_ip host)

  unfoldable pub validate_upstream : Url → List Text → Option Error
  unfolding host_allowed private_or_metadata
  validate_upstream u allow =
      let host = to_lower (trim_dot u.hostname) in
      check_ip (host_allowed host allow) host (parse_ip host)

  abbrev pub checked : Option Error → Text → List Text → Option Error
  checked (some e) hostname allow = some e
  checked none hostname allow =
      if not (host_allowed hostname allow) then some host_not_allowed else none

  -- `NewHTTPConnector`: the error, or none where the connector is made. The argument is the result
  -- of url.Parse, none for its error.
  unfoldable pub new_http_connector : Option Url → List Text → Option Error
  unfolding validate_upstream
  new_http_connector none allow = some invalid_url
  new_http_connector (some u) allow =
      if (not (eqb u.scheme (str "http")) && not (eqb u.scheme (str "https"))) || eqb u.host []
      then some invalid_url
      else let allow = allow_or_default allow in
        checked (validate_upstream u allow) u.hostname allow
