-- ===== src/Timestamp/Hosts.antt =====
-- `RFC3161TimestampAuthority.__init__` and `_validate_tsa_url`: which URLs a client takes.
use protocol_c.Prelude.{
  Bool, true, not, ◌&&◌, ◌||◌, Option, none, some, List, [], ◌∷◌, Text, codes, text_eq,
}
use protocol_c.Py.Result.{Result, ok, err, timestamp_error, ◌>>=◌, ◌>>◌, guard}
use protocol_c.Timestamp.{Library, Url, Ip}

abbrev pub default_tsa_url : Text
default_tsa_url = codes "https://timestamp.digicert.com"

abbrev pub fallback_tsa_url : Text
fallback_tsa_url = codes "https://timestamp.sectigo.com"

-- Whether an address is of a kind that is not permitted.
unfoldable pub is_disallowed : Ip → Bool
is_disallowed ip =
    ip.is_private || ip.is_loopback || ip.is_link_local || ip.is_reserved || ip.is_multicast
    || ip.is_unspecified

-- The hostname, if it is not empty.
abbrev pub host_of : Url → Result Text
host_of u = elim u.hostname [
  | none ↦ err timestamp_error
  | some [] ↦ err timestamp_error
  | some (c ∷ cs) ↦ ok (c ∷ cs)
]

-- The client: the two URLs that were validated.
pub record Client : Type 0 where
  pub allow_insecure_http : Bool
  pub tsa_url : Text
  pub fallback_url : Text

-- `url or default`
abbrev pub url_or : Option Text → Text → Text
url_or none default = default
url_or (some []) default = default
url_or (some (c ∷ cs)) default = c ∷ cs

module _ (lib : Library) where
  -- An address of the loop: what is no literal address is passed over.
  unfoldable pub address_ok : Text → Bool
  unfolding is_disallowed
  address_ok addr = elim (lib.ip_address addr) [ none ↦ true | some ip ↦ not (is_disallowed ip) ]

  -- The loop over the addresses, in the order in which they are visited.
  unfoldable pub check_addresses : List Text → Result (Unit {0})
  unfolding address_ok
  check_addresses [] = ok tt
  check_addresses (addr ∷ addrs) = guard (address_ok addr) timestamp_error >> check_addresses addrs

  -- The addresses of a host; a name that does not resolve is taken as a literal address.
  abbrev pub addresses : Text → Result (List Text)
  addresses host =
      lib.getaddrinfo host >>= λ found. ok (elim found [ none ↦ host ∷ [] | some addrs ↦ addrs ])

  -- `_validate_tsa_url`
  unfoldable pub validate_tsa_url : Bool → Text → Result Text
  unfolding check_addresses text_eq
  validate_tsa_url allow_insecure_http url = do
    u ← lib.urlparse url
    _ ← guard (not (text_eq u.scheme (codes "http") && not allow_insecure_http)) timestamp_error
    _ ← guard (text_eq u.scheme (codes "http") || text_eq u.scheme (codes "https")) timestamp_error
    host ← host_of u
    addrs ← addresses host
    _ ← check_addresses addrs
    ok url

  -- `__init__`
  unfoldable pub new_client : Option Text → Option Text → Bool → Result Client
  unfolding validate_tsa_url
  new_client tsa_url fallback_url allow_insecure_http = do
    primary ← validate_tsa_url allow_insecure_http (url_or tsa_url default_tsa_url)
    secondary ← validate_tsa_url allow_insecure_http (url_or fallback_url fallback_tsa_url)
    ok (record {
      allow_insecure_http = allow_insecure_http;
      tsa_url = primary;
      fallback_url = secondary;
    })
