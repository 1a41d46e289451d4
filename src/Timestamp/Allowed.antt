-- ===== src/Timestamp/Allowed.antt =====
-- The URLs of a client that was made.
use protocol_c.Prelude.{
  ◌≡◌, refl, ap, ◌∙◌, Bool, true, false, not, ◌&&◌, ◌||◌, Option, some, List, [], ◌∷◌, Text, codes,
  text_eq, text_eq_iff, Bool-cases, Option-cases, inl, inr, ◌⊎◌, All, subst,
}
use protocol_c.Py.Result.{ok, timestamp_error, >>=-eq-ok, guard-eq-ok}
use protocol_c.Timestamp.{Library, Url, Ip}
use protocol_c.Timestamp.Hosts.{
  Client, is_disallowed, host_of, url_or, default_tsa_url, fallback_tsa_url, address_ok,
  check_addresses, addresses, validate_tsa_url, new_client,
}
use protocol_c.Timestamp.Attested.{ok-inj}

not-not : (b : Bool) → not (not b) ≡ true → b ≡ true
not-not true h = refl
not-not false h = cc

not-true : (b : Bool) → not b ≡ true → b ≡ false
not-true true h = cc
not-true false h = refl

host_of-eq : (u : Url) (host : Text) → host_of u ≡ ok host → u.hostname ≡ some host
host_of-eq u host h = elim (Option-cases u.hostname) [
  | inl nothing ↦ cc (rw nothing at h)
  | inr ([], empty_host) ↦ cc (rw empty_host at h)
  | inr (c ∷ cs, named) ↦ named ∙ ap some (cc (rw named at h))
]

module _ (lib : Library) where
  -- No literal address of those is of a kind that is not permitted.
  abbrev pub IsPublic : Text → Type 0
  IsPublic addr = (ip : Ip) → lib.ip_address addr ≡ some ip → is_disallowed ip ≡ false

  -- A URL that may be asked: its scheme is https, or http where that is allowed, it has a host, and
  -- no address of the host is of a kind that is not permitted.
  pub record IsAllowed (allow_insecure_http : Bool) (url : Text) : Type 0 where
    pub u : Url
    pub parsed : lib.urlparse url ≡ ok u
    pub scheme :
        (u.scheme ≡ codes "https") ⊎ ((u.scheme ≡ codes "http") × (allow_insecure_http ≡ true))
    pub host : Text
    pub host_is : u.hostname ≡ some host
    pub addrs : List Text
    pub addrs_are : addresses lib host ≡ ok addrs
    pub all_public : All IsPublic addrs

  address_ok-IsPublic : (addr : Text) → address_ok lib addr ≡ true → IsPublic addr
  unfolding address_ok
  address_ok-IsPublic addr h ip literal =
      not-true (is_disallowed ip) (rw (address_ok, literal) at h)

  check_addresses-All : (addrs : List Text) → check_addresses lib addrs ≡ ok tt → All IsPublic addrs
  unfolding check_addresses
  check_addresses-All [] h = tt
  check_addresses-All (addr ∷ addrs) h =
      let (permitted, rest) = guard-eq-ok (address_ok lib addr) timestamp_error _ h in
      (address_ok-IsPublic addr permitted, check_addresses-All addrs rest)

  allowed_scheme :
      (t : Text) (allow : Bool)
      → not (text_eq t (codes "http") && not allow) ≡ true
      → (text_eq t (codes "http") || text_eq t (codes "https")) ≡ true
      → (t ≡ codes "https") ⊎ ((t ≡ codes "http") × (allow ≡ true))
  allowed_scheme t allow secure known = elim (Bool-cases (text_eq t (codes "http"))) [
    | inl http ↦ inr ((text_eq_iff t (codes "http")).0 http, not-not allow (rw http at secure))
    | inr other ↦ inl ((text_eq_iff t (codes "https")).0 (rw other at known))
  ]

  validate_tsa_url-IsAllowed :
      (allow : Bool) (url valid : Text)
      → validate_tsa_url lib allow url ≡ ok valid
      → IsAllowed allow valid
  unfolding validate_tsa_url
  validate_tsa_url-IsAllowed allow url valid h =
      let (u, is_parsed, h1) = >>=-eq-ok (lib.urlparse url) _ h in
      let (secure, h2) =
        guard-eq-ok (not (text_eq u.scheme (codes "http") && not allow)) timestamp_error _ h1 in
      let (known, h3) =
        guard-eq-ok (text_eq u.scheme (codes "http") || text_eq u.scheme (codes "https"))
          timestamp_error _ h2 in
      let (host, is_host, h4) = >>=-eq-ok (host_of u) _ h3 in
      let (addrs, found, h5) = >>=-eq-ok (addresses lib host) _ h4 in
      let (done, checked, h6) = >>=-eq-ok (check_addresses lib addrs) _ h5 in
      subst (IsAllowed allow) (ok-inj lib h6) (record {
        u = u;
        parsed = is_parsed;
        scheme = allowed_scheme u.scheme allow secure known;
        host = host;
        host_is = host_of-eq u host is_host;
        addrs = addrs;
        addrs_are = found;
        all_public = check_addresses-All addrs checked;
      })

  -- A client that is made has two URLs that may be asked, the defaults included.
  pub new_client-IsAllowed :
      (tsa_url fallback_url : Option Text) (allow : Bool) (client : Client)
      → new_client lib tsa_url fallback_url allow ≡ ok client
      → IsAllowed allow client.tsa_url × IsAllowed allow client.fallback_url
  unfolding new_client
  new_client-IsAllowed tsa_url fallback_url allow client h =
      let (primary, h_first, h1) =
        >>=-eq-ok (validate_tsa_url lib allow (url_or tsa_url default_tsa_url)) _ h in
      let (secondary, h_second, h2) =
        >>=-eq-ok (validate_tsa_url lib allow (url_or fallback_url fallback_tsa_url)) _ h1 in
      let same = ok-inj lib h2 in
      (
        subst (IsAllowed allow) (ap (λ (c : Client). c.tsa_url) same)
            (validate_tsa_url-IsAllowed allow _ primary h_first),
        subst (IsAllowed allow) (ap (λ (c : Client). c.fallback_url) same)
            (validate_tsa_url-IsAllowed allow _ secondary h_second),
      )
