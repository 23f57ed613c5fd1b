-- ===== src/Validators.antt =====
-- crates/db/src/validators.rs: which webhook URLs may be posted to. `Ok(())` is `none`. The parser
-- of the `url` crate and `IpAddr::from_str` are parameters.
pub mod Ranges
pub mod Hosts
use defi_tx_indexer.Prelude.{
  ℕ, ◌-◌, ◌*◌, ◌/◌, ◌%◌, ◌&&◌, ◌||◌, Option, none, some, [], ◌∷◌, Text, codes, text_eq, leb, ◌==◌,
  if◌then◌else◌, strip_prefix, strip_suffix, ends_with, to_ascii_lowercase, unwrap_or,
}

pub data UnsafeUrlReason : Type 0 where
  invalid_url : UnsafeUrlReason
  non_https : UnsafeUrlReason
  no_host : UnsafeUrlReason
  loopback_host : UnsafeUrlReason
  private_ip : UnsafeUrlReason
  link_local_ip : UnsafeUrlReason
  unspecified_ip : UnsafeUrlReason
  multicast_ip : UnsafeUrlReason
  broadcast_ip : UnsafeUrlReason
  unique_local_ip : UnsafeUrlReason
  mdns_host : UnsafeUrlReason

-- An address as its number, of 32 bits or of 128.
pub data IpAddr : Type 0 where
  v4 : ℕ → IpAddr
  v6 : ℕ → IpAddr

-- `octets()[0]` and `octets()[1]` of an `Ipv4Addr`
abbrev octet0 : ℕ → ℕ
octet0 n = n / 16777216

abbrev octet1 : ℕ → ℕ
octet1 n = n / 65536 % 256

-- `segments()[0]` of an `Ipv6Addr`
abbrev segment0 : ℕ → ℕ
segment0 n = n / 5192296858534827628530496329220096

-- `to_ipv4_mapped`: `::ffff:a.b.c.d`
abbrev pub to_ipv4_mapped : ℕ → Option ℕ
to_ipv4_mapped n = if n / 4294967296 == 65535 then some (n % 4294967296) else none

unfoldable pub ipv4_is_safe : ℕ → Option UnsafeUrlReason
ipv4_is_safe n =
    if octet0 n == 127
    then some loopback_host
    else if n == 0
    then some unspecified_ip
    else if leb 224 (octet0 n) && leb (octet0 n) 239
    then some multicast_ip
    else if octet0 n == 10
        || ((octet0 n == 172 && (leb 16 (octet1 n) && leb (octet1 n) 31))
            || (octet0 n == 192 && octet1 n == 168))
    then some private_ip
    else if octet0 n == 169 && octet1 n == 254
    then some link_local_ip
    else if n == 4294967295
    then some broadcast_ip
    else none

-- A mask of the high bits of a 16-bit number clears the low ones: `& 0xff00`, `& 0xfe00`, `& 0xffc0`.
unfoldable pub ipv6_is_safe : ℕ → Option UnsafeUrlReason
ipv6_is_safe n =
    if n == 1
    then some loopback_host
    else if n == 0
    then some unspecified_ip
    else if segment0 n / 256 * 256 == 65280
    then some multicast_ip
    else if segment0 n / 512 * 512 == 64512
    then some unique_local_ip
    else if segment0 n / 64 * 64 == 65152
    then some link_local_ip
    else none

-- The IPv4 rules where there is an IPv4 address to check.
unfoldable pub check_mapped : Option ℕ → ℕ → Option UnsafeUrlReason
unfolding ipv4_is_safe ipv6_is_safe
check_mapped none n = ipv6_is_safe n
check_mapped (some m) n = ipv4_is_safe m

unfoldable pub ip_is_safe : IpAddr → Option UnsafeUrlReason
unfolding ipv4_is_safe check_mapped
ip_is_safe (v4 n) = ipv4_is_safe n
ip_is_safe (v6 n) = check_mapped (to_ipv4_mapped n) n

-- What the code asks of a parsed `url::Url`.
pub record Url : Type 0 where
  pub scheme : Text
  pub host_str : Option Text

-- The host without the brackets of an IPv6 literal.
unfoldable pub bare_host : Text → Text
bare_host host_raw = elim (strip_prefix (codes "[") host_raw) [
  | none ↦ host_raw
  | some s ↦ unwrap_or (strip_suffix (codes "]") s) host_raw
]

unfoldable pub host_name_is_safe : Text → Option UnsafeUrlReason
host_name_is_safe host =
    let host_lower = to_ascii_lowercase host in
    if text_eq host_lower (codes "localhost")
      || (ends_with (codes ".localhost") host_lower || ends_with (codes ".local") host_lower)
    then some mdns_host
    else none

-- A host that is an address is judged as one.
unfoldable pub check_host : Text → Option IpAddr → Option UnsafeUrlReason
unfolding host_name_is_safe ip_is_safe
check_host host none = host_name_is_safe host
check_host host (some ip) = ip_is_safe ip

module _ (parse_url : Text → Option Url) (parse_ip : Text → Option IpAddr) where
  unfoldable pub check_host_str : Option Text → Option UnsafeUrlReason
  unfolding bare_host check_host
  check_host_str none = some no_host
  check_host_str (some []) = some no_host
  check_host_str (some (c ∷ s)) = check_host (bare_host (c ∷ s)) (parse_ip (bare_host (c ∷ s)))

  unfoldable pub check_url : Option Url → Option UnsafeUrlReason
  unfolding check_host_str
  check_url none = some invalid_url
  check_url (some parsed) =
      if text_eq parsed.scheme (codes "https")
      then check_host_str parsed.host_str
      else some non_https

  unfoldable pub webhook_url_is_safe : Text → Option UnsafeUrlReason
  unfolding check_url
  webhook_url_is_safe input = check_url (parse_url input)
