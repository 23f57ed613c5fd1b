-- ===== src/Validators/Ranges.antt =====
-- The addresses that `ip_is_safe` refuses, as the ranges of the CIDR blocks that its comment names.
use defi_tx_indexer.Prelude.{
  ℕ, ◌+◌, ◌-◌, ◌<◌, inl, inr, sym, ◌∙◌, Bool-cases, ◌≤◌, ◌≡◌, ◌⊎◌, ap, ◌&&◌, Option, none, some,
  List, [], ◌∷◌, leb, if◌then◌else◌, arith,
}
use defi_tx_indexer.Validators.{
  UnsafeUrlReason, IpAddr, loopback_host, private_ip, link_local_ip, unspecified_ip, multicast_ip,
  broadcast_ip, unique_local_ip, ipv4_is_safe, ipv6_is_safe, ip_is_safe, check_mapped,
  to_ipv4_mapped, v4, v6,
}

-- A block: its first address, its last, and the reason for which it is refused.
abbrev Blocks : Type 0
Blocks = List (ℕ × ℕ × UnsafeUrlReason)

pub reason_of : Blocks → ℕ → Option UnsafeUrlReason
reason_of [] n = none
reason_of ((first, last, reason) ∷ blocks) n =
    if leb first n && leb n last then some reason else reason_of blocks n

-- 0.0.0.0, 10/8, 127/8, 169.254/16, 172.16/12, 192.168/16, 224/4, 255.255.255.255
abbrev pub blocks4 : Blocks
blocks4 =
    (0, 0, unspecified_ip)
    ∷ (167772160, 184549375, private_ip)
    ∷ (2130706432, 2147483647, loopback_host)
    ∷ (2851995648, 2852061183, link_local_ip)
    ∷ (2886729728, 2887778303, private_ip)
    ∷ (3232235520, 3232301055, private_ip)
    ∷ (3758096384, 4026531839, multicast_ip)
    ∷ (4294967295, 4294967295, broadcast_ip)
    ∷ []

-- The IPv4 rules are the eight blocks of addresses, each with its reason.
pub ipv4_is_safe-reason_of : (n : ℕ) → n < 4294967296 → ip_is_safe (v4 n) ≡ reason_of blocks4 n
unfolding ip_is_safe ipv4_is_safe reason_of
ipv4_is_safe-reason_of n h = ground arith

-- ::, ::1, fc00::/7, fe80::/10, ff00::/8
abbrev blocks6 : Blocks
blocks6 =
    (0, 0, unspecified_ip)
    ∷ (1, 1, loopback_host)
    ∷ (
      334965454937798799971759379190646833152, 337623910929368631717566993311207522303,
      unique_local_ip,
    )
    ∷ (
      338288524927261089654018896841347694592, 338620831926207318622244848606417780735,
      link_local_ip,
    )
    ∷ (
      338953138925153547590470800371487866880, 340282366920938463463374607431768211455,
      multicast_ip,
    )
    ∷ []

-- An IPv4 address in its IPv6 form, `::ffff:a.b.c.d`, is judged as the IPv4 address.
mapped_is_safe :
    (m : ℕ) → m < 4294967296 → ip_is_safe (v6 (281470681743360 + m)) ≡ ip_is_safe (v4 m)
unfolding ip_is_safe check_mapped
mapped_is_safe m h =
    let mapped : to_ipv4_mapped (281470681743360 + m) ≡ some m = ground arith in
    ap (λ o. check_mapped o (281470681743360 + m)) mapped

-- The rules of the other IPv6 addresses are the five blocks, each with its reason.
ipv6_is_safe-reason_of :
    (n : ℕ)
    → n < 340282366920938463463374607431768211456
    → (n < 281470681743360) ⊎ (281474976710656 ≤ n)
    → ip_is_safe (v6 n) ≡ reason_of blocks6 n
unfolding ip_is_safe check_mapped ipv6_is_safe reason_of
ipv6_is_safe-reason_of n h not_mapped = ground arith

-- The IPv4 address of an IPv6 form is judged by the IPv4 rules, every other one by the IPv6 rules.
abbrev reason_for : IpAddr → Option UnsafeUrlReason
reason_for (v4 n) = reason_of blocks4 n
reason_for (v6 n) =
    if leb 281470681743360 n && leb n 281474976710655
    then reason_of blocks4 (n - 281470681743360)
    else reason_of blocks6 n

-- 32 or 128 bits
abbrev pub IsAddress : IpAddr → Type 0
IsAddress (v4 n) = n < 4294967296
IsAddress (v6 n) = n < 340282366920938463463374607431768211456

-- An address is refused exactly for the block that it is in, with the reason of the block: the eight
-- blocks of IPv4, also for an IPv4 address in its IPv6 form `::ffff:a.b.c.d`, and the five of IPv6.
pub ip_is_safe-reason_for : (ip : IpAddr) → IsAddress ip → ip_is_safe ip ≡ reason_for ip
ip_is_safe-reason_for (v4 n) h = ipv4_is_safe-reason_of n h
ip_is_safe-reason_for (v6 n) h =
    elim (Bool-cases (leb 281470681743360 n && leb n 281474976710655)) [
      | inl e ↦
          let small : n - 281470681743360 < 4294967296 = ground arith in
          let same : 281470681743360 + (n - 281470681743360) ≡ n = ground arith in
          let mapped : ip_is_safe (v6 n) ≡ reason_of blocks4 (n - 281470681743360) =
            ap (λ k. ip_is_safe (v6 k)) (sym same)
            ∙ mapped_is_safe (n - 281470681743360) small
            ∙ ipv4_is_safe-reason_of (n - 281470681743360) small in
          rw e mapped
      | inr e ↦
          let other : (n < 281470681743360) ⊎ (281474976710656 ≤ n) = ground arith in
          rw e (ipv6_is_safe-reason_of n h other)
    ]
