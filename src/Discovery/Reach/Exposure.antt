-- ===== src/Discovery/Reach/Exposure.antt =====
-- How severe a listening address is.
use ianua_broker.Prelude.{
  num_Ord, text_Ord, pair_Ord, list_Ord, true, false, none, some, text_Eq, num_Eq, pair_Eq,
  option_Eq, list_Eq, String, ◌≡◌, ◌↔◌, ◌||◌, arith, Option-cases, not, ◌&&◌, Bool, inl, inr,
}
use ianua_broker.Discovery.Reach.{
  classify_exposure, classify_reachability, tier_severity, classify_address, IpAddress, is_loopback,
  is_wildcard,
}
use ianua_broker.Domain.{critical, high}

-- A parsed address of the local network: it is no loopback and no wildcard, neither by its text nor
-- by its value, and private or link-local.
abbrev pub is_lan_only : IpAddress → String → Bool
is_lan_only ip_address ip =
    not (is_loopback ip_address ip)
    && (not (is_wildcard ip) && elim (ip_address ip) [
      | none ↦ false
      | some addr ↦ not addr.is_unspecified && (addr.is_private || addr.is_link_local)
    ])

-- An address is no exposure exactly when it is a loopback name or address; a high one exactly when
-- it is a parsed private or link-local address that is neither loopback, nor a wildcard text, nor
-- unspecified; and a critical one exactly when it is neither of these, as the wildcards, public
-- addresses and texts that are no address are.
pub classify_exposure_exact :
    (ip_address : IpAddress) (ip : String)
    → ((classify_exposure ip_address ip ≡ none) ↔ (is_loopback ip_address ip ≡ true))
      × ((classify_exposure ip_address ip ≡ some high) ↔ (is_lan_only ip_address ip ≡ true))
      × ((classify_exposure ip_address ip ≡ some critical)
          ↔ (is_loopback ip_address ip || is_lan_only ip_address ip ≡ false))
unfolding classify_exposure classify_reachability tier_severity classify_address
classify_exposure_exact ip_address ip = elim (Option-cases (ip_address ip)) [
  | inl e ↦ rw e (
      (
        (λ h. ground arith, λ h. ground arith),
        (λ h. ground arith, λ h. ground arith),
        (λ h. ground arith, λ h. ground arith),
      ))
  | inr (addr, e) ↦ rw e (
      (
        (λ h. ground arith, λ h. ground arith),
        (λ h. ground arith, λ h. ground arith),
        (λ h. ground arith, λ h. ground arith),
      ))
]
