-- ===== src/Wire/Version.antt =====
-- Wire version and negotiation: crates/mango-protocol/src/version.rs.
use mango_protocol.Common.{
  ◌≡◌, refl, ◌⊎◌, inl, inr, ◌≤◌, ◌↔◌, arith, ℕ, Option, none, some, ◌==◌, not, if◌then◌else◌, min,
}
use mango_protocol.Wire.Close.{protocol_mismatch}

pub record ProtocolVersion : Type 0 where
  pub major : ℕ
  pub minor : ℕ

-- The wire version this crate speaks.
abbrev pub protocol_version : ProtocolVersion
protocol_version = record { major = 1; minor = 1 }

pub data Negotiation : Type 0 where
  compatible : ℕ → Negotiation
  mismatch : ℕ → Negotiation

unfoldable pub effective_minor : Negotiation → Option ℕ
effective_minor (compatible m) = some m
effective_minor (mismatch c) = none

unfoldable pub negotiate : ProtocolVersion → ProtocolVersion → Negotiation
negotiate local remote =
    if not (local.major == remote.major)
    then mismatch protocol_mismatch
    else compatible (min local.minor remote.minor)

pub negotiation_cases :
    (n : Negotiation) → ((minor : ℕ) × (n ≡ compatible minor)) ⊎ ((code : ℕ) × (n ≡ mismatch code))
negotiation_cases (compatible minor) = inl (minor, refl)
negotiation_cases (mismatch code) = inr (code, refl)

pub negotiate_sym : (a b : ProtocolVersion) → negotiate a b ≡ negotiate b a
unfolding negotiate
negotiate_sym a b = ground arith

-- Two versions are compatible exactly when their majors are equal; the effective minor is the lower
-- of the two minors, whichever side asks, and a mismatch names the close code of a version mismatch.
pub negotiate_lem :
    (local remote : ProtocolVersion)
    → (negotiate local remote ≡ negotiate remote local)
      × ((m : ℕ)
          → (negotiate local remote ≡ compatible m) ↔ (
              (local.major ≡ remote.major)
              × (m ≤ local.minor)
              × (m ≤ remote.minor)
              × ((m ≡ local.minor) ⊎ (m ≡ remote.minor))))
      × ((c : ℕ) → negotiate local remote ≡ mismatch c → c ≡ protocol_mismatch)
unfolding negotiate
negotiate_lem local remote = (negotiate_sym local remote, λ m. ground arith, λ c h. ground arith)
