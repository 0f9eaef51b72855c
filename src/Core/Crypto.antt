-- ===== src/Core/Crypto.antt =====
-- The functions of @noble/ed25519 and @noble/hashes that packages/core calls. `none` is a thrown
-- error. `IsLawful` is what their documentation promises and the signing code relies on.
use quittance.Prelude.{◌<◌, ◌≡◌, String, Bool, true, Option, some, All}
use quittance.Core.Utf8.{Bytes}

abbrev pub AreBytes : Bytes → Type 0
AreBytes = All (λ b. b < 256)

pub record Crypto : Type 0 where
  pub bytes_to_hex : Bytes → String
  pub hex_to_bytes : String → Option Bytes
  pub sha256 : Bytes → Bytes
  pub sign : Bytes → Bytes → Option Bytes
  pub get_public_key : Bytes → Option Bytes
  pub verify : Bytes → Bytes → Bytes → Option Bool

pub record IsLawful (K : Crypto) : Type 0 where
  pub hex_to_bytes-bytes_to_hex :
      (b : Bytes) → AreBytes b → K.hex_to_bytes (K.bytes_to_hex b) ≡ some b
  pub sign-AreBytes : (m k s : Bytes) → K.sign m k ≡ some s → AreBytes s
  pub get_public_key-AreBytes : (k p : Bytes) → K.get_public_key k ≡ some p → AreBytes p
  pub verify-sign :
      (m k s p : Bytes)
      → K.sign m k ≡ some s
      → K.get_public_key k ≡ some p
      → K.verify s m p ≡ some true
