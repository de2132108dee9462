-- ===== src/Secrets/Crypto.antt =====
-- internal/secret/crypto.go, over crypto/aes, crypto/cipher, crypto/sha256 and crypto/rand as a
-- parameter. A []byte is a list of numbers.
use react_go_workflow.Prelude.{
  ℕ, ◌≡◌, Bool, true, Option, none, some, ◌++◌, Text, length, take, drop, ltb, if◌then◌else◌,
}

pub record CipherLibrary : Type 0 where
  pub sum256 : Text → Text
  -- aes.NewCipher takes keys of some lengths only.
  pub accepts_key : Text → Bool
  -- gcm.NonceSize, gcm.Seal and gcm.Open, without additional data.
  pub nonce_size : ℕ
  pub seal : (key nonce plaintext : Text) → Text
  pub open_sealed : (key nonce ciphertext : Text) → Option Text

-- What the source relies on.
pub record CipherLaws (lib : CipherLibrary) : Type 0 where
  -- SHA-256 gives 32 bytes, which is the length of a key of AES-256.
  pub accepts_sum : (raw : Text) → lib.accepts_key (lib.sum256 raw) ≡ true
  -- What was sealed is opened with the same key and nonce.
  pub opens :
      (key nonce plaintext : Text)
      → lib.accepts_key key ≡ true
      → length nonce ≡ lib.nonce_size
      → lib.open_sealed key nonce (lib.seal key nonce plaintext) ≡ some plaintext

pub data CryptoError : Type 0 where
  create_cipher generate_nonce ciphertext_too_short decrypt_failed : CryptoError

pub data Sealed : Type 0 where
  ok : Text → Sealed
  err : CryptoError → Sealed

module _ (lib : CipherLibrary) where
  -- DeriveKey
  unfoldable pub derive_key : Text → Text
  derive_key raw = lib.sum256 raw

  -- Encrypt; `random` is what io.ReadFull reads, none where it fails.
  unfoldable pub encrypt : (random : Option Text) → (plaintext key : Text) → Sealed
  encrypt random plaintext key =
      if lib.accepts_key key
      then elim random [
        | none ↦ err generate_nonce
        | some nonce ↦ ok (nonce ++ lib.seal key nonce plaintext)
      ]
      else err create_cipher

  abbrev opened : Option Text → Sealed
  opened none = err decrypt_failed
  opened (some plaintext) = ok plaintext

  -- Decrypt
  unfoldable pub decrypt : (ciphertext key : Text) → Sealed
  decrypt ciphertext key =
      if lib.accepts_key key
      then if ltb (length ciphertext) lib.nonce_size
        then err ciphertext_too_short
        else opened
            (lib.open_sealed key (take lib.nonce_size ciphertext) (drop lib.nonce_size ciphertext))
      else err create_cipher
