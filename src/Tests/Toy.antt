-- ===== src/Tests/Toy.antt =====
-- Small functions for the crates that `External.antt` leaves open, and data to run the code on.
use vault_signer.Base.{
  ℕ, zero, suc, Bytes, bytes_Eq, nat_eq, ◌≡◌, ◌≢◌, ◌⊎◌, inl, inr, refl, Option, none, some, List,
  [], ◌∷◌, ◌++◌, take, arith, if◌then◌else◌,
}
use vault_signer.External.{External, Uuid, Codec, UuidLaws, AeadLaws}
use vault_signer.Manifest.{ed25519, custom_signing, KeyEntry, Manifest, manifest_version}
use vault_signer.Kdf.{KdfParams}

abbrev toy_parse : Bytes → Option Uuid
toy_parse [] = none
toy_parse (u ∷ []) = some u
toy_parse (u ∷ v ∷ rest) = none

abbrev pub zeros : ℕ → Bytes
zeros zero = []
zeros (suc n) = 0 ∷ zeros n

abbrev pub hex : Bytes → Bytes
hex [] = []
hex (b ∷ bs) = b'0' ∷ b'0' ∷ hex bs

-- A list with its end marked, in front of another one.
unfoldable pub frame : Bytes → Bytes → Bytes
frame [] rest = 0 ∷ rest
frame (b ∷ bs) rest = 1 ∷ b ∷ frame bs rest

unfoldable pub unframe : Bytes → Bytes → Option Bytes
unframe [] (zero ∷ rest) = some rest
unframe (b ∷ bs) (suc zero ∷ c ∷ rest) = let o = unframe bs rest in if nat_eq b c then o else none
unframe _ _ = none

abbrev and_unframe : Bytes → Option Bytes → Option Bytes
and_unframe a none = none
and_unframe a (some rest) = unframe a rest

unframe-frame : (bs rest : Bytes) → unframe bs (frame bs rest) ≡ some rest
unfolding frame unframe
unframe-frame [] rest = refl
unframe-frame (b ∷ bs) rest = ground (arith, unframe-frame bs rest)

unframe-frame_or : (bs cs rest : Bytes) → (unframe cs (frame bs rest) ≡ none) ⊎ (bs ≡ cs)
unfolding frame unframe
unframe-frame_or [] [] rest = inr refl
unframe-frame_or [] (c ∷ cs) rest = inl refl
unframe-frame_or (b ∷ bs) [] rest = inl refl
unframe-frame_or (b ∷ bs) (c ∷ cs) rest = ground (arith, unframe-frame_or bs cs rest)

unfoldable pub toy_encrypt : Bytes → Bytes → Bytes → Bytes → Option Bytes
unfolding frame
toy_encrypt k n m a = some (frame k (frame a m))

unfoldable pub toy_decrypt : Bytes → Bytes → Bytes → Bytes → Option Bytes
unfolding unframe
toy_decrypt k n c a = and_unframe a (unframe k c)

abbrev pub toy : External
toy = record {
  uuid_to_string = λ u. u ∷ [];
  uuid_parse = toy_parse;
  uuid_bytes = λ u. u ∷ [];
  sha256 = λ m. take 32 (m ++ zeros 32);
  argon2 = λ m t p salt passphrase. some passphrase;
  aead_encrypt = toy_encrypt;
  aead_decrypt = toy_decrypt;
  hex_encode = hex;
  hex_decode = λ b. some b;
  base64_encode = λ b. b;
  base64_decode = λ b. some b;
  ed25519_public = λ seed. seed;
  ed25519_sign = λ key message. key ++ message;
  p256_public = λ scalar. scalar;
  p256_sign = λ key message. some (key ++ message);
}

pub toy-UuidLaws : UuidLaws toy
toy-UuidLaws = record { parse_to_string = λ u. refl; bytes_injective = λ u v e. cc }

sealed_eq : (k n m a : Bytes) {c : Bytes} → toy_encrypt k n m a ≡ some c → c ≡ frame k (frame a m)
unfolding toy_encrypt
sealed_eq k n m a e = cc

toy_opens :
    (k n m a : Bytes) {c : Bytes} → toy_encrypt k n m a ≡ some c → toy_decrypt k n c a ≡ some m
unfolding toy_decrypt
toy_opens k n m a e = rw (sealed_eq k n m a e, unframe-frame k (frame a m)) (unframe-frame a m)

toy_binds_key :
    (k k' n m a a' : Bytes) {c : Bytes}
    → toy_encrypt k n m a ≡ some c
    → k ≢ k'
    → toy_decrypt k' n c a' ≡ none
unfolding toy_decrypt
toy_binds_key k k' n m a a' e differ = elim (unframe-frame_or k k' (frame a m)) [
  | inl closed ↦ rw (sealed_eq k n m a e, closed) refl
  | inr same ↦ absurd (differ same)
]

toy_binds_aad :
    (k k' n m a a' : Bytes) {c : Bytes}
    → toy_encrypt k n m a ≡ some c
    → a ≢ a'
    → toy_decrypt k' n c a' ≡ none
unfolding toy_decrypt
toy_binds_aad k k' n m a a' {c} e differ =
    outer (unframe-frame_or k k' (frame a m)) (unframe-frame_or a a' m)
  where
    outer :
        (unframe k' (frame k (frame a m)) ≡ none) ⊎ (k ≡ k')
        → (unframe a' (frame a m) ≡ none) ⊎ (a ≡ a')
        → toy_decrypt k' n c a' ≡ none
    outer (inl closed) _ = rw (sealed_eq k n m a e, closed) refl
    outer (inr same) (inl closed) =
        rw (sealed_eq k n m a e, ← same, unframe-frame k (frame a m)) closed
    outer (inr same) (inr same') = absurd (differ same')

pub toy-AeadLaws : AeadLaws toy
toy-AeadLaws = record { opens = toy_opens; binds_aad = toy_binds_aad; binds_key = toy_binds_key }

abbrev pub digest : Bytes
digest = hex (zeros 32)

-- A signing key with its id and label.
abbrev pub toy_key : Uuid → Bytes → KeyEntry
toy_key key_id label = record {
  key_id = key_id;
  label = label;
  description = [];
  resource = [];
  key_type = ed25519;
  purpose = custom_signing;
  fido2 = none;
  created_at = 0;
  last_used_at = none;
  tags = [];
  blob_file = [];
  blob_sha256 = digest;
  public_key_hex = [];
}

abbrev pub toy_manifest : List KeyEntry → Manifest
toy_manifest keys = record {
  manifest_version = manifest_version;
  vault_id = 0;
  created_at = 0;
  keys = keys;
}

-- One written form, read back as one value.
abbrev pub constant_codec : {A : Type 0} → A → Codec A
constant_codec a = record { encode = λ _. some (9 ∷ []); decode = λ _. some a }

abbrev pub toy_params : KdfParams
toy_params = record { memory_kib = 65_536; iterations = 3; parallelism = 1; salt = [] }
