-- ===== src/Ctap2/Creation.antt =====
-- ctap2.rs: what it takes to create a credential.
use vault_signer.Ctap2.Assertion.{consent-ok}
use vault_signer.Base.{
  Bytes, bytes_Eq, ◌≡◌, ap, sym, ◌∙◌, Option, none, some, Bool, true, false, not_iff, List, [], ◌∷◌,
  any, All, ◌≢◌, ◌⊎◌, inl, inr, refl, Bool-cases, ◌==◌, ==_refl,
}
use vault_signer.Base.Result.{ok, ok_or, ok_or-eq-ok, ensure->>_iff, map_err, >>=-eq-ok}
use vault_signer.External.{External, Uuid}
use vault_signer.Manifest.{KeyType, ed25519, ecdsa_p256}
use vault_signer.Keys.{GeneratedKeyPair, generate}
use vault_signer.Ctap2.{
  Ctap2Error, Ctap2Backend, MakeRequest, MakeCredentialOutcome, Wire, Alg, es256, ed_dsa, other_alg,
  CredentialCandidate, credential_excluded, unsupported_algorithm, other, key_type_for_alg,
  unwrap_or_false, first, excluded, consent, handle_make_credential, cose_key_bytes,
  success_response_bytes, rp_id_hash, aaguid,
}

-- No credential has an id on the exclude list, if there is one.
abbrev pub NoneListed : List CredentialCandidate → Option (List Bytes) → Type 0
NoneListed cs none = Unit
NoneListed cs (some ids) = All (λ id. All (λ c. c.credential_id ≢ id) cs) ids

-- What is true of a credential that was created.
pub record Created {S : Type 0} (x : External) (backend : Ctap2Backend S) (credential_uuid : Uuid)
    (request : MakeRequest) (user_present user_verified : Bool) (s : S)
    (outcome : MakeCredentialOutcome) : Type 0 where
  pub alg : Alg
  pub not_excluded : NoneListed (backend.credentials_for_rp request.rp_id s) request.exclude_list
  pub present : user_present ≡ true
  pub verified : (request.uv ≢ some true) ⊎ (user_verified ≡ true)
  pub first_alg : first request.pub_key_cred_params ≡ some alg
  pub key_type :
      ((alg ≡ es256) × (outcome.generated_key.key_type ≡ ecdsa_p256))
      ⊎ ((alg ≡ ed_dsa) × (outcome.generated_key.key_type ≡ ed25519))
  pub credential_id : outcome.credential_id ≡ x.uuid_bytes credential_uuid
  pub rp_id : outcome.rp_id ≡ request.rp_id
  pub user_handle : outcome.user_handle ≡ request.user_id
  pub discoverable : outcome.discoverable ≡ unwrap_or_false request.rk

any-none :
    (id : Bytes) (cs : List CredentialCandidate)
    → any (λ c. c.credential_id == id) cs ≡ false
    → All (λ c. c.credential_id ≢ id) cs
any-none id [] h = tt
any-none id (c ∷ cs) h = elim (Bool-cases (c.credential_id == id)) [
  | inl same ↦ let bad : true ≡ false = rw same at h in cc
  | inr differs ↦ (
    λ e. let bad : true ≡ false = sym (ap (λ i. i == id) e ∙ ==_refl id) ∙ differs in cc,
    any-none id cs (rw differs at h),
  )
]

excluded-ids :
    (cs : List CredentialCandidate) (ids : List Bytes)
    → any (λ id. any (λ c. c.credential_id == id) cs) ids ≡ false
    → All (λ id. All (λ c. c.credential_id ≢ id) cs) ids
excluded-ids cs [] h = tt
excluded-ids cs (id ∷ ids) h = elim (Bool-cases (any (λ c. c.credential_id == id) cs)) [
  | inl listed ↦ let bad : true ≡ false = rw listed at h in cc
  | inr free ↦ (any-none id cs free, excluded-ids cs ids (rw free at h))
]

excluded-none :
    (cs : List CredentialCandidate) (exclude_list : Option (List Bytes))
    → excluded cs exclude_list ≡ false
    → NoneListed cs exclude_list
excluded-none cs none h = tt
excluded-none cs (some ids) h = excluded-ids cs ids h

key_type_for_alg-cases :
    (alg : Alg) {key_type : KeyType}
    → key_type_for_alg alg ≡ some key_type
    → ((alg ≡ es256) × (key_type ≡ ecdsa_p256)) ⊎ ((alg ≡ ed_dsa) × (key_type ≡ ed25519))
key_type_for_alg-cases es256 h = inl (refl, cc)
key_type_for_alg-cases ed_dsa h = inr (refl, cc)
key_type_for_alg-cases (other_alg n) h = cc

generate-key_type :
    (x : External) (seed_draw : Option Bytes) (scalar : Bytes) (key_type : KeyType)
    {g : GeneratedKeyPair}
    → map_err {F = Ctap2Error} (λ e. other) (generate x seed_draw scalar key_type) ≡ ok g
    → g.key_type ≡ key_type
unfolding generate
generate-key_type x none scalar ed25519 h = cc
generate-key_type x (some seed) scalar ed25519 {g} h =
    let e : record { key_type = ed25519; private_key = seed; public_key = x.ed25519_public seed }
        ≡ g =
      cc h in
    ap (λ k. k.key_type) (sym e)
generate-key_type x seed_draw scalar ecdsa_p256 {g} h =
    let e : record {
      key_type = ecdsa_p256;
      private_key = scalar;
      public_key = x.p256_public scalar;
    }
        ≡ g =
      cc h in
    ap (λ k. k.key_type) (sym e)

-- A credential is created only if none of the relying party's has an id on the exclude list, the user
-- is present, and verified where the request asks for that; the request's first algorithm is ES256 or
-- EdDSA and the key is of its type, P-256 or Ed25519; its id is a new UUID, and it is discoverable as the request says.
pub handle_make_credential_sound :
    {S : Type 0} (x : External) (wire : Wire) (backend : Ctap2Backend S) (seed_draw : Option Bytes)
    (scalar : Bytes) (credential_uuid : Uuid) (request : MakeRequest)
    (user_present user_verified : Bool) (s : S) (outcome : MakeCredentialOutcome)
    → handle_make_credential x wire backend seed_draw scalar credential_uuid request user_present
        user_verified s
      ≡ ok outcome
    → Created x backend credential_uuid request user_present user_verified s outcome
unfolding handle_make_credential
handle_make_credential_sound x wire backend seed_draw scalar credential_uuid request user_present
      user_verified s outcome h =
    let (free, h1) = (ensure->>_iff _ credential_excluded _ outcome).0 h in
    let (u, consented, h2) = >>=-eq-ok (consent user_present user_verified request.uv) _ h1 in
    let (alg, picked, h3) = >>=-eq-ok _ _ h2 in
    let (key_type, supported, h4) = >>=-eq-ok _ _ h3 in
    let (generated, drawn, h5) = >>=-eq-ok _ _ h4 in
    let (cose_key, encoded, h6) =
      >>=-eq-ok (cose_key_bytes wire key_type generated.public_key) _ h5 in
    let (auth_data, written, h7) =
      >>=-eq-ok
        (ok_or
          (wire.make_auth_data (rp_id_hash x request.rp_id)
            (record { user_presence = user_present; user_verified = user_verified }) aaguid
            (x.uuid_bytes credential_uuid) cose_key)
          other)
        _ h6 in
    let (response, made, h8) =
      >>=-eq-ok (success_response_bytes (wire.make_response auth_data)) _ h7 in
    let e : record {
      response_cbor = response;
      generated_key = generated;
      credential_id = x.uuid_bytes credential_uuid;
      rp_id = request.rp_id;
      user_handle = request.user_id;
      discoverable = unwrap_or_false request.rk;
    }
        ≡ outcome =
      cc h8 in
    record {
      alg = alg;
      not_excluded =
          excluded-none (backend.credentials_for_rp request.rp_id s) request.exclude_list
            ((not_iff _).0 free);
      present = (consent-ok user_present user_verified request.uv consented).0;
      verified = (consent-ok user_present user_verified request.uv consented).1;
      first_alg = ok_or-eq-ok _ unsupported_algorithm picked;
      key_type = key_type_for_alg-cases alg (
          ok_or-eq-ok _ unsupported_algorithm supported
          ∙ ap some (
              sym (generate-key_type x seed_draw scalar key_type drawn)
              ∙ ap (λ o. o.generated_key.key_type) e));
      credential_id = ap (λ o. o.credential_id) (sym e);
      rp_id = ap (λ o. o.rp_id) (sym e);
      user_handle = ap (λ o. o.user_handle) (sym e);
      discoverable = ap (λ o. o.discoverable) (sym e);
    }
