-- ===== src/Tests/Credentials.antt =====
-- The theorems on CTAP2 requests, applied to one credential of one relying party.
use vault_signer.Base.{
  ℕ, suc, bytes_Eq, nat_Eq, ◌≡◌, ◌⊎◌, inr, refl, some, none, true, false, [], ◌∷◌, ◌++◌,
}
use vault_signer.Base.Result.{ok, err}
use vault_signer.Manifest.{ed25519}
use vault_signer.Keys.{generate}
use vault_signer.Ctap2.{
  CredentialCandidate, Ctap2Backend, Ctap2Error, AssertRequest, MakeRequest, GetAssertionOutcome,
  MakeCredentialOutcome, Wire, no_credentials, operation_denied, ed_dsa, handle_get_assertion,
  success_response_bytes, handle_make_credential, cose_key_bytes,
}
use vault_signer.Ctap2.Assertion.{NothingEligible, handle_get_assertion_refused}
use vault_signer.Ctap2.Creation.{Created, handle_make_credential_sound}
use vault_signer.Tests.Toy.{toy}

abbrev credential : CredentialCandidate
credential = record {
  key_id = 1;
  credential_id = 6 ∷ [];
  user_handle = 7 ∷ [];
  discoverable = true;
  sign_count = 41;
}

-- The state counts the signatures.
abbrev signing : Ctap2Backend ℕ
signing = record {
  credentials_for_rp = λ rp_id s. credential ∷ [];
  sign = λ key_id message s. (some (5 ∷ []), suc s);
}

abbrev pub plain_wire : Wire
plain_wire = record {
  cose_ed25519 = λ public_key. some public_key;
  cose_p256 = λ x y. some (x ++ y);
  make_auth_data = λ hash flags aaguid credential_id cose_key. some (credential_id ++ cose_key);
  assert_auth_data = λ hash flags count. some (count ∷ []);
  make_response = λ auth_data. some auth_data;
  assert_response = λ r. some (r.auth_data ++ r.signature);
}

abbrev pub assert_it : AssertRequest
assert_it = record {
  rp_id = 3 ∷ [];
  client_data_hash = 4 ∷ [];
  allow_list = some ((6 ∷ []) ∷ []);
  uv = some true;
}

abbrev make_it : MakeRequest
make_it = record {
  rp_id = 3 ∷ [];
  user_id = 7 ∷ [];
  exclude_list = some ((9 ∷ []) ∷ []);
  pub_key_cred_params = ed_dsa ∷ [];
  uv = none;
  rk = some true;
}

abbrev assertion : GetAssertionOutcome
assertion = record { response_cbor = 0 ∷ 42 ∷ 5 ∷ []; key_id = 1; new_sign_count = 42 }

handle_get_assertion_refused_example :
    (e : Ctap2Error) × (handle_get_assertion toy plain_wire signing assert_it true false 0
      ≡ (err e, 0))
    × ((NothingEligible toy plain_wire signing assert_it true false 0 × (e ≡ no_credentials))
        ⊎ (e ≡ operation_denied))
handle_get_assertion_refused_example =
    handle_get_assertion_refused toy plain_wire signing assert_it true false 0 (inr (refl, refl))

abbrev creation : MakeCredentialOutcome
creation = record {
  response_cbor = 0 ∷ 12 ∷ 8 ∷ [];
  generated_key = record { key_type = ed25519; private_key = 8 ∷ []; public_key = 8 ∷ [] };
  credential_id = 12 ∷ [];
  rp_id = 3 ∷ [];
  user_handle = 7 ∷ [];
  discoverable = true;
}

made :
    handle_make_credential toy plain_wire signing (some (8 ∷ [])) [] 12 make_it true false 0
    ≡ ok creation
unfolding handle_make_credential generate cose_key_bytes success_response_bytes
made = refl

handle_make_credential_sound_example : Created toy signing 12 make_it true false 0 creation
handle_make_credential_sound_example =
    handle_make_credential_sound toy plain_wire signing (some (8 ∷ [])) [] 12 make_it true false 0
      creation made
