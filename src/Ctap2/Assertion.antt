-- ===== src/Ctap2/Assertion.antt =====
-- ctap2.rs: which credential an assertion uses, and what it takes to get one.
use vault_signer.Base.{
  ℕ, ◌+◌, ◌%◌, ◌^◌, Bytes, bytes_Eq, ◌≡◌, ◌≢◌, ◌⊎◌, inl, inr, refl, ap, Option, none, some, Bool,
  true, false, List, [], ◌∷◌, ◌++◌, any, filter, All, ◌==◌, Bool-cases,
}
use vault_signer.Base.Result.{Result, ok, err}
use vault_signer.External.{External}
use vault_signer.Ctap2.{
  CredentialCandidate, Ctap2Error, Ctap2Backend, AssertRequest, GetAssertionOutcome, Wire, Flags,
  no_credentials, operation_denied, rp_id_hash, first, consent, matching, prepare_assertion,
  assert_with, handle_get_assertion,
}

-- A credential that the request allows: listed, or discoverable where nothing is listed.
abbrev pub eligible : Option (List Bytes) → CredentialCandidate → Bool
eligible none c = c.discoverable
eligible (some allow_list) c = any (λ id. id == c.credential_id) allow_list

-- What is true of an assertion that was returned: it is by the first eligible credential of the relying
-- party, the user is present, and verified where the request asks for that, and the backend signed the authenticator data and the client's hash.
pub record Asserted {S : Type 0} (x : External) (wire : Wire) (backend : Ctap2Backend S)
    (request : AssertRequest) (user_present user_verified : Bool) (s s' : S)
    (outcome : GetAssertionOutcome) : Type 0 where
  pub chosen : CredentialCandidate
  pub before : List CredentialCandidate
  pub after : List CredentialCandidate
  pub auth_data : Bytes
  pub signature : Bytes
  pub candidates : backend.credentials_for_rp request.rp_id s ≡ before ++ chosen ∷ after
  pub earlier_ineligible : All (λ c. eligible request.allow_list c ≡ false) before
  pub chosen_eligible : eligible request.allow_list chosen ≡ true
  pub present : user_present ≡ true
  pub verified : (request.uv ≢ some true) ⊎ (user_verified ≡ true)
  pub written :
      wire.assert_auth_data
        (rp_id_hash x request.rp_id)
        (record { user_presence = user_present; user_verified = user_verified })
        ((chosen.sign_count + 1) % 2 ^ 32)
      ≡ some auth_data
  pub signed :
      backend.sign chosen.key_id (auth_data ++ request.client_data_hash) s ≡ (some signature, s')
  pub same_key : outcome.key_id ≡ chosen.key_id
  pub counted : outcome.new_sign_count ≡ (chosen.sign_count + 1) % 2 ^ 32

matching-filter :
    (allow_list : Option (List Bytes)) (cs : List CredentialCandidate)
    → matching allow_list cs ≡ filter (eligible allow_list) cs
matching-filter none cs = refl
matching-filter (some allow_list) cs = refl

-- What `consent` asks for.
pub consent-ok :
    (user_present user_verified : Bool) (uv : Option Bool) {u : Unit {0}}
    → consent user_present user_verified uv ≡ ok u
    → (user_present ≡ true) × ((uv ≢ some true) ⊎ (user_verified ≡ true))
consent-ok false user_verified uv h = cc
consent-ok true true uv h = (refl, inr refl)
consent-ok true false none h = (refl, inl (λ e. cc))
consent-ok true false (some false) h = (refl, inl (λ e. cc))
consent-ok true false (some true) h = cc

consent-err :
    (user_present user_verified : Bool) (uv : Option Bool)
    → (user_present ≡ false) ⊎ ((uv ≡ some true) × (user_verified ≡ false))
    → consent user_present user_verified uv ≡ err operation_denied
consent-err user_present user_verified uv (inl absent) = rw absent refl
consent-err false user_verified uv (inr (asked, unverified)) = refl
consent-err true user_verified uv (inr (asked, unverified)) = rw (asked, unverified) refl

first-filter-none :
    (p : CredentialCandidate → Bool) (cs : List CredentialCandidate)
    → first (filter p cs) ≡ none
    → All (λ d. p d ≡ false) cs
first-filter-none p [] h = tt
first-filter-none p (d ∷ cs) h = elim (Bool-cases (p d)) [
  | inl hit ↦ let bad : ◌≡◌ {A = Option CredentialCandidate} (some d) none = rw hit at h in cc
  | inr miss ↦ (miss, first-filter-none p cs (rw miss at h))
]

module _ {S : Type 0} (x : External) (wire : Wire) (backend : Ctap2Backend S)
    (request : AssertRequest) (user_present user_verified : Bool) (s : S) where
  abbrev flags : Flags
  flags = record { user_presence = user_present; user_verified = user_verified }

  abbrev prepared : Result Ctap2Error (CredentialCandidate × ℕ × Bytes)
  prepared =
      prepare_assertion x wire backend request user_present user_verified
        (backend.credentials_for_rp request.rp_id s)

  record Prepared (chosen : CredentialCandidate) (count : ℕ) (auth_data : Bytes) : Type 0 where
    picked :
        first (matching request.allow_list (backend.credentials_for_rp request.rp_id s))
        ≡ some chosen
    present : user_present ≡ true
    verified : (request.uv ≢ some true) ⊎ (user_verified ≡ true)
    written : wire.assert_auth_data (rp_id_hash x request.rp_id) flags count ≡ some auth_data
    counted : count ≡ (chosen.sign_count + 1) % 2 ^ 32

module _ {S : Type 0} (x : External) (wire : Wire) (backend : Ctap2Backend S)
    (request : AssertRequest) (user_present user_verified : Bool) (s : S) where
  -- The error for a request without consent.
  abbrev pub refusal : Option CredentialCandidate → Ctap2Error
  refusal none = no_credentials
  refusal (some c) = operation_denied

  prepare_assertion-refused :
      (o : Option CredentialCandidate)
      → first (matching request.allow_list (backend.credentials_for_rp request.rp_id s)) ≡ o
      → consent user_present user_verified request.uv ≡ err operation_denied
      → prepare_assertion x wire backend request user_present user_verified
          (backend.credentials_for_rp request.rp_id s)
        ≡ err (refusal o)
  unfolding prepare_assertion
  prepare_assertion-refused none found h = rw found refl
  prepare_assertion-refused (some c) found h = rw (found, h) refl

  -- No credential of the relying party's is one that the request allows.
  abbrev pub NothingEligible : Type 0
  NothingEligible =
      All (λ c. eligible request.allow_list c ≡ false) (backend.credentials_for_rp request.rp_id s)

  refused-cases :
      (o : Option CredentialCandidate)
      → first (matching request.allow_list (backend.credentials_for_rp request.rp_id s)) ≡ o
      → (NothingEligible × (refusal o ≡ no_credentials)) ⊎ (refusal o ≡ operation_denied)
  refused-cases none found = inl (
    first-filter-none (eligible request.allow_list) (backend.credentials_for_rp request.rp_id s) (
        rw (matching-filter request.allow_list (backend.credentials_for_rp request.rp_id s)) at
          found),
    refl,
  )
  refused-cases (some c) found = inr refl

  -- For a user who is absent, or unverified where the request asks for verification, a request for an
  -- assertion ends in `operation_denied`, or in `no_credentials` where the relying party has no eligible
  -- credential, and leaves the backend's state as it was: no signature is asked for.
  pub handle_get_assertion_refused :
      (user_present ≡ false) ⊎ ((request.uv ≡ some true) × (user_verified ≡ false))
      → (e : Ctap2Error) × (handle_get_assertion x wire backend request user_present user_verified s
          ≡ (err e, s))
        × ((NothingEligible × (e ≡ no_credentials)) ⊎ (e ≡ operation_denied))
  unfolding handle_get_assertion
  handle_get_assertion_refused h =
      let o = first (matching request.allow_list (backend.credentials_for_rp request.rp_id s)) in
      let denied = consent-err user_present user_verified request.uv h in
      (
        refusal o,
        ap (λ r. assert_with x wire backend request r s) (prepare_assertion-refused o refl denied),
        refused-cases o refl,
      )
