-- ===== src/Vault/Counting.antt =====
-- vaultcore/src/vault.rs: the counter of a FIDO2 key after an assertion.
use vault_signer.Base.{
  ℕ, Bytes, bytes_Eq, nat_Eq, ◌≡◌, ◌⊎◌, inl, inr, refl, ap, sym, ◌∙◌, Option, none, some, Bool, [],
  ◌∷◌, Bool-cases, ◌==◌, ==_refl,
}
use vault_signer.Base.Map.{Map, get, get-insert, NodupKeys}
use vault_signer.Base.Result.{Result, ok, err}
use vault_signer.External.{Uuid}
use vault_signer.Manifest.{KeyEntry, Fido2Info}
use vault_signer.Ctap2.{
  Ctap2Error, AssertRequest, GetAssertionOutcome, handle_get_assertion, prepare_assertion,
}
use vault_signer.Vault.{
  Vault, Env, Draws, UnlockedCompartment, FacadeError, find_entry, and_then, persist_locked,
  set_manifest,
}
use vault_signer.Vault.Runs.{Returns, bind-Returns, gets-Returns, unlocked-Returns, modify-Returns}
use vault_signer.Vault.KeyStore.{update_entry}
use vault_signer.Vault.Signing.{
  Prompter, find_key_anywhere, found_in, find_compartment_for_key, ctap2_backend,
  credentials_for_rp,
}
use vault_signer.Vault.Fido2.{
  Ctap2Wire, Ctap2Request, make_credential, get_assertion, other_request, assert_request, counted,
  note_use, noted, after_assertion, handle_fido2_get_assertion,
}
use vault_signer.Vault.Opens.{persist_locked-Returns, find_entry-update_entry}
use vault_signer.Vault.Sound.{WellFormed}
use vault_signer.Vault.Sound.Fido.{kept-assert_with}

-- The compartment that `find_key_anywhere` names holds the entry that it returns.
found_anywhere :
    (key_id : Uuid) (m : Map Uuid UnlockedCompartment) {entry : KeyEntry} {id : Uuid}
    → NodupKeys m
    → find_key_anywhere key_id m ≡ some (entry, id)
    → (u : UnlockedCompartment) × (get id m ≡ some u)
      × (find_entry key_id u.manifest.keys ≡ some entry)
unfolding find_key_anywhere get
found_anywhere key_id [] nodup h = cc
found_anywhere key_id ((j, u) ∷ m) {entry = entry} {id = id} nodup h =
    here (find_entry key_id u.manifest.keys) refl h (found_anywhere key_id m nodup.1)
  where
    Held : Map Uuid UnlockedCompartment → Type 0
    Held m =
        (w : UnlockedCompartment) × (get id m ≡ some w)
        × (find_entry key_id w.manifest.keys ≡ some entry)

    here :
        (o : Option KeyEntry)
        → find_entry key_id u.manifest.keys ≡ o
        → found_in j o (find_key_anywhere key_id m) ≡ some (entry, id)
        → (find_key_anywhere key_id m ≡ some (entry, id) → Held m)
        → Held ((j, u) ∷ m)
    here (some e) e_found e_here ih =
        let same_entry : e ≡ entry = cc in
        let same_id : j ≡ id = cc in
        (u, rw (same_id, ==_refl id) refl, e_found ∙ ap some same_entry)
    here none absent later ih =
        let (w, held, found) = ih later in
        (
          w,
          elim (Bool-cases (j == id)) [
            | inl same ↦
                let e : j ≡ id = (nat_Eq.beq_iff j id).0 same in
                let gone : get id m ≡ none = rw e at nodup.0 in absurd (cc (gone, held))
            | inr other ↦ rw (other, ◌==◌) held
          ],
          found,
        )

-- The FIDO2 block after a use: with the new counter, and as it was in all else; none where none was.
pub data Recounted (sign_count : ℕ) : Option Fido2Info → Option Fido2Info → Type 0 where
  no_block : Recounted sign_count none none
  new_count :
      (f f' : Fido2Info)
      → f'.sign_count ≡ sign_count
      → f'.rp_id ≡ f.rp_id
      → f'.credential_id_b64 ≡ f.credential_id_b64
      → f'.user_handle_b64 ≡ f.user_handle_b64
      → f'.discoverable ≡ f.discoverable
      → Recounted sign_count (some f) (some f')

-- The entry after the use that `outcome` reports, at the given time.
pub record UsedOnce (d : Draws) (outcome : GetAssertionOutcome) (k k' : KeyEntry) : Type 0 where
  pub block : Recounted outcome.new_sign_count k.fido2 k'.fido2
  pub used_at : k'.last_used_at ≡ some d.now_utc
  pub rest : record k' { fido2 = k.fido2; last_used_at = k.last_used_at } ≡ k

counted-Recounted : (n : ℕ) (o : Option Fido2Info) → Recounted n o (counted n o)
counted-Recounted n none = no_block
counted-Recounted n (some f) = new_count f (record f { sign_count = n }) refl refl refl refl refl

abbrev used_entry : Draws → GetAssertionOutcome → KeyEntry → KeyEntry
used_entry d outcome k = record k {
  fido2 = counted outcome.new_sign_count k.fido2;
  last_used_at = some d.now_utc;
}

used_entry-UsedOnce :
    (d : Draws) (outcome : GetAssertionOutcome) (k : KeyEntry)
    → UsedOnce d outcome k (used_entry d outcome k)
used_entry-UsedOnce d outcome k = record {
  block = counted-Recounted outcome.new_sign_count k.fido2;
  used_at = refl;
  rest = refl;
}

-- What `note_use` did to the vault.
abbrev pub Noted : Draws → GetAssertionOutcome → Vault → Vault → Type 0
Noted d outcome t s' =
    ((find_key_anywhere outcome.key_id t.unlocked ≡ none) × (s' ≡ t))
    ⊎ ((entry : KeyEntry) × (entry' : KeyEntry) × (id : Uuid) × (u : UnlockedCompartment)
        × (find_key_anywhere outcome.key_id t.unlocked ≡ some (entry, id))
        × (get id s'.unlocked ≡ some u)
        × (find_entry outcome.key_id u.manifest.keys ≡ some entry')
        × UsedOnce d outcome entry entry')

module _ (env : Env) (d : Draws) (outcome : GetAssertionOutcome) where
  note_use-Noted :
      (t : Vault) (o : Option (KeyEntry × Uuid)) {r : Unit {0}} {s' : Vault}
      → NodupKeys t.unlocked
      → find_key_anywhere outcome.key_id t.unlocked ≡ o
      → Returns (note_use env d outcome (and_then o (λ found. some found.1))) t r s'
      → Noted d outcome t s'
  note_use-Noted t none nodup found h = inl (found, sym (ap (λ p. p.1) h))
  note_use-Noted t (some (entry, id)) {s' = s'} nodup found h =
      let (u, held, listed) = found_anywhere outcome.key_id t.unlocked nodup found in
      let keys = update_entry outcome.key_id (used_entry d outcome) u.manifest.keys in
      let r1 = unlocked-Returns id _ t held h in
      let r2 =
        modify-Returns (set_manifest id u (record (u.manifest) { keys = keys }))
          (persist_locked env d (d.nonce 0) id) t r1 in
      let rest = persist_locked-Returns env d (d.nonce 0) id _ r2 in
      inr (
        entry,
        used_entry d outcome entry,
        id,
        record u { manifest = record (u.manifest) { keys = keys } },
        found,
        ap (λ b. get id b.0) rest ∙ rw (get-insert, ==_refl id) refl,
        find_entry-update_entry outcome.key_id (used_entry d outcome) u.manifest.keys (λ k. refl)
            listed,
        used_entry-UsedOnce d outcome entry,
      )

  noted-Noted :
      (t : Vault) {out : Bytes} {s' : Vault}
      → NodupKeys t.unlocked
      → Returns (noted env d outcome) t out s'
      → (out ≡ outcome.response_cbor) × Noted d outcome t s'
  noted-Noted t {s' = s'} nodup h =
      let r1 = gets-Returns (λ s. s) _ t h in
      let (a, t', ran, fin) =
        bind-Returns (note_use env d outcome (find_compartment_for_key outcome.key_id t.unlocked)) _
          t r1 in
      let same : t' ≡ s' = ap (λ p. p.1) fin in
      (
        cc (ap (λ p. p.0) fin),
        rw (← same) (note_use-Noted t (find_key_anywhere outcome.key_id t.unlocked) nodup refl ran),
      )

assert_request-Returns :
    (o : Option Ctap2Request) (s : Vault) {request : AssertRequest} {t : Vault}
    → Returns (assert_request o) s request t
    → (o ≡ some (get_assertion request)) × (t ≡ s)
assert_request-Returns none s h = let bad = ap (λ p. p.0) h in cc
assert_request-Returns (some (make_credential r)) s h = let bad = ap (λ p. p.0) h in cc
assert_request-Returns (some (get_assertion r)) s {request = request} h =
    let same : ◌≡◌ {A = Result FacadeError AssertRequest} (ok r) (ok request) = ap (λ p. p.0) h in
    let request_eq : r ≡ request = cc in
    (ap (λ r. some (get_assertion r)) request_eq, sym (ap (λ p. p.1) h))
assert_request-Returns (some other_request) s h = let bad = ap (λ p. p.0) h in cc

after_assertion-Noted :
    (env : Env) (w : Ctap2Wire) (d : Draws) (r : Result Ctap2Error GetAssertionOutcome × Vault)
    {out : Bytes} {s' : Vault}
    → NodupKeys r.1.unlocked
    → after_assertion env w d r ≡ (ok out, s')
    → (outcome : GetAssertionOutcome) × (r.0 ≡ ok outcome)
      × (out ≡ outcome.response_cbor)
      × Noted d outcome r.1 s'
after_assertion-Noted env w d (err e, t) nodup h = let bad = ap (λ p. p.0) h in cc
after_assertion-Noted env w d (ok outcome, t) nodup h =
    let (answer, noted) = noted-Noted env d outcome t nodup h in (outcome, refl, answer, noted)

-- When `handle_fido2_get_assertion` returned on a vault that is `WellFormed`, the bytes were an assertion
-- request, which the handler of the core answered with these bytes; and where an unlocked compartment
-- holds the key, its entry there has the new counter in its FIDO2 block, if it has one, and the time of
-- use, and is otherwise as it was, and where none does, the vault is as the handler left it.
pub assertion_counted :
    (env : Env) (w : Ctap2Wire) (d : Draws) (cbor : Bytes) (up uv : Bool) (prompt : Prompter)
    (s : Vault) {out : Bytes} {s' : Vault}
    → WellFormed env none s
    → handle_fido2_get_assertion env w d cbor up uv prompt s ≡ (ok out, s')
    → (request : AssertRequest) × (outcome : GetAssertionOutcome) × (t : Vault) × (w.deserialize
          cbor
        ≡ some (get_assertion request))
      × (handle_get_assertion env.x w.wire (ctap2_backend env d (some prompt)) request up uv s
          ≡ (ok outcome, t))
      × (out ≡ outcome.response_cbor)
      × Noted d outcome t s'
unfolding handle_fido2_get_assertion handle_get_assertion ctap2_backend credentials_for_rp
assertion_counted env w d cbor up uv prompt s {out = out} {s' = s'} wf h =
    let (request, t0, ran, rest) = bind-Returns (assert_request (w.deserialize cbor)) _ s h in
    let (parsed, same) = assert_request-Returns (w.deserialize cbor) s ran in
    let run =
      handle_get_assertion env.x w.wire (ctap2_backend env d (some prompt)) request up uv s in
    let kept =
      kept-assert_with env d w.wire (some prompt) request
        (prepare_assertion env.x w.wire (ctap2_backend env d (some prompt)) request up uv
          (credentials_for_rp env request.rp_id s))
        s wf in
    let rest' : after_assertion env w d run ≡ (ok out, s') = rw same at rest in
    let (outcome, asserted, answer, noted) =
      after_assertion-Noted env w d run kept.unlocked rest' in
    (request, outcome, run.1, parsed, ap (λ r. (r, run.1)) asserted, answer, noted)
