-- ===== src/Merge/Warned.antt =====
-- merge.rs: which incoming keys `find_duplicates` flags.
use vault_signer.Base.{
  bytes_Eq, bytes_eq_iff, nat_Eq, nat_eq, nat_eq_iff, ◌≡◌, ◌⊎◌, ◌↔◌, inl, inr, refl, ◌∙◌, Option,
  none, some, Bool, true, false, ◌||◌, is_some, List, [], ◌∷◌, ◌++◌, Any, Any-append, cons_option,
  arith, ◌==◌, if◌then◌else◌,
}
use vault_signer.External.{Uuid}
use vault_signer.Manifest.{Fido2Info, KeyEntry}
use vault_signer.Merge.{
  VaultCompartment, DuplicateReason, by_key_id, DuplicateWarning, same_credential, match_key, warn,
  or_else, match_keys, first_match, find_duplicates, flagged,
}
use vault_signer.Merge.Duplicates.{About, About-first_match}

-- The two blocks name one credential of one relying party.
abbrev pub OneCredential : Option Fido2Info → Option Fido2Info → Type 0
OneCredential (some incoming) (some here) =
    (incoming.rp_id ≡ here.rp_id) × (incoming.credential_id_b64 ≡ here.credential_id_b64)
OneCredential _ _ = ⊥

-- The incoming key and the local one are the same by id or by credential.
abbrev pub Clash : KeyEntry → KeyEntry → Type 0
Clash incoming here = (here.key_id ≡ incoming.key_id) ⊎ OneCredential incoming.fido2 here.fido2

abbrev pub local_keys : List VaultCompartment → List KeyEntry
local_keys [] = []
local_keys (c ∷ cs) = c.manifest.keys ++ local_keys cs

same_credential_iff :
    (a b : Option Fido2Info) → (is_some (same_credential a b) ≡ true) ↔ OneCredential a b
same_credential_iff none none = (λ h. cc, λ h. absurd h)
same_credential_iff none (some b) = (λ h. cc, λ h. absurd h)
same_credential_iff (some a) none = (λ h. cc, λ h. absurd h)
same_credential_iff (some a) (some b) =
    ground
      (arith, bytes_eq_iff a.rp_id b.rp_id, bytes_eq_iff a.credential_id_b64 b.credential_id_b64)

match_key_iff :
    (incoming here : KeyEntry) → (is_some (match_key incoming here) ≡ true) ↔ Clash incoming here
unfolding match_key
match_key_iff incoming here = by_id (here.key_id == incoming.key_id) (nat_eq_iff _ _)
  where
    by_id :
        (b : Bool)
        → (b ≡ true) ↔ (here.key_id ≡ incoming.key_id)
        → (is_some (if b then some by_key_id else same_credential incoming.fido2 here.fido2) ≡ true)
          ↔ Clash incoming here
    by_id true e = (λ h. inl (e.0 refl), λ h. refl)
    by_id false e =
        let credential = same_credential_iff incoming.fido2 here.fido2 in
        (
          λ h. inr (credential.0 h),
          λ h. elim h [ inl same ↦ absurd (cc (e.1 same)) | inr c ↦ credential.1 c ],
        )

or_else_iff :
    (P Q : Type 0) (a b : Option DuplicateWarning)
    → (is_some a ≡ true) ↔ P
    → (is_some b ≡ true) ↔ Q
    → (is_some (or_else a b) ≡ true) ↔ (P ⊎ Q)
or_else_iff P Q none b p q =
    (λ h. inr (q.0 h), λ h. elim h [ inl x ↦ absurd (cc (p.1 x)) | inr y ↦ q.1 y ])
or_else_iff P Q (some w) b p q = (λ h. inl (p.0 refl), λ h. refl)

is_some-warn :
    (incoming here : KeyEntry) (c : Uuid) (o : Option DuplicateReason)
    → is_some (warn incoming c here o) ≡ is_some o
is_some-warn incoming here c none = refl
is_some-warn incoming here c (some r) = refl

match_keys_iff :
    (incoming : KeyEntry) (c : Uuid) (keys : List KeyEntry)
    → (is_some (match_keys incoming c keys) ≡ true) ↔ Any (Clash incoming) keys
unfolding match_keys
match_keys_iff incoming c [] = (λ h. cc, λ h. absurd h)
match_keys_iff incoming c (here ∷ keys) =
    or_else_iff (Clash incoming here) (Any (Clash incoming) keys)
      (warn incoming c here (match_key incoming here)) (match_keys incoming c keys)
      (rw (is_some-warn incoming here c (match_key incoming here)) (match_key_iff incoming here))
      (match_keys_iff incoming c keys)

first_match_iff :
    (here : List VaultCompartment) (incoming : KeyEntry)
    → (is_some (first_match here incoming) ≡ true) ↔ Any (Clash incoming) (local_keys here)
unfolding first_match
first_match_iff [] incoming = (λ h. cc, λ h. absurd h)
first_match_iff (c ∷ cs) incoming =
    let here_or_later =
      or_else_iff (Any (Clash incoming) c.manifest.keys) (Any (Clash incoming) (local_keys cs))
        (match_keys incoming c.id c.manifest.keys) (first_match cs incoming)
        (match_keys_iff incoming c.id c.manifest.keys) (first_match_iff cs incoming) in
    let joined = Any-append (Clash incoming) c.manifest.keys (local_keys cs) in
    (λ h. joined.1 (here_or_later.0 h), λ h. here_or_later.1 (joined.0 h))

-- The key at the front of the list is flagged by its own warning.
flagged-cons :
    (k : KeyEntry) (o : Option DuplicateWarning) (ws : List DuplicateWarning) (id : Uuid)
    (P Q : Type 0)
    → About k o
    → (is_some o ≡ true) ↔ P
    → (flagged ws id ≡ true) ↔ Q
    → (flagged (cons_option o ws) id ≡ true) ↔ (((k.key_id ≡ id) × P) ⊎ Q)
flagged-cons k none ws id P Q about p q =
    (λ h. inr (q.0 h), λ h. elim h [ inl x ↦ absurd (cc (p.1 x.1)) | inr y ↦ q.1 y ])
flagged-cons k (some w) ws id P Q about p q = front (nat_eq w.incoming_key_id id) (nat_eq_iff _ _)
  where
    front :
        (b : Bool)
        → (b ≡ true) ↔ (w.incoming_key_id ≡ id)
        → ((b || flagged ws id) ≡ true) ↔ (((k.key_id ≡ id) × P) ⊎ Q)
    front true e = (λ h. inl (cc (about, e.0 refl), p.0 refl), λ h. refl)
    front false e =
        (λ h. inr (q.0 h), λ h. elim h [ inl x ↦ absurd (cc (e.1 (about ∙ x.0))) | inr y ↦ q.1 y ])

-- `find_duplicates` warns about exactly the incoming keys that some local key, of whichever
-- compartment, equals by id or by relying party and credential.
pub find_duplicates_iff :
    (here : List VaultCompartment) (incoming : List KeyEntry) (id : Uuid)
    → (flagged (find_duplicates here incoming) id ≡ true)
      ↔ Any (λ k. (k.key_id ≡ id) × Any (Clash k) (local_keys here)) incoming
unfolding find_duplicates
find_duplicates_iff here [] id = (λ h. cc, λ h. absurd h)
find_duplicates_iff here (k ∷ ks) id =
    flagged-cons k (first_match here k) (find_duplicates here ks) id
      (Any (Clash k) (local_keys here))
      (Any (λ k. (k.key_id ≡ id) × Any (Clash k) (local_keys here)) ks) (About-first_match here k)
      (first_match_iff here k) (find_duplicates_iff here ks id)
