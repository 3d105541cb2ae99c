-- ===== src/Merge/Duplicates.antt =====
-- merge.rs: what `find_duplicates` reports.
use vault_signer.Base.{
  bytes_Eq, nat_Eq, nat_eq, nat_eq_iff, ◌≡◌, inl, inr, refl, ap, ◌∙◌, Option, none, some, Bool,
  true, ◌&&◌, ◌||◌, List, [], ◌∷◌, ◌++◌, All, arith, Bool-cases, cons_option,
}
use vault_signer.External.{Uuid}
use vault_signer.Manifest.{KeyEntry}
use vault_signer.Manifest.Ids.{key_ids, member}
use vault_signer.Merge.{
  VaultCompartment, DuplicateReason, DuplicateWarning, match_key, warn, or_else, match_keys,
  first_match, find_duplicates, is_key_id, collides,
}

-- The ids of every key of every compartment.
abbrev pub local_ids : List VaultCompartment → List Uuid
local_ids [] = []
local_ids (c ∷ cs) = key_ids c.manifest.keys ++ local_ids cs

-- A warning carries the id of the incoming key that it is about.
abbrev pub About : KeyEntry → Option DuplicateWarning → Type 0
About k none = Unit
About k (some w) = w.incoming_key_id ≡ k.key_id

About-warn :
    (k : KeyEntry) (c : Uuid) (here : KeyEntry) (o : Option DuplicateReason)
    → About k (warn k c here o)
About-warn k c here none = tt
About-warn k c here (some r) = refl

About-or_else :
    (k : KeyEntry) (a b : Option DuplicateWarning) → About k a → About k b → About k (or_else a b)
About-or_else k none b ha hb = hb
About-or_else k (some w) b ha hb = ha

About-match_keys : (k : KeyEntry) (c : Uuid) (ks : List KeyEntry) → About k (match_keys k c ks)
unfolding match_keys
About-match_keys k c [] = tt
About-match_keys k c (here ∷ ks) =
    About-or_else k _ _ (About-warn k c here (match_key k here)) (About-match_keys k c ks)

pub About-first_match : (here : List VaultCompartment) (k : KeyEntry) → About k (first_match here k)
unfolding first_match
About-first_match [] k = tt
About-first_match (c ∷ cs) k =
    About-or_else k _ _ (About-match_keys k c.id c.manifest.keys) (About-first_match cs k)

-- The first match of a key whose id is in local use is a match by id.
unfoldable pub IdFirst : List VaultCompartment → KeyEntry → Type 0
IdFirst here k =
    member k.key_id (local_ids here) ≡ true
    → (w : DuplicateWarning) × (first_match here k ≡ some w) × (is_key_id w.reason ≡ true)

or_right : (a b : Bool) → b ≡ true → (a || b) ≡ true
or_right a b e = ground arith

collides-cons :
    (o : Option DuplicateWarning) (ws : List DuplicateWarning) (id : Uuid)
    → collides ws id ≡ true
    → collides (cons_option o ws) id ≡ true
collides-cons none ws id h = h
collides-cons (some w) ws id h = or_right (nat_eq w.incoming_key_id id && is_key_id w.reason) _ h

pub collides-find_duplicates :
    (here : List VaultCompartment) (incoming : List KeyEntry) (id : Uuid)
    → All (IdFirst here) incoming
    → member id (key_ids incoming) ≡ true
    → member id (local_ids here) ≡ true
    → collides (find_duplicates here incoming) id ≡ true
unfolding find_duplicates IdFirst
collides-find_duplicates here [] id h m l = cc
collides-find_duplicates here (k ∷ ks) id h m l = elim (Bool-cases (nat_eq k.key_id id)) [
  | inl same ↦
      let e = (nat_eq_iff k.key_id id).0 same in
      let (w, found, by_id) = h.0 (rw e l) in
      let about : About k (some w) = rw found at (About-first_match here k) in
      rw (found, by_id)
        (ap (λ b. (b && true) || collides (find_duplicates here ks) id)
          ((nat_eq_iff w.incoming_key_id id).1 (about ∙ e)))
  | inr differs ↦
      collides-cons (first_match here k) (find_duplicates here ks) id
        (collides-find_duplicates here ks id h.1 (rw differs at m) l)
]
