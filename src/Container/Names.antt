-- ===== src/Container/Names.antt =====
-- container.rs: the names of the archive's entries.
use vault_signer.Base.{
  ℕ, Bytes, bytes_Eq, nat_Eq, nat_eq, nat_eq_iff, codes, ◌≡◌, ◌≢◌, inl, inr, refl, ap, sym, ◌∙◌,
  none, some, [], ◌∷◌, ◌++◌, drop, arith, ==_ne, Bool-cases, Option,
}
use vault_signer.Base.Map.{Map, get, NodupKeys}
use vault_signer.Base.Map.Append.{Apart, NodupKeys-append, get-append_none}
use vault_signer.Base.Result.{Result, ok}
use vault_signer.Error.{VaultError}
use vault_signer.External.{External, Uuid, UuidLaws}
use vault_signer.Container.{header_entry, master_entry_name, key_blob_entry_name, named, entry_id}
use vault_signer.Container.RoundTrip.{entry_id-append}

abbrev first_byte : Bytes → ℕ
first_byte [] = 0
first_byte (b ∷ bs) = b

first_byte_ne : {s r : Bytes} → first_byte s ≢ first_byte r → s ≢ r
first_byte_ne h e = h (ap first_byte e)

ok_inj : {u v : Uuid} → ◌≡◌ {A = Result VaultError Uuid} (ok u) (ok v) → u ≡ v
ok_inj e = cc

module _ (x : External) (name : Uuid → Bytes) (inj : (u v : Uuid) → name u ≡ name v → u ≡ v) where
  get-named :
      (u : Uuid) (m : Map Uuid Bytes) → get u m ≡ none → get (name u) (named x name m) ≡ none
  unfolding get
  get-named u [] h = refl
  get-named u ((v, b) ∷ m) h = elim (Bool-cases (nat_eq v u)) [
    | inl same ↦ let e : ◌≡◌ {A = Option Bytes} (some b) none = rw same at h in cc
    | inr other ↦
        rw (==_ne (name v) (name u) (λ e. cc (other, (nat_eq_iff v u).1 (inj v u e))))
          (get-named u m (rw other at h))
  ]

  NodupKeys-named : (m : Map Uuid Bytes) → NodupKeys m → NodupKeys (named x name m)
  NodupKeys-named [] h = tt
  NodupKeys-named ((u, b) ∷ m) h = (get-named u m h.0, NodupKeys-named m h.1)

module _ (x : External) where
  get-named-none :
      (name : Uuid → Bytes) (k : Bytes) (m : Map Uuid Bytes)
      → ((u : Uuid) → name u ≢ k)
      → get k (named x name m) ≡ none
  unfolding get
  get-named-none name k [] h = refl
  get-named-none name k ((u, b) ∷ m) h = rw (==_ne (name u) k (h u)) (get-named-none name k m h)

  Apart-named :
      (a b : Map Uuid Bytes)
      → Apart (named x (master_entry_name x) a) (named x (key_blob_entry_name x) b)
  Apart-named [] b = tt
  Apart-named ((u, bytes) ∷ a) b = (
    get-named-none (key_blob_entry_name x) (master_entry_name x u) b
        (λ v. first_byte_ne (omega arith)),
    Apart-named a b,
  )

  master_entry_name_inj :
      UuidLaws x → (u v : Uuid) → master_entry_name x u ≡ master_entry_name x v → u ≡ v
  master_entry_name_inj ids u v e = ok_inj (
      sym (entry_id-append x ids (codes ".blob") u)
      ∙ ap (λ (s : Bytes). entry_id x (codes ".blob") (drop 7 s)) e
      ∙ entry_id-append x ids (codes ".blob") v)

  key_blob_entry_name_inj :
      UuidLaws x → (u v : Uuid) → key_blob_entry_name x u ≡ key_blob_entry_name x v → u ≡ v
  key_blob_entry_name_inj ids u v e = ok_inj (
      sym (entry_id-append x ids (codes ".kblob") u)
      ∙ ap (λ (s : Bytes). entry_id x (codes ".kblob") (drop 10 s)) e
      ∙ entry_id-append x ids (codes ".kblob") v)

  -- The entries that `build_entries` makes have distinct names.
  pub entries-NodupKeys :
      (header : Bytes) (masters key_blobs : Map Uuid Bytes)
      → UuidLaws x
      → NodupKeys masters
      → NodupKeys key_blobs
      → NodupKeys (
          (header_entry, header) ∷ named x (master_entry_name x) masters
          ++ named x (key_blob_entry_name x) key_blobs)
  entries-NodupKeys header masters key_blobs ids hm hk = (
    get-append_none header_entry (named x (master_entry_name x) masters)
        (named x (key_blob_entry_name x) key_blobs)
        (get-named-none (master_entry_name x) header_entry masters
          (λ u. first_byte_ne (omega arith)))
        (get-named-none (key_blob_entry_name x) header_entry key_blobs
          (λ u. first_byte_ne (omega arith))),
    NodupKeys-append (named x (master_entry_name x) masters)
        (named x (key_blob_entry_name x) key_blobs)
        (NodupKeys-named x (master_entry_name x) (master_entry_name_inj ids) masters hm)
        (NodupKeys-named x (key_blob_entry_name x) (key_blob_entry_name_inj ids) key_blobs hk)
        (Apart-named masters key_blobs),
  )
