-- ===== src/Vault/Sound/Steps.antt =====
-- vaultcore/src/vault.rs: the changes that methods make to a vault, and the invariant.
use vault_signer.Base.{
  Bytes, bytes_Eq, nat_Eq, ◌≢◌, inl, inr, Option, none, some, List, ◌==◌, Bool-cases, ==_refl, refl,
}
use vault_signer.Base.Map.{
  Map, get, insert, get-insert, NodupKeys, NodupKeys-insert, NodupKeys-remove,
}
use vault_signer.External.{Uuid}
use vault_signer.Throttle.{ThrottleTracker}
use vault_signer.Container.{CompartmentHeader, FileSystem}
use vault_signer.Retention.{RetentionCache}
use vault_signer.Vault.{
  Vault, Env, UnlockedCompartment, set_unlocked, set_throttle, set_retention, put_master_blob,
  put_key_blob,
}
use vault_signer.Vault.KeyStore.{drop_key_blob}
use vault_signer.Vault.Sound.{Has, Stored, Sealed, WellFormed}

Stored-put :
    (env : Env) (id j : Uuid) (blob : Bytes) (blobs : Map Uuid Bytes)
    → Sealed env id blob
    → Stored env j blobs
    → Stored env j (insert id blob blobs)
Stored-put env id j blob blobs sealed (b, found, old) = elim (Bool-cases (id == j)) [
  | inl same ↦
      (blob, rw (get-insert id j blob blobs, same) refl, rw (← (nat_Eq.beq_iff id j).0 same) sealed)
  | inr differs ↦ (b, rw (get-insert id j blob blobs, differs) found, old)
]

pub Stored-here :
    (env : Env) (id : Uuid) (blob : Bytes) (blobs : Map Uuid Bytes)
    → Sealed env id blob
    → Stored env id (insert id blob blobs)
Stored-here env id blob blobs sealed =
    (blob, rw (get-insert id id blob blobs, ==_refl id) refl, sealed)

Has-put :
    (env : Env) (known : Option Uuid) (id : Uuid) (blob : Bytes) (blobs : Map Uuid Bytes)
    → Sealed env id blob
    → Has env known blobs
    → Has env known (insert id blob blobs)
Has-put env none id blob blobs sealed h = tt
Has-put env (some j) id blob blobs sealed h = Stored-put env id j blob blobs sealed h

module _ (env : Env) (known : Option Uuid) where
  pub set_throttle-WellFormed :
      (t : ThrottleTracker) (s : Vault)
      → NodupKeys t.states
      → WellFormed env known s
      → WellFormed env known (set_throttle t s)
  set_throttle-WellFormed t s nodup h = record {
    container = h.container;
    unlocked = h.unlocked;
    retention = h.retention;
    throttle = nodup;
    stored = h.stored;
    has = h.has;
  }

  pub set_retention-WellFormed :
      (r : RetentionCache) (s : Vault)
      → NodupKeys r
      → WellFormed env known s
      → WellFormed env known (set_retention r s)
  set_retention-WellFormed r s nodup h = record {
    container = h.container;
    unlocked = h.unlocked;
    retention = nodup;
    throttle = h.throttle;
    stored = h.stored;
    has = h.has;
  }

  pub put_master_blob-WellFormed :
      (id : Uuid) (blob : Bytes) (s : Vault)
      → Sealed env id blob
      → WellFormed env known s
      → WellFormed env known (put_master_blob id blob s)
  put_master_blob-WellFormed id blob s sealed h = record {
    container = record {
      version = h.container.version;
      masters = NodupKeys-insert id blob s.container.master_blobs h.container.masters;
      key_blobs = h.container.key_blobs;
    };
    unlocked = h.unlocked;
    retention = h.retention;
    throttle = h.throttle;
    stored = λ j held. Stored-put env id j blob s.container.master_blobs sealed (h.stored j held);
    has = Has-put env known id blob s.container.master_blobs sealed h.has;
  }

  pub put_key_blob-WellFormed :
      (id : Uuid) (blob : Bytes) (s : Vault)
      → WellFormed env known s
      → WellFormed env known (put_key_blob id blob s)
  put_key_blob-WellFormed id blob s h = record {
    container = record {
      version = h.container.version;
      masters = h.container.masters;
      key_blobs = NodupKeys-insert id blob s.container.key_blobs h.container.key_blobs;
    };
    unlocked = h.unlocked;
    retention = h.retention;
    throttle = h.throttle;
    stored = h.stored;
    has = h.has;
  }

  pub drop_key_blob-WellFormed :
      (id : Uuid) (s : Vault) → WellFormed env known s → WellFormed env known (drop_key_blob id s)
  drop_key_blob-WellFormed id s h = record {
    container = record {
      version = h.container.version;
      masters = h.container.masters;
      key_blobs = NodupKeys-remove id s.container.key_blobs h.container.key_blobs;
    };
    unlocked = h.unlocked;
    retention = h.retention;
    throttle = h.throttle;
    stored = h.stored;
    has = h.has;
  }

  -- A change of the header that keeps the version.
  pub with_header-WellFormed :
      (headers : List CompartmentHeader) (s : Vault)
      → WellFormed env known s
      → WellFormed env known (record s {
        container = record (s.container) {
          header = record (s.container.header) { compartments = headers };
        };
      })
  with_header-WellFormed headers s h = record {
    container = record {
      version = h.container.version;
      masters = h.container.masters;
      key_blobs = h.container.key_blobs;
    };
    unlocked = h.unlocked;
    retention = h.retention;
    throttle = h.throttle;
    stored = h.stored;
    has = h.has;
  }

  pub with_files-WellFormed :
      (files : FileSystem) (s : Vault)
      → WellFormed env known s
      → WellFormed env known (record s { files = files })
  with_files-WellFormed files s h = record {
    container = h.container;
    unlocked = h.unlocked;
    retention = h.retention;
    throttle = h.throttle;
    stored = h.stored;
    has = h.has;
  }

  pub set_unlocked-WellFormed :
      (id : Uuid) (u : UnlockedCompartment) (s : Vault)
      → Stored env id s.container.master_blobs
      → WellFormed env known s
      → WellFormed env known (set_unlocked id u s)
  set_unlocked-WellFormed id u s blob h = record {
    container = h.container;
    unlocked = NodupKeys-insert id u s.unlocked h.unlocked;
    retention = h.retention;
    throttle = h.throttle;
    stored = λ j held. elim (Bool-cases (id == j)) [
      | inl same ↦ rw (← (nat_Eq.beq_iff id j).0 same) blob
      | inr other ↦
          let held' : get j s.unlocked ≢ none = rw (get-insert id j u s.unlocked, other) at held in
          h.stored j held'
    ];
    has = h.has;
  }

pub weaken :
    (env : Env) (known : Option Uuid) (s : Vault) → WellFormed env known s → WellFormed env none s
weaken env known s h = record {
  container = h.container;
  unlocked = h.unlocked;
  retention = h.retention;
  throttle = h.throttle;
  stored = h.stored;
  has = tt;
}

pub with_known :
    (env : Env) (id : Uuid) (s : Vault)
    → Stored env id s.container.master_blobs
    → WellFormed env none s
    → WellFormed env (some id) s
with_known env id s blob h = record {
  container = h.container;
  unlocked = h.unlocked;
  retention = h.retention;
  throttle = h.throttle;
  stored = h.stored;
  has = blob;
}
