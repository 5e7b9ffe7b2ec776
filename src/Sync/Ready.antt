-- ===== src/Sync/Ready.antt =====
-- What every sync keeps (elchi.go): the cache's validity, its zone, and readiness.
use elchi_gslb.Prelude.{
  ℕ, ◌≡◌, ◌≢◌, refl, ap, sym, subst, true, false, [], ◌==◌, some, ◌⊎◌, list_eq, nat_eq,
  list_eqb_iff, arith, Bool-cases, inl, inr, ◌↔◌,
}
use elchi_gslb.Text.{Text, text}
use elchi_gslb.Client.{DnsChangesResponse, Net, ClientError, ok, fetch_snapshot, check_changes}
use elchi_gslb.Record.{DnsSnapshot}
use elchi_gslb.Cache.{RecordCache, replace_from_snapshot}
use elchi_gslb.Cache.Invariant.{replace-IsValid}
use elchi_gslb.Cache.Valid.{IsValid}
use elchi_gslb.Plugin.{Elchi, SyncStatus, ready}
use elchi_gslb.Sync.{perform_sync, snapshot_of}
use elchi_gslb.Client.{Result-cases}
use elchi_gslb.Sync.Stale.{Refused, perform_sync-HasFailed, unchanged_sync}
use elchi_gslb.Sync.Fresh.{Given, perform_sync-Given, get-perform_sync}

-- Ready: a version hash is known.
pub ready_iff : (c : RecordCache) → (ready (some c) ≡ true) ↔ (c.version_hash ≢ [])
unfolding ready
ready_iff c = ground (arith, list_eqb_iff c.version_hash [])

-- The three ways in which a sync can go.
perform_sync_cases :
    (net : Net) (e : Elchi)
    → ((error : ClientError) × (label : Text) × Refused net e error label)
      ⊎ ((s : DnsSnapshot) × Given net e s)
      ⊎ ((changes : DnsChangesResponse) × (e.cache.version_hash ≢ [])
          × (check_changes e.client net e.cache.version_hash ≡ ok changes)
          × (changes.unchanged ≡ true))
perform_sync_cases net e = elim (Bool-cases (e.cache.version_hash == [])) [
  | inl none_yet ↦
      let empty : e.cache.version_hash ≡ [] = (list_eqb_iff e.cache.version_hash []).0 none_yet in
      elim (Result-cases (fetch_snapshot e.client net)) [
        | inl (s, given) ↦ inr (inl (s, inl (empty, given)))
        | inr (error, refused) ↦ inl (error, text "snapshot", inl (empty, refused, refl))
      ]
  | inr known ↦
      let some_hash : e.cache.version_hash ≢ [] =
        (λ p. cc ((list_eqb_iff e.cache.version_hash []).1 p)) in
      elim (Result-cases (check_changes e.client net e.cache.version_hash)) [
        | inr (error, refused) ↦ inl (error, text "changes", inr (some_hash, refused, refl))
        | inl (changes, given) ↦ elim (Bool-cases changes.unchanged) [
          | inl same ↦ inr (inr (changes, some_hash, given, same))
          | inr changed ↦
              inr (inl (snapshot_of changes, inr (some_hash, (changes, given, changed, refl))))
        ]
      ]
]

module _ (net : Net) (start now : ℕ) (e : Elchi) where
  -- A sync leaves the cache as it is, or makes it that of a snapshot with a version.
  perform_sync-cache :
      ((perform_sync net start now e).cache ≡ e.cache)
      ⊎ ((s : DnsSnapshot) × ((perform_sync net start now e).cache
            ≡ (replace_from_snapshot e.cache (some s) e.ttl now).0)
          × ((perform_sync net start now e).cache.version_hash ≢ []))
  perform_sync-cache = elim (perform_sync_cases net e) [
    | inl (error, label, refused) ↦
        inl (perform_sync-HasFailed net start now e error label refused).stale
    | inr (inl (s, given)) ↦
        let (_, hash, some_hash, _) = get-perform_sync net start now e s [] 0 given in
        inr (s, (perform_sync-Given net start now e s given).0, rw hash some_hash)
    | inr (inr (changes, some_hash, answer, same)) ↦
        inl (unchanged_sync net start now e changes some_hash answer same).0
  ]

  perform_sync-IsValid : IsValid e.cache → IsValid (perform_sync net start now e).cache
  perform_sync-IsValid valid = elim perform_sync-cache [
    | inl same ↦ subst IsValid (sym same) valid
    | inr (s, loaded, _) ↦
        subst IsValid (sym loaded) (replace-IsValid e.cache valid (some s) e.ttl now)
  ]

  -- A plugin that is ready stays ready, however the sync goes.
  perform_sync-ready :
      ready (some e.cache) ≡ true → ready (some (perform_sync net start now e).cache) ≡ true
  perform_sync-ready r = elim perform_sync-cache [
    | inl same ↦ rw same r
    | inr (s, _, some_hash) ↦ (ready_iff (perform_sync net start now e).cache).1 some_hash
  ]

pub not_ready_iff : (c : RecordCache) → (ready (some c) ≡ false) ↔ (c.version_hash ≡ [])
unfolding ready
not_ready_iff c = ground (arith, list_eqb_iff c.version_hash [])

-- A plugin that is not ready yet becomes ready by a sync exactly if the controller gives a snapshot
-- that is accepted.
pub ready_after_sync_iff :
    (net : Net) (start now : ℕ) (e : Elchi)
    → ready (some e.cache) ≡ false
    → (ready (some (perform_sync net start now e).cache) ≡ true)
      ↔ ((s : DnsSnapshot) × (fetch_snapshot e.client net ≡ ok s))
ready_after_sync_iff net start now e r =
    let empty : e.cache.version_hash ≡ [] = (not_ready_iff e.cache).0 r in
    (
      λ later. elim (Result-cases (fetch_snapshot e.client net)) [
        | inl given ↦ given
        | inr (error, refused) ↦
            let stale : (perform_sync net start now e).cache ≡ e.cache =
              (perform_sync-HasFailed net start now e error (text "snapshot")
                (inl (empty, refused, refl))).stale in
            absurd (cc (r, ap (λ (c : RecordCache). ready (some c)) stale, later))
      ],
      λ (s, given).
          let (_, hash, some_hash, _) =
            get-perform_sync net start now e s [] 0 (inl (empty, given)) in
          (ready_iff (perform_sync net start now e).cache).1 (rw hash some_hash),
    )

perform_sync-config :
    (net : Net) (start now : ℕ) (e : Elchi) → (perform_sync net start now e).config ≡ e.config
unfolding perform_sync
perform_sync-config net start now e = ground arith

-- A sync that fails is as good as one that succeeds for the time of the last sync.
perform_sync-timed :
    (net : Net) (start now : ℕ) (e : Elchi)
    → (perform_sync net start now e).sync_status.last_sync_time ≡ now
perform_sync-timed net start now e = elim (perform_sync_cases net e) [
  | inl (error, label, refused) ↦ (perform_sync-HasFailed net start now e error label refused).timed
  | inr (inl (s, given)) ↦
      ap (λ (t : SyncStatus). t.last_sync_time) (perform_sync-Given net start now e s given).1
  | inr (inr (changes, some_hash, answer, same)) ↦
      ap (λ (t : SyncStatus). t.last_sync_time)
        (unchanged_sync net start now e changes some_hash answer same).1
]
