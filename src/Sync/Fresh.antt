-- ===== src/Sync/Fresh.antt =====
-- A sync that brings a snapshot (elchi.go): what the plugin knows afterwards.
use elchi_gslb.Prelude.{
  ℕ, ◌≡◌, ◌≢◌, refl, ap, ◌∙◌, false, [], some, ◌⊎◌, list_eq, nat_eq, list_eqb_iff, arith, inl, inr,
}
use elchi_gslb.Text.{Text}
use elchi_gslb.Client.{DnsChangesResponse, Net, ok, fetch_snapshot, check_changes}
use elchi_gslb.Name.{normalize_domain}
use elchi_gslb.Record.{DnsSnapshot}
use elchi_gslb.Cache.{RecordCache, get, replace_from_snapshot}
use elchi_gslb.Cache.Spec.{contributions}
use elchi_gslb.Cache.Replace.{get-replace_from_snapshot}
use elchi_gslb.Client.Laws.{fetch_snapshot_complete, check_changes_complete}
use elchi_gslb.Plugin.{Elchi, SyncStatus, success}
use elchi_gslb.Sync.{load_snapshot, perform_sync, snapshot_of}

-- The snapshot that a sync is given: the whole of the first one, or the changed one later.
abbrev pub Given : Net → Elchi → DnsSnapshot → Type 0
Given net e s =
    ((e.cache.version_hash ≡ []) × (fetch_snapshot e.client net ≡ ok s))
    ⊎ ((e.cache.version_hash ≢ [])
        × ((changes : DnsChangesResponse) × (check_changes e.client net e.cache.version_hash
              ≡ ok changes)
            × (changes.unchanged ≡ false)
            × (s ≡ snapshot_of changes)))

abbrev pub succeeded : ℕ → SyncStatus
succeeded now = record { last_sync_time = now; last_sync_status = success; last_error = [] }

load_snapshot_lem :
    (label : Text) (s : DnsSnapshot) (now : ℕ) (e : Elchi)
    → ((load_snapshot label s now e).cache ≡ (replace_from_snapshot e.cache (some s) e.ttl now).0)
      × ((load_snapshot label s now e).sync_status ≡ succeeded now)
      × ((load_snapshot label s now e).metrics ≡ e.metrics)
unfolding load_snapshot
load_snapshot_lem label s now e = (refl, refl, refl)

-- Where the controller gives a snapshot, the sync succeeds and the cache is that of the snapshot.
pub perform_sync-Given :
    (net : Net) (start now : ℕ) (e : Elchi) (s : DnsSnapshot)
    → Given net e s
    → ((perform_sync net start now e).cache ≡ (replace_from_snapshot e.cache (some s) e.ttl now).0)
      × ((perform_sync net start now e).sync_status ≡ succeeded now)
unfolding perform_sync
perform_sync-Given net start now e s (inl (empty, given)) =
    ground (arith, list_eqb_iff e.cache.version_hash [])
perform_sync-Given net start now e s (inr (some_hash, (changes, given, changed, same))) =
    rw same (ground (arith, list_eqb_iff e.cache.version_hash []))

Given-version_hash : (net : Net) (e : Elchi) (s : DnsSnapshot) → Given net e s → s.version_hash ≢ []
Given-version_hash net e s (inl (empty, given)) = (fetch_snapshot_complete e.client net s given).1
Given-version_hash net e s (inr (some_hash, (changes, given, changed, same))) =
    rw same (check_changes_complete e.client net e.cache.version_hash changes given changed).1

-- Where the controller gives a snapshot, the whole of a first one or a changed one later, every query
-- gets from then on what that snapshot's records contribute, and nothing that was known before;
-- the version hash, never empty, is the snapshot's, and the sync has succeeded.
pub get-perform_sync :
    (net : Net) (start now : ℕ) (e : Elchi) (s : DnsSnapshot) (qname : Text) (q : ℕ)
    → Given net e s
    → (get (perform_sync net start now e).cache qname q
        ≡ contributions e.cache.zone e.ttl (normalize_domain qname) q s.records)
      × ((perform_sync net start now e).cache.version_hash ≡ s.version_hash)
      × (s.version_hash ≢ [])
      × ((perform_sync net start now e).sync_status ≡ succeeded now)
get-perform_sync net start now e s qname q given =
    let (cache, status) = perform_sync-Given net start now e s given in
    let (answers, hash, _) = get-replace_from_snapshot e.cache s e.ttl now qname q in
    (
      ap (λ (c : RecordCache). get c qname q) cache ∙ answers,
      ap (λ (c : RecordCache). c.version_hash) cache ∙ hash,
      Given-version_hash net e s given,
      status,
    )
