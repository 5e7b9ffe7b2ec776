-- ===== src/Process/Between.antt =====
-- A sync of a plugin that is written to while the controller is asked (elchi.go).
use elchi_gslb.Prelude.{
  ℕ, ◌≡◌, ◌≢◌, refl, [], ◌==◌, some, ◌⊎◌, list_eq, nat_eq, Bool-cases, inl, inr,
}
use elchi_gslb.Client.{Net, fetch_snapshot, check_changes, Result, ok, err, DnsChangesResponse}
use elchi_gslb.Client.Laws.{fetch_snapshot_complete, check_changes_complete}
use elchi_gslb.Record.{DnsSnapshot}
use elchi_gslb.Cache.{replace_from_snapshot}
use elchi_gslb.Plugin.{Elchi}
use elchi_gslb.Sync.{
  perform_sync_between, after_fetch, after_check, after_initial_fetch, snapshot_of, load_snapshot,
}

-- A sync leaves the cache that it meets as it is, or makes it that of a snapshot with a version.
abbrev pub IsSynced : ℕ → Elchi → Elchi → Type 0
IsSynced now e after =
    (after.cache ≡ e.cache)
    ⊎ ((s : DnsSnapshot) × (after.cache ≡ (replace_from_snapshot e.cache (some s) e.ttl now).0)
        × (s.version_hash ≢ []))

module _ (net : Net) (start now : ℕ) (e later : Elchi) where
  first_load :
      (result : Result DnsSnapshot)
      → fetch_snapshot e.client net ≡ result
      → IsSynced now later (after_fetch result start now later)
  unfolding load_snapshot
  first_load (err error) h = inl refl
  first_load (ok s) h = inr (s, refl, (fetch_snapshot_complete e.client net s h).1)

  change_check :
      (result : Result DnsChangesResponse)
      → check_changes e.client net e.cache.version_hash ≡ result
      → IsSynced now later (after_check result start now later)
  unfolding load_snapshot
  change_check (err error) h = inl refl
  change_check (ok changes) h = elim (Bool-cases changes.unchanged) [
    | inl same ↦ rw same (inl refl)
    | inr changed ↦ rw changed (
        inr (
          snapshot_of changes,
          refl,
          (check_changes_complete e.client net e.cache.version_hash changes h changed).1,
        ))
  ]

  pub perform_sync_between-IsSynced :
      IsSynced now later (perform_sync_between net start now e later)
  unfolding perform_sync_between
  perform_sync_between-IsSynced = elim (Bool-cases (e.cache.version_hash == [])) [
    | inl none_yet ↦ rw none_yet (first_load (fetch_snapshot e.client net) refl)
    | inr known ↦ rw known (change_check (check_changes e.client net e.cache.version_hash) refl)
  ]

initial_load :
    (now : ℕ) (e : Elchi) (net : Net) (result : Result DnsSnapshot)
    → fetch_snapshot e.client net ≡ result
    → IsSynced now e (after_initial_fetch result now e)
unfolding replace_from_snapshot
initial_load now e net (err error) h = inl refl
initial_load now e net (ok s) h = inr (s, refl, (fetch_snapshot_complete e.client net s h).1)

pub after_initial_fetch-IsSynced :
    (now : ℕ) (e : Elchi) (net : Net)
    → IsSynced now e (after_initial_fetch (fetch_snapshot e.client net) now e)
after_initial_fetch-IsSynced now e net = initial_load now e net (fetch_snapshot e.client net) refl
