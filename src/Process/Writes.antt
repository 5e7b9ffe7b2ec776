-- ===== src/Process/Writes.antt =====
-- The writes to the cache that fetches, syncs and requests make (elchi.go, webhook.go), on views.
use mathlib.Core.Quot
use mathlib.Core.Quot.{Quot}
use elchi_gslb.Prelude.{
  ℕ, ◌≡◌, ◌≢◌, refl, List, [], ◌∷◌, Option, none, some, ◌⊎◌, ◌==◌, list_eq, nat_eq, list_eqb_iff,
  Bool-cases, inl, inr, if◌then◌else◌,
}
use elchi_gslb.Text.{text}
use elchi_gslb.Record.{DnsRecord, DnsSnapshot, DeleteRecord}
use elchi_gslb.Cache.{RecordCache, update, delete, replace_from_snapshot}
use elchi_gslb.Cache.View.{
  Alike, View, view, view_update, view_delete, view_load, update-Alike, delete-Alike, replace-Alike,
}
use elchi_gslb.Client.{Net, Result, ok, err, DnsChangesResponse, fetch_snapshot, check_changes}
use elchi_gslb.Plugin.{Elchi}
use elchi_gslb.Sync.{
  perform_sync_between, after_initial_fetch, after_fetch, after_check, snapshot_of, load_snapshot,
}
use elchi_gslb.Webhook.{
  Request, NotifyRequest, Decoded, decoded, undecodable, Endpoint, handle, handle_notify,
  run_notify, auth_middleware,
}
use elchi_gslb.Webhook.Notify.{reads_only}
use elchi_gslb.Process.{IsAccepted}

-- A write to the cache, with the TTL of records that have none.
pub data Write : Type 0 where
  load : DnsSnapshot → ℕ → Write
  merge : List DnsRecord → ℕ → Write
  drop : List DeleteRecord → Write

abbrev pub apply_write : Write → View → View
apply_write (load s ttl) = view_load s ttl
apply_write (merge records ttl) = view_update records ttl
apply_write (drop dels) = view_delete dels

-- The writes of a list, the first of the list last.
abbrev pub history : List Write → View → View
history [] v = v
history (w ∷ ws) v = apply_write w (history ws v)

abbrev pub load_if : Option DnsSnapshot → ℕ → List Write
load_if none ttl = []
load_if (some s) ttl = load s ttl ∷ []

abbrev pub fetched : Result DnsSnapshot → Option DnsSnapshot
fetched (ok s) = some s
fetched (err e) = none

abbrev pub changed : Result DnsChangesResponse → Option DnsSnapshot
changed (ok changes) = if changes.unchanged then none else some (snapshot_of changes)
changed (err e) = none

-- The snapshot that a sync is given, if it is given one.
abbrev pub given : Net → Elchi → Option DnsSnapshot
given net e =
    if e.cache.version_hash == []
    then fetched (fetch_snapshot e.client net)
    else changed (check_changes e.client net e.cache.version_hash)

load-view :
    (c : RecordCache) (s : DnsSnapshot) (ttl now : ℕ)
    → view (replace_from_snapshot c (some s) ttl now).0 ≡ view_load s ttl (view c)
unfolding view_load
load-view c s ttl now = Quot.sound (replace-Alike s ttl now 0 c c refl)

Alike-refl : (c : RecordCache) → Alike c c
Alike-refl c = record { zone = refl; version = refl; answers = λ qname q. refl }

pub merge-view :
    (c : RecordCache) (records : List DnsRecord) (ttl now : ℕ)
    → view (update c records ttl now).0 ≡ view_update records ttl (view c)
unfolding view_update
merge-view c records ttl now = Quot.sound (update-Alike records ttl now 0 c c (Alike-refl c))

pub drop-view :
    (c : RecordCache) (dels : List DeleteRecord) (now : ℕ)
    → view (delete c dels now).0 ≡ view_delete dels (view c)
unfolding view_delete
drop-view c dels now = Quot.sound (delete-Alike dels now 0 c c (Alike-refl c))

module _ (net : Net) (start now : ℕ) (e : Elchi) where
  pub initial-view :
      (r : Result DnsSnapshot)
      → view (after_initial_fetch r now e).cache
        ≡ history (load_if (fetched r) e.ttl) (view e.cache)
  initial-view (err m) = refl
  initial-view (ok s) = unfold replace_from_snapshot in load-view e.cache s e.ttl now

  fetch-view :
      (r : Result DnsSnapshot)
      → view (after_fetch r start now e).cache ≡ history (load_if (fetched r) e.ttl) (view e.cache)
  fetch-view (err m) = refl
  fetch-view (ok s) = unfold load_snapshot in load-view e.cache s e.ttl now

  check-view :
      (r : Result DnsChangesResponse)
      → view (after_check r start now e).cache ≡ history (load_if (changed r) e.ttl) (view e.cache)
  check-view (err m) = refl
  check-view (ok changes) = elim (Bool-cases changes.unchanged) [
    | inl same ↦ rw same refl
    | inr other ↦
        rw other (unfold load_snapshot in load-view e.cache (snapshot_of changes) e.ttl now)
  ]

  pub sync-view :
      (before : Elchi)
      → view (perform_sync_between net start now before e).cache
        ≡ history (load_if (given net before) e.ttl) (view e.cache)
  unfolding perform_sync_between
  sync-view before = elim (Bool-cases (before.cache.version_hash == [])) [
    | inl none_yet ↦ rw none_yet (fetch-view (fetch_snapshot before.client net))
    | inr known ↦ rw known (check-view (check_changes before.client net before.cache.version_hash))
  ]

module _ (now : ℕ) (e : Elchi) where
  refused_body :
      (r : Request) (body : Decoded)
      → r.notify ≡ body
      → ((req : NotifyRequest) → ¬ IsAccepted e r req)
      → (handle Endpoint.notify now e r).0.cache ≡ e.cache
  unfolding handle handle_notify run_notify
  refused_body r (undecodable m) same refused = elim (Bool-cases (r.secret == e.secret)) [
    | inr other ↦ rw (other, auth_middleware) refl
    | inl authorized ↦ elim (Bool-cases (r.method == text "POST")) [
      | inr other ↦ rw (authorized, auth_middleware, other) refl
      | inl posted ↦ rw (authorized, auth_middleware, posted, same) refl
    ]
  ]
  refused_body r (decoded req) same refused = elim (Bool-cases (r.secret == e.secret)) [
    | inr other ↦ rw (other, auth_middleware) refl
    | inl authorized ↦ elim (Bool-cases (r.method == text "POST")) [
      | inr other ↦ rw (authorized, auth_middleware, other) refl
      | inl posted ↦ absurd (
          refused req (record {
            authorized = (list_eqb_iff r.secret e.secret).0 authorized;
            posted = (list_eqb_iff r.method (text "POST")).0 posted;
            body = same;
          }))
    ]
  ]

  -- A request that is no accepted notification writes nothing.
  pub refused-view :
      (endpoint : Endpoint) (r : Request)
      → (endpoint ≢ Endpoint.notify) ⊎ ((req : NotifyRequest) → ¬ IsAccepted e r req)
      → (handle endpoint now e r).0.cache ≡ e.cache
  refused-view Endpoint.health r h = (reads_only now e r).0
  refused-view Endpoint.records r h = (reads_only now e r).1
  refused-view Endpoint.notify r (inl other) = absurd (other refl)
  refused-view Endpoint.notify r (inr refused) = refused_body r r.notify refl refused
