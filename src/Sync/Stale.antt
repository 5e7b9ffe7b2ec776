-- ===== src/Sync/Stale.antt =====
-- A sync that fails, or finds nothing new (elchi.go).
use elchi_gslb.Prelude.{
  ℕ, ◌≡◌, ◌≢◌, refl, true, [], ◌⊎◌, list_eq, nat_eq, list_eqb_iff, arith, inl, inr,
}
use elchi_gslb.Text.{Text, text}
use elchi_gslb.Client.{
  DnsChangesResponse, ElchiClient, Params, HttpRequest, HttpResponse, done, Net, ClientError,
  message, ok, err, unchanged_response, status_not_modified, fetch_snapshot, check_changes,
}
use elchi_gslb.Plugin.{Elchi, success, failure, inc}
use elchi_gslb.Sync.{perform_sync}

-- A sync has failed at a time: it is the status, with the error's message, and the counter of its
-- label has gone up by one, the others not at all.
pub record HasFailed (before after : Elchi) (label error : Text) (now : ℕ) : Type 0 where
  pub status : after.sync_status.last_sync_status ≡ failure
  pub reported : after.sync_status.last_error ≡ error
  pub timed : after.sync_status.last_sync_time ≡ now
  pub counted : after.metrics.sync_errors ≡ inc before.zone label before.metrics.sync_errors
  pub stale : after.cache ≡ before.cache

-- What a sync asks the controller, with an error: for a snapshot while there is none, and for
-- changes after that.
abbrev pub Refused : Net → Elchi → ClientError → Text → Type 0
Refused net e error label =
    ((e.cache.version_hash ≡ [])
      × (fetch_snapshot e.client net ≡ err error)
      × (label ≡ text "snapshot"))
    ⊎ ((e.cache.version_hash ≢ [])
        × (check_changes e.client net e.cache.version_hash ≡ err error)
        × (label ≡ text "changes"))

-- Where the call of the controller ends in an error, the sync leaves the cache as it is, so stale
-- answers are given on; the failure, its message and its time are the status, and the counter of
-- sync errors goes up by one under the label of the call.
pub perform_sync-HasFailed :
    (net : Net) (start now : ℕ) (e : Elchi) (error : ClientError) (label : Text)
    → Refused net e error label
    → HasFailed e (perform_sync net start now e) label (message error) now
unfolding perform_sync
perform_sync-HasFailed net start now e error label (inl (empty, refused, l)) =
    rw l (ground (arith, list_eqb_iff e.cache.version_hash []))
perform_sync-HasFailed net start now e error label (inr (some_hash, refused, l)) =
    rw l (ground (arith, list_eqb_iff e.cache.version_hash []))

check_changes-not_modified :
    (c : ElchiClient) (net : Net) (since : Text) (given : Params) (resp : HttpResponse)
    → ((url : Text) → net.parse_url url ≡ done given)
    → ((url : Text) (q : Params) → net.new_request url q ≡ done tt)
    → ((r : HttpRequest) → net.exchange r ≡ done resp)
    → resp.status_code ≡ status_not_modified
    → (changes : DnsChangesResponse) × (check_changes c net since ≡ ok changes)
      × (changes.unchanged ≡ true)
unfolding check_changes
check_changes-not_modified c net since given resp parses creates answers code =
    (unchanged_response, rw (parses, creates, answers, code), refl)

pub unchanged_sync :
    (net : Net) (start now : ℕ) (e : Elchi) (changes : DnsChangesResponse)
    → e.cache.version_hash ≢ []
    → check_changes e.client net e.cache.version_hash ≡ ok changes
    → changes.unchanged ≡ true
    → ((perform_sync net start now e).cache ≡ e.cache)
      × ((perform_sync net start now e).sync_status
          ≡ record { last_sync_time = now; last_sync_status = success; last_error = [] })
unfolding perform_sync
unchanged_sync net start now e changes some_hash answer same =
    ground (arith, list_eqb_iff e.cache.version_hash [])

-- Where the controller answers a check for changes with 304, the sync succeeds and leaves the cache
-- as it is, whatever the body of the response.
perform_sync-not_modified :
    (net : Net) (start now : ℕ) (e : Elchi) (given : Params) (resp : HttpResponse)
    → e.cache.version_hash ≢ []
    → ((url : Text) → net.parse_url url ≡ done given)
    → ((url : Text) (q : Params) → net.new_request url q ≡ done tt)
    → ((r : HttpRequest) → net.exchange r ≡ done resp)
    → resp.status_code ≡ status_not_modified
    → ((perform_sync net start now e).cache ≡ e.cache)
      × ((perform_sync net start now e).sync_status
          ≡ record { last_sync_time = now; last_sync_status = success; last_error = [] })
perform_sync-not_modified net start now e given resp some_hash parses creates answers code =
    let (changes, answer, same) =
      check_changes-not_modified e.client net e.cache.version_hash given resp parses creates answers
        code in
    unchanged_sync net start now e changes some_hash answer same
