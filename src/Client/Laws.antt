-- ===== src/Client/Laws.antt =====
-- What a response that FetchSnapshot or CheckChanges (client.go) accepts is like.
use elchi_gslb.Prelude.{◌≡◌, ◌≢◌, false, [], list_eq, nat_eq, list_eqb_iff, arith}
use elchi_gslb.Text.{Text}
use elchi_gslb.Client.{DnsChangesResponse, ElchiClient, Net, ok, fetch_snapshot, check_changes}
use elchi_gslb.Record.{DnsSnapshot}

-- A snapshot that is accepted names a zone and a version.
pub fetch_snapshot_complete :
    (c : ElchiClient) (net : Net) (s : DnsSnapshot)
    → fetch_snapshot c net ≡ ok s
    → (s.zone ≢ []) × (s.version_hash ≢ [])
unfolding fetch_snapshot
fetch_snapshot_complete c net s h =
    ground (arith, list_eqb_iff s.zone [], list_eqb_iff s.version_hash [])

-- A response that reports changes does so too.
pub check_changes_complete :
    (c : ElchiClient) (net : Net) (since : Text) (changes : DnsChangesResponse)
    → check_changes c net since ≡ ok changes
    → changes.unchanged ≡ false
    → (changes.zone ≢ []) × (changes.version_hash ≢ [])
unfolding check_changes
check_changes_complete c net since changes h u =
    ground (arith, list_eqb_iff changes.zone [], list_eqb_iff changes.version_hash [])
