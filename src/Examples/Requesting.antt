-- ===== src/Examples/Requesting.antt =====
-- Requests of the client at concrete inputs.
use elchi_gslb.Prelude.{◌≡◌, ◌↔◌, refl, false, [], ◌∷◌, list_eq, nat_eq}
use elchi_gslb.Text.{text}
use elchi_gslb.Client.{ElchiClient, Params, ok, fetch_snapshot}
use elchi_gslb.Client.Requests.{IsFetched, fetch_snapshot_iff}
use elchi_gslb.Examples.{snapshot, controller}

abbrev client : ElchiClient
client = record {
  endpoint = text "http://controller:1052";
  zone = text "gslb.elchi";
  secret = text "test-secret-key";
  node_ip = text "10.0.0.9";
  regions = text "asya" ∷ text "avrupa" ∷ [];
  timeout = 4000000000;
  tls_skip_verify = false;
}

fetch_snapshot_iff_example :
    (fetch_snapshot client (controller 200) ≡ ok snapshot)
    ↔ IsFetched client (controller 200) snapshot
fetch_snapshot_iff_example = fetch_snapshot_iff client (controller 200) snapshot

fetched : fetch_snapshot client (controller 200) ≡ ok snapshot
unfolding fetch_snapshot
fetched = refl

-- The endpoint's own zone is replaced.
abbrev given : Params
given = (text "zone", text "other") ∷ (text "debug", text "1") ∷ []
