-- ===== src/Webhook/Torn.antt =====
-- handleRecords (webhook.go) reads the cache twice: a snapshot that is loaded between the two.
use mathlib.Core.List.{Memᴰ}
use elchi_gslb.Prelude.{
  ℕ, ◌≡◌, ◌≢◌, refl, ap, sym, subst, ◌∙◌, true, List, [], some, ◌==◌, list_eq, nat_eq, list_eqb_iff,
  length,
}
use elchi_gslb.Text.{Text, text, to_lower, to_upper}
use elchi_gslb.Record.{DnsRecord, DnsSnapshot}
use elchi_gslb.Cache.{RecordCache, get_all_records, get_version_hash, replace_from_snapshot}
use elchi_gslb.Cache.Replace.{get-replace_from_snapshot}
use elchi_gslb.Plugin.{Elchi}
use elchi_gslb.Webhook.{
  Request, Response, Payload, RecordsResponse, handle_records, handle_records_between, status_ok,
}
use elchi_gslb.Webhook.Records.{Passes, shown, filter_records_sound, filter_records_complete}

abbrev pub reloaded : ℕ → Elchi → DnsSnapshot → Elchi
reloaded later e s = record e { cache = (replace_from_snapshot e.cache (some s) e.ttl later).0 }

-- A response 200 of /records with this content.
abbrev pub lists : RecordsResponse → Response
lists content = record { status_code = status_ok; payload = Payload.listing content }

-- The version and the records of a response.
abbrev response_version : Response → Text
response_version response = elim response.payload [
  | Payload.error message ↦ []
  | Payload.notified n ↦ []
  | Payload.health h ↦ []
  | Payload.listing content ↦ content.version_hash
]

abbrev response_records : Response → List DnsRecord
response_records response = elim response.payload [
  | Payload.error message ↦ []
  | Payload.notified n ↦ []
  | Payload.health h ↦ []
  | Payload.listing content ↦ content.records
]

-- The answer to a GET, where GetAllRecords reads `first`.
answer_between :
    (first : RecordCache) (now : ℕ) (e : Elchi) (r : Request)
    → r.method ≡ text "GET"
    → (handle_records_between first now e r).1
      ≡ lists (record {
        zone = e.zone;
        version_hash = get_version_hash e.cache;
        count = length (shown (record e { cache = first }) r);
        records = shown (record e { cache = first }) r;
      })
unfolding handle_records_between
answer_between first now e r get =
    let method : (r.method == text "GET") ≡ true = (list_eqb_iff r.method (text "GET")).1 get in
    rw method refl

answer :
    (now : ℕ) (e : Elchi) (r : Request)
    → r.method ≡ text "GET"
    → (handle_records now e r).1
      ≡ lists (record {
        zone = e.zone;
        version_hash = get_version_hash e.cache;
        count = length (shown e r);
        records = shown e r;
      })
unfolding handle_records
answer now e r get = answer_between e.cache now e r get

-- A GET of /records during which a snapshot of another version is loaded, whose records leave out one
-- that the cache lists and the filters of the request pass: the response is 200 with the version of the
-- snapshot and the record that it left out, so that it is neither what handleRecords answers before the
-- load nor what it answers after it.
pub handle_records_between-torn :
    (now later : ℕ) (e : Elchi) (r : Request) (s : DnsSnapshot) (x : DnsRecord)
    → r.method ≡ text "GET"
    → s.version_hash ≢ get_version_hash e.cache
    → Memᴰ x (get_all_records e.cache)
    → Passes (to_lower r.name) (to_upper r.type) x
    → ¬ Memᴰ x (get_all_records (reloaded later e s).cache)
    → ((content : RecordsResponse) × ((handle_records_between e.cache now (reloaded later e s) r).1
          ≡ lists content)
        × (content.version_hash ≡ s.version_hash)
        × Memᴰ x content.records)
      × ((handle_records_between e.cache now (reloaded later e s) r).1 ≢ (handle_records now e r).1)
      × ((handle_records_between e.cache now (reloaded later e s) r).1
          ≢ (handle_records now (reloaded later e s) r).1)
handle_records_between-torn now later e r s x get other there passes gone =
    let after : Elchi = reloaded later e s in
    let between = answer_between e.cache now after r get in
    let version : get_version_hash after.cache ≡ s.version_hash =
      (get-replace_from_snapshot e.cache s e.ttl later [] 0).1 in
    let given : Memᴰ x (shown e r) =
      filter_records_complete (to_lower r.name) (to_upper r.type) x (get_all_records e.cache) passes
        there in
    (
      (_, between, version, given),
      λ same. other (sym version ∙ ap response_version (sym between ∙ same ∙ answer now e r get)),
      λ same.
          gone
            (filter_records_sound (to_lower r.name) (to_upper r.type) x
              (get_all_records after.cache)
              (subst (Memᴰ x) (ap response_records (sym between ∙ same ∙ answer now after r get))
                given)).0,
    )
