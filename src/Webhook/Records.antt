-- ===== src/Webhook/Records.antt =====
-- What handleRecords (webhook.go) lists.
use mathlib.Core.List.{Memᴰ}
use mathlib.Core.List.Memᴰ.{head, tail, not-nil}
use elchi_gslb.Prelude.{
  ℕ, ◌≡◌, refl, sym, subst, true, List, [], ◌∷◌, ◌++◌, ◌==◌, list_eq, nat_eq, list_eqb_iff, arith,
  ◌↔◌, ◌⊎◌, inl, inr, Bool-cases, length,
}
use elchi_gslb.Text.{Text, text, to_lower, to_upper}
use elchi_gslb.Text.Contains.{contains_iff}
use elchi_gslb.Record.{DnsRecord}
use elchi_gslb.Cache.{get_all_records, get_version_hash}
use elchi_gslb.Plugin.{Elchi}
use elchi_gslb.Webhook.{Request, passes, filter_records, Endpoint, handle, status_ok, listing}

-- The filters of a request: an empty one lets everything through. The name is looked for in the
-- lower-case name of a record, and the type is a record's own.
abbrev pub Passes : Text → Text → DnsRecord → Type 0
Passes name type r =
    ((name ≡ []) ⊎ ((p : Text) × (q : Text) × (to_lower r.name ≡ p ++ (name ++ q))))
    × ((type ≡ []) ⊎ (r.type ≡ type))

passes_iff : (name type : Text) (r : DnsRecord) → (passes name type r ≡ true) ↔ Passes name type r
unfolding passes
passes_iff name type r = ground (
  arith,
  list_eqb_iff name [],
  list_eqb_iff type [],
  list_eqb_iff r.type type,
  contains_iff (to_lower r.name) name,
)

kept-Mem :
    (x r : DnsRecord) (rs kept : List DnsRecord) (P : DnsRecord → Type 0)
    → P r
    → (Memᴰ x kept → Memᴰ x rs × P x)
    → Memᴰ x (r ∷ kept)
    → Memᴰ x (r ∷ rs) × P x
kept-Mem x r rs kept P p rest (head e) = (head e, subst P (sym e) p)
kept-Mem x r rs kept P p rest (tail m) = let (n, q) = rest m in (tail n, q)

module _ (name type : Text) (x : DnsRecord) where
  pub filter_records_sound :
      (rs : List DnsRecord) → Memᴰ x (filter_records name type rs) → Memᴰ x rs × Passes name type x
  unfolding filter_records
  filter_records_sound [] h = absurd (not-nil h)
  filter_records_sound (r ∷ rs) h = elim (Bool-cases (passes name type r)) [
    | inl through ↦
        kept-Mem x r rs (filter_records name type rs) (Passes name type)
          ((passes_iff name type r).0 through) (filter_records_sound rs) (rw through at h)
    | inr stopped ↦ let (m, p) = filter_records_sound rs (rw stopped at h) in (tail m, p)
  ]

  pub filter_records_complete :
      (rs : List DnsRecord) → Passes name type x → Memᴰ x rs → Memᴰ x (filter_records name type rs)
  unfolding filter_records
  filter_records_complete [] p m = m
  filter_records_complete (r ∷ rs) p (head e) =
      let through : passes name type r ≡ true =
        (passes_iff name type r).1 (subst (Passes name type) e p) in
      rw through (head e)
  filter_records_complete (r ∷ rs) p (tail m) = elim (Bool-cases (passes name type r)) [
    | inl through ↦ rw through (tail (filter_records_complete rs p m))
    | inr stopped ↦ rw stopped (filter_records_complete rs p m)
  ]

abbrev pub shown : Elchi → Request → List DnsRecord
shown e r = filter_records (to_lower r.name) (to_upper r.type) (get_all_records e.cache)

-- An authorized GET of /records is answered 200 with the zone, the version hash, a list of records and
-- its length. The list has exactly the records of the cache whose lower-case name has the lower-case
-- name of the request in it and whose type is the upper-case type of the request, either where it is
-- given. The cache stays.
pub handle-shown :
    (now : ℕ) (e : Elchi) (r : Request) (x : DnsRecord)
    → r.method ≡ text "GET"
    → r.secret ≡ e.secret
    → ((handle Endpoint.records now e r).1 ≡ record {
      status_code = status_ok;
      payload = listing (record {
        zone = e.zone;
        version_hash = get_version_hash e.cache;
        count = length (shown e r);
        records = shown e r;
      });
    })
      × (Memᴰ x (shown e r)
          ↔ (Memᴰ x (get_all_records e.cache) × Passes (to_lower r.name) (to_upper r.type) x))
      × ((handle Endpoint.records now e r).0.cache ≡ e.cache)
unfolding handle
handle-shown now e r x get secret =
    let all : List DnsRecord = get_all_records e.cache in
    let same : (r.secret == e.secret) ≡ true = (list_eqb_iff r.secret e.secret).1 secret in
    let method : (r.method == text "GET") ≡ true = (list_eqb_iff r.method (text "GET")).1 get in
    (
      rw (same, method) refl,
      (
        (λ m. filter_records_sound (to_lower r.name) (to_upper r.type) x all m),
        (λ (m, p). filter_records_complete (to_lower r.name) (to_upper r.type) x all p m),
      ),
      rw (same, method) refl,
    )
