-- ===== src/Serve.antt =====
-- ServeDNS (elchi.go).
-- What other packages decide is `Dns`: the zone that a name lies in (plugin.Zones.Matches), whether a
-- query falls through to the next plugin (fall.F.Through) and the names of the query types.
pub mod Answers
pub mod Between
pub mod Counters
pub mod Race
use elchi_gslb.Prelude.{
  ℕ, ◌+◌, Bool, true, false, not, ◌&&◌, ◌||◌, List, [], ◌∷◌, Option, none, some, ◌==◌, nat_eq,
  list_eq, list_eqb, is_empty, if◌then◌else◌,
}
use elchi_gslb.Text.{Text, text}
use elchi_gslb.Record.{Rr, type_a, type_aaaa, type_cname}
use elchi_gslb.Cache.{RecordCache, get}
use elchi_gslb.Plugin.{Elchi, Metrics, inc}

pub record Dns : Type 0 where
  pub zone_matches : Text → Text → Text
  pub fall_through : Text → Bool
  pub type_to_string : ℕ → Text

-- A question, as request.Request gives it.
pub record Query : Type 0 where
  pub name : Text
  pub qtype : ℕ

abbrev pub rcode_success : ℕ
rcode_success = 0

abbrev pub rcode_name_error : ℕ
rcode_name_error = 3

pub record Msg : Type 0 where
  pub rcode : ℕ
  pub authoritative : Bool
  pub answer : List Rr

-- The query is handed to the next plugin, or a message is written and its code returned. That a
-- message cannot be written is only logged.
pub data Outcome : Type 0 where
  next_or_failure : Outcome
  written : Msg → ℕ → Outcome

-- The lookups for each query type, on the caches that the first and the second of them meet: other
-- goroutines may write between them. `none` is a type that the plugin does not serve.
unfoldable pub lookup_rrs : RecordCache → RecordCache → Text → ℕ → Option (List Rr)
lookup_rrs first second qname qtype =
    if qtype == type_a || qtype == type_aaaa
    then (let cname_rrs = get first qname type_cname in
        if not (is_empty cname_rrs) then some cname_rrs else some (get second qname qtype))
    else if qtype == type_cname
    then some (get first qname type_cname)
    else none

abbrev count_request : Text → Elchi → Elchi
count_request label e = record e {
  metrics = record e.metrics { request_count = inc e.zone label e.metrics.request_count };
}

abbrev count_miss : Text → Elchi → Elchi
count_miss label e = record e {
  metrics = record e.metrics { cache_misses = inc e.zone label e.metrics.cache_misses };
}

abbrev count_hit : Text → Elchi → Elchi
count_hit label e = record e {
  metrics = record e.metrics { cache_hits = inc e.zone label e.metrics.cache_hits };
}

module _ (dns : Dns) where
  -- What ServeDNS does behind its lookups.
  abbrev reply : Elchi → Query → Option (List Rr) → Elchi × Outcome
  reply e q none = (e, next_or_failure)
  reply e q (some []) =
      let missed = count_miss (dns.type_to_string q.qtype) e in
      if dns.fall_through q.name then (missed, next_or_failure) else (
        missed,
        written (record { rcode = rcode_name_error; authoritative = true; answer = [] })
            rcode_name_error,
      )
  reply e q (some (rr ∷ rrs)) = (
    count_hit (dns.type_to_string q.qtype) e,
    written (record { rcode = rcode_success; authoritative = true; answer = rr ∷ rrs })
        rcode_success,
  )

  -- ServeDNS, where the cache is `second` at the second lookup.
  unfoldable pub serve_dns_between : RecordCache → Elchi → Query → Elchi × Outcome
  unfolding lookup_rrs list_eqb
  serve_dns_between second e q =
      if dns.zone_matches e.zone q.name == []
      then (record e { cache = second }, next_or_failure)
      else reply (count_request (dns.type_to_string q.qtype) (record e { cache = second })) q
          (lookup_rrs e.cache second q.name q.qtype)

  -- ServeDNS, where nothing is written meanwhile.
  unfoldable pub serve_dns : Elchi → Query → Elchi × Outcome
  unfolding serve_dns_between
  serve_dns e q = serve_dns_between e.cache e q
