-- ===== src/Serve/Counters.antt =====
-- The counters of ServeDNS (elchi.go, metrics.go): requests, hits and misses.
use elchi_gslb.Prelude.{◌+◌, ◌≤◌, ◌≡◌, true, List, [], ◌∷◌, All, list_eq, nat_eq, arith}
use elchi_gslb.Text.{Text}
use elchi_gslb.Plugin.{Elchi, inc}
use elchi_gslb.Serve.{Dns, Query, serve_dns}
use elchi_gslb.Serve.Answers.{is_served}

-- No more hits and misses than requests, for each zone and type.
abbrev pub IsBalanced : Elchi → Type 0
IsBalanced e =
    (z t : Text)
    → e.metrics.cache_hits z t + e.metrics.cache_misses z t ≤ e.metrics.request_count z t

-- As many.
abbrev pub IsExact : Elchi → Type 0
IsExact e =
    (z t : Text)
    → e.metrics.cache_hits z t + e.metrics.cache_misses z t ≡ e.metrics.request_count z t

module _ (dns : Dns) where
  serve_dns-IsBalanced : (e : Elchi) (q : Query) → IsBalanced e → IsBalanced (serve_dns dns e q).0
  unfolding serve_dns inc
  serve_dns-IsBalanced e q h z t = ground (arith, h z t)

  -- ServeDNS over a sequence of queries.
  pub serve_all : Elchi → List Query → Elchi
  serve_all e [] = e
  serve_all e (q ∷ qs) = serve_all (serve_dns dns e q).0 qs

  serve_dns-IsExact :
      (e : Elchi) (q : Query) → is_served q.qtype ≡ true → IsExact e → IsExact (serve_dns dns e q).0
  unfolding serve_dns inc
  serve_dns-IsExact e q s h z t = ground (arith, h z t)

  -- Over any sequence of queries the hits and misses of a zone and type never come to more than
  -- its requests, if they did not before.
  serve_all-IsBalanced : (e : Elchi) (qs : List Query) → IsBalanced e → IsBalanced (serve_all e qs)
  unfolding serve_all
  serve_all-IsBalanced e [] h = h
  serve_all-IsBalanced e (q ∷ qs) h =
      serve_all-IsBalanced (serve_dns dns e q).0 qs (serve_dns-IsBalanced e q h)

  -- If every query is for A, AAAA or CNAME, each request ends in exactly one hit or one miss: where
  -- they came to as many as the requests before, they do so after.
  serve_all-IsExact :
      (e : Elchi) (qs : List Query)
      → All (λ q. is_served q.qtype ≡ true) qs
      → IsExact e
      → IsExact (serve_all e qs)
  unfolding serve_all
  serve_all-IsExact e [] s h = h
  serve_all-IsExact e (q ∷ qs) (s, ss) h =
      serve_all-IsExact (serve_dns dns e q).0 qs ss (serve_dns-IsExact e q s h)
