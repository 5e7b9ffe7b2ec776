-- ===== src/Record.antt =====
-- The records of the API and of the answers: DNSRecord and DNSSnapshot (client.go), DeleteRecord and
-- buildDNSRecords (cache.go), with the resource records of the dns package that they fill.
pub mod Build
use elchi_gslb.Prelude.{ℕ, Bool, true, false, ◌≡◌, List, Eq, list_eq, nat_eq}
use elchi_gslb.Text.{Text, text}
use elchi_gslb.Ip.{Ip}

pub record DnsRecord : Type 0 where
  pub name : Text
  pub type : Text
  pub ttl : ℕ
  pub ips : List Text
  pub failover : Text

pub record DeleteRecord : Type 0 where
  pub name : Text
  pub type : Text

pub record DnsSnapshot : Type 0 where
  pub zone : Text
  pub version_hash : Text
  pub records : List DnsRecord

-- The numbers of the dns package.
abbrev pub type_a : ℕ
type_a = 1

abbrev pub type_cname : ℕ
type_cname = 5

abbrev pub type_aaaa : ℕ
type_aaaa = 28

abbrev pub class_inet : ℕ
class_inet = 1

abbrev pub record_type_aaaa : Text
record_type_aaaa = text "AAAA"

pub record RrHeader : Type 0 where
  pub name : Text
  pub rrtype : ℕ
  pub class : ℕ
  pub ttl : ℕ

-- The three kinds of dns.RR that the plugin makes.
pub data Rr : Type 0 where
  a : RrHeader → Ip → Rr
  aaaa : RrHeader → Ip → Rr
  cname : RrHeader → Text → Rr

-- rr.Header()
abbrev pub header : Rr → RrHeader
header (a h ip) = h
header (aaaa h ip) = h
header (cname h target) = h
