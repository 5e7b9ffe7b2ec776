-- ===== src/Cache/View.antt =====
-- RecordCache (cache.go) as the clients of DNS and the controller see it: caches of one zone and one
-- version hash that answer every query alike are the same, whatever the layout of their maps and their
-- counters.
pub mod Laws
use mathlib.Core.Quot
use mathlib.Core.Quot.{Quot, Quot-set}
use native.Mathlib.Nat.{ℕ_set}
use elchi_gslb.Prelude.{
  ℕ, ◌≡◌, ◌↔◌, refl, ap, sym, ◌∙◌, Bool, true, false, List, [], ◌∷◌, ◌++◌, some, any, list_eq,
  nat_eq, is_empty, if◌then◌else◌,
}
use elchi_gslb.Text.{Text}
use elchi_gslb.Name.{normalize_domain}
use elchi_gslb.Record.{DnsRecord, DnsSnapshot, DeleteRecord, Rr}
use elchi_gslb.Cache.{RecordCache, get, update, delete, replace_from_snapshot}
use elchi_gslb.Cache.Merge.{get-update, get-delete}
use elchi_gslb.Cache.Order.{overridden_idem}
use elchi_gslb.Cache.Replace.{get-replace_from_snapshot}
use elchi_gslb.Cache.Spec.{contribution, contributions, overridden, names}

pub rrs-set : IsSet (List Rr)
rrs-set = hlevel ℕ_set

pub text-set : IsSet Text
text-set = hlevel ℕ_set

pub record Alike (c c' : RecordCache) : Type 0 where
  pub zone : c.zone ≡ c'.zone
  pub version : c.version_hash ≡ c'.version_hash
  pub answers : (qname : Text) (q : ℕ) → get c qname q ≡ get c' qname q

abbrev pub View : Type 0
View = Quot Alike

abbrev pub view : RecordCache → View
view c = Quot.mk c

unfoldable pub view_zone : View → Text
view_zone = Quot.lift text-set (λ c. c.zone) (λ c c' h. h.zone)

unfoldable pub view_version : View → Text
view_version = Quot.lift text-set (λ c. c.version_hash) (λ c c' h. h.version)

unfoldable pub view_get : Text → ℕ → View → List Rr
view_get qname q = Quot.lift rrs-set (λ c. get c qname q) (λ c c' h. h.answers qname q)

-- Caches have one view exactly if they are of one zone and one version hash and answer every query
-- alike.
view_iff : (c c' : RecordCache) → (view c ≡ view c') ↔ Alike c c'
view_iff c c' = (
  λ same. record {
    zone = unfold view_zone in ap view_zone same;
    version = unfold view_version in ap view_version same;
    answers = λ qname q. unfold view_get in ap (view_get qname q) same;
  },
  λ h. Quot.sound h,
)

-- The zone of a cache never changes.
pub update-zone :
    (c : RecordCache) (records : List DnsRecord) (ttl now : ℕ)
    → (update c records ttl now).0.zone ≡ c.zone
unfolding update
update-zone c [] ttl now = refl
update-zone c (r ∷ rs) ttl now = refl

pub delete-zone :
    (c : RecordCache) (deletes : List DeleteRecord) (now : ℕ)
    → (delete c deletes now).0.zone ≡ c.zone
unfolding delete
delete-zone c [] now = refl
delete-zone c (d ∷ ds) now = refl

pub replace-zone :
    (c : RecordCache) (s : DnsSnapshot) (ttl now : ℕ)
    → (replace_from_snapshot c (some s) ttl now).0.zone ≡ c.zone
unfolding replace_from_snapshot
replace-zone c s ttl now = refl

-- The methods, on views. The time of a call leaves no trace in a view.
pub update-Alike :
    (records : List DnsRecord) (ttl now now' : ℕ) (c c' : RecordCache)
    → Alike c c'
    → Alike (update c records ttl now).0 (update c' records ttl now').0
update-Alike records ttl now now' c c' h = record {
  zone = update-zone c records ttl now ∙ h.zone ∙ sym (update-zone c' records ttl now');
  version =
      (get-update c records ttl now [] 0).1
      ∙ h.version
      ∙ sym ((get-update c' records ttl now' [] 0).1);
  answers = λ qname q.
      rw
        (
          (get-update c records ttl now qname q).0,
          (get-update c' records ttl now' qname q).0,
          h.answers qname q,
          h.zone,
        )
        refl;
}

pub delete-Alike :
    (dels : List DeleteRecord) (now now' : ℕ) (c c' : RecordCache)
    → Alike c c'
    → Alike (delete c dels now).0 (delete c' dels now').0
delete-Alike dels now now' c c' h = record {
  zone = delete-zone c dels now ∙ h.zone ∙ sym (delete-zone c' dels now');
  version = (get-delete c dels now [] 0).1 ∙ h.version ∙ sym ((get-delete c' dels now' [] 0).1);
  answers = λ qname q.
      rw ((get-delete c dels now qname q).0, (get-delete c' dels now' qname q).0, h.answers qname q)
        refl;
}

pub replace-Alike :
    (s : DnsSnapshot) (ttl now now' : ℕ) (c c' : RecordCache)
    → c.zone ≡ c'.zone
    → Alike
        (replace_from_snapshot c (some s) ttl now).0
        (replace_from_snapshot c' (some s) ttl now').0
replace-Alike s ttl now now' c c' same = record {
  zone = replace-zone c s ttl now ∙ same ∙ sym (replace-zone c' s ttl now');
  version =
      (get-replace_from_snapshot c s ttl now [] 0).1
      ∙ sym ((get-replace_from_snapshot c' s ttl now' [] 0).1);
  answers = λ qname q.
      rw
        (
          (get-replace_from_snapshot c s ttl now qname q).0,
          (get-replace_from_snapshot c' s ttl now' qname q).0,
          same,
        )
        refl;
}

unfoldable pub view_update : List DnsRecord → ℕ → View → View
view_update records ttl =
    Quot.lift Quot-set (λ c. view (update c records ttl 0).0)
      (λ c c' h. Quot.sound (update-Alike records ttl 0 0 c c' h))

unfoldable pub view_delete : List DeleteRecord → View → View
view_delete dels =
    Quot.lift Quot-set (λ c. view (delete c dels 0).0)
      (λ c c' h. Quot.sound (delete-Alike dels 0 0 c c' h))

unfoldable pub view_load : DnsSnapshot → ℕ → View → View
view_load s ttl =
    Quot.lift Quot-set (λ c. view (replace_from_snapshot c (some s) ttl 0).0)
      (λ c c' h. Quot.sound (replace-Alike s ttl 0 0 c c' h.zone))
