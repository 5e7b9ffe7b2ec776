-- ===== src/Cache/View/Laws.antt =====
-- How the methods of RecordCache (cache.go) compose, as equations of views.
use mathlib.Core.Quot
use mathlib.Core.Quot.{Quot, Quot-set}
use elchi_gslb.Prelude.{ℕ, ◌≡◌, refl, sym, ◌∙◌, List, [], ◌∷◌, ◌++◌, list_eq, nat_eq, arith}
use elchi_gslb.Text.{Text}
use elchi_gslb.Name.{normalize_domain}
use elchi_gslb.Record.{DnsRecord, DnsSnapshot, DeleteRecord, Rr}
use elchi_gslb.Cache.{RecordCache, get, update, delete}
use elchi_gslb.Cache.Merge.{get-update, get-delete}
use elchi_gslb.Cache.Order.{overridden_idem}
use elchi_gslb.Cache.Spec.{overridden}
use elchi_gslb.Cache.View.{
  Alike, View, view_update, view_delete, view_load, update-zone, delete-zone, replace-Alike,
}

overridden-append :
    (zone : Text) (ttl : ℕ) (d : Text) (q : ℕ) (rs rs' : List DnsRecord) (old : List Rr)
    → overridden zone ttl d q (rs ++ rs') old
      ≡ overridden zone ttl d q rs' (overridden zone ttl d q rs old)
unfolding overridden
overridden-append zone ttl d q [] rs' old = refl
overridden-append zone ttl d q (r ∷ rs) rs' old = overridden-append zone ttl d q rs rs' _

module _ (c : RecordCache) where
  update-append :
      (rs rs' : List DnsRecord) (ttl : ℕ)
      → Alike (update c (rs ++ rs') ttl 0).0 (update (update c rs ttl 0).0 rs' ttl 0).0
  update-append rs rs' ttl =
      let first : RecordCache = (update c rs ttl 0).0 in
      record {
        zone =
            update-zone c (rs ++ rs') ttl 0
            ∙ sym (update-zone first rs' ttl 0 ∙ update-zone c rs ttl 0);
        version =
            (get-update c (rs ++ rs') ttl 0 [] 0).1
            ∙ sym ((get-update first rs' ttl 0 [] 0).1 ∙ (get-update c rs ttl 0 [] 0).1);
        answers = λ qname q.
            (get-update c (rs ++ rs') ttl 0 qname q).0
            ∙ overridden-append c.zone ttl (normalize_domain qname) q rs rs' (get c qname q)
            ∙ sym (
                (get-update first rs' ttl 0 qname q).0
                ∙ rw ((get-update c rs ttl 0 qname q).0, update-zone c rs ttl 0) refl);
      }

  update_idem :
      (rs : List DnsRecord) (ttl : ℕ)
      → Alike (update (update c rs ttl 0).0 rs ttl 0).0 (update c rs ttl 0).0
  update_idem rs ttl =
      let first : RecordCache = (update c rs ttl 0).0 in
      record {
        zone = update-zone first rs ttl 0;
        version = (get-update first rs ttl 0 [] 0).1;
        answers = λ qname q.
            (get-update first rs ttl 0 qname q).0
            ∙ rw ((get-update c rs ttl 0 qname q).0, update-zone c rs ttl 0)
                (overridden_idem c.zone ttl (normalize_domain qname) q rs (get c qname q));
      }

  delete_comm :
      (dels dels' : List DeleteRecord)
      → Alike (delete (delete c dels 0).0 dels' 0).0 (delete (delete c dels' 0).0 dels 0).0
  delete_comm dels dels' =
      let first : RecordCache = (delete c dels 0).0 in
      let other : RecordCache = (delete c dels' 0).0 in
      record {
        zone =
            delete-zone first dels' 0
            ∙ delete-zone c dels 0
            ∙ sym (delete-zone other dels 0 ∙ delete-zone c dels' 0);
        version =
            (get-delete first dels' 0 [] 0).1
            ∙ (get-delete c dels 0 [] 0).1
            ∙ sym ((get-delete other dels 0 [] 0).1 ∙ (get-delete c dels' 0 [] 0).1);
        answers = λ qname q. ground (
          arith,
          (get-delete first dels' 0 qname q).0,
          (get-delete other dels 0 qname q).0,
          (get-delete c dels 0 qname q).0,
          (get-delete c dels' 0 qname q).0,
        );
      }

-- As views, which have the zone, the version hash and the answer to every query: an update by two lists
-- of records, one after the other with no deletion between, is one by both; a repeated update is one;
-- deletions with nothing between them may come in any order; and a snapshot forgets an update and a
-- deletion before it.
pub view_laws :
    (rs rs' : List DnsRecord) (dels dels' : List DeleteRecord) (s : DnsSnapshot) (ttl : ℕ)
    (v : View)
    → (view_update (rs ++ rs') ttl v ≡ view_update rs' ttl (view_update rs ttl v))
      × (view_update rs ttl (view_update rs ttl v) ≡ view_update rs ttl v)
      × (view_delete dels' (view_delete dels v) ≡ view_delete dels (view_delete dels' v))
      × (view_load s ttl (view_update rs ttl v) ≡ view_load s ttl v)
      × (view_load s ttl (view_delete dels v) ≡ view_load s ttl v)
unfolding view_update view_delete view_load
view_laws rs rs' dels dels' s ttl =
    Quot.ind (λ v. hlevel Quot-set)
      (λ c. (
        Quot.sound (update-append c rs rs' ttl),
        Quot.sound (update_idem c rs ttl),
        Quot.sound (delete_comm c dels dels'),
        Quot.sound (replace-Alike s ttl 0 0 (update c rs ttl 0).0 c (update-zone c rs ttl 0)),
        Quot.sound (replace-Alike s ttl 0 0 (delete c dels 0).0 c (delete-zone c dels 0)),
      ))
