-- ===== src/Mock/Requests.antt =====
-- What the requests of ElchiClient (client.go) carry.
use elchi_gslb.Prelude.{
  ◌≡◌, ◌∙◌, refl, false, List, [], ◌∷◌, lookup, insert, lookup-insert, ◌==◌, nat_eq, list_eq,
  list_eqb, if◌then◌else◌, arith,
}
use elchi_gslb.Text.{Text, text, join}
use elchi_gslb.Client.{ElchiClient, Params, add_node_ip, add_regions, region_params, sign_request}
use elchi_gslb.Mock.{get_value}

get_value-insert :
    (k j v : Text) (q : Params) → get_value j (insert k v q) ≡ (if k == j then v else get_value j q)
unfolding get_value
get_value-insert k j v q = ground (arith, lookup-insert k j v q)

pub get_value-sign_request :
    (c : ElchiClient) → get_value (text "X-Elchi-Secret") (sign_request c) ≡ c.secret
unfolding get_value sign_request lookup list_eqb
get_value-sign_request c = refl

get_value-region_params :
    (j : Text) (rs : List Text) (q : Params)
    → (text "regions" == j) ≡ false
    → get_value j (region_params rs q) ≡ get_value j q
unfolding region_params
get_value-region_params j [] q h = refl
get_value-region_params j (r ∷ []) q h =
    ground (arith, get_value-insert (text "regions") j (join (r ∷ []) (text ",")) q)
get_value-region_params j (r ∷ s ∷ rs) q h =
    ground (arith, get_value-insert (text "regions") j (join (r ∷ s ∷ rs) (text ",")) q)

get_value-add_node_ip :
    (c : ElchiClient) (j : Text) (q : Params)
    → (text "node_ip" == j) ≡ false
    → get_value j (add_node_ip c q) ≡ get_value j q
unfolding add_node_ip
get_value-add_node_ip c j q h = ground (arith, get_value-insert (text "node_ip") j c.node_ip q)

-- The regions and the address of the node stand beside the other parameters.
get_value-add :
    (c : ElchiClient) (j : Text) (q : Params)
    → (text "regions" == j) ≡ false
    → (text "node_ip" == j) ≡ false
    → get_value j (add_regions c (add_node_ip c q)) ≡ get_value j q
unfolding add_regions
get_value-add c j q other_regions other_node =
    get_value-region_params j c.regions (add_node_ip c q) other_regions
    ∙ get_value-add_node_ip c j q other_node

pub get_value-zone :
    (c : ElchiClient) (q : Params)
    → get_value (text "zone") (add_regions c (add_node_ip c (insert (text "zone") c.zone q)))
      ≡ c.zone
unfolding list_eqb
get_value-zone c q =
    get_value-add c (text "zone") (insert (text "zone") c.zone q) refl refl
    ∙ get_value-insert (text "zone") (text "zone") c.zone q

module _ (c : ElchiClient) (since : Text) (q : Params) where
  abbrev pub changes_query : Params
  changes_query =
      add_regions c (add_node_ip c (insert (text "since") since (insert (text "zone") c.zone q)))

  pub get_value-since : get_value (text "since") changes_query ≡ since
  unfolding list_eqb
  get_value-since =
      get_value-add c (text "since") _ refl refl
      ∙ get_value-insert (text "since") (text "since") since (insert (text "zone") c.zone q)

  pub get_value-since_zone : get_value (text "zone") changes_query ≡ c.zone
  unfolding list_eqb
  get_value-since_zone =
      get_value-add c (text "zone") _ refl refl
      ∙ get_value-insert (text "since") (text "zone") since (insert (text "zone") c.zone q)
      ∙ get_value-insert (text "zone") (text "zone") c.zone q
