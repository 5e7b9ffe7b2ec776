-- ===== src/Examples/Viewing.antt =====
-- Views of caches at concrete inputs.
use elchi_gslb.Prelude.{◌≡◌, [], ◌∷◌, list_eq, nat_eq}
use elchi_gslb.Examples.{asia, asia_back, snapshot, loaded, notification}
use elchi_gslb.Cache.View.{View, view, view_update, view_delete, view_load}
use elchi_gslb.Cache.View.Laws.{view_laws}

abbrev start : View
start = view loaded

view_laws_example :
    (view_update (asia ∷ asia_back ∷ []) 300 start
      ≡ view_update (asia_back ∷ []) 300 (view_update (asia ∷ []) 300 start))
    × (view_update (asia ∷ []) 300 (view_update (asia ∷ []) 300 start)
        ≡ view_update (asia ∷ []) 300 start)
    × (view_delete [] (view_delete notification.deletes start)
        ≡ view_delete notification.deletes (view_delete [] start))
    × (view_load snapshot 300 (view_update (asia ∷ []) 300 start) ≡ view_load snapshot 300 start)
    × (view_load snapshot 300 (view_delete notification.deletes start)
        ≡ view_load snapshot 300 start)
view_laws_example =
    view_laws (asia ∷ []) (asia_back ∷ []) notification.deletes [] snapshot 300 start
