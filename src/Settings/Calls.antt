-- ===== src/Settings/Calls.antt =====
-- The calls that change the table of workers of main/src/settings.cpp, one by one and together.
use plant_watering.Prelude.{
  ℕ, ◌≡◌, refl, true, false, not, ◌||◌, List, [], ◌∷◌, Option, none, some, ltb, leb, ◌==◌, length,
  min, set, length-append, arith, if_rule, option_rule,
}
use plant_watering.Bluetooth.Message.{Mac}
use plant_watering.Text.{mac_from_hex_string}
use plant_watering.Policy.AutoWatering.{valid_water_interval}
use plant_watering.Settings.{
  WorkerConfig, WorkerTable, Reply, max_worker_count, max_pots_per_device, refuse, mark_dirty,
  initialize_worker, find_worker, change_worker, rename, add_worker, no_node_call,
  add_worker_by_hex, remove_worker_by_hex, grow_pots, update_pot, update_worker_by_hex,
  ensure_worker_configs_for_mac,
}
use plant_watering.Settings.Pots.{grow_pots-IsWorker, update_pot-IsWorker, rename-IsWorker}
use plant_watering.Settings.Validity.{
  IsValid, Keeps, change_worker-AllWorkers, drop_worker-AllWorkers, find_worker-Absent,
  append-AllWorkers, fresh-IsWorker,
}

-- A refused call leaves the table alone, and an accepted one keeps it valid.
abbrev pub GoodReply : WorkerTable → Reply → Type 0
GoodReply t r = IsValid r.table × (r.ok ≡ false → r.table ≡ t)

refuse-GoodReply : (t : WorkerTable) → IsValid t → GoodReply t (refuse t)
refuse-GoodReply t v = (v, λ _. refl)

changed-IsValid :
    (t : WorkerTable) (mac : Mac) (f : WorkerConfig → WorkerConfig) (now : ℕ)
    → Keeps f
    → IsValid t
    → IsValid (mark_dirty t (change_worker t.workers mac f) now)
changed-IsValid t mac f now k v =
    let (all, size) = change_worker-AllWorkers t.workers mac f k v.all_workers in
    record { few = omega (arith, size, v.few); all_workers = all }

add_worker-GoodReply :
    (t : WorkerTable) (mac : Mac) (threshold duration : ℕ) (name : Option (List ℕ)) (now : ℕ)
    → IsValid t
    → GoodReply t (add_worker t mac threshold duration name now)
unfolding add_worker
add_worker-GoodReply t mac threshold duration name now v =
    if_rule (GoodReply t) (ltb 4095 threshold || (duration == 0 || ltb 60 duration))
      (λ _. refuse-GoodReply t v)
      (λ ok.
        option_rule (GoodReply t) (find_worker t.workers mac)
          (λ e.
            if_rule (GoodReply t) (leb max_worker_count (length t.workers))
              (λ _. refuse-GoodReply t v)
              (λ room.
                let text : List ℕ = elim name [ none ↦ [] | some text ↦ text ] in
                let fresh =
                  fresh-IsWorker mac text threshold duration (ground arith) (ground arith)
                    (ground arith) in
                (
                  record {
                    few = ground (
                      arith,
                      length-append t.workers (
                          record (initialize_worker mac text 1) {
                            thresholds = set (initialize_worker mac text 1).thresholds 0 threshold;
                            durations = set (initialize_worker mac text 1).durations 0 duration;
                          }
                          ∷ []),
                    );
                    all_workers =
                        append-AllWorkers t.workers _ v.all_workers
                          (find_worker-Absent t.workers mac e) fresh;
                  },
                  λ h. ground arith,
                )))
          (λ w e.
            (changed-IsValid t mac (rename name) now (rename-IsWorker name) v, λ h. ground arith)))

remove_worker_by_hex-GoodReply :
    (t : WorkerTable) (mac_hex : List ℕ) (now : ℕ)
    → IsValid t
    → GoodReply t (remove_worker_by_hex t mac_hex now)
unfolding remove_worker_by_hex
remove_worker_by_hex-GoodReply t mac_hex now v =
    option_rule (GoodReply t) (mac_from_hex_string mac_hex) (λ _. refuse-GoodReply t v)
      (λ mac _.
        option_rule (GoodReply t) (find_worker t.workers mac) (λ _. refuse-GoodReply t v)
          (λ w _.
            let (all, size, _) = drop_worker-AllWorkers t.workers mac v.all_workers in
            (record { few = omega (arith, size, v.few); all_workers = all }, λ h. ground arith)))

update_worker_by_hex-GoodReply :
    (t : WorkerTable) (mac_hex : List ℕ) (threshold duration interval : ℕ) (name : Option (List ℕ))
    (pot_index : Option ℕ) (now : ℕ)
    → IsValid t
    → GoodReply t (update_worker_by_hex t mac_hex threshold duration interval name pot_index now)
unfolding update_worker_by_hex valid_water_interval
update_worker_by_hex-GoodReply t mac_hex threshold duration interval name pot_index now v =
    option_rule (GoodReply t) (mac_from_hex_string mac_hex) (λ _. refuse-GoodReply t v)
      (λ mac _.
        if_rule (GoodReply t)
          (ltb 4095 threshold
            || ((duration == 0 || ltb 60 duration) || not (valid_water_interval interval)))
          (λ _. refuse-GoodReply t v)
          (λ ok.
            option_rule (GoodReply t) (find_worker t.workers mac) (λ _. refuse-GoodReply t v)
              (λ w _.
                option_rule (GoodReply t) pot_index
                  (λ _. (
                    changed-IsValid t mac (rename name) now (rename-IsWorker name) v,
                    λ h. ground arith,
                  ))
                  (λ pot _.
                    if_rule (GoodReply t) (leb max_pots_per_device pot) (λ _. refuse-GoodReply t v)
                      (λ small. (
                        changed-IsValid t mac (update_pot pot threshold duration interval name) now
                            (λ w'.
                              update_pot-IsWorker pot threshold duration interval name w'
                                (ground arith) (ground arith))
                            v,
                        λ h. ground arith,
                      ))))))

ensure_worker_configs_for_mac-IsValid :
    (t : WorkerTable) (mac : Mac) (pot_count now : ℕ)
    → IsValid t
    → IsValid (ensure_worker_configs_for_mac t mac pot_count now)
unfolding ensure_worker_configs_for_mac
ensure_worker_configs_for_mac-IsValid t mac pot_count now v =
    let count = min pot_count max_pots_per_device in
    if_rule IsValid (pot_count == 0) (λ _. v)
      (λ _.
        option_rule IsValid (find_worker t.workers mac) (λ _. v)
          (λ w _.
            if_rule IsValid (leb count w.pot_count) (λ _. v)
              (λ _.
                changed-IsValid t mac (grow_pots count) now
                  (λ w ok.
                    let (valid, same, _) = grow_pots-IsWorker count w (ground arith) ok in
                    (valid, same))
                  v)))

-- The calls that change the table, from the HTTP API and from a status.
pub data Call : Type 0 where
  add : List ℕ → ℕ → ℕ → Option (List ℕ) → Call
  remove : List ℕ → Call
  update : List ℕ → ℕ → ℕ → ℕ → Option (List ℕ) → Option ℕ → Call
  ensure_pots : Mac → ℕ → Call

unfoldable pub perform : WorkerTable → Call → ℕ → Reply
perform t (add mac_hex threshold duration name) now =
    add_worker_by_hex t mac_hex threshold duration name now
perform t (remove mac_hex) now = remove_worker_by_hex t mac_hex now
perform t (update mac_hex threshold duration interval name pot) now =
    update_worker_by_hex t mac_hex threshold duration interval name pot now
perform t (ensure_pots mac count) now = record {
  table = ensure_worker_configs_for_mac t mac count now;
  ok = true;
  node_call = no_node_call;
}

-- Every call leaves at most eight workers with different addresses, each with one to sixteen pots
-- whose settings are in range, and a call that is refused leaves the table as it was.
pub perform-GoodReply :
    (t : WorkerTable) (c : Call) (now : ℕ) → IsValid t → GoodReply t (perform t c now)
unfolding perform add_worker_by_hex
perform-GoodReply t (add mac_hex threshold duration name) now v =
    option_rule (GoodReply t) (mac_from_hex_string mac_hex) (λ _. refuse-GoodReply t v)
      (λ mac _. add_worker-GoodReply t mac threshold duration name now v)
perform-GoodReply t (remove mac_hex) now v = remove_worker_by_hex-GoodReply t mac_hex now v
perform-GoodReply t (update mac_hex threshold duration interval name pot) now v =
    update_worker_by_hex-GoodReply t mac_hex threshold duration interval name pot now v
perform-GoodReply t (ensure_pots mac count) now v =
    (ensure_worker_configs_for_mac-IsValid t mac count now v, λ h. ground arith)
