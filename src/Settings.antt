-- ===== src/Settings.antt =====
-- The configuration of the workers in main/src/settings.cpp, its data in main/include/config.h: the
-- table that every call reads and changes under the configuration mutex. Names are byte strings.
pub mod Runtime
pub mod Pots
pub mod History
pub mod Validity
pub mod Calls
use plant_watering.Prelude.{
  ℕ, zero, suc, ◌+◌, ◌-◌, ◌*◌, ◌/◌, ◌%◌, Bool, true, false, not, ◌&&◌, ◌||◌, List, [], ◌∷◌, ◌++◌,
  Option, none, some, ltb, leb, ◌==◌, if◌then◌else◌, length, min, max, set, replicate, get_or,
}
use plant_watering.Prelude.Bytes.{bytes_eq}
use plant_watering.Prelude.Loops.{for_range}
use plant_watering.Prelude.Words.{next_generation}
use plant_watering.Bluetooth.Message.{Mac}
use plant_watering.Text.{copy_utf8_truncated, mac_from_hex_string}
use plant_watering.Policy.AutoWatering.{
  default_water_interval, valid_water_interval, apply_completed,
}
use plant_watering.Policy.ClockMath.{rebase_timestamp_preserving_age}

abbrev pub max_worker_count : ℕ
max_worker_count = 8

abbrev pub max_pots_per_device : ℕ
max_pots_per_device = 16

abbrev pub utf8_name_storage_bytes : ℕ
utf8_name_storage_bytes = 65

abbrev pub default_threshold : ℕ
default_threshold = 2000

abbrev pub default_duration : ℕ
default_duration = 5

-- The arrays have sixteen entries.
pub record WorkerConfig : Type 0 where
  pub mac : Mac
  pub worker_name : List ℕ
  pub pot_count : ℕ
  pub thresholds : List ℕ
  pub durations : List ℕ
  pub water_intervals : List ℕ
  pub last_auto_watering_utc_sec : List ℕ
  pub pot_names : List (List ℕ)

-- `workers` is the part of `gWorkers` below `gWorkerCount`.
pub record WorkerTable : Type 0 where
  pub workers : List WorkerConfig
  pub dirty_generation : ℕ
  pub dirty_at_us : ℕ

-- What a call asks of the node table of the Bluetooth side afterwards.
pub data NodeCall : Type 0 where
  no_node_call : NodeCall
  ensure_node_exists : Mac → NodeCall
  remove_node_by_mac : Mac → NodeCall

pub record Reply : Type 0 where
  pub table : WorkerTable
  pub ok : Bool
  pub node_call : NodeCall

abbrev pub refuse : WorkerTable → Reply
refuse t = record { table = t; ok = false; node_call = no_node_call }

-- `markDirtyLocked`, with the new workers.
abbrev pub mark_dirty : WorkerTable → List WorkerConfig → ℕ → WorkerTable
mark_dirty t workers now = record {
  workers = workers;
  dirty_generation = next_generation t.dirty_generation;
  dirty_at_us = now;
}

-- The assignments to one pot that `updateWorkerByHex` ends with.
abbrev pub put_pot : WorkerConfig → ℕ → ℕ → ℕ → ℕ → WorkerConfig
put_pot w pot threshold duration interval = record w {
  thresholds = set w.thresholds pot threshold;
  durations = set w.durations pot duration;
  water_intervals = set w.water_intervals pot interval;
}

-- A pot that is new in the configuration.
abbrev pub reset_pot : ℕ → WorkerConfig → WorkerConfig
reset_pot pot w = record (put_pot w pot default_threshold default_duration default_water_interval) {
  last_auto_watering_utc_sec = set w.last_auto_watering_utc_sec pot 0;
  pot_names = set w.pot_names pot [];
}

-- `constrain(n, lo, hi)`.
abbrev pub constrain : ℕ → ℕ → ℕ → ℕ
constrain n lo hi = if ltb n lo then lo else if ltb hi n then hi else n

unfoldable pub initialize_worker : Mac → List ℕ → ℕ → WorkerConfig
unfolding for_range
initialize_worker mac name pot_count =
    let count = constrain pot_count 1 max_pots_per_device in
    for_range count 0
      (λ pot w. put_pot w pot default_threshold default_duration default_water_interval)
      (record {
        mac = mac;
        worker_name = copy_utf8_truncated name utf8_name_storage_bytes;
        pot_count = count;
        thresholds = replicate 16 0;
        durations = replicate 16 0;
        water_intervals = replicate 16 0;
        last_auto_watering_utc_sec = replicate 16 0;
        pot_names = replicate 16 [];
      })

-- `findWorkerLocked`, and the entry that it finds.
unfoldable pub find_worker : List WorkerConfig → Mac → Option WorkerConfig
find_worker [] mac = none
find_worker (w ∷ ws) mac =
    let rest = find_worker ws mac in if bytes_eq w.mac mac then some w else rest

-- The workers after a change of the entry that `findWorkerLocked` finds.
unfoldable pub change_worker :
    List WorkerConfig → Mac → (WorkerConfig → WorkerConfig) → List WorkerConfig
change_worker [] mac f = []
change_worker (w ∷ ws) mac f =
    let rest = change_worker ws mac f in if bytes_eq w.mac mac then f w ∷ ws else w ∷ rest

-- The workers after the ones behind it have moved up.
unfoldable pub drop_worker : List WorkerConfig → Mac → List WorkerConfig
drop_worker [] mac = []
drop_worker (w ∷ ws) mac =
    let rest = drop_worker ws mac in if bytes_eq w.mac mac then ws else w ∷ rest

-- A name that the caller may leave out.
abbrev pub rename : Option (List ℕ) → WorkerConfig → WorkerConfig
rename none w = w
rename (some name) w = record w { worker_name = copy_utf8_truncated name utf8_name_storage_bytes }

abbrev pub rename_pot : ℕ → Option (List ℕ) → WorkerConfig → WorkerConfig
rename_pot pot none w = w
rename_pot pot (some name) w = record w {
  pot_names = set w.pot_names pot (copy_utf8_truncated name utf8_name_storage_bytes);
}

-- `mac` is what `macFromHexString` makes of the text.
unfoldable pub add_worker : WorkerTable → Mac → ℕ → ℕ → Option (List ℕ) → ℕ → Reply
unfolding initialize_worker
add_worker t mac threshold duration name now =
    let accept : List WorkerConfig → Reply = λ workers. record {
      table = mark_dirty t workers now;
      ok = true;
      node_call = ensure_node_exists mac;
    } in
    if ltb 4095 threshold || (duration == 0 || ltb 60 duration)
    then refuse t
    else elim (find_worker t.workers mac) [
      | some w ↦ accept (change_worker t.workers mac (rename name))
      | none ↦
          let fresh = initialize_worker mac (elim name [ none ↦ [] | some text ↦ text ]) 1 in
          let filled = record fresh {
            thresholds = set fresh.thresholds 0 threshold;
            durations = set fresh.durations 0 duration;
          } in
          if leb max_worker_count (length t.workers)
          then refuse t
          else accept (t.workers ++ filled ∷ [])
    ]

unfoldable pub add_worker_by_hex : WorkerTable → List ℕ → ℕ → ℕ → Option (List ℕ) → ℕ → Reply
add_worker_by_hex t mac_hex threshold duration name now = elim (mac_from_hex_string mac_hex) [
  | none ↦ refuse t
  | some mac ↦ add_worker t mac threshold duration name now
]

unfoldable pub remove_worker_by_hex : WorkerTable → List ℕ → ℕ → Reply
remove_worker_by_hex t mac_hex now = elim (mac_from_hex_string mac_hex) [
  | none ↦ refuse t
  | some mac ↦ elim (find_worker t.workers mac) [
    | none ↦ refuse t
    | some w ↦ record {
      table = mark_dirty t (drop_worker t.workers mac) now;
      ok = true;
      node_call = remove_node_by_mac mac;
    }
  ]
]

-- The loop over the pots from `potCount`, with the new count.
unfoldable pub grow_pots : ℕ → WorkerConfig → WorkerConfig
unfolding for_range
grow_pots count w = record (for_range (count - w.pot_count) w.pot_count reset_pot w) {
  pot_count = max w.pot_count count;
}

-- The branch of `updateWorkerByHex` for a pot.
unfoldable pub update_pot : ℕ → ℕ → ℕ → ℕ → Option (List ℕ) → WorkerConfig → WorkerConfig
unfolding grow_pots
update_pot pot threshold duration interval name w =
    rename_pot pot name (put_pot (grow_pots (pot + 1) w) pot threshold duration interval)

-- A negative `potIndex` is `none`.
unfoldable pub update_worker_by_hex :
    WorkerTable → List ℕ → ℕ → ℕ → ℕ → Option (List ℕ) → Option ℕ → ℕ → Reply
unfolding update_pot
update_worker_by_hex t mac_hex threshold duration interval name pot_index now =
    let accept : Mac → (WorkerConfig → WorkerConfig) → Reply = λ mac f. record {
      table = mark_dirty t (change_worker t.workers mac f) now;
      ok = true;
      node_call = no_node_call;
    } in
    elim (mac_from_hex_string mac_hex) [
      | none ↦ refuse t
      | some mac ↦
          if ltb 4095 threshold
            || ((duration == 0 || ltb 60 duration) || not (valid_water_interval interval))
          then refuse t
          else elim (find_worker t.workers mac) [
            | none ↦ refuse t
            | some w ↦ elim pot_index [
              | none ↦ accept mac (rename name)
              | some pot ↦
                  if leb max_pots_per_device pot
                  then refuse t
                  else accept mac (update_pot pot threshold duration interval name)
            ]
          ]
    ]

-- What a status of a worker with more pots than are configured brings about.
unfoldable pub ensure_worker_configs_for_mac : WorkerTable → Mac → ℕ → ℕ → WorkerTable
unfolding grow_pots
ensure_worker_configs_for_mac t mac pot_count now =
    let count = min pot_count max_pots_per_device in
    if pot_count == 0 then t else elim (find_worker t.workers mac) [
      | none ↦ t
      | some w ↦
          if leb count w.pot_count
          then t
          else mark_dirty t (change_worker t.workers mac (grow_pots count)) now
    ]
