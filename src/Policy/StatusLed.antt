-- ===== src/Policy/StatusLed.antt =====
-- main/include/StatusLed.h: which pattern the status LED shows, and where in the pattern it is.
-- Times are `millis()`, which wraps. The brightness of the breathing pattern is computed with
-- `float` and `cosf`; it is a parameter here.
use plant_watering.Prelude.{
  ℕ, ◌+◌, ◌%◌, ◌<◌, ◌≡◌, ◌↔◌, ◌⊎◌, Bool, true, false, not, ◌&&◌, ◌||◌, List, [], ◌∷◌, arith, ltb,
  leb, if◌then◌else◌,
}
use plant_watering.Prelude.Words.{sub32, u32_mod}

pub data Pattern : Type 0 where
  off syncing watering wifi_breathing wifi_connected tank_low ota_updating : Pattern

pub Pattern-discrete : Discrete Pattern
Pattern-discrete = hlevel

abbrev connected_flash_ms : ℕ
connected_flash_ms = 250

pub record Inputs : Type 0 where
  pub ota_active : Bool
  pub tank_sensor_ready : Bool
  pub tank_is_low : Bool
  pub wifi_is_connected : Bool
  pub wifi_just_connected : Bool
  pub is_watering : Bool
  pub is_syncing : Bool

pub record ConnectionState : Type 0 where
  pub was_connected : Bool
  pub flash_active : Bool
  pub flash_started_ms : ℕ

pub record PatternState : Type 0 where
  pub pattern : Pattern
  pub started_ms : ℕ
  pub initialized : Bool

-- The assignments before the timeout test.
unfoldable pub note_connection : ConnectionState → Bool → ℕ → ConnectionState
note_connection s connected now =
    let seen = record s { was_connected = connected } in
    if connected && not s.was_connected
    then record seen { flash_active = true; flash_started_ms = now }
    else if not connected
    then record seen { flash_active = false }
    else seen

unfoldable pub expire_flash : ConnectionState → ℕ → ConnectionState
expire_flash s now =
    if s.flash_active && leb connected_flash_ms (sub32 now s.flash_started_ms)
    then record s { flash_active = false }
    else s

-- The returned value is the field `flash_active` of the new state.
unfoldable pub update_connection_flash : ConnectionState → Bool → ℕ → ConnectionState
unfolding note_connection expire_flash
update_connection_flash s connected now = expire_flash (note_connection s connected now) now

-- The new state and the elapsed time.
unfoldable pub update_pattern_phase : PatternState → Pattern → ℕ → PatternState × ℕ
update_pattern_phase s selected now =
    let same : Bool = elim (Pattern-discrete selected s.pattern) [ yes h ↦ true | no h ↦ false ] in
    let s' : PatternState =
      if not s.initialized || not same
      then record { pattern = selected; started_ms = now; initialized = true }
      else s in
    (s', sub32 now s'.started_ms)

unfoldable pub select_pattern : Inputs → Pattern
select_pattern i =
    if i.ota_active
    then ota_updating
    else if i.tank_sensor_ready && i.tank_is_low
    then tank_low
    else if not i.wifi_is_connected
    then wifi_breathing
    else if i.wifi_just_connected
    then wifi_connected
    else if i.is_watering
    then watering
    else if i.is_syncing
    then syncing
    else off

abbrev full_if : Bool → ℕ
full_if b = if b then 255 else 0

unfoldable pub pattern_brightness : (ℕ → ℕ) → Pattern → ℕ → ℕ
pattern_brightness breathing ota_updating ms = full_if (ltb (ms % 200) 100)
pattern_brightness breathing tank_low ms = full_if (ltb (ms % 1000) 500)
pattern_brightness breathing wifi_breathing ms = breathing ms
pattern_brightness breathing wifi_connected ms = full_if (ltb ms connected_flash_ms)
pattern_brightness breathing watering ms =
    let phase = ms % 3000 in
    full_if
      (ltb phase 100 || ((leb 200 phase && ltb phase 300) || (leb 400 phase && ltb phase 500)))
pattern_brightness breathing syncing ms = full_if (ltb (ms % 3000) 300)
pattern_brightness breathing off ms = 0

-- The flash is lit exactly while the station is connected and either has just come up or came up
-- less than the flash time ago with the flash still on; in that state its start is remembered.
pub update_connection_flash_iff :
    (s : ConnectionState) (connected : Bool) (now : ℕ)
    → let s' = update_connection_flash s connected now in
      ((s'.flash_active ≡ true) ↔ (
        (connected ≡ true)
        × ((s.was_connected ≡ false)
            ⊎ ((s.flash_active ≡ true) × (sub32 now s.flash_started_ms < connected_flash_ms)))))
      × (s'.was_connected ≡ connected)
unfolding update_connection_flash
update_connection_flash_iff s connected now = ground arith

unfoldable pub flash_outputs : ConnectionState → List ℕ → List Bool
flash_outputs s [] = []
flash_outputs s (now ∷ later) =
    let s' = update_connection_flash s true now in s'.flash_active ∷ flash_outputs s' later

abbrev pub AllFalse : List Bool → Type 0
AllFalse [] = Unit {0}
AllFalse (b ∷ bs) = (b ≡ false) × AllFalse bs

-- The flash comes once for a connection: when it has ended, then as long as the station stays
-- connected no later update lights it again, also not when the millisecond counter wraps.
pub flash_once :
    (s : ConnectionState) (times : List ℕ)
    → s.was_connected ≡ true
    → s.flash_active ≡ false
    → AllFalse (flash_outputs s times)
unfolding flash_outputs update_connection_flash
flash_once s [] w f = tt
flash_once s (now ∷ later) w f =
    ground (arith, flash_once (update_connection_flash s true now) later)

-- What each selected pattern says of the inputs.
abbrev pub Shows : Inputs → Pattern → Type 0
Shows i ota_updating = i.ota_active ≡ true
Shows i tank_low = (i.ota_active ≡ false) × (i.tank_sensor_ready ≡ true) × (i.tank_is_low ≡ true)
Shows i wifi_breathing = (i.ota_active ≡ false) × (i.wifi_is_connected ≡ false)
Shows i wifi_connected = (i.wifi_is_connected ≡ true) × (i.wifi_just_connected ≡ true)
Shows i watering =
    (i.ota_active ≡ false)
    × (i.wifi_is_connected ≡ true)
    × (i.wifi_just_connected ≡ false)
    × (i.is_watering ≡ true)
Shows i syncing = (i.is_watering ≡ false) × (i.is_syncing ≡ true)
Shows i off =
    (i.ota_active ≡ false)
    × ((i.tank_sensor_ready ≡ false) ⊎ (i.tank_is_low ≡ false))
    × (i.wifi_is_connected ≡ true)
    × (i.wifi_just_connected ≡ false)
    × (i.is_watering ≡ false)
    × (i.is_syncing ≡ false)

-- Whatever pattern is selected holds of the inputs; a warning of a low tank is hidden by an update
-- alone; and the LED is off only if there is nothing to tell.
pub select_pattern-Shows :
    (i : Inputs)
    → Shows i (select_pattern i)
      × ((select_pattern i ≡ tank_low)
          ↔ ((i.ota_active ≡ false) × (i.tank_sensor_ready ≡ true) × (i.tank_is_low ≡ true)))
unfolding select_pattern
select_pattern-Shows i = ground arith

-- While the selected pattern stays the same, its phase advances by the time that passes, modulo
-- the counter's wrap; when it changes, it starts at 0.
pub update_pattern_phase_advances :
    (s : PatternState) (first second : Pattern) (now later : ℕ)
    → now < u32_mod
    → later < u32_mod
    → let (s', phase) = update_pattern_phase s first now in
      let (s'', phase') = update_pattern_phase s' second later in
      (first ≡ second → s.started_ms < u32_mod → phase' ≡ (phase + sub32 later now) % u32_mod)
      × (¬ (first ≡ second) → phase' ≡ 0)
      × (s''.pattern ≡ second)
unfolding update_pattern_phase
update_pattern_phase_advances s first second now later h k = ground arith
