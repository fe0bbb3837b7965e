-- ===== src/Settings/Runtime.antt =====
-- The runtime state of main/src/settings.cpp: the automatic mode with the record that survives a
-- reset, and the upkeep of the Wi-Fi connection. Times are microseconds.
use plant_watering.Prelude.{
  ℕ, zero, suc, ◌+◌, ◌*◌, ◌≤◌, ◌<◌, ◌≡◌, refl, ◌≢◌, Bool, true, false, not, ◌&&◌, ◌||◌, List, [],
  ◌∷◌, arith, ltb, leb, ◌==◌, if◌then◌else◌, min, get_or,
}
use plant_watering.Policy.AutoRecovery.{
  ResetReason, AutoRecoveryRecord, should_resume, set_armed, make_record, record_is_valid,
}

-- `gRuntime.autoEnabled` and the retained record.
pub record AutoMode : Type 0 where
  pub auto_enabled : Bool
  pub retained : AutoRecoveryRecord

-- `setAutoEnabled`: the states after its assignments, in order. A reset can fall between them.
unfoldable pub set_auto_enabled : Bool → AutoMode → List AutoMode
set_auto_enabled enabled s =
    let armed : AutoMode → AutoMode = λ m. record m { retained = set_armed enabled m.retained } in
    let switched : AutoMode → AutoMode = λ m. record m { auto_enabled = enabled } in
    if enabled then switched s ∷ armed (switched s) ∷ [] else armed s ∷ switched (armed s) ∷ []

-- A reset resumes automatic mode only where it was on.
abbrev pub Retains : AutoMode → Type 0
Retains s = (reason : ResetReason) → should_resume reason s.retained ≡ true → s.auto_enabled ≡ true

abbrev pub AllRetain : List AutoMode → Type 0
AllRetain [] = Unit {0}
AllRetain (s ∷ ss) = Retains s × AllRetain ss

disarmed :
    (reason : ResetReason) (r : AutoRecoveryRecord)
    → should_resume reason (set_armed false r) ≡ false
unfolding should_resume set_armed make_record record_is_valid
disarmed reason r = ground arith

-- At no moment of a switch can a reset turn automatic mode on that was not on, or undo that it was
-- turned off.
pub set_auto_enabled-Retains :
    (enabled : Bool) (s : AutoMode) → Retains s → AllRetain (set_auto_enabled enabled s)
unfolding set_auto_enabled
set_auto_enabled-Retains true s h = (λ reason r. refl, (λ reason r. refl, tt))
set_auto_enabled-Retains false s h =
    let never : (reason : ResetReason) → should_resume reason (set_armed false s.retained) ≡ false =
      λ reason. disarmed reason s.retained in
    (λ reason r. ground (arith, never reason), (λ reason r. ground (arith, never reason), tt))

pub record WifiState : Type 0 where
  pub credentials_available : Bool
  pub was_connected : Bool
  pub reconnect_attempt : ℕ
  pub next_reconnect_us : ℕ

abbrev pub wifi_reconnect_delays_ms : List ℕ
wifi_reconnect_delays_ms = 5000 ∷ 15000 ∷ 30000 ∷ 60000 ∷ []

-- `WiFi.reconnect()` and `clockRequestNtpSync()`; the returned value is `request_ntp`.
pub record WifiOutcome : Type 0 where
  pub wifi : WifiState
  pub reconnect : Bool
  pub request_ntp : Bool

abbrev pub delay_us : ℕ → ℕ
delay_us index = get_or wifi_reconnect_delays_ms index 0 * 1000

unfoldable pub service_wifi_maintenance : WifiState → Bool → ℕ → WifiOutcome
service_wifi_maintenance s connected now =
    if connected
    then record {
      wifi = record s { was_connected = true; reconnect_attempt = 0; next_reconnect_us = 0 };
      reconnect = false;
      request_ntp = not s.was_connected;
    }
    else if s.was_connected || s.next_reconnect_us == 0
    then record {
      wifi = record s {
        was_connected = false;
        reconnect_attempt = 0;
        next_reconnect_us = now + delay_us 0;
      };
      reconnect = false;
      request_ntp = false;
    }
    else if s.credentials_available && leb s.next_reconnect_us now
    then record {
      wifi = record s {
        next_reconnect_us = now + delay_us (min (s.reconnect_attempt + 1) 3);
        reconnect_attempt =
            if ltb s.reconnect_attempt 3 then s.reconnect_attempt + 1 else s.reconnect_attempt;
      };
      reconnect = true;
      request_ntp = false;
    }
    else record { wifi = s; reconnect = false; request_ntp = false }

-- The outcomes of a series of calls, each with the status and the time.
unfoldable pub service_wifi_calls : WifiState → List (Bool × ℕ) → List WifiOutcome
service_wifi_calls s [] = []
service_wifi_calls s (call ∷ calls) =
    let o = service_wifi_maintenance s call.0 call.1 in o ∷ service_wifi_calls o.wifi calls

-- Every call comes before a moment.
abbrev pub AllBefore : ℕ → List (Bool × ℕ) → Type 0
AllBefore end [] = Unit {0}
AllBefore end (call ∷ calls) = (call.1 < end) × AllBefore end calls

abbrev pub AllOffline : List (Bool × ℕ) → Type 0
AllOffline [] = Unit {0}
AllOffline (call ∷ calls) = (call.0 ≡ false) × AllOffline calls

abbrev pub NoReconnect : List WifiOutcome → Type 0
NoReconnect [] = Unit {0}
NoReconnect (o ∷ os) = (o.reconnect ≡ false) × NoReconnect os

long_delay : (attempt : ℕ) → 15000000 ≤ delay_us (min (attempt + 1) 3)
long_delay zero = omega arith
long_delay (suc zero) = omega arith
long_delay (suc (suc attempt)) =
    let last : min (suc (suc attempt) + 1) 3 ≡ 3 = omega arith in rw last (omega arith)

-- Before its time, nothing happens.
idle_call :
    (s : WifiState) (now : ℕ)
    → s.was_connected ≡ false
    → 0 < s.next_reconnect_us
    → now < s.next_reconnect_us
    → service_wifi_maintenance s false now
      ≡ record { wifi = s; reconnect = false; request_ntp = false }
unfolding service_wifi_maintenance
idle_call s now a b c = ground arith

reconnected :
    (s : WifiState) (now : ℕ)
    → let o = service_wifi_maintenance s false now in
      o.reconnect ≡ true
      → (s.credentials_available ≡ true)
        × (s.next_reconnect_us ≤ now)
        × (o.wifi.was_connected ≡ false)
        × (now + 15000000 ≤ o.wifi.next_reconnect_us)
unfolding service_wifi_maintenance
reconnected s now h = ground (arith, long_delay s.reconnect_attempt)

waiting :
    (s : WifiState) (end : ℕ) (calls : List (Bool × ℕ))
    → s.was_connected ≡ false
    → 0 < end
    → end ≤ s.next_reconnect_us
    → AllOffline calls
    → AllBefore end calls
    → NoReconnect (service_wifi_calls s calls)
unfolding service_wifi_calls
waiting s end [] a b c off before = tt
waiting s end (call ∷ calls) a b c off before =
    let nothing = idle_call s call.1 a (omega (arith, b, c)) (omega (arith, before.0, c)) in
    let rest = waiting s end calls a b c off.1 before.1 in rw (off.0, nothing) (refl, rest)

online : (s : WifiState) (now : ℕ) → (service_wifi_maintenance s true now).reconnect ≢ true
unfolding service_wifi_maintenance
online s now h = ground arith

-- A reconnection is tried only offline, with credentials and when its time has come; while the
-- station stays offline the next one is tried no sooner than 15 s later.
pub service_wifi_spaced :
    (s : WifiState) (connected : Bool) (now : ℕ) (calls : List (Bool × ℕ))
    → let o = service_wifi_maintenance s connected now in
      o.reconnect ≡ true
      → AllOffline calls
      → AllBefore (now + 15000000) calls
      → (connected ≡ false)
        × (s.credentials_available ≡ true)
        × (s.next_reconnect_us ≤ now)
        × NoReconnect (service_wifi_calls o.wifi calls)
service_wifi_spaced s true now calls h off before = absurd (online s now h)
service_wifi_spaced s false now calls h off before =
    let (credentials, due, offline, later) = reconnected s now h in
    let o = service_wifi_maintenance s false now in
    (
      refl,
      credentials,
      due,
      waiting o.wifi (now + 15000000) calls offline (omega arith) later off before,
    )
