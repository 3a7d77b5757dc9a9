-- ===== src/Programs/EthernetBox.antt =====
-- doc/examples/EthernetBox/ethernet_box.cpp.
pub mod Laws
use cpp_statecharts.Base.{ℕ, Option, some, List, [], ◌∷◌}
use cpp_statecharts.Structure.{simple_state, pseudo_state, start}
use cpp_statecharts.Event.{Event, signal}
use cpp_statecharts.Chart.{Chart, Action}
use cpp_statecharts.Construction.Building.{
  new_statechart, create, create_transition, no_actions, no_transition,
}
use cpp_statecharts.Programs.Making.{
  Console, text, say, begin, acts, entry, on, internal, Make, ◌>>=◌, ◌>>◌, built,
}

-- The program's Parameter has no members.
abbrev pub Nothing : Type 0
Nothing = Unit {0}

abbrev pub wifi_on : Event
wifi_on = signal "wifi_powered_on"

abbrev pub wifi_off : Event
wifi_off = signal "wifi_powered_off"

abbrev pub pairing_ok : Event
pairing_ok = signal "pairing_successful"

abbrev pub long_btn : Event
long_btn = signal "long_button_press"

abbrev pub short_btn : Event
short_btn = signal "short_button_press"

abbrev pub wifi_fail : Event
wifi_fail = signal "wifi_failure"

abbrev pub phone_disc : Event
phone_disc = signal "phone_disconnected"

abbrev pub led_off : Option (Action (Console Nothing))
led_off = acts (say "  LED: off\n")

abbrev pub led_blinking : Option (Action (Console Nothing))
led_blinking = acts (say "  LED: blinking\n")

abbrev pub led_glow : Option (Action (Console Nothing))
led_glow = acts (say "  LED: glow\n")

abbrev pub led_constant_glow : Option (Action (Console Nothing))
led_constant_glow = acts (say "  LED: constant glow\n")

abbrev pub pairing_phone : Option (Action (Console Nothing))
pairing_phone = acts (say "  ACTION: pairing phone\n")

abbrev pub launch_home : Option (Action (Console Nothing))
launch_home = acts (say "  ACTION: launch home screen\n")

-- The chart of `main`.
unfoldable pub make_ethernet_box : Make (Console Nothing) ℕ
make_ethernet_box = do
  initial ← create "start" (pseudo_state start) no_actions (some 0)
  box_off ← create "EthernetBoxOff" simple_state (entry led_off) (some 0)
  discoverable ← create "WifiDiscoverable" simple_state (entry led_blinking) (some 0)
  connected ← create "WifiConnected" simple_state (entry led_constant_glow) (some 0)
  disconnected ← create "WifiDisconnected" simple_state (entry led_glow) (some 0)
  create_transition (some initial) (some box_off) no_transition
  create_transition (some box_off) (some discoverable) (on wifi_on)
  create_transition (some discoverable) (some box_off) (on wifi_off)
  create_transition (some disconnected) (some box_off) (on wifi_off)
  create_transition (some discoverable) (some connected) (on pairing_ok)
  create_transition (some connected) (some discoverable)
      (record (on long_btn) { action = pairing_phone })
  create_transition (some discoverable) (some disconnected) (on wifi_fail)
  create_transition (some disconnected) (some discoverable)
      (record (on long_btn) { action = pairing_phone })
  create_transition (some connected) (some disconnected) (on phone_disc)
  create_transition (some connected) (some connected)
      (record (internal short_btn) { action = launch_home })

abbrev pub ethernet_box : Chart (Console Nothing)
ethernet_box =
    built (new_statechart "EthernetBox") (make_ethernet_box (new_statechart "EthernetBox"))

-- What `main` does behind the start of the chart, and what it has before.
abbrev pub ethernet_box_script : List ((Console Nothing → Console Nothing) × Option Event)
ethernet_box_script =
    (say "\n>> Wi-Fi powered on\n", some wifi_on)
    ∷ (say "\n>> Pairing successful\n", some pairing_ok)
    ∷ (say "\n>> Short press => launch home\n", some short_btn)
    ∷ (say "\n>> Phone disconnects\n", some phone_disc)
    ∷ (say "\n>> Long press => re-pair\n", some long_btn)
    ∷ (say "\n>> Wi-Fi powered off\n", some wifi_off)
    ∷ []

abbrev pub ethernet_box_begin : Console Nothing
ethernet_box_begin = begin tt (text "=== Ethernet box manager ===\n" ∷ [])
