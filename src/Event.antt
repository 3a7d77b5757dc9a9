-- ===== src/Event.antt =====
-- include/CppStatecharts/Event.hpp, src/Event.cpp, include/CppStatecharts/TimeoutEvent.hpp and
-- src/TimeoutEvent.cpp: events and the test by which a transition's trigger consumes one.
pub mod Matching
use cpp_statecharts.Base.{ℕ, ◌==◌, String, Bool, true, false, ◌&&◌, Option, none, some}
use text.Mathlib.Text.{◌==◌ as str_eq}

-- The identifier that an instance of TimeoutEvent draws in its constructor.
pub record Uuid : Type 0 where
  pub high : ℕ
  pub low : ℕ

-- The classes of events of the library. A client's subclass with a test of its own is not modelled.
pub data Event : Type 0 where
  signal : (id : String) → Event
  timeout_event : (uuid : Uuid) → (timeout : ℕ) → Event

-- The constructor of TimeoutEvent hands this name to its base class.
abbrev pub timeout_id : String
timeout_id = "TimeoutEvent"

unfoldable pub id : Event → String
id (signal i) = i
id (timeout_event u t) = timeout_id

unfoldable pub uuid_eq : Uuid → Uuid → Bool
uuid_eq u v = (v.high == u.high) && (v.low == u.low)

-- The virtual method `equals`: the receiver comes first, and the argument may be null.
unfoldable pub equals : Event → Option Event → Bool
unfolding id uuid_eq
equals (signal i) none = false
equals (signal i) (some e) = str_eq i (id e)
equals (timeout_event u t) none = false
equals (timeout_event u t) (some (signal i)) = false
equals (timeout_event u t) (some (timeout_event v s)) = uuid_eq u v

-- TimeoutEvent::setTimeout; on an event of another class there is no such method.
pub set_timeout : ℕ → Event → Event
set_timeout ms (signal i) = signal i
set_timeout ms (timeout_event u t) = timeout_event u ms
