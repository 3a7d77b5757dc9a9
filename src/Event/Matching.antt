-- ===== src/Event/Matching.antt =====
-- What the two `equals` methods of src/Event.cpp and src/TimeoutEvent.cpp decide.
use cpp_statecharts.Base.{ℕ, String, ◌≡◌, refl, ◌↔◌, true, false, Option, none, some, arith}
use cpp_statecharts.Event.{
  Uuid, Event, signal, timeout_event, id, uuid_eq, equals, set_timeout, timeout_id,
}
use text.Mathlib.TextEquality.{eq_iff}

uuid_eq_iff : (u v : Uuid) → (uuid_eq u v ≡ true) ↔ (u ≡ v)
unfolding uuid_eq
uuid_eq_iff u v = ground arith

-- When an event consumes another: the base class by the name, TimeoutEvent by the identity.
pub data Consumes : Event → Event → Type 0 where
  by_id : {i : String} {e : Event} → i ≡ id e → Consumes (signal i) e
  by_uuid : {u v : Uuid} {t s : ℕ} → u ≡ v → Consumes (timeout_event u t) (timeout_event v s)

equals-Consumes : (e f : Event) → equals e (some f) ≡ true → Consumes e f
unfolding equals
equals-Consumes (signal i) f h = by_id ((eq_iff i (id f)).0 h)
equals-Consumes (timeout_event u t) (signal i) h = cc
equals-Consumes (timeout_event u t) (timeout_event v s) h = by_uuid ((uuid_eq_iff u v).0 h)

equals_of : (e f : Event) → Consumes e f → equals e (some f) ≡ true
unfolding equals
equals_of _ _ (by_id {i = i} {e = f} h) = (eq_iff i (id f)).1 h
equals_of _ _ (by_uuid {u = u} {v = v} h) = (uuid_eq_iff u v).1 h

-- `equals` accepts an event exactly if it is one that the receiver consumes: a plain event takes
-- any event of its name, a timeout event takes those of its own identity whatever their delay, and
-- nothing takes a null pointer.
pub equals_iff_Consumes :
    (e : Event) (o : Option Event)
    → (equals e o ≡ true) ↔ ((f : Event) × (o ≡ some f) × Consumes e f)
unfolding equals
equals_iff_Consumes (signal i) none = (λ h. cc, λ (f, p, c). cc)
equals_iff_Consumes (timeout_event u t) none = (λ h. cc, λ (f, p, c). cc)
equals_iff_Consumes e (some f) =
    (λ h. (f, refl, equals-Consumes e f h), λ (g, p, c). rw p (equals_of e g c))

-- The test is not symmetric: a plain event that carries the name of the timeout events consumes
-- each of them, and none of them consumes it.
pub equals_asymmetric :
    (u : Uuid) (t : ℕ)
    → (equals (signal timeout_id) (some (timeout_event u t)) ≡ true)
      × (equals (timeout_event u t) (some (signal timeout_id)) ≡ false)
unfolding equals
equals_asymmetric u t = (refl, refl)

-- A new delay does not change what a timeout event consumes, nor what consumes it.
pub equals-set_timeout :
    (ms : ℕ) (e f : Event)
    → (equals (set_timeout ms e) (some f) ≡ equals e (some f))
      × (equals e (some (set_timeout ms f)) ≡ equals e (some f))
unfolding equals set_timeout
equals-set_timeout ms (signal i) (signal j) = (refl, refl)
equals-set_timeout ms (signal i) (timeout_event v s) = (refl, refl)
equals-set_timeout ms (timeout_event u t) (signal j) = (refl, refl)
equals-set_timeout ms (timeout_event u t) (timeout_event v s) = (refl, refl)
