-- ===== src/Flat/Implementing.antt =====
-- When a chart of include/CppStatecharts/Statechart.hpp is the machine of Machine.
use cpp_statecharts.Base.{
  ℕ, ◌≡◌, ◌≢◌, ◌==◌, arith, Bool, true, false, Option, none, some, List, [], ◌∷◌, All, contains,
}
use cpp_statecharts.Structure.{
  Kind, simple_state, final_state, pseudo_state, start, junction, is_pseudo,
}
use cpp_statecharts.Event.{Event, signal, timeout_event}
use cpp_statecharts.Metadata.{Metadata, StateRuntimedata, get_data}
use cpp_statecharts.Runtime.{Run, done}
use cpp_statecharts.Chart.{Chart, Transition, Action, run_action, guard_holds}
use cpp_statecharts.Flat.Machine.{Machine, Edge}

-- The callback does nothing but the given change of the client's data.
abbrev pub ActsAs : {W : Type 0} → Option (Action W) → (W → W) → Type 0
ActsAs a f = (r : Run _) → run_action a r ≡ done tt (record r { world = f r.world })

-- The classes of states of a flat chart.
abbrev pub IsFlat : Kind → Type 0
IsFlat simple_state = Unit
IsFlat final_state = Unit
IsFlat (pseudo_state start) = Unit
IsFlat (pseudo_state junction) = Unit
IsFlat _ = ⊥

abbrev pub is_junction : Kind → Bool
is_junction (pseudo_state junction) = true
is_junction _ = false

abbrev pub is_start : Kind → Bool
is_start (pseudo_state start) = true
is_start _ = false

abbrev pub IsUntimed : Option Event → Type 0
IsUntimed none = Unit
IsUntimed (some (signal i)) = Unit
IsUntimed (some (timeout_event u ms)) = ⊥

module _ {W : Type 0} (chart : Chart W) (m : Machine W) (ids : List ℕ) where
  -- The target of the edge is what the lists of the transition out of `c` say.
  abbrev pub Leads : ℕ → Transition W → Option ℕ → Type 0
  Leads c t none = t.is_internal ≡ true
  Leads c t (some s) =
      (t.is_internal ≡ false)
      × (t.deactivate_list ≡ c ∷ [])
      × (t.activate_list ≡ s ∷ [])
      × (contains s ids ≡ true)
      × (is_start (chart.states s).kind ≡ false)

  pub record IsEdge (c : ℕ) (t : Transition W) (edge : Edge W) : Type 0 where
    pub trigger : t.event ≡ edge.trigger
    pub untimed : IsUntimed edge.trigger
    pub guard : (d : Metadata) (w : W) → guard_holds t.guard d w ≡ edge.guard w
    pub effect : ActsAs t.action edge.effect
    pub leads : Leads c t edge.target

  -- The transitions of a state are its edges, in the same order.
  abbrev pub AreEdges : ℕ → List ℕ → List (Edge W) → Type 0
  AreEdges c [] [] = Unit
  AreEdges c [] (edge ∷ edges) = ⊥
  AreEdges c (t ∷ ts) [] = ⊥
  AreEdges c (t ∷ ts) (edge ∷ edges) = IsEdge c (chart.transition t) edge × AreEdges c ts edges

  -- The edges out of a choice lead to states that are no choices.
  abbrev pub LeadsOut : Option ℕ → Type 0
  LeadsOut none = Unit
  LeadsOut (some s) = m.is_choice s ≡ false

  abbrev pub OutOfChoice : Bool → List (Edge W) → Type 0
  OutOfChoice true edges = All (λ edge. LeadsOut edge.target) edges
  OutOfChoice false edges = Unit

  -- The state object is the machine's state of this number.
  pub record IsState (s : ℕ) : Type 0 where
    pub flat : IsFlat (chart.states s).kind
    pub choice : m.is_choice s ≡ is_junction (chart.states s).kind
    pub context : (chart.states s).context ≡ some chart.root
    pub not_root : s ≢ chart.root
    pub edges : AreEdges s (chart.states s).transitions (m.edges s)
    pub out : OutOfChoice (m.is_choice s) (m.edges s)
    pub entry : ActsAs (chart.actions s).entry_action (m.on_entry s)
    pub doing : ActsAs (chart.actions s).do_action (m.on_do s)
    pub pseudo_idle : (w : W) → is_pseudo (chart.states s).kind ≡ true → m.on_do s w ≡ w
    pub exit : ActsAs (chart.actions s).exit_action (m.on_exit s)

  -- The conditions one after the other.
  pub is_edge :
      {c : ℕ} {t : Transition W} {edge : Edge W}
      → t.event ≡ edge.trigger
      → IsUntimed edge.trigger
      → ((d : Metadata) (w : W) → guard_holds t.guard d w ≡ edge.guard w)
      → ActsAs t.action edge.effect
      → Leads c t edge.target
      → IsEdge c t edge
  is_edge a b c d e = record { trigger = a; untimed = b; guard = c; effect = d; leads = e }

  pub is_state :
      (s : ℕ)
      → IsFlat (chart.states s).kind
      → m.is_choice s ≡ is_junction (chart.states s).kind
      → (chart.states s).context ≡ some chart.root
      → (s == chart.root) ≡ false
      → AreEdges s (chart.states s).transitions (m.edges s)
      → OutOfChoice (m.is_choice s) (m.edges s)
      → ActsAs (chart.actions s).entry_action (m.on_entry s)
      → ActsAs (chart.actions s).do_action (m.on_do s)
      → ((w : W) → is_pseudo (chart.states s).kind ≡ true → m.on_do s w ≡ w)
      → ActsAs (chart.actions s).exit_action (m.on_exit s)
      → IsState s
  is_state s a b c ne d e f g h i = record {
    flat = a;
    choice = b;
    context = c;
    not_root = λ q. absurd (ground (arith, ne, q));
    edges = d;
    out = e;
    entry = f;
    doing = g;
    pseudo_idle = h;
    exit = i;
  }

  abbrev pub Implements : Type 0
  Implements = All IsState ids

  -- The chart's run stands in the machine's state `c` with the data `w`: that state alone is active
  -- and is the current state of the chart.
  pub record Represents (c : ℕ) (w : W) (r : Run W) : Type 0 where
    pub member : contains c ids ≡ true
    pub root_data : StateRuntimedata
    pub root_known : get_data chart.root r.meta ≡ some root_data
    pub current : root_data.current_state ≡ some c
    pub state_data : StateRuntimedata
    pub known : get_data c r.meta ≡ some state_data
    pub active : state_data.active ≡ true
    pub untimed : state_data.timeout_events ≡ []
    pub alone : (s : ℕ) → s ≢ chart.root → s ≢ c → get_data s r.meta ≡ none
    pub world : r.world ≡ w
