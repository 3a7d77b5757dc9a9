-- ===== src/Lib.antt =====
-- CppStatecharts, a library for UML statecharts: states, transitions and their run-time data, a
-- synchronous dispatch, timeouts, and a pool of threads. This library models the code under
-- include/CppStatecharts and src, and proves what it promises.
--
-- The parts, and where they are modelled:
--   * Event: include/CppStatecharts/Event.hpp and TimeoutEvent.hpp with src/Event.cpp and
--     src/TimeoutEvent.cpp. `equals` is the virtual method, by the class of its receiver.
--   * Structure and Chart: the members of the state classes (State.hpp, Context.hpp,
--     HierarchicalState.hpp, ConcurrentState.hpp, FinalState.hpp, PseudoState.hpp) and of
--     Transition.hpp that never change while a chart runs. A pointer is a number, and a null pointer
--     is `none`; a `dynamic_cast` asks for the `Kind` of a state.
--   * Metadata: src/Metadata.cpp. The active states are a table of `StateRuntimedata`. Each call of an
--     observer is recorded in `observed`.
--   * DelayQueue: include/CppStatecharts/DelayQueue.hpp. `take` runs over a list of wake-ups: what
--     other threads did since the last one, and the reading of the clock.
--   * ThreadPool: src/ThreadPool.cpp, as a state machine whose schedule says whose step comes next.
--     `awaitTermination` is in ThreadPool/Termination, over given times at which the workers end.
--   * Entries: EventQueueEntry and the members of Statechart for timeouts; `enqueue_timeout` and
--     `cancel_timeout` are enqueueTimeout and cancelTimeout of src/Statechart.cpp.
--   * Construction: the factories `create`, `createTransition` and `createInternalTransition` of
--     include/CppStatecharts/Statechart.hpp with the constructors, the walks to the root in Paths, and
--     Transition::calculateStateSet of src/Transition.cpp in StateSets.
--   * Runtime: the state that a dispatch passes along and changes (`Run`), and how it may end
--     (`Outcome`): with a value, with an exception, or with an access through a dangling pointer.
--   * Behaviour: the methods `activate`, `deactivate`, `dispatch` and `lookup`, one module for each of
--     src/Transition.cpp, State.cpp, PseudoState.cpp, HierarchicalState.cpp and ConcurrentState.cpp;
--     Virtual has the virtual table and Statechart::dispatch.
--   * Statechart: start, restoreState, getStateByName, startAsynchron and EventQueueEntry::run.
--   * Asynchronous: dispatchAsynchron, the loop of the timeout thread (timeoutLoop) and shutdown of
--     src/Statechart.cpp, as steps that clients, worker, timeout thread and the caller of shutdown take
--     in any order. A step of the timeout thread, of a worker or of shutdown is what it does under one
--     lock, or one atomic read: between two of them other threads may come, also between the tests of
--     timeoutLoop and its call of `execute`. In shutdown the loop of awaitTermination waits for the worker
--     until it has returned, or leaves it if its deadline has passed before. A call of dispatchAsynchron,
--     enqueueTimeout or cancelTimeout is one step.
--   * Invariance: a logic by which an invariant of the single writes is one of a whole dispatch.
--   * Semantics: which transition fires, in which order the states of a hierarchy and the regions are
--     asked, how the loop of trigger-less steps ends, what becomes of the timeouts of a state that is
--     left, that deactivation ends with the substates inactive, and what a history records.
--   * Flat: the abstract specification of a chart without composite states. Flat/Machine is a
--     finite-state machine over the client's data; `Implements` of Flat/Implementing says that a chart
--     is one of its charts, and `Represents` that a run stands in one of its states. Flat/Sessions has
--     programs that start a chart and dispatch a list of events, and Flat/Conditions what has to hold of
--     the single edges of a machine for such a program to return and to keep a predicate.
--   * Programs: the programs of doc/examples, each with its parameter, events, guards and callbacks, the
--     chart that its `main` builds, and the events that it dispatches. Programs/Making has what they
--     share: the standard output as a list, and calls of the factories one after another. The programs
--     with flat charts have their diagram as a machine in their module Laws.
--   * Examples: the theorems at concrete inputs, and runs of the programs.
--
-- How the parts interact: Statechart::dispatch asks the current substate of the root, whose class
-- decides what happens; transitions call `deactivate` and `activate` of the states on their lists;
-- State::activate enqueues the timeouts of its transitions, and State::deactivate cancels them.
--
-- The choices of the model:
--   * Virtual calls go through a record `Methods`, which `methods chart fuel` unrolls to a depth of
--     calls. A run that would go deeper ends as `out_of_fuel`. The theorems on one method hold for any
--     record of methods, and the invariants hold at any depth; the theorems of Semantics that say that
--     dispatch returns or throws take the outcomes of the single steps as given. For `deactivate` the
--     height of the state is enough fuel, and so is the number of states in a chart that the factories
--     built, as Semantics/Ending says. Two levels of calls are enough for a flat chart, and the theorems
--     of Flat and Programs say that programs return.
--   * The walks to the root have fuel as well. Each state is younger than its parent, so the number of
--     states is enough in a chart that the factories built.
--   * A callback of the client may do anything to the run, also throw, so theorems on invariants ask
--     that callbacks keep the invariant. A guard reads the metadata and the world. `W` is the type of
--     the dispatch's parameter and of the rest of the client's program.
--   * The clock is a stream of readings. Delays are natural numbers of milliseconds, and identifiers
--     do not wrap around. `std::lower_bound` is the first element that is not below.
--   * A dispatch holds the recursive mutex of its metadata, so a run is modelled alone.
--
--   * `int` members of the programs are the integers of Programs/Making, or natural numbers where the
--     program keeps them so. Overflow of `int` is not modelled.
--
-- Not modelled: the generator of identifiers, the methods that print, subclasses of Event with a test of
-- their own, the tests, and in the programs Pompe and GettingStarted the sleeps of `main` in which
-- timeouts fire.
pub mod Base
pub mod Event
pub mod Structure
pub mod Metadata
pub mod DelayQueue
pub mod ThreadPool
pub mod Entries
pub mod Construction
pub mod Runtime
pub mod Chart
pub mod Behaviour
pub mod Statechart
pub mod Invariance
pub mod Flat
pub mod Programs
pub mod Semantics
pub mod Asynchronous
pub mod Examples
