-- ===== src/Lib.antt =====
-- packml_ros2: the PackML state machine of packml_sm, its ROS 2 nodes and its RViz panel.
--
-- The program. packml_sm builds a hierarchical Qt state machine with the 17 states of PackML.
-- Clients send it commands, which it accepts or refuses, and choose modes, which make states
-- available. The states that do work run a function in a thread of their own, and its end is an
-- event. packml_ros offers the machine to ROS in two ways: SMNode serves the panel of packml_plugin,
-- and SMNode_new is a manager that asks client nodes to follow every change and publishes the status
-- that they follow.
--
-- The files.
--   Base         the names of the libraries, Boolean tests, lists, finite maps and integers
--   Common       packml_sm/include/packml_sm/common.hpp; Common/Casts, Fits: casts to int8; Common/Names
--   Events       packml_sm/include/packml_sm/events/
--   Qt           what the machine takes from Qt, as the interface QtEngine
--   Store        the objects of the machine, by address, and the steps that build them
--   ActingState, WaitState   the factories of packml_sm/include/packml_sm/states/
--   CmdTransition   the factories of packml_sm/include/packml_sm/transitions/cmd_transition.hpp;
--                CmdTransition/Between: those between two states, with the constructors of
--                packml_sm/src/transitions/; CmdTransition/Generated: the two ways compared
--   Generator    packml_sm/include/packml_sm/states_generator.hpp
--   Transitions  eventTest of packml_sm/src/transitions/; Transitions/Search: the first that answers
--   Construct    the constructor in packml_sm/src/state_machine.cpp, and ContinuousCycle::init's loop
--   StateMachine the machine's record and both factories; StateMachine/Run: entry, exit, threads and
--                the event loop; StateMachine/Nested: the same with super states;
--                StateMachine/Requests: activate, the commands, changeState, changeMode;
--                StateMachine/Methods: the nine methods of StateMachineInterface;
--                StateMachine/Times: the times that a state keeps
--   Diagram      the PackML diagram, written independently of the code. Its child modules compare it
--                with the store (Built), with the choice of a transition (Answers), with one event
--                (Moves), with any number of events (Invariant), with requests (Commands), with modes
--                (Modes), with every run (Runs, Tracked, Grown), with super states (Nested), and state
--                what clients see (Behaviour, Interrupts, Work, Cycles, Verdicts)
--   Messages     packml_msgs/
--   SmNode       the machine and the handlers of packml_ros/include/packml_ros/packml_ros.hpp;
--                SmNode/Services: what its transition service answers, to the panel's buttons too;
--                SmNode/Methods: the ways to give a command compared
--   Widget       packml_plugin/src/packml_widget.cpp; Widget/Enabled: the panel and the diagram;
--                Widget/Times: callbackTime and timerEvent; Widget/Watch: the timer against the node
--   NodeInterface   PackmlNodeInterface of packml_ros/include/packml_ros/interface/packml_interface.hpp;
--                NodeInterface/Handshake: what a node does with requests and statuses
--   Manager      PackmlManagerInterface of the same file, with the callbacks of packml_ros-new.hpp;
--                Manager/Waiting: the waiting loop, with Waiting/Rounds: what it answers;
--                Manager/Unanswered, with Waiting/Silent: a client that never answers; Manager/Modes:
--                a change of mode; Manager/Published: what a status keeps; Manager/States:
--                on_change_state; Manager/Outcomes: how it ends; Manager/ClientMap: client_map_, with
--                ClientMap/Unique: the order of the names;
--                Manager/Start: init, and the constructor of SMNode_new in packml_ros-new.hpp, with
--                Manager/Start/Boot: what it leaves; Manager/Threads: the steps of the two threads
--                that publish
--   Ros          how ROS expands a name, as an interface
--   Services     the services and the topic by which the nodes, the manager and the panel reach each
--                other; Services/Reached: which reach which
--   System       the manager with its client nodes: their services answer its requests, and its statuses
--                reach them; System/Steps: on_change_state there, and every step; System/Told: what
--                whoever hears the statuses knows; System/Always: what every step keeps, with
--                System/Sync and Sync/Racing: what the nodes know, the races of the two threads
--                included; System/Reached, NewState, Refused, NewMode, Commanded and Commanded/Refused:
--                how a new state, a mode and a command reach the nodes, and what a refusal does;
--                System/Whole: the machine's own steps with
--                what the manager hears of them, with
--                Whole/Reports, Told, Raced, Raced/Done, Traced and Boot: what is told, held and
--                published on every run;
--                System/Job and Job/Ordered: the works of one state after another; System/Race, with
--                Race/Fresh and Race/Orders: the two threads that publish, in every order of their steps
--   Tests        the theorems at concrete inputs
--
-- How the model corresponds to the code.
-- An object of the code is an address in a Store, and a pointer is an address; `none` from a step of
-- the construction is a null pointer that is dereferenced. What the memory held before a field is set
-- is an argument (`garbage`). Printing is left out.
-- Qt is the parameter QtEngine: an event is born accepted, a property that was never set converts to
-- false, and the transitions of the active state and then of its ancestors are tried in order until
-- one passes. `documented_engine` is such an engine. Events are handled one at a time in the order of
-- posting. What Qt does with a transition that is taken is written out in StateMachine/Run:
-- endSelectTransitions, the exit of the active state, the entry of the target.
-- StateMachine/Nested has every state that the transition leaves or enters, the super states among
-- them; which, and in which order, is the parameter QtOrder, and `crossing_order` is such an order.
-- A function that is given to a state is the code that it returns, and a thread that works is a flag:
-- its end (`finish_operation`) is a step of its own, and leaving a state forces it. `request` stands
-- for the promise and the wait of `_start` and the others: the loop handles all that is queued, which
-- ends with the command's event; `none` is a wait that never ends, for a promise without a value. A
-- machine that does not run drops commands; the event of a thread that ends then stays in the queue,
-- which is never read and which the next start empties.
-- What a state keeps of its times, which nothing reads, stands apart in StateMachine/Times; points of
-- time and durations, which are floats, are the parameter Clock.
-- The timers of SMNode are floats that grow by 0.2; the model counts the steps.
-- The manager's waiting loop has no timeout. It runs on fuel, one unit for each round, and `none` is
-- that the fuel ran out. When a client's service is there and in which round each answer is ready is
-- the parameter Service, and so is in which rounds `spin_once` of a client's executor returns: it has
-- no timeout, and `none` is also that it blocks. on_change_state waits
-- for a promise that the event loop's thread renews: an argument says which of the two is first.
--
-- In System a Setting says by client whether its services are there, how many rounds its response
-- takes, what its node approves, and how many of the statuses around a mode request it handles
-- before the request. Every published status reaches every node, in order; of a status that the
-- middleware loses only the theorem on catching up in Sync/Racing speaks. on_change_state is there with
-- the event loop's thread first. The steps of System publish a status at once. Manager/Threads takes
-- publish_status apart into its two reads and the publishing, each of which is done at once, and the
-- runs of Sync/Racing and of System/Whole have such a race of the two threads as a step.
--
-- A promise keeps its first value, and a second one is an exception that ends the program: the model
-- marks the machine (`thrown`) and lets it go on, which has more runs than the program. activate stands
-- for sm_internal_.start() with what it queues for Qt's thread: nothing comes between the two.
--
-- Not modelled: the print of a float, which is a parameter, the rest of the executors and the callback
-- groups of rclcpp, the length of the sleep of a default operation, what packml_ros_node's main
-- starts, the plugin class, packml_plc and the build files, which are input and output, glue or Python.
pub mod Base
pub mod Common
pub mod Events
pub mod Qt
pub mod Ros
pub mod Services
pub mod Store
pub mod ActingState
pub mod WaitState
pub mod CmdTransition
pub mod Generator
pub mod Transitions
pub mod Construct
pub mod StateMachine
pub mod Diagram
pub mod Messages
pub mod SmNode
pub mod Widget
pub mod NodeInterface
pub mod Manager
pub mod System
pub mod Tests
