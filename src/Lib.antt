-- ===== src/Lib.antt =====
-- A verification of transactron, a library for hardware designs made of transactions and methods
-- (Python, on Amaranth HDL).
--
-- A design declares transactions and methods; their bodies call methods. When the design is
-- elaborated, the manager collects for each transaction the calls it makes, also through methods,
-- and builds a graph of the transactions that must not run together. Each connected component of
-- the graph gets a scheduler, which decides in every clock cycle which transactions run. Whether
-- two calls can happen in one cycle is read off the control structures (`m.If` and so on) around
-- them. The hardware components of the library are written in terms of methods.
--
-- The parts and the files that model them:
--
-- Ctrl (transactron/core/tmodule.py, and call_paths_exclusive of transactron/core/manager.py with
-- longest_common_prefix of transactron/utils/transactron_helpers.py): control paths. A path is a
-- list of edges, and `exclusive_with`, `is_prefix` and `is_proper_prefix` are the methods of
-- CtrlPath. Ctrl.Builder is CtrlPathBuilder, with the context managers of TModule that drive it
-- (If, Elif, Else, AvoidedIf, Switch, Case, Default, FSM, State) as nested programs of blocks. A failed
-- `replace` or an index out of range is `none`. Ctrl.Exclusive compares the test with the choices
-- that a clock cycle makes in the control structures.
--
-- Graph (transactron/utils/transactron_helpers.py, _graph_ccs): the connected components. A
-- dictionary is an association list in insertion order, a set a list in the order of the additions,
-- and a missing key is `none`. The inner loop is on fuel, one more than all edges by both ends: it
-- takes one element from its stack in each step and puts the neighbours of a node there once.
--
-- Manager (transactron/core/body.py, transactron/core/transaction_base.py): bodies and relations; a
-- body is known by its number. Manager.MethodMap (MethodMap of transactron/core/manager.py): the
-- checks for cycles and double calls, and the dictionaries with the calls of every transaction.
-- Exceptions are the `Error`s of a result. The recursions are on fuel, one more than the number of
-- methods: the check stops at the first method that is called under itself, so no chain of calls is
-- longer. Manager.Conflicts (TransactionManager._conflict_graph, _relations,
-- _transactions_exclusive): the conflict graph and the priority order.
--
-- Manager.Elaborate (TransactionManager.elaborate, _ready_dependencies and _method_calls, with
-- Body._validate_arguments and Body._default_combiner of transactron/core/body.py): the checks and the
-- equations between the signals of a cycle. That a call is enabled only where the control structures
-- around it take its alternatives is what Method.__call__ (transactron/core/method.py) assigns under
-- them, and enters as a hypothesis on the cycle.
--
-- Manager.Simultaneous (TransactionManager._simultaneous and _conditionally_called, with simultaneous
-- and simultaneous_alternatives of transactron/core/transaction_base.py): the transactions that must
-- run together are merged. Sets are lists, compared as sets. The closure is on fuel: a set of the
-- transactions in the pairs is added once at most, and puts one group for each pair into the queue at
-- most. The infection is on fuel: a called method is put on the stack once at most.
--
-- Scheduler (transactron/core/schedulers.py): eager_deterministic_cc_scheduler. A valuation gives
-- each transaction its `ready`, `runnable` and `run` in one cycle; the scheduler is the equations that
-- it assigns, and Scheduler.System has one for every connected component, as
-- TransactionManager.elaborate does.
--
-- Hdl: what the hardware components share. A component is a function of its registers and of the
-- signals of a cycle; a cycle in which a method runs that is not ready is `none`. Runs of two such
-- functions are compared, one of them on lists. Hdl.Widths has the wrap-around of Amaranth's
-- `range(n)` signals.
--
-- Connectors (transactron/lib/connectors.py: Forwarder, Pipe), Stack (transactron/lib/stack.py),
-- Semaphore (transactron/lib/fifo.py), Allocator (CircularAllocator of transactron/lib/allocators.py)
-- and Fifo (BasicFifo of transactron/lib/fifo.py) on top of it, with Modulo (mod_incr and mod_add of
-- transactron/utils/amaranth_ext/functions.py).
--
-- RoundRobin (trivial_roundrobin_cc_scheduler of transactron/core/schedulers.py, with OneHotSwitch,
-- OneHotSwitchDynamic and OneHotRoundRobin of transactron/utils/amaranth_ext/elaboratables.py): a
-- signal is a function from positions to bits, the loops are lists of positions, and the last
-- assignment counts, as in Amaranth.
--
-- Encoder (MultiPriorityEncoder of transactron/utils/amaranth_ext/elaboratables.py) and, on top of it,
-- MaskAllocator (PriorityEncoderAllocator of transactron/lib/allocators.py). The recursion of
-- `build_tree` is on fuel, the number of bits, which each level at least lowers by one.
--
-- OrderAllocator (PreservedOrderAllocator of transactron/lib/allocators.py) and Network
-- (StableSelectingNetwork of transactron/utils/amaranth_ext/elaboratables.py), which read Amaranth's
-- `Array` at a signal (Hdl.Arrays).
--
-- Reduce (binary_tree_reduce, popcount) and Select (one_hot_mux), of
-- transactron/utils/amaranth_ext/functions.py. The loops over layers are on fuel, the number of
-- values, which each layer lowers.
--
-- Shifter (transactron/utils/amaranth_ext/shifter.py): shifts and rotations by a variable offset. A
-- bit vector is a list of bits; a sequence has entries of any type that is cast to bits and back.
--
-- WideFifo (WideFifo of transactron/lib/fifo.py): one memory for each column, indices of a row and a
-- column, and a head that is rotated by the column. A cycle is a function of the registers and of the
-- methods that run; the queue that it is compared with reads and writes a list. The depth is given by
-- the rows and columns.
--
-- Dependencies (transactron/utils/dependencies.py): DependencyManager with its lock and its cache,
-- and the keys SimpleKey and ListKey. Other keys enter by their attributes and their
-- `combine`, which may change a state outside of the manager. The list that ListKey returns is taken
-- as it is at the read.
--
-- Events (transactron/evlog: event.py, emit.py, schema.py, sampler.py, log.py): the way of a hardware
-- event from its emission site through the schema and the sampler to the decoder.
--
-- Parameters stand for code of other packages: networkx's lexicographical topological sort (an
-- argument of `conflict_graph`), the number of bits of Amaranth's `range(n)` (Hdl.Widths: the numbers
-- below n fit), and Amaranth's Memory with a write port and a transparent synchronous read port
-- (Hdl.Memory: a row changes when it is written, and the read port has the row after the write).
-- Amaranth's `Array` of signals (Hdl.Arrays: an index inside it reads the element there), and its
-- `bit_select` (Shifter: the bits from an offset on, where there are that many).
-- Hdl.Instances has concrete ones.
--
-- Not modelled: the Python objects that _simultaneous creates for its groups, many hardware components
-- and utilities of transactron/lib and transactron/utils, RoundRobin (a copy of an Amaranth class), and what only
-- prints, draws, writes files, profiles or simulates.
pub mod Prelude
pub mod Ctrl
pub mod Graph
pub mod Scheduler
pub mod Manager
pub mod Hdl
pub mod Connectors
pub mod Stack
pub mod Semaphore
pub mod Modulo
pub mod Allocator
pub mod Fifo
pub mod Reduce
pub mod Select
pub mod RoundRobin
pub mod Encoder
pub mod MaskAllocator
pub mod OrderAllocator
pub mod Network
pub mod Dependencies
pub mod Shifter
pub mod WideFifo
pub mod Events
