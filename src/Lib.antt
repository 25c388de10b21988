-- ===== src/Lib.antt =====
-- Verification library of instro, the Python library for test instruments (instro/lib,
-- instro/modbus, instro/psu). It models the code that every instrument goes through: the data that
-- is published, the buffers that keep it, the wrappers that hand it on, the base class of the
-- instruments and the Modbus transport; and of the instruments the power supply with its simulator.
--
-- The program's parts and their modules:
-- - instro/lib/types.py: Types. `Measurement` and `Command` are records; a channel is an entry of a
--   `Dict`, which keeps Python's insertion order (Prelude/Dict).
-- - instro/lib/publishers/channel_buffer.py: Ring is `NumpyRingBuffer`; Deque is
--   `collections.deque(maxlen=...)`; ChannelBuffer is `ChannelBufferPublisher` over its abstract
--   methods (the record `Hooks`), Waiting its readers, and DequeStore is `DequeInMemoryPublisher`,
--   which fills `Hooks`.
-- - instro/lib/publishers/publisher.py: Publishers, with Buffered, Queued and Shared for
--   `BufferedPublisher`, `QueuedPublisher` and `SharedPublisher`. Each wraps any `Publisher`, an
--   interface of two methods that may raise. What is published is one value, the data with the
--   keyword arguments; Buffered has them apart, since it drops them.
-- - instro/lib/transports/transport_base.py: Transport. `TransportBase` is a list of holders around
--   a session, which is an interface (`Session`).
-- - instro/lib/transports/modbus.py: Modbus for the vocabulary, Modbus/Codec for `encode_value` and
--   `decode_registers`, Modbus/Line for `ModbusTransport`. Line/Behaviour makes the line a
--   `Session`, so that Transport applies to it, and Line/Sharing is about a line with several users.
-- - instro/modbus/types.py and instro/modbus/modbus.py: Modbus/Register for `RegisterDef` and the
--   scale, Register/Validation for its validator, Register/Writing for what `ModbusDevice.write`
--   makes of a value before it is sent; Modbus/Config for the overlap check of `ModbusConfig`, with
--   Config/Groups for its names, its read groups and the whole of `model_post_init`; Modbus/Device
--   for the reads of one register and of a group, up to the measurement that they publish;
--   Device/Operations for the write, the polled calls and the unit address.
-- - instro/lib/instrument.py: Instrument for the state, the construction and the packaging;
--   Instrument/Publishing for `publish` and its decorators, Instrument/Daemon for one pass of the
--   background thread, Instrument/Buffering for `start`, `stop`, `close` and the reads. What a
--   subclass holds is the field `device`; a background function is a label that the subclass reads.
-- - instro/psu/psu.py: Psu/Driver for the contract of a driver, Psu/Instro for how `InstroPSU` runs a
--   driver's method on top of Instrument, with Instro/Operations for its settings and queries and
--   Instro/Steps for `apply`.
-- - instro/psu/scpi_sim_server.py: Psu/Sim for the state of `SimulatedPSU`; its children Physics for
--   `_update`, Text for the reading of a header and its arguments, Handlers for the commands, Scpi
--   for the command table and the dispatch, Panel for what the text interface does to the supply.
--   Psu/Sim/Safe says what holds of a channel between two commands.
--
-- Exceptions are values: a function that may raise returns a `Result`, and a method that may raise
-- is an `Exec S A`, a function from the object's state to a result and the state it leaves, which a
-- raise does not undo. A method keeps the source's name; where two of them share one, the class is
-- added (`close_buffered`, `publish_handle`).
--
-- Code that is not part of the repository is a parameter: numpy arrays (NdArray), Python's floats
-- and their packing (Float), the pymodbus client with the wire and the devices (`Pymodbus`). Each
-- interface states the few documented laws that the proofs use, and has a concrete instance.
--
-- Threads. What a lock protects is one step. A reader that waits on a condition is given, as lists,
-- what other threads do before each time that it looks again (`Others`); a read is any such lists. A
-- queued publisher is a step relation between the callers of `publish`, the worker and one caller
-- of `close`. There is no fuel: every loop of the modelled code goes over a list.
--
-- Numbers. Lengths, counts and addresses are natural numbers, so that a negative argument is not
-- covered. Python's integers are unbounded; where bytes or registers are involved, the model has
-- the widths and ranges of `struct` written out. Timestamps are integers (Prelude/Int).
--
-- Text that a client sends to the simulator is a list of ASCII codes. int() refuses a number of more
-- than 4,300 digits, the default of the interpreter.
--
-- Not modelled: log messages and error texts; `__del__` of a transport; the loop of the background
-- thread around one pass, and the publication of its timing; the simulator's log, its socket server
-- and the drawing of its panel; the construction of an instrument from a configuration; the other
-- instrument categories, the drivers of devices and the other simulators; the opening and closing of
-- a Modbus device; file and Nominal publishers, which are input and output; discovery and the command
-- line.
pub mod Prelude
pub mod NdArray
pub mod Ring
pub mod Types
pub mod Deque
pub mod ChannelBuffer
pub mod Float
pub mod Modbus
pub mod Transport
pub mod Publishers
pub mod Psu
pub mod Instrument
