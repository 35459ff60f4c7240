-- ===== src/Lib.antt =====
-- SigmaDSP: a service between Analog Devices' SigmaStudio and a SigmaDSP chip. A TCP server
-- receives packets from SigmaStudio and puts requests into a queue; a worker takes them off and
-- calls the DSP object; the DSP object writes and reads registers through a protocol object, which
-- hands them to a thread that drives SPI or I2C.
--
--  Prelude           shared names, tests on numbers, lists, integers, results, a state monad
--  Conversion        sigmadsp/helper/conversion.py
--  Header            sigmadsp/sigmastudio/header.py, adau1x01.py and adau14xx.py beside it
--  Server            sigmadsp/sigmastudio/server.py and common.py
--  Protocol          sigmadsp/protocols/common.py, spi.py and i2c.py
--  Dump              app/dump_sigma_studio_data.py
--  Dsp               sigmadsp/dsp/common.py, adau14xx.py, adau1x0x.py and factory.py
--  Parser            sigmadsp/helper/parser.py
--  Settings          sigmadsp/helper/settings.py
--  Backend           sigmadsp/backend.py
--  Frontend          sigmadsp/frontend.py
--  Tests             the theorems at concrete inputs
--
-- Numbers are native natural numbers; Python's signed integers are `ℤ` of Prelude.Int. A call that
-- may raise is a `Result`, with one constructor of `Error` for each class of exception; a call
-- that also changes state is an `Exec`, which keeps the state that an exception leaves behind.
-- Bytes are lists of numbers. A dictionary that Python keeps in insertion order is a list of
-- fields (`PacketHeader`), with distinct names where the code guarantees them.
--
-- The socket of the server is the list of segments that the network delivers: `recv` returns at
-- most one segment, and nothing when there is none left; a connection that is reset by the peer is
-- not modelled, and `close` raises nothing. The queues are lists, the oldest entry first.
-- Server.Connections serves the connections one after the other, as the plain TCPServer of the
-- standard library does. Waiting for ever is the error `blocked`. The serving thread of a protocol
-- and its callers are step relations, so any interleaving of them is a sequence of steps.
--
-- Fuel: `handle` takes a number of rounds, and one for each packet and one for the end of the
-- stream are enough; `read_loop` and `chunk_loop` take the number of bytes and a few more, since
-- each round takes one byte at least; the chunk loop ends where there is room for a word.
--
-- Python's float is a record of operations with one law, that small integers are scaled exactly;
-- Conversion.Fixpoint.Dyadic fills it. `spidev` and `smbus2` are records of the calls that the
-- code makes, with no law. The functions of `math` for volumes are a record too, with the laws
-- that no float is less than itself and that 1 is not less than 0; Tests.OnDsp fills it.
--
-- The DSP objects call a `Hardware` directly: Protocol.Queues.Alone compares such calls with those
-- of a caller that is alone on the protocol and its thread, and Protocol.Queues.Shared has two
-- callers that take each other's answers. A call of the hardware that raises, raises at the caller
-- in the model; in the code it ends the thread of the protocol, so that a writer goes on without a
-- notice, and a reader waits for ever. The parser works on texts as lists of code points, and
-- Python's numbers are a record with `int` and `float` of a text. The settings are one parameter
-- file and what was parsed from it. The worker of the backend runs until its queue is empty; a
-- thread that retries the safety check is only counted where it is started. The loop of the parser
-- takes a round for each line and one more, since each round consumes a line.
--
-- The channel between the command line tool and the backend is a record of two calls;
-- Frontend.Loading puts the calls of the service there, whose exceptions the tool sees as one of
-- gRPC. The call of the package `retry` that repeats a failed check is a record with the laws that
-- its documentation states. Outside Backend.Link, the response to a read request is in the queue
-- when the server asks for it. The recorder of app/dump_sigma_studio_data.py runs on the queues
-- that the server has filled, and is interrupted by the user only while it waits. The handler of
-- the server and the worker, as two threads over their queues, are steps of Backend.Link, where
-- the handler takes a turn up to its next wait and the worker a request; Server.Turns cuts the
-- body of `handle` into these turns. Safety checks in several threads are steps of Backend.Checks,
-- between which files are loaded and the DSP is used. A configuration is a tree of texts,
-- integers, truth values, mappings and empty values.
--
-- Not modelled: the start of threads and of the gRPC service, the command line programs, logging,
-- and the generated gRPC code.
pub mod Prelude
pub mod Conversion
pub mod Header
pub mod Server
pub mod Dump
pub mod Protocol
pub mod Dsp
pub mod Parser
pub mod Settings
pub mod Backend
pub mod Frontend
pub mod Tests
