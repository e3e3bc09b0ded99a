-- ===== src/Lib.antt =====
-- A model of aiosmtpd, an SMTP and LMTP server on asyncio, and theorems about it.
--
-- The server's side of one connection is `SMTP` of aiosmtpd/smtp.py: a coroutine that reads a line,
-- judges it, calls the method of its command, and turns exceptions into replies. A connection's state
-- is the record `Smtp` of Smtp/State (the session, the envelope, the reader with what will still
-- arrive, what was sent, and the transport), a coroutine is a function on it (`Exec` of Smtp/Exec),
-- and an exception is a value (`Error`), with what was changed before it kept.
--
-- - Prelude: tests, lists, and the operations of `bytes` and `str` that the program calls.
-- - Stream: asyncio's StreamReader, `readuntil` and `read`, over the events that are still to come.
-- - Smtp/State, Smtp/Exec, Smtp/Server, Smtp/Wire: the state; the coroutines; the settings, hooks and
--   codecs of a server (what `SMTP.__init__` makes); `push`, the reads and the end of a connection.
-- - Smtp/Init, with Smtp/Init/Members, Smtp/Init/Checks and Smtp/Init/Mechanisms: `SMTP.__init__`, which
--   makes the settings of a server from its arguments and its handler, or refuses them.
--   Smtp/Sanitize: `sanitize`, which hides the parameter of AUTH from a log.
-- - Smtp/Greeting, Smtp/Basic, Smtp/Auth, Smtp/Address, Smtp/Mail, Smtp/Rcpt, Smtp/Data: the methods
--   `smtp_*` and `auth_*` and what they call, by their names in aiosmtpd/smtp.py.
-- - Smtp/Judge and Smtp/Client: `_handle_client` from the greeting on, what a line asks for, and which
--   method serves a command, of LMTP too (aiosmtpd/lmtp.py).
-- - Smtp/Connection: the start of `_handle_client`, which asks for a PROXY header where the server
--   stands behind a proxy, and Smtp/Connection/Refusing about it.
-- - Smtp/Exec/Moves and Smtp/Steps: laws that a conversation follows if its primitive steps do.
--   Smtp/Closing, Smtp/Ordering, Smtp/Ending and Smtp/Approval, with Smtp/Auth/Outcome, are four such
--   laws. Smtp/Verdicts, Smtp/Limits, Smtp/Data/Transfer, Smtp/Data/Delivery and Smtp/Data/Fresh are about lines,
--   limits, logins and messages.
-- - Smtp/Examples, Smtp/Tests and Smtp/Approval/Tests: a server without hooks, and the theorems at concrete inputs.
--
-- The header that a proxy may send first is a second, smaller program, aiosmtpd/proxy_protocol.py:
--
-- - Proxy/Data and Proxy/Reading: `ProxyData`, and coroutines that read from the stream and return,
--   raise or are cancelled.
-- - Proxy/V1 and Proxy/V2: `_get_v1`, `_get_v2` and `get_proxy`, whose `except` makes an error of an
--   exception. Proxy/Lines and Proxy/Headers are about them, with Proxy/Chunks and Proxy/Filling.
-- - Proxy/Tlv: `ProxyTLV`, with its theorems in Proxy/Tlv/Vectors, Proxy/Tlv/Ending and
--   Proxy/Tlv/Names.
-- - Proxy/Attribs: `same_attribs` and the property `tlv`.
-- - Proxy/Tests: the theorems at concrete inputs.
--
-- The controllers that run a server, aiosmtpd/controller.py, are a third:
--
-- - Controller/Base and Controller/Settings: `BaseController`, its attributes, the wrapper round
--   `factory()` and `_cleanup`; the keyword arguments that it keeps for `SMTP`.
-- - Controller/Threaded: `BaseThreadedController`, the caller of `start` and `stop` (Calls) and the
--   thread of `_run` (Thread) on one state (State), whose steps interleave in any order; a schedule
--   is a list of actions. Its other children are the invariant of both threads (Invariant), what a
--   caller may rely on (Safety), that `stop` ends (Stopping), and starting again (Restart,
--   Retry).
-- - Controller/Unthreaded, Controller/Localhost, Controller/Trigger: `BaseUnthreadedController`;
--   `get_localhost`; `_trigger_server`, with what it does to its sockets.
-- - Controller/Tests: the theorems at concrete inputs.
--
-- What a server calls, and what calls it:
--
-- - Handlers/Lines, Handlers/Relay, Handlers/Deliver, Handlers/Forward: `Proxy` of
--   aiosmtpd/handlers.py, from the lines of a message to the refusals of the server it is passed to.
--   Handlers/Hook: that handler as the one of a server of Smtp, from a client's message to the other
--   server's.
-- - Handlers/Debugging, Handlers/Message and Handlers/Mailbox: `Debugging`, every `from_cli`,
--   `prepare_message`, and `Mailbox` with the messages that its maildir holds.
-- - Main/Listen, Main/Arguments, Main/Start: aiosmtpd/main.py, the address to listen on, `parseargs`
--   and `main`.
-- - Handlers/Tests and Main/Tests: the theorems at concrete inputs.
--
-- The loops over lines (`client_loop`, `skip_line`, `data_loop`) run on fuel: one more than the bytes
-- that are buffered or still to arrive. Each turn takes a byte at least, so that the fuel is enough.
-- `pars` runs on one more than the bytes of its data, `fill` on the bytes that are wanted.
--
-- Choices of the world around are part of a state or a step: how much a transport that is being closed
-- still takes (`flushing`), when a coroutine or a connection comes to its end (`pending`, `silent`),
-- and whether a stream ends for a task that is not cancelled (`eof`).
--
-- Parameters: the handler's hooks, the authenticator, the deprecated callbacks (coroutines that may do
-- anything), Python's codecs, Unicode tables and the parser of addresses (`Library`); for a PROXY header
-- `ip_address` and the texts of exceptions; for a controller what binding, the connection that looks
-- for the server and `factory()` come to; for the handlers what the calls of smtplib come to, and the
-- parser of the email package; for the command line the import of the class, the files that exist,
-- `int`, and what the system answers to `main`.
--
-- Not modelled: logging and warnings; the bytes inside TLS, of which the handshake's outcome is an
-- event; that `command_size_limits` is one dictionary for all connections, so the model's is what a
-- connection makes of it while no other one is there; the files of a maildir; the parsing of arguments by argparse, of which the options are given.
pub mod Prelude
pub mod Stream
pub mod Smtp
pub mod Proxy
pub mod Controller
pub mod Handlers
pub mod Main
