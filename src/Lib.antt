-- ===== src/Lib.antt =====
-- PeachDB, a key-value store with a write-ahead log and a server (src/ of the repository).
--
-- The program. A client's request is a frame of bytes: its length, a version, a command, a key and
-- a value. `Server::handle_request` turns it into a call of `Database`, which keeps all values in
-- memory, logs each change before it shows it, and flushes the log into a file of records. On
-- opening, the file of records is decoded and the log is applied to it.
--
-- Which file models which part, with the functions of the source:
--   Error        src/error.rs: PeachDbError, is_retryable, is_protocol_error; `Outcome`, a result
--                that may also be a panic or a fuel that ran out.
--   Cursor       std::io::Cursor over bytes, and `Crates`, the libraries the code calls.
--   Dtypes       src/dtypes.rs: Dtype, Key, Primitive, Field, and the codec of values in
--                Dtypes/Codec (bytes_from_primitive, primitive_from_bytes, bytes_from_field,
--                field_from_bytes).
--   Db/DbEncoder, Db/DbDecoder, Db/DbDeleter, Db/WalCodec, Db/IndexCodec, Db/IndexFromDb
--                src/db/codec.rs, an encoder or a decoder each (DBEncoder, DBDecoder, DBDeleter,
--                WalEncoder and WalDecoder, IndexEncoder and IndexDecoder, IndexFromDBDecoder).
--   Db/Records   the format of the records apart from the code.
--   Db/System, Db/FileHandler
--                src/db/file.rs: the three files, and each command as a step on one of them.
--   Db/FileTask  src/db/file.rs: the task that owns a file, its channel, and the methods that send to it.
--   Db/Wal       src/db/wal.rs: Wal::open, append_entry, replay, checkpoint.
--   Db/Database  src/db/db.rs: get, set, delete and keys; Open has new, init and open, Flush has
--                flush, update_record_count and rebuild_index. Events has the histories of a database:
--                calls and crashes in any order.
--   Server       src/server/protocol.rs in Protocol; src/server/server.rs: handle_request in Handler,
--                handle_connection and send_response in Connection, Server::new and Server::run in Run.
--   Main         src/main.rs: the database opened and the server on it, started again and again.
--   Cli          examples/peachdb-cli.rs: parse_addr, build_request, parse_value, send_request,
--                read_response, print_response and main.
--   Base         numbers, lists, words, text, UTF-8 and hash maps.
--   Tests        the properties at concrete inputs.
--
-- How the code is modelled. An encoder or a decoder is a record of the fields of its struct, and a
-- method returns the changed record. A byte is a natural number, an integer of w bytes is written
-- with its wrap-around (`as_u16`, `as_u32`, `to_le_bytes`), an f64 is its 64 bits, a String its
-- UTF-8 bytes. The state of a database is `System`: the contents of the three files, the maps, the
-- entries of the log in memory, and `fates`, which say of each system call to come whether it is
-- done or fails, and after how many bytes. A program (`Exec`) keeps the state it has reached when
-- it fails. One fate stands for the seek and the write of a command, and a write that fails is reported
-- by the command that it belongs to. A crash keeps the files and forgets the rest.
--
-- Loops over an input run on fuel, and the fuel is the length of the input: an entry of the log, a
-- record, an index entry and a key of a response take a byte at least. A connection has one more than
-- that: a turn that is not the last takes four bytes, and the last may take none. The decimal digits
-- of a number run on the number itself, which is no less than the divisions by ten that it takes.
--
-- Parameters. The crates crc and byteorder are `Crates`: a checksum below 2 ^ 32, and reads that
-- agree with read_exact and a byte order. The order in which a hash map is iterated is `Iteration`,
-- a map with the same lookups. The texts of errors are the argument `to_string` of the handler. `World`
-- is what the client takes from elsewhere: the network, the texts of errors, and the standard
-- library's reading and display of floats.
--
-- A task of a file is a step relation over its channel, and its clients interleave. The connections
-- of a server (Server/Run) interleave too: a step is a turn of a connection's loop, or, where the turn
-- is a `set` or a `delete`, one of its two halves, since the lock of the log is released before the
-- lock of the maps is taken. Elsewhere a call of the database runs to its end before the next, but for
-- a `set` inside a `flush` (Db/Database/LostSet) and a `set` inside a `set` (Db/Database/Race).
--
-- Not modelled: the scheduler and the locks of tokio (an interleaving may be any), allocation, the text
-- of Display but for integers, and examples/bench.rs.
pub mod Base
pub mod Error
pub mod Cursor
pub mod Dtypes
pub mod Db
pub mod Server
pub mod Cli
pub mod Main
pub mod Tests
