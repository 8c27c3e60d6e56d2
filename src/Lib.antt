-- ===== src/Lib.antt =====
-- A model of the OMNI file system: a library that keeps a small file system with accounts in one
-- container file, `source/core/ofs_core.cpp` with the headers beside it, and the server that hands its
-- operations to clients, `source/server/server.cpp`.
--
-- The parts, and where they are modelled:
--
-- HashMap       `SimpleHashMap<V>` of source/data_structures/simple_unordered_map.hpp, the map of the
--               user index, the path index and the sessions. `std::hash` is the field `hash_key`.
-- Types         source/include/ofs_types.hpp and source/core/meta_entry.hpp: the enumerations and the
--               packed structs `UserInfo`, `MetaEntry` and `OMNIHeader`; Types/Images has their bytes.
-- Stream        `std::fstream` as the code uses it, as documented: the bytes of the file, the position,
--               the state bits, and a device that may refuse any transfer.
-- Blocks        `write_block`, `read_block`, `get_block_chain` of source/core/ofs_core.cpp.
-- Bitmap        `bitmap_get`, `bitmap_set`, `allocate_blocks`, `free_blocks`.
-- Codec         `encode_data`, `decode_data`: the byte substitution of file contents.
-- Format        the sizing that `fs_format` computes, and the block count of `fs_init`.
-- Config        `SimpleConfig::load`.
-- Mount         the writes of `fs_format`, `fs_init` and `fs_shutdown`. The library opens files: whether
--               one opens is an argument.
-- Instance      `FSInstance` and `SessionInfo` as records, operations as state passing with an outcome
--               (`ok`, an error code, a loop without end, an index out of range), and the `persist_*`
--               functions.
-- Users         `placeholder_hash` and the operations on accounts and sessions. The clock, `std::hash`
--               and the random session id are arguments.
-- Directory     `dir_block_read`, `dir_add_child`, `dir_remove_child`, `find_free_meta_index`.
-- Paths         `split_path_tokens`, the parent and the name of a path, `build_full_path_from_meta`,
--               `rebuild_path_index`.
-- Files         `file_create`, `file_read`, `file_edit`, `file_delete`, `file_exists`, and below it
--               `file_truncate` and `file_rename`.
-- Directories   `dir_create`, `dir_delete`, `dir_exists`, `set_permissions`.
-- Metadata      `dir_list`, `get_metadata`, `get_stats`, with the structs of Types/Reports.
-- Server        source/server/server.cpp: the lines of a received buffer, `parseArgs` and
--               `make_response_json`; Server/Commands is `handleRequest`, Server/Texts the texts that
--               it writes and `get_error_message`, Server/Queue the `TSQueue` with the threads that
--               share it, as a step relation.
-- Prelude       numbers, lists, words of fixed width, byte strings, signed return codes.
-- Examples      each theorem with hypotheses at an input that meets them, and tests.
--
-- The files operations call one another as in the source: `file_create` allocates blocks from the
-- bitmap, encodes each chunk and writes its block, writes the tables back, adds the new entry to the
-- block of the parent directory and the path to the path index; `file_read` finds the entry in the
-- path index and walks its chain of blocks. A request comes to the server as a line of a buffer, is
-- split into tokens, waits in the queue, is run by a worker as one of these operations under the
-- session of its client, and is answered by a line of JSON. What a client makes of it is stated with
-- a strict reader of such objects in Server/Replies: it refuses a control byte inside a string.
--
-- Integers are natural numbers with the wrap-around of their C++ type written out. Bytes are numbers,
-- byte strings are lists. Strings from a caller carry no NUL.
--
-- Loops over a chain of blocks run on fuel, since a damaged container can hold a cycle. `file_read`
-- passes `total_size + 1` rounds, one more than the bytes it may fetch; `get_block_chain` has its own
-- bound. `dir_block_read` and `file_delete` have no bound in the source and take the fuel as an
-- argument; where it runs out the outcome is `hangs`. The sizing loop of `fs_format` takes fuel too,
-- and `total_size + 2` rounds are enough where it ends.
--
-- Not modelled: the calls of the socket interface, console output and the terminal client, since
-- they hold no logic of the file system, and the few lines with which
-- source/server/main_server.cpp reads its own settings; that memory runs out, as where `file_read`
-- reserves a damaged `total_size`. The steps of the threads are those of the queue; that four
-- workers call the file system without a lock is not modelled.
pub mod Prelude
pub mod Types
pub mod HashMap
pub mod Stream
pub mod Blocks
pub mod Bitmap
pub mod Codec
pub mod Format
pub mod Instance
pub mod Users
pub mod Directory
pub mod Paths
pub mod Files
pub mod Directories
pub mod Metadata
pub mod Server
pub mod Config
pub mod Mount
mod Examples
