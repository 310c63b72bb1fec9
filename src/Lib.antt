-- ===== src/Lib.antt =====
-- gg builds programs by reducing a graph of thunks: a thunk names a command, the objects that it
-- reads and the outputs that it makes. An execution engine runs the thunks that wait for nothing;
-- what it returns renames the thunk's outputs in the thunks that wait for them. This library models
-- the core of it, as functions on lists of bytes, and proves what makes it work.
--
-- The parts, with the files of the repository that they are read from:
--   Tokenize   src/util/tokenize.hh: `split`
--   Hash       src/thunk/ggutils.cc (namespace hash), src/util/digest.cc: the names of objects
--   DataList   src/thunk/thunk.hh: the multimap of a thunk's dependencies
--   Thunk      src/thunk/thunk.hh and thunk.cc: thunks, `update_data`; Thunk/Wire has
--              thunk_reader.cc and thunk_writer.cc, Thunk/Files `get_allowed_files`,
--              Thunk/Queries the comparison and the sizes, also of function.cc
--   Graph      src/thunk/graph.hh and graph.cc: the thunks that are still to be reduced
--   Placeholder  src/thunk/placeholder.hh and placeholder.cc: the files that stand for outputs
--   Factory    src/thunk/factory.hh, factory.cc and manifest.cc: thunks made from files
--   Reductor   src/execution/reductor.hh and reductor.cc: the queue of jobs, the engines, the
--              timeouts; Reductor/Reduce has the loop `reduce`, Reductor/Steps its steps
--   Path       src/util/path.cc: `lexically_normal`
--   Chunk      src/util/chunk.hh: views of bytes with bounds
--   Meow       src/execution/meow/message.hh and message.cc: messages to the workers
--   MeowEngine src/execution/engine_meow.hh and engine_meow.cc, src/util/iterator.hh: the engine with a
--              pool of workers; MeowEngine/AsEngine puts it behind the interface of the reductor
--   Gcc        src/models/gcc.hh and gcc-base.cc: stages and languages; Gcc/Options, Gcc/Arguments,
--              Gcc/WOption and Gcc/Parse have gcc-args.cc, the command line; Gcc/Generate and
--              Gcc/ThunkArgs have gcc.cc, the plan of a build and the arguments of its thunks
--   Http       src/net/http_header.cc, http_message.cc, http_request.cc, strict_conversions.cc:
--              requests; Http/Sequence has http_message_sequence.hh, Http/Chunked
--              chunked_parser.cc, the end of a chunked body, and Http/Response http_response.cc,
--              body_parser.hh, mime_type.cc and http_response_parser.cc
-- Prelude, Text and Dict hold what they share: lists, exceptions as values, `std::string` and the
-- unordered containers. A function keeps its name from the source; a class is a record.
--
-- Reductor calls Graph (`add_thunk`, `force_thunk`, `order_one_dependencies`), Graph calls Thunk
-- (`update_data`, the reader and the writer), and both name objects by Hash. The engines call
-- back into Reductor; the callbacks and the timeout checks are the steps of a relation.
--
-- MeowEngine is one of the engines: a thunk goes to the worker with most of its objects. Gcc makes
-- the thunks of a build; what it asks for is a list of orders, in place of the calls that make them.
--
-- Conventions. Texts are lists of bytes. Exceptions are values of `Result`, with the constant part
-- of the message; a failed `assert` is an error of its own. The unsigned types wrap around where
-- that can happen. Unordered containers are visited in one of the orders that C++ allows. Points in
-- time and the timeouts of thunks are numbers of milliseconds without bound; the timeout of a job holds
-- the 64 bits of a signed number, and one on the wire those of a `uint32`.
--
-- Fuel. `split` and `update_placeholder` get the length of the text, and the message parser one
-- turn for each byte, as does the parser of chunks; each turn takes at least one, and the theorems
-- on them show that this is enough. `order_one` needs more fuel than the depth of the graph. `add_thunk` and the loops of the
-- reductor, which may not end (a cycle of thunks, a cycle of cache entries), take any fuel.
--
-- Parameters: SHA-256 in base64 (`Digest`, with the length and the alphabet of what it gives), the
-- protobuf encoding (`Codec`, which decodes what it encodes), the engines (`EngineOps`), the cache, what
-- `getopt_long_only` returns, `basename` and `exists`, the contents and the names of files, what an
-- uninitialised buffer held before, and the texts of the messages to a worker.
--
-- Not modelled: file system and network access, the other engines, the sandbox, the front ends, the
-- models of the other tools, the parser of a stream of responses, the remote functions, and the vendored thrift and jiffy.
pub mod Prelude
pub mod Text
pub mod Tokenize
pub mod Hash
pub mod Dict
pub mod DataList
pub mod Thunk
pub mod Graph
pub mod Placeholder
pub mod Factory
pub mod Chunk
pub mod Meow
pub mod Reductor
pub mod MeowEngine
pub mod Http
pub mod Path
pub mod Tests
pub mod Gcc
