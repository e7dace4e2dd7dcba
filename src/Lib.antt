-- ===== src/Lib.antt =====
-- A model of the core of the miner, and proofs about it: hashing, headers, Merkle roots, targets,
-- the work built from a pool's job, the search for a nonce, the pool's protocol on JSON
-- texts, the client's sessions, the statistics and the configuration.
--
-- The parts. A pool's job (src/mining/work.hpp) holds two halves of a coinbase transaction, a
-- Merkle branch and header fields. `buildWork` puts an extranonce2 between the halves, hashes the
-- coinbase (src/bitcoin/sha256.cpp), folds the branch to the Merkle root (src/bitcoin/merkle.cpp),
-- serializes the header (src/bitcoin/block_header.cpp) and computes the share and network targets
-- (src/bitcoin/difficulty.cpp) on 256-bit integers (src/bitcoin/uint256.cpp). `mine` and `verify`
-- (src/mining/miner.cpp) hash that header at one nonce after another and compare with the targets.
-- Hashes and extranonces travel as hex texts (src/util/hex.cpp). The controller keeps the job that
-- the pool client delivers, and hands verified nonces back to it. The client (src/stratum/client.cpp)
-- cuts a byte stream into lines, parses each as a message (src/stratum/message.cpp) on the JSON parser
-- (src/util/json.cpp), answers by its handlers, and sends the shares that are queued. The statistics
-- (src/mining/stats.cpp) count what happens, and the configuration (src/core/config.cpp) is read
-- from JSON and written to it.
--
-- The files, each with the code it is about.
--   Base              Boolean tests, lists, powers, bits and bytes on the native numbers.
--   Util/Hex          src/util/hex.cpp: to_hex, from_hex, from_hex_fixed.
--   Bitcoin/UInt256   src/bitcoin/uint256.cpp: four limbs, shl256 for operator<<, shr256, add256,
--                     sub256, or256, compare256, divide; UInt256/Bytes has from_hash and to_hash.
--   Bitcoin/Sha256    src/bitcoin/sha256.cpp: reset, update, transform, finalize, sha256, sha256d.
--   Bitcoin/Hash      src/bitcoin/hash.cpp: raw and display texts, swap_word_bytes.
--   Bitcoin/Header    src/bitcoin/block_header.cpp: serialize, deserialize, set_header_nonce.
--   Bitcoin/Merkle    src/bitcoin/merkle.cpp: roots and the branch of the coinbase.
--   Bitcoin/Difficulty src/bitcoin/difficulty.cpp: compact bits and share targets.
--   Mining/Work       src/mining/work.cpp: build_work_with_extranonce2, hash_work_at_nonce.
--   Mining/Search     src/mining/backend.hpp and CpuReferenceMiner of src/mining/miner.cpp.
--   Mining/Controller MinerController of src/mining/miner.cpp: the job its threads share, with its
--                     generation, and handle_found_nonce.
--   Mining/Worker     the walk over the nonces in workerLoop of src/mining/miner.cpp.
--   Stratum/Lines     LineBuffer of src/stratum/message.cpp, and the loop that takes its lines.
--   Stratum/Fields    the 32-bit and previous-hash texts of src/stratum/message.cpp.
--   Mining/Statistics Statistics of src/mining/stats.cpp: counters, sessions and the sample window.
--   Util/Decimal      std::to_string and strtoll on the numbers of src/util/json.cpp.
--   Util/Json         Json of src/util/json.hpp and its accessors; Util/Json/Writer has dump,
--                     Util/Json/Scan the texts and numbers, and Util/Json/Parser parse.
--   Stratum/Messages  Message::parse and the requests of src/stratum/message.cpp.
--   Stratum/Payloads  parseSubscribeResult and parseNotify of src/stratum/message.cpp.
--   Stratum/Client    the handlers, the state and the queue of src/stratum/client.cpp;
--                     Stratum/Client/Session has a connection from its reset to its close.
--   Core/Config       Config of src/core/config.cpp: defaults, patches and the JSON of it.
--   Examples          The theorems at concrete values, and the genesis block's hash.
--
-- How the code is read. A machine word is a natural number, and each operation that can leave its
-- width writes out the wrap. Byte strings, texts and hashes are lists of numbers. An output
-- parameter with a Boolean result is an option, or a record where it is written on failure too. The
-- arithmetic on `double` is the record Doubles, a parameter: its laws are that the cast to 64 bits
-- gives a word, and one that is positive from 1.0 up to 2 ^ 64. The record
-- Floats is what JSON and the client use of `double`: strtod, printf, casts, order and products, with
-- laws on integers below 9 * 10 ^ 15, which `double` holds exactly, and that no double is less than
-- itself. Sockets are the list of what
-- each turn of the loop received, and a function that says which lines could be sent. A worker's call
-- of `submitShare` is a turn of its own. A stop
-- flag is the function of what loading it gives in each round. Handlers under one mutex are
-- functions on the state it guards, and their interleavings lists of events. The time is an
-- argument of the statistics, and is left out elsewhere, where no result depends on it.
--
-- Fuel. The loops over blocks, levels and bits are recursions on a count: one round for each byte
-- of the data, for each leaf, and 256 for division; a block has 64 bytes, a level halves, and a
-- number has 256 bits, so these are enough. The search recurses on the nonces that are left, and
-- the loops over lines on the bytes of the buffer, since each line takes a newline. The JSON parser
-- has two rounds for each character and one more, since of two calls in a row, one inside the other,
-- at least one takes a character.
--
-- What is not modelled: sockets, threads, logging, the dashboard's server, the CUDA kernels, files,
-- and the approximate difficulties that are only displayed; and so far also the controller's start,
-- stop and the exits of its worker loop, the client's start, stop and thread, and the statistics as
-- JSON.
pub mod Base
pub mod Util
pub mod Bitcoin
pub mod Mining
pub mod Stratum
pub mod Core
pub mod Examples
