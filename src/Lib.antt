-- ===== src/Lib.antt =====
-- Models of several programs of this repository, written from their sources, with the theorems that
-- hold of them. Paths are from the root of the repository.
--
-- Common: lists and integers over the native numbers, texts as lists of bytes, decimal texts, the
-- unordered_map as an association list in the order of its iteration (Dict for text keys, Table
-- for numbers), and `Run`: code either returns or ends in a fault, which is an exception that
-- nobody catches or an access that C++ leaves undefined.
--
-- Redis (redis-server/): a client's bytes are framed by readRequest (Redis/Server), parsed by
-- RedisNode::deserialize (Redis/Node), dispatched by CommandHandler::handleRequest
-- (Redis/Dispatch, Redis/Command) to the handleCommand functions (Redis/Handler, Redis/Numbers,
-- Redis/Lists), which work on the Cache (Redis/Cache) and reply with serialised nodes; the reply
-- is sent by sendResponse in as many parts as the socket takes (Redis/Server). Cache::save and
-- Cache::load are in Redis/Dump. A node remembers its serialisation in a mutable member, so that
-- the node in the cache changes when it is sent: Redis/Coherence is about that. The clock, what
-- std::regex and fork do, the results of the socket calls and the answers of the file system are
-- arguments. A handler reads the clock once. The loop over a dump's metadata has the length of
-- the file as its fuel, and each round reads from the file.
--
-- Brainfuck (misc/brainfuck.cpp): validateCode (Brainfuck/Validate), interpretCode
-- (Brainfuck/Machine, Brainfuck/Interpret), executeByteCode (Brainfuck/Bytecode), compileFile
-- (Brainfuck/Compile), transpileByteCode with the C functions of its output
-- (Brainfuck/Transpile), and the choice of main and getLoopRepr (Brainfuck/Cli). The interpreters
-- run on fuel and say so when it is gone, since a program need not stop. The order in which the
-- compiler visits its unordered_map is a parameter. The `long` values of instructions are
-- integers without a bound. The counters of the profile, the interactive shell and the layout of
-- the bytecode file are not modelled.
--
-- OrderedMap (misc/ordered_map.hpp): the std::list as nodes with addresses, and the table from
-- keys to addresses, so that an iterator whose node is gone is seen. Keys are numbers.
-- Lru (misc/cache.hpp): the memo, which keeps its results in an ordered map under their hash; the
-- function and the hash are parameters, and the function gets the cache. Its loop has as many
-- rounds as there are entries, which is enough as each takes one away.
--
-- Fnmatch (misc/fnmatch.hpp): compilePattern, up to the text of the regular expression; each round
-- takes a character of the pattern away, so that its length is fuel enough. What std::regex makes of
-- that text is not modelled.
--
-- BoundedInteger (misc/bounded_integer.hpp): the constructor and the operators with T = unsigned, on
-- numbers of 32 bits.
--
-- Torrent (torrent/src/piece_manager.cpp): PieceManager and its Piece, with counters of 16 bits
-- and sizes of 32; SHA-1 is a parameter.
-- The messages between peers (Torrent/Protocol: torrent/src/protocol.cpp), and what the downloader
-- does with them for one peer (Torrent/Peer: torrent/src/torrent_downloader.cpp): the loop over the
-- receive buffer, whose handlers call PieceManager, and what an idle peer is sent. The loop runs on
-- fuel and says so when it is gone, since it need not end. The sockets, the handshake, the writer to
-- the disk and the requests to the tracker are not modelled.
--
-- Ciphers (cryptography/rot-cipher.cpp, cryptography/vignere-cipher.cpp): both ciphers, on ASCII.
--
-- BigInt (misc/bigint.hpp): the digits to the base 10000, lowest first, as vectors; comparison,
-- arithmetic of magnitudes (BigInt), division with its binary search (BigInt/Divide), the signed
-- operators (BigInt/Operators) and texts (BigInt/Text). The search over 10000 digits has fifteen
-- rounds, which halve what is left each time.
--
-- Hashlib (cryptography/hashlib.hpp): CRC-32 and hexadecimal texts (Hashlib), the feeder that cuts a
-- text into padded blocks (Hashlib/Feeder) and SHA-1 (Hashlib/Sha1). A text of n bytes has less than
-- n / 64 + 3 blocks.
--
-- Sudoku (puzzles/sudoku.cpp): candidates of a cell (Sudoku), the search, the solver and the
-- generator (Sudoku/Search), and the reader (Sudoku/Read). A cell is a number, its character. A
-- filling is what the search looks for; a solution keeps the rules among the given digits too. The
-- search passes through 81 cells and the ends of nine rows, which is its fuel. std::shuffle with its
-- generator is a parameter.
--
-- Bitcask (cli/bitcask.cpp): the table, the entries and set, get and erase (Bitcask), loading from a
-- log or the hint file (Bitcask/Load). A log is its bytes, those still in a buffer included. The
-- clock and the files that a directory has are arguments. Every entry takes bytes from the file, so
-- that a loop with one round more than the file has bytes is enough. merge is in Bitcask/Merge; the
-- hint file that it writes and the commands of main are not modelled.
--
-- The other programs of the repository are not modelled. Many of them are input and output around a
-- library; the parsers, the other solvers and the allocators among them are left out so
-- far.
pub mod Common
pub mod Redis
pub mod Brainfuck
pub mod OrderedMap
pub mod Lru
pub mod Torrent
pub mod Fnmatch
pub mod BoundedInteger
pub mod BigInt
pub mod Hashlib
pub mod Sudoku
pub mod Bitcask
pub mod Ciphers
