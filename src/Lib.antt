-- ===== src/Lib.antt =====
-- dLSM, an LSM tree index over remote memory: the key formats, the write path and their order.
--
-- Parts and files. A client's updates are put into a WriteBatch (db/write_batch.cc, WriteBatch.antt),
-- a byte string in the coding of util/coding.h (Coding.antt). A batch is iterated to insert its
-- updates, each with a sequence number, into a memtable. Stored keys are internal keys
-- (db/dbformat.h and db/dbformat.cc, InternalKey.antt): the user key with sequence number and type
-- behind it, ordered by the InternalKeyComparator, which is built over the user's Comparator
-- (include/dLSM/comparator.h and util/comparator.cc, Comparator.antt).
--
-- Model. A std::string or a Slice is the list of its bytes. The functions have the names of the code,
-- in snake case; a function that advances an input Slice returns the rest of it, and a false or null
-- result is none. A machine word is a natural number, with its wrap-around written out. A loop is a
-- recursion on the list that it walks, on accessibility where a number falls, or on fuel: Iterate has
-- the number of bytes as its fuel, since each record takes a byte at least.
--
-- A memtable (db/memtable.cc, Memtable.antt) holds the updates in the order of their internal keys;
-- a lookup seeks to the lookup key and reads the entry there. A batch goes into it by the inserter
-- of the write batch, whose calls of Add are a list of entries. Its skip list (db/inlineskiplist.h)
-- is a parameter with a contract. The tables of a level are files with key ranges: db/version_set.cc
-- searches them (Versions.antt) for a key (FindFile, and ForEachOverlapping with a callback over a
-- state), for an overlap, for the inputs of a compaction, and for the level of a memtable's output
-- (Versions/Output.antt). FindFile has the number of files as its fuel, since the interval shrinks
-- in each round; GetOverlappingInputs restarts at most once for each end of each file, so n * (2 * n
-- + 1) rounds are enough for n files.
--
-- A table has a filter over its keys (table/full_filter_block.cc and util/bloom_impl.h, Filter.antt), and
-- util/bloom.cc is a second, simpler one; both take the hash of a key (util/hash.cc) and set some bits.
-- The number of probes, which the code derives in floating point, is a field of the model, a line of
-- the cache has 64 bytes, and the old content of a buffer is a parameter, since neither clears it.
--
-- Tables are made of blocks (table/block_builder.cc, table/block.h and table/block.cc, Block.antt),
-- whose keys leave out the prefix that they share with the key before. The iterator is a record that
-- each move maps to a new one; the loops of Prev, Seek and SeekToLast have the number of bytes as
-- their fuel, since an entry has three bytes at least, and the loops over restart points their number.
--
-- A compaction (db/db_impl.cc and memory_node/memory_node_keeper.cpp, Compaction.antt) reads the merged
-- entries of its input tables, drops those that no reader sees, and writes the others to new tables; it
-- may be split into ranges (Compaction/Ranges.antt). A flush (db/memtable_list.cc,
-- Compaction/Flush.antt) does so with the entries of memtables. The merged input is a list; the
-- size of a table and the status of its Finish are parameters, and so is the flag that stops a
-- compaction.
--
-- The merging iterator (table/merger.cc, Iterators.antt) reads several sorted inputs as one, and the
-- iterator of a client (db/db_iter.cc, DbIter.antt) reads the user keys and values that are visible at
-- its sequence number from the merged entries. An iterator that another one reads is a cursor in a list,
-- as include/dLSM/iterator.h promises it. The check that the merging iterator makes in a debug build
-- is a function beside it (check_order, with the state that it keeps in DebugState).
--
-- A node tells the others of its tables and of changes to a version by an edit (db/version_edit.h and
-- db/version_edit.cc, VersionEdit.antt and VersionEdit/Records.antt). A map or a set is the sorted list of
-- its elements, the objects behind pointers are their values, and a variable that is never set holds a
-- parameter. What DecodeFrom asserts of a table is a condition on it (IsFile); for a table
-- without data, which EncodeTo may not be called on, the model writes zeros. The loop has the code's own
-- counter as its fuel: above 100000 records it ends the process.
--
-- The cache of blocks (util/cache.cc, Cache.antt) finds its entries by a hash table. A chain of entries is
-- the list of their addresses, and a heap maps these to the entries. Resize doubles the length at most
-- 32 times, enough for the 2^31 entries that its words allow. A shard (Cache/Lru.antt) keeps the entries without
-- a client in a list, the oldest first; the loops of Insert and Prune have the length of that list as their
-- fuel, since each round takes an entry from it.
--
-- Outside the model: the RDMA layer, threads and locks, files and the environment, and whatever is
-- listed in the project's component list as not modelled.
pub mod Common
pub mod Status
pub mod Coding
pub mod Comparator
pub mod InternalKey
pub mod WriteBatch
pub mod Memtable
pub mod Versions
pub mod Filter
pub mod Block
pub mod Compaction
pub mod Iterators
pub mod DbIter
pub mod VersionEdit
pub mod Cache
