-- ===== src/Lib.antt =====
-- Nunspark runs language models that do not fit in memory: it streams packed weight pieces from
-- disk through a cache of bounded size, and makes up for the reads by speculative decoding. This
-- library models the parts of it that decide what is generated and what is held in memory.
--
-- The parts and how they meet. A generation path (src/nunspark/generate.py) prefills a prompt, then
-- asks the engine for logits and yields tokens; a speculative path asks a draft source for tokens
-- and lets one forward pass verify them. The engine (src/nunspark/engine.py) fetches its weights
-- through the piece cache (src/nunspark/piece_cache.py), which threads share: callers of get, a
-- worker for prefetches, a pool that warms pages. The server (src/nunspark/server.py) runs one
-- request at a time and keeps the KV store of the last one in the prefix slot
-- (src/nunspark/prefix_cache.py); the web application queues jobs (src/nunspark/webapp/jobs.py) for
-- one worker that groups alike ones.
--
-- Base: the names that all share, Boolean tests and lists measured by native numbers.
-- Drafter: src/nunspark/ngram_drafter.py. The record NGramDrafter has the fields of the class;
-- init, propose and observe are its methods, with the exception of the constructor as none. Lookup
-- states what the lookup finds, Adaptive and Probes the policy, over any sequence of calls.
-- Generate: src/nunspark/generate.py. Engine is the interface of the engine and the KV store with
-- its contract; Greedy has generate and the greedy continuation; Emit the bookkeeping that the
-- speculative paths share (SpecStats, the end of sequence, max_tokens); Ngram is
-- ngram_speculative_generate, Draft is speculative_generate, Eagle, Gemma and Adaptive the paths of
-- those names, whose rounds verify with a whole pass and roll the store back (Rollback), with the
-- drafters of src/nunspark/eagle_drafter.py and src/nunspark/assistant.py; Stream is
-- stream_generate, Batch is batched_generate with its padded rows, Config get_optimal_config;
-- Verify, Stats, Ngram/Lossless and Draft/Lossless hold the proofs, Draft/Aligned is about the
-- draft model's cache. The contract of the engine says that a store which has outgrown a sliding
-- window cannot be rolled back; Gemma/Tally is about that path without this contract.
-- PieceCache: src/nunspark/piece_cache.py. Pieces, Table and State hold the data; Ops and Evict
-- have one function for each block that runs under the lock; Threads makes them actions on the
-- cache and its threads, so that a list of actions is an interleaving. Consistency has the
-- invariant of the cache and its threads; Preserve to Releases go through the actions one by one
-- and Interleavings puts them together; Kept, Reads, Dedupe and Retries are about single
-- operations.
-- Jobs: src/nunspark/webapp/jobs.py. Key is _compat_key; Worker has the queue, the peeked ids and a
-- turn of _run; Fifo is about the order of the jobs, Progress about the turns that the worker
-- needs, Groups and Batches about what is grouped.
-- EnginePool: src/nunspark/webapp/engine_pool.py, the slot that holds the loaded engine of the job
-- queue's worker, with the engines that are open at the time; which loads of a call return is an
-- argument, and an engine that is closed stays closed. Leaks has the proofs.
-- KvStore: src/nunspark/kv_store.py. Caches is the interface of the per-layer caches of mlx_lm with
-- make_cache of src/nunspark/archspec.py; Payload writes and reads a layer's file, Layers is the
-- ordered dictionary, and Store has the class, one function for each block under its lock; a load
-- outside the lock is load_cache, and its landing is land. Roundtrip, Content, Kept, Gets and
-- Truncates hold the proofs.
-- PrefixCache: src/nunspark/prefix_cache.py. Slot has the class on an interface for the KV store;
-- Requests is about begin, Commits about commit and the requests of the server.
-- Server: the chat generation of src/nunspark/server.py: the stop field, the stop test and the loop
-- of stream_chat_completion on the tokens that a generation path yields, with the detokenizer as
-- the interface Tokenizer. Overlap, Visible and Stops hold the proofs.
-- Tree: src/nunspark/tree_shape.py and src/nunspark/tree_spec.py. Shape is the constructor of
-- TreeShape, Numbering is about the numbers of its nodes, Walk is sample_accepted_path at
-- temperature 0.
--
-- Numbers are the native natural numbers; Python's integers have no bound here and none is
-- negative. A string is the list of its code points. The loops that wait for an end-of-sequence
-- token run on fuel: a round of a speculative path yields a token, so max_tokens + 1 rounds are
-- enough; the windows of a prefill are at most as many as the prompt has tokens, or as the padded
-- rows have columns; a walk down a tree goes to higher node numbers, so as many rounds as it has
-- nodes are enough. The worker of the job queue runs forever and is modelled by a number of turns.
--
-- Not modelled: the numerics of a forward pass, which are the interface Engine with its contract
-- (an argmax does not depend on the shape of the pass; for a padded batch this is assumed only
-- after tokens that are called steady, since batched_generate documents near-tie flips there);
-- sampling at a temperature; the timing of threads, of which only the order of their locked blocks
-- matters; reads that only warm the page cache; the release of device buffers; the two products
-- with a float in the constructor of the piece cache, which are its arguments; the networks of the
-- feature-level drafters; the arithmetic of acceptance rates, which is the interface Floats; the
-- JSON bodies of the server; files, HTTP and printing.
pub mod Base
pub mod Drafter
pub mod Generate
pub mod PieceCache
pub mod EnginePool
pub mod Jobs
pub mod KvStore
pub mod PrefixCache
pub mod Server
pub mod Tree
