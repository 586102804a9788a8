-- ===== src/Lib.antt =====
-- voltkv, an in-memory key-value server that speaks the RESP protocol of Redis.
--
-- A connection reads a command (internal/resp), the command layer executes it (internal/command)
-- against the sharded store (internal/store) and the publish/subscribe broker (internal/pubsub),
-- appends the commands that write to the append-only file (internal/aof), and writes the reply. At
-- the start the server replays that file; a timer sweeps the expired keys.
--
-- What stands for what:
--   Base          Go's strings as lists of bytes, slices, maps as association lists, integers
--   Number        strconv's ParseInt and FormatInt and int64 products (internal/store/helpers.go)
--   Glob          globMatch, matchHere, matchClass (internal/store/helpers.go); Classes and Spec the
--                 relation that they decide
--   Store.*       Store and its methods (internal/store/store.go): Time the time package as used,
--                 Entry the values, Shards the shards and shardFor, Strings, Generic, Hashes and
--                 Lists the methods on one key, Walks the methods on all keys
--   Store.Refine  the plain map that the store promises to be; Typed which fields an entry of each
--                 kind uses, Untimed entries without a deadline and stores with the same ones
--   Resp          the Writer as the bytes it writes, Resp.Reader and Resp.Inline the Reader
--                 (internal/resp/resp.go)
--   Aof           writeCommand, Replay, Rewrite, snapshotCommands (internal/aof); Aof.Log the channel, the
--                 writer goroutine and the file; Deadlines and Restored the PEXPIRE of a rewrite
--   Pubsub        the Broker (internal/pubsub/pubsub.go)
--   Command.*     Execute and the handlers (internal/command), in the monad M over a World: the
--                 store, the log, the broker, the connection and its output
--   Command.Keeps what every handler keeps if its single actions do; Command.Safety and
--                 Command.Typed with it
--   Server.*      Server, handleConn and its delivery goroutines, replayAOF (internal/server/server.go):
--                 System the steps of all goroutines, Start what Run does before it listens, Serving
--                 the loop of one connection, Durable what the handlers log against what they
--                 do: Outcome per handler, Recorded over a run, Restart and Rewrite for a start from
--                 the log and from the rewritten log; Shutdown the loop of Run and its end, from
--                 the cancel of the context on. IsFresh is a server as Run begins to listen: New
--                 gives one, and so does a replay whose log leaves no subscription open, as that of the
--                 log of a run without deadlines does
--   Demo          the RESP client of the HTTP demo and its handlers (cmd/httpdemo)
--   Tests         runs at concrete inputs
--
-- How the code is read:
--   A method of the store holds the lock of its shard, so it is one function from the state, at the
--   time that its clock read gave, to the new state and its result. Get and StrLen take the lock
--   twice when they find an expired key; the second part is `lazy_delete`, on its own.
--   A time is a number of nanoseconds from Go's zero time, without bounds; a duration is an int64,
--   and its products wrap around. A length is a natural number without bounds.
--   A range over a Go map is in the order of the association list.
--   The reader works on the bytes that are still to come; a stream that is used up is the end of the
--   file. `make` panics from 2^48 bytes on, Go's limit for an allocation on 64 bits.
--   Publish is two steps, the snapshot of the set and the sends, as it gives up its lock between them.
--   A server is a step relation: any goroutine takes the next step. A round of a connection, from the
--   read of its command to the flush of its reply, is one step, and so is a tick of the sweep timer;
--   the start of a connection's goroutine, each round of its deferred loop and the end of its wait
--   for the delivery goroutines are steps of their own. What its client is going to send is fixed when
--   a connection is accepted. A panic stops the program, so there is no step behind it.
--   A run of Run adds the context to it: a connection looks at the context before a round, and the
--   round goes as that look went, even if the cancel comes in between.
--
-- Bounds and fuel: the matcher has fuel one above the length of the pattern, and each round shortens
-- the pattern. `doubled` doubles at most n times to get to n. `digits` divides by ten at most n + 1
-- times. A replay has fuel one above the length of the file, and the loop of a connection one above
-- that of its input: each command has a byte at least.
--
-- Not modelled: the swap of files in Rewrite; the listener and the errors of Accept (internal/server);
-- the flags and signals (cmd/server); the HTTP server, its JSON and its home page (cmd/httpdemo); the
-- locks themselves, files and sockets. The effect of one client inside a command of another is
-- modelled where the code gives up a lock in between: `lazy_delete` and Publish.
pub mod Base
pub mod Number
pub mod Glob
pub mod Store
pub mod Resp
pub mod Aof
pub mod Pubsub
pub mod Command
pub mod Server
pub mod Demo
pub mod Tests
