-- ===== src/Lib.antt =====
-- AlfredBrave: a chat backend in Go. A verification library of its core.
--
-- The program. A gateway (joker) takes frames from websocket clients and writes them to the topic
-- chat.msg. worker/persist consumes it: it checks each message, stores it with the next sequence
-- number of its conversation in PostgreSQL, and writes an envelope for each receiver to chat.push,
-- from which worker/deliver sends it to the gateway that holds the receiver's connection (joker/relay). Who is
-- offline is told by worker/push, which consumes chat.notify and throttles what it sends to a device.
-- Group changes write their event into the same stream of numbers (database/group.go).
--
-- Files.
--   Base and its children: shared names, Boolean tests, lists, tables, Go's order on strings
--     (Base/Order), the errors (Base/Errors), and calls that change a state and may fail
--     (Base/Exec).
--   Chat: internal/chat/chat.go, the envelopes.
--   Database: the tables of database/, each a list of rows, oldest first; `statement` is one round
--     trip, `transaction` is Begin with its Commit or Rollback. Database/Kv, Conversations,
--     Messages, Users, Friends, Groups and Groups/Changes hold the operations of the files of the
--     same names.
--     Groups/Rows has their statements, and Groups/Changes/Calls the calls as data. Database/Rules
--     and Ends are the rules for what calls keep and end in; Sequence, Groups/Changes/Steps and
--     Groups/Changes/Numbers are about the sequence numbers, Groups/Changes/Events about the events of
--     groups, Groups/Changes/Refusals about refused operations, Single about the conversations of
--     two users, Users/Created about the row of a new user, Friends/Symmetric about both rows of a
--     friendship. Database/Feed is feed.go, with likes, comments and counters in Feed/Actions and
--     theorems in Feed/Likes, Feed/Counters and Feed/Inbox.
--   Exchange: joker/exchange/manager.go, client.go and online.go, the connections of a chat server as
--     a relation of steps; Entries, Kicked and Stale hold its theorems, Routed and Idle lemmas.
--     Exchange/Router is router.go, produce.go and errors.go, with its theorems in Router/Accepted.
--     Exchange/Acks is ack.go, with its theorem in Acks/Own.
--   Relay: joker/relay/server.go, what other servers ask of the connections of Exchange; Queued
--     holds its theorem.
--   Deliver: worker/deliver/deliver.go, the consumer of chat.push; Deliver/Calls is its gRPC client,
--     Deliver/Routes is router.go with its theorems in Routes/Fresh, and Accounts, with Grouping,
--     Flush, Uncommitted and Round, is about where the messages of a round end.
--   FeedApi: feed/api/publish.go and actions.go; FeedApi/Read is read.go, with its theorem in Page and
--     lemmas in Merge. Abort is internal/abort/abort.go and what a handler is.
--   Fanout: worker/fanout/fanout.go; Inboxes and Stale hold its theorems.
--   Ghost: worker/ghost/ghost.go; Kept and Pages hold its theorems.
--   ServerApi: server/api; Groups is group.go, with its theorems in Groups/Barred and
--     Groups/Announced, and Social friend.go, conversation.go and the lookups of login.go and
--     get_user.go, with Social/Private; Accounts is register.go and login.go, with
--     Accounts/Admitted and Accounts/Returning.
--   Snowflake: internal/snowflake/snowflake.go; Layout, Order and Rollback hold its theorems.
--   Persist: worker/persist/persist.go, Handle and what it calls; Persist/Batch is the batch path
--     and the round of Run. Sequence, Replay, Stuck and History hold the theorems, and under Batch
--     Counters, Numbers, Fresh, Round and Run those of the batch path.
--   Push: worker/push/push.go; Hourly, Window and Lone hold its theorems.
--
-- Failures. Each round trip to the database takes its fate from a list: it is answered, refused
-- before the server has done its part, or lost after it. The broker's writes and commits have
-- lists of their own. A theorem with no hypothesis on the fates holds for all of them. Transactions
-- run one after the other, as the row locks of the source make those of one conversation do; errors are
-- told apart as the source does with errors.Is.
--
-- Fuel. The two waiting loops of Snowflake take fuel, one unit for each round; next_returns says how
-- much is enough. The batches of Fanout take one unit for each friend, where a batch has at least one.
-- The pages of Ghost take one for each row of the table and one more.
--
-- Parameters. google/uuid, encoding/json's Marshal of an event's payload and what it reads from a
-- frame or a record, the clocks, the vendor's channel, gRPC's dials and calls, the contexts of relay
-- calls, bcrypt, net/mail's address, the signer of tokens, the choice of a chat server. JSON
-- contents are texts.
--
-- Not modelled: the wrappers of third-party clients, the relay client, the signing of tokens, the
-- middleware, the lists of users, groups and conversations, configuration, commands and tools, which
-- are glue or not yet done; columns that only the database writes; lengths of texts, but for those
-- that Accounts checks; concurrency inside a process, but for the steps of Exchange.
pub mod Abort
pub mod Base
pub mod Chat
pub mod Database
pub mod Deliver
pub mod Exchange
pub mod Fanout
pub mod FeedApi
pub mod Ghost
pub mod Relay
pub mod ServerApi
pub mod Snowflake
pub mod Persist
pub mod Push
