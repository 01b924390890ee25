-- ===== src/Lib.antt =====
-- A model of the server of the VOID-CHATS service and the theorems about it. A definition keeps the
-- words of the function that it models, and the comment at the top of its file names that function's
-- file.
--
-- The parts, with the files under VOID0000-api/server that they model:
--
-- - Friends: routes/friends/actions.ts and remove.ts over the `friendships` table of
--   VOID0000-api/db/migrations/0000_core_schema.sql. A route (send_request, accept_request, and so
--   on) takes the caller and the table and gives the new table, the reply and the live events;
--   run_action is one request of any kind. Laws and Consent are about requests one after the other,
--   Race is about two that cross.
-- - Group: a group conversation. Permissions models utils/groupPermissions.ts and
--   routes/conversations/permissions.ts, with a JSON object as a list of fields. Rows is the
--   database that the routes share (utils/conversationIdentity.ts, utils/groupMembership.ts); Owners
--   is ensureGroupOwner of the latter; Members is routes/conversations/members.ts; Roles is ownership.ts
--   and roles.ts of routes/conversations/members. Members calls Owners and Permissions, and
--   adds a user only by are_friends of Friends. A transaction is one step: its checks refuse by
--   a Checked value, which leaves the database as it was, and its writes come after them. The role
--   change has no transaction in the code, and so it is two functions, check_role_change and
--   change_role, between which the database may change.
-- - Reactions: reactions/state.ts. A message's partition of `reaction_state` is a record; the
--   conditional batch is execute. set_reaction makes at most eight attempts, as the code does, and
--   each attempt meets the partition twice, when it reads it and when its batch is decided; other
--   writers run in between (Run and Answers). Queue is the MessageQueue in front, a step relation.
-- - Limits: Bucket is the script of middleware/rateLimits/tokenBucketLimiter.ts, Lockout the loop
--   over dimensions of authLockoutLimiter.ts; Counters is auth/services/securityCounterService.ts
--   and Attempts is authAttemptLimitService.ts, which calls it. The floating point numbers of the
--   script are a parameter (Numbers), in units of which each number is a whole multiple, with one
--   function for each of the four operations; Bucket/Rounding says what is asked of them, the
--   relative error of a double, and how much a refill may be off by it; Retrying is about the
--   announced wait. The digest of a key's parts is a parameter, of which nothing is assumed.
--
-- - Attachments: attachments/lifecycleCore.ts and reservationReconciliation.ts, over the tables of
--   VOID0000-api/db/migrations/0007, 0009, 0010, 0011, 0015, 0016 and 0017 and the object store.
--   Rows has the tables; Triggers what the migrations do on an INSERT or a DELETE; References
--   extractProtectedAttachmentIds; Reserving reserveForMessage; Writing what follows the write of
--   the message, and the deletion of an unsent file; Expiring cleanupExpiredStaged; Blobs
--   stageUploadedAttachments; Collecting the two clean-ups of blobs and objects; ObjectKeys the
--   name of an object; Groups and Reconciling the worker; EditPolicy is attachments/editPolicy.ts.
--   A transaction is one function, at one time `now`, that gives the new database or an error,
--   after which the database is as it was. Steps is every call as a step, and Site adds uploads,
--   the scan of the objects and the stages of the collector, which removes an object between two
--   transactions. Lifecycle and Safety are about the histories of a Site. There is one collector,
--   as the lock of attachments/cleanup.ts arranges.
--
-- A user, a conversation, an emoji and a key are natural numbers (an identifier that a request
-- spells in upper case is not modelled), and so are times, in milliseconds, or microseconds in
-- Attachments.
-- `none` stands for a missing user, row or value. All loops are structural recursion; the one bound
-- is the eight attempts of the reactions, which is the code's own.
--
-- Not modelled: failures of the database inside a route, which the routes answer by 500; the
-- bulk read of reactions and the delays between attempts; the timers and locks of the attachment
-- workers, and the reading of their configuration; profile
-- details, presence and message texts in answers; the reading of a request's subject; the other
-- routes and services (messages, invites, sessions, two-factor challenges), the web
-- client and the Go services.
pub mod Common
pub mod Friends
pub mod Attachments
pub mod Group
pub mod Reactions
pub mod Limits
