-- ===== src/Lib.antt =====
-- The backend of the social platform Meta EN|IX: accounts with sessions, roles and two-factor
-- authentication, follows, and posts with comments, likes, reactions, shares, bookmarks, reports
-- and collections.
--
-- Parts, and the files that model them. Paths are from the root of the repository.
--
-- Base            lists, numbers and tables of rows: a table is a list of rows under a primary key
--                 (Base/Rows), and Base/Counter is the interface of a counter column, which a row of
--                 one table keeps of the rows of another that refer to it.
-- Http            what a handler throws: the framework's exceptions, and any other error.
-- Effects         calls on a state that return or throw, for the handlers of accounts.
-- Roles           src/security/roles: the table of permissions (Roles), the guards of routes
--                 (Roles/Guard, with src/security/auth/guards), the rules handed to the library CASL
--                 (Roles/Ability), and who passes a guard (Roles/Access).
-- Session         src/common/interfaces/authenticated-request.interface.ts.
-- Accounts        the entities of users and of their security records, and the counters of failed codes
--                 in Redis.
-- Twofa           src/rest/api/users/security/twofa/twofa.service.ts: setupTwoFactor is
--                 setup_two_factor, and so on. Twofa/Limit is about the limit of failed codes,
--                 Twofa/Backup about backup codes.
-- Auth            login, verifyLogin2fa and logout of src/security/auth/auth.service.ts; Auth/Login and
--                 Auth/SecondStep are about the two steps of a login, Auth/BothSteps about both. Auth/Passwords is
--                 forgotPassword and resetPassword, Auth/Registration register, verifyEmail and
--                 resendVerifyEmail, with what they use of users.service.ts.
-- Posts           src/rest/api/users/services/posts/posts.service.ts. Posts/Db is the state of a handler:
--                 the tables, the cache of users, the tags whose cached answers were dropped, and the
--                 calls that will fail. A handler is an Action, a function from a state to an
--                 Outcome, which is an answer or an exception together with the state then. Posts/Repo
--                 holds the calls that several handlers make; Posts/Comments, Likes, Reactions, Engage
--                 (shares, bookmarks, reports, views), Collections (createCollection) and Owner (pin,
--                 archive, schedule, delete) hold the handlers, under the names of the source in
--                 snake case; Posts/Keeps holds the rules for what a call that may fail leaves alone, and Posts/Tallies is about
--                 the requests that the counters of a post count.
--                 Posts/Create is createPost and updatePost (edit_post), with Posts/Text for
--                 hashtags, mentions and the type of a post; Posts/Create/Files is
--                 createPostWithFiles, on the database together with the bucket of Storage.
--                 Posts/Listings holds the listings, as pages in the words of Paging, and
--                 Posts/Analytics the numbers that getPostAnalytics answers with.
-- Users           src/rest/api/users/users.service.ts: updateUser, for the two names of a user; what logins and
--                 registrations call of this file stands in Accounts, Auth/Registration and
--                 Auth/Passwords.
-- Follows         src/rest/api/users/services/follows/follows.service.ts: followUser, unfollowUser,
--                 isFollowing, clearCooldown. Follows/Counted is about the two counters of a user,
--                 Follows/Status about the cached answers and the time before one may follow again.
--                 Follows/Batch is batchFollowStatus, Follows/Suggestions getFollowSuggestions,
--                 Follows/Listings getFollowing and getFollowers, and Follows/Numbers getFollowStats
--                 and getFollowAnalytics; Follows/Connections counts the connections of users for
--                 them. Follows/Runs is about requests one after the other.
-- Paging          src/common/dto/pagination.dto.ts and the arithmetic of pages; Paging/Cover is about
--                 the pages of a listing put together.
-- Redis           libs/redis/src: the keys of utils/key-builder.util.ts (Redis/Keys), and acquireLock,
--                 releaseLock, withLock (Redis/Lock), checkRateLimit (Redis/Limit) and the caches
--                 with tags, cacheSet, invalidateByTags and getOrSet (Redis/Tags), of
--                 redis.service.ts. Redis/Client is the interface of the server: its commands, with
--                 what its documentation says of them.
-- Caching         libs/caching/src/caching.service.ts: getOrSetUser is get_or_set_user, and so on, over
--                 Redis/Tags; methods that differ by the kind of their key alone are one function.
--                 Caching/Answers is about failing commands, Caching/Keys about the keys,
--                 Caching/Kept and Caching/Served about the time after cacheUser.
-- Throttle        libs/throttle/src: throttle.service.ts (Throttle/Service) and
--                 guards/throttle.guard.ts (Throttle/Guard).
-- Storage         src/rest/storage: uploadFile, deleteFile and the keys of files.
--
-- How the parts meet. A route runs behind the guards of Roles/Guard, which read the session that
-- Auth writes; the second step of a login asks Twofa; Twofa and Auth share the accounts. Handlers
-- of posts know a user by the identifier that the session holds.
--
-- Failing calls. In Posts every call of the database or of Redis may throw: Db.faults says of
-- each call, in order, whether it does. Theorems that speak of any failure hold for every such
-- list, the others for the empty one (calm). What was written before a throw stays, except inside
-- a transaction. Redis, with Caching on it, and Storage have lists of their own for the commands of
-- their clients. In Twofa, Auth and Follows no such call throws; whether the session store takes a
-- session is an argument.
--
-- Bounds. Identifiers are only compared, so they are numbers; times are milliseconds (seconds in
-- Follows), and the clock is an argument; counters are integers, since a decrement may take them
-- below zero. Loops are over lists, but for the one of acquireLock, which runs on fuel: the timeout
-- divided by the retry delay, and two rounds more, which is enough as long as the clock goes on by the
-- delay from one round to the next.
--
-- Parameters. Cleaning of texts (sanitizeText, sanitizeUrl), bcrypt, the one-time codes of
-- speakeasy, the encryption of secrets, the wording of messages with numbers in them, toLowerCase,
-- LIKE and ORDER BY of the database, the last of which only reorders rows, the functions of node on
-- paths, what JSON writes of a value and reads of a text, the commands of Redis, and the rule
-- engine CASL, the last two with their documented answers as laws.
--
-- Not modelled. The posts of a collection, for which the entities declare no table, the single post
-- with its cache (findOne), the trends and the history of follows, the change of a password, the
-- profile and the privacy settings of users, the WebSocket gateway, the deletion of cached keys by
-- pattern, and everything that only logs, mails or measures. Handlers run one at a time, but for
-- the locks of Redis, where other clients act between the rounds of a loop and between taking and
-- releasing, and for its caches, where they act between the storing of a value and the request for
-- it.
pub mod Base
pub mod Http
pub mod Effects
pub mod Session
pub mod Roles
pub mod Accounts
pub mod Twofa
pub mod Auth
pub mod Posts
pub mod Follows
pub mod Redis
pub mod Throttle
pub mod Paging
pub mod Storage
pub mod Users
pub mod Caching
