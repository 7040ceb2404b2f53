-- ===== src/Lib.antt =====
-- CloudVault, a private cloud drive (Go): a model of its services and what holds of them.
--
-- The services read and write tables in MySQL, caches in Redis and blobs in MinIO. A user file
-- (model/user_file.go) refers to a file object (model/file_object.go), which stands for one blob
-- and counts the user files that share it. Files form a tree of folders for each user; a file goes
-- to the recycle bin before it is deleted for good, and the last reference takes the blob with it.
--
-- Base passes on the library's names, with tests, lists and Go's signed integers.
-- Rows has the rows of the tables (model/*.go). World has the state that the services act on, the
-- environment that decides which call of MySQL, Redis or MinIO fails, the monad of state and
-- errors, and the statements; World/Rules has its postconditions, a rule for each construct.
-- Object is internal/service/file_object.go, from `cacheFileObject` to `isFileObjectAvailable` and
-- `RemoveObject`, with the object cache of utils/cache.go. Object/Counting has the invariant on the
-- counts, Object/Removal and Object/Shared what the operations do to it and to the store,
-- and Object/Last what becomes of an object with its last reference.
-- File is internal/service/user_file.go: File/Table the table, its unique key and the creation of
-- entries, File/Recycle the recycle bin, File/Edit renaming and moving, File/Copy copying and the
-- creation of folders, and File/Climb says that `isChildFolder` ends.
-- Upload is `FastUpload`, and Upload/Safety what it does to the counts.
-- Multipart is the start of a multipart upload and `UploadChunk` (internal/service/file_object.go),
-- Multipart/Complete is `CompleteFile`, Multipart/Safety what the start does to the counts. The texts
-- that `fmt.Sprintf` makes for object names are parameters.
-- Download is what internal/worker/download_worker.go does once `ProcessDownloadTask` has returned,
-- with the delays and the limit of the retries; Download/Retry has its theorems.
-- Cluster is the choice of a node in internal/storage/storage_cluster.go, which takes one round over
-- the nodes; Cluster/Turns says what it chooses, and Cluster/Fairness that every available node gets
-- its turn.
-- Sharding is `GetShardDB`, `GetTableName` and `CloseShardConnections` of internal/repo/sharding.go,
-- with the opening and closing of a connection as parameters, each opening a new one, and
-- Sharding/Reuse has its theorem.
-- Figures has the events of activities, the counters of a day and their rows, from
-- internal/activity and model/user_activity_daily.go.
-- Activity is the statistics of activities: the events and their queue (internal/activity/event.go),
-- `ApplyEvent` (aggregate.go) and the worker (internal/worker/activity_worker.go). Activity/Totals
-- has what an update does to the counters, Activity/Counting compares them with a tally,
-- Activity/Failure has what an error leaves behind, and Activity/Summary is `GetSummary`, which
-- looks the rows up by the text that the driver makes of a DATE, a parameter.
-- Source is the check of a download source (internal/service/minio.go, `hostAllowed` to
-- `validateDownloadURL`), on texts as code points (Base/Text, with Unicode's lower case in
-- Base/Lower), with Go's net packages as parameters, and Source/Safety its theorem. Transfer is
-- `MinioUploadFile`, `DownloadByHTTP` and `UploadFromURL` of the same file; Transfer/Counts and
-- Transfer/Sourced have what they do to the counts, with Object/Creation for the new object, and
-- Transfer/Limit what a download writes.
-- Lock is the lock in Redis (internal/repo/redis.go), as steps of any number of processes;
-- Lock/Grants has the invariant, and Lock/Exclusion the theorem.
-- Shares is internal/service/share_file.go with `handleShareExpired`, and the keys in Redis with their
-- ends, if they have one; Shares/Access says who is given a share, Shares/History what the keys are
-- after any creations and checks, Shares/Roundtrip that a created share can be used.
-- Links is the handlers of internal/handler/share_file.go, and Links/Admitted says to whom a file is
-- sent. Visits is `GetShareAccessStats` of internal/service/share_access.go, five statements that
-- each read their own view of the visits, with Visits/Own on what they depend on. Reports is the
-- handlers of the statistics (internal/handler/activity.go and share_analytics.go).
-- Task is internal/task/download_task.go, and Task/Once what a repeated message does. Names is
-- utils/sanitize.go, internal/service/order.go, `sanitizeArchiveName` (archive.go) and
-- `detectAccessSource` (share_access.go); Names/Harmless has what the results lack.
-- Archive is internal/service/archive.go with the handler `DownloadArchive`; Archive/Contents has what
-- the archive holds, Archive/Paths and Archive/Held the lemmas on its paths and its rows.
-- Shelf is the favourites and recent files (internal/service/user_library.go), the operations that
-- write, and Shelf/Marks its theorems.
-- Config is config/config.go, with strconv, time and net/url as parameters, and Config/Lists says what
-- the lists that it reads hold; Config/Storage is config/storage.go.
-- Queues is internal/mq/rabbitmq.go, with the routing that RabbitMQ documents, and Queues/Routes says
-- where the messages go.
-- Accounts is registration, activation and login (internal/handler/register.go, login.go,
-- internal/service/user.go), and Accounts/Signup leads from one to the other. Session is the token and
-- the guard of the handlers (utils/jwt.go, utils/middle.go); Session/Admission says who passes.
-- Profile is internal/service/user_profile.go, with Profile/Editing.
-- Downloads and Requests are the handlers (internal/handler/minio.go, file.go, recycle.go), which
-- call the services above: Downloads those that send a file, with Downloads/Owners on who is served
-- and Downloads/Served for the rows and objects found, and Requests those that hand on a request,
-- with Requests/Chunks. Depot is the replication and the migration of the cluster; Depot/Kept has
-- the objects that a migration keeps, Depot/Replicas what an upload stores.
-- Listing is `GetFileList` and `ListRecycleFiles` (user_file.go), `SearchFiles` (search.go) and the
-- handler of the first; Listing/Pages has their pages and the cache of lists, Listing/Shown what is
-- shown.
-- World/Runs has calls that succeed, step by step, World/Ends calls that end, and Object/Lookup what
-- looking an object up keeps.
-- Tests and its children have the theorems at concrete inputs.
--
-- Bounds: `deleteFolderRecursively`, `isChildFolder`, `CopyFiles` and `collectArchiveChildren` call
-- the database in a recursion that the rows alone bound, and take fuel; `unfinished` is the result of
-- a call that has not returned within it. Keys and counts are unbounded natural numbers, sizes are
-- integers.
--
-- Not modelled: the listings of tasks, favourites and recent files and of visits to shares, with
-- their handlers, the columns that gorm fills with times, the content of blobs, the set-up of
-- connections, the HTTP server and its routes, and the front end. A failed statement changes nothing;
-- a statement that succeeds does what its SQL says, with gorm's scope `deleted_at IS NULL` written
-- out, and is refused if the table's unique key would be broken. Foreign keys are left to the
-- failures that the environment chooses. The deletion of a pattern of cache keys is one step.
pub mod Base
pub mod Rows
pub mod World
pub mod Object
pub mod File
pub mod Upload
pub mod Download
pub mod Multipart
pub mod Cluster
pub mod Depot
pub mod Config
pub mod Sharding
pub mod Shelf
pub mod Task
pub mod Names
pub mod Archive
pub mod Shares
pub mod Links
pub mod Lock
pub mod Transfer
pub mod Source
pub mod Figures
pub mod Activity
pub mod Queues
pub mod Accounts
pub mod Visits
pub mod Reports
pub mod Requests
pub mod Downloads
pub mod Listing
pub mod Profile
pub mod Session
pub mod Tests
