-- ===== src/Lib.antt =====
-- tgup uploads local media files to Telegram. This library models the parts that decide what is
-- uploaded, in which order, and what is remembered of it.
--
-- How the program works. Discovery finds items (internal/scan). Planning sorts them, groups them
-- by directory and slices the groups into albums (internal/plan). A run joins the queue of runs
-- in the state file and waits for its turn (internal/queue). The pipeline then takes the albums
-- one by one: it leaves out the files that the state store holds as sent, checks the videos,
-- extracts thumbnails, sends the files through the transport, and marks each file as sent or
-- failed (internal/upload, internal/state). A clean-up removes old rows of the state file.
--
-- Which file models what.
--   Prelude, Prelude/*    tests, lists, signed integers and texts over native numbers
--   Errors                internal/xerrors and internal/tg/errors.go: errors as values, `Result`
--   Scan/Model, Filter, Discover
--                         internal/scan: the items, the extension sets and `Filter`, and `Discover`
--                         with `scanPath`, `scanDir` and `maybeAppendItem` over a file system;
--                         Scan/Walks, Found and Returns hold what they promise
--   Plan/Model, Sort, Group, Split, Build
--                         internal/plan: `SortItems`, the grouping, `split` and `Build`; Plan/Order
--                         and Plan/Build/* hold what they promise
--   Queue/Model, Coordinator
--                         internal/queue/sqlite_coordinator.go: each SQL statement is a function on
--                         the rows of run_queue, `WaitUntilTurn` is `join` and then rounds
--                         (`round`, with nothing of others between its statements, which
--                         Queue/Exclusion takes one by one); Queue/Turns, InTurn, Rounds, Cleared,
--                         Exclusion and Races are about its histories
--   State/Model, Store, Maintenance
--                         internal/state: the table uploads, `MarkSent`, `MarkFailed`, `IsDone`,
--                         `ListPending`, `GetUploadRow` and `ApplyMaintenance`; State/Marks and
--                         State/Maintenance/Effects hold what they promise
--   Media/Model           internal/media: kinds, video metadata, `ViolationReason`
--   Media/Fit, Temp, Search, Orient, Compress
--                         internal/media/image.go: limits and fitted sizes, the encoders with their
--                         temporary files, the two searches of a quality, the orientation of
--                         pictures, and `CompressPhoto`; Media/Tidy, Leftovers, Result, Best, Loops
--                         and Pixels hold what they promise
--   Config/Resolve        internal/config/loader.go: `resolve`, on what loading the files gives
--   Config/Model, Validate, Merge, Env
--                         internal/config: the settings and overlays (types.go, merge.go), the
--                         defaults, `Validate`, `Merge`, `ResolveWithFileOverlays` and `loadEnv`;
--                         Config/Precedence, Valid and Loads hold what they promise
--   Mcp/Events            internal/mcp/sqlite_events.go: `Append`, `List`, `Register` and the
--                         notification of subscribers; Mcp/Paging, Pages and Replay hold what they
--                         promise
--   Tg/Middleware         internal/tg/middleware.go: the flood-wait and the retry middleware, over the
--                         library gotd as a record of functions; Tg/Calls is about their calls
--   Tg/Mapping            internal/tg/gotd_errors.go: `mapGotdError`, over what the library says of an
--                         error; Upload/Send/Documents sets it into the retry loop
--   Mcp/Bridge            internal/mcp/bridge.go: `specToOverlay`, `validatePaths` and `DryRun`, with
--                         internal/files/security.go, `EnsureWithinRoot`; it composes the settings,
--                         discovery and planning, and Mcp/Roots, Asked and Guard hold what it promises; Mcp/RunJob
--                         has `RunJob`, and Mcp/Agreement sets it beside the dry run
--   Mcp/Jobs, Jobs/Steps  internal/mcp/sqlite_jobs.go: `Start`, `run`, `finishJob`, `Cancel` and `Wait`
--                         in their atomic pieces, and the steps in which these may follow each
--                         other; Mcp/Jobs/Sound, Limit and Finish are about the states they reach
--                         and about their end
--   Upload/Model, Checks, Send, Steps, Album, Run
--                         internal/upload: the types, `PrecheckAlbum` and `PostcheckMessages`,
--                         `sendWithRetry`, the steps of `processAlbum`, `processAlbum`, `Run`;
--                         Upload/Send/Retry and Documents, Ledger, Keys, Counts, Accounting and Resume/* hold what they
--                         promise. `StoreLaws` of Upload/Resume is the interface between the
--                         pipeline and the store, and Upload/Resume/Sqlite fills it.
--
-- Conventions. Texts are lists of character codes, and the case functions know ASCII alone. Sizes
-- and times are native numbers; signed values are `ℤ`. A float is no number, infinite, or a
-- number of millionths; where the code scales a size by a float, the scaled number is a parameter
-- with bounds on its error. The dimensions of a picture are natural numbers, and its colours are
-- those of the picture that Go's image library makes. A statement of the database does what it
-- says, or fails with the driver's error and changes nothing; a parameter says which. The
-- transport, the prober, the thumbnailer, the image compression and the file sizes are functions
-- of a record `Services` on a world that nothing else is known of.
--
-- Bounds and fuel. The retry loop of `sendWithRetry` runs on fuel two: it makes at most two
-- rounds, and more fuel changes nothing. The loops of the middlewares run on fuel for one attempt
-- more than their retries. The two searches of a quality run on fuel for the number of qualities
-- in their window, 30 and 99. The walk of discovery runs on fuel for the depth of directories, of
-- which more than the number of directories is enough. A wait in the queue runs over the list of
-- its rounds. The album slices check the capacity that Go's `make` is given against 64-bit
-- integers.
--
-- What is not modelled. The statements of the job manager on its table all succeed, and its table
-- is empty at the start. The workers of `Run` take the albums from one channel: a run is modelled
-- as one sequence of albums, in their order, each processed as a whole. `sort.Slice` and the
-- random order of the standard library are a parameter with the laws of a sorting function, and
-- of a permutation. SQLite itself, the files, the network, the command line, the loading of
-- settings from files, the probing of videos, codecs and ffmpeg, the rest of the MCP server and
-- the clients of Telegram are not part of the library.
pub mod Prelude
pub mod Errors
pub mod Scan
pub mod Config
pub mod Plan
pub mod Queue
pub mod State
pub mod Media
pub mod Upload
pub mod Tg
pub mod Mcp
