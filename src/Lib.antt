-- ===== src/Lib.antt =====
-- herdr-context: the concurrent worker runtime and the view models of a terminal context panel.
--
-- The panel has one owner thread. Terminal input becomes intents, the controller turns intents into
-- jobs of the worker runtime, two bounded lane threads run them, and the owner receives the results
-- between two frames and gives them to the views. A newer request supersedes the older ones of its
-- key.
--
-- Worker (src/worker/mod.rs). Worker.Job has the values Job, JobKey and Completion; a task and its
-- output are type parameters, and how a task ends is chosen by an event. Worker.Lane is the struct
-- Lane: a bounded queue, the job its thread runs and whether the thread is there. Worker.Runtime is
-- WorkerRuntime with submit, queue_new, accept_completion, pump_key, pump_pending, try_recv,
-- recv_timeout and shutdown, one definition for each method, on a state that holds both lanes and
-- the channel of results. Worker.Threads gives the body of run_lane as events (wait, receive,
-- finish), a step relation of the owner's calls and the threads' events, and reachability. The
-- other modules have the proofs: Slot the invariant, Load and Sizes the counting of jobs in flight,
-- Submits, Pumps, Started, Events and Steps its preservation, Delivery, Submission, Polling,
-- Waiting and History the results. try_recv_during is try_recv while the threads run between its looks
-- at the channel, and try_recv the case in which they do not.
--
-- Files (src/files). Files.Refresh is RefreshCoordinator of src/files/refresh.rs, the gate that
-- coalesces the requests for a VCS snapshot; Files.Refresh.Gate has its laws. Files.Nodes,
-- Files.Children, Files.Tree and Files.Merge are src/files/tree.rs: the nodes and the status maps,
-- the places of the nodes, the tree with its operations, and merge_workspace_status with its two
-- loops. Files.Tree.Listing, Files.Tree.Ordered and Files.Tree.Listed have the proofs on
-- rebuild_children, Shape, Invariant and Operations those on the shape of the tree, Depth on
-- display_depth, and Statuses on the statuses of one path. Files.Merge.Given says what a snapshot
-- gives a path and Files.Merge.Standing which node stands there, both apart from the loops, by way of
-- Files.Merge.Ranks, Files.Merge.Missing and Files.Merge.Named; Files.Merge.Rows is on the changed files. Files.View is FilesModel of src/files/mod.rs
-- with the results that a worker prepares; Files.View.Stale shows which results it accepts, and
-- Files.View.Flight runs it while a job is under way, as start_next_vcs_refresh of src/runtime.rs
-- starts it; a start is cancelled by an event of its own. Files.Search is prepare_page of
-- src/files/search.rs, with its budgets in Files.Search.Budgets and the index that it leaves in
-- Files.Search.Kept; the walk of one directory, the reads of the cancellation flags and the searchable
-- text of a path are parameters, and the theorem on the budgets assumes that the walk of a directory
-- keeps those it is given, each raised to 1 where it is 0, as src/files/ignore.rs raises them.
-- Files.Search.Projection is project with append_children, on fuel: the loops
-- take the reads of the cancellation flags in their order and the test whether the query finds a text
-- as parameters, and the sets of paths are lists without order. The fuel is the length of the deepest
-- path and one more. Files.Search.Loops has the loops over paths, Files.Search.Descent the depth of
-- the children, and Files.Search.Projected the projection. The ignore policy of the tree (is_visible), the results of symlink_metadata, the texts of
-- errors and the hash of a snapshot are parameters.
--
-- Host (src/host/dock_state.rs). Host.DockState has the records of the docks, their caps, and the
-- calls under the state lock, over the bytes of the state file; the encoding is a parameter, and the
-- theorem on a later reader assumes that what is written can be read back. A call is one that gets
-- the lock and whose write succeeds. Host.DockState.Docks and Host.DockState.Caps have the proofs.
--
-- Conversations (src/conversations/mod.rs) and Intent (src/intent.rs) are the data that the views
-- read: conversations with their references and providers, and the closed set of intents.
-- Conversations.Build has the constructors, with normalize_nonempty of src/lib.rs.
--
-- Input (src/input.rs) maps a terminal event to an intent in each of the three input modes, and
-- Input.Modes has its proofs. The configured key bindings are a parameter, the function that maps a
-- key; the events of the terminal library have the shapes that the code reads.
--
-- Model (src/model.rs). Model.Files is the state of the files view, Model.Geometry the hit test of
-- the tabs, Model.State the state of the
-- conversations view; Model.Rows its loops over the rows; Model.Select the selection, the scroll and
-- the intents. Model.RowList states the rows as one list and shows that the loops read it,
-- Model.SelectedRow does the same for the selected row, Model.Moved shows that a selection finds its
-- row, and Model.Viewport that the row is shown. Model.Replace is the replacement of the items, with
-- the migration of the selection, and the errors of the view; Model.Replace.Consistency and
-- Model.Replace.Errors have their proofs.
--
-- Vcs (src/vcs/git.rs, src/vcs/jj.rs and src/vcs/status.rs). Vcs.Status has the normalised entries and the paths,
-- as bytes, with what Path::components and Path::cmp of the standard library do on Unix; Vcs.Fields the
-- readers and validators of one field; Vcs.Porcelain the parsers of the records, one definition for
-- each function, and the loop over the output. An error is the message of its VcsError, as a
-- constructor. Vcs.Names has the proofs on paths, Vcs.Kinds on the combined kind, Vcs.Entries and
-- Vcs.Snapshot what every snapshot satisfies, and Vcs.Printed and Vcs.Reread the round trip of an
-- ordinary record. Vcs.Jujutsu is the parser of src/vcs/jj.rs, with its promise in
-- Vcs.Jujutsu.Snapshot and its round trip in Vcs.Jujutsu.Reread, over the records of Vcs.Jujutsu.Records. Vcs.Reader is read_limited, over the list of what each read gives.
--
-- Base has what the parts share: equality as an instance, list functions over the native numbers,
-- HashMap and HashSet as association lists (Map, KeySet), whose order no theorem relies on, BTreeMap
-- as a sorted one (BTreeMap, Order), relative paths as lists of names (Paths), slices of bytes, and
-- errors as values.
--
-- Bounds: a u64 generation or counter, and a usize row, keep their bounds as saturating operations
-- (u64_max); the theorems that count rows assume that the rows can be numbered. Three loops run on
-- fuel, which is proved enough: the one of display_depth and the one of project over the ancestors of
-- a match, each on one more than the path has names, and append_children on more than any path of the
-- index has names. Every other loop is
-- structural, on the received results, on the providers and their sessions, on
-- the bytes and records of an output, or on the lists of what the threads do before each look of
-- try_recv and during each wait of recv_timeout.
--
-- Parameters: the lower-case function of a text (str::to_lowercase) is an argument of the filters,
-- the trimming and the length of a text (str::trim, str::len) are arguments of the constructors of a
-- conversation,
-- and the configured key bindings are an argument of the input map.
--
-- Not modelled: the clock and the wakeups (a wait is the list of the events that happen in it), the
-- downcast of an output and the debug formats, the rendering, the processes, the file system, the
-- configuration file, and the adapters of other tools' stores.
pub mod Base
pub mod Worker
pub mod Files
pub mod Conversations
pub mod Intent
pub mod Model
pub mod Vcs
pub mod Input
pub mod Host
mod Tests
