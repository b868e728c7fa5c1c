-- ===== src/Host/DockState.antt =====
-- The dock state of src/host/dock_state.rs: the records of each server, with their caps, and the
-- calls under the state lock. The disk is the text of the state file; its encoding is a parameter.
use herdr_context.Base.{
  ℕ, suc, zero, ◌-◌, ◌*◌, Bool, true, false, not, ◌&&◌, Option, none, some, String, List, [], ◌∷◌,
  ◌++◌, any, retain, take, length, leb, ltb, ◌==◌, Eq, string_eq, nat_eq, list_eq, if◌then◌else◌,
}
use herdr_context.Base.Results.{Result, ok, err, ◌>>=◌}
use herdr_context.Base.Order.{nat_ord, list_ord}
use herdr_context.Base.Map
use herdr_context.Base.Map.{Map}
use herdr_context.Base.BTreeMap
pub mod Docks
pub mod Caps

pub record DockRecord : Type 0 where
  pub workspace_id : String
  pub tab_id : String
  pub dock_pane_id : String
  pub width : ℕ  -- u16

abbrev pub max_servers : ℕ
max_servers = 8

abbrev pub max_records_per_server : ℕ
max_records_per_server = 256

abbrev pub state_file_version : ℕ
state_file_version = 1

-- The path of a socket, by its bytes, which is how texts compare.
abbrev pub Socket : Type 0
Socket = List ℕ

pub data DockStateError : Type 0 where
  server_cap_reached : ℕ → DockStateError
  record_cap_reached : Socket → ℕ → DockStateError

pub record DockStateFile : Type 0 where
  pub version : ℕ  -- u8
  pub servers : Map Socket (List DockRecord)

abbrev pub empty_state : DockStateFile
empty_state = record { version = state_file_version; servers = [] }

abbrev pub same_tab : String → String → DockRecord → Bool
same_tab workspace_id tab_id record_ =
    record_.workspace_id == workspace_id && record_.tab_id == tab_id

abbrev pub or_none : Option (List DockRecord) → List DockRecord
or_none none = []
or_none (some rs) = rs

unfoldable pub records_for : DockStateFile → Socket → List DockRecord
records_for state socket = or_none (Map.lookup socket state.servers)

-- The first record of the tab becomes the new one.
unfoldable pub replace_tab : DockRecord → List DockRecord → List DockRecord
replace_tab new [] = []
replace_tab new (r ∷ rs) =
    if same_tab new.workspace_id new.tab_id r then new ∷ rs else r ∷ replace_tab new rs

-- The records of a server that is known, with one more or another in its place.
unfoldable pub upserted :
    Socket → DockRecord → List DockRecord → Result DockStateError (List DockRecord)
upserted socket new rs =
    if any (same_tab new.workspace_id new.tab_id) rs
    then ok (replace_tab new rs)
    else if leb max_records_per_server (length rs)
    then err (record_cap_reached socket max_records_per_server)
    else ok (rs ++ new ∷ [])

unfoldable pub upsert : DockStateFile → Socket → DockRecord → Result DockStateError DockStateFile
upsert state socket new = elim (Map.lookup socket state.servers) [
  | none ↦
      if leb max_servers (length state.servers)
      then err (server_cap_reached max_servers)
      else ok (record state { servers = BTreeMap.insert socket (new ∷ []) state.servers })
  | some rs ↦ do
    rs ← upserted socket new rs
    ok (record state { servers = BTreeMap.insert socket rs state.servers })
]

-- `set_records`, which is also the end of both removals: an empty list removes the server.
unfoldable pub set_records : DockStateFile → Socket → List DockRecord → DockStateFile
set_records state socket [] = record state { servers = Map.remove socket state.servers }
set_records state socket (r ∷ rs) = record state {
  servers = BTreeMap.insert socket (r ∷ rs) state.servers;
}

abbrev pub remove_where : (DockRecord → Bool) → DockStateFile → Socket → DockStateFile × Bool
remove_where gone state socket = elim (Map.lookup socket state.servers) [
  | none ↦ (state, false)
  | some rs ↦
      let kept = retain (λ r. not (gone r)) rs in
      (set_records state socket kept, not (length kept == length rs))
]

unfoldable pub remove : DockStateFile → Socket → String → String → DockStateFile × Bool
remove state socket workspace_id tab_id = remove_where (same_tab workspace_id tab_id) state socket

unfoldable pub remove_by_pane : DockStateFile → Socket → String → DockStateFile × Bool
remove_by_pane state socket pane_id = remove_where (λ r. r.dock_pane_id == pane_id) state socket

-- `pop_last` as long as there are too many: the entries with the least keys stay.
unfoldable pub clamped : DockStateFile → DockStateFile
clamped state = record state {
  servers =
      take max_servers (BTreeMap.map_values (λ _ rs. take max_records_per_server rs) state.servers);
}

abbrev pub max_state_bytes : ℕ
max_state_bytes = 512 * 1024

-- The state file: the bytes of a regular file, or nothing that can be read.
abbrev pub StateDir : Type 0
StateDir = Option (List ℕ)

-- `serde_json`: the decoder refuses what it cannot read.
module _ (decode : List ℕ → Option DockStateFile) (encode : DockStateFile → List ℕ) where
  unfoldable pub load_bytes : List ℕ → DockStateFile
  load_bytes bytes =
      if ltb max_state_bytes (length bytes) then empty_state else elim (decode bytes) [
        | none ↦ empty_state
        | some state ↦ if state.version == state_file_version then clamped state else empty_state
      ]

  unfoldable pub load : StateDir → DockStateFile
  load none = empty_state
  load (some bytes) = load_bytes bytes

  -- A call under the lock: the state is read again, and written where it has changed.
  unfoldable pub with_locked_state :
      {A : Type 0}
      → StateDir
      → (DockStateFile → Result DockStateError (DockStateFile × A × Bool))
      → StateDir × Result DockStateError A
  with_locked_state dir apply = elim (apply (load dir)) [
    | err error ↦ (dir, err error)
    | ok (state, result, dirty) ↦ (if dirty then some (encode state) else dir, ok result)
  ]

  unfoldable pub upsert_record :
      StateDir → Socket → DockRecord → StateDir × Result DockStateError (Unit {0})
  upsert_record dir socket new =
      with_locked_state dir λ state. do state ← upsert state socket new; ok (state, tt, true)

  unfoldable pub remove_record :
      StateDir → Socket → String → String → StateDir × Result DockStateError Bool
  remove_record dir socket workspace_id tab_id = with_locked_state dir λ state.
      let (state, removed) = remove state socket workspace_id tab_id in ok (state, removed, removed)

  unfoldable pub remove_pane_record :
      StateDir → Socket → String → StateDir × Result DockStateError Bool
  remove_pane_record dir socket pane_id = with_locked_state dir λ state.
      let (state, removed) = remove_by_pane state socket pane_id in ok (state, removed, removed)

  unfoldable pub replace_socket_records :
      StateDir → Socket → List DockRecord → StateDir × Result DockStateError (Unit {0})
  replace_socket_records dir socket records =
      with_locked_state dir λ state. ok (set_records state socket records, tt, true)
