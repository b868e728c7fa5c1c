-- ===== src/Host/DockState/Caps.antt =====
-- The caps of src/host/dock_state.rs, and what a call leaves in the state file.
use herdr_context.Base.{
  ℕ, zero, suc, ◌≤◌, ◌≡◌, refl, sym, ap, ◌∙◌, true, false, ◌&&◌, Option, none, some, String, List,
  [], ◌∷◌, arith, take, length, length-append, leb, ltb, ◌==◌, string_eq, nat_eq, list_eq,
  if◌then◌else◌, inl, inr, Bool-cases,
}
use herdr_context.Base.Results.{ok, ok_of_bind}
use herdr_context.Base.Order.{nat_ord, list_ord}
use herdr_context.Base.Map
use herdr_context.Base.Map.{Map}
use herdr_context.Base.BTreeMap
use herdr_context.Base.BTreeMap.Entries
use herdr_context.Base.BTreeMap.Size
use herdr_context.Host.DockState.{
  DockRecord, DockStateFile, Socket, StateDir, empty_state, state_file_version, max_servers,
  max_records_per_server, max_state_bytes, same_tab, replace_tab, upserted, upsert, clamped, load,
  load_bytes, with_locked_state, upsert_record,
}
use herdr_context.Host.DockState.Docks.{find_dock, find_dock-upsert, ok_injective}

pub record IsCapped (state : DockStateFile) : Type 0 where
  pub current : state.version ≡ state_file_version
  pub few_servers : length state.servers ≤ max_servers
  pub few_records :
      Entries.AllEntries (λ (_ : Socket) rs. length rs ≤ max_records_per_server) state.servers

length-take {ℓ} : {A : Type ℓ} (n : ℕ) (xs : List A) → length (take n xs) ≤ n
length-take zero xs = omega arith
length-take (suc n) [] = omega arith
length-take (suc n) (x ∷ xs) = omega (arith, length-take n xs)

take_all {ℓ} : {A : Type ℓ} (n : ℕ) (xs : List A) → length xs ≤ n → take n xs ≡ xs
take_all zero [] h = refl
take_all zero (x ∷ xs) h = absurd (omega (arith, h))
take_all (suc n) [] h = refl
take_all (suc n) (x ∷ xs) h = ap (◌∷◌ x) (take_all n xs (omega (arith, h)))

abbrev Few : Socket → List DockRecord → Type 0
Few _ rs = length rs ≤ max_records_per_server

abbrev cut : Socket → List DockRecord → List DockRecord
cut _ rs = take max_records_per_server rs

take-AllEntries :
    (n : ℕ) (m : Map Socket (List DockRecord))
    → Entries.AllEntries Few m
    → Entries.AllEntries Few (take n m)
take-AllEntries zero m h = tt
take-AllEntries (suc n) [] h = tt
take-AllEntries (suc n) ((s, rs) ∷ m) (here, h) = (here, take-AllEntries n m h)

cut-AllEntries :
    (m : Map Socket (List DockRecord)) → Entries.AllEntries Few (BTreeMap.map_values cut m)
unfolding BTreeMap.map_values
cut-AllEntries [] = tt
cut-AllEntries ((s, rs) ∷ m) = (length-take max_records_per_server rs, cut-AllEntries m)

cut_all :
    (m : Map Socket (List DockRecord)) → Entries.AllEntries Few m → BTreeMap.map_values cut m ≡ m
unfolding BTreeMap.map_values
cut_all [] h = refl
cut_all ((s, rs) ∷ m) (here, h) = rw (take_all max_records_per_server rs here, cut_all m h) refl

clamped-IsCapped :
    (state : DockStateFile) → state.version ≡ state_file_version → IsCapped (clamped state)
unfolding clamped
clamped-IsCapped state v = record {
  current = v;
  few_servers = length-take max_servers (BTreeMap.map_values cut state.servers);
  few_records =
      take-AllEntries max_servers (BTreeMap.map_values cut state.servers)
        (cut-AllEntries state.servers);
}

clamped_capped : (state : DockStateFile) → IsCapped state → clamped state ≡ state
unfolding clamped
clamped_capped state h =
    ap (λ servers. record state { servers = servers })
      (ap (take max_servers) (cut_all state.servers h.few_records)
        ∙ take_all max_servers state.servers h.few_servers)

length-replace_tab :
    (new : DockRecord) (rs : List DockRecord) → length (replace_tab new rs) ≡ length rs
unfolding replace_tab
length-replace_tab new [] = refl
length-replace_tab new (r ∷ rs) = ground (arith, length-replace_tab new rs)

upserted-Few :
    (socket : Socket) (new : DockRecord) (rs rs' : List DockRecord)
    → upserted socket new rs ≡ ok rs'
    → length rs ≤ max_records_per_server
    → length rs' ≤ max_records_per_server
unfolding upserted
upserted-Few socket new rs rs' h few =
    ground (arith, h, few, length-replace_tab new rs, length-append rs (new ∷ []))

-- One server more, or the records of one that is there.
inserted-IsCapped :
    (state : DockStateFile) (socket : Socket) (rs : List DockRecord)
    → length (BTreeMap.insert socket rs state.servers) ≤ max_servers
    → length rs ≤ max_records_per_server
    → IsCapped state
    → IsCapped (record state { servers = BTreeMap.insert socket rs state.servers })
inserted-IsCapped state socket rs servers few h = record {
  current = h.current;
  few_servers = servers;
  few_records = Entries.insert-AllEntries Few socket rs state.servers few h.few_records;
}

upsert-IsCapped :
    (state state' : DockStateFile) (socket : Socket) (new : DockRecord)
    → upsert state socket new ≡ ok state'
    → IsCapped state
    → IsCapped state'
unfolding upsert
upsert-IsCapped state state' socket new h capped = go (Map.lookup socket state.servers) refl
  where
    go : (o : Option (List DockRecord)) → Map.lookup socket state.servers ≡ o → IsCapped state'
    go none e = elim (Bool-cases (leb max_servers (length state.servers))) [
      | inl full ↦ absurd (ground (arith, rw (e, full, upsert) at h))
      | inr room ↦
          let built = ok_injective (rw (e, room, upsert) at h) in
          rw (sym built) (
            inserted-IsCapped state socket (new ∷ [])
              (ground (arith, room, Size.length-insert socket (new ∷ []) state.servers))
              (omega arith) capped)
    ]
    go (some rs) e =
        let (rs', found, built) = ok_of_bind (upserted socket new rs) _ (rw (e, upsert) at h) in
        let known = BTreeMap.contains_key_of_lookup socket state.servers rs e in
        let (_, _, few) =
          Entries.lookup-AllEntries Few socket rs state.servers capped.few_records e in
        rw (sym (ok_injective built)) (
          inserted-IsCapped state socket rs'
            (ground (arith, capped.few_servers, known, Size.length-insert socket rs' state.servers))
            (upserted-Few socket new rs rs' found few) capped)

empty_state-IsCapped : IsCapped empty_state
empty_state-IsCapped = record { current = refl; few_servers = omega arith; few_records = tt }

module _ (decode : List ℕ → Option DockStateFile) (encode : DockStateFile → List ℕ) where
  load_bytes-IsCapped : (bytes : List ℕ) → IsCapped (load_bytes decode encode bytes)
  unfolding load_bytes
  load_bytes-IsCapped bytes = elim (Bool-cases (ltb max_state_bytes (length bytes))) [
    | inl long ↦ rw (long, load_bytes) empty_state-IsCapped
    | inr fits ↦ go (decode bytes) refl fits
  ]
    where
      go :
          (o : Option DockStateFile)
          → decode bytes ≡ o
          → ltb max_state_bytes (length bytes) ≡ false
          → IsCapped (load_bytes decode encode bytes)
      go none e fits = rw (fits, e, load_bytes) empty_state-IsCapped
      go (some state) e fits = elim (Bool-cases (state.version == state_file_version)) [
        | inl same ↦ rw (fits, e, same, load_bytes) (clamped-IsCapped state (ground (arith, same)))
        | inr other ↦ rw (fits, e, other, load_bytes) empty_state-IsCapped
      ]

  -- Whatever the state file holds, what is read from it is within the caps.
  load-IsCapped : (dir : StateDir) → IsCapped (load decode encode dir)
  unfolding load
  load-IsCapped none = empty_state-IsCapped
  load-IsCapped (some bytes) = load_bytes-IsCapped bytes

  load_written :
      (state : DockStateFile)
      → decode (encode state) ≡ some state
      → length (encode state) ≤ max_state_bytes
      → IsCapped state
      → load decode encode (some (encode state)) ≡ state
  unfolding load load_bytes
  load_written state read fits h =
      let short : ltb max_state_bytes (length (encode state)) ≡ false = ground (arith, fits) in
      let same : (state.version == state_file_version) ≡ true = ground (arith, h.current) in
      rw (short, read, same, load_bytes) (clamped_capped state h)

  -- A dock that is recorded is found by the next reader, in this process or another: where the
  -- encoding can be read back and fits the size limit of the file, a call of `upsert_record` that
  -- does not fail leaves a file in which its tab has the new record and every other tab the record
  -- that it had before.
  pub load-upsert_record :
      (dir : StateDir) (socket : Socket) (new : DockRecord) (state' : DockStateFile) (s : Socket)
      (w t : String)
      → upsert (load decode encode dir) socket new ≡ ok state'
      → decode (encode state') ≡ some state'
      → length (encode state') ≤ max_state_bytes
      → find_dock (load decode encode (upsert_record decode encode dir socket new).0) s w t ≡ (
          if s == socket && same_tab w t new
          then some new
          else find_dock (load decode encode dir) s w t)
  unfolding upsert_record with_locked_state
  load-upsert_record dir socket new state' s w t done read fits =
      let capped =
        upsert-IsCapped (load decode encode dir) state' socket new done (load-IsCapped dir) in
      rw (done, upsert_record, with_locked_state)
        (rw (load_written state' read fits capped)
          (find_dock-upsert (load decode encode dir) state' socket s new w t done))
