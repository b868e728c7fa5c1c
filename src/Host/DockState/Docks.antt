-- ===== src/Host/DockState/Docks.antt =====
-- What the dock state of src/host/dock_state.rs means: at most one dock for each tab of a server.
use herdr_context.Base.{
  ◌≡◌, refl, sym, ap, ◌∙◌, true, false, not, ◌&&◌, Option, none, some, String, List, [], ◌∷◌, ◌++◌,
  arith, any, find, retain, length, leb, ◌==◌, string_eq, nat_eq, list_eq, if◌then◌else◌, inl, inr,
  Bool-cases,
}
use herdr_context.Base.Results.{Result, ok, err, ok_of_bind}
use herdr_context.Base.Order.{nat_ord, list_ord}
use herdr_context.Base.Map
use herdr_context.Base.BTreeMap
use herdr_context.Host.DockState.{
  DockRecord, DockStateFile, DockStateError, Socket, max_servers, max_records_per_server, same_tab,
  or_none, records_for, replace_tab, upserted, upsert, set_records, remove_where, remove,
}

-- The dock of a tab.
abbrev pub find_dock : DockStateFile → Socket → String → String → Option DockRecord
find_dock state socket w t = find (same_tab w t) (records_for state socket)

find-replace_tab :
    (new : DockRecord) (w t : String) (rs : List DockRecord)
    → any (same_tab new.workspace_id new.tab_id) rs ≡ true
    → find (same_tab w t) (replace_tab new rs)
      ≡ (if same_tab w t new then some new else find (same_tab w t) rs)
unfolding replace_tab
find-replace_tab new w t [] h = absurd (ground arith)
find-replace_tab new w t (r ∷ rs) h = ground (arith, h, find-replace_tab new w t rs)

find-append :
    (new : DockRecord) (w t : String) (rs : List DockRecord)
    → any (same_tab new.workspace_id new.tab_id) rs ≡ false
    → find (same_tab w t) (rs ++ new ∷ [])
      ≡ (if same_tab w t new then some new else find (same_tab w t) rs)
find-append new w t [] h = ground arith
find-append new w t (r ∷ rs) h = ground (arith, h, find-append new w t rs)

find-upserted :
    (socket : Socket) (new : DockRecord) (w t : String) (rs rs' : List DockRecord)
    → upserted socket new rs ≡ ok rs'
    → find (same_tab w t) rs' ≡ (if same_tab w t new then some new else find (same_tab w t) rs)
unfolding upserted
find-upserted socket new w t rs rs' h =
    elim (Bool-cases (any (same_tab new.workspace_id new.tab_id) rs)) [
      | inl known ↦
          let same : replace_tab new rs ≡ rs' = ground (arith, rw (known, upserted) at h) in
          rw (sym same) (find-replace_tab new w t rs known)
      | inr fresh ↦ elim (Bool-cases (leb max_records_per_server (length rs))) [
        | inl full ↦ absurd (ground (arith, rw (fresh, full, upserted) at h))
        | inr room ↦
            let same : rs ++ new ∷ [] ≡ rs' = ground (arith, rw (fresh, room, upserted) at h) in
            rw (sym same) (find-append new w t rs fresh)
      ]
    ]

records_for-insert :
    (state : DockStateFile) (socket s : Socket) (rs : List DockRecord)
    → records_for (record state { servers = BTreeMap.insert socket rs state.servers }) s
      ≡ (if s == socket then rs else records_for state s)
unfolding records_for
records_for-insert state socket s rs = elim (Bool-cases (s == socket)) [
  | inl same ↦ rw (BTreeMap.lookup-insert s socket rs state.servers, same) refl
  | inr other ↦ rw (BTreeMap.lookup-insert s socket rs state.servers, other) refl
]

records_for_known :
    (state : DockStateFile) (socket : Socket) {o : Option (List DockRecord)}
    → Map.lookup socket state.servers ≡ o
    → records_for state socket ≡ or_none o
unfolding records_for
records_for_known state socket e = ap or_none e

same_socket : (s socket : Socket) → (s == socket) ≡ true → s ≡ socket
same_socket s socket h = ground (arith, h)

pub ok_injective : {A : Type 0} {a b : A} → ◌≡◌ {A = Result DockStateError A} (ok a) (ok b) → a ≡ b
ok_injective {A} {a} h = ap got h
  where
    got : Result DockStateError A → A
    got (ok x) = x
    got (err _) = a

find_dock-insert :
    (state : DockStateFile) (socket s : Socket) (rs rs' : List DockRecord) (new : DockRecord)
    (w t : String)
    → records_for state socket ≡ rs
    → find (same_tab w t) rs' ≡ (if same_tab w t new then some new else find (same_tab w t) rs)
    → find_dock (record state { servers = BTreeMap.insert socket rs' state.servers }) s w t
      ≡ (if s == socket && same_tab w t new then some new else find_dock state s w t)
find_dock-insert state socket s rs rs' new w t before found = elim (Bool-cases (s == socket)) [
  | inl same ↦
      let here = same_socket s socket same in
      let old : records_for state s ≡ rs = ap (records_for state) here ∙ before in
      rw (records_for-insert state socket s rs', same, old) found
  | inr other ↦ rw (records_for-insert state socket s rs', other) refl
]

-- An upsert that does not fail puts the record in the place of its tab, and changes the dock of no
-- other tab and of no other server.
pub find_dock-upsert :
    (state state' : DockStateFile) (socket s : Socket) (new : DockRecord) (w t : String)
    → upsert state socket new ≡ ok state'
    → find_dock state' s w t
      ≡ (if s == socket && same_tab w t new then some new else find_dock state s w t)
unfolding upsert
find_dock-upsert state state' socket s new w t h = go (Map.lookup socket state.servers) refl
  where
    go :
        (o : Option (List DockRecord))
        → Map.lookup socket state.servers ≡ o
        → find_dock state' s w t
          ≡ (if s == socket && same_tab w t new then some new else find_dock state s w t)
    go none e = elim (Bool-cases (leb max_servers (length state.servers))) [
      | inl full ↦ absurd (ground (arith, rw (e, full, upsert) at h))
      | inr room ↦
          let built = ok_injective (rw (e, room, upsert) at h) in
          rw (sym built) (
            find_dock-insert state socket s [] (new ∷ []) new w t (records_for_known state socket e)
              refl)
    ]
    go (some rs) e =
        let (rs', found, built) = ok_of_bind (upserted socket new rs) _ (rw (e, upsert) at h) in
        rw (sym (ok_injective built)) (
          find_dock-insert state socket s rs rs' new w t (records_for_known state socket e)
            (find-upserted socket new w t rs rs' found))

-- Whether the tab is the one removed decides.
find-retain :
    (w t w' t' : String) (rs : List DockRecord)
    → find (same_tab w' t') (retain (λ r. not (same_tab w t r)) rs)
      ≡ (if w' == w && t' == t then none else find (same_tab w' t') rs)
find-retain w t w' t' [] = ground arith
find-retain w t w' t' (r ∷ rs) = ground (arith, find-retain w t w' t' rs)

records_for-set_records :
    (state : DockStateFile) (socket s : Socket) (rs : List DockRecord)
    → records_for (set_records state socket rs) s
      ≡ (if s == socket then rs else records_for state s)
unfolding set_records records_for
records_for-set_records state socket s [] = elim (Bool-cases (s == socket)) [
  | inl same ↦ rw (Map.lookup-remove s socket state.servers, same) refl
  | inr other ↦ rw (Map.lookup-remove s socket state.servers, other) refl
]
records_for-set_records state socket s (r ∷ rs) = elim (Bool-cases (s == socket)) [
  | inl same ↦ rw (BTreeMap.lookup-insert s socket (r ∷ rs) state.servers, same) refl
  | inr other ↦ rw (BTreeMap.lookup-insert s socket (r ∷ rs) state.servers, other) refl
]

remove_unknown :
    (state : DockStateFile) (socket : Socket) (w t : String)
    → Map.lookup socket state.servers ≡ none
    → (remove state socket w t).0 ≡ state
unfolding remove
remove_unknown state socket w t e = rw (e, remove, remove_where) refl

remove_known :
    (state : DockStateFile) (socket : Socket) (w t : String) (rs : List DockRecord)
    → Map.lookup socket state.servers ≡ some rs
    → (remove state socket w t).0 ≡ set_records state socket (retain (λ r. not (same_tab w t r)) rs)
unfolding remove
remove_known state socket w t rs e = rw (e, remove, remove_where) refl

-- A removal takes the dock of its tab and of no other tab and no other server.
pub find_dock-remove :
    (state : DockStateFile) (socket s : Socket) (w t w' t' : String)
    → find_dock (remove state socket w t).0 s w' t'
      ≡ (if s == socket && (w' == w && t' == t) then none else find_dock state s w' t')
find_dock-remove state socket s w t w' t' = go (Map.lookup socket state.servers) refl
  where
    go :
        (o : Option (List DockRecord))
        → Map.lookup socket state.servers ≡ o
        → find_dock (remove state socket w t).0 s w' t'
          ≡ (if s == socket && (w' == w && t' == t) then none else find_dock state s w' t')
    go none e = elim (Bool-cases (s == socket)) [
      | inl same ↦
          let here = same_socket s socket same in
          let old : records_for state s ≡ [] =
            ap (records_for state) here ∙ records_for_known state socket e in
          rw (remove_unknown state socket w t e, same, old) (ground arith)
      | inr other ↦ rw (remove_unknown state socket w t e, other) refl
    ]
    go (some rs) e =
        let kept = retain (λ r. not (same_tab w t r)) rs in
        elim (Bool-cases (s == socket)) [
          | inl same ↦
              let here = same_socket s socket same in
              let old : records_for state s ≡ rs =
                ap (records_for state) here ∙ records_for_known state socket e in
              rw
                (
                  remove_known state socket w t rs e,
                  records_for-set_records state socket s kept,
                  same,
                  old,
                )
                (find-retain w t w' t' rs)
          | inr other ↦
              rw
                (
                  remove_known state socket w t rs e,
                  records_for-set_records state socket s kept,
                  other,
                )
                refl
        ]
