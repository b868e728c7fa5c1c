-- ===== src/Files/Merge/Missing.antt =====
-- What the candidates of `merge_workspace_status` in src/files/tree.rs give a path, however the map
-- of the candidates has come about.
use herdr_context.Base.{
  ℕ, ◌≤◌, ◌≡◌, refl, sym, ap, ◌∙◌, some, [], ◌∷◌, arith, nat_eq, list_eq, ◌==◌, inl, inr,
  Bool-cases,
}
use herdr_context.Base.Order.{Ord, nat_ord, list_ord}
use herdr_context.Base.Map
use herdr_context.Base.Map.{Map}
use herdr_context.Base.BTreeMap
use herdr_context.Base.Paths.{RelPath}
use herdr_context.Vcs.Status.{VcsStatusKind}
use herdr_context.Files.Nodes.{preferred, insert_preferred_status}
use herdr_context.Files.Tree.Statuses.{stronger, contribution}
use herdr_context.Files.Merge.{Metadata, found, not_found, unreadable}
use herdr_context.Files.Merge.Ranks.{missing_strongest}

-- What a path gives that must not be on the disk.
abbrev pub if_missing : Metadata → ℕ → ℕ
if_missing found n = 8
if_missing unreadable n = 8
if_missing not_found n = n

swap : (a b c : ℕ) → stronger a (stronger b c) ≡ stronger b (stronger a c)
swap a b c = ground arith

joined : (a b c : ℕ) → stronger (stronger a b) c ≡ stronger a (stronger b c)
joined a b c = ground arith

contribution_le : (p q : RelPath) (k : VcsStatusKind) → contribution p q k ≤ 8
contribution_le p q k = ground arith

contribution-preferred :
    (p q : RelPath) (k w : VcsStatusKind)
    → contribution p q (preferred k w) ≡ stronger (contribution p q k) (contribution p q w)
contribution-preferred p q k w = ground arith

abbrev path_ord : Ord RelPath
path_ord = list_ord

module _ (symlink_metadata : RelPath → Metadata) (p : RelPath) where
  pub strongest-stronger :
      (a b : ℕ) (c : Map RelPath VcsStatusKind)
      → missing_strongest symlink_metadata p (stronger a b) c
        ≡ stronger a (missing_strongest symlink_metadata p b c)
  unfolding missing_strongest
  strongest-stronger a b [] = refl
  strongest-stronger a b ((q, k) ∷ c) =
      go (symlink_metadata q) refl (λ b'. strongest-stronger a b' c)
    where
      go :
          (o : Metadata)
          → symlink_metadata q ≡ o
          → ((b' : ℕ)
              → missing_strongest symlink_metadata p (stronger a b') c
                ≡ stronger a (missing_strongest symlink_metadata p b' c))
          → missing_strongest symlink_metadata p (stronger a b) ((q, k) ∷ c)
            ≡ stronger a (missing_strongest symlink_metadata p b ((q, k) ∷ c))
      go found e ih = rw (e, missing_strongest) (ih b)
      go unreadable e ih = rw (e, missing_strongest) (ih b)
      go not_found e ih =
          rw (e, missing_strongest)
            (ap (λ r. missing_strongest symlink_metadata p r c) (swap (contribution p q k) a b)
              ∙ ih (stronger (contribution p q k) b))

  pub strongest_le :
      (b : ℕ) (c : Map RelPath VcsStatusKind) → b ≤ 8 → missing_strongest symlink_metadata p b c ≤ 8
  strongest_le b c h =
      let same : stronger 8 b ≡ b = ground (arith, h) in
      let held : missing_strongest symlink_metadata p b c
          ≡ stronger 8 (missing_strongest symlink_metadata p b c) =
        ap (λ r. missing_strongest symlink_metadata p r c) (sym same) ∙ strongest-stronger 8 b c in
      ground (arith, held)

  -- What the candidate gives the path.
  abbrev given : RelPath → VcsStatusKind → ℕ
  given q k = if_missing (symlink_metadata q) (contribution p q k)

  strongest-cons :
      (b : ℕ) (q : RelPath) (k : VcsStatusKind) (c : Map RelPath VcsStatusKind)
      → b ≤ 8
      → missing_strongest symlink_metadata p b ((q, k) ∷ c)
        ≡ stronger (given q k) (missing_strongest symlink_metadata p b c)
  unfolding missing_strongest
  strongest-cons b q k c h = go (symlink_metadata q) refl
    where
      go :
          (o : Metadata)
          → symlink_metadata q ≡ o
          → missing_strongest symlink_metadata p b ((q, k) ∷ c)
            ≡ stronger (given q k) (missing_strongest symlink_metadata p b c)
      go found e = rw (e, missing_strongest) (ground (arith, strongest_le b c h))
      go unreadable e = rw (e, missing_strongest) (ground (arith, strongest_le b c h))
      go not_found e = rw (e, missing_strongest) (strongest-stronger (contribution p q k) b c)

  given-preferred :
      (q : RelPath) (k w : VcsStatusKind)
      → given q (preferred k w) ≡ stronger (given q k) (given q w)
  given-preferred q k w = go (symlink_metadata q)
    where
      go :
          (o : Metadata)
          → if_missing o (contribution p q (preferred k w))
            ≡ stronger (if_missing o (contribution p q k)) (if_missing o (contribution p q w))
      go found = refl
      go unreadable = refl
      go not_found = contribution-preferred p q k w

  strongest-place :
      (b : ℕ) (q : RelPath) (k : VcsStatusKind) (c : Map RelPath VcsStatusKind)
      → b ≤ 8
      → missing_strongest symlink_metadata p b (BTreeMap.place q k c)
        ≡ stronger (given q k) (missing_strongest symlink_metadata p b c)
  unfolding BTreeMap.place
  strongest-place b q k [] h = strongest-cons b q k [] h
  strongest-place b q k ((j, w) ∷ c) h = elim (Bool-cases (path_ord.lt q j)) [
    | inl before ↦ rw before (strongest-cons b q k ((j, w) ∷ c) h)
    | inr later ↦ rw later (
        strongest-cons b j w (BTreeMap.place q k c) h
        ∙ ap (stronger (given j w)) (strongest-place b q k c h)
        ∙ swap (given j w) (given q k) (missing_strongest symlink_metadata p b c)
        ∙ ap (stronger (given q k)) (sym (strongest-cons b j w c h)))
  ]

  strongest-overwrite :
      (b : ℕ) (q : RelPath) (k cur : VcsStatusKind) (c : Map RelPath VcsStatusKind)
      → b ≤ 8
      → Map.lookup q c ≡ some cur
      → missing_strongest symlink_metadata p b (BTreeMap.overwrite q (preferred k cur) c)
        ≡ stronger (given q k) (missing_strongest symlink_metadata p b c)
  unfolding BTreeMap.overwrite Map.lookup
  strongest-overwrite b q k cur [] h there = absurd (ground (arith, there))
  strongest-overwrite b q k cur ((j, w) ∷ c) h there = elim (Bool-cases (q == j)) [
    | inl hit ↦
        let here : w ≡ cur = ground (arith, hit, there) in
        let same : q ≡ j = ground (arith, hit) in
        rw hit (
          strongest-cons b q (preferred k cur) c h
          ∙ ap (λ g. stronger g (missing_strongest symlink_metadata p b c))
              (given-preferred q k cur)
          ∙ joined (given q k) (given q cur) (missing_strongest symlink_metadata p b c)
          ∙ ap (stronger (given q k)) (
              sym (strongest-cons b q cur c h)
              ∙ ap (λ v. missing_strongest symlink_metadata p b ((q, v) ∷ c)) (sym here)
              ∙ ap (λ i. missing_strongest symlink_metadata p b ((i, w) ∷ c)) same))
    | inr miss ↦ rw miss (
        strongest-cons b j w (BTreeMap.overwrite q (preferred k cur) c) h
        ∙ ap (stronger (given j w))
            (strongest-overwrite b q k cur c h (ground (arith, miss, there)))
        ∙ swap (given j w) (given q k) (missing_strongest symlink_metadata p b c)
        ∙ ap (stronger (given q k)) (sym (strongest-cons b j w c h)))
  ]

  -- One more candidate gives the path what it gives, whether or not its path is there already.
  pub strongest-insert_preferred_status :
      (b : ℕ) (q : RelPath) (k : VcsStatusKind) (c : Map RelPath VcsStatusKind)
      → b ≤ 8
      → missing_strongest symlink_metadata p b (insert_preferred_status c q k)
        ≡ stronger (given q k) (missing_strongest symlink_metadata p b c)
  unfolding insert_preferred_status BTreeMap.insert
  strongest-insert_preferred_status b q k c h = elim (Bool-cases (BTreeMap.contains_key q c)) [
    | inr new ↦
        rw (BTreeMap.lookup_absent q c new, insert_preferred_status, new, BTreeMap.insert)
          (strongest-place b q k c h)
    | inl old ↦
        let (cur, there) = BTreeMap.lookup_present q c old in
        rw (there, insert_preferred_status, old, BTreeMap.insert)
          (strongest-overwrite b q k cur c h there)
  ]
