-- ===== src/Worker/Sizes.antt =====
-- How `idle_len`, the number of pending keys that are not active, changes.
use herdr_context.Base.{suc, ◌≤◌, ◌≡◌, refl, true, false, none, some, [], ◌∷◌, List, arith}
use herdr_context.Base.Map
use herdr_context.Base.Map.{Map}
use herdr_context.Base.KeySet
use herdr_context.Worker.Job.{Job, JobKey, job_key_eq}
use herdr_context.Worker.Runtime.{idle_len}

module _ {T : Type 0} (k : JobKey) (a : List JobKey) where
  pub idle_len-insert_active :
      (job : Job T) (m : Map JobKey (Job T))
      → KeySet.contains k a ≡ true
      → idle_len (Map.insert k job m) a ≡ idle_len m a
  unfolding idle_len Map.insert
  idle_len-insert_active job [] h = ground arith
  idle_len-insert_active job ((j, p) ∷ m) h = ground (arith, idle_len-insert_active job m h)

  pub idle_len-insert_present :
      (job p : Job T) (m : Map JobKey (Job T))
      → Map.lookup k m ≡ some p
      → idle_len (Map.insert k job m) a ≡ idle_len m a
  unfolding idle_len Map.insert Map.lookup
  idle_len-insert_present job p [] h = ground arith
  idle_len-insert_present job p ((j, q) ∷ m) h = ground (arith, idle_len-insert_present job p m)

  pub idle_len-insert_absent :
      (job : Job T) (m : Map JobKey (Job T))
      → Map.lookup k m ≡ none
      → KeySet.contains k a ≡ false
      → idle_len (Map.insert k job m) a ≡ suc (idle_len m a)
  unfolding idle_len Map.insert Map.lookup
  idle_len-insert_absent job [] h c = ground arith
  idle_len-insert_absent job ((j, q) ∷ m) h c = ground (arith, idle_len-insert_absent job m)

  idle_len-remove_absent :
      (m : Map JobKey (Job T)) → Map.lookup k m ≡ none → idle_len (Map.remove k m) a ≡ idle_len m a
  unfolding idle_len Map.remove Map.lookup
  idle_len-remove_absent [] h = refl
  idle_len-remove_absent ((j, q) ∷ m) h = ground (arith, idle_len-remove_absent m)

  pub idle_len-remove :
      (p : Job T) (m : Map JobKey (Job T))
      → Map.IsDistinct m
      → Map.lookup k m ≡ some p
      → KeySet.contains k a ≡ false
      → idle_len m a ≡ suc (idle_len (Map.remove k m) a)
  unfolding idle_len Map.remove Map.lookup
  idle_len-remove p [] d h c = ground arith
  idle_len-remove p ((j, q) ∷ m) d h c =
      ground (arith, idle_len-remove p m d.1, idle_len-remove_absent m)

  pub idle_len-activate :
      (m : Map JobKey (Job T))
      → Map.lookup k m ≡ none
      → idle_len m (KeySet.insert k a) ≡ idle_len m a
  unfolding idle_len Map.lookup
  idle_len-activate [] h = refl
  idle_len-activate ((j, q) ∷ m) h =
      ground (arith, idle_len-activate m, KeySet.contains-insert j k a)

  idle_len-deactivate_absent :
      (m : Map JobKey (Job T))
      → Map.lookup k m ≡ none
      → idle_len m (KeySet.remove k a) ≡ idle_len m a
  unfolding idle_len Map.lookup
  idle_len-deactivate_absent [] h = refl
  idle_len-deactivate_absent ((j, q) ∷ m) h =
      ground (arith, idle_len-deactivate_absent m, KeySet.contains-remove j k a)

  pub idle_len-deactivate :
      (m : Map JobKey (Job T))
      → Map.IsDistinct m
      → idle_len m (KeySet.remove k a) ≤ suc (idle_len m a)
  unfolding idle_len Map.lookup
  idle_len-deactivate [] d = omega arith
  idle_len-deactivate ((j, q) ∷ m) d =
      ground (
        arith,
        idle_len-deactivate m d.1,
        idle_len-deactivate_absent m,
        KeySet.contains-remove j k a,
      )
