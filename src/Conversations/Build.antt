-- ===== src/Conversations/Build.antt =====
-- The constructors of src/conversations/mod.rs. `trim` and `len` are those of Rust's `str`.
use herdr_context.Base.{
  ℕ, ◌≡◌, refl, sym, ap, ◌∙◌, String, true, false, Option, none, some, List, [], ◌∷◌, ◌==◌,
  string_eq, nat_eq, if◌then◌else◌, Bool-cases, inl, inr,
}
use herdr_context.Base.Paths.{FilePath}
use herdr_context.Base.Results.{Result, ok, err, ◌>>=◌, ok_or}
use herdr_context.Conversations.{
  SessionReference, ConversationState, ConversationProvenance, ResumeCapability, Conversation,
}

pub data ConversationError : Type 0 where
  empty_identifier : String → ConversationError
  missing_provenance : ConversationError

module _ (trim : String → String) (len : String → ℕ) where
  unfoldable pub normalize_nonempty : String → Option String
  normalize_nonempty value =
      let normalized_len = len (trim value) in
      if normalized_len == 0
      then none
      else if normalized_len == len value
      then some value
      else some (trim value)

  unfoldable pub normalized_identifier : String → String → Result ConversationError String
  normalized_identifier value field = ok_or (normalize_nonempty value) (empty_identifier field)

  unfoldable pub new_reference : String → String → Result ConversationError SessionReference
  new_reference namespace id = do
    n ← normalized_identifier namespace "session namespace"
    i ← normalized_identifier id "session id"
    ok (record { namespace = n; id = i })

  abbrev title_of : Option String → Option String
  title_of none = none
  title_of (some title) = normalize_nonempty title

  unfoldable pub new_conversation :
      (tool : String) (session_reference : SessionReference) (project_identity : FilePath)
      (title : Option String) (created_at archived_at : Option ℕ) (updated_at : ℕ)
      (state : ConversationState) (provenance : List ConversationProvenance)
      (resume : ResumeCapability)
      → Result ConversationError Conversation
  new_conversation tool reference identity title created archived updated state [] resume =
      err missing_provenance
  new_conversation tool reference identity title created archived updated state (p ∷ ps) resume =
      ok (record {
        tool = tool;
        session_reference = reference;
        project_identity = identity;
        title = title_of title;
        created_at = created;
        archived_at = archived;
        updated_at = updated;
        state = state;
        provenance = p ∷ ps;
        resume = resume;
      })

  -- What a result says of the texts that it was built from.
  abbrev pub Referenced : String → String → Result ConversationError SessionReference → Type 0
  Referenced namespace id (ok reference) =
      (reference.namespace ≡ trim namespace)
      × (reference.id ≡ trim id)
      × ((reference.namespace == "") ≡ false)
      × ((reference.id == "") ≡ false)
  Referenced namespace id (err (empty_identifier field)) =
      if trim namespace == ""
      then (field ≡ "session namespace")
      else ((field ≡ "session id") × ((trim id == "") ≡ true))
  Referenced namespace id (err missing_provenance) = ⊥

  -- Only the empty text has no length, and a text that is as long once trimmed is the trimmed one.
  pub record AreOfText : Type 0 where
    pub empty_len : (text : String) → (len text == 0) ≡ (text == "")
    pub same_len : (text : String) → (len (trim text) == len text) ≡ true → trim text ≡ text

  normalize_nonempty_lem :
      (value : String)
      → AreOfText
      → normalize_nonempty value ≡ (if trim value == "" then none else some (trim value))
  unfolding normalize_nonempty
  normalize_nonempty_lem value h = elim (Bool-cases (trim value == "")) [
    | inl nothing ↦ rw (nothing, h.empty_len (trim value) ∙ nothing, normalize_nonempty) refl
    | inr text ↦ elim (Bool-cases (len (trim value) == len value)) [
      | inl same ↦
          rw (text, h.empty_len (trim value) ∙ text, same, normalize_nonempty)
            (ap some (sym (h.same_len value same)))
      | inr other ↦ rw (text, h.empty_len (trim value) ∙ text, other, normalize_nonempty) refl
    ]
  ]

  -- Where the length and the trimming of a text are as documented, a reference that is built has the
  -- trimmed namespace and id, and neither is empty; the error names the namespace where that is empty
  -- once trimmed, and otherwise the id is empty.
  pub new_reference-Referenced :
      (namespace id : String) → AreOfText → Referenced namespace id (new_reference namespace id)
  unfolding new_reference normalized_identifier
  new_reference-Referenced namespace id h =
      let first = normalize_nonempty_lem namespace h in
      let second = normalize_nonempty_lem id h in
      elim (Bool-cases (trim namespace == "")) [
        | inl n ↦ rw (first, n, n) refl
        | inr n ↦ elim (Bool-cases (trim id == "")) [
          | inl i ↦ rw (first, second, n, i) (rw n (refl, i))
          | inr i ↦ rw (first, second, n, i) (refl, refl, n, i)
        ]
      ]
