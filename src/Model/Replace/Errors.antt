-- ===== src/Model/Replace/Errors.antt =====
-- The visible errors of `ConversationsViewState` in src/model.rs.
use herdr_context.Base.{
  ◌≡◌, refl, String, Bool, true, ◌||◌, Option, none, some, List, [], ◌∷◌, ◌++◌, arith, any, ◌==◌,
  string_eq, option_eq,
}
use herdr_context.Conversations.{session_reference_eq}
use herdr_context.Model.State.{ConversationsViewState, VisibleError, alert}
use herdr_context.Model.Replace

-- An error is shown where some visible error has its message.
abbrev pub Shown : Option String → List VisibleError → Type 0
Shown none errors = Unit
Shown (some error) errors = any (λ e. e.message == error) errors ≡ true

any-append :
    (q : VisibleError → Bool) (xs ys : List VisibleError)
    → any q (xs ++ ys) ≡ (any q xs || any q ys)
any-append q [] ys = refl
any-append q (x ∷ xs) ys = ground (arith, any-append q xs ys)

push_error-any :
    (o : Option String) (errors : List VisibleError) (q : VisibleError → Bool)
    → any q errors ≡ true
    → any q (Replace.push_error o errors) ≡ true
unfolding Replace.push_error
push_error-any none errors q h = h
push_error-any (some error) errors q h =
    ground (arith, h, any-append q errors ((record { severity = alert; message = error }) ∷ []))

push_error-Shown :
    (o : Option String) (errors : List VisibleError) → Shown o (Replace.push_error o errors)
unfolding Replace.push_error
push_error-Shown none errors = tt
push_error-Shown (some error) errors = ground (
  arith,
  any-append (λ (e : VisibleError). e.message == error) errors
      ((record { severity = alert; message = error }) ∷ []),
)

Shown-push_error :
    (shown o : Option String) (errors : List VisibleError)
    → Shown shown errors
    → Shown shown (Replace.push_error o errors)
Shown-push_error none o errors h = tt
Shown-push_error (some error) o errors h = push_error-any o errors (λ e. e.message == error) h

-- After the live error is set, every source error is still visible by its message, and so are the
-- live error and the launch error, if there are any.
pub set_live_error-Shown :
    (s : ConversationsViewState) (error : Option String) (q : VisibleError → Bool)
    → any q s.source_errors ≡ true
    → let after = Replace.set_live_error s error in
      (any q after.visible_errors ≡ true)
      × Shown error after.visible_errors
      × Shown s.launch_error after.visible_errors
unfolding Replace.set_live_error Replace.rebuild_visible_errors
set_live_error-Shown s error q h =
    let live = Replace.push_error error s.source_errors in
    (
      push_error-any s.launch_error live q (push_error-any error s.source_errors q h),
      Shown-push_error error s.launch_error live (push_error-Shown error s.source_errors),
      push_error-Shown s.launch_error live,
    )
