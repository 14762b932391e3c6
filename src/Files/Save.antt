-- ===== src/Files/Save.antt =====
-- settings.go and manager.go: `saveLocked` and `saveRuntimeState` on disk, through a temporary file.
use tor_country_manager.Shared.{
  ℕ, Bool, not, List, [], ◌∷◌, ◌++◌, Option, none, some, if◌then◌else◌,
}
use tor_country_manager.Shared.Text.{Text, is_empty}
use tor_country_manager.Files.Defs.{
  FileOp, creates, appends, removes, part, SaveError, no_path, not_encoded, no_directory,
  no_temporary, no_permissions, not_written, not_synced, not_closed, ReplaceAnswers, replace_file,
}

-- What the system answers while a file is saved.
pub record SaveAnswers : Type 0 where
  pub makes_directory : Bool
  pub creates_temporary : Bool
  pub sets_permissions : Bool
  pub written : Option ℕ
  pub syncs : Bool
  pub closes : Bool
  pub replaces : ReplaceAnswers

-- The temporary file is there, with its content; what comes of `replaceFile`, and of the deferred
-- `os.Remove`.
unfoldable pub finish_save :
    List FileOp → (temporary path : Text) → SaveAnswers → List FileOp × Option SaveError
finish_save done temporary path a =
    let (ops, e) = replace_file temporary path a.replaces in
    (done ++ (ops ++ removes temporary ∷ []), e)

-- From `Sync` on.
unfoldable pub sync_and_finish :
    List FileOp → (temporary path : Text) → SaveAnswers → List FileOp × Option SaveError
unfolding finish_save
sync_and_finish done temporary path a =
    let dropped = done ++ removes temporary ∷ [] in
    if not a.syncs
    then (dropped, some not_synced)
    else if not a.closes
    then (dropped, some not_closed)
    else finish_save done temporary path a

unfoldable pub save_content :
    (temporary path content : Text) → SaveAnswers → List FileOp × Option SaveError
unfolding sync_and_finish
save_content temporary path content a =
    let begun = creates temporary ∷ [] in
    let dropped = creates temporary ∷ removes temporary ∷ [] in
    if not a.makes_directory
    then ([], some no_directory)
    else if not a.creates_temporary
    then ([], some no_temporary)
    else if not a.sets_permissions
    then (dropped, some no_permissions)
    else elim a.written [
      | some n ↦ (
        creates temporary ∷ appends temporary (part (some n) content) ∷ removes temporary ∷ [],
        some not_written,
      )
      | none ↦ sync_and_finish (creates temporary ∷ appends temporary content ∷ []) temporary path a
    ]

-- `saveLocked` of the settings, on the encoded configuration.
unfoldable pub save_configuration :
    (temporary path : Text) → (encoded : Option Text) → SaveAnswers → List FileOp × Option SaveError
unfolding save_content
save_configuration temporary path encoded a =
    if is_empty path then ([], some no_path) else elim encoded [
      | none ↦ ([], some not_encoded)
      | some b ↦ save_content temporary path (b ++ (10 ∷ [])) a
    ]

-- What `saveRuntimeState` has put into the temporary file: it looks neither at the error of `Chmod`
-- afterwards nor at that of `Write`, which stand in a variable of the `if`.
unfoldable pub state_written : (temporary content : Text) → SaveAnswers → List FileOp
state_written temporary content a =
    if not a.sets_permissions
    then creates temporary ∷ []
    else creates temporary ∷ appends temporary (part a.written content) ∷ []

-- `saveRuntimeState` on disk, on the encoded state; its error is logged.
unfoldable pub save_state_file :
    (temporary path : Text) → (encoded : Option Text) → SaveAnswers → List FileOp × Option SaveError
unfolding state_written sync_and_finish
save_state_file temporary path encoded a = elim encoded [
  | none ↦ ([], some not_encoded)
  | some b ↦
      if not a.makes_directory
      then ([], some no_directory)
      else if not a.creates_temporary
      then ([], some no_temporary)
      else sync_and_finish (state_written temporary (b ++ (10 ∷ [])) a) temporary path a
]
