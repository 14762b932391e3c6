-- ===== src/Files/Defs.antt =====
-- replace_file_unix.go: a file takes the place of another one.
use tor_country_manager.Shared.{
  ℕ, Bool, not, List, [], ◌∷◌, ◌++◌, Option, none, some, if◌then◌else◌, take,
}
use tor_country_manager.Shared.Text.{Text, same}

-- What stands at a path.
abbrev pub Files : Type 0
Files = Text → Option Text

abbrev pub put : Files → Text → Option Text → Files
put f path content q = if same path q then content else f q

-- What was changed on disk. A copy that fails has got so many bytes through.
pub data FileOp : Type 0 where
  creates truncates removes : (path : Text) → FileOp
  appends : (path content : Text) → FileOp
  moves : (source destination : Text) → FileOp
  copies : (source destination : Text) (failed_after : Option ℕ) → FileOp

abbrev pub content_of : Option Text → Text
content_of none = []
content_of (some content) = content

-- So much of a text comes through.
abbrev pub part : Option ℕ → Text → Text
part none content = content
part (some n) content = take n content

unfoldable pub apply_op : Files → FileOp → Files
apply_op f (creates path) = put f path (some [])
apply_op f (truncates path) = put f path (some [])
apply_op f (removes path) = put f path none
apply_op f (appends path content) = put f path (some (content_of (f path) ++ content))
apply_op f (moves source destination) = put (put f destination (f source)) source none
apply_op f (copies source destination failed_after) =
    put f destination
      (some (content_of (f destination) ++ part failed_after (content_of (f source))))

unfoldable pub apply_all : Files → List FileOp → Files
unfolding apply_op
apply_all f [] = f
apply_all f (op ∷ ops) = apply_all (apply_op f op) ops

pub data SaveError : Type 0 where
  no_path not_encoded no_directory no_temporary no_permissions not_written not_synced : SaveError
  not_closed not_renamed source_unreadable not_opened not_copied : SaveError

-- What `os.Rename` answers; `busy` is the error EBUSY.
pub data Renamed : Type 0 where
  moved busy refused : Renamed

-- What the system answers to each call. `copied` and `written` are none where all bytes came through.
pub record ReplaceAnswers : Type 0 where
  pub renamed : Renamed
  pub opens_source : Bool
  pub opens_destination : Bool
  pub copied : Option ℕ
  pub syncs_copy : Bool
  pub closes_copy : Bool

-- `rewriteMountedFile`.
unfoldable pub rewrite_mounted_file :
    (source destination : Text) → ReplaceAnswers → List FileOp × Option SaveError
rewrite_mounted_file source destination a =
    let emptied = truncates destination in
    let filled = emptied ∷ copies source destination none ∷ [] in
    if not a.opens_source
    then ([], some source_unreadable)
    else if not a.opens_destination
    then ([], some not_opened)
    else elim a.copied [
      | some n ↦ (emptied ∷ copies source destination (some n) ∷ [], some not_copied)
      | none ↦
          if not a.syncs_copy
          then (filled, some not_synced)
          else if not a.closes_copy
          then (filled, some not_closed)
          else (filled, none)
    ]

unfoldable pub replace_renamed :
    Renamed → (source destination : Text) → ReplaceAnswers → List FileOp × Option SaveError
unfolding rewrite_mounted_file
replace_renamed moved source destination a = (moves source destination ∷ [], none)
replace_renamed refused source destination a = ([], some not_renamed)
replace_renamed busy source destination a = rewrite_mounted_file source destination a

-- `replaceFile`.
unfoldable pub replace_file :
    (source destination : Text) → ReplaceAnswers → List FileOp × Option SaveError
unfolding replace_renamed
replace_file source destination a = replace_renamed a.renamed source destination a
