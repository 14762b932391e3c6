-- ===== src/Files/Unnoticed.antt =====
-- manager.go: what the state file holds after `saveRuntimeState` has met no error.
use tor_country_manager.Shared.{
  false, not, List, [], ◌∷◌, ◌++◌, Option, none, some, if◌then◌else◌, ◌≡◌, refl, arith, if_cases,
  Option-cases, Bool-cases, inl, inr,
}
use tor_country_manager.Shared.Text.{Text, same, same_iff}
use tor_country_manager.Files.Defs.{
  Files, FileOp, apply_op, apply_all, part, SaveError, ReplaceAnswers, Renamed, moved, busy,
  refused, rewrite_mounted_file, replace_file, replace_renamed,
}
use tor_country_manager.Files.Save.{
  SaveAnswers, finish_save, sync_and_finish, state_written, save_state_file,
}

apply_all-append :
    (f : Files) (xs ys : List FileOp) → apply_all f (xs ++ ys) ≡ apply_all (apply_all f xs) ys
unfolding apply_all
apply_all-append f [] ys = refl
apply_all-append f (op ∷ xs) ys = apply_all-append (apply_op f op) xs ys

-- If there is no error, the path holds the content of the temporary file.
record Replaces (f : Files) (temporary path content : Text) (r : List FileOp × Option SaveError)
    : Type 0 where
  there : r.1 ≡ none → apply_all f r.0 path ≡ some content

module _ (f : Files) (temporary path content : Text) (apart : same temporary path ≡ false)
    (full : f temporary ≡ some content) where
  abbrev IsReplaced : List FileOp × Option SaveError → Type 0
  IsReplaced = Replaces f temporary path content

  no_success : (ops : List FileOp) (e : SaveError) → IsReplaced (ops, some e)
  no_success ops e = record { there = λ h. cc }

  back : same path temporary ≡ false
  back = ground (arith, apart, same_iff temporary path, same_iff path temporary)

  rewrite_mounted_file-Replaces :
      (a : ReplaceAnswers) → IsReplaced (rewrite_mounted_file temporary path a)
  unfolding rewrite_mounted_file apply_all apply_op
  rewrite_mounted_file-Replaces a =
      if_cases IsReplaced (not a.opens_source) (λ _. no_success _ _)
        (λ _.
          if_cases IsReplaced (not a.opens_destination) (λ _. no_success _ _)
            (λ _. elim (Option-cases a.copied) [
              | inr (n, e) ↦ rw e (no_success _ _)
              | inl e ↦ rw e (
                  if_cases IsReplaced (not a.syncs_copy) (λ _. no_success _ _)
                    (λ _.
                      if_cases IsReplaced (not a.closes_copy) (λ _. no_success _ _)
                        (λ _. record {
                          there = λ h. rw ((same_iff path path).1 refl, back, full) refl;
                        })))
            ]))

  replace_renamed-Replaces :
      (r : Renamed) (a : ReplaceAnswers) → IsReplaced (replace_renamed r temporary path a)
  unfolding replace_renamed apply_all apply_op
  replace_renamed-Replaces moved a = record {
    there = λ h. rw (apart, (same_iff path path).1 refl, full) refl;
  }
  replace_renamed-Replaces refused a = no_success _ _
  replace_renamed-Replaces busy a = rewrite_mounted_file-Replaces a

-- The temporary file has been filled by `done`; if the rest meets no error, its content is at the path.
module _ (f : Files) (done : List FileOp) (temporary path content : Text) (a : SaveAnswers)
    (apart : same temporary path ≡ false) (full : apply_all f done temporary ≡ some content) where
  IsSaved : List FileOp × Option SaveError → Type 0
  IsSaved = Replaces f temporary path content

  finish_save-Replaces : IsSaved (finish_save done temporary path a)
  unfolding finish_save replace_file IsSaved
  finish_save-Replaces =
      let replaced =
        replace_renamed-Replaces (apply_all f done) temporary path content apart full
          a.replaces.renamed a.replaces in
      record {
        there = λ h.
            rw (apply_all-append f done, apply_all-append (apply_all f done))
              (unfold apply_all apply_op in rw apart (replaced.there h));
      }

  sync_and_finish-Replaces : IsSaved (sync_and_finish done temporary path a)
  unfolding sync_and_finish IsSaved
  sync_and_finish-Replaces =
      if_cases IsSaved (not a.syncs) (λ _. record { there = λ h. cc })
        (λ _.
          if_cases IsSaved (not a.closes) (λ _. record { there = λ h. cc })
            (λ _. finish_save-Replaces))

-- What has come into the temporary file.
abbrev came_through : SaveAnswers → Text → Text
came_through a content = if a.sets_permissions then part a.written content else []

state_written-full :
    (f : Files) (temporary content : Text) (a : SaveAnswers)
    → apply_all f (state_written temporary content a) temporary ≡ some (came_through a content)
unfolding state_written apply_all apply_op
state_written-full f temporary content a = elim (Bool-cases a.sets_permissions) [
  | inl e ↦ rw (e, (same_iff temporary temporary).1 refl) refl
  | inr e ↦ rw (e, (same_iff temporary temporary).1 refl) refl
]

save_state_file-Replaces :
    (f : Files) (temporary path b : Text) (a : SaveAnswers)
    → same temporary path ≡ false
    → Replaces f temporary path
        (came_through a (b ++ (10 ∷ [])))
        (save_state_file temporary path (some b) a)
unfolding save_state_file IsSaved
save_state_file-Replaces f temporary path b a apart =
    let P = Replaces f temporary path (came_through a (b ++ (10 ∷ []))) in
    if_cases P (not a.makes_directory) (λ _. record { there = λ h. cc })
      (λ _.
        if_cases P (not a.creates_temporary) (λ _. record { there = λ h. cc })
          (λ _.
            sync_and_finish-Replaces f (state_written temporary (b ++ (10 ∷ [])) a) temporary path _
              a apart (state_written-full f temporary (b ++ (10 ∷ [])) a)))

-- The state file is saved through a temporary file at another path, and no error is met, whether the file
-- is renamed or a mounted file is rewritten. Then the path holds as much of the new state as came
-- through: all of it, or the part that was written before the write failed, or nothing if the
-- permissions could not be set.
pub saved_state_is_what_came_through :
    (f : Files) (temporary path b : Text) (a : SaveAnswers)
    → same temporary path ≡ false
    → (save_state_file temporary path (some b) a).1 ≡ none
    → apply_all f (save_state_file temporary path (some b) a).0 path
      ≡ some (if a.sets_permissions then part a.written (b ++ (10 ∷ [])) else [])
saved_state_is_what_came_through f temporary path b a apart h =
    (save_state_file-Replaces f temporary path b a apart).there h
