-- ===== src/Files/Atomic.antt =====
-- settings.go and manager.go: what stands at the path of a saved file at every moment of saving it.
use tor_country_manager.Shared.{
  ℕ, zero, suc, Bool, true, false, not, List, [], ◌∷◌, ◌++◌, Option, none, some, if◌then◌else◌,
  take, ◌≡◌, refl, arith, ◌⊎◌, inl, inr, is_some, if_either, Option-cases,
}
use tor_country_manager.Shared.Text.{Text, same, same_iff, is_empty}
use tor_country_manager.Files.Defs.{
  Files, FileOp, creates, appends, removes, apply_op, apply_all, part, SaveError, not_renamed,
  not_synced, not_closed, no_directory, no_temporary, no_permissions, not_written, Renamed, moved,
  busy, refused, replace_file, replace_renamed,
}
use tor_country_manager.Files.Save.{
  SaveAnswers, finish_save, sync_and_finish, save_content, save_configuration,
}

-- `P` holds at first and after each change.
abbrev Always : (Files → Type 0) → Files → List FileOp → Type 0
Always P f [] = P f
Always P f (op ∷ ops) = P f × Always P (apply_op f op) ops

Always-first : (P : Files → Type 0) (f : Files) (ops : List FileOp) → Always P f ops → P f
Always-first P f [] a = a
Always-first P f (op ∷ ops) a = a.0

-- The changes may be cut off anywhere.
Always-take :
    (P : Files → Type 0) (k : ℕ) (f : Files) (ops : List FileOp)
    → Always P f ops
    → P (apply_all f (take k ops))
unfolding apply_all
Always-take P zero f ops a = Always-first P f ops a
Always-take P (suc k) f [] a = a
Always-take P (suc k) f (op ∷ ops) a = Always-take P k (apply_op f op) ops a.1

abbrev is_busy : Renamed → Bool
is_busy busy = true
is_busy _ = false

-- The old content is there, or all of the new one.
abbrev pub Whole : Files → (path content : Text) → Files → Type 0
Whole f path content g = (g path ≡ f path) ⊎ (g path ≡ some content)

-- Every moment is whole, the end has the new content if there is no error and the old one if there is,
-- and the temporary file is gone.
record Saves (f : Files) (temporary path content : Text) (r : List FileOp × Option SaveError)
    : Type 0 where
  always : Always (Whole f path content) f r.0
  final : apply_all f r.0 path ≡ (if is_some r.1 then f path else some content)
  cleaned : apply_all f r.0 temporary ≡ none

module _ (f : Files) (temporary path content : Text) (a : SaveAnswers)
    (apart : same temporary path ≡ false) (free : f temporary ≡ none) where
  abbrev IsSaved : List FileOp × Option SaveError → Type 0
  IsSaved = Saves f temporary path content

  -- Nothing was done.
  not_begun : (e : SaveError) → IsSaved ([], some e)
  unfolding apply_all
  not_begun e = record { always = inl refl; final = refl; cleaned = free }

  -- The temporary file was dropped.
  dropped-Saves : (e : SaveError) → IsSaved (creates temporary ∷ removes temporary ∷ [], some e)
  unfolding apply_all apply_op
  dropped-Saves e = record {
    always = (inl refl, (inl (rw apart refl), inl (rw apart refl)));
    final = rw apart refl;
    cleaned = ground (arith, same_iff temporary temporary);
  }

  written-Saves :
      (n : Option ℕ) (e : SaveError)
      → IsSaved
          (creates temporary ∷ appends temporary (part n content) ∷ removes temporary ∷ [], some e)
  unfolding apply_all apply_op
  written-Saves n e = record {
    always = (inl refl, (inl (rw apart refl), (inl (rw apart refl), inl (rw apart refl))));
    final = rw apart refl;
    cleaned = ground (arith, same_iff temporary temporary);
  }

  -- The temporary file is full: what comes of the rest.
  rest_of : Renamed → List FileOp × Option SaveError
  rest_of r =
      let (ops, e) = replace_renamed r temporary path a.replaces in
      (creates temporary ∷ appends temporary content ∷ (ops ++ removes temporary ∷ []), e)

  rest_of-Saves : (r : Renamed) → is_busy r ≡ false → IsSaved (rest_of r)
  unfolding rest_of replace_renamed apply_all apply_op
  rest_of-Saves busy h = absurd (ground arith)
  rest_of-Saves refused h = written-Saves none not_renamed
  rest_of-Saves moved h =
      let own = (same_iff temporary temporary).1 refl in
      let other = (same_iff path path).1 refl in
      record {
        always = (
          inl refl,
          (
            inl (rw apart refl),
            (
              inl (rw apart refl),
              (inr (rw (apart, own, other) refl), inr (rw (apart, own, other) refl)),
            ),
          ),
        );
        final = rw (apart, own, other) refl;
        cleaned = rw own refl;
      }

  finish_save-Saves :
      is_busy a.replaces.renamed ≡ false
      → IsSaved (finish_save (creates temporary ∷ appends temporary content ∷ []) temporary path a)
  unfolding finish_save replace_file rest_of
  finish_save-Saves h = rest_of-Saves a.replaces.renamed h

  sync_and_finish-Saves :
      is_busy a.replaces.renamed ≡ false
      → IsSaved
          (sync_and_finish (creates temporary ∷ appends temporary content ∷ []) temporary path a)
  unfolding sync_and_finish
  sync_and_finish-Saves h =
      if_either IsSaved (not a.syncs) (written-Saves none not_synced)
        (if_either IsSaved (not a.closes) (written-Saves none not_closed) (finish_save-Saves h))

  save_content-Saves :
      is_busy a.replaces.renamed ≡ false → IsSaved (save_content temporary path content a)
  unfolding save_content
  save_content-Saves h = if_either IsSaved (not a.makes_directory) (not_begun no_directory) (
      if_either IsSaved (not a.creates_temporary) (not_begun no_temporary) (
        if_either IsSaved (not a.sets_permissions) (dropped-Saves no_permissions)
          (elim (Option-cases a.written) [
            | inl e ↦ rw e (sync_and_finish-Saves h)
            | inr (n, e) ↦ rw e (written-Saves (some n) not_written)
          ])))

-- The configuration is saved through a temporary file at another path, where nothing is before, and the
-- system does not answer EBUSY to the renaming. Then, whatever else fails, and if the program dies after
-- any number `k` of changes, the path holds either what it held or the whole new configuration. If the
-- program lives, an error means that the old content stands, no error that the new one does, and the
-- temporary file is gone.
pub save_configuration-Whole :
    (f : Files) (temporary path b : Text) (a : SaveAnswers) (k : ℕ)
    → is_empty path ≡ false
    → same temporary path ≡ false
    → f temporary ≡ none
    → is_busy a.replaces.renamed ≡ false
    → let r = save_configuration temporary path (some b) a in
      Whole f path (b ++ (10 ∷ [])) (apply_all f (take k r.0))
      × (apply_all f r.0 path ≡ (if is_some r.1 then f path else some (b ++ (10 ∷ []))))
      × (apply_all f r.0 temporary ≡ none)
unfolding save_configuration
save_configuration-Whole f temporary path b a k named apart free sound =
    let content = b ++ (10 ∷ []) in
    let s = save_content-Saves f temporary path content a apart free sound in
    let r = save_content temporary path content a in
    rw named (Always-take (Whole f path content) k f r.0 s.always, s.final, s.cleaned)
