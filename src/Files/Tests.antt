-- ===== src/Files/Tests.antt =====
-- Paths, contents and answers on which the theorems about the files are applied.
use tor_country_manager.Shared.{true, [], ◌∷◌, none, some, ◌≡◌, refl, take, if◌then◌else◌}
use tor_country_manager.Shared.Text.{same, is_empty}
use tor_country_manager.Files.Defs.{Files, apply_all, moved, replace_file}
use tor_country_manager.Files.Save.{SaveAnswers, save_configuration, save_state_file}
use tor_country_manager.Files.Atomic.{Whole, save_configuration-Whole}
use tor_country_manager.Files.Unnoticed.{saved_state_is_what_came_through}

-- The path `p` holds `old`.
abbrev one_file : Files
one_file q = if same (b'p' ∷ []) q then some (b'o' ∷ b'l' ∷ b'd' ∷ []) else none

-- All calls succeed.
abbrev fine : SaveAnswers
fine = record {
  makes_directory = true;
  creates_temporary = true;
  sets_permissions = true;
  written = none;
  syncs = true;
  closes = true;
  replaces = record {
    renamed = moved;
    opens_source = true;
    opens_destination = true;
    copied = none;
    syncs_copy = true;
    closes_copy = true;
  };
}

-- The disk is full after one byte.
abbrev full_disk : SaveAnswers
full_disk = record fine { written = some 1 }

-- The program dies before the renaming.
save_configuration-Whole_example :
    let r = save_configuration (b't' ∷ []) (b'p' ∷ []) (some (b'n' ∷ b'e' ∷ b'w' ∷ [])) fine in
    Whole one_file (b'p' ∷ []) (b'n' ∷ b'e' ∷ b'w' ∷ 10 ∷ []) (apply_all one_file (take 2 r.0))
    × (apply_all one_file r.0 (b'p' ∷ []) ≡ some (b'n' ∷ b'e' ∷ b'w' ∷ 10 ∷ []))
    × (apply_all one_file r.0 (b't' ∷ []) ≡ none)
unfolding save_configuration same is_empty replace_file
save_configuration-Whole_example =
    save_configuration-Whole one_file (b't' ∷ []) (b'p' ∷ []) (b'n' ∷ b'e' ∷ b'w' ∷ []) fine 2 refl
      refl refl refl

-- A write that fails is not noticed: the old state is lost, and one byte of the new one is left.
saved_state_is_what_came_through_example :
    apply_all one_file
      (save_state_file (b't' ∷ []) (b'p' ∷ []) (some (b'n' ∷ b'e' ∷ b'w' ∷ [])) full_disk).0
      (b'p' ∷ [])
    ≡ some (b'n' ∷ [])
unfolding save_state_file same replace_file
saved_state_is_what_came_through_example =
    saved_state_is_what_came_through one_file (b't' ∷ []) (b'p' ∷ []) (b'n' ∷ b'e' ∷ b'w' ∷ [])
      full_disk refl refl
