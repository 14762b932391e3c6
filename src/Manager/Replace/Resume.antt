-- ===== src/Manager/Replace/Resume.antt =====
-- manager.go: `restoreAfterReplacementLocked`, and how the instance goes on after it.
use tor_country_manager.Shared.{
  ℕ, Bool, true, false, [], ◌++◌, Option, none, some, if◌then◌else◌, is_ref, ◌&&◌, ◌||◌, ◌==◌,
}
use tor_country_manager.Shared.Text.{Text, text, is_empty}
use tor_country_manager.Manager.Defs.{
  Manager, Instance, Status, unset, stopped, starting, connecting, running, switching, stopping,
  error, await_ready, await_bootstrap, update, go,
}

unfoldable pub is_final_status : Status → Bool
is_final_status error = true
is_final_status stopped = true
is_final_status stopping = true
is_final_status _ = false

unfoldable pub resumed_status : Status → Status
resumed_status unset = running
resumed_status switching = running
resumed_status s = s

unfoldable pub joined_error : Text → Text → Text
joined_error previous message =
    if is_empty message
    then previous
    else if is_empty previous
    then message
    else previous ++ text "; " ++ message

-- `restoreAfterReplacementLocked`: the instance, and the process and status to go on with.
unfoldable pub restore_after_replacement : Instance → Text → Instance × Option (ℕ × Status)
unfolding is_final_status resumed_status joined_error
restore_after_replacement i message =
    let status = resumed_status i.replacement_previous_status in
    let previous_error = i.replacement_previous_error in
    let cleared = record i {
      replacement = false;
      replacement_previous_status = unset;
      replacement_previous_error = [];
      pending_replacement = none;
    } in
    let final = is_final_status i.status in
    let lost : Instance × Option (ℕ × Status) = (
      record cleared {
        status = if final then i.status else error;
        error_text =
            joined_error
              (if final then i.error_text else text "old Tor instance is no longer running")
              message;
      },
      none,
    ) in
    elim i.cmd [
      | none ↦ lost
      | some cmd ↦ if i.is_stopping || i.is_draining then lost else (
        record cleared {
          status = status;
          error_text = if is_empty message then previous_error else message;
        },
        some (cmd, status),
      )
    ]

unfoldable pub resume_after_replacement : Manager → ℕ → Option (ℕ × Status) → Manager
resume_after_replacement m p none = m
resume_after_replacement m p (some (cmd, starting)) = go (await_ready p cmd) m
resume_after_replacement m p (some (cmd, connecting)) = go (await_bootstrap p cmd) m
resume_after_replacement m p (some (cmd, _)) = m

-- The end of a replacement that failed: the old route goes on, if this replacement is still the
-- current one.
unfoldable pub restore_current : Manager → ℕ → ℕ → ℕ → Text → Manager × Option (ℕ × Status)
unfolding restore_after_replacement
restore_current m p r sequence message =
    let i = m.heap p in
    let (i', retry) = restore_after_replacement i message in
    if (i.replacement_sequence == sequence) && is_ref i.pending_replacement r
    then (record m { heap = update m.heap p i' }, retry)
    else (m, none)
