-- ===== src/Tps/Stale.antt =====
-- A status file that tps/src/main.c reads nothing from.
use kernel_modules.Common.{
  ◌∙◌, ℕ, ◌+◌, ◌≡◌, refl, true, false, ltb, List, [], ◌∷◌, ◌++◌, length, some, codes, sym,
  append-nil, arith,
}
use kernel_modules.Tps.{Files, State, get_first_line, string_at, show_entry, show_entries}
use kernel_modules.Tps.Status.{starts_spaceless}
use kernel_modules.Tps.Listing.{
  IsSteady, HasStatus, IsProcess, Prints, PrintsIdle, row, print_process, loaded, loaded-Idle,
  entry_runs, show_process, then-Prints,
}

module _ {W : Type 0} (files : Files W) (Idle : W → Type 0) where
  -- The row of a process whose status file is empty, after an array that names `old`.
  stale_row :
      (pid old : List ℕ) (s : State W)
      → IsSteady files Idle
      → Idle s.world
      → HasStatus files Idle pid []
      → ltb 5 (length pid) ≡ false
      → starts_spaceless old ≡ true
      → string_at s.file ≡ some (codes "Name:\t" ++ old)
      → PrintsIdle files Idle (show_entry files pid) s (row pid old ∷ []) 1
  unfolding loaded get_first_line
  stale_row pid old s steady idle v short spaceless left =
      let seen = loaded files Idle pid [] s steady idle v in
      (
        record {
          after = record seen {
            overruns = s.overruns + 1;
            output = s.output ++ (row pid old ∷ []);
          };
          runs =
              entry_runs files Idle pid [] s steady idle v
              ∙ print_process files Idle pid old [] seen short spaceless left;
          prints = refl;
          overrun = refl;
        },
        loaded-Idle files Idle pid [] s steady idle v,
      )

  -- If the entry of a process whose status file opens, reads and closes and starts with its name is
  -- followed by one whose status file opens and closes and of which the read gives no byte, both
  -- pids having at most five digits, the row of the second has the name of the first, which the
  -- array has kept.
  pub stale_name :
      (pid gone old : List ℕ) (s : State W)
      → IsSteady files Idle
      → Idle s.world
      → IsProcess files Idle pid old
      → HasStatus files Idle gone []
      → ltb 5 (length pid) ≡ false
      → ltb 5 (length gone) ≡ false
      → Prints (show_entries files (pid ∷ gone ∷ [])) tt s (row pid old ∷ row gone old ∷ []) 2
  unfolding show_entries
  stale_name pid gone old s steady idle v w short short_gone =
      let (now, still, text) = show_process files Idle pid old s steady idle v short in
      let (later, last) = stale_row gone old now.after steady still w short_gone v.spaceless text in
      let end : Prints (show_entries files []) tt later.after [] 0 = record {
        after = later.after;
        runs = refl;
        prints = sym (append-nil later.after.output);
        overrun = omega arith;
      } in
      let second =
        then-Prints files Idle gone [] now.after (row gone old ∷ []) [] 1 0 later (end, last) in
      let (both, still_idle) =
        then-Prints files Idle pid (gone ∷ []) s (row pid old ∷ []) (row gone old ∷ []) 1 1 now
          second in
      both
