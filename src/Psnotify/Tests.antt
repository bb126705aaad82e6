-- ===== src/Psnotify/Tests.antt =====
-- A few events of two processes, of which the parent ends first.
use runm.Base.{ℕ, ◌≡◌, ◌≢◌, refl, true, none, some, is_some, List, [], ◌∷◌, pos}
use runm.Base.Text.{codes}
use runm.Base.Go.{panic}
use runm.Psnotify.{
  Event, fork_event, exit_event, exec_event, PidInfo, Tree, Proc, resolve_pid_data, on_fork,
  on_exit, on_exec, handle_event, handle_events, new_tree, parent_chain, since_fork, first_cgroup,
  split, split_n, argv_of,
}
use runm.Psnotify.Chain.{logged_ends}

abbrev proc : Proc ℕ
proc = record {
  read_cgroup = λ p w. (some (codes "0::/box"), w);
  cmdline = λ p w. (some (codes "sh" ∷ []), w);
  readlink_exe = λ p w. (none, w);
  watch = λ p w. w;
  remove_watch = λ p w. w;
}

abbrev events : List Event
events = fork_event 1 40 5 ∷ fork_event 40 41 6 ∷ exec_event 41 7 ∷ exit_event 40 (pos 0) 0 8 ∷ []

abbrev tree : Tree
tree = (handle_events proc events (new_tree, 0)).0

-- The cgroup of a line in the form of the second hierarchy
cgroup_read : first_cgroup (split 10 (codes "0::/box")) ≡ codes "/box"
unfolding first_cgroup split split_n
cgroup_read = refl

known : tree.by_pid 41 ≡ some 1
unfolding handle_events handle_event on_fork on_exec on_exit resolve_pid_data first_cgroup split
    split_n argv_of
known = refl

logged_ends_example :
    (is_some (parent_chain tree.next tree.store (some 1)) ≡ true)
    × (i : PidInfo) × (tree.store 1 ≡ some i)
    × (since_fork i.exited i ≢ panic)
    × (since_fork i.execed i ≢ panic)
logged_ends_example = logged_ends proc events 0 41 1 known
