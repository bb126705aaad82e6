-- ===== src/Container/Tests.antt =====
-- A container with its init process 0, whose next process is 7.
use runm.Base.{set, ℕ, ◌≢◌, pos, arith, ◌≡◌, refl, false, none, some}
use runm.Base.Go.{ok}
use runm.Container.{
  Container, Calls, reserve, release, process_add, process_remove, find_process, container_delete,
  container_exec, reserve_and_exec,
}
use runm.Process.Exec.{Exec, exec_created, exec_running, start_exec}
use runm.Process.Tests.{host, fresh_init, fresh_exec}
use runm.Container.Race.{Race, reserves, Reach, here, next, exec_finds_free}

abbrev calls : Calls ℕ
calls = record {
  start = λ p t. (ok tt, t);
  delete = λ p t. (ok tt, t);
  kill = λ p n b t. (ok tt, t);
  close_io = λ p t. (ok tt, t);
  exec = λ i id t. (ok 7, t);
}

abbrev created : Container
created = record { process = some 0; processes = λ k. none; reserved = λ k. false }

abbrev added : Container
added = (reserve_and_exec calls "sh" (created, 0)).1.0

abbrev removed : Container
removed = process_remove "sh" added

exec_added : reserve_and_exec calls "sh" (created, 0) ≡ (ok 7, (added, 0))
unfolding reserve_and_exec reserve release process_add container_exec
exec_added = refl

delete_removed : container_delete calls "sh" (added, 0) ≡ (ok 7, (removed, 0))
unfolding reserve_and_exec reserve release process_add process_remove find_process container_exec
    container_delete
delete_removed = refl

abbrev start_of_race : Race
start_of_race = record { container = created; adding = λ k. 0 }

abbrev one_reserved : Race
one_reserved = record {
  container = (reserve "sh" created).1;
  adding = set "sh" 1 start_of_race.adding;
}

one_runs : Reach start_of_race one_reserved
unfolding reserve
one_runs = next here (reserves "sh" one_reserved.container refl refl)

exec_finds_free_example : one_reserved.container.processes "sh" ≡ none
exec_finds_free_example =
    (exec_finds_free start_of_race one_reserved "sh" 0 (λ k. refl) (λ k. refl) one_runs refl).1

-- A container whose exec process runs with the pid 42.
abbrev shell_runs : Container
shell_runs = record created { processes = set "sh" (some 7) (λ k. none) }

abbrev running_shell : Exec
running_shell = record fresh_exec { state = exec_running; pid = pos 42 }

abbrev shell_calls : Calls (Exec × ℕ)
shell_calls = record {
  start = λ p. start_exec host fresh_init;
  delete = λ p t. (ok tt, t);
  kill = λ p n b t. (ok tt, t);
  close_io = λ p t. (ok tt, t);
  exec = λ i id t. (ok 7, t);
}

running_differs : running_shell.state ≢ exec_created
running_differs = ground arith
