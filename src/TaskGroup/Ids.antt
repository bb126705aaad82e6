-- ===== src/TaskGroup/Ids.antt =====
-- The numbers of tasks.
use runm.Base.{suc, ◌≡◌, String, false, some, arith}
use runm.TaskGroup.Group.{Group, admit, give_back, start_group, pending_task}

-- A task is admitted while a second one is between its admission and the full semaphore: when the
-- first one, a TryGo, goes back, the next task gets the number of the second, and takes its place in
-- the registry.
admit-give_back :
    (a b c : String) (g : Group)
    → g.finished ≡ false
    → let (i, x) = admit a g in
      let (j, y) = admit b x in
      let (k, z) = admit c (give_back (suc g.task_counter) y) in
      (i ≡ some (suc g.task_counter))
      × (j ≡ some (suc (suc g.task_counter)))
      × (k ≡ j)
      × (y.tasks (suc (suc g.task_counter)) ≡ some (pending_task b))
      × (z.tasks (suc (suc g.task_counter)) ≡ some (pending_task c))
unfolding admit give_back start_group
admit-give_back a b c g h = ground arith
