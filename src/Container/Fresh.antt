-- ===== src/Container/Fresh.antt =====
-- What a container that NewContainer returns is like.
use runm.Base.{
  ℕ, ◌≡◌, ◌≢◌, refl, sym, subst, Bool, false, ◌||◌, String, Option, some, is_some, List, arith,
}
use runm.Base.Errors.{wrap}
use runm.Base.Go.{Go, ok, panic, map_err, ◌>>=◌, ◌>>◌}
use runm.Base.After.{After, After-any, After-ok, After-bind}
use runm.Process.Init.States.{Call}
use runm.Process.Init.Frame.{Same, open_stdin_if-Same, copy_io-Same}
use runm.Process.Host.{Host, Handle, Stdio}
use runm.Process.Init.{Init, created}
use runm.Process.Init.Create.{CreateConfig, create, prepare_io, launch}
use runm.Shim.Files.{Files, Json}
use runm.Container.Create.{
  Options, Maker, Made, CreateTaskRequest, config_of, init_of, create_on, options_of, rootfs_of,
  make_rootfs, write_bundle, make_runtime, finish_container, new_container,
}
use runm.Process.Init.Exit.{IsConsistent, run, run-IsConsistent}

-- A new container has its init process only, with no id reserved.
pub record IsFresh (at : ℕ) (r : CreateTaskRequest) (m : Made) : Type 0 where
  pub consistent : IsConsistent m.init
  pub holds : m.container.process ≡ some at
  pub alone :
      (id : String) → (is_some (m.container.processes id) || m.container.reserved id) ≡ false
  pub named : (m.id ≡ r.id) × (m.bundle ≡ r.bundle)

module _ {W : Type 0} (h : Host W) where
  prepare_io-Same : (t : Stdio) (s : Init × W) → Same s.0 (prepare_io h t s).1.0
  unfolding prepare_io
  prepare_io-Same t s = ground arith

  launch-Same :
      (r : CreateConfig) (c : Option Handle) (s : Init × W) → Same s.0 (launch h r c s).1.0
  unfolding launch
  launch-Same r c s = grind (arith, open_stdin_if-Same h, copy_io-Same h)

  -- Create of a process leaves its waiters, its exit and its pausing alone.
  create-IsConsistent :
      (r : CreateConfig) (s : Init × W)
      → s.0.state ≡ created
      → IsConsistent s.0
      → IsConsistent (create h r s).1.0
  unfolding create
  create-IsConsistent r s c i = grind (arith, prepare_io-Same, launch-Same)

  module _ (f : Files W) (j : Json Options) (k : Maker W) where
    finish_container-IsFresh :
        (at : ℕ) (r : CreateTaskRequest) (opts : Options) (a : Bool) (w v : W) (m : Made)
        → finish_container h f j k at r opts a w ≡ (ok m, v)
        → IsFresh at r m
    unfolding finish_container create_on
    finish_container-IsFresh at r opts a w v m e =
        let p : Init = init_of (k.join r.bundle "work") r opts in
        let made : m.init ≡ (create h (config_of r) (p, w)).1.0 = ground (arith, e) in
        record {
          consistent = subst IsConsistent (sym made) (
              create-IsConsistent (config_of r) (p, w) refl
                (record {
                  waiting = λ l. refl;
                  released = λ l. ground (arith, l);
                  recorded = refl;
                  settled = refl;
                }));
          holds = ground (arith, e);
          alone = λ id. ground (arith, e);
          named = (ground (arith, e), ground (arith, e));
        }

    new_container-After :
        (at : ℕ) (r : CreateTaskRequest) (w : W)
        → After (λ m v. IsFresh at r m) (λ v. Unit {0}) (new_container h f j k at r w)
    unfolding new_container
    new_container-After at r w =
        let finish : Options → Bool → Go W Made = finish_container h f j k at r in
        let with_files : String → Options → Go W Made =
          λ ns opts. make_runtime h f j k r ns opts >>= finish opts in
        let with_rootfs : String → Options → Go W Made =
          λ ns opts. write_bundle h f j k r.bundle opts >> with_files ns opts in
        let with_options : String → Options → Go W Made =
          λ ns opts. make_rootfs h f j k (rootfs_of r) >> with_rootfs ns opts in
        let name : Go W String = map_err (wrap "create namespace") k.namespace_required in
        After-bind name (λ ns. options_of h f j k r.options >>= with_options ns) w
          (After-any name w)
          (λ ns w1 p1.
            After-bind (options_of h f j k r.options) (with_options ns) w1
              (After-any (options_of h f j k r.options) w1)
              (λ opts w2 p2.
                After-bind (make_rootfs h f j k (rootfs_of r)) (λ d. with_rootfs ns opts) w2
                  (After-any (make_rootfs h f j k (rootfs_of r)) w2)
                  (λ d w3 p3.
                    After-bind (write_bundle h f j k r.bundle opts) (λ d. with_files ns opts) w3
                      (After-any (write_bundle h f j k r.bundle opts) w3)
                      (λ d w4 p4.
                        After-bind (make_runtime h f j k r ns opts) (finish opts) w4
                          (After-any (make_runtime h f j k r ns opts) w4)
                          (λ a w5 p5.
                            After-ok (finish opts a) w5
                              (λ v m e. finish_container-IsFresh at r opts a w5 v m e)
                              (λ v. tt))))))

    -- A container that NewContainer returns has the id and the bundle of the request, its init
    -- process and no other, and no id reserved; and the init process is in order: waiters are held,
    -- no exit is recorded, and no pause is in progress.
    pub new_container-IsFresh :
        (at : ℕ) (r : CreateTaskRequest) (w v : W) (m : Made)
        → new_container h f j k at r w ≡ (ok m, v)
        → IsFresh at r m
    new_container-IsFresh at r w v m e =
        (subst (After (λ m v. IsFresh at r m) (λ v. Unit {0})) e (new_container-After at r w)).holds

    -- After any run of calls on the init process of a container that NewContainer has returned, and
    -- that did not panic, waiters are held while it lives, are released when it is stopped, exactly
    -- when its exit is recorded, and no pause is in progress.
    pub new_container-run :
        (at : ℕ) (r : CreateTaskRequest) (w v : W) (m : Made) (cs : List Call)
        → new_container h f j k at r w ≡ (ok m, v)
        → (run h cs (m.init, v)).0 ≢ panic
        → IsConsistent (run h cs (m.init, v)).1.0
    new_container-run at r w v m cs e q =
        run-IsConsistent h cs (m.init, v) q (new_container-IsFresh at r w v m e).consistent
