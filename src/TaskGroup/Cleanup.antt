-- ===== src/TaskGroup/Cleanup.antt =====
-- Clean-up functions: RegisterCleanupWithName, RegisterCloserWithName, GetCleanupCount,
-- GetCleanupNames and the loop of executeCleanup.
use runm.Base.{
  ℕ, zero, suc, ◌+◌, ◌≡◌, refl, ap, sym, ◌∙◌, none, some, List, [], ◌∷◌, ◌++◌, map, length,
  get_elem?,
}
use mathlib.Core.List.{reverse, reverse-append}
use runm.Base.Text.{codes}
use runm.Base.Decimal.{decimal}
use runm.Base.Go.{Go, Done}
use runm.TaskGroup.Group.{Group, CleanupEntry}

-- The name, or one of the number of functions if it is empty
name_or : List ℕ → List ℕ → Group → List ℕ
name_or base [] g = base ++ decimal (length g.cleanup_funcs + 1)
name_or base (c ∷ s) g = c ∷ s

-- RegisterCleanupWithName
unfoldable pub register_cleanup : List ℕ → ℕ → Group → Group
unfolding name_or
register_cleanup name f g = record g {
  cleanup_funcs =
      g.cleanup_funcs ++ record { name = name_or (codes "cleanup-") name g; func = f } ∷ [];
}

-- RegisterCloserWithName, with a number for the function that closes
unfoldable pub register_closer : List ℕ → ℕ → Group → Group
unfolding name_or
register_closer name f g = register_cleanup (name_or (codes "closer-") name g) f g

-- GetCleanupCount, GetCleanupNames
abbrev pub cleanup_count : Group → ℕ
cleanup_count g = length g.cleanup_funcs

abbrev pub cleanup_names : Group → List (List ℕ)
cleanup_names g = map (λ e. e.name) g.cleanup_funcs

module _ {W : Type 0} (run : ℕ → Go W Done) where
  -- One clean-up function: its error is logged, and its panic is recovered and logged.
  abbrev pub run_entry : CleanupEntry → W → W
  run_entry e w = (run e.func w).1

  -- `for i := len(cleanupEntries) - 1; i >= 0; i--`, where `i + 1` rounds are left
  cleanup_rounds : List CleanupEntry → ℕ → W → W
  cleanup_rounds es zero w = w
  cleanup_rounds es (suc i) w =
      cleanup_rounds es i (elim (get_elem? es i) [ none ↦ w | some e ↦ run_entry e w ])

  -- The function that executeCleanup runs once
  unfoldable pub execute_cleanup : List CleanupEntry → W → W
  unfolding cleanup_rounds
  execute_cleanup es w = cleanup_rounds es (length es) w

  -- Each of a list of clean-up functions, in its order
  abbrev pub run_all : List CleanupEntry → W → W
  run_all [] w = w
  run_all (e ∷ es) w = run_all es (run_entry e w)

  rounds-cons :
      (e : CleanupEntry) (es : List CleanupEntry) (n : ℕ) (w : W)
      → cleanup_rounds (e ∷ es) (suc n) w ≡ run_entry e (cleanup_rounds es n w)
  unfolding cleanup_rounds
  rounds-cons e es zero w = refl
  rounds-cons e es (suc n) w =
      rounds-cons e es n (elim (get_elem? es n) [ none ↦ w | some e' ↦ run_entry e' w ])

  run_all-append :
      (es fs : List CleanupEntry) (w : W) → run_all (es ++ fs) w ≡ run_all fs (run_all es w)
  run_all-append [] fs w = refl
  run_all-append (e ∷ es) fs w = run_all-append es fs (run_entry e w)

  -- The clean-up runs every function that has been registered, once, the last one first, whether
  -- the functions return, fail or panic.
  pub execute_cleanup_lem :
      (es : List CleanupEntry) (w : W) → execute_cleanup es w ≡ run_all (reverse es) w
  unfolding execute_cleanup cleanup_rounds
  execute_cleanup_lem [] w = refl
  execute_cleanup_lem (e ∷ es) w =
      rounds-cons e es (length es) w
      ∙ (ap (run_entry e) (execute_cleanup_lem es w)
          ∙ (sym (run_all-append (reverse es) (e ∷ []) w)
              ∙ ap (λ l. run_all l w) (sym (reverse-append (e ∷ []) es))))
