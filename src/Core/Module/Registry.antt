-- ===== src/Core/Module/Registry.antt =====
-- The registry of crates/rb-core/src/module.rs: what its operations make of a row of registrations.
use text.Mathlib.Text.{◌==◌ as str_eq}
use text.Mathlib.TextEquality.{eq_iff}
use rust_backup.Prelude.{
  ◌≡◌, refl, ap, sym, ◌∙◌, String, Bool, true, false, ◌||◌, Option, none, some, List, [], ◌∷◌,
  arith, if◌then◌else◌,
}
use rust_backup.Core.Module.{
  BackupModule, ModuleRegistry, insert, register, get, keys, names, sort_unstable, sort_unstable,
}
use rust_backup.Core.Module.Names.{
  contains, Distinct, Ascending, sort_unstable-contains, sort_unstable-Ascending, Ascending-unique,
}

module _ {V : Type 0} where
  -- The modules of a list, registered from the first to the last.
  unfoldable pub registered_on : ModuleRegistry V → List (BackupModule V) → ModuleRegistry V
  registered_on reg [] = reg
  registered_on reg (m ∷ ms) = registered_on (register m reg) ms

  -- The last module of a list that has a name, or else what stands before the list.
  abbrev pub last_named :
      Option (BackupModule V) → String → List (BackupModule V) → Option (BackupModule V)
  last_named before name [] = before
  last_named before name (m ∷ ms) =
      last_named (if str_eq m.name name then some m else before) name ms

  abbrev pub is_some : Option (BackupModule V) → Bool
  is_some none = false
  is_some (some m) = true

  get-insert :
      (k n : String) (m : BackupModule V) (reg : ModuleRegistry V)
      → get (insert k m reg) n ≡ (if str_eq k n then some m else get reg n)
  get-insert k n m [] = refl
  get-insert k n m ((k', m') ∷ reg) =
      ground (arith, get-insert k n m reg, eq_iff k' k, eq_iff k' n, eq_iff k n)

  contains-insert :
      (k n : String) (m : BackupModule V) (reg : ModuleRegistry V)
      → contains n (keys (insert k m reg)) ≡ (str_eq k n || contains n (keys reg))
  contains-insert k n m [] = refl
  contains-insert k n m ((k', m') ∷ reg) = ground (arith, contains-insert k n m reg, eq_iff k' k)

  insert-Distinct :
      (k : String) (m : BackupModule V) (reg : ModuleRegistry V)
      → Distinct (keys reg)
      → Distinct (keys (insert k m reg))
  insert-Distinct k m [] d = (refl, tt)
  insert-Distinct k m ((k', m') ∷ reg) (new, d) =
      ground
        (arith, insert-Distinct k m reg d, contains-insert k k' m reg, eq_iff k' k, eq_iff k k')

  contains-get : (n : String) (reg : ModuleRegistry V) → contains n (keys reg) ≡ is_some (get reg n)
  contains-get n [] = refl
  contains-get n ((k, m) ∷ reg) = ground (arith, contains-get n reg)

  register-on :
      (n : String) (reg : ModuleRegistry V) (ms : List (BackupModule V))
      → get (registered_on reg ms) n ≡ last_named (get reg n) n ms
  unfolding registered_on
  register-on n reg [] = refl
  register-on n reg (m ∷ ms) =
      register-on n (register m reg) ms ∙ ap (λ o. last_named o n ms) (get-insert m.name n m reg)

  registered_on-Distinct :
      (reg : ModuleRegistry V) (ms : List (BackupModule V))
      → Distinct (keys reg)
      → Distinct (keys (registered_on reg ms))
  unfolding registered_on
  registered_on-Distinct reg [] d = d
  registered_on-Distinct reg (m ∷ ms) d =
      registered_on-Distinct (register m reg) ms (insert-Distinct m.name m reg d)

  -- The registry into which a row of modules went: a name gives the last module of that name, the
  -- listing has exactly the names that give one, each once and in ascending order, and it does not
  -- depend on the order in which the map hands out its keys: any list of them without repetitions
  -- sorts to it.
  pub registered-lists :
      (ms : List (BackupModule V)) (handed_out : List String)
      → Distinct handed_out
      → ((n : String) → contains n handed_out ≡ is_some (last_named none n ms))
      → ((n : String) → get (registered_on [] ms) n ≡ last_named none n ms)
        × Ascending (names (registered_on [] ms))
        × ((n : String) → contains n (names (registered_on [] ms)) ≡ is_some (last_named none n ms))
        × (sort_unstable handed_out ≡ names (registered_on [] ms))
  unfolding names
  registered-lists ms handed_out once all =
      let reg = registered_on [] ms in
      let gets : (n : String) → get (registered_on [] ms) n ≡ last_named none n ms =
        λ n. register-on n [] ms in
      let sorted = sort_unstable-Ascending (keys reg) (registered_on-Distinct [] ms tt) in
      let listed : (n : String) → contains n (names reg) ≡ is_some (last_named none n ms) =
        λ n. sort_unstable-contains n (keys reg) ∙ contains-get n reg ∙ ap is_some (gets n) in
      (
        gets,
        sorted,
        listed,
        Ascending-unique (sort_unstable handed_out) (names reg)
            (sort_unstable-Ascending handed_out once) sorted
            λ n. sort_unstable-contains n handed_out ∙ all n ∙ sym (listed n),
      )
