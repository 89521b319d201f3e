-- ===== src/Modules/Registry.antt =====
-- util/moduleloader.py: `ModuleRegistry`. `P` is the type of imported modules; the import system is
-- an argument, and so is the test that a name is an identifier.
pub mod Unloading
use py_burly_bot.Common.{
  ℕ, Bool, true, false, List, [], ◌∷◌, ◌++◌, Option, none, some, Text, text_eq, ◌==◌, Dict, lookup,
  insert, erase, has_key, contains, add, discard, if◌then◌else◌, ◌||◌, ◌&&◌, not,
}

-- Why a module is not there.
pub data Reason : Type 0 where
  invalid_name not_found import_failed not_allowed circular : Reason
  requirements : List Text → List Text → Reason
  stage_refused stage_failed : ℕ → Reason

pub record Registry (P : Type 0) : Type 0 where
  pub imported : Dict Text P
  pub import_errors : Dict Text Reason
  pub active : Dict Text (Dict Text P)
  pub activation_errors : Dict Text (Dict Text Reason)
  pub activated : List Text
  pub unloaded : List Text

-- What `import_module` does with a name.
pub data Import (P : Type 0) : Type 0 where
  found : P → Import P
  missing : Import P
  broken : Import P

abbrev pub dict_or_empty {ℓ} : {V : Type ℓ} → Option (Dict Text V) → Dict Text V
dict_or_empty none = []
dict_or_empty (some d) = d

abbrev pub set_default : Text → Reason → Dict Text Reason → Dict Text Reason
set_default name reason d = if has_key name d then d else insert name reason d

module _ {P : Type 0} where
  -- `ModuleRegistry()`
  abbrev pub new_registry : Registry P
  new_registry = record {
    imported = [];
    import_errors = [];
    active = [];
    activation_errors = [];
    activated = [];
    unloaded = [];
  }

  abbrev pub note_import_error : Text → Reason → Registry P → Option P × Registry P
  note_import_error name reason r =
      (none, record r { import_errors = insert name reason r.import_errors })

  -- `ModuleRegistry.import_plugin`
  unfoldable pub import_plugin :
      (Text → Bool) → (Text → Import P) → Text → Registry P → Option P × Registry P
  import_plugin is_identifier import_module name r = elim (lookup name r.imported) [
    | some p ↦ (some p, r)
    | none ↦
        if has_key name r.import_errors
        then (none, r)
        else if not (is_identifier name)
        then note_import_error name invalid_name r
        else elim (import_module name) [
          | found p ↦ (
            some p,
            record r { imported = insert name p r.imported; unloaded = discard name r.unloaded },
          )
          | missing ↦ note_import_error name not_found r
          | broken ↦ note_import_error name import_failed r
        ]
  ]

  -- `ModuleRegistry.active_modules`, as a value
  abbrev pub active_modules : Text → Registry P → Dict Text P
  active_modules server r = dict_or_empty (lookup server r.active)

  -- `ModuleRegistry.clear_server`
  unfoldable pub clear_server : Text → Registry P → Registry P
  clear_server server r = record r {
    active = insert server [] r.active;
    activation_errors = insert server [] r.activation_errors;
  }

  -- `ModuleRegistry.activate`
  unfoldable pub activate : Text → Text → P → Registry P → Registry P
  activate server name p r = record r {
    active = insert server (insert name p (active_modules server r)) r.active;
    activated = add name r.activated;
  }

  -- `ModuleRegistry.record_activation_error`: the first reason stays
  unfoldable pub record_activation_error : Text → Text → Reason → Registry P → Registry P
  record_activation_error server name reason r = record r {
    activation_errors =
        insert server (set_default name reason (dict_or_empty (lookup server r.activation_errors)))
          r.activation_errors;
  }

  -- `ModuleRegistry.unload`: the `unload()` calls that it makes, in order, and the registry
  unfoldable pub unload_each : (P → Bool) → Dict Text P → Registry P → List Text × Registry P
  unload_each has_unload [] r = ([], r)
  unload_each has_unload ((name, p) ∷ d) r =
      if not (contains name r.activated) || contains name r.unloaded
      then unload_each has_unload d r
      else (let rest = unload_each has_unload d (record r { unloaded = add name r.unloaded }) in
          (if has_unload p then name ∷ rest.0 else rest.0, rest.1))

  unfoldable pub unload : (P → Bool) → Registry P → List Text × Registry P
  unfolding unload_each
  unload has_unload r = unload_each has_unload r.imported r

  -- `ModuleRegistry.reset`, in the registry itself
  unfoldable pub reset : (P → Bool) → Registry P → List Text × Registry P
  unfolding unload
  reset has_unload r = let (calls, _) = unload has_unload r in (calls, new_registry)
