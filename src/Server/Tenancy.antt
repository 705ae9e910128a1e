-- ===== src/Server/Tenancy.antt =====
-- agent_room/server/tenancy.py: the checkpointer of each tenant. What `open_checkpointer` gives is
-- of a type that is a parameter; a bindings factory is a part of how it is opened. The lock and the
-- closing of what is open are left out.
pub mod Pooling
use goal_driven_agent_room.Base.{
  Bool, String, Option, none, some, List, [], ◌∷◌, ◌++◌, get, str_eq, if◌then◌else◌,
}
use goal_driven_agent_room.Errors.{Result, ok, err, ◌>>=◌}
use goal_driven_agent_room.Tools.Safety.{Paths}

abbrev pub default_tenant_id : String
default_tenant_id = "default"

-- `Path.parent` and `str` of a path.
pub record PathText (paths : Paths) : Type 0 where
  pub parent : paths.FilePath → paths.FilePath
  pub to_text : paths.FilePath → String

module _ (paths : Paths) (texts : PathText paths) where
  open paths use {FilePath, of_text, resolve, child}
  open texts use {parent, to_text}

  -- `tenant_dir` of `db_path_for`
  unfoldable pub tenant_dir : String → String → FilePath
  tenant_dir base_db_path tenant_id =
      child (child (parent (resolve (of_text base_db_path))) (of_text "tenants"))
        (of_text tenant_id)

  -- `db_path_for`; that the directory is made is left out.
  unfoldable pub db_path_for : String → String → String
  unfolding tenant_dir
  db_path_for base_db_path tenant_id =
      if str_eq tenant_id default_tenant_id
      then base_db_path
      else to_text (child (tenant_dir base_db_path tenant_id) (of_text "agent_room.db"))

  -- The directory that the factory of the bindings is given.
  unfoldable pub directory_of : String → String → Option FilePath
  unfolding db_path_for
  directory_of base_db_path tenant_id =
      if str_eq tenant_id default_tenant_id
      then none
      else some (parent (resolve (of_text (db_path_for base_db_path tenant_id))))

  module _ {Bindings : Type 0} where
    -- `clone_bindings_for_tenant`; `with_memory` replaces the memory of the bindings.
    unfoldable pub clone_bindings_for_tenant :
        Bindings → (Option FilePath → Bindings) → String → Option FilePath → Bindings
    clone_bindings_for_tenant base with_memory tenant_id dir =
        if str_eq tenant_id default_tenant_id then base else with_memory dir

    -- What a tenant's entry is opened with.
    unfoldable pub open_tenant :
        {Entry : Type 0}
        → (String → Option FilePath → Bindings)
        → (Bindings → String → Result Entry)
        → String
        → String
        → Result Entry
    unfolding db_path_for directory_of
    open_tenant factory open_checkpointer base_db_path tenant_id =
        open_checkpointer (factory tenant_id (directory_of base_db_path tenant_id))
          (db_path_for base_db_path tenant_id)

-- `TenantCheckpointerPool.get`, with the entries after it.
pooled :
    {Entry : Type 0}
    → (String → Result Entry)
    → String
    → List (String × Entry)
    → Option Entry
    → Result (Entry × List (String × Entry))
pooled open_entry tenant_id entries (some entry) = ok (entry, entries)
pooled open_entry tenant_id entries none = do
  entry ← open_entry tenant_id
  ok (entry, entries ++ ((tenant_id, entry) ∷ []))

unfoldable pub pool_get :
    {Entry : Type 0}
    → (String → Result Entry)
    → String
    → List (String × Entry)
    → Result (Entry × List (String × Entry))
unfolding pooled
pool_get open_entry tenant_id entries = pooled open_entry tenant_id entries (get tenant_id entries)
