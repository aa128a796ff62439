-- ===== src/SpecManager/Restart.antt =====
-- newSpecManager and `loadData` of proto_storage.go: what a restarted proxy finds on its disk.
pub mod Resumed
use controllermesh.Prelude.{String, Option, none, some, ◌==◌, if◌then◌else◌}
use controllermesh.Proto.{ProxySpec}
use controllermesh.Route.Convert.{convert_proto_spec_to_internal}
use controllermesh.RequestsStore.{RequestsPack, empty_pack}
use controllermesh.SpecManager.{Disk, Env, Io, SpecManager, Outcome, done, update_spec}

-- What `loadData` finds. (The three reads of open files succeed.)
pub record Loaded : Type 0 where
  pub expected : Option ProxySpec
  pub current : Option ProxySpec
  pub pack : RequestsPack

module _ (env : Env) where
  abbrev with_pack : RequestsPack → String → Option RequestsPack
  with_pack pack bytes = if bytes == "" then some pack else env.unmarshal_pack bytes

  abbrev load_file : String → Option (Option ProxySpec)
  load_file bytes =
      if bytes == ""
      then some none
      else (elim (env.unmarshal_spec bytes) [ none ↦ none | some spec ↦ some (some spec) ])

  -- `none` is an error.
  unfoldable pub load_data : Disk → Option Loaded
  load_data disk = elim (load_file disk.expected_spec) [
    | none ↦ none
    | some expected ↦ (elim (load_file disk.current_spec) [
      | none ↦ none
      | some current ↦ (elim (with_pack empty_pack disk.history_requests) [
        | none ↦ none
        | some pack ↦ some (record { expected = expected; current = current; pack = pack })
      ])
    ])
  ]

  abbrev pub start_with : Io → Disk → Loaded → Outcome SpecManager
  start_with io disk loaded =
      let sm : SpecManager = record {
        disk = disk;
        expected = none;
        current = (elim loaded.current [
          | none ↦ none
          | some spec ↦ some (convert_proto_spec_to_internal env.decode spec)
        ]);
        unload_reason = "";
        pack = loaded.pack;
        leader_election_state = none;
        reports = 0;
      } in
      elim loaded.expected [ none ↦ done sm | some spec ↦ update_spec env io spec sm ]

  abbrev pub nothing_loaded : Loaded
  nothing_loaded = record { expected = none; current = none; pack = empty_pack }

  -- `newSpecManager` does not look at the error of `loadData`, which comes with no specs.
  abbrev pub start_loaded : Io → Disk → Option Loaded → Outcome SpecManager
  start_loaded io disk none = start_with io disk nothing_loaded
  start_loaded io disk (some loaded) = start_with io disk loaded

  unfoldable pub new_spec_manager : Io → Disk → Outcome SpecManager
  unfolding load_data update_spec
  new_spec_manager io disk = start_loaded io disk (load_data disk)
