-- ===== src/SpecManager/Restart/Resumed.antt =====
-- What a restarted proxy goes on with.
use controllermesh.Prelude.{
  Option, none, some, true, false, ◌==◌, ◌≡◌, refl, arith, ap, sym, subst, ◌∙◌, if◌then◌else◌,
}
use controllermesh.Prelude.Texts.{concat_text}
use controllermesh.Proto.{ProxySpec}
use controllermesh.Route.{InternalSpec}
use controllermesh.Route.Convert.{convert_proto_spec_to_internal}
use controllermesh.RequestsStore.{ResourceRequest, RequestsPack, empty_pack, add}
use controllermesh.SpecManager.{
  Disk, Env, Io, SpecManager, Outcome, done, panicked, update_spec, release_spec,
}
use controllermesh.SpecManager.Loadable.{is_loadable, check_loadable-is_loadable}
use controllermesh.SpecManager.Restart.{load_data, new_spec_manager, start_loaded}

-- The manager has a spec and a pack.
abbrev pub GoesOnWith : Option InternalSpec → RequestsPack → Outcome SpecManager → Type 0
GoesOnWith spec pack panicked = ⊥
GoesOnWith spec pack (done sm) = (sm.current ≡ spec) × (sm.expected ≡ spec) × (sm.pack ≡ pack)

-- The manager expects one spec, may have another, and has a pack.
abbrev pub RestartsAs :
    Option InternalSpec → Option InternalSpec → RequestsPack → Outcome SpecManager → Type 0
RestartsAs expected current pack panicked = ⊥
RestartsAs expected current pack (done sm) =
    (sm.expected ≡ expected) × (sm.current ≡ current) × (sm.pack ≡ pack)

abbrev started_with : Disk → InternalSpec → RequestsPack → SpecManager
started_with disk current pack = record {
  disk = disk;
  expected = none;
  current = some current;
  unload_reason = "";
  pack = pack;
  leader_election_state = none;
  reports = 0;
}

module _ (env : Env) (io : Io) where
  load_data-all :
      (expected current : ProxySpec) (pack : RequestsPack) (disk : Disk)
      → (disk.expected_spec == "") ≡ false
      → (disk.current_spec == "") ≡ false
      → (disk.history_requests == "") ≡ false
      → env.unmarshal_spec disk.expected_spec ≡ some expected
      → env.unmarshal_spec disk.current_spec ≡ some current
      → env.unmarshal_pack disk.history_requests ≡ some pack
      → load_data env disk
        ≡ some (record { expected = some expected; current = some current; pack = pack })
  unfolding load_data
  load_data-all expected current pack disk e c h se sc sp = ground arith

  load_data-none :
      (disk : Disk)
      → (disk.history_requests == "") ≡ false
      → env.unmarshal_pack disk.history_requests ≡ none
      → load_data env disk ≡ none
  unfolding load_data
  load_data-none disk h p = ground arith

  update_spec-resumes :
      (spec : ProxySpec) (sm : SpecManager) (cur : InternalSpec)
      → sm.current ≡ some cur
      → io.expected_ok ≡ true
      → io.current_ok ≡ true
      → let new = convert_proto_spec_to_internal env.decode spec in
        RestartsAs
          (some new)
          (some (if is_loadable env cur new sm.pack then new else cur))
          sm.pack
          (update_spec env io spec sm)
  unfolding update_spec
  update_spec-resumes spec sm cur h e c =
      let new = convert_proto_spec_to_internal env.decode spec in
      ground (arith, check_loadable-is_loadable env cur new sm.pack)

  -- With files that the codecs read back as an expected spec, a current spec and a pack, and with
  -- writes that succeed, a restart succeeds with that pack and that expected spec; the proxy goes on
  -- with the expected spec if it is loadable after the current one, which includes that it decides
  -- the recorded requests as before, and otherwise with the current spec.
  pub new_spec_manager-resumes :
      (expected current : ProxySpec) (pack : RequestsPack) (disk : Disk)
      → io.expected_ok ≡ true
      → io.current_ok ≡ true
      → (disk.expected_spec == "") ≡ false
      → (disk.current_spec == "") ≡ false
      → (disk.history_requests == "") ≡ false
      → env.unmarshal_spec disk.expected_spec ≡ some expected
      → env.unmarshal_spec disk.current_spec ≡ some current
      → env.unmarshal_pack disk.history_requests ≡ some pack
      → let new = convert_proto_spec_to_internal env.decode expected in
        let cur = convert_proto_spec_to_internal env.decode current in
        RestartsAs
          (some new)
          (some (if is_loadable env cur new pack then new else cur))
          pack
          (new_spec_manager env io disk)
  unfolding new_spec_manager
  new_spec_manager-resumes expected current pack disk ie ic e c h se sc sp =
      let new = convert_proto_spec_to_internal env.decode expected in
      let cur = convert_proto_spec_to_internal env.decode current in
      let goes_on = some (if is_loadable env cur new pack then new else cur) in
      subst (λ o. RestartsAs (some new) goes_on pack (start_loaded env io disk o))
        (sym (load_data-all expected current pack disk e c h se sc sp))
        (update_spec-resumes expected (started_with disk cur pack) cur refl ie ic)

  -- With a history that does not parse a restart succeeds too, but the proxy goes on with no spec and
  -- with nothing recorded, whatever the other files hold.
  pub new_spec_manager-forgets :
      (disk : Disk)
      → (disk.history_requests == "") ≡ false
      → env.unmarshal_pack disk.history_requests ≡ none
      → GoesOnWith none empty_pack (new_spec_manager env io disk)
  unfolding new_spec_manager
  new_spec_manager-forgets disk h p =
      subst (λ o. GoesOnWith none empty_pack (start_loaded env io disk o))
        (sym (load_data-none disk h p)) (refl, refl, refl)

  written_twice :
      (req : Option ResourceRequest) (sm sm' : SpecManager)
      → release_spec env io req sm ≡ done sm'
      → (add env.gr_string env.deep_equal req sm.pack).1 ≡ true
      → sm'.disk.history_requests
        ≡ concat_text sm.disk.history_requests
            (env.marshal_pack (add env.gr_string env.deep_equal req sm.pack).0)
  unfolding release_spec
  written_twice req sm sm' e c = ground arith

  -- Where a pack is already in the history file and the text of two packs does not parse, a release
  -- that records something new leaves files with which a restart goes on with no spec and with
  -- nothing recorded.
  pub release_spec-forgotten :
      (old : RequestsPack) (req : Option ResourceRequest) (sm sm' : SpecManager)
      → ((p q : RequestsPack)
          → (concat_text (env.marshal_pack p) (env.marshal_pack q) == "") ≡ false)
      → ((p q : RequestsPack)
          → env.unmarshal_pack (concat_text (env.marshal_pack p) (env.marshal_pack q)) ≡ none)
      → sm.disk.history_requests ≡ env.marshal_pack old
      → release_spec env io req sm ≡ done sm'
      → (add env.gr_string env.deep_equal req sm.pack).1 ≡ true
      → GoesOnWith none empty_pack (new_spec_manager env io sm'.disk)
  release_spec-forgotten old req sm sm' filled twice h e c =
      let new = (add env.gr_string env.deep_equal req sm.pack).0 in
      let text : sm'.disk.history_requests
          ≡ concat_text (env.marshal_pack old) (env.marshal_pack new) =
        written_twice req sm sm' e c ∙ ap (λ t. concat_text t (env.marshal_pack new)) h in
      new_spec_manager-forgets sm'.disk (ap (λ t. t == "") text ∙ filled old new)
        (ap env.unmarshal_pack text ∙ twice old new)
