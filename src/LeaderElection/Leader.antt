-- ===== src/LeaderElection/Leader.antt =====
-- What a proxy reports of the leader election of its controller, over a run of requests.
use controllermesh.Prelude.{
  ℕ, String, List, [], ◌∷◌, Option, none, some, Bool, true, false, ◌≡◌, arith,
}
use controllermesh.Proto.{LeaderElectionState}
use controllermesh.SpecManager.{SpecManager, Env, update_leader_election}
use controllermesh.LeaderElection.{
  LockRequest, HttpRequest, ElectionHandler, Handled, handled, handle, modify_response,
}

-- A request of the controller, with the status code of the response.
pub record Exchange : Type 0 where
  pub info : LockRequest
  pub request : HttpRequest
  pub status : ℕ

module _ (env : Env) (parse : String → Option String) (h : ElectionHandler) where
  abbrev pub respond : ℕ → Handled → SpecManager → SpecManager
  respond status (handled r holder) sm = modify_response env holder status sm
  respond status _ sm = sm

  abbrev pub run_exchanges : List Exchange → SpecManager → SpecManager
  run_exchanges [] sm = sm
  run_exchanges (x ∷ xs) sm =
      run_exchanges xs (respond x.status (handle parse h x.info x.request) sm)

  abbrev pub reports_leader : Option LeaderElectionState → Bool
  reports_leader none = false
  reports_leader (some le) = le.is_leader

  respond-leader :
      (status : ℕ) (x : Handled) (sm : SpecManager)
      → reports_leader sm.leader_election_state ≡ true
      → reports_leader (respond status x sm).leader_election_state ≡ true
  unfolding modify_response update_leader_election
  respond-leader status x sm l = ground arith

  -- A proxy that reports its controller to be the leader does so for ever, whatever requests for
  -- locks the controller makes and whatever their responses are.
  pub run_exchanges-leader :
      (xs : List Exchange) (sm : SpecManager)
      → reports_leader sm.leader_election_state ≡ true
      → reports_leader (run_exchanges xs sm).leader_election_state ≡ true
  run_exchanges-leader [] sm l = l
  run_exchanges-leader (x ∷ xs) sm l =
      run_exchanges-leader xs (respond x.status (handle parse h x.info x.request) sm)
        (respond-leader x.status (handle parse h x.info x.request) sm l)
