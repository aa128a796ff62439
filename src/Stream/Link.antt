-- ===== src/Stream/Link.antt =====
-- The two ends of a stream together. A proxy that is sent a spec comes to report its hash.
use controllermesh.Prelude.{
  String, List, [], ◌∷◌, ◌++◌, Option, none, some, Bool, true, false, ◌≡◌, refl, sym, ap, subst,
  ◌∙◌, ◌+◌, arith, Bool-cases, inl, inr,
}
use controllermesh.Proto.{ProxySpec, ProxyStatus}
use controllermesh.Kube.{Pod}
use controllermesh.SpecManager.{
  SpecManager, Env, Io, Outcome, done, panicked, update_spec, get_status,
}
use controllermesh.Reconciler.{Connection, Visit, connected, visit_connection, hash_reported}
use controllermesh.Stream.{
  Client, Message, valid_spec, map_outcome, sync_round, send, is_known, receive_status, recv,
  new_status, triggered,
}
use controllermesh.Stream.Reported.{reports_hash, reports_after, update_spec-reports}

-- The client and the `prevStatus` of its sending goroutine, what is on its way, in order, and the
-- manager's connection.
pub record Ends : Type 0 where
  pub client : Client
  pub prev_status : Option ProxyStatus
  pub upstream : List ProxyStatus
  pub connection : Connection

abbrev pub sent : Option ProxyStatus → Ends → Ends
sent none l = l
sent (some status) l = record l {
  prev_status = some status;
  upstream = l.upstream ++ (status ∷ []);
}

abbrev pub take_all :
    (ProxyStatus → ProxyStatus → Bool) → List ProxyStatus → Connection → Connection
take_all equal [] conn = conn
take_all equal (st ∷ sts) conn = take_all equal sts (receive_status equal st conn).0

abbrev pub last_of : ProxyStatus → List ProxyStatus → ProxyStatus
last_of st [] = st
last_of st (x ∷ xs) = last_of x xs

last_of-snoc : (st x : ProxyStatus) (xs : List ProxyStatus) → last_of st (xs ++ (x ∷ [])) ≡ x
last_of-snoc st x [] = refl
last_of-snoc st x (y ∷ ys) = last_of-snoc y x ys

abbrev is_connected : Visit → Bool
is_connected (connected sync) = true
is_connected _ = false

module _ (env : Env) (equal : ProxyStatus → ProxyStatus → Bool) where
  -- A round of the sending goroutine whose Send succeeds.
  abbrev pub report : Ends → Outcome Ends
  report l = map_outcome (λ st. sent st l) (send env equal l.prev_status l.client.spec_manager)

  -- The manager's goroutine takes all that is on its way.
  abbrev pub deliver : Ends → Ends
  deliver l = record l { upstream = []; connection = take_all equal l.upstream l.connection }

  pub data EndsStep : Ends → Ends → Type 0 where
    receive :
        {l l' : Ends} (io : Io) (received : Option (Option Message)) (c : Client)
        → sync_round env io received l.client ≡ done (some c)
        → l' ≡ record l { client = c }
        → EndsStep l l'
    reports : {l l' : Ends} → report l ≡ done l' → EndsStep l l'
    take :
        {l l' : Ends} (st : ProxyStatus) (sts : List ProxyStatus)
        → l.upstream ≡ st ∷ sts
        → l' ≡ record l { upstream = sts; connection = (receive_status equal st l.connection).0 }
        → EndsStep l l'
    -- whatever requests and the leader election do to the manager of specs
    work :
        {l l' : Ends} (sm : SpecManager)
        → l' ≡ record l { client = record l.client { spec_manager = sm } }
        → EndsStep l l'

  pub data EndsReached : Ends → Type 0 where
    opened : {l : Ends} → l.prev_status ≡ none → EndsReached l
    after : {l l' : Ends} → EndsReached l → EndsStep l l' → EndsReached l'

  -- What the goroutine sent last is what the manager will have last.
  abbrev InStep : Ends → Type 0
  InStep l = (p : ProxyStatus) → l.prev_status ≡ some p → last_of l.connection.status l.upstream ≡ p

  take_all-status :
      (sts : List ProxyStatus) (conn : Connection)
      → take_all equal sts conn ≡ record conn { status = last_of conn.status sts }
  unfolding receive_status
  take_all-status [] conn = refl
  take_all-status (st ∷ sts) conn = take_all-status sts (record conn { status = st })

  sent-InStep : (o : Option ProxyStatus) (l : Ends) → InStep l → InStep (sent o l)
  sent-InStep none l i = i
  sent-InStep (some st) l i =
      λ p e. ground (arith, last_of-snoc l.connection.status st l.upstream, e)

  done-injective : {A : Type 0} {a b : A} → done a ≡ done b → a ≡ b
  done-injective e = cc

  report-InStep :
      (o : Outcome (Option ProxyStatus)) (l l' : Ends)
      → map_outcome (λ st. sent st l) o ≡ done l'
      → InStep l
      → InStep l'
  report-InStep (done o) l l' e i = subst InStep (done-injective e) (sent-InStep o l i)
  report-InStep panicked l l' e i = λ p q. cc

  taken-InStep :
      (l : Ends) (st : ProxyStatus) (sts : List ProxyStatus)
      → l.upstream ≡ st ∷ sts
      → InStep l
      → InStep (record l { upstream = sts; connection = (receive_status equal st l.connection).0 })
  unfolding receive_status
  taken-InStep l st sts e i = λ p q. sym (ap (last_of l.connection.status) e) ∙ i p q

  EndsStep-InStep : {l l' : Ends} → EndsStep l l' → InStep l → InStep l'
  EndsStep-InStep (receive io received c e e') i = subst InStep (sym e') i
  EndsStep-InStep {l} {l'} (reports e) i =
      report-InStep (send env equal l.prev_status l.client.spec_manager) l l' e i
  EndsStep-InStep {l} (take st sts e e') i = subst InStep (sym e') (taken-InStep l st sts e i)
  EndsStep-InStep (work sm e) i = subst InStep (sym e) i

  EndsReached-InStep : {l : Ends} → EndsReached l → InStep l
  EndsReached-InStep (opened e) = λ p q. ground (arith, e, q)
  EndsReached-InStep (after r step) = EndsStep-InStep step (EndsReached-InStep r)

  abbrev exchange_from : Ends → Outcome (Option Client) → Outcome Ends
  exchange_from l (done (some c)) = map_outcome deliver (report (record l { client = c }))
  exchange_from l _ = panicked

  -- What the exchange that a message begins comes to: the proxy takes it in, its goroutine reports,
  -- and the manager takes all reports.
  abbrev pub exchange : Io → Option Message → Ends → Outcome Ends
  exchange io m l = exchange_from l (sync_round env io (some m) l.client)

  -- The run of `Reconcile` that waits for a hash of the pod goes on behind it.
  abbrev pub goes_on : Pod → String → Outcome Ends → Bool
  goes_on pod hash (done l) = is_connected (visit_connection pod (some hash) l.connection)
  goes_on pod hash panicked = false

  -- Under a proto.Equal that holds of equal statuses only.
  module _ (sound : (a b : ProxyStatus) → equal a b ≡ true → a ≡ b) where
    known-status :
        (st : ProxyStatus) (prev : Option ProxyStatus)
        → is_known equal st prev ≡ true
        → (p : ProxyStatus) × (prev ≡ some p) × (st ≡ p)
    known-status st none k = cc
    known-status st (some p) k = (p, refl, sound st p k)

    delivered-goes_on :
        (pod : Pod) (hash : String) (l : Ends)
        → hash_reported hash (last_of l.connection.status l.upstream) ≡ true
        → l.connection.disconnected ≡ false
        → goes_on pod hash (done (deliver l)) ≡ true
    delivered-goes_on pod hash l h d = rw (take_all-status l.upstream l.connection) (ground arith)

    report-goes_on :
        (pod : Pod) (hash : String) (l : Ends) (o : Outcome (Option ProxyStatus))
        → InStep l
        → reports_hash hash o ≡ true
        → l.connection.disconnected ≡ false
        → goes_on pod hash (
            map_outcome deliver
              (map_outcome (λ st. sent st l) (map_outcome (new_status equal l.prev_status) o)))
          ≡ true
    report-goes_on pod hash l (done (some st)) i h d =
        elim (Bool-cases (is_known equal st l.prev_status)) [
          | inl k ↦
              let p = known-status st l.prev_status k in
              rw k (delivered-goes_on pod hash l (rw (i p.0 p.1 ∙ sym p.2) h) d)
          | inr k ↦ rw k (
              delivered-goes_on pod hash (sent (some st) l)
                (rw (last_of-snoc l.connection.status st l.upstream) h) d)
        ]
    report-goes_on pod hash l (done none) i h d = cc
    report-goes_on pod hash l panicked i h d = cc

    recv-goes_on :
        (pod : Pod) (l : Ends) (spec : ProxySpec) (o : Outcome SpecManager)
        → InStep l
        → reports_after env spec.meta.hash o ≡ true
        → l.connection.disconnected ≡ false
        → goes_on pod spec.meta.hash (
            exchange_from l (
              map_outcome triggered (
                map_outcome some
                  (map_outcome (λ sm. record { spec_manager = sm; prev_spec = some spec }) o))))
          ≡ true
    unfolding send
    recv-goes_on pod l spec (done sm) i h d =
        let c : Client = record {
          spec_manager = record sm { reports = sm.reports + 1 };
          prev_spec = some spec;
        } in
        report-goes_on pod spec.meta.hash (record l { client = c }) (get_status env c.spec_manager)
          i h d
    recv-goes_on pod l spec panicked i h d = cc

    -- At each point of the life of a stream that the manager has not closed, with a proto.Equal that
    -- holds of equal statuses only: a spec with its meta and route that arrives, whose two writes
    -- succeed and whose report is sent, ends the wait of the manager's `Reconcile` for its hash.
    pub exchange-goes_on :
        (l : Ends) (io : Io) (m : Option Message) (spec : ProxySpec) (pod : Pod)
        → EndsReached l
        → valid_spec m ≡ some spec
        → io.expected_ok ≡ true
        → io.current_ok ≡ true
        → l.connection.disconnected ≡ false
        → goes_on pod spec.meta.hash (exchange io m l) ≡ true
    unfolding recv
    exchange-goes_on l io m spec pod r v e e' d = rw v (
        recv-goes_on pod l spec (update_spec env io spec l.client.spec_manager)
          (EndsReached-InStep r) (update_spec-reports env io spec l.client.spec_manager e e') d)
