-- ===== src/Procurement/Concurrency.antt =====
-- procurement/service.py: what the expected version and the key of a call do for concurrent and for
-- repeated calls.
use dc_inventory.Prelude.{ℕ, ◌≡◌, refl, sym, ap, ◌∙◌, ◌⊎◌, inl, inr, true, false, some, arith}
use dc_inventory.Prelude.Tests.{is_some}
use dc_inventory.Prelude.Lists.{find}
use dc_inventory.Prelude.Result.{ok}
use dc_inventory.Core.Idempotency.{Text}
use dc_inventory.Database.{Database}
use dc_inventory.Procurement.Tables.{
  ProcurementRequest, ProcurementEvent, ProcurementStatus, find_request,
}
use dc_inventory.Procurement.Payload.{Platform, Actor}
use dc_inventory.Procurement.Guards.{
  Validated, lock_and_validate_expected, normalize_client_request_id, require_actor_capabilities,
  same_call,
}
use dc_inventory.Procurement.Workflow.{Call}
use dc_inventory.Procurement.Progress.{Stamp, stamp_of, Worked, mutate_steps}
use dc_inventory.Procurement.Operation.{
  Operation, run, call_of, body_of, call_stamp, run-mutate, body_Worked,
}
use dc_inventory.Procurement.Rows.{find_request-put_request}
use dc_inventory.Procurement.Calls.{
  validated_steps, replayed_steps, known_call, mutate_replay, stamped_call, call_of_same,
}

module _ (x : Platform) where
  -- What a successful operation has done.
  pub run_steps :
      (actor : Actor) (o : Operation) (request_id : ℕ) (db : Database) {db' : Database}
      → run x actor o request_id db ≡ ok db'
      → (r : ProcurementRequest) × (find_request request_id db.requests ≡ some r)
        × (v : Validated) × (lock_and_validate_expected r
              (call_of x actor o).expected
              (x.payload_fingerprint (call_of x actor o).payload)
              actor.user_id
              (call_of x actor o).event_type
            ≡ ok v)
        × (require_actor_capabilities db.identity.users actor.user_id
              (call_of x actor o).capabilities
            ≡ ok tt)
        × ((is_some v.replay ≡ true) × (db' ≡ db)
            ⊎ (is_some v.replay ≡ false) × Worked (call_stamp x actor o v.key) r db db')
  run_steps actor o request_id db h =
      let (r, found, v, valid, allowed, how) =
        mutate_steps x actor (call_of x actor o) (body_of x actor o db) request_id db
          (sym (run-mutate x actor o request_id db) ∙ h) in
      (
        r,
        found,
        v,
        valid,
        allowed,
        elim how [ inl a ↦ inl a | inr (new, e) ↦ inr (new, body_Worked x actor o db r v.key e) ],
      )

  -- The row of the request after an operation that did its work.
  Worked-row :
      (s : Stamp) (request_id : ℕ) (db db' : Database) (r : ProcurementRequest)
      → find_request request_id db.requests ≡ some r
      → (w : Worked s r db db') → find_request request_id db'.requests ≡ some w.0
  Worked-row s request_id db db' r found (r', rows, advanced) =
      ap (find_request request_id) rows
      ∙ find_request-put_request request_id db.requests r r' found advanced.same.0

  -- A successful operation was let through by an approved user's capabilities, and it replayed an
  -- event of the same user, key, type and payload digest, and changed nothing; or it expected the
  -- version and the revision of the request, and changed its row alone: the version by one, with
  -- one event that carries the call, along a transition of the state machine if at all.
  pub run-outcome :
      (actor : Actor) (o : Operation) (request_id : ℕ) (db : Database) {db' : Database}
      → run x actor o request_id db ≡ ok db'
      → (require_actor_capabilities db.identity.users actor.user_id (call_of x actor o).capabilities
          ≡ ok tt)
        × (r : ProcurementRequest) × (find_request request_id db.requests ≡ some r)
        × ((db' ≡ db)
              × ((e : ProcurementEvent) × (stamp_of e ≡ call_stamp x actor o e.client_request_id)
                  × (normalize_client_request_id (call_of x actor o).expected.client_request_id
                      ≡ ok e.client_request_id)
                  × (find (same_call actor.user_id e.client_request_id) r.events ≡ some e))
            ⊎ (r.state_version ≡ (call_of x actor o).expected.expected_state_version)
              × (r.current_revision_id ≡ (call_of x actor o).expected.expected_revision_id)
              × (key : Text) × (normalize_client_request_id
                    (call_of x actor o).expected.client_request_id
                  ≡ ok key)
              × Worked (call_stamp x actor o key) r db db')
  run-outcome actor o request_id db h =
      let (r, found, v, valid, allowed, how) = run_steps actor o request_id db h in
      let (normal, _, state) = validated_steps r _ _ _ _ valid in
      (
        allowed,
        r,
        found,
        elim how [
          | inl (replayed, same) ↦
              let (e, t, n, k) = replayed_steps r _ _ _ _ valid replayed in inl (same, (e, t, n, k))
          | inr (new, worked) ↦ elim state [
            | inl replayed ↦ absurd (ground (arith, new, replayed))
            | inr (_, version, revision) ↦ inr (version, revision, v.key, normal, worked)
          ]
        ],
      )

  -- A completed request is left as it is: an operation on it that succeeds changes nothing.
  pub run-completed :
      (actor : Actor) (o : Operation) (request_id : ℕ) (db : Database) (r : ProcurementRequest)
      {db' : Database}
      → find_request request_id db.requests ≡ some r
      → r.status ≡ ProcurementStatus.completed
      → run x actor o request_id db ≡ ok db'
      → db' ≡ db
  run-completed actor o request_id db r found completed h =
      let (q, found', v, _, _, how) = run_steps actor o request_id db h in
      elim how [
        | inl (_, same) ↦ same
        | inr (_, worked) ↦
            absurd (ground (arith, found, found', completed, worked.2.not_completed))
      ]

  -- Of two calls that expect the same version of a request, whoever makes them, only one changes
  -- anything: if the first has changed the tables, then the second changes nothing, if it succeeds.
  pub run-stale :
      (actor actor' : Actor) (o o' : Operation) (request_id : ℕ) (db : Database)
      {db₁ db₂ : Database}
      → run x actor o request_id db ≡ ok db₁
      → ¬ (db₁ ≡ db)
      → run x actor' o' request_id db₁ ≡ ok db₂
      → (call_of x actor' o').expected.expected_state_version
        ≡ (call_of x actor o).expected.expected_state_version
      → db₂ ≡ db₁
  run-stale actor actor' o o' request_id db {db₁} h changed k same =
      let (r, found, v, valid, _, how) = run_steps actor o request_id db h in
      let (q, found', v', valid', _, how') = run_steps actor' o' request_id db₁ k in
      elim how' [
        | inl (_, e) ↦ e
        | inr (new', _) ↦ elim how [
          | inl (_, e) ↦ absurd (changed e)
          | inr (new, worked) ↦
              let row = Worked-row (call_stamp x actor o v.key) request_id db db₁ r found worked in
              let (_, _, first) = validated_steps r _ _ _ _ valid in
              let (_, _, second) = validated_steps q _ _ _ _ valid' in
              absurd (ground (arith, row, found', worked.2.version, first, second, new, new', same))
        ]
      ]

  -- The row of the request after a successful operation knows the call.
  known_after :
      (actor : Actor) (o : Operation) (request_id : ℕ) (db db' : Database)
      → run x actor o request_id db ≡ ok db'
      → (r : ProcurementRequest) × (find_request request_id db'.requests ≡ some r)
        × (v : Validated) × (lock_and_validate_expected r
              (call_of x actor o).expected
              (x.payload_fingerprint (call_of x actor o).payload)
              actor.user_id
              (call_of x actor o).event_type
            ≡ ok v)
        × (is_some v.replay ≡ true)
  known_after actor o request_id db db' h =
      let (r, found, v, valid, _, how) = run_steps actor o request_id db h in
      elim how [
        | inl (replayed, same) ↦ (
          r,
          ap (λ (d : Database). find_request request_id d.requests) same ∙ found,
          v,
          valid,
          replayed,
        )
        | inr (new, worked) ↦
            let s = call_stamp x actor o v.key in
            let a = worked.2 in
            let (normal, _, _) = validated_steps r _ _ _ _ valid in
            (
              worked.0,
              Worked-row s request_id db db' r found worked,
              record { key = v.key; replay = some a.event },
              known_call worked.0 (call_of x actor o).expected _ _ _ v.key a.event normal
                  (ap (find (same_call actor.user_id v.key)) a.events
                    ∙ stamped_call actor.user_id v.key a.event r.events
                        (ap (λ (t : Stamp). t.actor_user_id) a.stamped)
                        (ap (λ (t : Stamp). t.client_request_id) a.stamped))
                  (ap (λ (t : Stamp). t.event_type) a.stamped)
                  (ap (λ (t : Stamp). t.request_fingerprint) a.stamped),
              refl,
            )
      ]

  -- A call that has succeeded may be repeated: the same operation by the same user, with the same
  -- payload, succeeds again and changes nothing, as long as the user still may make it.
  pub run-retry :
      (actor actor' : Actor) (o : Operation) (request_id : ℕ) (db : Database) {db' : Database}
      → run x actor o request_id db ≡ ok db'
      → actor'.user_id ≡ actor.user_id
      → require_actor_capabilities db'.identity.users actor.user_id (call_of x actor o).capabilities
        ≡ ok tt
      → run x actor' o request_id db' ≡ ok db'
  run-retry actor actor' o request_id db {db'} h same allowed =
      let (r, found, v, valid, replayed) = known_after actor o request_id db db' h in
      let call = call_of_same x actor actor' o in
      run-mutate x actor' o request_id db'
      ∙ mutate_replay x actor' (call_of x actor' o) (body_of x actor' o db') request_id db' r v
          found
          (ap
              (λ (c : Call).
                lock_and_validate_expected r c.expected (x.payload_fingerprint c.payload)
                  actor'.user_id c.event_type)
              call
            ∙ ap
                (λ a.
                  lock_and_validate_expected r (call_of x actor o).expected
                    (x.payload_fingerprint (call_of x actor o).payload) a
                    (call_of x actor o).event_type)
                same
            ∙ valid)
          replayed
          (ap
              (λ (c : Call).
                require_actor_capabilities db'.identity.users actor'.user_id c.capabilities)
              call
            ∙ ap
                (λ a.
                  require_actor_capabilities db'.identity.users a (call_of x actor o).capabilities)
                same
            ∙ allowed)
