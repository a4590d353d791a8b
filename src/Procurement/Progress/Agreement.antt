-- ===== src/Procurement/Progress/Agreement.antt =====
-- procurement/service.py: what the operations up to the delivery do to a request.
use dc_inventory.Prelude.{
  ℕ, suc, ◌≡◌, refl, ap, inl, true, false, Option, none, some, List, ◌∷◌, arith,
}
use dc_inventory.Prelude.Result.{ok}
use dc_inventory.Core.Idempotency.{Text}
use dc_inventory.Database.{Database}
use dc_inventory.Procurement.Tables.{
  ProcurementRequest, ProcurementStatus, ProcurementEventType, ProcurementRevisionLine,
}
use dc_inventory.Procurement.StateMachine.{transition_allowed, is_active}
use dc_inventory.Procurement.Payload.{Platform, Actor, ExpectedStateMutation, LineCreate, Payload}
use dc_inventory.Procurement.Guards.{normalize_comment, set_status, put_request, bump}
use dc_inventory.Procurement.Lines.{prepare_lines}
use dc_inventory.Procurement.Notify.{enqueue_procurement_notifications}
use dc_inventory.Procurement.Workflow.{
  accept_body, correction_body, revision_body, assignment_body, delivery_body, log, moves, stays,
  last_number,
}
use dc_inventory.Procurement.Progress.{Worked, stamp, with_status, moved_Advanced, stayed_Advanced}

module _ (x : Platform) (actor : Actor) where
  accept_steps :
      (p : ExpectedStateMutation) (db : Database) (r : ProcurementRequest) (key : Text)
      {db' : Database}
      → accept_body x actor p db r key ≡ ok db'
      → (transition_allowed r.status ProcurementStatus.purchasing ≡ true)
        × (db' ≡ record db {
          requests =
              put_request
                (log x actor
                  (Payload.expected_state p)
                  key
                  (moves ProcurementEventType.manager_accepted r.status ProcurementStatus.purchasing
                    none)
                  (with_status r ProcurementStatus.purchasing))
                db.requests;
        })
  unfolding accept_body set_status
  accept_steps p db r key h = ground arith

  pub accept_Worked :
      (p : ExpectedStateMutation) (db : Database) (r : ProcurementRequest) (key : Text)
      {db' : Database}
      → accept_body x actor p db r key ≡ ok db'
      → Worked
          (stamp actor key
            (x.payload_fingerprint (Payload.expected_state p))
            ProcurementEventType.manager_accepted)
          r
          db
          db'
  accept_Worked p db r key h =
      let (allowed, same) = accept_steps p db r key h in
      (
        _,
        ap (λ (d : Database). d.requests) same,
        moved_Advanced actor key _ _ _ _ r (with_status r ProcurementStatus.purchasing) allowed refl
            (inl (refl, refl)) (refl, refl, refl, refl),
      )

  correction_steps :
      (p : ExpectedStateMutation) (comment : Text) (proposal : Option (List LineCreate))
      (db : Database) (r : ProcurementRequest) (key : Text) {db' : Database}
      → correction_body x actor p comment proposal db r key ≡ ok db'
      → (transition_allowed r.status ProcurementStatus.agreement_revision_required ≡ true)
        × (text : Option Text) × (normalize_comment (some comment) true ≡ ok text)
        × (db'.requests
            ≡ put_request
                (log x actor
                  (Payload.correction p comment proposal)
                  key
                  (moves ProcurementEventType.correction_requested r.status
                    ProcurementStatus.agreement_revision_required text)
                  (with_status r ProcurementStatus.agreement_revision_required))
                db.requests)
  unfolding correction_body set_status enqueue_procurement_notifications
  correction_steps p comment proposal db r key h = ground arith

  revision_steps :
      (p : ExpectedStateMutation) (comment : Option Text) (lines : List LineCreate) (db : Database)
      (r : ProcurementRequest) (key : Text) {db' : Database}
      → revision_body x actor p comment lines db r key ≡ ok db'
      → (transition_allowed r.status ProcurementStatus.agreement_pending_manager ≡ true)
        × (rows : List ProcurementRevisionLine) × (prepare_lines x actor db.warehouse.items lines
            ≡ ok rows)
        × (general : Option Text) × (normalize_comment comment false ≡ ok general)
        × (db'.requests
            ≡ put_request
                (log x actor
                  (Payload.revision p comment lines)
                  key
                  (moves ProcurementEventType.revision_submitted r.status
                    ProcurementStatus.agreement_pending_manager none)
                  (record (with_status r ProcurementStatus.agreement_pending_manager) {
                    current_revision_id = actor.new_id;
                    revisions =
                        record {
                          id = actor.new_id;
                          revision_number = suc (last_number r.revisions);
                          submitted_by_user_id = actor.user_id;
                          general_comment = general;
                          lines = rows;
                        }
                        ∷ r.revisions;
                  }))
                db.requests)
  unfolding revision_body set_status enqueue_procurement_notifications
  revision_steps p comment lines db r key h = ground arith

  assignment_steps :
      (payload : Payload) (expected target : ℕ) (type : ProcurementEventType) (db : Database)
      (r : ProcurementRequest) (key : Text) {db' : Database}
      → assignment_body x actor payload expected target type db r key ≡ ok db'
      → (is_active r.status ≡ true)
        × (db'.requests
            ≡ put_request
                (log x actor payload key
                  (stays type none)
                  (bump (record r { assigned_manager_user_id = target })))
                db.requests)
  unfolding assignment_body enqueue_procurement_notifications
  assignment_steps payload expected target type db r key h = ground arith

  delivery_steps :
      (p : ExpectedStateMutation) (db : Database) (r : ProcurementRequest) (key : Text)
      {db' : Database}
      → delivery_body x actor p db r key ≡ ok db'
      → (transition_allowed r.status ProcurementStatus.awaiting_acceptance ≡ true)
        × (db'.requests
            ≡ put_request
                (log x actor
                  (Payload.expected_state p)
                  key
                  (moves ProcurementEventType.transferred_to_acceptance r.status
                    ProcurementStatus.awaiting_acceptance none)
                  (with_status r ProcurementStatus.awaiting_acceptance))
                db.requests)
  unfolding delivery_body set_status enqueue_procurement_notifications
  delivery_steps p db r key h = ground arith

  pub correction_Worked :
      (p : ExpectedStateMutation) (comment : Text) (proposal : Option (List LineCreate))
      (db : Database) (r : ProcurementRequest) (key : Text) {db' : Database}
      → correction_body x actor p comment proposal db r key ≡ ok db'
      → Worked
          (stamp actor key
            (x.payload_fingerprint (Payload.correction p comment proposal))
            ProcurementEventType.correction_requested)
          r
          db
          db'
  correction_Worked p comment proposal db r key h =
      let (allowed, text, _, same) = correction_steps p comment proposal db r key h in
      (
        _,
        same,
        moved_Advanced actor key _ _ _ _ r
            (with_status r ProcurementStatus.agreement_revision_required) allowed refl
            (inl (refl, refl)) (refl, refl, refl, refl),
      )

  pub revision_Worked :
      (p : ExpectedStateMutation) (comment : Option Text) (lines : List LineCreate) (db : Database)
      (r : ProcurementRequest) (key : Text) {db' : Database}
      → revision_body x actor p comment lines db r key ≡ ok db'
      → Worked
          (stamp actor key
            (x.payload_fingerprint (Payload.revision p comment lines))
            ProcurementEventType.revision_submitted)
          r
          db
          db'
  revision_Worked p comment lines db r key h =
      let (allowed, rows, _, general, _, same) = revision_steps p comment lines db r key h in
      (
        _,
        same,
        moved_Advanced actor key _ _ _ _ r _ allowed refl (inl (refl, refl))
            (refl, refl, refl, refl),
      )

  pub assignment_Worked :
      (payload : Payload) (expected target : ℕ) (type : ProcurementEventType) (db : Database)
      (r : ProcurementRequest) (key : Text) {db' : Database}
      → assignment_body x actor payload expected target type db r key ≡ ok db'
      → Worked (stamp actor key (x.payload_fingerprint payload) type) r db db'
  assignment_Worked payload expected target type db r key h =
      let (active, same) = assignment_steps payload expected target type db r key h in
      (
        _,
        same,
        stayed_Advanced actor key _ _ _ r (bump (record r { assigned_manager_user_id = target }))
            (ground (arith, active)) refl refl (refl, refl, refl, refl),
      )

  pub delivery_Worked :
      (p : ExpectedStateMutation) (db : Database) (r : ProcurementRequest) (key : Text)
      {db' : Database}
      → delivery_body x actor p db r key ≡ ok db'
      → Worked
          (stamp actor key
            (x.payload_fingerprint (Payload.expected_state p))
            ProcurementEventType.transferred_to_acceptance)
          r
          db
          db'
  delivery_Worked p db r key h =
      let (allowed, same) = delivery_steps p db r key h in
      (
        _,
        same,
        moved_Advanced actor key _ _ _ _ r (with_status r ProcurementStatus.awaiting_acceptance)
            allowed refl (inl (refl, refl)) (refl, refl, refl, refl),
      )
