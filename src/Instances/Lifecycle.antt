-- ===== src/Instances/Lifecycle.antt =====
-- The statuses that an instance goes through.
use broker_bridge.Base.{
  ℕ, String, ◌≡◌, refl, ◌≢◌, inl, inr, Bool, false, Option, none, some, List, [], ◌∷◌, arith, ◌==◌,
  if◌then◌else◌, Bool-cases, Option-cases, update_rows, first_row-holds, first_row-update,
  first_row-append,
}
use broker_bridge.Models.{InstanceStatus, Instance}
use broker_bridge.World.{Failure, Result, Result-cases, ok, raised, Db, World}
use broker_bridge.Infra.{call_infra, call_resource}
use broker_bridge.Addresses.{is_destroyed, find_instance}
use broker_bridge.Instances.{
  get_instance, create_instance, destroy_instance, change_status, suspend_instance, start_instance,
  set_auto_renew,
}
use broker_bridge.Infra.Frame.{call_infra-frame, call_resource-frame}

-- The calls of the service.
pub data Operation : Type 0 where
  create : ℕ → String → Operation
  destroy : ℕ → Operation
  suspend : ℕ → Operation
  start : ℕ → Operation
  renew : ℕ → Bool → Operation

-- The diagram of the statuses of one instance: what a call of the service may do to it.
pub data Edge (id : ℕ) : Operation → InstanceStatus → InstanceStatus → Type 0 where
  stays : {o : Operation} {s : InstanceStatus} → Edge id o s s
  destroyed_by :
      {n : ℕ} {s : InstanceStatus} → id ≡ n → Edge id (destroy n) s InstanceStatus.destroyed
  suspended_by :
      {n : ℕ} {s : InstanceStatus}
      → id ≡ n
      → s ≢ InstanceStatus.destroyed
      → Edge id (suspend n) s InstanceStatus.suspended
  started_by :
      {n : ℕ} {s : InstanceStatus}
      → id ≡ n
      → s ≢ InstanceStatus.destroyed
      → Edge id (start n) s InstanceStatus.running

-- No edge leads away from the last status.
Edge-destroyed :
    (id : ℕ) (o : Operation) {s t : InstanceStatus}
    → Edge id o s t
    → s ≡ InstanceStatus.destroyed
    → t ≡ InstanceStatus.destroyed
Edge-destroyed id o Edge.stays h = h
Edge-destroyed id o (Edge.destroyed_by e) h = refl
Edge-destroyed id o (Edge.suspended_by e up) h = absurd (up h)
Edge-destroyed id o (Edge.started_by e up) h = absurd (up h)

is_up : (s : InstanceStatus) → is_destroyed s ≡ false → s ≢ InstanceStatus.destroyed
is_up InstanceStatus.destroyed h e = cc
is_up InstanceStatus.pending h e = cc
is_up InstanceStatus.running h e = cc
is_up InstanceStatus.suspended h e = cc

module _ {F : Type 0} where
  abbrev settle : {A : Type 0} → Result A × World F → Option Failure × World F
  settle (ok a, w) = (none, w)
  settle (raised e, w) = (some e, w)

  -- The error of a call, if it raises one, and the state after it.
  unfoldable pub call : Operation → World F → Option Failure × World F
  call (create client region) w = settle (create_instance client region w)
  call (destroy n) w = settle (destroy_instance n w)
  call (suspend n) w = settle (suspend_instance n w)
  call (start n) w = settle (start_instance n w)
  call (renew n b) w = settle (set_auto_renew n b w)

  -- Every instance is there after the call, and has moved along an edge.
  abbrev pub Moved : Operation → Db F → Db F → Type 0
  Moved o db db' =
      (id : ℕ) (i : Instance)
      → find_instance id db ≡ some i
      → (j : Instance) × (find_instance id db' ≡ some j) × Edge id o i.status j.status

  -- A call raises, and no table has changed; or it returns, and what changed is committed.
  abbrev pub Settled : Operation → World F → Option Failure × World F → Type 0
  Settled o w (some e, w') = (w'.db ≡ w.db) × (w'.durable ≡ w.durable)
  Settled o w (none, w') = (w'.durable ≡ w'.db) × Moved o w.db w'.db

  module _ (o : Operation) (n : ℕ) (f : Instance → Instance)
      (same : (i : Instance) → (f i).id ≡ i.id) (db : Db F)
      (edge : (id : ℕ) (i : Instance)
        → find_instance id db ≡ some i
        → id ≡ n
        → Edge id o i.status (f i).status) where
    update-Moved :
        Moved o db
          (record db { instances = update_rows (λ (x : Instance). x.id == n) f db.instances })
    update-Moved id i found = (
      if i.id == n then f i else i,
      first_row-update (λ (x : Instance). x.id) f same n id db.instances i found,
      elim (Bool-cases (i.id == n)) [
        | inl hit ↦ rw hit (
            edge id i found
              (ground (arith, first_row-holds (λ (x : Instance). x.id == id) db.instances i found)))
        | inr miss ↦ rw miss Edge.stays
      ],
    )

  -- The row that was changed is found again.
  find_updated :
      (n : ℕ) (f : Instance → Instance)
      → ((i : Instance) → (f i).id ≡ i.id)
      → (db : Db F) (i : Instance) → find_instance n db ≡ some i
      → find_instance n
          (record db { instances = update_rows (λ (x : Instance). x.id == n) f db.instances })
        ≡ some (f i)
  find_updated n f same db i found = ground (
    arith,
    first_row-update (λ (x : Instance). x.id) f same n n db.instances i found,
    first_row-holds (λ (x : Instance). x.id == n) db.instances i found,
  )

  destroy-Settled : (n : ℕ) (w : World F) → Settled (destroy n) w (settle (destroy_instance n w))
  unfolding destroy_instance get_instance
  destroy-Settled n w =
      let (l, same) = call_infra-frame w in
      elim (Option-cases (find_instance n w.db)) [
        | inl missing ↦ rw (missing, destroy_instance) (refl, refl)
        | inr (i, found) ↦ elim (Result-cases (call_infra w).0) [
          | inr (e, refused) ↦ rw (found, destroy_instance, refused) (rw same (refl, refl))
          | inl (r, done) ↦
              rw (found, destroy_instance, done)
                (rw same (
                  refl,
                  update-Moved (destroy n) n (λ i. record i { status = InstanceStatus.destroyed })
                      (λ i. refl) w.db (λ id i h e. Edge.destroyed_by e),
                ))
        ]
      ]

  module _ (o : Operation) (n : ℕ) (s : InstanceStatus)
      (edge : (id : ℕ) (t : InstanceStatus) → id ≡ n → t ≢ InstanceStatus.destroyed → Edge id o t s)
      (w : World F) where
    change_status-Settled : Settled o w (settle (change_status n s w))
    unfolding get_instance
    change_status-Settled =
        let (l, same) = call_infra-frame w in
        elim (Option-cases (find_instance n w.db)) [
          | inl missing ↦ rw (missing, change_status) (refl, refl)
          | inr (x, found) ↦ elim (Bool-cases (is_destroyed x.status)) [
            | inl gone ↦ rw (found, change_status, gone) (refl, refl)
            | inr up ↦ elim (Result-cases (call_infra w).0) [
              | inr (e, refused) ↦ rw (found, change_status, up, refused) (rw same (refl, refl))
              | inl (r, done) ↦
                  rw (found, change_status, up, done)
                    (rw same (
                      rw (find_updated n (λ i. record i { status = s }) (λ i. refl) w.db x found) (
                        refl,
                        update-Moved o n (λ i. record i { status = s }) (λ i. refl) w.db
                            (λ id i h e. edge id i.status e (is_up i.status (cc))),
                      )))
            ]
          ]
        ]

  renew-Settled :
      (n : ℕ) (b : Bool) (w : World F) → Settled (renew n b) w (settle (set_auto_renew n b w))
  unfolding set_auto_renew get_instance
  renew-Settled n b w =
      let (l, same) = call_infra-frame w in
      elim (Option-cases (find_instance n w.db)) [
        | inl missing ↦ rw (missing, set_auto_renew) (refl, refl)
        | inr (x, found) ↦ elim (Result-cases (call_infra w).0) [
          | inr (e, refused) ↦ rw (found, set_auto_renew, refused) (rw same (refl, refl))
          | inl (r, done) ↦
              rw (found, set_auto_renew, done)
                (rw same (
                  rw (find_updated n (λ i. record i { auto_renew = b }) (λ i. refl) w.db x found) (
                    refl,
                    update-Moved (renew n b) n (λ i. record i { auto_renew = b }) (λ i. refl) w.db
                        (λ id i h e. Edge.stays),
                  )))
        ]
      ]

  create-Settled :
      (c : ℕ) (region : String) (w : World F)
      → Settled (create c region) w (settle (create_instance c region w))
  unfolding create_instance
  create-Settled c region w =
      let (l, same) = call_resource-frame w in
      elim (Result-cases (call_resource w).0) [
        | inr (e, refused) ↦ rw (refused, create_instance) (rw same (refl, refl))
        | inl (x, done) ↦
            rw (done, create_instance)
              (rw same (
                refl,
                λ id i found. (
                  i,
                  first_row-append (λ (y : Instance). y.id == id) w.db.instances _ i found,
                  Edge.stays,
                ),
              ))
      ]

  -- A call of the service raises and changes no table, or it returns, what changed is committed, every
  -- instance is there as before, and its status has moved along an edge of the diagram: an instance that
  -- the call does not name keeps its status, and a destroyed one is never brought back.
  pub call-Settled : (o : Operation) (w : World F) → Settled o w (call o w)
  unfolding call suspend_instance start_instance
  call-Settled (create c region) w = create-Settled c region w
  call-Settled (destroy n) w = destroy-Settled n w
  call-Settled (suspend n) w =
      change_status-Settled (suspend n) n InstanceStatus.suspended
        (λ id t e up. Edge.suspended_by e up) w
  call-Settled (start n) w =
      change_status-Settled (start n) n InstanceStatus.running (λ id t e up. Edge.started_by e up) w
  call-Settled (renew n b) w = renew-Settled n b w

  unfoldable pub run : List Operation → World F → World F
  run [] w = w
  run (o ∷ l) w = run l (call o w).1

  abbrev pub IsDestroyed : ℕ → World F → Type 0
  IsDestroyed id w =
      (i : Instance) × (find_instance id w.db ≡ some i) × (i.status ≡ InstanceStatus.destroyed)

  Settled-IsDestroyed :
      (o : Operation) (w : World F) (r : Option Failure × World F) (id : ℕ)
      → Settled o w r
      → IsDestroyed id w
      → IsDestroyed id r.1
  Settled-IsDestroyed o w (some e, w') id h (i, found, gone) = (i, rw h.0 found, gone)
  Settled-IsDestroyed o w (none, w') id h (i, found, gone) =
      let (j, there, edge) = h.1 id i found in (j, there, Edge-destroyed id o edge gone)

  -- An instance that is destroyed is still so after any calls of the service, whatever the provider
  -- answers to them.
  pub run-IsDestroyed :
      (ops : List Operation) (w : World F) (id : ℕ) → IsDestroyed id w → IsDestroyed id (run ops w)
  unfolding run
  run-IsDestroyed [] w id h = h
  run-IsDestroyed (o ∷ l) w id h =
      run-IsDestroyed l (call o w).1 id (Settled-IsDestroyed o w (call o w) id (call-Settled o w) h)
