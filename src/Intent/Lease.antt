-- ===== src/Intent/Lease.antt =====
-- What a claim of internal/intent/repository/repository.go is worth while its lease lasts.
pub mod Exclusive
use mathlib.Core.List.{Memᴰ}
use devflow_service.Base.{
  ==_iff, All, All-Memᴰ, Bool, List, Option, [], arith, false, none, refl, some, sym, true, ℕ, ◌==◌,
  ◌∙◌, ◌∷◌, ◌≡◌, ◌≢◌, ◌≤◌,
}
use devflow_service.Intent.Claim.{
  claim_found, claim_next_pending, claim_next_pending_by_kind, claim_row, claim_where, is_claimable,
  is_claimable_of, oldest,
}
use devflow_service.Intent.Claim.Order.{FirstInLine, oldest-FirstInLine, set_where-All}
use devflow_service.Intent.Table.{
  bind_intent_to_release, change_intents, change_where, first_where, has_id, has_resource,
  insert_intent, insert_unless_taken, mark_failed, mark_submitted, restated, restated_resource,
  settled, update_intent_status, update_status_by_resource,
}
use devflow_service.Intent.Types.{Intent, IntentKind, IntentStatus, is_pending_intent}
use devflow_service.Release.Types.{Release, failed, running}
use devflow_service.Service.Store.{change_rows, live_row}
use devflow_service.Service.Terminal.Kept.{Keeps, Keeps-state, statement-Keeps}
use devflow_service.Service.World.{M, World, faulty}
use devflow_service.Text.{Text}

-- The statements that change the tables.
pub data QueueCall : Type 0 where
  claims : (worker : Text) (now lease : ℕ) → QueueCall
  claims_kind : (kind : IntentKind) (worker : Text) (now lease : ℕ) → QueueCall
  submits fails : (k : ℕ) (message : Text) (now : ℕ) → QueueCall
  sets : (k : ℕ) (status : IntentStatus) (message : Text) (now : ℕ) → QueueCall
  sets_resource :
      (kind : IntentKind) (k : ℕ) (status : IntentStatus) (message : Text) (now : ℕ) → QueueCall
  inserts : Intent → QueueCall
  binds : (release_id k now : ℕ) → QueueCall

unfoldable pub serve_call : QueueCall → World → World
serve_call (claims worker now lease) w = (claim_next_pending worker now lease w).1
serve_call (claims_kind kind worker now lease) w =
    (claim_next_pending_by_kind kind worker now lease w).1
serve_call (submits k message now) w = (mark_submitted k message now w).1
serve_call (fails k message now) w = (mark_failed k message now w).1
serve_call (sets k status message now) w = (update_intent_status k status message now w).1
serve_call (sets_resource kind k status message now) w =
    (update_status_by_resource kind k status message now w).1
serve_call (inserts intent) w = (insert_intent intent w).1
serve_call (binds release_id k now) w = (bind_intent_to_release release_id k now w).1

unfoldable pub serve : List QueueCall → World → World
unfolding serve_call
serve [] w = w
serve (call ∷ calls) w = serve calls (serve_call call w)

module _ (id until : ℕ) where
  abbrev pub HeldRow : Intent → Type 0
  HeldRow r = r.id ≡ id → (t : ℕ) → t ≤ until → is_claimable t r ≡ false

  -- No row with the id can be claimed up to that time.
  abbrev pub Held : World → Type 0
  Held w = All HeldRow w.intents

  -- What a later statement may do without ending the lease: it comes in time and does not put
  -- intents back into the queue.
  abbrev pub Permits : QueueCall → Type 0
  Permits (claims worker now lease) = now ≤ until
  Permits (claims_kind kind worker now lease) = now ≤ until
  Permits (sets k status message now) = is_pending_intent status ≡ false
  Permits (sets_resource kind k status message now) = is_pending_intent status ≡ false
  Permits (inserts intent) = intent.id ≢ id
  Permits _ = Unit

  not_pending-HeldRow : (r : Intent) → is_pending_intent r.status ≡ false → HeldRow r
  unfolding is_claimable
  not_pending-HeldRow r h e t le = rw h refl

  -- A statement under a fault.
  Held-faulty {ℓ} :
      {A : Type ℓ} (Q : A → Type 0) (m : M A) (w : World)
      → ((w' : World) → Held w' → Keeps Held Q (m w'))
      → Held w
      → Keeps Held Q (faulty m w)
  Held-faulty Q m w keep h = statement-Keeps Held (λ w' faults k. k) Q m w keep h

  change_intents-Held :
      (o : Option Intent) (test : Intent → Bool) (change : Intent → Intent) (w : World)
      → ((r : Intent) → HeldRow r → test r ≡ true → HeldRow (change r))
      → Held w
      → Keeps Held (λ x. Unit {0}) (change_intents o test change w)
  change_intents-Held none test change w step h = h
  change_intents-Held (some r) test change w step h =
      (set_where-All HeldRow test change w.intents step h, tt)

  change_where-Held :
      (test : Intent → Bool) (change : Intent → Intent) (w : World)
      → ((r : Intent) → HeldRow r → test r ≡ true → HeldRow (change r))
      → Held w
      → Keeps Held (λ x. Unit {0}) (faulty (change_where test change) w)
  unfolding change_where
  change_where-Held test change w step h =
      Held-faulty (λ x. Unit {0}) (change_where test change) w
        (λ w' k. change_intents-Held (first_where test w'.intents) test change w' step k) h

  -- A row that can be claimed in time has another id.
  claimable-other :
      (w : World) (now : ℕ) (row : Intent)
      → Held w
      → now ≤ until
      → Memᴰ row w.intents
      → is_claimable now row ≡ true
      → row.id ≢ id
  claimable-other w now row h le m on e = let off = All-Memᴰ HeldRow h m e now le in cc

  -- A claim in time takes a row with another id.
  claim_found-Held :
      (o : Option Intent) (test : Intent → Bool) (worker : Text) (now lease : ℕ) (w : World)
      → FirstInLine test w.intents o
      → now ≤ until
      → ((r : Intent) → test r ≡ true → is_claimable now r ≡ true)
      → Held w
      → Keeps Held (λ (r : Intent). r.id ≢ id) (claim_found o worker now lease w)
  unfolding claim_row
  claim_found-Held none test worker now lease w f le claimable h = h
  claim_found-Held (some row) test worker now lease w (m, on, f) le claimable h = (
    set_where-All HeldRow (λ r. r.id == row.id) (claim_row worker now lease) w.intents
        (λ r k e q.
          absurd (claimable-other w now row h le m (claimable row on) (sym ((==_iff _ _).0 e) ∙ q)))
        h,
    claimable-other w now row h le m (claimable row on),
  )

  pub claim_where-Held :
      (test : Intent → Bool) (worker : Text) (now lease : ℕ) (w : World)
      → now ≤ until
      → ((r : Intent) → test r ≡ true → is_claimable now r ≡ true)
      → Held w
      → Keeps Held (λ (r : Intent). r.id ≢ id) (faulty (claim_where test worker now lease) w)
  unfolding claim_where
  claim_where-Held test worker now lease w le claimable h =
      Held-faulty (λ (r : Intent). r.id ≢ id) (claim_where test worker now lease) w
        (λ w' k.
          claim_found-Held (oldest test w'.intents) test worker now lease w'
            (oldest-FirstInLine test w'.intents) le claimable k)
        h

  insert_unless_taken-Held :
      (o : Option Intent) (intent : Intent) (w : World)
      → intent.id ≢ id
      → Held w
      → Keeps Held (λ x. Unit {0}) (insert_unless_taken o intent w)
  insert_unless_taken-Held (some row) intent w new h = h
  insert_unless_taken-Held none intent w new h = (((λ e. absurd (new e)), h), tt)

  change_rows-Held :
      (o : Option Release) (k : ℕ) (change : Release → Release) (w : World)
      → Held w
      → Keeps Held (λ x. Unit {0}) (change_rows o k change w)
  change_rows-Held none k change w h = h
  change_rows-Held (some row) k change w h = (h, tt)

  -- The world after a statement under a fault that changes the rows that a test meets.
  changed-Held :
      (test : Intent → Bool) (change : Intent → Intent) (w : World)
      → ((r : Intent) → is_pending_intent (change r).status ≡ false)
      → Held w
      → Held (faulty (change_where test change) w).1
  changed-Held test change w off h =
      Keeps-state Held (λ x. Unit {0}) (faulty (change_where test change) w)
        (change_where-Held test change w (λ r held e. not_pending-HeldRow (change r) (off r)) h)

  serve_call-Held :
      (call : QueueCall) (w : World) → Permits call → Held w → Held (serve_call call w)
  unfolding serve_call claim_next_pending claim_next_pending_by_kind mark_submitted mark_failed
      update_intent_status update_status_by_resource insert_intent bind_intent_to_release
      is_claimable_of
  serve_call-Held (claims worker now lease) w le h =
      Keeps-state Held (λ (r : Intent). r.id ≢ id) (claim_next_pending worker now lease w)
        (claim_where-Held (is_claimable now) worker now lease w le (λ r e. e) h)
  serve_call-Held (claims_kind kind worker now lease) w le h =
      Keeps-state Held (λ (r : Intent). r.id ≢ id)
        (claim_next_pending_by_kind kind worker now lease w)
        (claim_where-Held (is_claimable_of kind now) worker now lease w le (λ r e. ground arith) h)
  serve_call-Held (submits k message now) w u h =
      changed-Held (has_id k) (settled IntentStatus.running message [] now) w (λ r. refl) h
  serve_call-Held (fails k message now) w u h =
      changed-Held (has_id k) (settled IntentStatus.failed message message now) w (λ r. refl) h
  serve_call-Held (sets k status message now) w off h =
      changed-Held (has_id k) (restated status message now) w (λ r. off) h
  serve_call-Held (sets_resource kind k status message now) w off h =
      changed-Held (has_resource kind k) (restated_resource status message now) w (λ r. off) h
  serve_call-Held (inserts intent) w new h =
      Keeps-state Held (λ x. Unit {0}) (insert_intent intent w)
        (Held-faulty (λ x. Unit {0}) _ w
          (λ w' k.
            insert_unless_taken-Held (first_where (λ row. row.id == intent.id) w'.intents) intent w'
              new k)
          h)
  serve_call-Held (binds release_id k now) w u h =
      Keeps-state Held (λ x. Unit {0}) (bind_intent_to_release release_id k now w)
        (Held-faulty (λ x. Unit {0}) _ w
          (λ w' held. change_rows-Held (live_row release_id w'.rows) release_id _ w' held) h)

  pub serve-Held :
      (calls : List QueueCall) (w : World) → All Permits calls → Held w → Held (serve calls w)
  unfolding serve
  serve-Held [] w p h = h
  serve-Held (call ∷ calls) w (p, permits) h =
      serve-Held calls (serve_call call w) permits (serve_call-Held call w p h)
