-- ===== src/Whop/Event/Once.antt =====
-- An event is handled once.
use autoedge_licensing_serve.Prelude.{
  ◌≡◌, refl, sym, ◌∙◌, ap, subst, Bool, true, false, Option, none, some, List, [], ◌∷◌, ◌++◌,
  Bool-cases, inl, inr, find,
}
use autoedge_licensing_serve.Text.{Text, same_text}
use autoedge_licensing_serve.Text.Laws.{same_text_self}
use autoedge_licensing_serve.Time.{iso}
use autoedge_licensing_serve.Database.{
  Platform, Database, WebhookEvent, EventStatus, received, processed, failed,
}
use autoedge_licensing_serve.Database.Unique.{find-updated, found-passes}
use autoedge_licensing_serve.Whop.Event.{
  Event, Outcome, returned, raised, Answer, duplicate_event, is_event, event_row, received_again,
  update_event, receive, is_processed, finish, process_whop_event, upsert_whop_entitlement,
}
use autoedge_licensing_serve.Whop.Event.Preserve.{entitlement-SameEvents}

find-append :
    (test : WebhookEvent → Bool) (rows : List WebhookEvent) (w : WebhookEvent)
    → find test rows ≡ none
    → test w ≡ true
    → find test (rows ++ w ∷ []) ≡ some w
find-append test [] w h t = rw t
find-append test (r ∷ rows) w h t = elim (Bool-cases (test r)) [
  | inl e ↦ let h' = rw e at h in cc
  | inr e ↦ rw e (find-append test rows w (rw e at h) t)
]

-- the row of an event under its webhook id
abbrev pub event_of : Text → Database → Option WebhookEvent
event_of webhook_id db = find (λ w. same_text w.webhook_id webhook_id) db.webhook_events

module _ (p : Platform) (e : Event) where
  receive-event_of :
      (db : Database) (existing : Option WebhookEvent)
      → event_of e.webhook_id db ≡ existing
      → (w : WebhookEvent) × (event_of e.webhook_id (receive p e existing db) ≡ some w)
  unfolding receive
  receive-event_of db none found = (
    event_row p e,
    find-append (is_event p e) db.webhook_events (event_row p e) found
        (same_text_self e.webhook_id),
  )
  receive-event_of db (some w) found = (
    received_again p e w,
    find-updated (is_event p e) (received_again p e) db.webhook_events found
        (found-passes (is_event p e) db.webhook_events found),
  )

  -- the row at the end of a call that is no duplicate
  pub finished :
      (db : Database) (change : WebhookEvent → WebhookEvent)
      → ((w : WebhookEvent) → (change w).webhook_id ≡ w.webhook_id)
      → (w : WebhookEvent) × (event_of e.webhook_id (
            update_event p e change
              (upsert_whop_entitlement p e (receive p e (event_of e.webhook_id db) db)).0)
          ≡ some (change w))
  finished db change keeps =
      let arrived = receive p e (event_of e.webhook_id db) db in
      let (w, found) = receive-event_of db (event_of e.webhook_id db) refl in
      let same = entitlement-SameEvents p e arrived in
      let found' : event_of e.webhook_id (upsert_whop_entitlement p e arrived).0 ≡ some w =
        subst
          (λ (rows : List WebhookEvent).
            find (λ r. same_text r.webhook_id e.webhook_id) rows ≡ some w)
          (sym same) found in
      let passes : is_event p e (change w) ≡ true = rw (keeps w) (
        found-passes (is_event p e) (upsert_whop_entitlement p e arrived).0.webhook_events
          found') in
      (w, find-updated (is_event p e) change _ found' passes)

module _ (p : Platform) where
  pub known_duplicate :
      (e : Event) (error : Text) (db : Database) {w : WebhookEvent}
      → event_of e.webhook_id db ≡ some w
      → w.status ≡ processed
      → process_whop_event p e error db ≡ (db, returned duplicate_event)
  unfolding process_whop_event
  known_duplicate e error db {w} found done =
      let known : is_processed p e (some w) ≡ true = simp done in rw (found, known)

  -- a call that is no duplicate, by what the handling gave
  pub finish-eq :
      (e : Event) (error : Text) (done : Database × Outcome) {o : Outcome}
      → done.1 ≡ o
      → finish p e error done ≡ finish p e error (done.0, o)
  finish-eq e error done q = ap (λ (x : Outcome). finish p e error (done.0, x)) q

  abbrev pub handled : Event → Database → Database × Outcome
  handled e db = upsert_whop_entitlement p e (receive p e (event_of e.webhook_id db) db)

  pub process-eq :
      (e : Event) (error : Text) (db : Database)
      → is_processed p e (event_of e.webhook_id db) ≡ false
      → process_whop_event p e error db ≡ finish p e error (handled e db)
  unfolding process_whop_event
  process-eq e error db new = rw new

  processed_row :
      (e : Event) (o : Option WebhookEvent)
      → is_processed p e o ≡ true
      → (w : WebhookEvent) × (o ≡ some w) × (w.status ≡ processed)
  processed_row e none h = cc
  processed_row e (some w) h = (w, refl, status_eq w.status h)
    where
      status_eq :
          (s : EventStatus)
          → (elim s [ processed ↦ true | received ↦ false | failed ↦ false ]) ≡ true
          → s ≡ processed
      status_eq processed h = refl
      status_eq received h = cc
      status_eq failed h = cc

  -- after a call that returned, the event's row is processed
  returned_row :
      (e : Event) (error : Text) (db : Database) {db1 : Database} {a : Answer}
      → process_whop_event p e error db ≡ (db1, returned a)
      → (w : WebhookEvent) × (event_of e.webhook_id db1 ≡ some w) × (w.status ≡ processed)
  unfolding process_whop_event
  returned_row e error db {db1} {a} h =
      elim (Bool-cases (is_processed p e (event_of e.webhook_id db))) [
        | inl known ↦
            let h' : (db, returned duplicate_event) ≡ (db1, returned a) = rw known at h in
            let same : db ≡ db1 = ap (λ (x : Database × Outcome). x.0) h' in
            let (w, found, done) = processed_row e (event_of e.webhook_id db) known in
            (w, subst (λ (d : Database). event_of e.webhook_id d ≡ some w) same found, done)
        | inr new ↦ by_outcome (handled e db).1 refl (sym (process-eq e error db new) ∙ h)
      ]
    where
      by_outcome :
          (o : Outcome)
          → (handled e db).1 ≡ o
          → finish p e error (handled e db) ≡ (db1, returned a)
          → (w : WebhookEvent) × (event_of e.webhook_id db1 ≡ some w) × (w.status ≡ processed)
      by_outcome raised q h' =
          let r : raised ≡ returned a =
            ap (λ (x : Database × Outcome). x.1) (sym (finish-eq e error (handled e db) q) ∙ h') in
          cc
      by_outcome (returned a') q h' =
          let change = λ (w : WebhookEvent). record w {
            status = processed;
            processed_at = some (iso e.now);
          } in
          let same =
            ap (λ (x : Database × Outcome). x.0) (sym (finish-eq e error (handled e db) q) ∙ h') in
          let (w, found) = finished p e db change (λ w. refl) in
          (
            change w,
            subst (λ (d : Database). event_of e.webhook_id d ≡ some (change w)) same found,
            refl,
          )

  -- An event whose handling returned is handled once: whatever is delivered under its webhook id
  -- afterwards, with any content, changes nothing in the database and is answered as a duplicate.
  pub process_whop_event_once :
      (e later : Event) (error error' : Text) (db : Database) {db1 : Database} {a : Answer}
      → process_whop_event p e error db ≡ (db1, returned a)
      → later.webhook_id ≡ e.webhook_id
      → process_whop_event p later error' db1 ≡ (db1, returned duplicate_event)
  process_whop_event_once e later error error' db {db1} {a} h same =
      let (w, found, done) = returned_row e error db h in
      known_duplicate later error' db1
        (subst (λ (id : Text). event_of id db1 ≡ some w) (sym same) found) done
