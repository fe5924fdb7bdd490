-- ===== src/Outbox.antt =====
-- shared/outbox/outbox.go: events that are stored in a service's own database, and relayed from
-- there to the broker. The event bus is a parameter; a poll is read over the list of events that its
-- query gives, without those that cannot be decoded.
pub mod Delivery
pub mod Drained
mod Tests
use finora.Base.{Bool, List, [], ◌∷◌, Option, none, some, Text, Result, ok, err, Action}
use finora.Golang.Time.{Time}
use finora.Mongo.{bson_date, Collection, ObjectIds}

pub record Event (O : Type 0) : Type 0 where
  pub id : O
  pub subject : Text
  pub msg_id : Text
  pub payload : Text
  pub created_at : Time
  pub published_at : Option Time

-- What the bus is given.
pub record Message : Type 0 where
  pub subject : Text
  pub payload : Text
  pub msg_id : Text

-- `Publisher`
pub record Publisher (S : Type 0) : Type 0 where
  pub publish : Message → Action S (Unit {0})

abbrev pub message : {O : Type 0} → Event O → Message
message e = record { subject = e.subject; payload = e.payload; msg_id = e.msg_id }

-- `bson.M{"published_at": nil}`
abbrev pub is_unpublished : {O : Type 0} → Event O → Bool
is_unpublished e = elim e.published_at [ none ↦ Bool.true | some t ↦ Bool.false ]

-- The `$set` of the relay.
abbrev pub mark : {O : Type 0} → Time → Event O → Event O
mark now e = record e { published_at = some (bson_date now) }

module _ {S O : Type 0} (ids : ObjectIds O) (col : Collection S (Event O)) where
  -- The driver makes the id that the event leaves out.
  unfoldable pub enqueue : O → Time → Message → Action S (Unit {0})
  enqueue id now m = col.insert_one (record {
    id = id;
    subject = m.subject;
    msg_id = m.msg_id;
    payload = m.payload;
    created_at = bson_date now;
    published_at = none;
  })

  module _ (publisher : Publisher S) (clock : O → Time) where
    -- What follows `Publish` in a round of the loop; failures are logged.
    unfoldable pub published : Event O → Result (Unit {0}) × S → S
    published e (err _, s) = s
    published e (ok _, s) = (col.update_one (λ d. ids.id_eq d.id e.id) (mark (clock e.id)) s).1

    unfoldable pub relay_events : List (Event O) → S → S
    unfolding published
    relay_events [] s = s
    relay_events (e ∷ es) s = relay_events es (published e (publisher.publish (message e) s))

    -- One poll; `clock` says when each event is marked.
    unfoldable pub relay_once : S → S
    unfolding relay_events
    relay_once s = elim (col.find is_unpublished s) [
      | err _ ↦ s
      | ok events ↦ relay_events events s
    ]
