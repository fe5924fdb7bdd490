-- ===== src/Eventbus.antt =====
-- shared/eventbus/eventbus.go over NATS JetStream, which is a parameter: how a message is published,
-- and what is told to the server about one that was delivered.
use finora.Base.{
  ◌++◌, Option, none, some, Text, str, Error, failed, Result, ok, err, Action, if◌then◌else◌,
}
use finora.Golang.Text.{is_empty}
use finora.Outbox.{Message, Publisher}

-- `PublishMsg`, with the identifier of `WithMsgID` if it is given.
pub record JetStream (S : Type 0) : Type 0 where
  pub publish_msg : Text → Text → Option Text → Action S (Unit {0})

-- What a delivered message is answered with.
pub data Verdict : Type 0 where
  ack nak : Verdict

-- `fmt.Errorf("eventbus: publish %s: %w", subject, err)`, with the text of the error.
abbrev pub wrapped : (Error → Text) → Text → Result (Unit {0}) → Result (Unit {0})
wrapped error_text subject (ok _) = ok tt
wrapped error_text subject (err e) =
    err (failed (str "eventbus: publish " ++ (subject ++ (str ": " ++ error_text e))))

abbrev pub verdict_of : Result (Unit {0}) → Verdict
verdict_of (ok _) = ack
verdict_of (err e) = nak

-- `Handler`: the subject and the data of a message.
abbrev pub Handler : Type 0 → Type 0
Handler S = Text → Text → Action S (Unit {0})

module _ {S : Type 0} where
  unfoldable pub publish : JetStream S → (Error → Text) → Message → Action S (Unit {0})
  publish js error_text m s =
      let id = if is_empty m.msg_id then none else some m.msg_id in
      let (r, s') = js.publish_msg m.subject m.payload id s in (wrapped error_text m.subject r, s')

  -- `*Bus` as the `Publisher` of the relay.
  abbrev pub bus_publisher : JetStream S → (Error → Text) → Publisher S
  bus_publisher js error_text = record { publish = publish js error_text }

  -- The callback of `Subscribe` on one delivery.
  unfoldable pub consume : Handler S → Text → Text → S → Verdict × S
  consume handler subject data_ s = let (r, s') = handler subject data_ s in (verdict_of r, s')
