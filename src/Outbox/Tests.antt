-- ===== src/Outbox/Tests.antt =====
-- The relay over an outbox in memory and a broker that takes every message.
use finora.Base.{◌≡◌, select, refl, inl, List, [], ◌∷◌, All, none, Text, str, ok}
use mathlib.Core.List.{Memᴰ}
use finora.Golang.Time.{Time}
use finora.Mongo.Memory.{memory, memory-IsCollection, text_ids}
use finora.Outbox.{Event, Message, Publisher, is_unpublished, relay_once}
use finora.Outbox.Drained.{IsUp, relay_once-drained}
use finora.Outbox.Delivery.{IsBroker, IsDelivered, relay_once-IsDelivered}

abbrev State : Type 0
State = List (Event Text) × List Message

abbrev publisher : Publisher State
publisher = record { publish = λ m s. (ok tt, (s.0, m ∷ s.1)) }

memory-IsBroker : IsBroker memory publisher (λ (s : State). s.1)
memory-IsBroker = record {
  takes = λ m s h. Memᴰ.head refl;
  keeps = λ m n s h. Memᴰ.tail h;
  apart = λ m s. refl;
  update_apart = λ p f s. refl;
  insert_apart = λ d s. refl;
}

abbrev waiting : Event Text
waiting = record {
  id = str "e1";
  subject = str "finora.transaction.created";
  msg_id = str "t1";
  payload = str "{}";
  created_at = 4;
  published_at = none;
}

abbrev clock : Text → Time
clock id = 9

abbrev state : State
state = (waiting ∷ [], [])

relay_once-IsDelivered_example :
    All
      (IsDelivered (relay_once text_ids memory publisher clock state).1)
      (relay_once text_ids memory publisher clock state).0
relay_once-IsDelivered_example =
    relay_once-IsDelivered text_ids memory memory-IsCollection publisher (λ s. s.1) memory-IsBroker
      clock state (inl refl, tt) ((λ same. refl, tt), tt)

memory-IsUp : IsUp {S = State} {O = Text} memory publisher
memory-IsUp = record {
  publishes = λ m s. refl;
  finds = λ p s. (_, refl);
  updates = λ p f s. (_, refl);
}

relay_once-drained_example :
    select is_unpublished (relay_once text_ids memory publisher clock state).0 ≡ []
relay_once-drained_example =
    relay_once-drained text_ids memory memory-IsCollection publisher (λ s. s.1) memory-IsBroker
      clock memory-IsUp state (tt, tt)
