-- ===== src/Outbox/Delivery.antt =====
-- The relay of outbox.go, and what the broker has taken.
use finora.Base.{
  ◌≡◌, ◌⊎◌, sym, Bool, true, List, [], ◌∷◌, All, All-weaken, All-select, All-update_first, ok,
  update_first, inl, inr, outcome, success, failure,
}
use mathlib.Core.Path.{subst}
use mathlib.Core.List.{Memᴰ}
use finora.Golang.Time.{Time}
use finora.Mongo.{Collection, IsCollection, ObjectIds}
use finora.Mongo.Laws.{Applied-either}
use finora.Outbox.{
  Event, Message, Publisher, message, is_unpublished, mark, published, relay_events, relay_once,
}

-- What the broker and the database keep of each other. `sent` is what the broker has taken: it
-- has a message once `Publish` succeeds, and it never loses one.
pub record IsBroker {S O : Type 0} (col : Collection S (Event O)) (publisher : Publisher S)
    (sent : S → List Message) : Type 0 where
  pub takes :
      (m : Message) (s : S)
      → (publisher.publish m s).0 ≡ ok tt
      → Memᴰ m (sent (publisher.publish m s).1)
  pub keeps : (m n : Message) (s : S) → Memᴰ n (sent s) → Memᴰ n (sent (publisher.publish m s).1)
  pub apart : (m : Message) (s : S) → col.docs (publisher.publish m s).1 ≡ col.docs s
  pub update_apart :
      (p : Event O → Bool) (f : Event O → Event O) (s : S) → sent (col.update_one p f s).1 ≡ sent s
  pub insert_apart : (d : Event O) (s : S) → sent (col.insert_one d s).1 ≡ sent s

-- An event that is marked as published was taken.
abbrev pub IsDelivered : {O : Type 0} → List Message → Event O → Type 0
IsDelivered sent e = (is_unpublished e ≡ true) ⊎ Memᴰ (message e) sent

module _ {O : Type 0} (ids : ObjectIds O) where
  -- Events with one id carry one message.
  abbrev pub Agrees : List (Event O) → Event O → Type 0
  Agrees docs e = All (λ d. ids.id_eq d.id e.id ≡ true → message d ≡ message e) docs

  Agrees-mark :
      (docs : List (Event O)) (t : Time) (e a : Event O)
      → Agrees docs a
      → Agrees (update_first (λ d. ids.id_eq d.id e.id) (mark t) docs) a
  Agrees-mark docs t e a h =
      All-update_first (λ d. ids.id_eq d.id a.id ≡ true → message d ≡ message a) _ (mark t) docs
        (All-weaken _ _ (λ d k same. k) docs h) h

  -- Every event marked as published was taken, and those that are still to be relayed agree with
  -- the events under their id.
  abbrev pub IsConsistent : List Message → List (Event O) → List (Event O) → Type 0
  IsConsistent sent docs es = All (IsDelivered sent) docs × All (Agrees docs) es

  mark-IsConsistent :
      (sent : List Message) (docs es : List (Event O)) (t : Time) (e : Event O)
      → IsConsistent sent docs (e ∷ es)
      → Memᴰ (message e) sent
      → IsConsistent sent (update_first (λ d. ids.id_eq d.id e.id) (mark t) docs) es
  mark-IsConsistent sent docs es t e (delivered, (this, rest)) took = (
    All-update_first (IsDelivered sent) _ (mark t) docs
        (All-weaken _ _ (λ d agrees same. inr (subst (λ m. Memᴰ m sent) (sym (agrees same)) took))
          docs this)
        delivered,
    All-weaken _ _ (λ a. Agrees-mark docs t e a) es rest,
  )

  more-IsConsistent :
      (sent more : List Message) (docs es : List (Event O))
      → ((n : Message) → Memᴰ n sent → Memᴰ n more)
      → IsConsistent sent docs es
      → IsConsistent more docs es
  more-IsConsistent sent more docs es keeps (delivered, agrees) =
      (All-weaken _ _ (λ d. still d) docs delivered, agrees)
    where
      still : (d : Event O) → IsDelivered sent d → IsDelivered more d
      still d (inl waiting) = inl waiting
      still d (inr took) = inr (keeps (message d) took)

module _ {S O : Type 0} (ids : ObjectIds O) (col : Collection S (Event O)) (laws : IsCollection col)
    (publisher : Publisher S) (sent : S → List Message) (broker : IsBroker col publisher sent)
    (clock : O → Time) where
  publish-IsConsistent :
      (m : Message) (es : List (Event O)) (s : S)
      → IsConsistent ids (sent s) (col.docs s) es
      → IsConsistent ids (sent (publisher.publish m s).1) (col.docs (publisher.publish m s).1) es
  publish-IsConsistent m es s h =
      subst (λ docs. IsConsistent ids (sent (publisher.publish m s).1) docs es)
        (sym (broker.apart m s))
        (more-IsConsistent ids (sent s) _ (col.docs s) es (λ n. broker.keeps m n s) h)

  marked-IsConsistent :
      (e : Event O) (es : List (Event O)) (s : S)
      → IsConsistent ids (sent s) (col.docs s) (e ∷ es)
      → Memᴰ (message e) (sent s)
      → let s' = (col.update_one (λ d. ids.id_eq d.id e.id) (mark (clock e.id)) s).1 in
        IsConsistent ids (sent s') (col.docs s') es
  marked-IsConsistent e es s h took =
      let p : Event O → Bool = λ d. ids.id_eq d.id e.id in
      let done = col.update_one p (mark (clock e.id)) s in
      subst (λ log. IsConsistent ids log (col.docs done.1) es)
        (sym (broker.update_apart p (mark (clock e.id)) s))
        (Applied-either (λ docs. IsConsistent ids (sent s) docs es) done.0 _ _ _
          (laws.update_one-docs p (mark (clock e.id)) s) (h.0, h.1.1)
          (mark-IsConsistent ids (sent s) (col.docs s) es (clock e.id) e h took))

  published-IsConsistent :
      (e : Event O) (es : List (Event O)) (s : S)
      → IsConsistent ids (sent s) (col.docs s) (e ∷ es)
      → let s' = published ids col publisher clock e (publisher.publish (message e) s) in
        IsConsistent ids (sent s') (col.docs s') es
  unfolding published
  published-IsConsistent e es s h =
      let later = publish-IsConsistent (message e) (e ∷ es) s h in
      elim (outcome (publisher.publish (message e) s).0) [
        | failure m bad ↦ rw bad (later.0, later.1.1)
        | success u took ↦
            rw took (marked-IsConsistent e es _ later (broker.takes (message e) s took))
      ]

  relay_events-IsConsistent :
      (es : List (Event O)) (s : S)
      → IsConsistent ids (sent s) (col.docs s) es
      → let s' = relay_events ids col publisher clock es s in
        All (IsDelivered (sent s')) (col.docs s')
  unfolding relay_events
  relay_events-IsConsistent [] s h = h.0
  relay_events-IsConsistent (e ∷ es) s h =
      relay_events-IsConsistent es _ (published-IsConsistent e es s h)

  -- Where the broker has taken every event that is marked as published, and events with one id
  -- carry one message, it has also taken every event that is marked after a poll of the relay,
  -- whatever fails on the way.
  pub relay_once-IsDelivered :
      (s : S)
      → All (IsDelivered (sent s)) (col.docs s)
      → All (Agrees ids (col.docs s)) (col.docs s)
      → All
          (IsDelivered (sent (relay_once ids col publisher clock s)))
          (col.docs (relay_once ids col publisher clock s))
  unfolding relay_once
  relay_once-IsDelivered s delivered agrees = elim (outcome (col.find is_unpublished s)) [
    | failure m bad ↦ rw (bad, relay_once) delivered
    | success es read ↦
        rw (read, relay_once)
          (relay_events-IsConsistent es s (
            delivered,
            subst (All (Agrees ids (col.docs s))) (sym (laws.find-docs is_unpublished s es read))
                (All-select _ is_unpublished (col.docs s) agrees),
          ))
  ]
