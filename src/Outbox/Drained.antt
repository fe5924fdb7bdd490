-- ===== src/Outbox/Drained.antt =====
-- A poll of the relay of outbox.go in which nothing fails.
use finora.Base.{
  ◌≡◌, ◌⊎◌, refl, sym, ◌∙◌, ap, Bool, true, false, List, [], ◌∷◌, All, All-weaken, All-update_first,
  select, ok, inl, inr, update_first, Bool-cases,
}
use mathlib.Core.Path.{subst}
use finora.Golang.Time.{Time}
use finora.Mongo.{Collection, IsCollection, ObjectIds}
use finora.Mongo.Laws.{Applied-ok}
use finora.Outbox.{
  Event, Message, Publisher, message, is_unpublished, mark, published, relay_events, relay_once,
}
use finora.Outbox.Delivery.{IsBroker}

-- The driver and the broker do not fail.
pub record IsUp {S O : Type 0} (col : Collection S (Event O)) (publisher : Publisher S)
    : Type 0 where
  pub publishes : (m : Message) (s : S) → (publisher.publish m s).0 ≡ ok tt
  pub finds : (p : Event O → Bool) (s : S) → (es : List (Event O)) × (col.find p s ≡ ok es)
  pub updates :
      (p : Event O → Bool) (f : Event O → Event O) (s : S)
      → (n : Prim.Native.Nat.ℕ) × ((col.update_one p f s).0 ≡ ok n)

module _ {O : Type 0} (ids : ObjectIds O) where
  -- No two events have one id.
  abbrev pub Distinct : List (Event O) → Type 0
  Distinct [] = Unit
  Distinct (d ∷ docs) = All (λ e. ids.id_eq e.id d.id ≡ false) docs × Distinct docs

  -- The id is that of one of the events.
  abbrev Among : O → List (Event O) → Type 0
  Among id [] = true ≡ false
  Among id (e ∷ es) = (ids.id_eq id e.id ≡ true) ⊎ Among id es

  -- What is not published is still to be relayed.
  abbrev Covered : List (Event O) → List (Event O) → Type 0
  Covered docs es = All (λ d. (is_unpublished d ≡ false) ⊎ Among d.id es) docs

  Covered-more : (docs es : List (Event O)) (e : Event O) → Covered docs es → Covered docs (e ∷ es)
  Covered-more docs es e h = All-weaken _ _ (λ d. more d) docs h
    where
      more :
          (d : Event O)
          → (is_unpublished d ≡ false) ⊎ Among d.id es
          → (is_unpublished d ≡ false) ⊎ Among d.id (e ∷ es)
      more d (inl marked) = inl marked
      more d (inr among) = inr (inr among)

  Covered-select : (docs : List (Event O)) → Covered docs (select is_unpublished docs)
  Covered-select [] = tt
  Covered-select (d ∷ docs) = elim (Bool-cases (is_unpublished d)) [
    | inl waiting ↦
        subst (Covered (d ∷ docs)) {x = d ∷ select is_unpublished docs} (sym (rw waiting refl))
          (inr (inl (ids.id_eq-refl d.id)), Covered-more docs _ d (Covered-select docs))
    | inr marked ↦
        subst (Covered (d ∷ docs)) {x = select is_unpublished docs} (sym (rw marked refl))
          (inl marked, Covered-select docs)
  ]

  elsewhere :
      (d e : Event O) (es : List (Event O))
      → ids.id_eq d.id e.id ≡ false
      → (is_unpublished d ≡ false) ⊎ Among d.id (e ∷ es)
      → (is_unpublished d ≡ false) ⊎ Among d.id es
  elsewhere d e es other (inl marked) = inl marked
  elsewhere d e es other (inr (inl same)) =
      absurd (let wrong : true ≡ false = sym same ∙ other in cc)
  elsewhere d e es other (inr (inr among)) = inr among

  Covered-others :
      (e : Event O) (id : O) (docs es : List (Event O))
      → id ≡ e.id
      → All (λ d. ids.id_eq d.id id ≡ false) docs
      → Covered docs (e ∷ es)
      → Covered docs es
  Covered-others e id [] es same others h = tt
  Covered-others e id (d ∷ docs) es same (other, others) (here, h) = (
    elsewhere d e es (subst (λ x. ids.id_eq d.id x ≡ false) same other) here,
    Covered-others e id docs es same others h,
  )

  Covered-mark :
      (t : Time) (e : Event O) (docs es : List (Event O))
      → Distinct docs
      → Covered docs (e ∷ es)
      → Covered (update_first (λ d. ids.id_eq d.id e.id) (mark t) docs) es
  Covered-mark t e [] es apart h = tt
  Covered-mark t e (d ∷ docs) es (other, apart) (here, h) =
      elim (Bool-cases (ids.id_eq d.id e.id)) [
        | inl named ↦
            rw named
              (inl refl, Covered-others e d.id docs es (ids.id_eq_iff d.id e.id named) other h)
        | inr unnamed ↦ rw unnamed (elsewhere d e es unnamed here, Covered-mark t e docs es apart h)
      ]

  Distinct-mark :
      (t : Time) (id : O) (docs : List (Event O))
      → Distinct docs
      → Distinct (update_first (λ d. ids.id_eq d.id id) (mark t) docs)
  Distinct-mark t id [] h = tt
  Distinct-mark t id (d ∷ docs) (other, apart) = elim (Bool-cases (ids.id_eq d.id id)) [
    | inl named ↦ rw named (other, apart)
    | inr unnamed ↦ rw unnamed (
      All-update_first (λ e. ids.id_eq e.id d.id ≡ false) _ (mark t) docs
          (All-weaken _ _ (λ x k same. k) docs other) other,
      Distinct-mark t id docs apart,
    )
  ]

  drained : (docs : List (Event O)) → Covered docs [] → select is_unpublished docs ≡ []
  drained [] h = refl
  drained (d ∷ docs) (inl marked, h) = rw (marked, drained docs h) refl
  drained (d ∷ docs) (inr never, h) = absurd cc

module _ {S O : Type 0} (ids : ObjectIds O) (col : Collection S (Event O)) (laws : IsCollection col)
    (publisher : Publisher S) (sent : S → List Message) (broker : IsBroker col publisher sent)
    (clock : O → Time) (up : IsUp col publisher) where
  relay_events-drained :
      (es : List (Event O)) (s : S)
      → Distinct ids (col.docs s)
      → Covered ids (col.docs s) es
      → select is_unpublished (col.docs (relay_events ids col publisher clock es s)) ≡ []
  unfolding relay_events published
  relay_events-drained [] s apart h = drained ids (col.docs s) h
  relay_events-drained (e ∷ es) s apart h =
      let sending = publisher.publish (message e) s in
      let p : Event O → Bool = λ d. ids.id_eq d.id e.id in
      let (n, marked) = up.updates p (mark (clock e.id)) sending.1 in
      let done = col.update_one p (mark (clock e.id)) sending.1 in
      let kept : col.docs done.1 ≡ update_first p (mark (clock e.id)) (col.docs s) =
        Applied-ok done.0 n _ _ _ (laws.update_one-docs p (mark (clock e.id)) sending.1) marked
        ∙ ap (update_first p (mark (clock e.id))) (broker.apart (message e) s) in
      rw (up.publishes (message e) s, relay_events)
        (relay_events-drained es done.1
          (subst (Distinct ids) (sym kept) (Distinct-mark ids (clock e.id) e.id (col.docs s) apart))
          (subst (λ docs. Covered ids docs es) (sym kept)
            (Covered-mark ids (clock e.id) e (col.docs s) es apart h)))

  -- A poll in which neither the driver nor the broker fails leaves no event of the outbox
  -- unpublished, where no two events have one id.
  pub relay_once-drained :
      (s : S)
      → Distinct ids (col.docs s)
      → select is_unpublished (col.docs (relay_once ids col publisher clock s)) ≡ []
  unfolding relay_once
  relay_once-drained s apart =
      let (es, read) = up.finds is_unpublished s in
      rw (read, relay_once)
        (relay_events-drained es s apart (
          subst (Covered ids (col.docs s)) (sym (laws.find-docs is_unpublished s es read))
            (Covered-select ids (col.docs s))))
