-- ===== src/Http/Middleware/Alone.antt =====
-- ratelimit.go: the decisions on one client's requests among those of the others.
use finora.Base.{
  ◌≡◌, refl, sym, ◌∙◌, ap, Bool, true, false, not, List, [], ◌∷◌, Text, select, find_first,
  if◌then◌else◌, arith, Bool-cases, inl, inr,
}
use finora.Golang.Text.{text_eq}
use finora.Golang.Text.Laws.{text_eq-disjoint, text_eq_refl, eq_of_text_eq}
use finora.Golang.Float.{Float}
use finora.Golang.Float.Int.{ℤ}
use finora.Golang.Time.{Time}
use finora.Http.Middleware.RateLimit.{Visitor, is_of, is_stale, sweep, admit}

-- What takes the lock: a request of a client, or a sweep.
pub data Event : Type 0 where
  request : Text → Time → Event
  swept : Time → Event

-- A client's requests, and all the sweeps.
abbrev pub concerns : Text → Event → Bool
concerns ip (request from now) = text_eq from ip
concerns ip (swept now) = true

select-select :
    {A : Type 0} (p q : A → Bool) (xs : List A) → select p (select q xs) ≡ select q (select p xs)
select-select p q [] = refl
select-select p q (x ∷ xs) = ground (arith, select-select p q xs)

find_first-own :
    {A : Type 0} (p : A → Bool) (xs : List A) → find_first p (select p xs) ≡ find_first p xs
find_first-own p [] = refl
find_first-own p (x ∷ xs) = ground (arith, find_first-own p xs)

select-none : {A : Type 0} (p : A → Bool) (xs : List A) → select p (select (λ x. not (p x)) xs) ≡ []
select-none p [] = refl
select-none p (x ∷ xs) = ground (arith, select-none p xs)

select-weaker :
    {A : Type 0} (p q : A → Bool) (xs : List A)
    → ((x : A) → p x ≡ true → q x ≡ true)
    → select p (select q xs) ≡ select p xs
select-weaker p q [] h = refl
select-weaker p q (x ∷ xs) h = ground (arith, h x, select-weaker p q xs h)

module _ {L : Type 0} (new_limiter : Float → ℤ → L) (allow : Time → L → Bool × L)
    (requests_per_second : Float) (burst : ℤ) where
  abbrev admits : Text → Time → List (Visitor L) → Bool × List (Visitor L)
  admits = admit new_limiter allow requests_per_second burst

  -- The decisions on a client's requests, in their order.
  abbrev pub decisions : Text → List Event → List (Visitor L) → List Bool
  decisions ip [] visitors = []
  decisions ip (swept now ∷ events) visitors = decisions ip events (sweep now visitors)
  decisions ip (request from now ∷ events) visitors =
      let (allowed, visitors') = admits from now visitors in
      let rest = decisions ip events visitors' in if text_eq from ip then allowed ∷ rest else rest

  admit-others :
      (from ip : Text) (now : Time) (visitors : List (Visitor L))
      → text_eq from ip ≡ false
      → select (is_of ip) (admits from now visitors).1 ≡ select (is_of ip) visitors
  unfolding admit
  admit-others from ip now visitors other = rw other (
      select-weaker (is_of ip) (λ v. not (is_of from v)) visitors
        (λ x mine.
          rw
            (text_eq-disjoint x.ip ip from
              (λ e.
                absurd
                  (let same : text_eq from ip ≡ true = rw e (text_eq_refl from) in ground arith))
              mine)
            refl))

  admit-own :
      (ip : Text) (now : Time) (vs ws : List (Visitor L))
      → select (is_of ip) vs ≡ select (is_of ip) ws
      → ((admits ip now vs).0 ≡ (admits ip now ws).0)
        × (select (is_of ip) (admits ip now vs).1 ≡ select (is_of ip) (admits ip now ws).1)
  unfolding admit
  admit-own ip now vs ws same =
      let known : find_first (is_of ip) vs ≡ find_first (is_of ip) ws =
        sym (find_first-own (is_of ip) vs)
        ∙ ap (find_first (is_of ip)) same
        ∙ find_first-own (is_of ip) ws in
      rw (known, text_eq_refl ip, select-none (is_of ip) vs, select-none (is_of ip) ws) (refl, refl)

  decisions-own :
      (ip : Text) (events : List Event) (vs ws : List (Visitor L))
      → select (is_of ip) vs ≡ select (is_of ip) ws
      → decisions ip events vs ≡ decisions ip (select (concerns ip) events) ws
  unfolding sweep
  decisions-own ip [] vs ws same = refl
  decisions-own ip (swept now ∷ events) vs ws same =
      decisions-own ip events (sweep now vs) (sweep now ws) (
        let fresh : Visitor L → Bool = λ v. not (is_stale now v) in
        select-select (is_of ip) fresh vs
        ∙ ap (select fresh) same
        ∙ sym (select-select (is_of ip) fresh ws))
  decisions-own ip (request from now ∷ events) vs ws same = elim (Bool-cases (text_eq from ip)) [
    | inl own ↦
        let (bit, kept) = admit-own ip now vs ws same in
        let rest = decisions-own ip events (admits ip now vs).1 (admits ip now ws).1 kept in
        rw (eq_of_text_eq from ip own, text_eq_refl ip, bit, rest, text_eq_refl ip) refl
    | inr other ↦ rw other (
        decisions-own ip events (admits from now vs).1 ws
          (admit-others from ip now vs other ∙ same))
  ]

  -- The decisions on a client's requests are those that it would get alone, whatever other clients
  -- ask in between, with the same sweeps.
  pub decisions-alone :
      (ip : Text) (events : List Event)
      → decisions ip events [] ≡ decisions ip (select (concerns ip) events) []
  decisions-alone ip events = decisions-own ip events [] [] refl
