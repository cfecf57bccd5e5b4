-- ===== src/App/Events/Queues.antt =====
-- Lists of client numbers, and the bound of the channels.
use kfadapter.Base.{
  ℕ, suc, ◌≤◌, ◌≡◌, inl, inr, refl, sym, ◌∙◌, ap, Bool, true, false, ◌&&◌, ◌||◌, not, List, [], ◌∷◌,
  ◌++◌, length, leb, ◌==◌, arith, Bool-cases, length-append, all, &&_parts,
}
use kfadapter.App.Events.{
  Event, Subscriber, offer, offer_all, pop, tail_of, delete_client, has_client, client_ids,
}

abbrev pub is_id : ℕ → List ℕ → Bool
is_id n [] = false
is_id n (i ∷ is) = i == n || is_id n is

-- No number twice.
abbrev pub unique : List ℕ → Bool
unique [] = true
unique (i ∷ is) = not (is_id i is) && unique is

-- No number in both.
abbrev pub apart : List ℕ → List ℕ → Bool
apart [] js = true
apart (i ∷ is) js = not (is_id i js) && apart is js

-- None above a bound.
abbrev pub up_to : ℕ → List ℕ → Bool
up_to n is = all (λ i. leb i n) is

abbrev pub fits : ℕ → List Subscriber → Bool
fits buffer ss = all (λ (s : Subscriber). leb (length s.queued) buffer) ss

pub up_to-is_id : (n : ℕ) (is : List ℕ) → up_to n is ≡ true → is_id (suc n) is ≡ false
up_to-is_id n [] h = refl
up_to-is_id n (i ∷ is) h = ground (arith, up_to-is_id n is)

pub up_to-suc : (n : ℕ) (is : List ℕ) → up_to n is ≡ true → up_to (suc n) is ≡ true
up_to-suc n [] h = refl
up_to-suc n (i ∷ is) h = ground (arith, up_to-suc n is)

pub client_ids-offer_all :
    (buffer : ℕ) (e : Event) (ss : List Subscriber)
    → client_ids (offer_all buffer e ss) ≡ client_ids ss
client_ids-offer_all buffer e [] = refl
client_ids-offer_all buffer e (s ∷ ss) = ground (arith, client_ids-offer_all buffer e ss)

pub client_ids-pop : (id : ℕ) (ss : List Subscriber) → client_ids (pop id ss) ≡ client_ids ss
client_ids-pop id [] = refl
client_ids-pop id (s ∷ ss) = ground (arith, client_ids-pop id ss)

pub length-client_ids : (ss : List Subscriber) → length (client_ids ss) ≡ length ss
length-client_ids [] = refl
length-client_ids (s ∷ ss) = ap suc (length-client_ids ss)

length-tail_of : (es : List Event) → length (tail_of es) ≤ length es
length-tail_of [] = omega arith
length-tail_of (e ∷ es) = omega arith

offer-fits :
    (buffer : ℕ) (e : Event) (s : Subscriber)
    → leb (length s.queued) buffer ≡ true
    → leb (length (offer buffer e s).queued) buffer ≡ true
offer-fits buffer e s h = ground (arith, length-append s.queued (e ∷ []))

pub offer_all-fits :
    (buffer : ℕ) (e : Event) (ss : List Subscriber)
    → fits buffer ss ≡ true
    → fits buffer (offer_all buffer e ss) ≡ true
offer_all-fits buffer e [] h = refl
offer_all-fits buffer e (s ∷ ss) h =
    let (one, rest) = &&_parts (leb (length s.queued) buffer) (fits buffer ss) h in
    rw (offer-fits buffer e s one, offer_all-fits buffer e ss rest) refl

pub pop-fits :
    (buffer id : ℕ) (ss : List Subscriber) → fits buffer ss ≡ true → fits buffer (pop id ss) ≡ true
pop-fits buffer id [] h = refl
pop-fits buffer id (s ∷ ss) h = ground (arith, length-tail_of s.queued, pop-fits buffer id ss)

pub delete_client-fits :
    (buffer id : ℕ) (ss : List Subscriber)
    → fits buffer ss ≡ true
    → fits buffer (delete_client id ss) ≡ true
delete_client-fits buffer id [] h = refl
delete_client-fits buffer id (s ∷ ss) h = ground (arith, delete_client-fits buffer id ss)

pub length-delete_client :
    (id : ℕ) (ss : List Subscriber) → length (delete_client id ss) ≤ length ss
length-delete_client id [] = omega arith
length-delete_client id (s ∷ ss) = ground (arith, length-delete_client id ss)

-- Deleting a client takes its number away, and no other.
pub delete_client-is_id :
    (id n : ℕ) (ss : List Subscriber)
    → is_id n (client_ids (delete_client id ss)) ≡ (not (id == n) && is_id n (client_ids ss))
delete_client-is_id id n [] = ground arith
delete_client-is_id id n (s ∷ ss) = ground (arith, delete_client-is_id id n ss)

pub delete_client-unique :
    (id : ℕ) (ss : List Subscriber)
    → unique (client_ids ss) ≡ true
    → unique (client_ids (delete_client id ss)) ≡ true
delete_client-unique id [] h = refl
delete_client-unique id (s ∷ ss) h =
    ground (arith, delete_client-is_id id s.id ss, delete_client-unique id ss)

pub delete_client-up_to :
    (id n : ℕ) (ss : List Subscriber)
    → up_to n (client_ids ss) ≡ true
    → up_to n (client_ids (delete_client id ss)) ≡ true
delete_client-up_to id n [] h = refl
delete_client-up_to id n (s ∷ ss) h = ground (arith, delete_client-up_to id n ss)

pub delete_client-apart :
    (id : ℕ) (ss : List Subscriber) (js : List ℕ)
    → apart (client_ids ss) js ≡ true
    → apart (client_ids (delete_client id ss)) (id ∷ js) ≡ true
delete_client-apart id [] js h = refl
delete_client-apart id (s ∷ ss) js h = ground (arith, delete_client-apart id ss js)

-- A client that is there has a number that no closed channel has.
pub has_client-apart :
    (id n : ℕ) (ss : List Subscriber) (js : List ℕ)
    → has_client id ss ≡ true
    → apart (client_ids ss) js ≡ true
    → up_to n (client_ids ss) ≡ true
    → (is_id id js ≡ false) × (leb id n ≡ true)
has_client-apart id n [] js h a u = ground arith
has_client-apart id n (s ∷ ss) js h a u = elim (Bool-cases (s.id == id)) [
  | inl e ↦
      let same : s.id ≡ id = ground arith in
      (
        ap (λ (k : ℕ). is_id k js) (sym same) ∙ ground arith,
        ap (λ (k : ℕ). leb k n) (sym same) ∙ ground arith,
      )
  | inr e ↦ has_client-apart id n ss js (ground arith) (ground arith) (ground arith)
]

is_id-append : (n : ℕ) (is js : List ℕ) → is_id n (is ++ js) ≡ (is_id n is || is_id n js)
is_id-append n [] js = refl
is_id-append n (i ∷ is) js = ground (arith, is_id-append n is js)

pub unique-append :
    (is js : List ℕ)
    → unique is ≡ true
    → unique js ≡ true
    → apart is js ≡ true
    → unique (is ++ js) ≡ true
unique-append [] js u v a = v
unique-append (i ∷ is) js u v a = ground (arith, is_id-append i is js, unique-append is js)

pub up_to-append :
    (n : ℕ) (is js : List ℕ) → up_to n is ≡ true → up_to n js ≡ true → up_to n (is ++ js) ≡ true
up_to-append n [] js u v = v
up_to-append n (i ∷ is) js u v = ground (arith, up_to-append n is js)
