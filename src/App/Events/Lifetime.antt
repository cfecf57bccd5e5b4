-- ===== src/App/Events/Lifetime.antt =====
-- What the hub keeps through any sequence of calls.
use kfadapter.Base.{
  ℕ, suc, ◌≤◌, ◌<◌, ◌≡◌, inl, inr, refl, sym, ◌∙◌, ap, subst, true, false, ◌||◌, not, List, [], ◌∷◌,
  ◌++◌, length, leb, arith, Bool-cases,
}
use kfadapter.App.Events.{
  Event, Subscriber, EventHub, Cancel, Call, subscribing, closing, cancelling, receiving,
  publishing, offer_all, pop, delete_client, has_client, client_ids, new_event_hub, subscribe,
  cancel, publish, close, receive, step, run, safe_event_type,
}
use kfadapter.App.Events.Queues.{
  unique, apart, up_to, fits, up_to-is_id, up_to-suc, client_ids-offer_all, client_ids-pop,
  length-client_ids, offer_all-fits, pop-fits, delete_client-fits, length-delete_client,
  delete_client-unique, delete_client-up_to, delete_client-apart, has_client-apart, unique-append,
  up_to-append,
}

-- No more clients than the capacity, no channel beyond its size; no two clients with one number, no
-- channel closed twice, and none of a present client closed; a closed hub has no client.
pub record IsSound (h : EventHub) : Type 0 where
  pub within_capacity : length h.clients ≤ h.capacity
  pub within_buffer : fits h.buffer h.clients ≡ true
  pub distinct_clients : unique (client_ids h.clients) ≡ true
  pub closed_once : unique h.closed_channels ≡ true
  pub open_channels : apart (client_ids h.clients) h.closed_channels ≡ true
  pub numbered : up_to h.next_id (client_ids h.clients) ≡ true
  pub numbered_closed : up_to h.next_id h.closed_channels ≡ true
  pub emptied : h.closed ≡ true → h.clients ≡ []

new_event_hub-IsSound : (capacity buffer : ℕ) → IsSound (new_event_hub capacity buffer)
unfolding new_event_hub
new_event_hub-IsSound capacity buffer = record {
  within_capacity = omega arith;
  within_buffer = refl;
  distinct_clients = refl;
  closed_once = refl;
  open_channels = refl;
  numbered = refl;
  numbered_closed = refl;
  emptied = λ e. refl;
}

-- The same clients, in the same order, with other queues.
requeue-IsSound :
    (h : EventHub) (ss : List Subscriber)
    → IsSound h
    → client_ids ss ≡ client_ids h.clients
    → fits h.buffer ss ≡ true
    → (h.closed ≡ true → ss ≡ [])
    → IsSound (record h { clients = ss })
requeue-IsSound h ss s same fit emptied = record {
  within_capacity = ground (
    arith,
    length-client_ids ss,
    length-client_ids h.clients,
    ap (λ (l : List ℕ). length l) same,
    s.within_capacity,
  );
  within_buffer = fit;
  distinct_clients = ap unique same ∙ s.distinct_clients;
  closed_once = s.closed_once;
  open_channels = ap (λ (l : List ℕ). apart l h.closed_channels) same ∙ s.open_channels;
  numbered = ap (up_to h.next_id) same ∙ s.numbered;
  numbered_closed = s.numbered_closed;
  emptied = emptied;
}

added-IsSound :
    (h : EventHub)
    → IsSound h
    → h.closed ≡ false
    → length h.clients < h.capacity
    → IsSound (record h {
      next_id = suc h.next_id;
      clients = record { id = suc h.next_id; queued = [] } ∷ h.clients;
    })
added-IsSound h s still_open room = record {
  within_capacity = omega (arith, room);
  within_buffer = ground (arith, s.within_buffer);
  distinct_clients =
      ground (arith, s.distinct_clients, up_to-is_id h.next_id (client_ids h.clients) s.numbered);
  closed_once = s.closed_once;
  open_channels =
      ground (arith, s.open_channels, up_to-is_id h.next_id h.closed_channels s.numbered_closed);
  numbered = ground (arith, up_to-suc h.next_id (client_ids h.clients) s.numbered);
  numbered_closed = up_to-suc h.next_id h.closed_channels s.numbered_closed;
  emptied = λ e. absurd (ground arith);
}

subscribe-IsSound : (h : EventHub) → IsSound h → IsSound (subscribe h).1
unfolding subscribe
subscribe-IsSound h s = elim (Bool-cases h.closed) [
  | inl e ↦ let same : (subscribe h).1 ≡ h = ground arith in subst IsSound (sym same) s
  | inr e ↦ elim (Bool-cases (leb h.capacity (length h.clients))) [
    | inl full ↦ let same : (subscribe h).1 ≡ h = ground arith in subst IsSound (sym same) s
    | inr room ↦
        let new : EventHub = record h {
          next_id = suc h.next_id;
          clients = record { id = suc h.next_id; queued = [] } ∷ h.clients;
        } in
        let same : (subscribe h).1 ≡ new = ground arith in
        subst IsSound (sym same) (added-IsSound h s e (ground arith))
  ]
]

removed-IsSound :
    (h : EventHub) (id : ℕ)
    → IsSound h
    → has_client id h.clients ≡ true
    → IsSound (record h {
      clients = delete_client id h.clients;
      closed_channels = id ∷ h.closed_channels;
    })
removed-IsSound h id s there =
    let (fresh, low) =
      has_client-apart id h.next_id h.clients h.closed_channels there s.open_channels s.numbered in
    record {
      within_capacity = omega (arith, length-delete_client id h.clients, s.within_capacity);
      within_buffer = delete_client-fits h.buffer id h.clients s.within_buffer;
      distinct_clients = delete_client-unique id h.clients s.distinct_clients;
      closed_once = rw (fresh, s.closed_once) refl;
      open_channels = delete_client-apart id h.clients h.closed_channels s.open_channels;
      numbered = delete_client-up_to id h.next_id h.clients s.numbered;
      numbered_closed = rw (low, s.numbered_closed) refl;
      emptied = λ e. ap (delete_client id) (s.emptied e);
    }

cancel-IsSound : (c : Cancel) (h : EventHub) → IsSound h → IsSound (cancel c h).1
unfolding cancel
cancel-IsSound c h s = elim (Bool-cases c.fired) [
  | inl e ↦ let same : (cancel c h).1 ≡ h = ground arith in subst IsSound (sym same) s
  | inr e ↦ elim (Bool-cases (has_client c.client h.clients)) [
    | inl there ↦
        let new : EventHub = record h {
          clients = delete_client c.client h.clients;
          closed_channels = c.client ∷ h.closed_channels;
        } in
        let same : (cancel c h).1 ≡ new = ground arith in
        subst IsSound (sym same) (removed-IsSound h c.client s there)
    | inr gone ↦ let same : (cancel c h).1 ≡ h = ground arith in subst IsSound (sym same) s
  ]
]

publish-IsSound : (e : Event) (h : EventHub) → IsSound h → IsSound (publish e h)
unfolding publish
publish-IsSound e h s = elim (Bool-cases (not (safe_event_type e.type_of) || h.closed)) [
  | inl skipped ↦ let same : publish e h ≡ h = ground arith in subst IsSound (sym same) s
  | inr sent ↦
      let same : publish e h ≡ record h { clients = offer_all h.buffer e h.clients } =
        ground arith in
      subst IsSound (sym same) (
        requeue-IsSound h (offer_all h.buffer e h.clients) s
          (client_ids-offer_all h.buffer e h.clients)
          (offer_all-fits h.buffer e h.clients s.within_buffer)
          (λ x. ap (offer_all h.buffer e) (s.emptied x)))
]

emptied-IsSound :
    (h : EventHub)
    → IsSound h
    → IsSound (record h {
      closed = true;
      clients = [];
      closed_channels = client_ids h.clients ++ h.closed_channels;
    })
emptied-IsSound h s = record {
  within_capacity = omega arith;
  within_buffer = refl;
  distinct_clients = refl;
  closed_once =
      unique-append (client_ids h.clients) h.closed_channels s.distinct_clients s.closed_once
        s.open_channels;
  open_channels = refl;
  numbered = refl;
  numbered_closed =
      up_to-append h.next_id (client_ids h.clients) h.closed_channels s.numbered s.numbered_closed;
  emptied = λ e. refl;
}

close-IsSound : (h : EventHub) → IsSound h → IsSound (close h)
unfolding close
close-IsSound h s = elim (Bool-cases h.closed) [
  | inl e ↦ let same : close h ≡ h = ground arith in subst IsSound (sym same) s
  | inr e ↦
      let new : EventHub = record h {
        closed = true;
        clients = [];
        closed_channels = client_ids h.clients ++ h.closed_channels;
      } in
      let same : close h ≡ new = ground arith in subst IsSound (sym same) (emptied-IsSound h s)
]

step-IsSound : (c : Call) (h : EventHub) → IsSound h → IsSound (step c h)
unfolding step receive
step-IsSound subscribing h s = subscribe-IsSound h s
step-IsSound closing h s = close-IsSound h s
step-IsSound (cancelling id) h s = cancel-IsSound (record { client = id; fired = false }) h s
step-IsSound (receiving id) h s =
    requeue-IsSound h (pop id h.clients) s (client_ids-pop id h.clients)
      (pop-fits h.buffer id h.clients s.within_buffer) (λ x. ap (pop id) (s.emptied x))
step-IsSound (publishing e) h s = publish-IsSound e h s

run-IsSound_from : (calls : List Call) (h : EventHub) → IsSound h → IsSound (run calls h)
unfolding run
run-IsSound_from [] h s = s
run-IsSound_from (c ∷ cs) h s = run-IsSound_from cs (step c h) (step-IsSound c h s)

-- Through any calls on a new hub, in any order, the clients stay within the capacity and their
-- channels within the buffer; no channel is closed twice, which would panic, and none is closed
-- while its client is still sent to; and once the hub is closed it has no client.
pub run-IsSound :
    (capacity buffer : ℕ) (calls : List Call) → IsSound (run calls (new_event_hub capacity buffer))
run-IsSound capacity buffer calls =
    run-IsSound_from calls (new_event_hub capacity buffer) (new_event_hub-IsSound capacity buffer)
