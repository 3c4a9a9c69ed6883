-- ===== src/Kafka/Race/Threads.antt =====
-- `produce` while other threads poll: when it ends well, and when it reads a deleted message.
use forward_epics_to_kafka.Base.{
  ℕ, suc, ◌%◌, ◌^◌, ◌<◌, ◌≡◌, refl, sym, ap, ◌∙◌, subst, Bool, true, false, Option, none, some,
  List, [], ◌∷◌, ◌++◌, All, Distinct, Distinct-append, length, length-append, All-append, arith,
  inl, inr, Bool-cases, append-nil,
}
use mathlib.Core.Option.{some-injective}
use forward_epics_to_kafka.Stream.Fill.Batches.{All-implies}
use forward_epics_to_kafka.Kafka.{
  Producer, ErrorCode, no_error, queue_full, msg_size_too_large, other_error, mem, erase,
  delete_message, make_message, dr_cb, produce_message, produce, report_delivery,
}
use forward_epics_to_kafka.Kafka.Ownership.{
  Owned, at_is_mem, erase_at, All-remove_at, Distinct-remove_at,
}
use forward_epics_to_kafka.Kafka.Race.{
  serve, enqueue, producer_produce, rejected_as, account, reach_switch, produce_among,
}
use forward_epics_to_kafka.Kafka.Race.Held.{Held, serve-Held, get_elem?-last, remove_at-last}

make_message-Held : (p : Producer) → Owned p → Held (p.next ∷ []) 0 (make_message p)
unfolding make_message
make_message-Held p o = record {
  live = ap (λ l. l ++ p.next ∷ []) o.live;
  distinct =
      Distinct-append p.opaque p.next o.distinct
        (All-implies p.opaque (λ m lt. omega arith) o.fresh);
  fresh =
      All-append (λ m. m < suc p.next) p.opaque (p.next ∷ [])
        (All-implies p.opaque (λ m lt. omega arith) o.fresh) (omega arith, tt);
  small = omega (arith, o.counted);
  counted = omega (arith, o.counted);
}

abbrev pending_of : ErrorCode → ℕ → List ℕ
pending_of no_error m = []
pending_of _ m = m ∷ []

abbrev ahead_of : ErrorCode → ℕ
ahead_of no_error = 1
ahead_of _ = 0

enqueue-Held :
    (code : ErrorCode) (m : ℕ) (p : Producer)
    → Held (m ∷ []) 0 p
    → Held (pending_of code m) (ahead_of code) (enqueue code m p)
enqueue-Held no_error m p h =
    let same = append-nil (p.opaque ++ m ∷ []) in
    record {
      live = h.live ∙ sym same;
      distinct = subst Distinct (sym same) h.distinct;
      fresh = subst (All (λ k. k < p.next)) (sym same) h.fresh;
      small = h.small;
      counted = omega (arith, h.counted, length-append p.opaque (m ∷ []));
    }
enqueue-Held queue_full m p h = h
enqueue-Held msg_size_too_large m p h = h
enqueue-Held other_error m p h = h

-- Whether the message may still be read: librdkafka has not handed it back.
abbrev pub still_held : ErrorCode → ℕ → Producer → Bool
still_held no_error m p = mem m p.opaque
still_held _ m p = true

abbrev pub result_of : ErrorCode → ℕ
result_of no_error = 0
result_of _ = 1

-- How `produce` ends: well, if the message may still be read, and else with an access to it.
abbrev pub Ends : Bool → ErrorCode → Option (Producer × ℕ) → Type 0
Ends true code r = (p : Producer) × (r ≡ some (p, result_of code)) × Owned p
Ends false code r = r ≡ none

rejected :
    (m : ℕ) (p q : Producer)
    → Held (m ∷ []) 0 p
    → q.live ≡ p.live
    → q.opaque ≡ p.opaque
    → q.next ≡ p.next
    → q.stats.produced ≡ p.stats.produced
    → q.stats.produce_cb ≡ p.stats.produce_cb
    → q.stats.produce_cb_fail ≡ p.stats.produce_cb_fail
    → (q' : Producer) × (delete_message m q ≡ some q') × Owned q'
unfolding delete_message
rejected m p q h live opaque next_same made cb cb_fail =
    let there = get_elem?-last m p.opaque in
    let all = p.opaque ++ m ∷ [] in
    let back = remove_at-last m p.opaque in
    let here : mem m q.live ≡ true = rw (live, h.live) (at_is_mem (length p.opaque) m all there) in
    rw here (
      record q { live = erase m q.live },
      refl,
      record {
        live =
            ap (erase m) (live ∙ h.live)
            ∙ erase_at (length p.opaque) m all h.distinct there
            ∙ back
            ∙ sym opaque;
        distinct =
            subst Distinct (back ∙ sym opaque)
              (Distinct-remove_at (length p.opaque) all h.distinct);
        fresh = rw next_same (
            subst (All (λ k. k < p.next)) (back ∙ sym opaque)
              (All-remove_at (λ k. k < p.next) (length p.opaque) all h.fresh));
        counted = omega (arith, h.counted, h.small, made, cb, cb_fail, ap length opaque);
      },
    )

refused :
    (code : ErrorCode) (m : ℕ) (p : Producer)
    → Held (m ∷ []) 0 p
    → (r : Producer) × (delete_message m (rejected_as code p) ≡ some r) × Owned r
refused no_error m p h = rejected m p (rejected_as no_error p) h refl refl refl refl refl refl
refused queue_full m p h = rejected m p (rejected_as queue_full p) h refl refl refl refl refl refl
refused msg_size_too_large m p h =
    rejected m p (rejected_as msg_size_too_large p) h refl refl refl refl refl refl
refused other_error m p h = rejected m p (rejected_as other_error p) h refl refl refl refl refl refl

account-Ends :
    (code : ErrorCode) (size m : ℕ) (p : Producer)
    → Held (pending_of code m) (ahead_of code) p
    → Ends (still_held code m p) code (account code size m p)
unfolding account
account-Ends no_error size m p h =
    let same = append-nil p.opaque in
    let live : p.live ≡ p.opaque = h.live ∙ same in
    elim (Bool-cases (mem m p.opaque)) [
      | inl e ↦
          rw (live, e)
            (
              _,
              refl,
              record {
                live = refl;
                distinct = subst Distinct same h.distinct;
                fresh = subst (All (λ k. k < p.next)) same h.fresh;
                counted = h.counted;
              },
            )
      | inr e ↦ rw (live, e) refl
    ]
account-Ends queue_full size m p h =
    let (q, gone, o) = refused queue_full m p h in rw (gone, account) (q, refl, o)
account-Ends msg_size_too_large size m p h =
    let (q, gone, o) = refused msg_size_too_large m p h in rw (gone, account) (q, refl, o)
account-Ends other_error size m p h =
    let (q, gone, o) = refused other_error m p h in rw (gone, account) (q, refl, o)

-- Whatever is delivered in the poll of `produce`, and by the polls of other threads after librdkafka's
-- answer: the switch is reached, and if librdkafka still holds the message there, or refused it,
-- `produce` ends with the result for the answer, no message is lost or deleted twice and the counters
-- agree. If it has handed the message back, its size is read from a message that was deleted.
pub produce_among-Ends :
    (served : List (ℕ × Bool)) (code : ErrorCode) (between : List (ℕ × Bool)) (size : ℕ)
    (p : Producer)
    → Owned p
    → (q : Producer) × (reach_switch served code between p ≡ some q)
      × Ends (still_held code p.next q) code (produce_among served code between size p)
unfolding reach_switch produce_among producer_produce
produce_among-Ends served code between size p o =
    let (p1, polled, h1, n1) =
      serve-Held (p.next ∷ []) 0 served (make_message p) (make_message-Held p o) in
    let (q, reached, h, n) =
      serve-Held (pending_of code p.next) (ahead_of code) between (enqueue code p.next p1)
        (enqueue-Held code p.next p1 h1) in
    let all : reach_switch served code between p ≡ some q =
      rw (polled, reach_switch, producer_produce) reached in
    (q, all, rw (all, produce_among) (account-Ends code (size % 2 ^ 32) p.next q h))

enqueue-still_held :
    (code : ErrorCode) (m : ℕ) (p : Producer) → still_held code m (enqueue code m p) ≡ true
enqueue-still_held no_error m p =
    at_is_mem (length p.opaque) m (p.opaque ++ m ∷ []) (get_elem?-last m p.opaque)
enqueue-still_held queue_full m p = refl
enqueue-still_held msg_size_too_large m p = refl
enqueue-still_held other_error m p = refl

-- Where no other thread polls, `produce` ends with the result for the answer, whatever its own poll
-- delivers.
pub produce_alone-Ends :
    (served : List (ℕ × Bool)) (code : ErrorCode) (size : ℕ) (p : Producer)
    → Owned p
    → Ends true code (produce_among served code [] size p)
unfolding produce_among reach_switch producer_produce serve
produce_alone-Ends served code size p o =
    let (p1, polled, h1, _) =
      serve-Held (p.next ∷ []) 0 served (make_message p) (make_message-Held p o) in
    let all : reach_switch served code [] p ≡ some (enqueue code p.next p1) =
      rw (polled, reach_switch, producer_produce) refl in
    let ends =
      account-Ends code (size % 2 ^ 32) p.next (enqueue code p.next p1)
        (enqueue-Held code p.next p1 h1) in
    rw (all, produce_among) (rw (enqueue-still_held code p.next p1) at ends)

not_mem : (m : ℕ) (ns : List ℕ) → All (λ n. n < m) ns → mem m ns ≡ false
not_mem m [] h = refl
not_mem m (n ∷ ns) h = ground (arith, h.0, not_mem m ns h.1)

-- A message that is delivered by another thread's poll as soon as librdkafka has it.
delivered_at_once :
    (failed : Bool) (p : Producer)
    → Owned p
    → (q : Producer) × (reach_switch [] no_error ((length p.opaque, failed) ∷ []) p ≡ some q)
      × (q.opaque ≡ p.opaque)
unfolding reach_switch producer_produce serve make_message report_delivery dr_cb delete_message
delivered_at_once failed p o =
    let there = get_elem?-last p.next p.opaque in
    let here : mem p.next (p.live ++ p.next ∷ []) ≡ true =
      rw o.live (at_is_mem (length p.opaque) p.next (p.opaque ++ p.next ∷ []) there) in
    rw (there, reach_switch, serve, report_delivery)
      (rw here (_, refl, remove_at-last p.next p.opaque))

-- There is such a schedule in every state: that another thread's poll delivers the message itself, as
-- soon as librdkafka has accepted it.
pub produce_raced :
    (failed : Bool) (size : ℕ) (p : Producer)
    → Owned p
    → produce_among [] no_error ((length p.opaque, failed) ∷ []) size p ≡ none
produce_raced failed size p o =
    let (q, reached, same) = delivered_at_once failed p o in
    let (q', reached', ends) =
      produce_among-Ends [] no_error ((length p.opaque, failed) ∷ []) size p o in
    let q_eq = some-injective q' q (sym reached' ∙ reached) in
    let gone : mem p.next q'.opaque ≡ false =
      ap (mem p.next) (ap (λ (r : Producer). r.opaque) q_eq ∙ same)
      ∙ not_mem p.next p.opaque o.fresh in
    rw gone at ends

-- Without deliveries the steps of `produce` make up the one step that it is where one thread polls.
pub produce_among-produce :
    (code : ErrorCode) (size : ℕ) (p : Producer)
    → Owned p
    → produce_among [] code [] size p ≡ produce code size p
unfolding produce_among reach_switch producer_produce serve account produce produce_message
    make_message
produce_among-produce no_error size p o =
    let here : mem p.next (p.live ++ p.next ∷ []) ≡ true = rw o.live (
      at_is_mem (length p.opaque) p.next (p.opaque ++ p.next ∷ [])
        (get_elem?-last p.next p.opaque)) in
    rw here refl
produce_among-produce queue_full size p o = refl
produce_among-produce msg_size_too_large size p o = refl
produce_among-produce other_error size p o = refl
