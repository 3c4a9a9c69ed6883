-- ===== src/Kafka/Ownership.antt =====
-- Every message is deleted exactly once.
use forward_epics_to_kafka.Base.{
  ℕ, zero, suc, ◌+◌, ◌%◌, ◌<◌, ◌==◌, ◌≡◌, ◌≢◌, refl, sym, ap, ◌∙◌, Bool, true, false, Option, none,
  some, List, [], ◌∷◌, ◌++◌, get_elem?, All, All-append, Distinct, Distinct-append, length,
  length-append, arith, inl, inr, Bool-cases, Option-cases, subst,
}
use forward_epics_to_kafka.Stream.Fill.Batches.{All-implies}
use forward_epics_to_kafka.Kafka.{
  word64, ProducerStats, Producer, new_producer, ErrorCode, no_error, queue_full,
  msg_size_too_large, other_error, mem, erase, remove_at, delete_message, delivered, make_message,
  produce_message, produce, dr_cb, report_delivery, ProducerEvent, publish, delivery, polled, poll,
  producer_event, producer_events,
}

-- The messages that live are those that librdkafka holds, and the counters agree with them.
pub record Owned (p : Producer) : Type 0 where
  pub live : p.live ≡ p.opaque
  pub distinct : Distinct p.opaque
  pub fresh : All (λ m. m < p.next) p.opaque
  pub counted :
      p.stats.produced ≡ (p.stats.produce_cb + p.stats.produce_cb_fail + length p.opaque) % word64

erase_last :
    (m : ℕ) (ns : List ℕ)
    → All (λ n. n < m) ns
    → (erase m (ns ++ m ∷ []) ≡ ns) × (mem m (ns ++ m ∷ []) ≡ true)
erase_last m [] h = ground arith
erase_last m (n ∷ ns) h = ground (arith, h.0, erase_last m ns h.1)

pub at_is_mem : (i m : ℕ) (ns : List ℕ) → get_elem? ns i ≡ some m → mem m ns ≡ true
at_is_mem i m [] e = cc
at_is_mem zero m (n ∷ ns) e = ground (arith, e)
at_is_mem (suc i) m (n ∷ ns) e = ground (arith, at_is_mem i m ns e)

not_head : (n m : ℕ) (ns : List ℕ) → All (λ b. b ≢ n) ns → mem m ns ≡ true → (m == n) ≡ false
not_head n m [] h e = cc
not_head n m (k ∷ ks) h e = elim (Bool-cases (m == k)) [
  | inl eq ↦ ground (arith, h.0, eq)
  | inr ne ↦ not_head n m ks h.1 (let e' : mem m ks ≡ true = ground (arith, e, ne) in e')
]

pub erase_at :
    (i m : ℕ) (ns : List ℕ) → Distinct ns → get_elem? ns i ≡ some m → erase m ns ≡ remove_at i ns
erase_at i m [] d e = refl
erase_at zero m (n ∷ ns) d e = ground (arith, e)
erase_at (suc i) m (n ∷ ns) d e =
    let found = at_is_mem i m ns e in
    let ne : (m == n) ≡ false = not_head n m ns d.0 found in
    rw ne (ap (◌∷◌ n) (erase_at i m ns d.1 e))

pub All-remove_at : (P : ℕ → Type 0) (i : ℕ) (ns : List ℕ) → All P ns → All P (remove_at i ns)
All-remove_at P i [] h = tt
All-remove_at P zero (n ∷ ns) h = h.1
All-remove_at P (suc i) (n ∷ ns) h = (h.0, All-remove_at P i ns h.1)

pub Distinct-remove_at : (i : ℕ) (ns : List ℕ) → Distinct ns → Distinct (remove_at i ns)
Distinct-remove_at i [] d = tt
Distinct-remove_at zero (n ∷ ns) d = d.1
Distinct-remove_at (suc i) (n ∷ ns) d =
    (All-remove_at (λ b. b ≢ n) i ns d.0, Distinct-remove_at i ns d.1)

pub length-remove_at :
    (i m : ℕ) (ns : List ℕ) → get_elem? ns i ≡ some m → length ns ≡ suc (length (remove_at i ns))
length-remove_at i m [] e = cc
length-remove_at zero m (n ∷ ns) e = refl
length-remove_at (suc i) m (n ∷ ns) e = ap suc (length-remove_at i m ns e)

-- Such a producer goes on without a fault.
abbrev pub Goes : Option Producer → Type 0
Goes o = (p : Producer) × (o ≡ some p) × Owned p

rejected :
    (st : ProducerStats) (p : Producer)
    → Owned p
    → st.produced ≡ (st.produce_cb + st.produce_cb_fail + length p.opaque) % word64
    → Goes
        (elim (elim (delete_message p.next (record (make_message p) { stats = st }))
            as (λ _. Option (Producer × ℕ)) [ none ↦ none | some p2 ↦ some (p2, 1) ])
          as (λ _. Option Producer) [ none ↦ none | some (p', r) ↦ some p' ])
unfolding make_message delete_message
rejected st p o c =
    let (gone, here) =
      erase_last p.next p.live (subst (All (λ m. m < p.next)) (sym o.live) o.fresh) in
    rw (here, gone)
      (
        _,
        refl,
        record {
          live = o.live;
          distinct = o.distinct;
          fresh = All-implies p.opaque (λ m lt. omega arith) o.fresh;
          counted = c;
        },
      )

pub publish-Goes :
    (code : ErrorCode) (size : ℕ) (p : Producer)
    → Owned p
    → Goes (producer_event (publish code size) p)
unfolding producer_event produce produce_message make_message
publish-Goes no_error size p o = (
  _,
  refl,
  record {
    live = ap (λ l. l ++ p.next ∷ []) o.live;
    distinct =
        Distinct-append p.opaque p.next o.distinct
          (All-implies p.opaque (λ m lt. omega arith) o.fresh);
    fresh =
        All-append (λ m. m < suc p.next) p.opaque (p.next ∷ [])
          (All-implies p.opaque (λ m lt. omega arith) o.fresh) (omega arith, tt);
    counted = omega (arith, o.counted, length-append p.opaque (p.next ∷ []));
  },
)
publish-Goes queue_full size p o = rejected _ p o o.counted
publish-Goes msg_size_too_large size p o = rejected _ p o o.counted
publish-Goes other_error size p o = rejected _ p o o.counted

delivery_counted :
    (failed : Bool) (p : Producer) (i : ℕ)
    → length p.opaque ≡ suc (length (remove_at i p.opaque))
    → p.stats.produced ≡ (p.stats.produce_cb + p.stats.produce_cb_fail + length p.opaque) % word64
    → let st = delivered failed p.stats in
      st.produced ≡ (st.produce_cb + st.produce_cb_fail + length (remove_at i p.opaque)) % word64
delivery_counted true p i l c = omega (arith, c, l)
delivery_counted false p i l c = omega (arith, c, l)

dr_cb-Goes :
    (i m : ℕ) (failed : Bool) (p : Producer)
    → Owned p
    → get_elem? p.opaque i ≡ some m
    → Goes (dr_cb failed m (record p { opaque = remove_at i p.opaque }))
unfolding dr_cb delete_message
dr_cb-Goes i m failed p o e =
    let here : mem m p.live ≡ true = rw o.live (at_is_mem i m p.opaque e) in
    rw here (
      _,
      refl,
      record {
        live = ap (erase m) o.live ∙ erase_at i m p.opaque o.distinct e;
        distinct = Distinct-remove_at i p.opaque o.distinct;
        fresh = All-remove_at (λ k. k < p.next) i p.opaque o.fresh;
        counted = delivery_counted failed p i (length-remove_at i m p.opaque e) o.counted;
      },
    )

producer_event-Goes : (e : ProducerEvent) (p : Producer) → Owned p → Goes (producer_event e p)
unfolding producer_event report_delivery poll
producer_event-Goes (publish code size) p o = publish-Goes code size p o
producer_event-Goes (delivery i failed) p o = elim (Option-cases (get_elem? p.opaque i)) [
  | inl e ↦ rw (e, report_delivery) (p, refl, o)
  | inr (m, e) ↦ rw (e, report_delivery) (dr_cb-Goes i m failed p o e)
]
producer_event-Goes (polled served queue_length) p o =
    (_, refl, record { live = o.live; distinct = o.distinct; fresh = o.fresh; counted = o.counted })

producer_events-Goes :
    (es : List ProducerEvent) (p : Producer) → Owned p → Goes (producer_events es p)
unfolding producer_events
producer_events-Goes [] p o = (p, refl, o)
producer_events-Goes (e ∷ es) p o =
    let (p', step, o') = producer_event-Goes e p o in
    let (p2, ends, o2) = producer_events-Goes es p' o' in (p2, rw (step, producer_events) ends, o2)

-- Whatever librdkafka answers and in whatever order it reports deliveries, no message is deleted
-- twice, none is lost: those that live are those that librdkafka still holds. And each message that
-- was counted as produced is counted as delivered, as failed, or is still held.
pub producer_events-Owned :
    (es : List ProducerEvent)
    → (p : Producer) × (producer_events es new_producer ≡ some p) × Owned p
producer_events-Owned es =
    producer_events-Goes es new_producer
      (record { live = refl; distinct = tt; fresh = tt; counted = omega arith })
