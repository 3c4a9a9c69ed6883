-- ===== src/Kafka/Race/Held.antt =====
-- The life of a message while other threads poll: what holds between the steps of `produce`.
use forward_epics_to_kafka.Base.{
  ℕ, zero, suc, ◌+◌, ◌%◌, ◌<◌, ◌≡◌, refl, ap, ◌∙◌, subst, Bool, true, false, some, List, [], ◌∷◌,
  ◌++◌, get_elem?, All, Distinct, length, arith, inl, inr, Option-cases,
}
use forward_epics_to_kafka.Kafka.{
  word64, Producer, mem, erase, remove_at, delete_message, delivered, dr_cb, report_delivery,
}
use forward_epics_to_kafka.Kafka.Ownership.{
  at_is_mem, erase_at, All-remove_at, Distinct-remove_at, length-remove_at,
}
use forward_epics_to_kafka.Kafka.Race.{serve}

-- The messages that live are those that librdkafka holds and those under way; `ahead` is how many of
-- the former are not counted as produced yet.
pub record Held (pending : List ℕ) (ahead : ℕ) (p : Producer) : Type 0 where
  pub live : p.live ≡ p.opaque ++ pending
  pub distinct : Distinct (p.opaque ++ pending)
  pub fresh : All (λ m. m < p.next) (p.opaque ++ pending)
  pub small : p.stats.produced < word64
  pub counted :
      (p.stats.produced + ahead) % word64
      ≡ (p.stats.produce_cb + p.stats.produce_cb_fail + length p.opaque) % word64

get_elem?-append :
    (i m : ℕ) (ns ks : List ℕ) → get_elem? ns i ≡ some m → get_elem? (ns ++ ks) i ≡ some m
get_elem?-append i m [] ks e = cc
get_elem?-append zero m (n ∷ ns) ks e = e
get_elem?-append (suc i) m (n ∷ ns) ks e = get_elem?-append i m ns ks e

remove_at-append :
    (i m : ℕ) (ns ks : List ℕ)
    → get_elem? ns i ≡ some m
    → remove_at i (ns ++ ks) ≡ remove_at i ns ++ ks
remove_at-append i m [] ks e = cc
remove_at-append zero m (n ∷ ns) ks e = refl
remove_at-append (suc i) m (n ∷ ns) ks e = ap (◌∷◌ n) (remove_at-append i m ns ks e)

pub get_elem?-last : (m : ℕ) (ns : List ℕ) → get_elem? (ns ++ m ∷ []) (length ns) ≡ some m
get_elem?-last m [] = refl
get_elem?-last m (n ∷ ns) = get_elem?-last m ns

pub remove_at-last : (m : ℕ) (ns : List ℕ) → remove_at (length ns) (ns ++ m ∷ []) ≡ ns
remove_at-last m [] = refl
remove_at-last m (n ∷ ns) = ap (◌∷◌ n) (remove_at-last m ns)

delivery_counted :
    (failed : Bool) (p : Producer) (i ahead : ℕ)
    → length p.opaque ≡ suc (length (remove_at i p.opaque))
    → (p.stats.produced + ahead) % word64
      ≡ (p.stats.produce_cb + p.stats.produce_cb_fail + length p.opaque) % word64
    → let st = delivered failed p.stats in
      (st.produced + ahead) % word64
      ≡ (st.produce_cb + st.produce_cb_fail + length (remove_at i p.opaque)) % word64
delivery_counted true p i ahead l c = omega (arith, c, l)
delivery_counted false p i ahead l c = omega (arith, c, l)

delivered_small :
    (failed : Bool) (p : Producer)
    → p.stats.produced < word64
    → (delivered failed p.stats).produced < word64
delivered_small true p h = h
delivered_small false p h = h

-- A delivery leaves the invariant as it is, whichever message it is of.
report_delivery-Held :
    (pending : List ℕ) (ahead i : ℕ) (failed : Bool) (p : Producer)
    → Held pending ahead p
    → (p' : Producer) × (report_delivery i failed p ≡ some p')
      × Held pending ahead p'
      × (p'.next ≡ p.next)
unfolding report_delivery dr_cb delete_message
report_delivery-Held pending ahead i failed p h = elim (Option-cases (get_elem? p.opaque i)) [
  | inl e ↦ rw (e, report_delivery) (p, refl, h, refl)
  | inr (m, e) ↦
      let there = get_elem?-append i m p.opaque pending e in
      let here : mem m p.live ≡ true = rw h.live (at_is_mem i m (p.opaque ++ pending) there) in
      let moved = remove_at-append i m p.opaque pending e in
      let p' : Producer = record p {
        opaque = remove_at i p.opaque;
        stats = delivered failed p.stats;
        live = erase m p.live;
      } in
      rw (e, report_delivery)
        (rw here (
          p',
          refl,
          record {
            live =
                ap (erase m) h.live ∙ erase_at i m (p.opaque ++ pending) h.distinct there ∙ moved;
            distinct = subst Distinct moved (Distinct-remove_at i (p.opaque ++ pending) h.distinct);
            fresh =
                subst (All (λ k. k < p.next)) moved
                  (All-remove_at (λ k. k < p.next) i (p.opaque ++ pending) h.fresh);
            small = delivered_small failed p h.small;
            counted = delivery_counted failed p i ahead (length-remove_at i m p.opaque e) h.counted;
          },
          refl,
        ))
]

pub serve-Held :
    (pending : List ℕ) (ahead : ℕ) (ds : List (ℕ × Bool)) (p : Producer)
    → Held pending ahead p
    → (p' : Producer) × (serve ds p ≡ some p') × Held pending ahead p' × (p'.next ≡ p.next)
unfolding serve
serve-Held pending ahead [] p h = (p, refl, h, refl)
serve-Held pending ahead ((i, failed) ∷ ds) p h =
    let (p1, step, h1, n1) = report_delivery-Held pending ahead i failed p h in
    let (p2, rest, h2, n2) = serve-Held pending ahead ds p1 h1 in
    (p2, rw (step, serve) rest, h2, n2 ∙ n1)
